-- ===== src/Cli/Run.antt =====
-- `Cli`, `Command` and `run` of src/main.rs.
pub mod Keys
pub mod Prepare
pub mod Boot
pub mod Configure
pub mod Sessions
pub mod Tests
use malleus.Base.{ℕ, Bool, Option, none, some, List, []}
use malleus.Base.Text.{Text}
use malleus.Base.Ipv4.{Ipv4Addr}
use malleus.Base.FilePath.{FilePath}
use malleus.Base.Result.{Result, map_err}
use malleus.Base.Io.{Io, pure, check, ◌>>=◌, ◌>>◌}
use malleus.Base.Fs.{IoError, World}
use malleus.Cli.Error.{CliError, CliIo}
use malleus.Cli.Names.{cmd_mount, cmd_unmount}
use malleus.Cli.Process.{Ps, cmd_stop}
use malleus.Cli.Settings.{default_state_dir, cmd_status}
use malleus.Cli.Start.{Outside}
use malleus.Cli.Spawn.{Machine, cmd_start}
use malleus.Cli.Delete.{cmd_delete}
use malleus.Cli.Address.{Network}
use malleus.Cli.Incus.{Output, cmd_autoconfigure}

pub data Command : Type 0 where
  start stop status delete : Command
  mount : FilePath → Option Text → Command
  unmount : Text → Command
  autoconfigure : Option Ipv4Addr → Text → Option FilePath → Command

pub record Cli : Type 0 where
  pub state_dir : Option FilePath
  pub command : Command

-- All that the program runs with: the libraries and programs outside, the environment, and the
-- lines that are typed while the command runs.
pub record Setting : Type 1 where
  pub machine : Machine
  pub outside : Outside
  pub network : Network
  pub ps : Ps
  pub kill : Text → World → Result IoError Bool × World
  pub incus : FilePath → List Text → Io World IoError Output
  pub file_name : FilePath → Option Text
  pub home : Option Text
  pub incus_conf : Option Text
  pub typed : List (Result IoError Text)

abbrev pub state_dir_or : Option Text → Option FilePath → FilePath
state_dir_or home none = default_state_dir home
state_dir_or home (some dir) = dir

-- A command that has no lines as its result.
abbrev pub silent : CliIo (Unit {0}) → CliIo (List Text)
silent command = do command; pure []

module _ (setting : Setting) where
  open setting use {machine, outside, network, ps, kill, incus, file_name, home, incus_conf, typed}

  unfoldable pub run_command : FilePath → Command → CliIo (List Text)
  run_command dir start = silent (cmd_start machine outside typed dir)
  run_command dir stop = silent (cmd_stop kill dir)
  run_command dir status = cmd_status outside.from_toml outside.from_utf8_lossy ps dir
  run_command dir delete = silent (cmd_delete dir)
  run_command dir (mount host_path name) = silent (check (cmd_mount file_name host_path name))
  run_command dir (unmount name) = silent (check (cmd_unmount name))
  run_command dir (autoconfigure vm_ip remote_name conf) = silent (
      cmd_autoconfigure machine outside network typed incus ps home incus_conf dir vm_ip remote_name
        conf)

  unfoldable pub run : Cli → CliIo (List Text)
  unfolding run_command
  run cli = run_command (state_dir_or home cli.state_dir) cli.command

  -- `run_with_args`; the parser of the arguments is derived code of `clap`.
  unfoldable pub run_with_args : (List Text → Result Text Cli) → List Text → CliIo (List Text)
  unfolding run
  run_with_args try_parse_from args = do
    cli ← check (map_err CliError.clap (try_parse_from args))
    run cli
