-- ===== src/Cli/Settings.antt =====
-- Where the state is and what it says: `default_state_dir`, `default_incus_conf_dir`,
-- `load_config` and `cmd_status` of src/main.rs.
pub mod Laws
pub mod Stopped
use malleus.Base.{
  ℕ, Bool, true, false, not, ◌&&◌, Option, none, some, List, [], ◌∷◌, ◌++◌, all, is_empty,
  if◌then◌else◌,
}
use malleus.Base.Text.{Text, codes, trim}
use malleus.Base.Number.{to_string, parse_u32}
use malleus.Base.FilePath.{FilePath, join_path, display}
use malleus.Base.Result.{Result, ok, err, map_err}
use malleus.Base.Io.{Io, pure, check, from_error, ◌>>=◌, ◌>>◌}
use malleus.Base.Fs.{IoError, World, exists, read_to_string}
use malleus.Config.{Config, validate, default}
use malleus.Pki.{PkiPaths, pki_paths, existing}
use malleus.Cli.Error.{CliError, io, config_parse, config_validation, CliIo}
use malleus.Cli.Process.{Ps, pid_path, is_vm_running}

abbrev or_here : Option Text → Text
or_here none = codes "."
or_here (some home) = home

-- `home` and `incus_conf` are variables of the environment.
unfoldable pub default_state_dir : Option Text → FilePath
default_state_dir home = join_path (or_here home ∷ []) (codes ".malleus")

abbrev in_home : Option Text → FilePath
in_home home = join_path (or_here home ∷ []) (codes ".config/incus-malleus")

unfoldable pub default_incus_conf_dir : Option Text → Option Text → FilePath
default_incus_conf_dir none home = in_home home
default_incus_conf_dir (some dir) home = if is_empty dir then in_home home else dir ∷ []

abbrev checked : Config → CliIo Config
checked cfg = do check (map_err config_validation (validate cfg)); pure cfg

-- The parser of the TOML library, and its errors as they print.
module _ (from_toml : Text → Result Text Config) where
  unfoldable pub load_config : FilePath → CliIo Config
  load_config state_dir w =
      let path = join_path state_dir (codes "config.toml") in
      if not (exists path w)
      then checked default w
      else (do
        raw ← from_error io (read_to_string path)
        cfg ← check (map_err (config_parse path) (from_toml raw))
        checked cfg)
          w

  module _ (from_utf8_lossy : List ℕ → Text) (ps : Ps) where
    abbrev pub pid_status : Option ℕ → Bool → Text
    pid_status none running = codes "stopped (invalid PID file)"
    pid_status (some pid) true = codes "running (PID: " ++ (to_string pid ++ codes ")")
    pid_status (some pid) false = codes "stopped (stale PID file)"

    abbrev read_status : Result IoError Text → Bool → Text
    read_status (err e) running = codes "stopped"
    read_status (ok pid_str) running = pid_status (parse_u32 (trim pid_str)) running

    -- `vm_status` of `cmd_status`.
    unfoldable pub vm_status : FilePath → World → Text
    vm_status state_dir w =
        read_status (read_to_string (pid_path state_dir) w).0
          (is_vm_running from_utf8_lossy ps state_dir w)

    -- The lines that are printed.
    unfoldable pub cmd_status : FilePath → CliIo (List Text)
    unfolding load_config vm_status
    cmd_status state_dir w =
        (do
          cfg ← load_config state_dir
          let pki_ready =
              all (λ present. present) (existing (pki_paths (join_path state_dir (codes "pki"))) w)
          pure (
              (codes "state dir: " ++ display state_dir)
              ∷ (codes "vm: " ++ vm_status state_dir w)
              ∷ (codes "cpus: " ++ to_string cfg.cpus)
              ∷ (codes "memory_mib: " ++ to_string cfg.memory_mib)
              ∷ (codes "pki: " ++ (if pki_ready then codes "present" else codes "missing"))
              ∷ []))
          w
