-- ===== src/Cli/Spawn/Commands.antt =====
-- `cmd_start`, and the commands that run behind it.
use malleus.Base.{ℕ, ◌≤◌, ◌≡◌, refl, ap, ◌∙◌, Bool, false, some, List}
use malleus.Base.Text.{Text}
use malleus.Base.Number.{to_string, u32_max}
use malleus.Base.FilePath.{FilePath}
use malleus.Base.Result.{Result, ok}
use malleus.Base.Io.{after_inv}
use malleus.Base.Fs.{IoError, World, unreadable_text}
use malleus.Cli.Process.{Ps, ps_args, pid_path, live_answer, is_vm_running, clean_up, cmd_stop}
use malleus.Cli.Process.Live.{is_vm_running-to_string, parse_u32-trim-to_string}
use malleus.Base.Fs.Laws.{read_to_string_present}
use malleus.Config.{Config}
use malleus.Cli.Settings.{pid_status, vm_status}
use malleus.Cli.Process.Stop.{cmd_stop-to_string}
use malleus.Cli.Start.{Outside, prepare_start}
use malleus.Cli.Start.Laws.{IsPrepared, prepare_start-IsPrepared}
use malleus.Cli.Spawn.{Machine, cmd_start}
use malleus.Cli.Spawn.Wait.{IsMachine}
use malleus.Cli.Spawn.Laws.{IsBooted, start_vm-IsBooted}

-- The status where the file of the process holds a number.
vm_status-to_string :
    (from_toml : Text → Result Text Config) (from_utf8_lossy : List ℕ → Text) (ps : Ps)
    (state_dir : FilePath) (w : World) (pid : ℕ)
    → pid ≤ u32_max
    → unreadable_text (pid_path state_dir) w ≡ false
    → w.files (pid_path state_dir) ≡ some (to_string pid)
    → vm_status from_toml from_utf8_lossy ps state_dir w
      ≡ pid_status from_toml from_utf8_lossy ps
          (some pid)
          (is_vm_running from_utf8_lossy ps state_dir w)
unfolding vm_status
vm_status-to_string from_toml from_utf8_lossy ps state_dir w pid h readable there =
    rw
      (
        read_to_string_present (pid_path state_dir) w (to_string pid) readable there,
        parse_u32-trim-to_string pid h,
      )
      refl

module _ (machine : Machine) (out : Outside) (state_dir : FilePath) where
  -- The world that the preparation of a start from the one leaves, and the arguments; how vfkit is
  -- reached from it, and what stands behind it.
  pub record IsStarted (w v : World) : Type 0 where
    pub args : List Text
    pub made : World
    pub prepares : prepare_start out state_dir w ≡ (ok args, made)
    pub prepared : IsPrepared out state_dir args made
    pub booted : IsBooted machine state_dir args made v

  -- If the clock, the sleep and the children behave as `IsMachine` says, a start that succeeds has
  -- prepared the state directory when its loop begins: the configuration is usable, the arguments
  -- stand in `vfkit.args`, the payloads are those of the key material stored, the root disk begins
  -- like an image. It has spawned vfkit with these arguments behind nothing more than the creation
  -- of the files of its outputs, and installations of vfkit where a spawn found none. The number of
  -- the process stands in the file, and two seconds later it had not exited.
  pub cmd_start-IsStarted :
      IsMachine machine state_dir
      → (typed : List (Result IoError Text)) (w v : World) (u : Unit {0})
      → cmd_start machine out typed state_dir w ≡ (ok u, v)
      → IsStarted w v
  unfolding cmd_start
  cmd_start-IsStarted lawful typed w v u h =
      let (args, made, e, rest) = after_inv (prepare_start out state_dir w) _ v h in
      record {
        args = args;
        made = made;
        prepares = e;
        prepared = prepare_start-IsPrepared out state_dir w made args e;
        booted = start_vm-IsBooted machine state_dir lawful typed args made v u rest;
      }

  -- Under the same conditions, behind a start that succeeds and leaves a file of the process that
  -- may be read, the other commands work on the process that it spawned: the probe asks `ps` for
  -- that process, the status names it, and a stop kills it.
  pub cmd_stop-cmd_start :
      (from_utf8_lossy : List ℕ → Text) (ps : Ps)
      (kill : Text → World → Result IoError Bool × World)
      → IsMachine machine state_dir
      → (typed : List (Result IoError Text)) (w v : World) (u : Unit {0})
      → unreadable_text (pid_path state_dir) v ≡ false
      → cmd_start machine out typed state_dir w ≡ (ok u, v)
      → (child : ℕ) × (args : List Text) × (before : World) × (behind : World) × (machine.spawn args
            before
          ≡ (ok child, behind))
        × (is_vm_running from_utf8_lossy ps state_dir v
            ≡ live_answer from_utf8_lossy ps (ps (ps_args child) v))
        × (vm_status out.from_toml from_utf8_lossy ps state_dir v
            ≡ pid_status out.from_toml from_utf8_lossy ps
                (some child)
                (live_answer from_utf8_lossy ps (ps (ps_args child) v)))
        × (cmd_stop kill state_dir v ≡ clean_up kill state_dir (kill (to_string child) v))
  cmd_stop-cmd_start from_utf8_lossy ps kill lawful typed w v u readable h =
      let started = cmd_start-IsStarted lawful typed w v u h in
      let booted = started.booted in
      let fits = lawful.fits started.args booted.child booted.before booted.behind booted.spawned in
      let probed =
        is_vm_running-to_string from_utf8_lossy ps state_dir v booted.child fits readable
          booted.recorded in
      (
        booted.child,
        started.args,
        booted.before,
        booted.behind,
        booted.spawned,
        probed,
        vm_status-to_string out.from_toml from_utf8_lossy ps state_dir v booted.child fits readable
              booted.recorded
            ∙ ap (pid_status out.from_toml from_utf8_lossy ps (some booted.child)) probed,
        cmd_stop-to_string kill state_dir v booted.child fits readable booted.recorded,
      )
