-- ===== src/Cli/Settings/Stopped.antt =====
-- What the other commands find behind `cmd_stop`.
use malleus.Base.{ℕ, ◌≤◌, ◌≡◌, refl, ap, ◌∙◌, Bool, false, none, some, List}
use malleus.Base.Text.{Text, codes}
use malleus.Base.Number.{to_string, u32_max}
use malleus.Base.FilePath.{FilePath, join_path}
use malleus.Base.Result.{Result, ok}
use malleus.Base.Fs.{IoError, World, unreadable_text, remove, remove_file}
use malleus.Base.Fs.Laws.{remove_file-dirs, read_to_string_absent}
use malleus.Config.{Config}
use malleus.Cli.Process.{Ps, pid_path, is_vm_running, clean_up, cmd_stop}
use malleus.Cli.Process.Stop.{cmd_stop-to_string, cmd_stop-none}
use malleus.Cli.Settings.{vm_status}

-- Without the file of the process no machine runs, and there is nothing to stop.
without_pid :
    (from_toml : Text → Result Text Config) (from_utf8_lossy : List ℕ → Text) (ps : Ps)
    (kill : Text → World → Result IoError Bool × World) (state_dir : FilePath) (w : World)
    → w.files (pid_path state_dir) ≡ none
    → w.dirs (pid_path state_dir) ≡ false
    → (is_vm_running from_utf8_lossy ps state_dir w ≡ false)
      × (vm_status from_toml from_utf8_lossy ps state_dir w ≡ codes "stopped")
      × (cmd_stop kill state_dir w ≡ (ok tt, w))
unfolding is_vm_running vm_status cmd_stop
without_pid from_toml from_utf8_lossy ps kill state_dir w gone no_dir =
    let (e, unreadable) = read_to_string_absent (pid_path state_dir) w gone in
    (rw unreadable refl, rw unreadable refl, rw (gone, no_dir) refl)

-- Behind a stop that could run `kill`, whatever it answered, the probe finds no running machine,
-- the status says that it is stopped, and another stop succeeds and changes nothing, as far as the
-- system lets the file of the process be removed.
pub cmd_stop_twice :
    (from_toml : Text → Result Text Config) (from_utf8_lossy : List ℕ → Text) (ps : Ps)
    (kill : Text → World → Result IoError Bool × World) (state_dir : FilePath) (w v : World)
    (pid : ℕ) (success : Bool)
    → pid ≤ u32_max
    → unreadable_text (pid_path state_dir) w ≡ false
    → w.files (pid_path state_dir) ≡ some (to_string pid)
    → kill (to_string pid) w ≡ (ok success, v)
    → v.refuses remove (pid_path state_dir) ≡ false
    → v.dirs (pid_path state_dir) ≡ false
    → (is_vm_running from_utf8_lossy ps state_dir (cmd_stop kill state_dir w).1 ≡ false)
      × (vm_status from_toml from_utf8_lossy ps state_dir (cmd_stop kill state_dir w).1
          ≡ codes "stopped")
      × (cmd_stop kill state_dir (cmd_stop kill state_dir w).1
          ≡ (ok tt, (cmd_stop kill state_dir w).1))
unfolding clean_up
cmd_stop_twice from_toml from_utf8_lossy ps kill state_dir w v pid success h readable there ran
      removable no_dir =
    let stopped =
      cmd_stop-to_string kill state_dir w pid h readable there ∙ ap (clean_up kill state_dir) ran in
    let (_, gone) = cmd_stop-none kill state_dir w v pid success h readable there ran removable in
    without_pid from_toml from_utf8_lossy ps kill state_dir (cmd_stop kill state_dir w).1 gone (
      ap (λ r. r.1.dirs (pid_path state_dir)) stopped
      ∙ ap (λ dirs. dirs (pid_path state_dir))
          (remove_file-dirs (join_path state_dir (codes "ready.sock"))
              (remove_file (pid_path state_dir) v).1
            ∙ remove_file-dirs (pid_path state_dir) v)
      ∙ no_dir)
