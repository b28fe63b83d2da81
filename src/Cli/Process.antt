-- ===== src/Cli/Process.antt =====
-- The process of the virtual machine: `describes_live_vfkit`, `is_vm_running` and `cmd_stop` of
-- src/main.rs.
pub mod Live
pub mod Stop
use malleus.Base.{ℕ, Bool, true, false, not, Option, none, some, List, [], ◌∷◌, if◌then◌else◌}
use malleus.Base.Text.{Text, codes, trim, split_ascii_whitespace, starts_with, contains}
use malleus.Base.Number.{parse_u32, to_string}
use malleus.Base.FilePath.{FilePath, join_path}
use malleus.Base.Result.{Result, ok, err}
use malleus.Base.Io.{Io, pure, check, from_error, ignore, ◌>>=◌}
use malleus.Base.Fs.{IoError, invalid_data, World, exists, read_to_string, remove_file}
use malleus.Cli.Error.{CliError, io, CliIo}

-- The fields of a line.
unfoldable pub live_fields : List Text → Bool
live_fields [] = false
live_fields (state ∷ []) = false
live_fields (state ∷ command ∷ _) =
    if starts_with (codes "Z") state then false else contains (codes "vfkit") command

unfoldable pub describes_live_vfkit : Text → Bool
unfolding live_fields
describes_live_vfkit ps_line = live_fields (split_ascii_whitespace ps_line)

abbrev pub pid_path : FilePath → FilePath
pid_path state_dir = join_path state_dir (codes "vfkit.pid")

-- What `ps` answers to its arguments in a world: whether it succeeds, and what it prints.
abbrev pub Ps : Type 0
Ps = List Text → World → Result IoError (Bool × List ℕ)

abbrev pub ps_args : ℕ → List Text
ps_args pid = codes "-p" ∷ to_string pid ∷ codes "-o" ∷ codes "stat=,comm=" ∷ []

module _ (from_utf8_lossy : List ℕ → Text) (ps : Ps) where
  unfoldable pub live_answer : Result IoError (Bool × List ℕ) → Bool
  live_answer (err e) = false
  live_answer (ok (success, stdout)) =
      if success then describes_live_vfkit (trim (from_utf8_lossy stdout)) else false

  abbrev pid_running : World → Option ℕ → Bool
  pid_running w none = false
  pid_running w (some pid) = live_answer (ps (ps_args pid) w)

  abbrev content_running : World → Result IoError Text → Bool
  content_running w (err e) = false
  content_running w (ok pid_str) = pid_running w (parse_u32 (trim pid_str))

  unfoldable pub is_vm_running : FilePath → World → Bool
  unfolding live_answer
  is_vm_running state_dir w = content_running w (read_to_string (pid_path state_dir) w).0

abbrev pub pid_or_error : Option ℕ → Result IoError ℕ
pid_or_error none = err invalid_data
pid_or_error (some pid) = ok pid

unfoldable pub parse_pid : Text → Result IoError ℕ
parse_pid pid_str = pid_or_error (parse_u32 (trim pid_str))

-- `kill` with a process id: it may change the world, and may not be there to run.
module _ (kill : Text → World → Result IoError Bool × World) where
  -- The files that go when `kill` ran, whatever it answered.
  unfoldable pub clean_up :
      FilePath → Result IoError Bool × World → Result CliError (Unit {0}) × World
  clean_up state_dir (err e, w) = (ok tt, w)
  clean_up state_dir (ok success, w) = (
    ok tt,
    (remove_file (join_path state_dir (codes "ready.sock"))
        (remove_file (pid_path state_dir) w).1).1,
  )

  unfoldable pub stop_pid : FilePath → ℕ → CliIo (Unit {0})
  unfolding clean_up
  stop_pid state_dir pid w = clean_up state_dir (kill (to_string pid) w)

  unfoldable pub cmd_stop : FilePath → CliIo (Unit {0})
  unfolding stop_pid parse_pid
  cmd_stop state_dir w =
      if not (exists (pid_path state_dir) w)
      then (ok tt, w)
      else (do
        pid_str ← from_error io (read_to_string (pid_path state_dir))
        pid ← from_error io (check (parse_pid pid_str))
        stop_pid state_dir pid)
          w
