-- ===== src/Cli/Spawn.antt =====
-- `wait_for_early_exit` and `start_vm` of src/main.rs, and the whole of `cmd_start`.
pub mod Wait
pub mod Installs
pub mod Laws
pub mod Boots
pub mod Offer
pub mod Exit
pub mod Commands
pub mod Tests
use malleus.Base.{
  ℕ, ◌+◌, Bool, true, false, not, Option, none, some, List, [], ◌∷◌, map, if◌then◌else◌,
}
use malleus.Base.Text.{Text, codes, text_eq, trim, to_ascii_lowercase}
use malleus.Base.Number.{to_string}
use malleus.Base.FilePath.{FilePath, join_path}
use malleus.Base.Result.{Result, ok, err}
use malleus.Base.Io.{Io, pure, fail, check, from_error, ◌>>=◌, ◌>>◌}
use malleus.Base.Poll.{Turn, found, missed, poll}
use malleus.Base.Fs.{IoError, not_found, other, World, create_file, read_to_string, write}
use malleus.Cli.Error.{ℤ, negsuc, CliError, io, vfkit_not_found, vfkit_exec, vfkit_exited, CliIo}
use malleus.Cli.Process.{pid_path}
use malleus.Cli.Start.{Outside, prepare_start}

-- In milliseconds.
abbrev pub vfkit_startup_grace : ℕ
vfkit_startup_grace = 2000

abbrev pub poll_pause : ℕ
poll_pause = 50

-- The processes, the clock and the terminal. A child is its process id; its exit status is the
-- code of it, which a process that a signal ends does not have.
pub record Machine : Type 0 where
  pub spawn : List Text → Io World IoError ℕ
  pub try_wait : ℕ → Io World IoError (Option (Option ℤ))
  pub now : World → ℕ
  pub sleep : ℕ → World → World
  pub brew : List Text → Io World IoError Bool
  pub flush : Io World IoError (Unit {0})

abbrev pub exit_turn : Option (Option ℤ) → Turn (Unit {0}) (Option (Option ℤ))
exit_turn (some status) = found (some status)
exit_turn none = missed tt

abbrev pub presumed_booting : Unit {0} → CliIo (Option (Option ℤ))
presumed_booting _ = pure none

abbrev pub code_or_minus_one : Option ℤ → ℤ
code_or_minus_one (some code) = code
code_or_minus_one none = negsuc 0

abbrev text_or_default : Result IoError Text → Text
text_or_default (ok t) = t
text_or_default (err e) = []

unfoldable pub report_exit : FilePath → Option (Option ℤ) → CliIo (Unit {0})
report_exit state_dir none w = (ok tt, w)
report_exit state_dir (some status) w =
    let stderr =
      trim (text_or_default (read_to_string (join_path state_dir (codes "vfkit.err")) w).0) in
    (err (vfkit_exited (code_or_minus_one status) stderr), w)

abbrev pub succeeded : Result IoError Bool → Bool
succeeded (ok success) = success
succeeded (err e) = false

-- The lower case of a text is `y` only for `y` and `Y`.
unfoldable pub agreed : Text → Bool
agreed input = text_eq (map to_ascii_lowercase (trim input)) (codes "y")

module _ (machine : Machine) where
  open machine use {spawn, try_wait, now, sleep, brew, flush}

  unfoldable pub check_child : ℕ → Unit {0} → CliIo (Turn (Unit {0}) (Option (Option ℤ)))
  check_child child _ = do status ← from_error io (try_wait child); pure (exit_turn status)

  -- Forty pauses make up the grace period.
  unfoldable pub wait_for_early_exit : ℕ → CliIo (Option (Option ℤ))
  unfolding check_child
  wait_for_early_exit child w =
      let deadline = now w + vfkit_startup_grace in
      poll now (sleep poll_pause) deadline (check_child child) presumed_booting 40 tt w

  -- The branch of a child that runs.
  unfoldable pub watch_child : FilePath → ℕ → CliIo (Unit {0})
  unfolding wait_for_early_exit report_exit
  watch_child state_dir child = do
    from_error io (write (pid_path state_dir) (to_string child))
    status ← wait_for_early_exit child
    report_exit state_dir status

  abbrev pub brew_version : World → Result CliError Bool × World
  brew_version w = let r = brew (codes "--version" ∷ []) w in (ok (succeeded r.0), r.1)

  abbrev pub installed : CliIo (Unit {0}) → Bool → CliIo (Unit {0})
  installed again success =
      if success then again else fail (vfkit_exec (other (codes "brew install vfkit failed")))

  -- `brew install vfkit`, and the new round behind it.
  unfoldable pub install : CliIo (Unit {0}) → CliIo (Unit {0})
  install again = do
    success ← from_error io (brew (codes "install" ∷ codes "vfkit" ∷ []))
    installed again success

  abbrev pub answered : CliIo (Unit {0}) → Text → CliIo (Unit {0})
  answered again input = if agreed input then install again else fail vfkit_not_found

  unfoldable pub ask : Result IoError Text → CliIo (Unit {0}) → CliIo (Unit {0})
  unfolding agreed install
  ask line again = do from_error io flush; input ← from_error io (check line); answered again input

  -- The branch of a vfkit that is not installed: the line that is read, and what starts it again.
  unfoldable pub offer_install : Result IoError Text → CliIo (Unit {0}) → CliIo (Unit {0})
  unfolding ask
  offer_install line again = do
    has_brew ← brew_version
    if not has_brew then fail vfkit_not_found else ask line again

  unfoldable pub on_spawn :
      FilePath → CliIo (Unit {0}) → Result IoError ℕ × World → Result CliError (Unit {0}) × World
  unfolding watch_child
  on_spawn state_dir missing (ok child, w) = watch_child state_dir child w
  on_spawn state_dir missing (err not_found, w) = missing w
  on_spawn state_dir missing (err e, w) = (err (vfkit_exec e), w)

  -- One round of the loop, with the branch of a vfkit that is not there.
  unfoldable pub launch : FilePath → List Text → CliIo (Unit {0}) → CliIo (Unit {0})
  unfolding on_spawn
  launch state_dir args missing = do
    from_error io (create_file (join_path state_dir (codes "vfkit.log")))
    from_error io (create_file (join_path state_dir (codes "vfkit.err")))
    λ w. on_spawn state_dir missing (spawn args w)

  -- The loop, which reads a line of the terminal before each new round. At the end of the input it
  -- reads an empty line, which is no agreement.
  unfoldable pub start_vm : List (Result IoError Text) → FilePath → List Text → CliIo (Unit {0})
  unfolding launch offer_install
  start_vm [] state_dir args = launch state_dir args (offer_install (ok []) (fail vfkit_not_found))
  start_vm (line ∷ typed) state_dir args =
      launch state_dir args (offer_install line (start_vm typed state_dir args))

  unfoldable pub cmd_start : Outside → List (Result IoError Text) → FilePath → CliIo (Unit {0})
  unfolding start_vm
  cmd_start out typed state_dir = do
    args ← prepare_start out state_dir
    start_vm typed state_dir args
