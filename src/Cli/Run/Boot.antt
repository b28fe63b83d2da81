-- ===== src/Cli/Run/Boot.antt =====
-- A file of the key material under `start_vm` and the whole of `cmd_start`.
use malleus.Base.{
  ℕ, ◌+◌, ◌≡◌, refl, ◌∙◌, Bool, true, false, not, Option, none, some, List, [], ◌∷◌, Bool-cases,
  inl, inr, if◌then◌else◌,
}
use malleus.Base.Text.{Text, codes}
use malleus.Base.Number.{to_string}
use malleus.Base.FilePath.{FilePath, join_path}
use malleus.Base.Result.{Result, ok, err}
use malleus.Base.Io.{called-keeps, after-keeps, check, fail}
use malleus.Base.Poll.Laws.{poll-keeps}
use malleus.Base.Fs.{IoError, not_found, World, write, create_file}
use malleus.Cli.Error.{CliError, io, vfkit_not_found, ℤ}
use malleus.Cli.Process.{pid_path}
use malleus.Cli.Start.{Outside, prepare_start}
use malleus.Cli.Spawn.{
  Machine, vfkit_startup_grace, poll_pause, check_child, presumed_booting, wait_for_early_exit,
  report_exit, watch_child, succeeded, brew_version, agreed, installed, install, answered, ask,
  offer_install, on_spawn, launch, start_vm, cmd_start,
}
use malleus.Cli.Run.Keys.{IsKeyName, key_path}
use malleus.Cli.Run.Prepare.{
  IsApart, Has, write_state-keeps, create_state-keeps, prepare_start-keeps,
}

module _ (machine : Machine) (out : Outside) (state_dir : FilePath) (name content : Text)
    (key : IsKeyName name) (apart : IsApart machine out (key_path state_dir name)) where
  abbrev Kept : World → Type 0
  Kept = Has machine out state_dir name content key apart

  -- A branch that keeps the file whatever it is started on.
  abbrev Keeps : (World → Result CliError (Unit {0}) × World) → Type 0
  Keeps branch = (w : World) → Kept w → Kept (branch w).1

  check_child-keeps :
      (child : ℕ) (u : Unit {0}) (w : World) → Kept w → Kept (check_child machine child u w).1
  unfolding check_child
  check_child-keeps child u w k =
      called-keeps Kept io (machine.try_wait child w) _ (apart.try_wait child w ∙ k) (λ _ v l. l)

  wait_for_early_exit-keeps :
      (child : ℕ) (w : World) → Kept w → Kept (wait_for_early_exit machine child w).1
  unfolding wait_for_early_exit
  wait_for_early_exit-keeps child w k =
      poll-keeps machine.now (machine.sleep poll_pause) (machine.now w + vfkit_startup_grace)
        poll_pause (check_child machine child) presumed_booting Kept (check_child-keeps child)
        (λ v l. apart.sleep poll_pause v ∙ l) (λ _ v l. l) 40 tt w k

  report_exit-keeps :
      (status : Option (Option ℤ)) (w : World) → Kept w → Kept (report_exit state_dir status w).1
  unfolding report_exit
  report_exit-keeps none w k = k
  report_exit-keeps (some status) w k = k

  watch_child-Keeps : (child : ℕ) → Keeps (watch_child machine state_dir child)
  unfolding watch_child
  watch_child-Keeps child w k =
      called-keeps Kept io (write (pid_path state_dir) (to_string child) w) _
        (write_state-keeps machine out state_dir name content key apart (codes "vfkit.pid")
          (to_string child) w refl k)
        (λ _ v l.
          after-keeps Kept (wait_for_early_exit machine child v) _
            (wait_for_early_exit-keeps child v l) (λ status u m. report_exit-keeps status u m))

  on_spawn-Keeps :
      (missing : World → Result CliError (Unit {0}) × World) (r : Result IoError ℕ × World)
      → Keeps missing
      → Kept r.1
      → Kept (on_spawn machine state_dir missing r).1
  unfolding on_spawn
  on_spawn-Keeps missing (ok child, w) keeps k = watch_child-Keeps child w k
  on_spawn-Keeps missing (err not_found, w) keeps k = keeps w k
  on_spawn-Keeps missing (err e, w) keeps k = k

  launch-Keeps :
      (args : List Text) (missing : World → Result CliError (Unit {0}) × World)
      → Keeps missing
      → Keeps (launch machine state_dir args missing)
  unfolding launch
  launch-Keeps args missing keeps w k =
      called-keeps Kept io (create_file (join_path state_dir (codes "vfkit.log")) w) _
        (create_state-keeps machine out state_dir name content key apart (codes "vfkit.log") w refl
          k)
        (λ _ w1 k1.
          called-keeps Kept io (create_file (join_path state_dir (codes "vfkit.err")) w1) _
            (create_state-keeps machine out state_dir name content key apart (codes "vfkit.err") w1
              refl k1)
            (λ _ w2 k2.
              on_spawn-Keeps missing (machine.spawn args w2) keeps (apart.spawn args w2 ∙ k2)))

  installed-Keeps :
      (again : World → Result CliError (Unit {0}) × World) (success : Bool)
      → Keeps again
      → Keeps (installed machine again success)
  installed-Keeps again true keeps w k = keeps w k
  installed-Keeps again false keeps w k = k

  install-Keeps :
      (again : World → Result CliError (Unit {0}) × World)
      → Keeps again
      → Keeps (install machine again)
  unfolding install
  install-Keeps again keeps w k =
      called-keeps Kept io (machine.brew _ w) _ (apart.brew _ w ∙ k)
        (λ success v l. installed-Keeps again success keeps v l)

  answered-Keeps :
      (again : World → Result CliError (Unit {0}) × World) (input : Text)
      → Keeps again
      → Keeps (answered machine again input)
  answered-Keeps again input keeps w k = elim (Bool-cases (agreed input)) [
    | inl yes_typed ↦ rw yes_typed (install-Keeps again keeps w k)
    | inr refused ↦ rw refused k
  ]

  ask-Keeps :
      (line : Result IoError Text) (again : World → Result CliError (Unit {0}) × World)
      → Keeps again
      → Keeps (ask machine line again)
  unfolding ask
  ask-Keeps line again keeps w k =
      called-keeps Kept io (machine.flush w) _ (apart.flush w ∙ k) (λ _ v l.
        called-keeps Kept io (check line v) _ l (λ input u m. answered-Keeps again input keeps u m))

  offer_install-Keeps :
      (line : Result IoError Text) (again : World → Result CliError (Unit {0}) × World)
      → Keeps again
      → Keeps (offer_install machine line again)
  unfolding offer_install
  offer_install-Keeps line again keeps w k =
      offered (succeeded (machine.brew (codes "--version" ∷ []) w).0) (brew_version machine w).1
        (apart.brew (codes "--version" ∷ []) w ∙ k)
    where
      offered :
          (has_brew : Bool)
          → Keeps (if not has_brew then fail vfkit_not_found else ask machine line again)
      offered true w k = ask-Keeps line again keeps w k
      offered false w k = k

  start_vm-Keeps :
      (typed : List (Result IoError Text)) (args : List Text)
      → Keeps (start_vm machine typed state_dir args)
  unfolding start_vm
  start_vm-Keeps [] args =
      launch-Keeps args _ (offer_install-Keeps (ok []) (fail vfkit_not_found) (λ w k. k))
  start_vm-Keeps (line ∷ typed) args =
      launch-Keeps args _ (
        offer_install-Keeps line (start_vm machine typed state_dir args)
          (start_vm-Keeps typed args))

  -- No start changes a file of the key material that is there, whether it succeeds or fails.
  pub cmd_start-keeps :
      (typed : List (Result IoError Text)) (w : World)
      → w.files (key_path state_dir name) ≡ some content
      → (cmd_start machine out typed state_dir w).1.files (key_path state_dir name) ≡ some content
  unfolding cmd_start
  cmd_start-keeps typed w k =
      after-keeps Kept (prepare_start out state_dir w) _
        (prepare_start-keeps machine out state_dir name content key apart w k)
        (λ args v l. start_vm-Keeps typed args v l)
