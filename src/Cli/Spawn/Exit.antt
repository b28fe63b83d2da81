-- ===== src/Cli/Spawn/Exit.antt =====
-- `start_vm`: when it fails with the exit status of vfkit.
use mathlib.Core.Path.{subst}
use malleus.Base.{ℕ, ◌≡◌, refl, sym, ap, ◌∙◌, Option, none, some, List, [], ◌∷◌}
use malleus.Base.Text.{Text, codes, trim}
use malleus.Base.Number.{to_string}
use malleus.Base.FilePath.{FilePath, join_path}
use malleus.Base.Result.{Result, ok, err}
use malleus.Base.Io.{after, convert, fail, pure}
use malleus.Base.Poll.Laws.{Polls-outcome}
use malleus.Base.Fs.{IoError, not_found, World, create_file, write, read_to_string}
use malleus.Base.Fs.Laws.{write_inv, path_eq_refl}
use malleus.Cli.Error.{ℤ, CliError, io, vfkit_exited, vfkit_not_found}
use malleus.Cli.Process.{pid_path}
use malleus.Cli.Spawn.{
  Machine, poll_pause, exit_turn, check_child, presumed_booting, wait_for_early_exit,
  code_or_minus_one, text_or_default, report_exit, watch_child, offer_install, on_spawn, launch,
  start_vm,
}
use malleus.Cli.Spawn.Offer.{Shown, called_inv, offer_install-Shown}
use malleus.Cli.Spawn.Wait.{
  IsMachine, Waits, found_inv, wait_for_early_exit-Waits, wait_for_early_exit-pid,
}

module _ (machine : Machine) where
  -- How the wait for a child ends, where it does not end with the child running.
  data IsEnded (child : ℕ) : Result CliError (Option (Option ℤ)) × World → Type 0 where
    not_asked : {e : IoError} {v : World} → IsEnded child (err (io e), v)
    exited :
        {w v : World} {status : Option ℤ}
        → machine.try_wait child w ≡ (ok (some status), v)
        → IsEnded child (ok (some status), v)
    running : {v : World} → IsEnded child (ok none, v)

  failed_inv :
      (r : Result IoError (Option (Option ℤ)) × World) (child : ℕ) (e : CliError) (v : World)
      → after (convert io r) (λ status. pure (exit_turn status)) ≡ (err e, v)
      → IsEnded child (err e, v)
  failed_inv (err e1, u) child e v h =
      let same : io e1 ≡ e = cc in subst (λ x. IsEnded child (err x, v)) same not_asked
  failed_inv (ok none, u) child e v h = cc
  failed_inv (ok (some status), u) child e v h = cc

  Waits-IsEnded :
      (child deadline : ℕ) (w : World) (r : Result CliError (Option (Option ℤ)) × World)
      → Waits machine child deadline w r
      → IsEnded child r
  unfolding check_child
  Waits-IsEnded child deadline w r waits =
      Polls-outcome machine.now (machine.sleep poll_pause) deadline poll_pause
        (check_child machine child) presumed_booting (IsEnded child)
        (λ s x v e h. failed_inv (machine.try_wait child x) child e v h)
        (λ s x v a h.
          let (status, given, seen) = found_inv machine (machine.try_wait child x) a v h in
          subst (λ y. IsEnded child (ok y, v)) (sym given) (exited seen))
        (λ s t x v h late. running) waits

  module _ (state_dir : FilePath) (args : List Text) (c : ℤ) (t : Text) (v : World) where
    -- A process that was spawned with the arguments, and the status that it was seen to end with.
    pub record IsExited : Type 0 where
      pub child : ℕ
      pub before : World
      pub behind : World
      pub spawned : machine.spawn args before ≡ (ok child, behind)
      pub recorded : v.files (pid_path state_dir) ≡ some (to_string child)
      pub last_seen : World
      pub status : Option ℤ
      pub seen : machine.try_wait child last_seen ≡ (ok (some status), v)
      pub code : c ≡ code_or_minus_one status
      pub text :
          t ≡ trim (text_or_default (read_to_string (join_path state_dir (codes "vfkit.err")) v).0)

    report_exit-IsExited :
        (child : ℕ) (before behind : World) (r : Result CliError (Option (Option ℤ)) × World)
        → machine.spawn args before ≡ (ok child, behind)
        → IsEnded child r
        → r.1.files (pid_path state_dir) ≡ some (to_string child)
        → Shown c t v (after r (report_exit state_dir))
        → IsExited
    unfolding report_exit
    report_exit-IsExited child before behind r spawned not_asked noted h = cc
    report_exit-IsExited child before behind r spawned running noted h = cc
    report_exit-IsExited child before behind r spawned
          (exited {w = x} {v = u} {status = status} seen) noted h =
        let same : u ≡ v = ap (λ r. r.1) h in
        record {
          child = child;
          before = before;
          behind = behind;
          spawned = spawned;
          recorded = ap (λ w. w.files (pid_path state_dir)) (sym same) ∙ noted;
          last_seen = x;
          status = status;
          seen = seen ∙ ap (λ w. (ok (some status), w)) same;
          code = cc;
          text =
              subst
                (λ w.
                  t
                  ≡ trim (
                      text_or_default
                        (read_to_string (join_path state_dir (codes "vfkit.err")) w).0))
                same (cc);
        }

    module _ (lawful : IsMachine machine state_dir) where
      watch_child-IsExited :
          (child : ℕ) (before behind : World)
          → machine.spawn args before ≡ (ok child, behind)
          → Shown c t v (watch_child machine state_dir child behind)
          → IsExited
      unfolding watch_child
      watch_child-IsExited child before behind spawned h =
          let (u1, w1, e1, h1) =
            called_inv (write (pid_path state_dir) (to_string child) behind) _ c t v h in
          report_exit-IsExited child before behind (wait_for_early_exit machine child w1) spawned
            (Waits-IsEnded child _ w1 _
              (wait_for_early_exit-Waits machine state_dir lawful child w1))
            (wait_for_early_exit-pid machine state_dir lawful child w1
              ∙ ap (λ x. x.files (pid_path state_dir))
                  (write_inv (pid_path state_dir) (to_string child) behind w1 u1 e1)
              ∙ rw (path_eq_refl state_dir) refl)
            h1

      on_spawn-IsExited :
          (missing : World → Result CliError (Unit {0}) × World) (before : World)
          (r : Result IoError ℕ × World)
          → machine.spawn args before ≡ r
          → ((x : World) → Shown c t v (missing x) → IsExited)
          → Shown c t v (on_spawn machine state_dir missing r)
          → IsExited
      unfolding on_spawn
      on_spawn-IsExited missing before (ok child, x) spawned again h =
          watch_child-IsExited child before x spawned h
      on_spawn-IsExited missing before (err not_found, x) spawned again h = again x h
      on_spawn-IsExited missing before (err e, x) spawned again h = cc

      launch-IsExited :
          (missing : World → Result CliError (Unit {0}) × World) (w : World)
          → ((x : World) → Shown c t v (missing x) → IsExited)
          → Shown c t v (launch machine state_dir args missing w)
          → IsExited
      unfolding launch
      launch-IsExited missing w again h =
          let (_, w1, e1, h1) =
            called_inv (create_file (join_path state_dir (codes "vfkit.log")) w) _ c t v h in
          let (_, w2, e2, h2) =
            called_inv (create_file (join_path state_dir (codes "vfkit.err")) w1) _ c t v h1 in
          on_spawn-IsExited missing w2 (machine.spawn args w2) refl again h2

-- If the clock, the sleep and the children behave as `IsMachine` says, a start that fails with an
-- exit status of vfkit has spawned it with the arguments and seen that process end: the error
-- carries the code, or -1 where a signal ended it, and what vfkit printed on its error output. The
-- file of the process holds the number of the process that has ended, whatever it held before.
pub start_vm-IsExited :
    (machine : Machine) (state_dir : FilePath)
    → IsMachine machine state_dir
    → (typed : List (Result IoError Text)) (args : List Text) (c : ℤ) (t : Text) (w v : World)
    → start_vm machine typed state_dir args w ≡ (err (vfkit_exited c t), v)
    → IsExited machine state_dir args c t v
unfolding start_vm
start_vm-IsExited machine state_dir lawful [] args c t w v h =
    launch-IsExited machine state_dir args c t v lawful
      (offer_install machine (ok []) (fail vfkit_not_found)) w
      (λ x k.
        let (y, refused) = offer_install-Shown c t v machine (ok []) (fail vfkit_not_found) x k in
        cc)
      h
start_vm-IsExited machine state_dir lawful (line ∷ typed) args c t w v h =
    launch-IsExited machine state_dir args c t v lawful
      (offer_install machine line (start_vm machine typed state_dir args)) w
      (λ x k.
        let (y, again) =
          offer_install-Shown c t v machine line (start_vm machine typed state_dir args) x k in
        start_vm-IsExited machine state_dir lawful typed args c t y v again)
      h
