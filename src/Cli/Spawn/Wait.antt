-- ===== src/Cli/Spawn/Wait.antt =====
-- `wait_for_early_exit`: its end, and what it has seen.
use mathlib.Core.Path.{subst}
use malleus.Base.{ℕ, ◌+◌, ◌≤◌, ◌≡◌, refl, sym, ap, ◌∙◌, Option, none, some, List, arith}
use malleus.Base.Text.{Text}
use malleus.Base.Number.{u32_max}
use malleus.Base.FilePath.{FilePath}
use malleus.Base.Result.{Result, ok, err}
use malleus.Base.Io.{pure, after, convert}
use malleus.Base.Poll.{found, missed, Polls, fails, finds, gives_up, goes_on}
use malleus.Base.Poll.Laws.{poll-Polls, poll-keeps}
use malleus.Base.Fs.{IoError, World}
use malleus.Cli.Error.{ℤ, CliError, io}
use malleus.Cli.Process.{pid_path}
use malleus.Cli.Spawn.{
  vfkit_startup_grace, poll_pause, Machine, exit_turn, check_child, presumed_booting,
  wait_for_early_exit,
}

-- Sleeping takes its time, asking for a child does not turn the clock back, neither changes the
-- file of the process, and process ids are numbers of 32 bits.
pub record IsMachine (machine : Machine) (state_dir : FilePath) : Type 0 where
  pub sleeps : (d : ℕ) (w : World) → machine.now w + d ≤ machine.now (machine.sleep d w)
  pub passes : (child : ℕ) (w : World) → machine.now w ≤ machine.now (machine.try_wait child w).1
  pub sleep_keeps :
      (d : ℕ) (w : World)
      → (machine.sleep d w).files (pid_path state_dir) ≡ w.files (pid_path state_dir)
  pub wait_keeps :
      (child : ℕ) (w : World)
      → (machine.try_wait child w).1.files (pid_path state_dir) ≡ w.files (pid_path state_dir)
  pub fits :
      (args : List Text) (child : ℕ) (w v : World)
      → machine.spawn args w ≡ (ok child, v)
      → child ≤ u32_max

module _ (machine : Machine) where
  abbrev pub Waits : ℕ → ℕ → World → Result CliError (Option (Option ℤ)) × World → Type 0
  Waits child deadline =
      Polls machine.now (machine.sleep poll_pause) deadline (check_child machine child)
        (presumed_booting) tt

  missed_inv :
      (r : Result IoError (Option (Option ℤ)) × World) (t : Unit {0}) (v : World)
      → after (convert io r) (λ status. pure (exit_turn status)) ≡ (ok (missed t), v)
      → r ≡ (ok none, v)
  missed_inv (err e, u) t v h = cc
  missed_inv (ok none, u) t v h = cc
  missed_inv (ok (some status), u) t v h = cc

  pub found_inv :
      (r : Result IoError (Option (Option ℤ)) × World) (a : Option (Option ℤ)) (v : World)
      → after (convert io r) (λ status. pure (exit_turn status)) ≡ (ok (found a), v)
      → (status : Option ℤ) × (a ≡ some status) × (r ≡ (ok (some status), v))
  found_inv (err e, u) a v h = cc
  found_inv (ok none, u) a v h = cc
  found_inv (ok (some status), u) a v h = (status, cc, cc)

  check_child_world :
      (r : Result IoError (Option (Option ℤ)) × World)
      → (after (convert io r) (λ status. pure (exit_turn status))).1 ≡ r.1
  check_child_world (err e, u) = refl
  check_child_world (ok status, u) = refl

  -- A wait that ends with no exit status saw the child run at the end of the grace period.
  pub Waits-none :
      (child deadline : ℕ) (w v : World) (r : Result CliError (Option (Option ℤ)) × World)
      → Waits child deadline w r
      → r ≡ (ok none, v)
      → (u : World) × (machine.try_wait child u ≡ (ok none, v)) × (deadline ≤ machine.now v)
  unfolding check_child
  Waits-none child deadline w v r (fails e) h = cc
  Waits-none child deadline w v r (finds {v = v1} {a = a} e) h =
      let (status, given, _) = found_inv (machine.try_wait child w) a v1 e in cc
  Waits-none child deadline w v r (gives_up {t = t} {v = v1} e late) h =
      let same : v1 ≡ v = ap (λ s. s.1) h in
      (
        w,
        missed_inv (machine.try_wait child w) t v1 e ∙ ap (λ s. (ok none, s)) same,
        subst (λ s. deadline ≤ machine.now s) same late,
      )
  Waits-none child deadline w v r (goes_on {v = v1} e early rest) h =
      Waits-none child deadline (machine.sleep poll_pause v1) v r rest h

  module _ (state_dir : FilePath) (lawful : IsMachine machine state_dir) where
    -- If the clock, the sleep and the children behave as `IsMachine` says, forty pauses are
    -- enough: the wait is that of the loop, which polls until the child has exited or two seconds
    -- have passed.
    pub wait_for_early_exit-Waits :
        (child : ℕ) (w : World)
        → Waits child (machine.now w + vfkit_startup_grace) w (wait_for_early_exit machine child w)
    unfolding wait_for_early_exit check_child
    wait_for_early_exit-Waits child w =
        poll-Polls machine.now (machine.sleep poll_pause) (machine.now w + vfkit_startup_grace)
          poll_pause (check_child machine child) (presumed_booting) (lawful.sleeps poll_pause)
          (λ s u.
            subst (λ x. machine.now u ≤ machine.now x)
              (sym (check_child_world (machine.try_wait child u))) (lawful.passes child u))
          40 tt w (omega arith)

    -- The wait leaves the file of the process as it is.
    pub wait_for_early_exit-pid :
        (child : ℕ) (w : World)
        → (wait_for_early_exit machine child w).1.files (pid_path state_dir)
          ≡ w.files (pid_path state_dir)
    unfolding wait_for_early_exit check_child
    wait_for_early_exit-pid child w =
        poll-keeps machine.now (machine.sleep poll_pause) (machine.now w + vfkit_startup_grace)
          poll_pause (check_child machine child) presumed_booting
          (λ s. s.files (pid_path state_dir) ≡ w.files (pid_path state_dir))
          (λ s u p.
            ap (λ x. x.files (pid_path state_dir)) (check_child_world (machine.try_wait child u))
            ∙ (lawful.wait_keeps child u ∙ p))
          (λ u p. lawful.sleep_keeps poll_pause u ∙ p) (λ s u p. p) 40 tt w refl
