-- ===== src/Cli/Address/Resolve.antt =====
-- `resolve_vm_ip`: it ends, and with what.
use mathlib.Core.Path.{subst}
use malleus.Base.{
  ℕ, ◌+◌, ◌≤◌, ◌≡◌, ◌≢◌, refl, sym, ap, ◌∙◌, Bool, true, false, Option, none, some, [], inl, inr,
  Bool-cases, arith,
}
use malleus.Base.Text.{Text, codes}
use malleus.Base.Ipv4.{Ipv4Addr}
use malleus.Base.FilePath.{FilePath}
use malleus.Base.Result.{Result, ok, err}
use malleus.Base.Poll.{Turn, found, missed, Polls}
use malleus.Base.Poll.Laws.{poll-Polls, Polls-outcome}
use malleus.Base.Fs.{World}
use malleus.Cli.Error.{CliError}
use malleus.Cli.Spawn.{Machine}
use malleus.Cli.Address.{Network}
use malleus.Cli.Address.Round.{
  Search, initial_search, try_sources, not_running_reason, missing, round, time_out, resolve_vm_ip,
}
use malleus.Cli.Address.Keeps.{IsKept, round-keeps}
use malleus.Cli.Address.Laws.{answer, as_option, first_answer, sources, try_sources-first_answer}

-- The error that ends a round, as one of the search.
abbrev failure : Result CliError (Turn Search Ipv4Addr) × World → Result CliError Ipv4Addr × World
failure (err e, v) = (err e, v)
failure (ok (found ip), v) = (ok ip, v)
failure (ok (missed s), v) = (err (missing [] []), v)

-- Sleeping takes its time, and nothing that is asked turns the clock back.
pub record IsTimely (network : Network) (machine : Machine) : Type 0 where
  pub sleeps : (d : ℕ) (w : World) → machine.now w + d ≤ machine.now (machine.sleep d w)
  pub passes : (t : ℕ) → IsKept network (λ w. t ≤ machine.now w)

module _ (network : Network) (machine : Machine) (vm_is_running : FilePath → World → Bool)
    (lease_path state_dir : FilePath) where
  abbrev Rounds : ℕ → World → Result CliError Ipv4Addr × World → Type 0
  Rounds deadline =
      Polls machine.now (machine.sleep 2000) deadline
        (round network machine vm_is_running lease_path state_dir) (time_out state_dir)
        initial_search

  -- Thirty pauses are enough: the result is that of the loop, which ends.
  resolve_vm_ip-Rounds :
      IsTimely network machine
      → (w : World)
      → Rounds
          (machine.now w + 60000)
          w
          (resolve_vm_ip network machine vm_is_running lease_path state_dir none w)
  unfolding resolve_vm_ip
  resolve_vm_ip-Rounds timely w =
      poll-Polls machine.now (machine.sleep 2000) (machine.now w + 60000) 2000
        (round network machine vm_is_running lease_path state_dir) (time_out state_dir)
        (timely.sleeps 2000)
        (λ s u.
          round-keeps network (λ v. machine.now u ≤ machine.now v) (timely.passes (machine.now u))
            machine vm_is_running lease_path state_dir s u (omega arith))
        30 initial_search w (omega arith)

  -- The ways in which the search may end.
  pub data IsResolved (deadline : ℕ) : Result CliError Ipv4Addr × World → Type 0 where
    answered :
        {w v : World} {ip : Ipv4Addr}
        → vm_is_running state_dir w ≡ true
        → first_answer (sources network machine vm_is_running lease_path state_dir) w ≡ (ok ip, v)
        → IsResolved deadline (ok ip, v)
    not_running :
        {v : World}
        → vm_is_running state_dir v ≡ false
        → IsResolved deadline
            (err (missing (codes "PID check") (not_running_reason state_dir v)), v)
    timed_out :
        {w v : World} {searched reason : Text}
        → vm_is_running state_dir w ≡ true
        → first_answer (sources network machine vm_is_running lease_path state_dir) w ≡ (err tt, v)
        → deadline ≤ machine.now v
        → IsResolved deadline (err (missing searched reason), v)

  answered_inv :
      (r : Result CliError (Turn Search Ipv4Addr) × World) (q : Result (Unit {0}) Ipv4Addr × World)
      (ip : Ipv4Addr) (v : World)
      → answer r ≡ as_option q
      → r ≡ (ok (found ip), v)
      → q ≡ (ok ip, v)
  answered_inv r (ok ip1, v1) ip v h k =
      let e : Path (Result CliError (Option Ipv4Addr) × World) (ok (some ip1), v1)
          (ok (some ip), v) =
        sym h ∙ ap answer k in
      cc
  answered_inv r (err tt, v1) ip v h k =
      let e : Path (Result CliError (Option Ipv4Addr) × World) (ok none, v1) (ok (some ip), v) =
        sym h ∙ ap answer k in
      cc

  missed_inv :
      (r : Result CliError (Turn Search Ipv4Addr) × World) (q : Result (Unit {0}) Ipv4Addr × World)
      (t : Search) (v : World)
      → answer r ≡ as_option q
      → r ≡ (ok (missed t), v)
      → q ≡ (err tt, v)
  missed_inv r (ok ip, v1) t v h k =
      let e : Path (Result CliError (Option Ipv4Addr) × World) (ok (some ip), v1) (ok none, v) =
        sym h ∙ ap answer k in
      cc
  missed_inv r (err tt, v1) t v h k =
      let e : Path (Result CliError (Option Ipv4Addr) × World) (ok none, v1) (ok none, v) =
        sym h ∙ ap answer k in
      cc

  never_fails :
      (r : Result CliError (Turn Search Ipv4Addr) × World) (q : Result (Unit {0}) Ipv4Addr × World)
      (e : CliError) (v : World)
      → answer r ≡ as_option q
      → r ≢ (err e, v)
  never_fails r (ok ip, v1) e v h k =
      let path : Path (Result CliError (Option Ipv4Addr) × World) (ok (some ip), v1) (err e, v) =
        sym h ∙ ap answer k in
      cc
  never_fails r (err tt, v1) e v h k =
      let path : Path (Result CliError (Option Ipv4Addr) × World) (ok none, v1) (err e, v) =
        sym h ∙ ap answer k in
      cc

  round_running :
      (s : Search) (w : World)
      → vm_is_running state_dir w ≡ true
      → round network machine vm_is_running lease_path state_dir s w
        ≡ try_sources network machine vm_is_running lease_path state_dir s w
  unfolding round
  round_running s w h = rw h refl

  round_halted :
      (s : Search) (w : World)
      → vm_is_running state_dir w ≡ false
      → round network machine vm_is_running lease_path state_dir s w
        ≡ (err (missing (codes "PID check") (not_running_reason state_dir w)), w)
  unfolding round
  round_halted s w h = rw h refl

  Rounds-IsResolved :
      (deadline : ℕ) (w : World) (r : Result CliError Ipv4Addr × World)
      → Rounds deadline w r
      → IsResolved deadline r
  unfolding time_out
  Rounds-IsResolved deadline w r rounds =
      Polls-outcome machine.now (machine.sleep 2000) deadline 2000
        (round network machine vm_is_running lease_path state_dir) (time_out state_dir)
        (IsResolved deadline) failed given given_up rounds
    where
      failed :
          (s : Search) (x v : World) (e : CliError)
          → round network machine vm_is_running lease_path state_dir s x ≡ (err e, v)
          → IsResolved deadline (err e, v)
      failed s x v e h = elim (Bool-cases (vm_is_running state_dir x)) [
        | inr halted ↦
            subst (IsResolved deadline) (ap failure (sym (round_halted s x halted) ∙ h))
              (not_running halted)
        | inl running ↦ absurd (
            never_fails _ _ e v
              (try_sources-first_answer network machine vm_is_running lease_path state_dir s x)
              (sym (round_running s x running) ∙ h))
      ]

      given :
          (s : Search) (x v : World) (ip : Ipv4Addr)
          → round network machine vm_is_running lease_path state_dir s x ≡ (ok (found ip), v)
          → IsResolved deadline (ok ip, v)
      given s x v ip h = elim (Bool-cases (vm_is_running state_dir x)) [
        | inr halted ↦
            let e : Path (Result CliError (Turn Search Ipv4Addr) × World)
                (err (missing (codes "PID check") (not_running_reason state_dir x)), x)
                (ok (found ip), v) =
              sym (round_halted s x halted) ∙ h in
            cc
        | inl running ↦ answered running (
            answered_inv _ _ ip v
              (try_sources-first_answer network machine vm_is_running lease_path state_dir s x)
              (sym (round_running s x running) ∙ h))
      ]

      given_up :
          (s t : Search) (x v : World)
          → round network machine vm_is_running lease_path state_dir s x ≡ (ok (missed t), v)
          → deadline ≤ machine.now v
          → IsResolved deadline (time_out state_dir t v)
      given_up s t x v h late = elim (Bool-cases (vm_is_running state_dir x)) [
        | inr halted ↦
            let e : Path (Result CliError (Turn Search Ipv4Addr) × World)
                (err (missing (codes "PID check") (not_running_reason state_dir x)), x)
                (ok (missed t), v) =
              sym (round_halted s x halted) ∙ h in
            cc
        | inl running ↦
            timed_out running
              (missed_inv _ _ t v
                (try_sources-first_answer network machine vm_is_running lease_path state_dir s x)
                (sym (round_running s x running) ∙ h))
              late
      ]

  -- If sleeping takes its time and nothing that is asked turns the clock back, the search for an
  -- address that is not given ends: with the first answer of the sources, while the machine ran;
  -- with the error of a machine that does not run; or with the error of the timeout, behind a
  -- round without an answer that ended no earlier than a minute after the start.
  pub resolve_vm_ip-IsResolved :
      IsTimely network machine
      → (w : World)
      → IsResolved
          (machine.now w + 60000)
          (resolve_vm_ip network machine vm_is_running lease_path state_dir none w)
  resolve_vm_ip-IsResolved timely w =
      Rounds-IsResolved (machine.now w + 60000) w _ (resolve_vm_ip-Rounds timely w)
