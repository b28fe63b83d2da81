-- ===== src/Base/Poll/Laws.antt =====
-- When the fuel of the loop is enough, and what every run keeps.
use mathlib.Core.Path.{subst}
use malleus.Base.{ℕ, zero, suc, ◌+◌, ◌*◌, ◌≤◌, ◌<◌, ◌≡◌, refl, leb, arith, Bool-cases, inl, inr}
use malleus.Base.Result.{Result, ok, err}
use malleus.Base.Io.{Io, after, after-keeps}
use malleus.Base.Poll.{Turn, found, missed, Polls, fails, finds, gives_up, goes_on, turn, poll}

module _ {W E S A : Type 0} (now : W → ℕ) (sleep : W → W) (deadline pause : ℕ)
    (attempt : S → Io W E (Turn S A)) (give_up : S → Io W E A) where
  -- A round ends the loop, or hands over to what follows before the deadline.
  round-Polls :
      (again : S → Io W E A) (s : S) (w : W) (r : Result E (Turn S A) × W)
      → attempt s w ≡ r
      → ((t : S) (v : W)
          → r ≡ (ok (missed t), v)
          → now v < deadline
          → Polls now sleep deadline attempt give_up s w (again t v))
      → Polls now sleep deadline attempt give_up s w
          (after r (turn now sleep deadline attempt give_up again))
  unfolding turn
  round-Polls again s w (err e, v) h k = fails h
  round-Polls again s w (ok (found a), v) h k = finds h
  round-Polls again s w (ok (missed t), v) h k = elim (Bool-cases (leb deadline (now v))) [
    | inl late ↦ rw late (gives_up h (ground arith))
    | inr early ↦ rw early (k t v refl (ground arith))
  ]

  -- If sleeping takes its time and a try does not turn the clock back, fuel for all the pauses up
  -- to the deadline gives the result of the loop.
  pub poll-Polls :
      ((v : W) → now v + pause ≤ now (sleep v))
      → ((s : S) (w : W) → now w ≤ now (attempt s w).1)
      → (n : ℕ) (s : S) (w : W) → deadline ≤ now w + pause * n
      → Polls now sleep deadline attempt give_up s w (poll now sleep deadline attempt give_up n s w)
  unfolding poll
  poll-Polls sleeps passes zero s w h = round-Polls give_up s w (attempt s w) refl (λ t v e early.
      let later : now w ≤ now v = subst (λ r. now w ≤ now r.1) e (passes s w) in
      absurd (omega arith))
  poll-Polls sleeps passes (suc n) s w h =
      round-Polls (λ t v. poll now sleep deadline attempt give_up n t (sleep v)) s w (attempt s w)
        refl
        (λ t v e early.
          let later : now w ≤ now v = subst (λ r. now w ≤ now r.1) e (passes s w) in
          let slept = sleeps v in
          goes_on e early (poll-Polls sleeps passes n t (sleep v) (omega arith)))

  turn-keeps :
      (P : W → Type 0)
      → ((s : S) (w : W) → P w → P (give_up s w).1)
      → (again : S → Io W E A) → ((s : S) (w : W) → P w → P (again s w).1)
      → (t : Turn S A) (v : W) → P v
      → P (turn now sleep deadline attempt give_up again t v).1
  unfolding turn
  turn-keeps P gives again on (found a) v p = p
  turn-keeps P gives again on (missed s) v p = elim (Bool-cases (leb deadline (now v))) [
    | inl late ↦ rw late (gives s v p)
    | inr early ↦ rw early (on s v p)
  ]

  -- What holds of each way to end holds of the result.
  pub Polls-outcome :
      (Q : Result E A × W → Type 0)
      → ((s : S) (w v : W) (e : E) → attempt s w ≡ (err e, v) → Q (err e, v))
      → ((s : S) (w v : W) (a : A) → attempt s w ≡ (ok (found a), v) → Q (ok a, v))
      → ((s t : S) (w v : W)
          → attempt s w ≡ (ok (missed t), v)
          → deadline ≤ now v
          → Q (give_up t v))
      → {s : S} {w : W} {r : Result E A × W} → Polls now sleep deadline attempt give_up s w r
      → Q r
  Polls-outcome Q failed given given_up {s = s} {w = w} (fails {v = v} {e = e} h) = failed s w v e h
  Polls-outcome Q failed given given_up {s = s} {w = w} (finds {v = v} {a = a} h) = given s w v a h
  Polls-outcome Q failed given given_up {s = s} {w = w} (gives_up {t = t} {v = v} h late) =
      given_up s t w v h late
  Polls-outcome Q failed given given_up (goes_on h early rest) =
      Polls-outcome Q failed given given_up rest

  -- What every try, the sleep and the giving up keep, the loop on any fuel keeps.
  pub poll-keeps :
      (P : W → Type 0)
      → ((s : S) (w : W) → P w → P (attempt s w).1)
      → ((w : W) → P w → P (sleep w))
      → ((s : S) (w : W) → P w → P (give_up s w).1)
      → (n : ℕ) (s : S) (w : W) → P w
      → P (poll now sleep deadline attempt give_up n s w).1
  unfolding poll
  poll-keeps P tries sleeps gives zero s w p =
      after-keeps P (attempt s w) (turn now sleep deadline attempt give_up give_up) (tries s w p)
        (turn-keeps P gives give_up gives)
  poll-keeps P tries sleeps gives (suc n) s w p = after-keeps P (attempt s w) _ (tries s w p) (
      turn-keeps P gives (λ t v. poll now sleep deadline attempt give_up n t (sleep v))
        (λ t v q. poll-keeps P tries sleeps gives n t (sleep v) (sleeps v q)))
