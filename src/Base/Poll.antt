-- ===== src/Base/Poll.antt =====
-- A loop that tries something, gives up when a deadline has passed and sleeps before it tries
-- again: the form of both waiting loops of src/main.rs.
pub mod Laws
use malleus.Base.{ℕ, zero, suc, ◌≤◌, ◌<◌, ◌≡◌, Bool, leb, if◌then◌else◌}
use malleus.Base.Result.{Result, ok, err}
use malleus.Base.Io.{Io, after}

-- A round gives a value, or what it keeps for the next one.
pub data Turn (S A : Type 0) : Type 0 where
  found : A → Turn S A
  missed : S → Turn S A

module _ {W E S A : Type 0} (now : W → ℕ) (sleep : W → W) (deadline : ℕ)
    (attempt : S → Io W E (Turn S A)) (give_up : S → Io W E A) where
  -- The loop as the language runs it: which result it has, if it has one.
  pub data Polls : S → W → Result E A × W → Type 0 where
    fails : {s : S} {w v : W} {e : E} → attempt s w ≡ (err e, v) → Polls s w (err e, v)
    finds : {s : S} {w v : W} {a : A} → attempt s w ≡ (ok (found a), v) → Polls s w (ok a, v)
    gives_up :
        {s t : S} {w v : W}
        → attempt s w ≡ (ok (missed t), v)
        → deadline ≤ now v
        → Polls s w (give_up t v)
    goes_on :
        {s t : S} {w v : W} {r : Result E A × W}
        → attempt s w ≡ (ok (missed t), v)
        → now v < deadline
        → Polls t (sleep v) r
        → Polls s w r

  unfoldable pub turn : (S → Io W E A) → Turn S A → Io W E A
  turn again (found a) v = (ok a, v)
  turn again (missed s) v = if leb deadline (now v) then give_up s v else again s v

  -- The loop on fuel, which is the number of times that it sleeps.
  unfoldable pub poll : ℕ → S → Io W E A
  unfolding turn
  poll zero s w = after (attempt s w) (turn give_up)
  poll (suc n) s w = after (attempt s w) (turn (λ t v. poll n t (sleep v)))
