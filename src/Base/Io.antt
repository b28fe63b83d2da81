-- ===== src/Base/Io.antt =====
-- Fallible code that reads and changes a world: `?` is the bind, and keeps the world an error
-- leaves behind.
use malleus.Base.{◌≡◌, refl, Bool, true, false, if◌then◌else◌}
use malleus.Base.Result.{Result, ok, err}

abbrev pub Io : Type 0 → Type 0 → Type 0 → Type 0
Io W E A = W → Result E A × W

module _ {W : Type 0} where
  abbrev pub pure : {E A : Type 0} → A → Io W E A
  pure a w = (ok a, w)

  abbrev pub fail : {E A : Type 0} → E → Io W E A
  fail e w = (err e, w)

  -- A computation that cannot change the world.
  abbrev pub check : {E A : Type 0} → Result E A → Io W E A
  check r w = (r, w)

  -- What follows a result and the world that came with it.
  abbrev pub after : {E A B : Type 0} → Result E A × W → (A → Io W E B) → Result E B × W
  after (ok a, v) next = next a v
  after (err e, v) next = (err e, v)

  abbrev pub convert : {E F A : Type 0} → (E → F) → Result E A × W → Result F A × W
  convert from (ok a, v) = (ok a, v)
  convert from (err e, v) = (err (from e), v)

  -- The conversion of the error in `?`.
  abbrev pub from_error : {E F A : Type 0} → (E → F) → Io W E A → Io W F A
  from_error from m w = convert from (m w)

  -- `let _ = …`: the result is dropped, the change of the world stays.
  abbrev pub ignore : {E F A : Type 0} → Io W E A → Io W F (Unit {0})
  ignore m w = (ok tt, (m w).1)

  infixl 5 ◌>>=◌ ◌>>◌
  abbrev pub ◌>>=◌ : {E A B : Type 0} → Io W E A → (A → Io W E B) → Io W E B
  ◌>>=◌ m next w = after (m w) next

  abbrev pub ◌>>◌ : {E B : Type 0} → Io W E (Unit {0}) → Io W E B → Io W E B
  ◌>>◌ m rest w = after (m w) (λ _. rest)

  -- A sequence that succeeds has parts that do.
  pub after_inv :
      {E A B : Type 0} (r : Result E A × W) (next : A → Io W E B) (v : W) {b : B}
      → after r next ≡ (ok b, v)
      → (a : A) × (u : W) × (r ≡ (ok a, u)) × (next a u ≡ (ok b, v))
  after_inv (ok a, u) next v h = (a, u, refl, h)
  after_inv (err e, u) next v h = cc

  pub convert_inv :
      {E F A : Type 0} (from : E → F) (r : Result E A × W) (v : W) {a : A}
      → convert from r ≡ (ok a, v)
      → r ≡ (ok a, v)
  convert_inv from (ok a, u) v h = cc
  convert_inv from (err e, u) v h = cc

  -- A guard that lets a result through.
  pub guard_inv :
      {E A : Type 0} (b : Bool) (m : Io W E A) (e : E) (w v : W) {a : A}
      → (if b then m else fail e) w ≡ (ok a, v)
      → (b ≡ true) × (m w ≡ (ok a, v))
  guard_inv true m e w v h = (refl, h)
  guard_inv false m e w v h = cc

  pub refusal_inv :
      {E A : Type 0} (b : Bool) (m : Io W E A) (e : E) (w v : W) {a : A}
      → (if b then fail e else m) w ≡ (ok a, v)
      → (b ≡ false) × (m w ≡ (ok a, v))
  refusal_inv true m e w v h = cc
  refusal_inv false m e w v h = (refl, h)

  pub ok_inv :
      {E A : Type 0} (a b : A) (u v : W)
      → Path (Result E A × W) (ok a, u) (ok b, v)
      → (a ≡ b) × (u ≡ v)
  ok_inv a b u v h = (cc, cc)

  module _ (P : W → Type 0) where
    -- A property of the world that every part keeps.
    pub after-keeps :
        {E A B : Type 0} (r : Result E A × W) (next : A → Io W E B)
        → P r.1
        → ((a : A) (v : W) → P v → P (next a v).1)
        → P (after r next).1
    after-keeps (ok a, v) next h k = k a v h
    after-keeps (err e, v) next h k = h

    pub convert-keeps :
        {E F A : Type 0} (from : E → F) (r : Result E A × W) → P r.1 → P (convert from r).1
    convert-keeps from (ok a, v) h = h
    convert-keeps from (err e, v) h = h

    -- The two together: a call whose error `?` converts.
    pub called-keeps :
        {E F A B : Type 0} (from : E → F) (r : Result E A × W) (next : A → Io W F B)
        → P r.1
        → ((a : A) (v : W) → P v → P (next a v).1)
        → P (after (convert from r) next).1
    called-keeps from r next h k = after-keeps (convert from r) next (convert-keeps from r h) k
