-- ===== src/Base/Result.antt =====
-- Rust's `Result`, with `?` as the bind of `do` blocks and `map_err` for `From` conversions.
use malleus.Base.{◌⊎◌, inl, inr, ◌↔◌, ◌≡◌, refl}

pub data Result {ℓ} (E A : Type ℓ) : Type ℓ where
  ok : A → Result E A
  err : E → Result E A

abbrev pub map_err : {E F A : Type 0} → (E → F) → Result E A → Result F A
map_err from (err failure) = err (from failure)
map_err from (ok value) = ok value

infixl 5 ◌>>=◌ ◌>>◌
abbrev pub ◌>>=◌ : {E A B : Type 0} → Result E A → (A → Result E B) → Result E B
err failure >>= next = err failure
ok value >>= next = next value

abbrev pub ◌>>◌ : {E B : Type 0} → Result E (Unit {0}) → Result E B → Result E B
err failure >> rest = err failure
ok _ >> rest = rest

-- A sequence succeeds exactly if both parts do.
pub >>-eq-ok_iff :
    {E B : Type 0} (first : Result E (Unit {0})) (rest : Result E B) (b : B)
    → ((first >> rest) ≡ ok b) ↔ ((first ≡ ok tt) × (rest ≡ ok b))
>>-eq-ok_iff (err failure) rest b = (λ h. cc, λ h. cc)
>>-eq-ok_iff (ok u) rest b = (λ h. (refl, h), λ h. h.1)

pub Result-cases :
    {E A : Type 0} (r : Result E A) → ((a : A) × (r ≡ ok a)) ⊎ ((e : E) × (r ≡ err e))
Result-cases (ok value) = inl (value, refl)
Result-cases (err failure) = inr (failure, refl)
