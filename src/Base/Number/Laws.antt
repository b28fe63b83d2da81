-- ===== src/Base/Number/Laws.antt =====
-- The conversions round trip.
use Prim.Native.Nat.{ℕ, ◌+◌, ◌*◌, ◌/◌, ◌%◌, ◌<◌, ◌≤◌}
use mathlib.Core.List.{concat-ne-nil, cons-ne-nil}
use mathlib.Core.Logic.{ite, dite, if_pos, if_neg}
use mathlib.Core.WellFounded
use mathlib.Core.WellFounded.{Acc, Acc-prop}
use native.Mathlib.Decide.{dec_lt}
use malleus.Base.{
  some, [], ◌∷◌, ◌++◌, ◌≡◌, refl, ◌≢◌, arith, ◌==◌, if◌then◌else◌, All, All-append, inl, inr,
  Option-cases, ◌∙◌, ap,
}
use malleus.Base.Text.{Text}
use malleus.Base.Number.{
  to_digit, scan_digits, from_str_radix, u8_max, format_02x, lt_wf, tenth-lt, decimal_acc,
  to_string,
}

-- Any two proofs of `Acc` are equal.
decimal_acc_step :
    (n : ℕ) (w : Acc ◌<◌ n) (w' : Acc ◌<◌ (n / 10))
    → decimal_acc n w
      ≡ ite (dec_lt 9 n) (decimal_acc (n / 10) w' ++ (48 + n % 10) ∷ []) ((48 + n) ∷ [])
unfolding decimal_acc
decimal_acc_step n (Acc.intro _ smaller) w' = λ i.
    dite (dec_lt 9 n)
      (λ h.
        decimal_acc (n / 10) (Acc-prop (smaller (n / 10) (tenth-lt h)) w' i) ++ (48 + n % 10) ∷ [])
      (λ _. (48 + n) ∷ [])

pub to_string_step :
    (n : ℕ)
    → to_string n ≡ ite (dec_lt 9 n) (to_string (n / 10) ++ (48 + n % 10) ∷ []) ((48 + n) ∷ [])
unfolding to_string
to_string_step n = decimal_acc_step n (lt_wf.apply n) (lt_wf.apply (n / 10))

-- A split on whether a number has several digits.
ite_cases :
    (P : Text → Type 0) (n : ℕ)
    → (9 < n → P (to_string (n / 10) ++ (48 + n % 10) ∷ []))
    → (¬ (9 < n) → P ((48 + n) ∷ []))
    → P (to_string n)
ite_cases P n several one = elim (dec_lt 9 n) [
  | yes p ↦ rw (to_string_step, if_pos _ p) (several p)
  | no p ↦ rw (to_string_step, if_neg _ p) (one p)
]

-- A property of every printed number from one of the digits.
pub to_string-All :
    (P : ℕ → Type 0) → ((d : ℕ) → d < 10 → P (48 + d)) → (n : ℕ) → All P (to_string n)
to_string-All P h n = WellFounded.induction lt_wf {C = λ m. All P (to_string m)} n λ m ih.
    ite_cases (All P) m
      (λ p. All-append P _ _ (ih (m / 10) (tenth-lt p)) (h (m % 10) (omega arith), tt))
      (λ p. (h m (omega arith), tt))

scan_digits-append :
    (radix max : ℕ) (s : Text) (c n m : ℕ)
    → scan_digits radix max s n ≡ some m
    → scan_digits radix max (s ++ c ∷ []) n ≡ scan_digits radix max (c ∷ []) m
unfolding scan_digits
scan_digits-append radix max [] c n m h = ground arith
scan_digits-append radix max (d ∷ s) c n m h = elim (Option-cases (to_digit radix d)) [
  | inl e ↦ ground arith
  | inr (k, e) ↦ ground (arith, scan_digits-append radix max s c (n * radix + k) m)
]

scan_digits_one :
    (max q d : ℕ)
    → d < 10
    → q * 10 + d ≤ max
    → scan_digits 10 max ((48 + d) ∷ []) q ≡ some (q * 10 + d)
unfolding scan_digits to_digit
scan_digits_one max q d small fits = ground arith

pub scan_digits-to_string : (max n : ℕ) → n ≤ max → scan_digits 10 max (to_string n) 0 ≡ some n
scan_digits-to_string max n =
    WellFounded.induction lt_wf {C = λ m. m ≤ max → scan_digits 10 max (to_string m) 0 ≡ some m} n
      λ m ih fits.
        ite_cases (λ s. scan_digits 10 max s 0 ≡ some m) m
          (λ p.
            scan_digits-append 10 max _ _ 0 (m / 10) (ih (m / 10) (tenth-lt p) (omega arith))
            ∙ scan_digits_one max (m / 10) (m % 10) (omega arith) (omega arith)
            ∙ ap some (omega arith))
          (λ p. scan_digits_one max 0 m (omega arith) (omega arith) ∙ ap some (omega arith))

pub to_string-ne-nil : (n : ℕ) → to_string n ≢ []
to_string-ne-nil n = ite_cases (λ s. s ≢ []) n (λ p. concat-ne-nil _ _) (λ p. cons-ne-nil _ _)

-- A text with no `+` in front is its digits.
from_str_radix-plain :
    (radix max : ℕ) (s : Text)
    → s ≢ []
    → All (λ c. c ≢ b'+') s
    → from_str_radix radix max s ≡ scan_digits radix max s 0
unfolding from_str_radix
from_str_radix-plain radix max [] h _ = absurd (h refl)
from_str_radix-plain radix max (c ∷ []) _ (h, _) = ground arith
from_str_radix-plain radix max (c ∷ d ∷ s) _ (h, _) = ground arith

-- Every number of the type is read back from its decimal print.
pub from_str_radix-to_string : (max n : ℕ) → n ≤ max → from_str_radix 10 max (to_string n) ≡ some n
from_str_radix-to_string max n h =
    from_str_radix-plain 10 max _ (to_string-ne-nil n) (to_string-All _ (λ d small. omega arith) n)
    ∙ scan_digits-to_string max n h

scan_digits-le :
    (radix max : ℕ) (s : Text) (n m : ℕ) → n ≤ max → scan_digits radix max s n ≡ some m → m ≤ max
unfolding scan_digits
scan_digits-le radix max [] n m fits h = ground arith
scan_digits-le radix max (c ∷ s) n m fits h = elim (Option-cases (to_digit radix c)) [
  | inl e ↦ ground arith
  | inr (d, e) ↦ ground (arith, scan_digits-le radix max s (n * radix + d) m)
]

-- A number that is read fits the type.
pub from_str_radix-le :
    (radix max : ℕ) (s : Text) (n : ℕ) → from_str_radix radix max s ≡ some n → n ≤ max
unfolding from_str_radix
from_str_radix-le radix max [] n h = cc
from_str_radix-le radix max (c ∷ []) n h = ground (arith, scan_digits-le radix max (c ∷ []) 0 n)
from_str_radix-le radix max (c ∷ d ∷ s) n h =
    scan_digits-le radix max (if c == b'+' then d ∷ s else c ∷ d ∷ s) 0 n (omega arith) h

-- A byte is read back from its two hexadecimal digits.
pub from_str_radix-format_02x :
    (byte : ℕ) → byte ≤ u8_max → from_str_radix 16 u8_max (format_02x byte) ≡ some byte
unfolding from_str_radix
from_str_radix-format_02x byte h = ground arith
