-- ===== src/Base/Number.antt =====
-- Rust's conversions between texts and unsigned numbers: `from_str_radix`, `parse`, `to_string` and
-- the format `{:02x}`.
pub mod Laws
use Prim.Native.Nat.{ℕ, zero, suc, ◌+◌, ◌-◌, ◌*◌, ◌/◌, ◌%◌, ◌^◌, ◌<◌}
use mathlib.Core.Logic.{dite}
use mathlib.Core.WellFounded.{Acc, WellFounded}
use native.Mathlib.Decide.{dec_lt}
use malleus.Base.{
  Bool, ◌&&◌, Option, none, some, [], ◌∷◌, ◌++◌, ◌≡◌, refl, arith, ltb, leb, ◌==◌, if◌then◌else◌,
}
use malleus.Base.Text.{Text, codes}

-- `char::to_digit`.
unfoldable pub to_digit : ℕ → ℕ → Option ℕ
to_digit radix c =
    let below = λ (d : ℕ). if ltb d radix then some d else none in
    if leb b'0' c && leb c b'9'
    then below (c - 48)
    else if leb b'a' c && leb c b'z'
    then below (c - 87)
    else if leb b'A' c && leb c b'Z'
    then below (c - 55)
    else none

-- The digits of a text behind a value; `none` is a bad digit or a value above `max`.
module _ (radix max : ℕ) where
  unfoldable pub scan_digits : Text → ℕ → Option ℕ
  scan_digits [] n = some n
  scan_digits (c ∷ s) n = elim (to_digit radix c) [
    | none ↦ none
    | some d ↦
        let rest = scan_digits s (n * radix + d) in if ltb max (n * radix + d) then none else rest
  ]

-- `from_str_radix` of an unsigned type with greatest value `max`: one `+` may stand in front.
unfoldable pub from_str_radix : ℕ → ℕ → Text → Option ℕ
unfolding scan_digits to_digit
from_str_radix radix max [] = none
from_str_radix radix max (c ∷ []) = if c == b'+' then none else scan_digits radix max (c ∷ []) 0
from_str_radix radix max (c ∷ d ∷ s) =
    scan_digits radix max (if c == b'+' then d ∷ s else c ∷ d ∷ s) 0

abbrev pub u8_max : ℕ
u8_max = 255

abbrev pub u32_max : ℕ
u32_max = 2 ^ 32 - 1

-- `str::parse::<u32>`.
abbrev pub parse_u32 : Text → Option ℕ
parse_u32 = from_str_radix 10 u32_max

abbrev pub hex_digit : ℕ → ℕ
hex_digit d = if ltb d 10 then 48 + d else 87 + d

-- `format!("{byte:02x}")` of a `u8`.
abbrev pub format_02x : ℕ → Text
format_02x byte = hex_digit (byte / 16) ∷ hex_digit (byte % 16) ∷ []

Acc-below : (k n : ℕ) → n < k → Acc ◌<◌ n
Acc-below zero n h = elim h [ ]
Acc-below (suc k) n h = Acc.intro n (λ m hm. Acc-below k m (omega arith))

lt_wf : WellFounded ◌<◌
unfolding Acc-below
lt_wf = record { apply = λ n. Acc-below (suc n) n (omega arith) }

-- The last digit of a number of several digits leaves a smaller number.
tenth-lt : {n : ℕ} → 9 < n → n / 10 < n
tenth-lt h = omega arith

decimal_acc : (n : ℕ) → Acc ◌<◌ n → Text
decimal_acc n (Acc.intro _ smaller) =
    dite (dec_lt 9 n)
      (λ h. decimal_acc (n / 10) (smaller (n / 10) (tenth-lt h)) ++ (48 + n % 10) ∷ [])
      (λ _. (48 + n) ∷ [])

-- `to_string` of an unsigned number.
unfoldable pub to_string : ℕ → Text
unfolding decimal_acc tenth-lt lt_wf dec_lt
to_string n = decimal_acc n (lt_wf.apply n)

to_string_test : to_string 4096 ≡ codes "4096"
unfolding to_string
to_string_test = refl

from_str_radix_test : from_str_radix 16 u8_max (codes "+0fF") ≡ some 255
unfolding from_str_radix
from_str_radix_test = refl
