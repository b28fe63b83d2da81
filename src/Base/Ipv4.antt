-- ===== src/Base/Ipv4.antt =====
-- `std::net::Ipv4Addr`: its parser and its printer.
use mathlib.Core.List.{cons-ne-nil}
use malleus.Base.{
  ℕ, zero, suc, ◌+◌, ◌≢◌, ◌&&◌, ◌<◌, ◌≡◌, refl, Bool, ◌||◌, Option, none, some, List, [], ◌∷◌,
  arith, ltb, ◌==◌, if◌then◌else◌, length, ◌≤◌, false, true,
}
use malleus.Base.Text.{Text, split, join}
use malleus.Base.Text.Split.{Lacks, split-join, join-All, append-ne-nil}
use malleus.Base.Number.{to_digit, scan_digits, to_string, u8_max}
use malleus.Base.Number.Laws.{to_string-All}

pub record Ipv4Addr : Type 0 where
  pub a : ℕ
  pub b : ℕ
  pub c : ℕ
  pub d : ℕ

abbrev pub dot : ℕ
dot = b'.'

-- One to three digits with no leading zero, below 256.
unfoldable pub parse_octet : Text → Option ℕ
unfolding scan_digits to_digit
parse_octet [] = none
parse_octet (c ∷ []) = scan_digits 10 u8_max (c ∷ []) 0
parse_octet (c ∷ d ∷ s) =
    if c == b'0' || ltb 1 (length s) then none else scan_digits 10 u8_max (c ∷ d ∷ s) 0

abbrev octets : Option ℕ → Option ℕ → Option ℕ → Option ℕ → Option Ipv4Addr
octets (some a) (some b) (some c) (some d) = some (record { a = a; b = b; c = c; d = d })
octets _ _ _ _ = none

abbrev from_parts : List Text → Option Ipv4Addr
from_parts (a ∷ b ∷ c ∷ d ∷ []) =
    octets (parse_octet a) (parse_octet b) (parse_octet c) (parse_octet d)
from_parts _ = none

-- `str::parse::<Ipv4Addr>`: four octets between dots, and nothing else.
unfoldable pub parse_ipv4 : Text → Option Ipv4Addr
parse_ipv4 s = from_parts (split dot s)

-- `Display`.
unfoldable pub show_ipv4 : Ipv4Addr → Text
show_ipv4 ip =
    join (dot ∷ []) (to_string ip.a ∷ to_string ip.b ∷ to_string ip.c ∷ to_string ip.d ∷ [])

-- An address that the type can hold.
pub record IsIpv4 (ip : Ipv4Addr) : Type 0 where
  pub a_fits : ip.a ≤ u8_max
  pub b_fits : ip.b ≤ u8_max
  pub c_fits : ip.c ≤ u8_max
  pub d_fits : ip.d ≤ u8_max

round_trips : ℕ → Bool
round_trips zero = true
round_trips (suc n) = elim (parse_octet (to_string n)) [
  | none ↦ false
  | some m ↦ m == n && round_trips n
]

round_trips_all : round_trips 256 ≡ true
unfolding round_trips parse_octet to_string
round_trips_all = refl

round_trips_sound : (k n : ℕ) → round_trips k ≡ true → n < k → parse_octet (to_string n) ≡ some n
unfolding round_trips
round_trips_sound zero n h p = absurd (omega arith)
round_trips_sound (suc k) n h p = ground (arith, round_trips_sound k n)

parse_octet-to_string : (n : ℕ) → n ≤ u8_max → parse_octet (to_string n) ≡ some n
parse_octet-to_string n h = round_trips_sound 256 n round_trips_all (omega arith)

lacks_dot : (n : ℕ) → Lacks (λ c. c == dot) (to_string n)
lacks_dot n = to_string-All _ (λ d small. ground arith) n

-- An address is read back from its print.
pub parse_ipv4-show_ipv4 : (ip : Ipv4Addr) → IsIpv4 ip → parse_ipv4 (show_ipv4 ip) ≡ some ip
unfolding parse_ipv4 show_ipv4
parse_ipv4-show_ipv4 ip h =
    rw
      (split-join dot (to_string ip.a) (to_string ip.b ∷ to_string ip.c ∷ to_string ip.d ∷ [])
        (lacks_dot ip.a, (lacks_dot ip.b, (lacks_dot ip.c, (lacks_dot ip.d, tt)))))
      (rw (
        parse_octet-to_string ip.a h.a_fits,
        parse_octet-to_string ip.b h.b_fits,
        parse_octet-to_string ip.c h.c_fits,
        parse_octet-to_string ip.d h.d_fits,
      ))

-- The characters of an address are digits and dots.
pub show_ipv4-Lacks :
    (p : ℕ → Bool)
    → p b'.' ≡ false
    → ((d : ℕ) → d < 10 → p (48 + d) ≡ false)
    → (ip : Ipv4Addr) → Lacks p (show_ipv4 ip)
unfolding show_ipv4
show_ipv4-Lacks p point digit ip =
    let plain = to_string-All (λ c. p c ≡ false) digit in
    join-All (λ c. p c ≡ false) _ _ (point, tt)
      (plain ip.a, (plain ip.b, (plain ip.c, (plain ip.d, tt))))

pub show_ipv4-ne-nil : (ip : Ipv4Addr) → show_ipv4 ip ≢ []
unfolding show_ipv4 join
show_ipv4-ne-nil ip = append-ne-nil (to_string ip.a) _ (cons-ne-nil _ _)
