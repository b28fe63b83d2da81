-- ===== src/Leases/Mac.antt =====
-- `normalize_mac` of src/leases.rs.
pub mod Laws
pub mod Canonical
use malleus.Base.{
  ℕ, Option, none, some, List, [], ◌∷◌, ◌++◌, ◌≡◌, refl, ◌==◌, if◌then◌else◌, length,
}
use malleus.Base.Text.{Text, codes, split, split_on, join}
use malleus.Base.Number.{from_str_radix, format_02x, u8_max}

-- The loop over the parts; `none` is the early return on a part that is no byte.
unfoldable pub normalize_parts : List Text → List Text → Option (List Text)
normalize_parts [] octets = some octets
normalize_parts (part ∷ parts) octets = elim (from_str_radix 16 u8_max part) [
  | none ↦ none
  | some byte ↦ normalize_parts parts (octets ++ format_02x byte ∷ [])
]

unfoldable pub normalize_mac : Text → Option Text
unfolding normalize_parts
normalize_mac mac = elim (normalize_parts (split b':' mac) []) [
  | none ↦ none
  | some octets ↦ if length octets == 6 then some (join (b':' ∷ []) octets) else none
]

stripped_zeros : normalize_mac (codes "52:54:0:12:34:F6") ≡ some (codes "52:54:00:12:34:f6")
unfolding normalize_mac from_str_radix split_on join
stripped_zeros = refl

bad_macs : (normalize_mac (codes "not-a-mac") ≡ none) × (normalize_mac (codes "1:2:3:4:5") ≡ none)
unfolding normalize_mac from_str_radix split_on join
bad_macs = (refl, refl)
