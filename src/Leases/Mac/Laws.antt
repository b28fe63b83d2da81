-- ===== src/Leases/Mac/Laws.antt =====
-- What `normalize_mac` computes: the six bytes that a MAC address spells, printed in one way.
use malleus.Base.{
  ℕ, suc, ◌≡◌, refl, Option, none, some, List, [], ◌∷◌, ◌++◌, map, arith, ◌==◌, if◌then◌else◌,
  length, Option-cases, inl, inr, append_assoc, append-nil, ap,
}
use mathlib.Core.Option
use malleus.Base.Text.{Text, split, join}
use malleus.Base.Number.{from_str_radix, format_02x, u8_max}
use malleus.Leases.Mac.{normalize_parts, normalize_mac}

abbrev pub colon : ℕ
colon = b':'

-- The bytes of the parts, if each is one.
abbrev pub parts_bytes : List Text → Option (List ℕ)
parts_bytes [] = some []
parts_bytes (part ∷ parts) = elim (from_str_radix 16 u8_max part) [
  | none ↦ none
  | some byte ↦ Option.map (λ bytes. byte ∷ bytes) (parts_bytes parts)
]

abbrev pub six : List ℕ → Option (List ℕ)
six bytes = if length bytes == 6 then some bytes else none

-- The six bytes that a MAC address spells.
abbrev pub mac_bytes : Text → Option (List ℕ)
mac_bytes mac = elim (parts_bytes (split colon mac)) [ none ↦ none | some bytes ↦ six bytes ]

-- The canonical print, lowercase and padded.
abbrev pub format_mac : List ℕ → Text
format_mac bytes = join (colon ∷ []) (map format_02x bytes)

normalize_parts-parts_bytes :
    (parts octets : List Text)
    → normalize_parts parts octets
      ≡ Option.map (λ bytes. octets ++ map format_02x bytes) (parts_bytes parts)
unfolding normalize_parts
normalize_parts-parts_bytes [] octets = rw append-nil
normalize_parts-parts_bytes (part ∷ parts) octets =
    elim (Option-cases (from_str_radix 16 u8_max part)) [
      | inl e ↦ ground arith
      | inr (byte, e) ↦
          let ih = normalize_parts-parts_bytes parts (octets ++ format_02x byte ∷ []) in
          elim (Option-cases (parts_bytes parts)) [
            | inl f ↦ ground arith
            | inr (bytes, f) ↦
                ground (arith, append_assoc octets (format_02x byte ∷ []) (map format_02x bytes))
          ]
    ]

length-map : (bytes : List ℕ) → length (map format_02x bytes) ≡ length bytes
length-map [] = refl
length-map (b ∷ bytes) = ap suc (length-map bytes)

-- The loop prints the six bytes that the address spells, and refuses an address that spells none.
pub normalize_mac-mac_bytes :
    (mac : Text) → normalize_mac mac ≡ Option.map format_mac (mac_bytes mac)
unfolding normalize_mac
normalize_mac-mac_bytes mac =
    let loop = normalize_parts-parts_bytes (split colon mac) [] in
    elim (Option-cases (parts_bytes (split colon mac))) [
      | inl e ↦ ground arith
      | inr (bytes, e) ↦ ground (arith, length-map bytes)
    ]
