-- ===== src/Leases/Mac/Canonical.antt =====
-- The normalised text of a MAC address is canonical: it does not depend on how the bytes are
-- written, and it determines them.
use malleus.Base.{
  ℕ, ◌≡◌, refl, ◌↔◌, false, Option, none, some, List, [], ◌∷◌, map, arith, ltb, ◌==◌, ◌≤◌, ◌/◌, ◌%◌,
  if◌then◌else◌, length, All, Option-cases, Bool-cases, inl, inr, sym, ◌∙◌, ap,
}
use mathlib.Core.Option
use mathlib.Core.Option.{some-injective}
use mathlib.Core.Path.{subst}
use malleus.Base.Text.{same_as, text_eq_iff, Text, split, join}
use malleus.Base.Text.Split.{Lacks, split-join}
use malleus.Base.Number.{from_str_radix, format_02x, hex_digit, u8_max}
use malleus.Base.Number.Laws.{from_str_radix-le, from_str_radix-format_02x}
use malleus.Leases.Mac.{normalize_mac}
use malleus.Leases.Mac.Laws.{colon, parts_bytes, mac_bytes, format_mac, normalize_mac-mac_bytes}

abbrev pub IsMac : List ℕ → Type 0
IsMac bytes = (length bytes ≡ 6) × All (λ b. b ≤ u8_max) bytes

-- `format!("{:x}")`, with no leading zero: how macOS writes an octet.
abbrev pub format_x : ℕ → Text
format_x byte = if ltb byte 16 then hex_digit byte ∷ [] else format_02x byte

abbrev pub stripped_mac : List ℕ → Text
stripped_mac bytes = join (colon ∷ []) (map format_x bytes)

-- A way to print the octets that the parser reads back.
module _ (show : ℕ → Text)
    (reads : (b : ℕ) → b ≤ u8_max → from_str_radix 16 u8_max (show b) ≡ some b)
    (no_colon : (b : ℕ) → b ≤ u8_max → Lacks (λ c. c == colon) (show b)) where
  parts_bytes-show :
      (bytes : List ℕ) → All (λ b. b ≤ u8_max) bytes → parts_bytes (map show bytes) ≡ some bytes
  parts_bytes-show [] _ = refl
  parts_bytes-show (b ∷ bytes) (h, hs) = ground (arith, reads b h, parts_bytes-show bytes hs)

  no_colons :
      (bytes : List ℕ)
      → All (λ b. b ≤ u8_max) bytes
      → All (Lacks (λ c. c == colon)) (map show bytes)
  no_colons [] _ = tt
  no_colons (b ∷ bytes) (h, hs) = (no_colon b h, no_colons bytes hs)

  mac_bytes-show :
      (bytes : List ℕ) → IsMac bytes → mac_bytes (join (colon ∷ []) (map show bytes)) ≡ some bytes
  mac_bytes-show [] (n, _) = absurd (omega arith)
  mac_bytes-show (b ∷ bytes) (n, h) = ground (
    arith,
    split-join colon (show b) (map show bytes) (no_colons (b ∷ bytes) h),
    parts_bytes-show (b ∷ bytes) h,
  )

hex_digit-ne-colon : (d : ℕ) → (hex_digit d == colon) ≡ false
hex_digit-ne-colon d = ground arith

from_str_radix-format_x : (b : ℕ) → b ≤ u8_max → from_str_radix 16 u8_max (format_x b) ≡ some b
from_str_radix-format_x b h = elim (Bool-cases (ltb b 16)) [
  | inl e ↦ rw e (unfold from_str_radix in ground arith)
  | inr e ↦ rw e (from_str_radix-format_02x b h)
]

mac_bytes-format_mac : (bytes : List ℕ) → IsMac bytes → mac_bytes (format_mac bytes) ≡ some bytes
mac_bytes-format_mac =
    mac_bytes-show format_02x from_str_radix-format_02x
      (λ b h. (hex_digit-ne-colon (b / 16), (hex_digit-ne-colon (b % 16), tt)))

format_x_no_colon : (b : ℕ) → b ≤ u8_max → Lacks (λ c. c == colon) (format_x b)
format_x_no_colon b h = elim (Bool-cases (ltb b 16)) [
  | inl e ↦ rw e (hex_digit-ne-colon b, tt)
  | inr e ↦ rw e (hex_digit-ne-colon (b / 16), (hex_digit-ne-colon (b % 16), tt))
]

abbrev AllFit : Option (List ℕ) → Type 0
AllFit none = Unit
AllFit (some bytes) = All (λ b. b ≤ u8_max) bytes

parts_bytes-AllFit : (parts : List Text) → AllFit (parts_bytes parts)
parts_bytes-AllFit [] = tt
parts_bytes-AllFit (part ∷ parts) =
    let ih = parts_bytes-AllFit parts in
    elim (Option-cases (from_str_radix 16 u8_max part)) [
      | inl e ↦ rw (e, parts_bytes) tt
      | inr (byte, e) ↦ elim (Option-cases (parts_bytes parts)) [
        | inl f ↦ rw (e, parts_bytes, f) tt
        | inr (bytes, f) ↦
            rw (e, parts_bytes, f) (from_str_radix-le 16 u8_max part byte e, rw f at ih)
      ]
    ]

pub mac_bytes-stripped_mac :
    (bytes : List ℕ) → IsMac bytes → mac_bytes (stripped_mac bytes) ≡ some bytes
mac_bytes-stripped_mac = mac_bytes-show format_x from_str_radix-format_x format_x_no_colon

-- What a MAC address spells is six bytes.
pub mac_bytes-IsMac : (mac : Text) (bytes : List ℕ) → mac_bytes mac ≡ some bytes → IsMac bytes
mac_bytes-IsMac mac bytes h =
    let fit = parts_bytes-AllFit (split colon mac) in
    elim (Option-cases (parts_bytes (split colon mac))) [
      | inl e ↦ ground arith
      | inr (found, e) ↦
          let same : found ≡ bytes = ground arith in
          (ground arith, subst AllFit (e ∙ ap some same) fit)
    ]

-- An address written without leading zeros, as macOS does, is brought to the padded form.
normalize_mac-stripped_mac :
    (bytes : List ℕ) → IsMac bytes → normalize_mac (stripped_mac bytes) ≡ some (format_mac bytes)
normalize_mac-stripped_mac bytes h = rw (normalize_mac-mac_bytes, mac_bytes-stripped_mac bytes h)

pub normalize_mac-format_mac :
    (bytes : List ℕ) → IsMac bytes → normalize_mac (format_mac bytes) ≡ some (format_mac bytes)
normalize_mac-format_mac bytes h = rw (normalize_mac-mac_bytes, mac_bytes-format_mac bytes h)

pub format_mac-injective :
    (xs ys : List ℕ) → IsMac xs → IsMac ys → format_mac xs ≡ format_mac ys → xs ≡ ys
format_mac-injective xs ys hx hy e =
    some-injective _ _
      (sym (mac_bytes-format_mac xs hx) ∙ ap mac_bytes e ∙ mac_bytes-format_mac ys hy)

-- Two addresses, the first well formed, have the same normalised text exactly when they spell
-- the same six bytes.
pub normalize_mac_exact :
    (mac other : Text) (norm : Text)
    → normalize_mac mac ≡ some norm
    → (normalize_mac other ≡ some norm) ↔ (mac_bytes other ≡ mac_bytes mac)
normalize_mac_exact mac other norm h =
    let (bytes, e, f) =
      (Option.map-eq-some_iff format_mac (mac_bytes mac)).0
        (sym (normalize_mac-mac_bytes mac) ∙ h) in
    (
      λ k.
          let (bytes', e', f') =
            (Option.map-eq-some_iff format_mac (mac_bytes other)).0
              (sym (normalize_mac-mac_bytes other) ∙ k) in
          e'
          ∙ ap some (
              format_mac-injective bytes' bytes (mac_bytes-IsMac other bytes' e')
                (mac_bytes-IsMac mac bytes e) (f' ∙ sym f))
          ∙ sym e,
      λ k.
          normalize_mac-mac_bytes other
          ∙ ap (Option.map format_mac) k
          ∙ sym (normalize_mac-mac_bytes mac)
          ∙ h,
    )

-- The comparison of normalised addresses is that of the bytes.
pub same_as-mac_bytes :
    (mac other : Text)
    → same_as (normalize_mac mac) (normalize_mac other) ≡ same_as (mac_bytes mac) (mac_bytes other)
same_as-mac_bytes mac other =
    let n = normalize_mac-mac_bytes mac in
    let m = normalize_mac-mac_bytes other in
    elim (Option-cases (mac_bytes mac)) [
      | inl e ↦ ground arith
      | inr (xs, e) ↦ elim (Option-cases (mac_bytes other)) [
        | inl f ↦ ground arith
        | inr (ys, f) ↦ ground (
          arith,
          text_eq_iff (format_mac xs) (format_mac ys),
          text_eq_iff xs ys,
          format_mac-injective xs ys (mac_bytes-IsMac mac xs e) (mac_bytes-IsMac other ys f),
        )
      ]
    ]
