-- ===== src/Leases/Scan/Identity.antt =====
-- What a block of a lease file says: the address and the identity of a guest.
use malleus.Base.{
  ◌≡◌, refl, ◌∙◌, ap, Bool, false, ◌||◌, ◌&&◌, Option, none, some, List, [], ◌∷◌, arith,
  if◌then◌else◌, Option-cases, inl, inr, any, find_map,
}
use malleus.Base.Text.{same_as, Text, codes, text_eq, text_eq_iff, split_once, trim_end_matches}
use malleus.Base.Ipv4.{Ipv4Addr, parse_ipv4}
use malleus.Leases.Scan.{
  Scan, fresh, after_comma, is_tail, assign_key, assign, find_lease, lease_words,
}
use malleus.Leases.Scan.Blocks.{assign_all, block_ip, blocks, find_lease-blocks}
use malleus.Leases.Mac.{normalize_mac}
use mathlib.Core.Path.{fun_ext}

abbrev pub ip_address : Text
ip_address = codes "ip_address"

-- The key and the value of a word `key=value`, with no `;` or `,` behind.
abbrev pub entry : Text → Option (Text × Text)
entry word = elim (split_once b'=' word) [
  | none ↦ none
  | some (key, value) ↦ some (key, trim_end_matches is_tail value)
]

-- The address after a word: an `ip_address` replaces it, also by nothing.
abbrev pub key_ip : Text → Text → Option Ipv4Addr → Option Ipv4Addr
key_ip key value ip = if text_eq key ip_address then parse_ipv4 value else ip

abbrev pub word_ip : Text → Option Ipv4Addr → Option Ipv4Addr
word_ip word ip = elim (entry word) [ none ↦ ip | some (key, value) ↦ key_ip key value ip ]

abbrev pub last_ip : List Text → Option Ipv4Addr → Option Ipv4Addr
last_ip [] ip = ip
last_ip (word ∷ words) ip = last_ip words (word_ip word ip)

module _ (wanted name : Option Text) where
  -- Whether an entry names the wanted hardware address or the wanted name.
  abbrev pub key_identifies : Text → Text → Bool
  key_identifies key value =
      ((text_eq key (codes "hw_address") || text_eq key (codes "identifier"))
        && same_as (normalize_mac (after_comma value)) wanted)
      || (text_eq key (codes "name") && same_as (some value) name)

  abbrev pub identifies : Text → Bool
  identifies word = elim (entry word) [
    | none ↦ false
    | some (key, value) ↦ key_identifies key value
  ]

  -- What the block gives, independent of the scan: its last address, if any of its words
  -- identifies the guest.
  abbrev pub lease_ip : List Text → Option Ipv4Addr
  lease_ip block = if any identifies block then last_ip block none else none

  assign_key_parts :
      (key value : Text) (s : Scan)
      → ((assign_key wanted name key value s).ip ≡ key_ip key value s.ip)
        × (((assign_key wanted name key value s).hw_matched
              || (assign_key wanted name key value s).name_matched)
            ≡ ((s.hw_matched || s.name_matched) || key_identifies key value))
  unfolding assign_key
  assign_key_parts key value s = ground (
    arith,
    text_eq_iff key ip_address,
    text_eq_iff key (codes "hw_address"),
    text_eq_iff key (codes "identifier"),
    text_eq_iff key (codes "name"),
  )

  assign_parts :
      (word : Text) (s : Scan)
      → ((assign wanted name word s).ip ≡ word_ip word s.ip)
        × (((assign wanted name word s).hw_matched || (assign wanted name word s).name_matched)
            ≡ ((s.hw_matched || s.name_matched) || identifies word))
  unfolding assign
  assign_parts word s = elim (Option-cases (split_once b'=' word)) [
    | inl e ↦ ground arith
    | inr ((key, value), e) ↦
        ground (arith, assign_key_parts key (trim_end_matches is_tail value) s)
  ]

  assign_all_parts :
      (block : List Text) (s : Scan)
      → ((assign_all wanted name block s).ip ≡ last_ip block s.ip)
        × (((assign_all wanted name block s).hw_matched
              || (assign_all wanted name block s).name_matched)
            ≡ ((s.hw_matched || s.name_matched) || any identifies block))
  assign_all_parts [] s = ground arith
  assign_all_parts (word ∷ block) s =
      let one = assign_parts word s in
      let rest = assign_all_parts block (assign wanted name word s) in
      (rest.0 ∙ ap (last_ip block) one.0, ground (arith, one.1, rest.1))

  pub block_ip-lease_ip : (block : List Text) → block_ip wanted name block ≡ lease_ip block
  block_ip-lease_ip block = ground (arith, assign_all_parts block fresh)

-- For every file, MAC address and name: the file is a sequence of blocks, and the result is the
-- last address of the first block that has a valid one and identifies the guest by one of its
-- words.
pub find_lease-lease_ip :
    (contents mac : Text) (name : Option Text)
    → find_lease contents mac name
      ≡ find_map (lease_ip (normalize_mac mac) name) (blocks (lease_words contents))
find_lease-lease_ip contents mac name =
    rw (← fun_ext (block_ip-lease_ip (normalize_mac mac) name))
      (find_lease-blocks contents mac name)

identifies-none : (words : List Text) → any (identifies none none) words ≡ false
identifies-none [] = refl
identifies-none (word ∷ words) = ground (arith, identifies-none words)

find_map-none : (bs : List (List Text)) → find_map (lease_ip none none) bs ≡ none
find_map-none [] = refl
find_map-none (b ∷ bs) = ground (arith, identifies-none b, find_map-none bs)

-- With a malformed MAC address and no name there is no result, whatever the file holds.
find_lease_malformed :
    (contents mac : Text) → normalize_mac mac ≡ none → find_lease contents mac none ≡ none
find_lease_malformed contents mac h =
    find_lease-lease_ip contents mac none ∙ rw h (find_map-none (blocks (lease_words contents)))
