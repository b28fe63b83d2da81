-- ===== src/Leases/Scan.antt =====
-- `find_lease` of src/leases.rs: a scan of the words of the lease file.
pub mod Blocks
pub mod Render
pub mod Identity
pub mod Records
use malleus.Base.{
  ℕ, Bool, true, false, ◌||◌, ◌&&◌, Option, none, some, List, [], ◌∷◌, ◌≡◌, refl, ◌==◌,
  if◌then◌else◌,
}
use malleus.Base.Text.{
  Text, codes, text_eq, same_as, split_ascii_whitespace, split_once, trim_end_matches, replace,
}
use malleus.Base.Ipv4.{Ipv4Addr, parse_ipv4}
use malleus.Leases.Mac.{normalize_mac}

-- The variables of the loop.
pub record Scan : Type 0 where
  pub ip : Option Ipv4Addr
  pub hw_matched : Bool
  pub name_matched : Bool

abbrev pub fresh : Scan
fresh = record { ip = none; hw_matched = false; name_matched = false }

-- What the loop does after a word: it returns an address, or goes on.
pub data Step : Type 0 where
  found : Ipv4Addr → Step
  next : Scan → Step

-- `value.split_once(',').map_or(value, |(_, mac)| mac)`.
abbrev pub after_comma : Text → Text
after_comma value = elim (split_once b',' value) [ none ↦ value | some (_, mac) ↦ mac ]

abbrev pub is_tail : ℕ → Bool
is_tail c = c == b';' || c == b','

-- The address at a closing brace.
abbrev pub close : Scan → Option Ipv4Addr
close s = if s.hw_matched || s.name_matched then s.ip else none

-- `wanted` is the normalised MAC address, `none` if it is malformed.
module _ (wanted name : Option Text) where
  unfoldable pub assign_key : Text → Text → Scan → Scan
  assign_key key value s =
      if text_eq key (codes "ip_address")
      then record s { ip = parse_ipv4 value }
      else if text_eq key (codes "hw_address") || text_eq key (codes "identifier")
      then record s {
        hw_matched = s.hw_matched || same_as (normalize_mac (after_comma value)) wanted;
      }
      else if text_eq key (codes "name")
      then record s { name_matched = s.name_matched || same_as (some value) name }
      else s

  unfoldable pub assign : Text → Scan → Scan
  unfolding assign_key
  assign word s = elim (split_once b'=' word) [
    | none ↦ s
    | some (key, value) ↦ assign_key key (trim_end_matches is_tail value) s
  ]

  unfoldable pub step : Text → Scan → Step
  unfolding assign
  step word s =
      if text_eq word (codes "{")
      then next fresh
      else if text_eq word (codes "}")
      then elim (close s) [ some ip ↦ found ip | none ↦ next fresh ]
      else next (assign word s)

  unfoldable pub scan : List Text → Scan → Option Ipv4Addr
  unfolding step
  scan [] s = none
  scan (word ∷ words) s = elim (step word s) [ found ip ↦ some ip | next t ↦ scan words t ]

-- The braces become words of their own.
unfoldable pub lease_words : Text → List Text
lease_words contents =
    split_ascii_whitespace (replace b'}' (codes " } ") (replace b'{' (codes " { ") contents))

unfoldable pub find_lease : Text → Text → Option Text → Option Ipv4Addr
unfolding scan lease_words
find_lease contents mac name = scan (normalize_mac mac) name (lease_words contents) fresh
