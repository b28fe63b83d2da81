-- ===== src/Leases/Arp.antt =====
-- `find_in_arp` of src/leases.rs.
pub mod Table
use malleus.Base.{ℕ, Bool, ◌||◌, Option, none, some, List, [], ◌∷◌, ◌==◌, if◌then◌else◌, find_map}
use malleus.Base.Text.{same_as, Text, codes, text_eq, lines, split_ascii_whitespace, trim_matches}
use malleus.Base.Ipv4.{Ipv4Addr, parse_ipv4}
use malleus.Leases.Mac.{normalize_mac}

abbrev pub is_paren : ℕ → Bool
is_paren c = c == b'(' || c == b')'

-- `parts[1]`, `parts[2]` and `parts[3]` of a line with at least four parts.
unfoldable pub arp_parts : Text → List Text → Option Ipv4Addr
arp_parts wanted_mac (_ ∷ ip_part ∷ at ∷ mac_part ∷ _) =
    if text_eq at (codes "at")
    then if same_as (normalize_mac mac_part) (some wanted_mac)
      then parse_ipv4 (trim_matches is_paren ip_part)
      else none
    else none
arp_parts wanted_mac _ = none

unfoldable pub find_in_arp : Text → Text → Option Ipv4Addr
unfolding arp_parts
find_in_arp arp_output mac = elim (normalize_mac mac) [
  | none ↦ none
  | some wanted_mac ↦
      find_map (λ line. arp_parts wanted_mac (split_ascii_whitespace line)) (lines arp_output)
]
