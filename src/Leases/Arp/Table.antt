-- ===== src/Leases/Arp/Table.antt =====
-- An ARP table as `arp -an` prints it, and `find_in_arp` as a search of that table.
use mathlib.Core.List.{map, cons-ne-nil}
use mathlib.Core.Path.{fun_ext}
use malleus.Base.{
  ◌≡◌, refl, ◌∙◌, sym, ap, false, Option, none, some, List, [], ◌∷◌, ◌++◌, arith, All, All-append,
  if◌then◌else◌, find_map, Option-cases, inl, inr,
}
use malleus.Base.Text.{
  Text, codes, same_as, lines, split_ascii_whitespace, is_ascii_whitespace, join,
}
use malleus.Base.Text.Split.{Lacks, join-All}
use malleus.Base.Text.Lines.{
  is_line_end, lines_next, IsWord, split_ascii_whitespace-join, trim_matches_ends,
}
use malleus.Base.Ipv4.{
  Ipv4Addr, IsIpv4, show_ipv4, parse_ipv4-show_ipv4, show_ipv4-Lacks, show_ipv4-ne-nil,
}
use malleus.Leases.Mac.{normalize_mac}
use malleus.Leases.Mac.Laws.{mac_bytes, normalize_mac-mac_bytes}
use malleus.Leases.Mac.Canonical.{same_as-mac_bytes}
use malleus.Leases.Arp.{is_paren, arp_parts, find_in_arp}

-- A line `host (ip) at mac …`; the `mac` of an incomplete entry is not one.
pub record Arp : Type 0 where
  pub host : Text
  pub ip : Ipv4Addr
  pub mac : Text
  pub rest : List Text

pub record IsArp (e : Arp) : Type 0 where
  pub host_word : IsWord e.host
  pub ip_fits : IsIpv4 e.ip
  pub mac_word : IsWord e.mac
  pub rest_words : All IsWord e.rest

in_parens : Text → Text
in_parens t = b'(' ∷ (t ++ b')' ∷ [])

pub arp_words : Arp → List Text
unfolding in_parens
arp_words e = e.host ∷ in_parens (show_ipv4 e.ip) ∷ codes "at" ∷ e.mac ∷ e.rest

unfoldable pub render_arps : List Arp → Text
unfolding arp_words
render_arps [] = []
render_arps (e ∷ es) = join (codes " ") (arp_words e) ++ 10 ∷ render_arps es

-- The address of an entry whose MAC address spells the wanted bytes.
abbrev pub arp_ip : Text → Arp → Option Ipv4Addr
arp_ip mac e = if same_as (mac_bytes e.mac) (mac_bytes mac) then some e.ip else none

arp_words-IsWord : (e : Arp) → IsArp e → All IsWord (arp_words e)
unfolding arp_words is_ascii_whitespace
arp_words-IsWord e h = (
  h.host_word,
  (
    (
      cons-ne-nil _ _,
      (
        refl,
        All-append _ (show_ipv4 e.ip) _ (show_ipv4-Lacks _ refl (λ d k. ground arith) e.ip)
            (refl, tt),
      ),
    ),
    ((cons-ne-nil _ _, (refl, (refl, tt))), (h.mac_word, h.rest_words)),
  ),
)

IsWord-Lacks : (w : Text) → Lacks is_ascii_whitespace w → Lacks is_line_end w
unfolding is_ascii_whitespace
IsWord-Lacks [] _ = tt
IsWord-Lacks (c ∷ w) (h, hs) = (ground arith, IsWord-Lacks w hs)

words-Lacks : (ws : List Text) → All IsWord ws → All (Lacks is_line_end) ws
words-Lacks [] _ = tt
words-Lacks (w ∷ ws) (h, hs) = (IsWord-Lacks w h.1, words-Lacks ws hs)

lines-render_arps :
    (es : List Arp)
    → All IsArp es
    → lines (render_arps es) ≡ map (λ e. join (codes " ") (arp_words e)) es
unfolding render_arps
lines-render_arps [] _ = unfold lines in refl
lines-render_arps (e ∷ es) (h, hs) =
    lines_next (join (codes " ") (arp_words e)) (render_arps es) (
      join-All (λ c. is_line_end c ≡ false) _ (arp_words e) (refl, tt)
        (words-Lacks (arp_words e) (arp_words-IsWord e h)))
    ∙ ap (λ ls. join (codes " ") (arp_words e) ∷ ls) (lines-render_arps es hs)

arp_parts-arp_words :
    (wanted_mac : Text) (e : Arp)
    → IsArp e
    → arp_parts wanted_mac (arp_words e)
      ≡ (if same_as (normalize_mac e.mac) (some wanted_mac) then some e.ip else none)
unfolding arp_parts arp_words
arp_parts-arp_words wanted_mac e h = ground (
  arith,
  trim_matches_ends is_paren b'(' (show_ipv4 e.ip) b')' (show_ipv4-ne-nil e.ip)
      (show_ipv4-Lacks is_paren refl (λ d k. ground arith) e.ip) refl refl,
  parse_ipv4-show_ipv4 e.ip h.ip_fits,
)

arp_words-join :
    (e : Arp) → IsArp e → split_ascii_whitespace (join (codes " ") (arp_words e)) ≡ arp_words e
unfolding arp_words
arp_words-join e h = split_ascii_whitespace-join e.host _ (arp_words-IsWord e h)

module _ (wanted_mac : Text) where
  find_map-arp_words :
      (es : List Arp)
      → All IsArp es
      → find_map
          (λ line. arp_parts wanted_mac (split_ascii_whitespace line))
          (map (λ e. join (codes " ") (arp_words e)) es)
        ≡ find_map
            (λ e. if same_as (normalize_mac e.mac) (some wanted_mac) then some e.ip else none)
            es
  find_map-arp_words [] _ = refl
  find_map-arp_words (e ∷ es) (h, hs) =
      ground
        (arith, arp_words-join e h, arp_parts-arp_words wanted_mac e h, find_map-arp_words es hs)

find_map-none :
    (mac : Text) → mac_bytes mac ≡ none → (es : List Arp) → find_map (arp_ip mac) es ≡ none
find_map-none mac h [] = refl
find_map-none mac h (e ∷ es) = ground (arith, find_map-none mac h es)

-- In a table of well-formed entries the result is the address of the first entry whose MAC
-- address spells the same bytes as the wanted one; there is none if that is malformed.
pub find_in_arp-render_arps :
    (es : List Arp) (mac : Text)
    → All IsArp es
    → find_in_arp (render_arps es) mac ≡ find_map (arp_ip mac) es
unfolding find_in_arp
find_in_arp-render_arps es mac h = elim (Option-cases (normalize_mac mac)) [
  | inl e ↦
      rw (e, find_in_arp) (sym (find_map-none mac (ground (arith, normalize_mac-mac_bytes mac)) es))
  | inr (wanted, e) ↦
      rw (e, find_in_arp)
        (ap (find_map (λ line. arp_parts wanted (split_ascii_whitespace line)))
            (lines-render_arps es h)
          ∙ find_map-arp_words wanted es h
          ∙ ap (λ f. find_map f es) (fun_ext (λ a. ground (arith, same_as-mac_bytes a.mac mac))))
]
