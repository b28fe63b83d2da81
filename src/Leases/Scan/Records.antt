-- ===== src/Leases/Scan/Records.antt =====
-- The lease file as a table of leases, and `find_lease` as a search of that table.
use mathlib.Core.List.{map, cons-ne-nil}
use malleus.Base.{
  ℕ, ◌≡◌, refl, ◌≢◌, ◌∙◌, ap, Bool, false, ◌||◌, ◌==◌, Option, none, some, List, [], ◌∷◌, ◌++◌,
  arith, All, if◌then◌else◌, find_map, any, Bool-cases, inl, inr, ltb, ◌/◌, ◌%◌, ◌≤◌, ◌<◌,
}
use malleus.Base.Text.{
  same_as, Text, codes, trim_end_matches, is_ascii_whitespace, split_once, join,
}
use malleus.Base.Text.Split.{Lacks, join-All, Lacks_of_any}
use malleus.Base.Text.Words.{split_once-append, trim_end_matches_absent, trim_end_matches-append}
use malleus.Base.Number.{hex_digit, u8_max}
use malleus.Base.Ipv4.{Ipv4Addr, IsIpv4, show_ipv4, parse_ipv4-show_ipv4, show_ipv4-Lacks}
use malleus.Leases.Mac.{normalize_mac}
use malleus.Leases.Mac.Laws.{mac_bytes}
use malleus.Leases.Mac.Canonical.{
  same_as-mac_bytes, mac_bytes-stripped_mac, IsMac, stripped_mac, format_x,
}
use malleus.Leases.Scan.{is_tail, after_comma, find_lease}
use malleus.Leases.Scan.Identity.{
  entry, word_ip, last_ip, key_ip, key_identifies, identifies, lease_ip, find_lease-lease_ip,
}
use malleus.Leases.Scan.Render.{
  is_special, IsToken, IsEntry, entry_word, render_file, blocks-render_file,
}

pub record Lease : Type 0 where
  pub name : Text
  pub ip : Ipv4Addr
  pub mac : List ℕ
  pub expires : Text

pub record IsLease (l : Lease) : Type 0 where
  pub name_token : IsToken l.name
  pub name_end : trim_end_matches is_tail l.name ≡ l.name
  pub ip_fits : IsIpv4 l.ip
  pub mac_fits : IsMac l.mac
  pub expires_token : IsToken l.expires
  pub expires_end : trim_end_matches is_tail l.expires ≡ l.expires

-- `1,` is the hardware type, Ethernet.
abbrev hardware : Lease → Text
hardware l = codes "1," ++ stripped_mac l.mac

abbrev entries : Lease → List (Text × Text)
entries l =
    (codes "name", l.name)
    ∷ (codes "ip_address", show_ipv4 l.ip)
    ∷ (codes "hw_address", hardware l)
    ∷ (codes "identifier", hardware l)
    ∷ (codes "lease", l.expires)
    ∷ []

abbrev pub render_leases : List Lease → Text
render_leases ls = render_file (map entries ls)

-- Whether a lease is held by the wanted bytes or under the wanted name.
abbrev pub holds : Option (List ℕ) → Option Text → Lease → Bool
holds bytes name l = same_as (some l.mac) bytes || same_as (some l.name) name

entry-entry_word : (e : Text × Text) → IsEntry e → entry (entry_word e) ≡ some e
entry-entry_word (key, value) h = ground (arith, split_once-append b'=' key value h.key_end)

abbrev entries_ip : List (Text × Text) → Option Ipv4Addr → Option Ipv4Addr
entries_ip [] ip = ip
entries_ip (e ∷ es) ip = entries_ip es (key_ip e.0 e.1 ip)

last_ip-entry_words :
    (es : List (Text × Text)) (ip : Option Ipv4Addr)
    → All IsEntry es
    → last_ip (map entry_word es) ip ≡ entries_ip es ip
last_ip-entry_words [] ip _ = refl
last_ip-entry_words (e ∷ es) ip (h, hs) =
    rw (last_ip, word_ip, entry-entry_word e h) (last_ip-entry_words es (key_ip e.0 e.1 ip) hs)

module _ (wanted name : Option Text) where
  any-entry_words :
      (es : List (Text × Text))
      → All IsEntry es
      → any (identifies wanted name) (map entry_word es)
        ≡ any (λ e. key_identifies wanted name e.0 e.1) es
  any-entry_words [] _ = refl
  any-entry_words (e ∷ es) (h, hs) = rw (identifies, entry-entry_word e h, any-entry_words es hs)

hex_digit-ne :
    (d : ℕ) → d < 16 → (is_special (hex_digit d) ≡ false) × (is_tail (hex_digit d) ≡ false)
unfolding is_ascii_whitespace
hex_digit-ne d h = ground arith

module _ (p : ℕ → Bool) where
  map-format_x-Lacks :
      ((d : ℕ) → d < 16 → p (hex_digit d) ≡ false)
      → (bytes : List ℕ) → All (λ b. b ≤ u8_max) bytes
      → All (Lacks p) (map format_x bytes)
  map-format_x-Lacks digit [] _ = tt
  map-format_x-Lacks digit (b ∷ bytes) (h, hs) = (
    elim (Bool-cases (ltb b 16)) [
      | inl e ↦ rw e (digit b (ground arith), tt)
      | inr e ↦ rw e (digit (b / 16) (omega arith), (digit (b % 16) (omega arith), tt))
    ],
    map-format_x-Lacks digit bytes hs,
  )

  stripped_mac-Lacks :
      p b':' ≡ false
      → ((d : ℕ) → d < 16 → p (hex_digit d) ≡ false)
      → (bytes : List ℕ) → All (λ b. b ≤ u8_max) bytes
      → Lacks p (stripped_mac bytes)
  stripped_mac-Lacks colon digit bytes h =
      join-All (λ c. p c ≡ false) _ (map format_x bytes) (colon, tt)
        (map-format_x-Lacks digit bytes h)

stripped_mac-ne-nil : (bytes : List ℕ) → IsMac bytes → stripped_mac bytes ≢ []
stripped_mac-ne-nil [] (n, _) = absurd (omega arith)
stripped_mac-ne-nil (b ∷ []) (n, _) = absurd (omega arith)
stripped_mac-ne-nil (b ∷ c ∷ bytes) (n, _) = elim (Bool-cases (ltb b 16)) [
  | inl e ↦ unfold join in rw e (cons-ne-nil _ _)
  | inr e ↦ unfold join in rw e (cons-ne-nil _ _)
]

-- A value that is read back as it was written.
IsValue : Text → Type 0
IsValue v = IsToken v × (trim_end_matches is_tail v ≡ v)

show_ipv4-IsValue : (ip : Ipv4Addr) → IsValue (show_ipv4 ip)
unfolding IsValue is_ascii_whitespace
show_ipv4-IsValue ip = (
  show_ipv4-Lacks is_special refl (λ d h. ground arith) ip,
  trim_end_matches_absent is_tail _ (show_ipv4-Lacks is_tail refl (λ d h. ground arith) ip),
)

hardware-IsValue : (l : Lease) → IsMac l.mac → IsValue (hardware l)
unfolding IsValue is_ascii_whitespace
hardware-IsValue l h = (
  (refl, (refl, stripped_mac-Lacks is_special refl (λ d k. (hex_digit-ne d k).0) l.mac h.1)),
  trim_end_matches-append is_tail (codes "1,") (stripped_mac l.mac)
      (stripped_mac-Lacks is_tail refl (λ d k. (hex_digit-ne d k).1) l.mac h.1)
      (stripped_mac-ne-nil l.mac h),
)

entry_lem :
    (key value : Text)
    → any is_special key ≡ false
    → any (λ c. c == b'=') key ≡ false
    → IsValue value
    → IsEntry (key, value)
unfolding IsValue
entry_lem key value h k (token, end) = record {
  key_token = Lacks_of_any _ key h;
  key_end = Lacks_of_any _ key k;
  value_token = token;
  value_end = end;
}

entries-IsEntry : (l : Lease) → IsLease l → All IsEntry (entries l)
unfolding IsValue is_ascii_whitespace
entries-IsEntry l h = (
  entry_lem (codes "name") l.name refl refl (h.name_token, h.name_end),
  (
    entry_lem (codes "ip_address") _ refl refl (show_ipv4-IsValue l.ip),
    (
      entry_lem (codes "hw_address") _ refl refl (hardware-IsValue l h.mac_fits),
      (
        entry_lem (codes "identifier") _ refl refl (hardware-IsValue l h.mac_fits),
        (entry_lem (codes "lease") l.expires refl refl (h.expires_token, h.expires_end), tt),
      ),
    ),
  ),
)

after_comma-hardware : (l : Lease) → after_comma (hardware l) ≡ stripped_mac l.mac
unfolding split_once
after_comma-hardware l = refl

module _ (mac : Text) (name : Option Text) where
  lease_ip-entry_words :
      (es : List (Text × Text))
      → All IsEntry es
      → lease_ip (normalize_mac mac) name (map entry_word es) ≡ (
          if any (λ e. key_identifies (normalize_mac mac) name e.0 e.1) es
          then entries_ip es none
          else none)
  lease_ip-entry_words es h =
      rw (lease_ip, any-entry_words (normalize_mac mac) name es h, last_ip-entry_words es none h)

  lease_ip-entries :
      (l : Lease)
      → IsLease l
      → lease_ip (normalize_mac mac) name (map entry_word (entries l))
        ≡ (if holds (mac_bytes mac) name l then some l.ip else none)
  lease_ip-entries l h =
      lease_ip-entry_words (entries l) (entries-IsEntry l h)
      ∙ ground (
        arith,
        after_comma-hardware l,
        parse_ipv4-show_ipv4 l.ip h.ip_fits,
        same_as-mac_bytes (stripped_mac l.mac) mac,
        mac_bytes-stripped_mac l.mac h.mac_fits,
      )

  find_map-entries :
      (ls : List Lease)
      → All IsLease ls
      → find_map (lease_ip (normalize_mac mac) name) (map (map entry_word) (map entries ls))
        ≡ find_map (λ l. if holds (mac_bytes mac) name l then some l.ip else none) ls
  find_map-entries [] _ = refl
  find_map-entries (l ∷ ls) (h, hs) = ground (arith, lease_ip-entries l h, find_map-entries ls hs)

  All-entries : (ls : List Lease) → All IsLease ls → All (All IsEntry) (map entries ls)
  All-entries [] _ = tt
  All-entries (l ∷ ls) (h, hs) = (entries-IsEntry l h, All-entries ls hs)

  -- In a file of well-formed leases as macOS writes it, the result is the address of the first
  -- lease that is held by the wanted MAC's bytes or under the wanted name.
  pub find_lease-render_leases :
      (ls : List Lease)
      → All IsLease ls
      → find_lease (render_leases ls) mac name
        ≡ find_map (λ l. if holds (mac_bytes mac) name l then some l.ip else none) ls
  find_lease-render_leases ls h =
      find_lease-lease_ip (render_leases ls) mac name
      ∙ ap (find_map (lease_ip (normalize_mac mac) name))
          (blocks-render_file (map entries ls) (All-entries ls h))
      ∙ find_map-entries ls h
