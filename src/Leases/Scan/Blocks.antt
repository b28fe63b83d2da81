-- ===== src/Leases/Scan/Blocks.antt =====
-- The scan against the blocks between the braces of a lease file.
use malleus.Base.{
  append-nil, append_assoc, ◌≡◌, refl, false, Option, List, [], ◌∷◌, ◌++◌, arith, if◌then◌else◌,
  All, Bool-cases, find_map, inl, inr,
}
use malleus.Base.Text.{Text, codes, text_eq}
use malleus.Base.Ipv4.{Ipv4Addr}
use malleus.Leases.Scan.{Scan, fresh, assign, close, step, scan, lease_words, find_lease}
use malleus.Leases.Mac.{normalize_mac}

abbrev pub opening : Text
opening = codes "{"

abbrev pub closing : Text
closing = codes "}"

-- A word that is no brace.
abbrev pub IsPlain : Text → Type 0
IsPlain word = (text_eq word opening ≡ false) × (text_eq word closing ≡ false)

module _ (wanted name : Option Text) where
  -- The variables after the words of a block.
  abbrev pub assign_all : List Text → Scan → Scan
  assign_all [] s = s
  assign_all (word ∷ words) s = assign_all words (assign wanted name word s)

  -- The address that a block of words gives, if it is that of the guest.
  abbrev pub block_ip : List Text → Option Ipv4Addr
  block_ip block = close (assign_all block fresh)

  assign_all-append :
      (xs ys : List Text) (s : Scan) → assign_all (xs ++ ys) s ≡ assign_all ys (assign_all xs s)
  assign_all-append [] ys s = refl
  assign_all-append (x ∷ xs) ys s = assign_all-append xs ys (assign wanted name x s)

-- The blocks of a word list: the words since the last brace, at each closing brace.
unfoldable pub blocks_from : List Text → List Text → List (List Text)
blocks_from cur [] = []
blocks_from cur (word ∷ words) =
    let inside = blocks_from (cur ++ word ∷ []) words in
    let after = blocks_from [] words in
    if text_eq word opening then after else if text_eq word closing then cur ∷ after else inside

abbrev pub blocks : List Text → List (List Text)
blocks = blocks_from []

-- A block of plain words and its closing brace.
pub blocks_from-append :
    (cur block words : List Text)
    → All IsPlain block
    → blocks_from cur (block ++ closing ∷ words) ≡ (cur ++ block) ∷ blocks words
unfolding blocks_from
blocks_from-append cur [] words _ = rw append-nil
blocks_from-append cur (word ∷ block) words ((o, c), hs) = ground (
  arith,
  blocks_from-append (cur ++ word ∷ []) block words hs,
  append_assoc cur (word ∷ []) block,
)

pub blocks-opening : (words : List Text) → blocks (opening ∷ words) ≡ blocks words
unfolding blocks_from
blocks-opening words = refl

module _ (wanted name : Option Text) where
  scan-blocks_from :
      (words cur : List Text)
      → scan wanted name words (assign_all wanted name cur fresh)
        ≡ find_map (block_ip wanted name) (blocks_from cur words)
  unfolding blocks_from scan step
  scan-blocks_from [] cur = refl
  scan-blocks_from (word ∷ words) cur = elim (Bool-cases (text_eq word opening)) [
    | inl o ↦ ground (arith, scan-blocks_from words [])
    | inr o ↦ elim (Bool-cases (text_eq word closing)) [
      | inl c ↦ ground (arith, scan-blocks_from words [])
      | inr c ↦ ground (
        arith,
        assign_all-append wanted name cur (word ∷ []) fresh,
        scan-blocks_from words (cur ++ word ∷ []),
      )
    ]
  ]

-- For every file, address and name: the result is the first address of a block that identifies
-- the guest.
pub find_lease-blocks :
    (contents mac : Text) (name : Option Text)
    → find_lease contents mac name
      ≡ find_map (block_ip (normalize_mac mac) name) (blocks (lease_words contents))
unfolding find_lease
find_lease-blocks contents mac name =
    scan-blocks_from (normalize_mac mac) name (lease_words contents) []
