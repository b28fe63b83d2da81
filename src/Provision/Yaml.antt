-- ===== src/Provision/Yaml.antt =====
-- How YAML reads a literal block, and what it gives of a pushed one.
use malleus.Base.{
  ℕ, suc, zero, ◌≡◌, refl, ◌∙◌, ap, false, none, some, List, [], ◌∷◌, ◌++◌, map, arith, ◌==◌, Bool,
  true, not, ◌||◌, ◌&&◌, ltb, all, is_empty, Bool-cases, inl, inr, ◌<◌, ◌≤◌, if◌then◌else◌,
}
use malleus.Base.Text.{
  Text, prepend_line, raw_lines, strip_cr, line_text, lines, trim_end_matches, strip_prefix,
}
use malleus.Base.Text.Split.{Lacks}
use malleus.Base.Text.Lines.{is_line_end, lines_next, NoCr}
use malleus.Base.Text.Words.{strip_prefix-append}
use malleus.Provision.{push_block}
use malleus.Provision.Blocks.{
  spaces, indented, content_lines, content_lines-Lacks, push_block-block_text, lines-block_text,
}

-- Characters that YAML takes for a line end, or does not allow.
abbrev pub is_unreadable : ℕ → Bool
is_unreadable c =
    c == 13
    || ((ltb c 32 && not (c == 9 || c == 10))
        || (ltb 126 c && ltb c 160)
        || (c == 8232 || c == 8233)
        || (c == 65534 || c == 65535))

abbrev pub IsReadable : Text → Type 0
IsReadable = Lacks is_unreadable

or_false : (b c : Bool) → (b || c) ≡ false → b ≡ false
or_false true c h = h
or_false false c h = refl

pub IsReadable-NoCr : (content : Text) → IsReadable content → NoCr content
IsReadable-NoCr [] h = tt
IsReadable-NoCr (c ∷ content) (h, hs) = (or_false (c == 13) _ h, IsReadable-NoCr content hs)

-- How YAML reads a literal block that gives no indentation, as the value of a key that is indented
-- by `parent`. The block is indented as its first line that is not blank, and by more than the key;
-- it ends at the first line that is neither indented so nor blank.
unfoldable pub leading : Text → ℕ
leading [] = 0
leading (c ∷ l) = let rest = leading l in if c == 32 then suc rest else 0

unfoldable pub is_blank : Text → Bool
is_blank = all (λ c. c == 32)

unfoldable pub indentation : ℕ → List Text → ℕ
unfolding leading is_blank
indentation parent [] = suc parent
indentation parent (l ∷ ls) =
    let rest = indentation parent ls in
    if is_blank l then rest else if ltb parent (leading l) then leading l else suc parent

unfoldable pub block_lines : ℕ → List Text → List Text
unfolding is_blank
block_lines n [] = []
block_lines n (l ∷ ls) =
    let rest = block_lines n ls in
    elim (strip_prefix (spaces n) l) [
      | none ↦ if is_blank l then [] ∷ rest else []
      | some t ↦ t ∷ rest
    ]

unfoldable pub yaml_block : ℕ → List Text → List Text
unfolding indentation block_lines
yaml_block parent ls = block_lines (indentation parent ls) ls

-- The first line that is not empty is there and starts with no space.
abbrev starts_flush : List Text → Bool
starts_flush [] = false
starts_flush ([] ∷ ls) = starts_flush ls
starts_flush ((c ∷ l) ∷ ls) = not (c == 32)

-- No lines, or such.
abbrev pub is_flush : List Text → Bool
is_flush [] = true
is_flush (l ∷ ls) = starts_flush (l ∷ ls)

strip_prefix_short : (n : ℕ) (l : Text) → leading l < n → strip_prefix (spaces n) l ≡ none
unfolding leading strip_prefix
strip_prefix_short zero l h = ground arith
strip_prefix_short (suc n) [] h = refl
strip_prefix_short (suc n) (c ∷ l) h = elim (Bool-cases (c == 32)) [
  | inl space ↦
      let is_space : c ≡ 32 = ground arith in
      let less : leading l < n = ground arith in rw is_space (strip_prefix_short n l less)
  | inr other ↦ let differs : (32 == c) ≡ false = ground arith in rw differs refl
]

leading-indented : (n c : ℕ) (l : Text) → (c == 32) ≡ false → leading (spaces n ++ c ∷ l) ≡ n
unfolding leading
leading-indented zero c l h = rw h refl
leading-indented (suc n) c l h = ap suc (leading-indented n c l h)

is_blank-indented : (n c : ℕ) (l : Text) → (c == 32) ≡ false → is_blank (spaces n ++ c ∷ l) ≡ false
unfolding is_blank
is_blank-indented zero c l h = rw h refl
is_blank-indented (suc n) c l h = is_blank-indented n c l h

is_blank-spaces : (n : ℕ) → is_blank (spaces n ++ []) ≡ true
unfolding is_blank
is_blank-spaces zero = refl
is_blank-spaces (suc n) = is_blank-spaces n

indentation-indented :
    (parent n : ℕ) (ls rest : List Text)
    → parent < n
    → starts_flush ls ≡ true
    → indentation parent (indented n ls ++ rest) ≡ n
unfolding indentation
indentation-indented parent n [] rest h k = cc
indentation-indented parent n ([] ∷ ls) rest h k =
    rw (is_blank-spaces n) (indentation-indented parent n ls rest h k)
indentation-indented parent n ((c ∷ l) ∷ ls) rest h k =
    let solid : (c == 32) ≡ false = ground arith in
    rw (is_blank-indented n c l solid, leading-indented n c l solid) (ground arith)

block_lines-indented :
    (n : ℕ) (ls : List Text) (l : Text) (rest : List Text)
    → strip_prefix (spaces n) l ≡ none
    → is_blank l ≡ false
    → block_lines n (indented n ls ++ l ∷ rest) ≡ ls
unfolding block_lines
block_lines-indented n [] l rest h k = rw (block_lines, h, k) refl
block_lines-indented n (t ∷ ls) l rest h k =
    rw (block_lines, strip_prefix-append (spaces n) t)
      (ap (λ ks. t ∷ ks) (block_lines-indented n ls l rest h k))

-- A block of lines, and the line behind it.
pub yaml_block-indented :
    (parent n : ℕ) (ls : List Text) (l : Text) (rest : List Text)
    → parent < n
    → is_flush ls ≡ true
    → is_blank l ≡ false
    → leading l ≤ parent
    → yaml_block parent (indented n ls ++ l ∷ rest) ≡ ls
unfolding yaml_block indentation
yaml_block-indented parent n [] l rest h flush solid out =
    let below : ltb parent (leading l) ≡ false = ground arith in
    let found : indentation parent (l ∷ rest) ≡ suc parent = rw (indentation, solid, below) refl in
    ap (λ m. block_lines m (l ∷ rest)) found
    ∙ block_lines-indented (suc parent) [] l rest (strip_prefix_short (suc parent) l (omega arith))
        solid
yaml_block-indented parent n (t ∷ ls) l rest h flush solid out =
    ap (λ m. block_lines m (indented n (t ∷ ls) ++ l ∷ rest))
      (indentation-indented parent n (t ∷ ls) (l ∷ rest) h flush)
    ∙ block_lines-indented n (t ∷ ls) l rest (strip_prefix_short n l (omega arith)) solid

-- Read as a YAML block below a key, up to a line that is indented by no more than the key, a pushed
-- block gives the lines of its content back, if the first line of it that is not empty starts with
-- no space, and YAML takes none of its characters for a line end but the line feed, and allows all.
pub yaml_block-push_block :
    (parent n : ℕ) (content next : Text)
    → parent < n
    → IsReadable content
    → is_flush (content_lines content) ≡ true
    → is_blank next ≡ false
    → leading next ≤ parent
    → Lacks is_line_end next
    → yaml_block parent (lines (push_block [] n content ++ (next ++ 10 ∷ [])))
      ≡ content_lines content
yaml_block-push_block parent n content next deep readable flush solid out e =
    ap (λ t. yaml_block parent (lines (t ++ (next ++ 10 ∷ []))))
      (push_block-block_text [] n content)
    ∙ ap (yaml_block parent) (
        lines-block_text n (content_lines content) _
          (content_lines-Lacks content (IsReadable-NoCr content readable))
        ∙ ap (λ ls. indented n (content_lines content) ++ ls) (lines_next next [] e))
    ∙ yaml_block-indented parent n (content_lines content) next (lines []) deep flush solid out

flush_first :
    (c : ℕ) (rest : List (Text × Bool))
    → (c == 32) ≡ false
    → (c == 13) ≡ false
    → is_flush (map line_text (prepend_line c rest)) ≡ true
unfolding strip_cr
flush_first c [] k m = rw k refl
flush_first c ((l, false) ∷ rest) k m = rw k refl
flush_first c (([], true) ∷ rest) k m = rw (m, k) refl
flush_first c ((d ∷ l, true) ∷ rest) k m = rw k refl

-- A content that starts with another character than a space or a line end.
pub is_flush-content_lines :
    (c : ℕ) (content : Text)
    → (c == 10) ≡ false
    → (c == 32) ≡ false
    → (c == 13) ≡ false
    → is_flush (content_lines (c ∷ content)) ≡ true
unfolding lines raw_lines trim_end_matches
is_flush-content_lines c content h k m =
    let rest = trim_end_matches (λ d. d == 10) content in
    let kept : trim_end_matches (λ d. d == 10) (c ∷ content) ≡ c ∷ rest =
      rw h (ap (λ b. if b then [] else c ∷ rest) (and_false (is_empty rest))) in
    ap (λ t. is_flush (lines t)) kept ∙ rw h (flush_first c (raw_lines rest) k m)
  where
    and_false : (b : Bool) → (b && false) ≡ false
    and_false true = refl
    and_false false = refl
