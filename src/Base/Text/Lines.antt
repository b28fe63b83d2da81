-- ===== src/Base/Text/Lines.antt =====
-- The laws of `lines`, and of words between single spaces.
use mathlib.Core.List.{cons-ne-nil}
use malleus.Base.{
  map, Bool-cases, inl, inr, false, ℕ, ◌||◌, ◌≡◌, refl, ◌≢◌, ◌∙◌, ap, Bool, true, List, [], ◌∷◌,
  ◌++◌, arith, ◌==◌, All,
}
use malleus.Base.Text.{
  prepend_line, line_text, Text, codes, raw_lines, strip_cr, lines, split_ascii_whitespace,
  is_ascii_whitespace, join, trim_end_matches, trim_start_matches, trim_matches,
}
use malleus.Base.Text.Split.{Lacks}
use malleus.Base.Text.Words.{words_next, words_end}

-- Neither a line feed nor a carriage return.
abbrev pub is_line_end : ℕ → Bool
is_line_end c = c == 10 || c == 13

raw_lines_next :
    (w s : Text) → Lacks is_line_end w → raw_lines (w ++ 10 ∷ s) ≡ (w, true) ∷ raw_lines s
unfolding raw_lines
raw_lines_next [] s _ = refl
raw_lines_next (c ∷ w) s (h, hs) = ground (arith, raw_lines_next w s hs)

strip_cr_absent : (w : Text) → Lacks is_line_end w → strip_cr w ≡ w
unfolding strip_cr
strip_cr_absent [] _ = refl
strip_cr_absent (c ∷ []) (h, _) = ground arith
strip_cr_absent (c ∷ d ∷ w) (h, hs) = ap (λ t. c ∷ t) (strip_cr_absent (d ∷ w) hs)

-- A line that a line feed ends.
pub lines_next : (w s : Text) → Lacks is_line_end w → lines (w ++ 10 ∷ s) ≡ w ∷ lines s
unfolding lines
lines_next w s h = rw (raw_lines_next w s h, strip_cr_absent w h)

abbrev pub IsWord : Text → Type 0
IsWord w = (w ≢ []) × Lacks is_ascii_whitespace w

-- Words that single spaces join are read back.
pub split_ascii_whitespace-join :
    (w : Text) (ws : List Text)
    → All IsWord (w ∷ ws)
    → split_ascii_whitespace (join (codes " ") (w ∷ ws)) ≡ w ∷ ws
unfolding join
split_ascii_whitespace-join w [] ((ne, h), _) = words_end w ne h
split_ascii_whitespace-join w (v ∷ ws) ((ne, h), hs) =
    words_next w 32 (join (codes " ") (v ∷ ws)) ne h (unfold is_ascii_whitespace in refl)
    ∙ ap (λ t. w ∷ t) (split_ascii_whitespace-join v ws hs)

trim_end_matches_last :
    (p : ℕ → Bool) (w : Text) (c : ℕ)
    → Lacks p w
    → p c ≡ true
    → trim_end_matches p (w ++ c ∷ []) ≡ w
unfolding trim_end_matches
trim_end_matches_last p [] c _ k = rw k
trim_end_matches_last p (d ∷ w) c (h, hs) k = rw (trim_end_matches_last p w c hs k) (ground arith)

-- One matching character at each end is taken off.
pub trim_matches_ends :
    (p : ℕ → Bool) (b : ℕ) (w : Text) (c : ℕ)
    → w ≢ []
    → Lacks p w
    → p b ≡ true
    → p c ≡ true
    → trim_matches p (b ∷ (w ++ c ∷ [])) ≡ w
unfolding trim_start_matches trim_end_matches
trim_matches_ends p b [] c ne _ _ _ = absurd (ne refl)
trim_matches_ends p b (d ∷ w) c _ (h, hs) hb hc =
    rw (trim_end_matches_last p w c hs hc) (ground arith)

raw_lines_end : (w : Text) → w ≢ [] → Lacks is_line_end w → raw_lines w ≡ (w, false) ∷ []
unfolding raw_lines
raw_lines_end [] h _ = absurd (h refl)
raw_lines_end (c ∷ []) _ (h, _) = ground arith
raw_lines_end (c ∷ d ∷ w) _ (h, hs) = ground (arith, raw_lines_end (d ∷ w) (cons-ne-nil d w) hs)

-- Lines that line feeds join are read back.
pub lines-join :
    (w : Text) (ws : List Text)
    → All (λ l. (l ≢ []) × Lacks is_line_end l) (w ∷ ws)
    → lines (join (codes "\n") (w ∷ ws)) ≡ w ∷ ws
unfolding join
lines-join w [] ((ne, h), _) = unfold lines in rw (raw_lines_end w ne h)
lines-join w (v ∷ ws) ((_, h), hs) =
    lines_next w (join (codes "\n") (v ∷ ws)) h ∙ ap (λ t. w ∷ t) (lines-join v ws hs)

-- No carriage return.
abbrev pub NoCr : Text → Type 0
NoCr = Lacks (λ c. c == 13)

prepend_line-Lacks :
    (c : ℕ) (ls : List (Text × Bool))
    → is_line_end c ≡ false
    → All (λ l. Lacks is_line_end l.0) ls
    → All (λ l. Lacks is_line_end l.0) (prepend_line c ls)
prepend_line-Lacks c [] h _ = ((h, tt), tt)
prepend_line-Lacks c ((l, ended) ∷ ls) h (k, ks) = ((h, k), ks)

raw_lines-Lacks : (s : Text) → NoCr s → All (λ l. Lacks is_line_end l.0) (raw_lines s)
unfolding raw_lines
raw_lines-Lacks [] _ = tt
raw_lines-Lacks (c ∷ s) (h, hs) = elim (Bool-cases (c == 10)) [
  | inl e ↦ rw e (tt, raw_lines-Lacks s hs)
  | inr e ↦ rw e (prepend_line-Lacks c (raw_lines s) (rw (e, h)) (raw_lines-Lacks s hs))
]

line_texts-Lacks :
    (ls : List (Text × Bool))
    → All (λ l. Lacks is_line_end l.0) ls
    → All (Lacks is_line_end) (map line_text ls)
line_texts-Lacks [] _ = tt
line_texts-Lacks ((l, true) ∷ ls) (h, hs) = (rw (strip_cr_absent l h) h, line_texts-Lacks ls hs)
line_texts-Lacks ((l, false) ∷ ls) (h, hs) = (h, line_texts-Lacks ls hs)

-- The lines of a text without carriage returns hold no line end.
pub lines-Lacks : (s : Text) → NoCr s → All (Lacks is_line_end) (lines s)
unfolding lines
lines-Lacks s h = line_texts-Lacks (raw_lines s) (raw_lines-Lacks s h)
