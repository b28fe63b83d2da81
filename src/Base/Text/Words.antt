-- ===== src/Base/Text/Words.antt =====
-- The laws of `split_ascii_whitespace`, `split_once`, `replace` and the trims.
use malleus.Base.{
  ◌&&◌, ==_iff, Bool-cases, inl, inr, is_empty, ℕ, ◌≡◌, refl, ◌≢◌, Bool, true, none, some, [], ◌∷◌,
  ◌++◌, arith, ◌==◌, sym, append_assoc,
}
use malleus.Base.Text.{
  strip_prefix, Text, split_on, split_once, split_ascii_whitespace, is_ascii_whitespace, replace,
  trim_end_matches,
}
use malleus.Base.Text.Split.{Lacks, split_on_end, split_on-append}

-- White space between words is skipped.
pub words_skip :
    (c : ℕ) (s : Text)
    → is_ascii_whitespace c ≡ true
    → split_ascii_whitespace (c ∷ s) ≡ split_ascii_whitespace s
unfolding split_on
words_skip c s h = rw h

-- A word that white space ends.
pub words_next :
    (w : Text) (c : ℕ) (s : Text)
    → w ≢ []
    → Lacks is_ascii_whitespace w
    → is_ascii_whitespace c ≡ true
    → split_ascii_whitespace (w ++ c ∷ s) ≡ w ∷ split_ascii_whitespace s
words_next [] c s h _ _ = absurd (h refl)
words_next (d ∷ w) c s _ hw hc = rw (split_on-append is_ascii_whitespace (d ∷ w) s c hw hc)

-- The last word.
pub words_end :
    (w : Text) → w ≢ [] → Lacks is_ascii_whitespace w → split_ascii_whitespace w ≡ w ∷ []
words_end [] h _ = absurd (h refl)
words_end (d ∷ w) _ hw = rw (split_on_end is_ascii_whitespace (d ∷ w) hw)

pub replace-append :
    (c : ℕ) (by s t : Text) → replace c by (s ++ t) ≡ replace c by s ++ replace c by t
unfolding replace
replace-append c by [] t = refl
replace-append c by (d ∷ s) t =
    rw (replace-append c by s t) (sym (append_assoc _ (replace c by s) (replace c by t)))

pub replace_absent : (c : ℕ) (by s : Text) → Lacks (λ d. d == c) s → replace c by s ≡ s
unfolding replace
replace_absent c by [] _ = refl
replace_absent c by (d ∷ s) (h, hs) = rw (h, replace_absent c by s hs)

pub split_once-append :
    (sep : ℕ) (key value : Text)
    → Lacks (λ d. d == sep) key
    → split_once sep (key ++ sep ∷ value) ≡ some (key, value)
unfolding split_once
split_once-append sep [] value _ = ground arith
split_once-append sep (c ∷ key) value (h, hs) = rw (h, split_once-append sep key value hs)

pub split_once_absent : (sep : ℕ) (s : Text) → Lacks (λ d. d == sep) s → split_once sep s ≡ none
unfolding split_once
split_once_absent sep [] _ = refl
split_once_absent sep (c ∷ s) (h, hs) = rw (h, split_once_absent sep s hs)

pub trim_end_matches_absent : (p : ℕ → Bool) (s : Text) → Lacks p s → trim_end_matches p s ≡ s
unfolding trim_end_matches
trim_end_matches_absent p [] _ = refl
trim_end_matches_absent p (c ∷ s) (h, hs) = rw (trim_end_matches_absent p s hs) (ground arith)

-- The end of a text decides its trim.
pub trim_end_matches-append :
    (p : ℕ → Bool) (s t : Text) → Lacks p t → t ≢ [] → trim_end_matches p (s ++ t) ≡ s ++ t
unfolding trim_end_matches
trim_end_matches-append p [] t h _ = trim_end_matches_absent p t h
trim_end_matches-append p (c ∷ []) [] h ne = absurd (ne refl)
trim_end_matches-append p (c ∷ []) (d ∷ t) h ne = rw (trim_end_matches_absent p (d ∷ t) h)
trim_end_matches-append p (c ∷ d ∷ s) t h ne = rw (trim_end_matches-append p (d ∷ s) t h ne)

pub strip_prefix-append : (p s : Text) → strip_prefix p (p ++ s) ≡ some s
unfolding strip_prefix
strip_prefix-append [] s = refl
strip_prefix-append (c ∷ p) s = rw ((==_iff c c).1 refl, strip_prefix-append p s)

pub trim_end_matches-Lacks :
    (p q : ℕ → Bool) (s : Text) → Lacks q s → Lacks q (trim_end_matches p s)
unfolding trim_end_matches
trim_end_matches-Lacks p q [] _ = tt
trim_end_matches-Lacks p q (c ∷ s) (h, hs) =
    elim (Bool-cases (is_empty (trim_end_matches p s) && p c)) [
      | inl e ↦ rw e tt
      | inr e ↦ rw e (h, trim_end_matches-Lacks p q s hs)
    ]
