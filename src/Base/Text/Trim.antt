-- ===== src/Base/Text/Trim.antt =====
-- Blank texts: what `trim` leaves nothing of.
use malleus.Base.{ℕ, ◌≡◌, refl, ◌∙◌, Bool, [], ◌∷◌, arith, all, is_empty}
use malleus.Base.Text.{Text, trim_end_matches, trim_start_matches, trim, is_whitespace}

module _ (p : ℕ → Bool) where
  trim_end_all : (s : Text) → is_empty (trim_end_matches p s) ≡ all p s
  unfolding trim_end_matches
  trim_end_all [] = refl
  trim_end_all (c ∷ s) = ground (arith, trim_end_all s)

  trim_start_all : (s : Text) → is_empty (trim_start_matches p s) ≡ all p s
  unfolding trim_start_matches
  trim_start_all [] = refl
  trim_start_all (c ∷ s) = ground (arith, trim_start_all s)

  all-trim_end : (s : Text) → all p (trim_end_matches p s) ≡ all p s
  unfolding trim_end_matches
  all-trim_end [] = refl
  all-trim_end (c ∷ s) = ground (arith, all-trim_end s, trim_end_all s)

-- A text is blank exactly if all of it is white space.
pub is_empty-trim : (s : Text) → is_empty (trim s) ≡ all is_whitespace s
is_empty-trim s = trim_start_all is_whitespace _ ∙ all-trim_end is_whitespace s
