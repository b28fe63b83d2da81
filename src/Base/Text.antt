-- ===== src/Base/Text.antt =====
-- Rust's `str`, as the list of its code points, and the methods that the program calls on it.
-- The children hold the laws.
pub mod Split
pub mod Words
pub mod Lines
pub mod Trim
use Prim.Native.Char.{code}
use Prim.Native.String.{String}
use malleus.Base.{
  ℕ, ◌+◌, ◌≡◌, ◌↔◌, refl, Bool, true, false, not, ◌&&◌, ◌||◌, Option, none, some, List, [], ◌∷◌,
  ◌++◌, map, arith, ltb, leb, ◌==◌, if◌then◌else◌, is_empty, keep,
}

abbrev pub Text : Type 0
Text = List ℕ

-- The code points of a literal.
abbrev pub codes : String → Text
codes String.[] = []
codes (String.◌∷◌ c s) = code c ∷ codes s

abbrev pub text_eq : Text → Text → Bool
text_eq [] [] = true
text_eq (c ∷ s) (d ∷ t) = c == d && text_eq s t
text_eq _ _ = false

-- Two texts that are there, and equal.
abbrev pub same_as : Option Text → Option Text → Bool
same_as (some s) (some t) = text_eq s t
same_as _ _ = false

-- `char::is_ascii_whitespace`, `is_whitespace`, `is_control` and `is_ascii_alphanumeric`.
unfoldable pub is_ascii_whitespace : ℕ → Bool
is_ascii_whitespace c = c == 32 || c == 9 || c == 10 || c == 12 || c == 13

unfoldable pub is_whitespace : ℕ → Bool
is_whitespace c =
    (leb 9 c && leb c 13)
    || c == 32
    || c == 0x85
    || c == 0xa0
    || c == 0x1680
    || (leb 0x2000 c && leb c 0x200a)
    || c == 0x2028
    || c == 0x2029
    || c == 0x202f
    || c == 0x205f
    || c == 0x3000

unfoldable pub is_control : ℕ → Bool
is_control c = ltb c 32 || (leb 127 c && leb c 159)

unfoldable pub is_ascii_alphanumeric : ℕ → Bool
is_ascii_alphanumeric c =
    (leb b'0' c && leb c b'9') || (leb b'A' c && leb c b'Z') || (leb b'a' c && leb c b'z')

unfoldable pub to_ascii_lowercase : ℕ → ℕ
to_ascii_lowercase c = if leb b'A' c && leb c b'Z' then c + 32 else c

abbrev pub eq_ignore_ascii_case : Text → Text → Bool
eq_ignore_ascii_case s t = text_eq (map to_ascii_lowercase s) (map to_ascii_lowercase t)

-- Put a character in front of the first part of a split.
abbrev pub prepend : ℕ → List Text → List Text
prepend c [] = (c ∷ []) ∷ []
prepend c (w ∷ ws) = (c ∷ w) ∷ ws

-- `split` at every character that passes the test.
unfoldable pub split_on : (ℕ → Bool) → Text → List Text
split_on p [] = [] ∷ []
split_on p (c ∷ s) = let rest = split_on p s in if p c then [] ∷ rest else prepend c rest

abbrev pub split : ℕ → Text → List Text
split sep = split_on (λ c. c == sep)

abbrev pub non_empty : List Text → List Text
non_empty = keep (λ w. not (is_empty w))

abbrev pub split_ascii_whitespace : Text → List Text
split_ascii_whitespace s = non_empty (split_on is_ascii_whitespace s)

abbrev pub split_whitespace : Text → List Text
split_whitespace s = non_empty (split_on is_whitespace s)

abbrev prepend_once : ℕ → Option (Text × Text) → Option (Text × Text)
prepend_once c none = none
prepend_once c (some (s, t)) = some (c ∷ s, t)

-- `split_once` at the first separator.
unfoldable pub split_once : ℕ → Text → Option (Text × Text)
split_once sep [] = none
split_once sep (c ∷ s) =
    let rest = prepend_once c (split_once sep s) in if c == sep then some ([], s) else rest

-- `trim_start_matches`, `trim_end_matches` and `trim_matches`, by a test on characters.
unfoldable pub trim_start_matches : (ℕ → Bool) → Text → Text
trim_start_matches p [] = []
trim_start_matches p (c ∷ s) = let rest = trim_start_matches p s in if p c then rest else c ∷ s

unfoldable pub trim_end_matches : (ℕ → Bool) → Text → Text
trim_end_matches p [] = []
trim_end_matches p (c ∷ s) =
    let rest = trim_end_matches p s in if is_empty rest && p c then [] else c ∷ rest

abbrev pub trim_matches : (ℕ → Bool) → Text → Text
trim_matches p s = trim_start_matches p (trim_end_matches p s)

abbrev pub trim : Text → Text
trim = trim_matches is_whitespace

-- `strip_prefix` and the tests and searches that rest on it.
unfoldable pub strip_prefix : Text → Text → Option Text
strip_prefix [] s = some s
strip_prefix (c ∷ p) [] = none
strip_prefix (c ∷ p) (d ∷ s) = let rest = strip_prefix p s in if c == d then rest else none

-- What follows the first occurrence of `p`.
unfoldable pub after_find : Text → Text → Option Text
after_find p [] = strip_prefix p []
after_find p (c ∷ s) =
    let rest = after_find p s in elim (strip_prefix p (c ∷ s)) [ some t ↦ some t | none ↦ rest ]

abbrev pub is_some {ℓ} : {A : Type ℓ} → Option A → Bool
is_some none = false
is_some (some a) = true

abbrev pub starts_with : Text → Text → Bool
starts_with p s = is_some (strip_prefix p s)

abbrev pub contains : Text → Text → Bool
contains p s = is_some (after_find p s)

-- `replace` of one character by a text.
unfoldable pub replace : ℕ → Text → Text → Text
replace c by [] = []
replace c by (d ∷ s) = (if d == c then by else d ∷ []) ++ replace c by s

unfoldable pub join : Text → List Text → Text
join sep [] = []
join sep (w ∷ []) = w
join sep (w ∷ v ∷ ws) = w ++ (sep ++ join sep (v ∷ ws))

-- `lines`: each with whether a line feed ends it, which decides if a carriage return is dropped.
abbrev pub prepend_line : ℕ → List (Text × Bool) → List (Text × Bool)
prepend_line c [] = (c ∷ [], false) ∷ []
prepend_line c ((l, ended) ∷ ls) = (c ∷ l, ended) ∷ ls

unfoldable pub raw_lines : Text → List (Text × Bool)
raw_lines [] = []
raw_lines (c ∷ s) =
    let rest = raw_lines s in if c == 10 then ([], true) ∷ rest else prepend_line c rest

unfoldable pub strip_cr : Text → Text
strip_cr [] = []
strip_cr (c ∷ []) = if c == 13 then [] else c ∷ []
strip_cr (c ∷ d ∷ s) = c ∷ strip_cr (d ∷ s)

abbrev pub line_text : Text × Bool → Text
line_text (l, true) = strip_cr l
line_text (l, false) = l

unfoldable pub lines : Text → List Text
unfolding raw_lines strip_cr
lines s = map line_text (raw_lines s)

pub text_eq_iff : (s t : Text) → (text_eq s t ≡ true) ↔ (s ≡ t)
text_eq_iff [] [] = (λ _. refl, λ _. refl)
text_eq_iff [] (d ∷ t) = (λ h. cc, λ h. cc)
text_eq_iff (c ∷ s) [] = (λ h. cc, λ h. cc)
text_eq_iff (c ∷ s) (d ∷ t) = ground (arith, text_eq_iff s t)
