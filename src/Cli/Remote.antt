-- ===== src/Cli/Remote.antt =====
-- `remote_exists` of src/main.rs: a remote in the list that `incus` prints.
pub mod Heading
pub mod Laws
use malleus.Base.{
  ℕ, zero, suc, Bool, true, false, not, ◌&&◌, ◌||◌, Option, none, some, List, [], ◌∷◌, any,
  is_empty, if◌then◌else◌, length,
}
use malleus.Base.Text.{Text, codes, text_eq, trim, split, strip_prefix, lines, eq_ignore_ascii_case}

-- The text is the suffix, once or more, by fuel of its length.
unfoldable pub repeats : ℕ → Text → Text → Bool
repeats zero suffix s = false
repeats (suc fuel) suffix s = elim (strip_prefix suffix s) [
  | none ↦ false
  | some rest ↦ let more = repeats fuel suffix rest in is_empty rest || more
]

-- `trim_end_matches` of a text: it is cut where the suffix only repeats.
unfoldable pub trim_end_text : Text → Text → Text
unfolding repeats
trim_end_text suffix [] = []
trim_end_text suffix (c ∷ s) =
    let rest = trim_end_text suffix s in
    if repeats (length (c ∷ s)) suffix (c ∷ s) then [] else c ∷ rest

-- `split(',').next()`.
abbrev pub first_part : List Text → Text
first_part [] = []
first_part (part ∷ _) = part

-- The name in a line.
unfoldable pub line_name : Text → Text
unfolding trim_end_text
line_name line = trim_end_text (codes " (current)") (trim (first_part (split b',' line)))

abbrev pub is_remote : Text → Text → Bool
is_remote remote_name name =
    not (is_empty name)
    && (not (eq_ignore_ascii_case name (codes "name")) && text_eq name remote_name)

unfoldable pub remote_exists : Text → Text → Bool
unfolding line_name
remote_exists remote_list_csv remote_name =
    any (λ line. is_remote remote_name (line_name line)) (lines remote_list_csv)
