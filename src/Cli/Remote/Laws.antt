-- ===== src/Cli/Remote/Laws.antt =====
-- When a remote is found.
use mathlib.Core.List.{cons-ne-nil}
use malleus.Base.{
  append_assoc, append-nil, All-append, ◌==◌, ℕ, zero, suc, ◌≡◌, ◌≢◌, refl, ◌∙◌, ap, sym, Bool,
  true, false, not, ◌&&◌, ◌||◌, none, List, [], ◌∷◌, ◌++◌, any, is_empty, arith, Bool-cases, inl,
  inr, All, length,
}
use malleus.Base.Text.{
  trim_start_matches, trim_end_matches, Text, codes, text_eq, text_eq_iff, trim, strip_prefix,
  lines, is_whitespace, eq_ignore_ascii_case,
}
use malleus.Base.Text.Split.{Lacks, Lacks_of_any, split_on-append}
use malleus.Base.Text.Lines.{is_line_end, lines_next}
use malleus.Base.Text.Words.{trim_end_matches-append, trim_end_matches_absent}
use malleus.Cli.Remote.{repeats, first_part, trim_end_text, line_name, is_remote, remote_exists}

-- A row of the list: the name, marked if it is the current remote, and the other columns.
pub record Remote : Type 0 where
  pub name : Text
  pub current : Bool
  pub columns : Text

abbrev mark : Bool → Text
mark true = codes " (current)"
mark false = []

abbrev pub remote_line : Remote → Text
remote_line r = (r.name ++ mark r.current) ++ b',' ∷ r.columns

abbrev pub render_remotes : List Remote → Text
render_remotes [] = []
render_remotes (r ∷ rs) = remote_line r ++ 10 ∷ render_remotes rs

pub record IsRemote (r : Remote) : Type 0 where
  pub name_given : r.name ≢ []
  pub name_plain : Lacks is_whitespace r.name
  pub name_one : Lacks (λ c. c == b',') r.name
  pub columns_one : Lacks is_line_end r.columns

not_space : (c : ℕ) → is_whitespace c ≡ false → (32 == c) ≡ false
unfolding is_whitespace
not_space c h = ground arith

not_line_end : (c : ℕ) → is_whitespace c ≡ false → is_line_end c ≡ false
unfolding is_whitespace
not_line_end c h = ground arith

strip_prefix_absent :
    (c : ℕ) (s : Text) → (32 == c) ≡ false → strip_prefix (codes " (current)") (c ∷ s) ≡ none
unfolding strip_prefix
strip_prefix_absent c s h = rw h refl

repeats_absent :
    (fuel c : ℕ) (s : Text) → (32 == c) ≡ false → repeats fuel (codes " (current)") (c ∷ s) ≡ false
unfolding repeats
repeats_absent zero c s h = refl
repeats_absent (suc fuel) c s h = rw (strip_prefix_absent c s h, repeats) refl

trim_end_text-mark :
    (name : Text) (current : Bool)
    → Lacks is_whitespace name
    → trim_end_text (codes " (current)") (name ++ mark current) ≡ name
unfolding trim_end_text repeats strip_prefix
trim_end_text-mark [] true h = refl
trim_end_text-mark [] false h = refl
trim_end_text-mark (c ∷ name) current (h, hs) =
    rw
      (repeats_absent (length (c ∷ (name ++ mark current))) c (name ++ mark current)
        (not_space c h))
      (ap (λ t. c ∷ t) (trim_end_text-mark name current hs))

trim-mark :
    (name : Text) (current : Bool)
    → name ≢ []
    → Lacks is_whitespace name
    → trim (name ++ mark current) ≡ name ++ mark current
unfolding trim_start_matches
trim-mark [] current ne h = absurd (ne refl)
trim-mark (c ∷ name) true ne (h, hs) =
    ap (trim_start_matches is_whitespace) (
      ap (trim_end_matches is_whitespace)
        (sym (append_assoc (c ∷ name) (codes " (current") (codes ")")))
      ∙ trim_end_matches-append is_whitespace ((c ∷ name) ++ codes " (current") (codes ")")
          (Lacks_of_any is_whitespace (codes ")") (unfold is_whitespace in refl)) (cons-ne-nil _ _)
      ∙ append_assoc (c ∷ name) (codes " (current") (codes ")"))
    ∙ rw h refl
trim-mark (c ∷ name) false ne (h, hs) =
    ap trim (append-nil (c ∷ name))
    ∙ ap (trim_start_matches is_whitespace)
        (trim_end_matches_absent is_whitespace (c ∷ name) (h, hs))
    ∙ rw h (sym (append-nil (c ∷ name)))

mark-Lacks :
    (p : ℕ → Bool) (current : Bool) → any p (codes " (current)") ≡ false → Lacks p (mark current)
mark-Lacks p true h = Lacks_of_any p (codes " (current)") h
mark-Lacks p false h = tt

plain-Lacks : (name : Text) → Lacks is_whitespace name → Lacks is_line_end name
plain-Lacks [] h = tt
plain-Lacks (c ∷ name) (h, hs) = (not_line_end c h, plain-Lacks name hs)

line_name-remote_line : (r : Remote) → IsRemote r → line_name (remote_line r) ≡ r.name
unfolding line_name
line_name-remote_line r h =
    let marked = r.name ++ mark r.current in
    ap (λ parts. trim_end_text (codes " (current)") (trim (first_part parts)))
      (split_on-append (λ c. c == b',') marked r.columns b','
        (All-append _ r.name (mark r.current) h.name_one
          (mark-Lacks (λ c. c == b',') r.current refl))
        refl)
    ∙ ap (trim_end_text (codes " (current)")) (trim-mark r.name r.current h.name_given h.name_plain)
    ∙ trim_end_text-mark r.name r.current h.name_plain

remote_line-Lacks : (r : Remote) → IsRemote r → Lacks is_line_end (remote_line r)
remote_line-Lacks r h =
    All-append _ (r.name ++ mark r.current) (b',' ∷ r.columns)
      (All-append _ r.name (mark r.current) (plain-Lacks r.name h.name_plain)
        (mark-Lacks is_line_end r.current refl))
      (refl, h.columns_one)

-- Whether a name stands among those of the rows, where it is not that of the heading.
abbrev pub listed : Text → List Remote → Bool
listed name rows =
    not (eq_ignore_ascii_case name (codes "name")) && any (λ r. text_eq r.name name) rows

headed :
    (name remote_name : Text) (given : Bool)
    → given ≡ true
    → (given && (not (eq_ignore_ascii_case name (codes "name")) && text_eq name remote_name))
      ≡ (not (eq_ignore_ascii_case remote_name (codes "name")) && text_eq name remote_name)
headed name remote_name given h = elim (Bool-cases (text_eq name remote_name)) [
  | inl same ↦
      rw (h, same)
        (ap (λ n. not (eq_ignore_ascii_case n (codes "name")) && true)
          ((text_eq_iff name remote_name).0 same))
  | inr other ↦
      rw (h, other)
        (ap (λ b. b)
          (falses (not (eq_ignore_ascii_case name (codes "name")))
            (not (eq_ignore_ascii_case remote_name (codes "name")))))
]
  where
    falses : (b c : Bool) → (b && false) ≡ (c && false)
    falses true true = refl
    falses true false = refl
    falses false true = refl
    falses false false = refl

not_empty : (name : Text) → name ≢ [] → not (is_empty name) ≡ true
not_empty [] h = absurd (h refl)
not_empty (c ∷ name) h = refl

and_or : (b c d : Bool) → ((b && c) || (b && d)) ≡ (b && (c || d))
and_or true c d = refl
and_or false c d = refl

-- In a list as `incus` prints it, a remote is found exactly if the name of a row is its name,
-- whether the row is marked as the current one or not, and that is not the name of the heading, in
-- any case.
pub remote_exists-render_remotes :
    (rs : List Remote) (remote_name : Text)
    → All IsRemote rs
    → remote_exists (render_remotes rs) remote_name ≡ listed remote_name rs
unfolding remote_exists
remote_exists-render_remotes [] remote_name hs =
    unfold lines in nothing (not (eq_ignore_ascii_case remote_name (codes "name")))
  where
    nothing : (b : Bool) → false ≡ (b && false)
    nothing true = refl
    nothing false = refl
remote_exists-render_remotes (r ∷ rs) remote_name (h, hs) =
    ap (any (λ line. is_remote remote_name (line_name line)))
      (lines_next (remote_line r) (render_remotes rs) (remote_line-Lacks r h))
    ∙ ap
        (λ name.
          is_remote remote_name name
          || any (λ line. is_remote remote_name (line_name line)) (lines (render_remotes rs)))
        (line_name-remote_line r h)
    ∙ ap (λ found. is_remote remote_name r.name || found)
        (remote_exists-render_remotes rs remote_name hs)
    ∙ ap (λ here. here || listed remote_name rs)
        (headed r.name remote_name (not (is_empty r.name)) (not_empty r.name h.name_given))
    ∙ and_or (not (eq_ignore_ascii_case remote_name (codes "name"))) (text_eq r.name remote_name)
        (any (λ s. text_eq s.name remote_name) rs)
