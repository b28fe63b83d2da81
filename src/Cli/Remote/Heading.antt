-- ===== src/Cli/Remote/Heading.antt =====
-- A remote that has the name of the heading.
use malleus.Base.{
  ◌≡◌, refl, ◌∙◌, ap, Bool, true, false, not, ◌&&◌, List, [], ◌∷◌, any, is_empty, Bool-cases, inl,
  inr,
}
use malleus.Base.Text.{Text, codes, text_eq, text_eq_iff, lines, eq_ignore_ascii_case}
use malleus.Cli.Remote.{line_name, is_remote, remote_exists}

absorbed_true : (a b c : Bool) → b ≡ true → (a && (not b && c)) ≡ false
absorbed_true true true c h = refl
absorbed_true true false c h = cc
absorbed_true false b c h = refl

and_false : (a b c : Bool) → c ≡ false → (a && (b && c)) ≡ false
and_false true true c h = h
and_false true false c h = refl
and_false false b c h = refl

heading-not_remote :
    (remote_name name : Text)
    → eq_ignore_ascii_case remote_name (codes "name") ≡ true
    → is_remote remote_name name ≡ false
heading-not_remote remote_name name h = elim (Bool-cases (text_eq name remote_name)) [
  | inl same ↦
      absorbed_true (not (is_empty name)) (eq_ignore_ascii_case name (codes "name"))
        (text_eq name remote_name)
        (ap (λ n. eq_ignore_ascii_case n (codes "name")) ((text_eq_iff name remote_name).0 same)
          ∙ h)
  | inr other ↦
      and_false (not (is_empty name)) (not (eq_ignore_ascii_case name (codes "name")))
        (text_eq name remote_name) other
]

any_none : (p : Text → Bool) (ls : List Text) → ((l : Text) → p l ≡ false) → any p ls ≡ false
any_none p [] h = refl
any_none p (l ∷ ls) h = rw (h l) (any_none p ls h)

-- A remote whose name is that of the heading, in any case, is never found.
pub remote_exists_heading :
    (csv remote_name : Text)
    → eq_ignore_ascii_case remote_name (codes "name") ≡ true
    → remote_exists csv remote_name ≡ false
unfolding remote_exists
remote_exists_heading csv remote_name h =
    any_none (λ line. is_remote remote_name (line_name line)) (lines csv)
      (λ l. heading-not_remote remote_name (line_name l) h)
