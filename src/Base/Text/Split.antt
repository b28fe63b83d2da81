-- ===== src/Base/Text/Split.antt =====
-- The laws of `split_on`, `split_once` and the words of a text.
use mathlib.Core.List.{cons-ne-nil}
use malleus.Base.{
  ◌≢◌, ℕ, ◌≡◌, refl, Bool, true, false, List, [], ◌∷◌, ◌++◌, ◌==◌, All, All-append, arith, any,
  Bool-cases, inl, inr, ap, ◌∙◌, ==_iff,
}
use malleus.Base.Text.{Text, split_on, split, join}

-- No character of the text passes the test.
abbrev pub Lacks : (ℕ → Bool) → Text → Type 0
Lacks p = All (λ c. p c ≡ false)

module _ (p : ℕ → Bool) where
  pub split_on_end : (w : Text) → Lacks p w → split_on p w ≡ w ∷ []
  unfolding split_on
  split_on_end [] _ = refl
  split_on_end (c ∷ w) (h, hw) = rw (h, split_on_end w hw)

  pub split_on-append :
      (w s : Text) (c : ℕ) → Lacks p w → p c ≡ true → split_on p (w ++ c ∷ s) ≡ w ∷ split_on p s
  unfolding split_on
  split_on-append [] s c _ hc = rw hc
  split_on-append (d ∷ w) s c (h, hw) hc = rw (h, split_on-append w s c hw hc)

pub split-join :
    (sep : ℕ) (w : Text) (ws : List Text)
    → All (Lacks (λ c. c == sep)) (w ∷ ws)
    → split sep (join (sep ∷ []) (w ∷ ws)) ≡ w ∷ ws
unfolding join
split-join sep w [] (h, _) = split_on_end _ w h
split-join sep w (v ∷ ws) (h, hs) =
    split_on-append _ w _ sep h ((==_iff sep sep).1 refl) ∙ ap (λ t. w ∷ t) (split-join sep v ws hs)

-- A property of the characters of a join.
pub join-All :
    (P : ℕ → Type 0) (sep : Text) (ws : List Text)
    → All P sep
    → All (All P) ws
    → All P (join sep ws)
unfolding join
join-All P sep [] hs _ = tt
join-All P sep (w ∷ []) hs (h, _) = h
join-All P sep (w ∷ v ∷ ws) hs (h, hws) =
    All-append P w _ h (All-append P sep _ hs (join-All P sep (v ∷ ws) hs hws))

pub Lacks_of_any : (p : ℕ → Bool) (w : Text) → any p w ≡ false → Lacks p w
Lacks_of_any p [] _ = tt
Lacks_of_any p (c ∷ w) h = elim (Bool-cases (p c)) [
  | inl e ↦ ground arith
  | inr e ↦ (e, Lacks_of_any p w (ground arith))
]

pub append-ne-nil {ℓ} : {A : Type ℓ} (xs ys : List A) → ys ≢ [] → xs ++ ys ≢ []
append-ne-nil [] ys h = h
append-ne-nil (x ∷ xs) ys _ = cons-ne-nil _ _
