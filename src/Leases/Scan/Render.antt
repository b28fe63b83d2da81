-- ===== src/Leases/Scan/Render.antt =====
-- A lease file as macOS writes it, and what the scan finds in it.
use mathlib.Core.List.{map, cons-ne-nil}
use malleus.Base.{
  ℕ, ◌≡◌, refl, ◌≢◌, ◌∙◌, sym, ap, Bool, false, ◌||◌, ◌==◌, List, [], ◌∷◌, ◌++◌, arith, All,
  All-append, append_assoc,
}
use malleus.Base.Text.{
  Text, codes, is_ascii_whitespace, split_on, replace, split_ascii_whitespace, trim_end_matches,
}
use malleus.Base.Text.Split.{Lacks}
use malleus.Base.Text.Words.{words_skip, words_next, replace-append, replace_absent}
use malleus.Leases.Scan.Blocks.{
  opening, closing, IsPlain, blocks_from, blocks, blocks-opening, blocks_from-append,
}
use malleus.Leases.Scan.{lease_words, is_tail}

-- White space and braces: what no key and no value holds.
abbrev pub is_special : ℕ → Bool
is_special c = is_ascii_whitespace c || c == b'{' || c == b'}'

abbrev pub IsToken : Text → Type 0
IsToken = Lacks is_special

abbrev pub word_of : Text → Text → Text
word_of key value = key ++ b'=' ∷ value

-- `\tkey=value\n`.
abbrev pub render_entry : Text × Text → Text
render_entry (key, value) = 9 ∷ (word_of key value ++ 10 ∷ [])

abbrev pub render_entries : List (Text × Text) → Text
render_entries [] = []
render_entries (e ∷ es) = render_entry e ++ render_entries es

abbrev pub render_block : List (Text × Text) → Text
render_block es = codes "{\n" ++ (render_entries es ++ codes "}\n")

isolate : Text → Text
isolate contents = replace b'}' (codes " } ") (replace b'{' (codes " { ") contents)

isolate-append : (s t : Text) → isolate (s ++ t) ≡ isolate s ++ isolate t
unfolding isolate
isolate-append s t = rw (replace-append, replace-append)

isolate_tab : (t : Text) → isolate (9 ∷ t) ≡ 9 ∷ isolate t
unfolding isolate replace
isolate_tab t = refl

isolate_line_feed : (t : Text) → isolate (10 ∷ t) ≡ 10 ∷ isolate t
unfolding isolate replace
isolate_line_feed t = refl

lease_words-isolate : (t : Text) → lease_words t ≡ split_ascii_whitespace (isolate t)
unfolding lease_words isolate
lease_words-isolate t = refl

-- A brace at the end of a line is a word.
lease_words-opening : (t : Text) → lease_words (codes "{\n" ++ t) ≡ opening ∷ lease_words t
unfolding lease_words replace split_on is_ascii_whitespace
lease_words-opening t = refl

lease_words-closing : (t : Text) → lease_words (codes "}\n" ++ t) ≡ closing ∷ lease_words t
unfolding lease_words replace split_on is_ascii_whitespace
lease_words-closing t = refl

pub Lacks-IsToken :
    (p : ℕ → Bool)
    → ((c : ℕ) → is_special c ≡ false → p c ≡ false)
    → (w : Text) → IsToken w
    → Lacks p w
Lacks-IsToken p h [] _ = tt
Lacks-IsToken p h (c ∷ w) (k, ks) = (h c k, Lacks-IsToken p h w ks)

module _ (w : Text) (token : IsToken w) where
  isolate_token : isolate w ≡ w
  unfolding isolate
  isolate_token =
      rw (replace_absent b'{' (codes " { ") w (Lacks-IsToken _ (λ c h. ground arith) w token))
        (replace_absent b'}' (codes " } ") w (Lacks-IsToken _ (λ c h. ground arith) w token))

  isolate_entry : (s : Text) → isolate (9 ∷ (w ++ 10 ∷ s)) ≡ 9 ∷ (w ++ 10 ∷ isolate s)
  isolate_entry s = rw (isolate_tab, isolate-append w (10 ∷ s), isolate_token, isolate_line_feed)

  lease_words_entry : (s : Text) → w ≢ [] → lease_words (9 ∷ (w ++ 10 ∷ s)) ≡ w ∷ lease_words s
  lease_words_entry s h =
      rw (lease_words-isolate, isolate_entry)
        (words_skip 9 _ (unfold is_ascii_whitespace in refl)
          ∙ words_next w 10 (isolate s) h (Lacks-IsToken _ (λ c k. ground arith) w token)
              (unfold is_ascii_whitespace in refl)
          ∙ ap (λ ws. w ∷ ws) (sym (lease_words-isolate s)))

-- An entry that the file format can carry.
pub record IsEntry (e : Text × Text) : Type 0 where
  pub key_token : IsToken e.0
  pub key_end : Lacks (λ c. c == b'=') e.0
  pub value_token : IsToken e.1
  pub value_end : trim_end_matches is_tail e.1 ≡ e.1

abbrev pub entry_word : Text × Text → Text
entry_word (key, value) = word_of key value

word_of-ne-nil : (key value : Text) → word_of key value ≢ []
word_of-ne-nil [] value = cons-ne-nil _ _
word_of-ne-nil (c ∷ key) value = cons-ne-nil _ _

entry_word-IsToken : (e : Text × Text) → IsEntry e → IsToken (entry_word e)
entry_word-IsToken (key, value) h =
    All-append _ key _ h.key_token (unfold is_ascii_whitespace in refl, h.value_token)

IsToken-IsPlain : (w : Text) → IsToken w → IsPlain w
IsToken-IsPlain [] _ = (refl, refl)
IsToken-IsPlain (c ∷ []) (h, _) = ground arith
IsToken-IsPlain (c ∷ d ∷ w) _ = ground arith

entry_words-IsPlain : (es : List (Text × Text)) → All IsEntry es → All IsPlain (map entry_word es)
entry_words-IsPlain [] _ = tt
entry_words-IsPlain (e ∷ es) (h, hs) =
    (IsToken-IsPlain (entry_word e) (entry_word-IsToken e h), entry_words-IsPlain es hs)

regroup : (w rest t : Text) → (9 ∷ (w ++ 10 ∷ [])) ++ rest ++ t ≡ 9 ∷ (w ++ 10 ∷ (rest ++ t))
regroup w rest t = simp append_assoc

lease_words_entries :
    (es : List (Text × Text)) (t : Text)
    → All IsEntry es
    → lease_words (render_entries es ++ t) ≡ map entry_word es ++ lease_words t
lease_words_entries [] t _ = refl
lease_words_entries (e ∷ es) t (h, hs) =
    ap lease_words (regroup (entry_word e) (render_entries es) t)
    ∙ lease_words_entry (entry_word e) (entry_word-IsToken e h) (render_entries es ++ t)
        (word_of-ne-nil e.0 e.1)
    ∙ ap (λ ws. entry_word e ∷ ws) (lease_words_entries es t hs)

unfoldable pub render_file : List (List (Text × Text)) → Text
render_file [] = []
render_file (es ∷ file) = render_block es ++ render_file file

lease_words_block :
    (es : List (Text × Text)) (t : Text)
    → All IsEntry es
    → lease_words (render_block es ++ t) ≡ opening ∷ (map entry_word es ++ closing ∷ lease_words t)
lease_words_block es t h =
    lease_words-opening ((render_entries es ++ codes "}\n") ++ t)
    ∙ ap (λ ws. opening ∷ ws)
        (ap lease_words (append_assoc (render_entries es) (codes "}\n") t)
          ∙ lease_words_entries es (codes "}\n" ++ t) h
          ∙ ap (λ ws. map entry_word es ++ ws) (lease_words-closing t))

-- The blocks of a rendered file are those that it was rendered from.
pub blocks-render_file :
    (file : List (List (Text × Text)))
    → All (All IsEntry) file
    → blocks (lease_words (render_file file)) ≡ map (map entry_word) file
unfolding render_file
blocks-render_file [] _ = unfold lease_words replace split_on blocks_from in refl
blocks-render_file (es ∷ file) (h, hs) =
    ap blocks (lease_words_block es (render_file file) h)
    ∙ blocks-opening _
    ∙ blocks_from-append [] (map entry_word es) _ (entry_words-IsPlain es h)
    ∙ ap (λ bs. map entry_word es ∷ bs) (blocks-render_file file hs)
