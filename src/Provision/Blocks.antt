-- ===== src/Provision/Blocks.antt =====
-- `push_block`: the lines of a content behind a prefix.
use malleus.Base.{
  ℕ, suc, zero, ◌≡◌, refl, ◌∙◌, sym, ap, false, List, [], ◌∷◌, ◌++◌, map, ◌==◌, All, All-append,
  replicate, append_assoc, append-nil,
}
use malleus.Base.Text.{Text, lines, trim_end_matches}
use malleus.Base.Text.Split.{Lacks}
use malleus.Base.Text.Lines.{is_line_end, lines_next, NoCr, lines-Lacks}
use malleus.Base.Text.Words.{trim_end_matches-Lacks}
use malleus.Provision.{push_lines, push_block}

-- The lines that a block holds.
abbrev pub content_lines : Text → List Text
content_lines content = lines (trim_end_matches (λ c. c == 10) content)

abbrev pub spaces : ℕ → Text
spaces n = replicate n 32

abbrev pub indented : ℕ → List Text → List Text
indented n = map (λ l. spaces n ++ l)

-- The text of a block.
abbrev pub block_text : Text → List Text → Text
block_text prefix [] = []
block_text prefix (l ∷ ls) = prefix ++ (l ++ 10 ∷ block_text prefix ls)

push_lines-block_text :
    (prefix : Text) (ls : List Text) (out : Text)
    → push_lines prefix ls out ≡ out ++ block_text prefix ls
unfolding push_lines
push_lines-block_text prefix [] out = sym (append-nil out)
push_lines-block_text prefix (l ∷ ls) out = push_lines-block_text prefix ls _ ∙ simp append_assoc

pub push_block-block_text :
    (out : Text) (n : ℕ) (content : Text)
    → push_block out n content ≡ out ++ block_text (spaces n) (content_lines content)
unfolding push_block
push_block-block_text out n content = push_lines-block_text (spaces n) (content_lines content) out

spaces-Lacks : (n : ℕ) → Lacks is_line_end (spaces n)
spaces-Lacks zero = tt
spaces-Lacks (suc n) = (refl, spaces-Lacks n)

pub lines-block_text :
    (n : ℕ) (ls : List Text) (t : Text)
    → All (Lacks is_line_end) ls
    → lines (block_text (spaces n) ls ++ t) ≡ indented n ls ++ lines t
lines-block_text n [] t _ = refl
lines-block_text n (l ∷ ls) t (h, hs) =
    ap lines (regroup (spaces n) l (block_text (spaces n) ls) t)
    ∙ lines_next (spaces n ++ l) _
        (All-append (λ c. is_line_end c ≡ false) (spaces n) l (spaces-Lacks n) h)
    ∙ ap (λ ws. (spaces n ++ l) ∷ ws) (lines-block_text n ls t hs)
  where
    regroup : (p w rest u : Text) → (p ++ (w ++ 10 ∷ rest)) ++ u ≡ (p ++ w) ++ 10 ∷ (rest ++ u)
    regroup p w rest u = simp append_assoc

pub content_lines-Lacks :
    (content : Text) → NoCr content → All (Lacks is_line_end) (content_lines content)
content_lines-Lacks content h = lines-Lacks _ (trim_end_matches-Lacks _ _ content h)
