-- ===== src/Provision/Files.antt =====
-- The section `write_files` of the user data: a list of files, and its reading.
use malleus.Base.{
  ◌≡◌, refl, ◌∙◌, ap, true, false, Option, none, some, List, [], ◌∷◌, ◌++◌, arith, ◌≤◌,
  if◌then◌else◌, All, All-append, append_assoc, Bool-cases, inl, inr, drop, find_map,
}
use malleus.Base.Text.{Text, codes, text_eq, lines}
use malleus.Base.Text.Split.{Lacks, Lacks_of_any}
use malleus.Base.Text.Lines.{is_line_end, lines_next}
use malleus.Provision.Blocks.{
  spaces, indented, content_lines, content_lines-Lacks, block_text, lines-block_text,
}
use malleus.Provision.Yaml.{
  leading, is_blank, yaml_block, IsReadable, IsReadable-NoCr, is_flush, yaml_block-indented,
}

pub record FileEntry : Type 0 where
  pub path : Text
  pub mode : Text
  pub content : Text

abbrev pub path_line : Text → Text
path_line path = codes "  - path: " ++ path

abbrev mode_line : Text → Text
mode_line mode = codes "    permissions: \"" ++ (mode ++ codes "\"")

abbrev pub file_head : FileEntry → Text
file_head e = path_line e.path ++ 10 ∷ (mode_line e.mode ++ 10 ∷ codes "    content: |\n")

abbrev pub file_text : FileEntry → Text
file_text e = file_head e ++ block_text (spaces 6) (content_lines e.content)

-- The files, and the text behind them.
abbrev pub files_text : List FileEntry → Text → Text
files_text [] t = t
files_text (e ∷ es) t = file_text e ++ files_text es t

pub record IsFileEntry (e : FileEntry) : Type 0 where
  pub path_one : Lacks is_line_end e.path
  pub mode_one : Lacks is_line_end e.mode
  pub readable : IsReadable e.content
  pub flush : is_flush (content_lines e.content) ≡ true

-- The lines behind the first that is the given one.
unfoldable pub after_line : Text → List Text → List Text
after_line target [] = []
after_line target (l ∷ ls) =
    let rest = after_line target ls in if text_eq l target then ls else rest

-- How cloud-init reads the content of a file: the block behind its path, mode and `content:`, a key
-- that is indented by four.
unfoldable pub file_content : Text → List Text → List Text
file_content path ls = yaml_block 4 (drop 2 (after_line (path_line path) ls))

-- The first line of a text ends a block.
abbrev pub EndsBlock : Text → Type 0
EndsBlock t =
    (l : Text) × (rest : List Text) × (lines t ≡ l ∷ rest) × (is_blank l ≡ false) × (leading l ≤ 4)

lines-file_text :
    (e : FileEntry) (t : Text)
    → IsFileEntry e
    → lines (file_text e ++ t)
      ≡ path_line e.path
        ∷ mode_line e.mode
        ∷ codes "    content: |"
        ∷ (indented 6 (content_lines e.content) ++ lines t)
lines-file_text e t h =
    ap lines (regroup (path_line e.path) (mode_line e.mode) (codes "    content: |") block t)
    ∙ lines_next (path_line e.path) _ (
        All-append _ (codes "  - path: ") e.path
          (Lacks_of_any is_line_end (codes "  - path: ") refl) h.path_one)
    ∙ ap (λ ls. path_line e.path ∷ ls)
        (lines_next (mode_line e.mode) _ (
            All-append _ (codes "    permissions: \"") (e.mode ++ codes "\"")
              (Lacks_of_any is_line_end (codes "    permissions: \"") refl)
              (All-append _ e.mode (codes "\"") h.mode_one
                (Lacks_of_any is_line_end (codes "\"") refl)))
          ∙ ap (λ ls. mode_line e.mode ∷ ls)
              (lines_next (codes "    content: |") _
                  (Lacks_of_any is_line_end (codes "    content: |") refl)
                ∙ ap (λ ls. codes "    content: |" ∷ ls)
                    (lines-block_text 6 (content_lines e.content) t
                      (content_lines-Lacks e.content (IsReadable-NoCr e.content h.readable)))))
  where
    block : Text
    block = block_text (spaces 6) (content_lines e.content)

    regroup :
        (p m c b u : Text)
        → ((p ++ 10 ∷ (m ++ 10 ∷ (c ++ 10 ∷ []))) ++ b) ++ u
          ≡ p ++ 10 ∷ (m ++ 10 ∷ (c ++ 10 ∷ (b ++ u)))
    regroup p m c b u = simp append_assoc

after_line-indented :
    (path : Text) (ls rest : List Text)
    → after_line (path_line path) (indented 6 ls ++ rest) ≡ after_line (path_line path) rest
unfolding after_line
after_line-indented path [] rest = refl
after_line-indented path (l ∷ ls) rest = after_line-indented path ls rest

files_text-EndsBlock :
    (es : List FileEntry) (t : Text)
    → All IsFileEntry es
    → EndsBlock t
    → EndsBlock (files_text es t)
files_text-EndsBlock [] t _ f = f
files_text-EndsBlock (e ∷ es) t (h, hs) f = (
  path_line e.path,
  _,
  lines-file_text e (files_text es t) h,
  unfold is_blank in refl,
  unfold leading in omega arith,
)

file_content_hit :
    (path : Text) (e : FileEntry) (ls : List Text)
    → text_eq e.path path ≡ true
    → file_content path (path_line e.path ∷ mode_line e.mode ∷ codes "    content: |" ∷ ls)
      ≡ yaml_block 4 ls
unfolding file_content after_line
file_content_hit path e ls h = rw h

file_content_miss :
    (path : Text) (e : FileEntry) (ks ls : List Text)
    → text_eq e.path path ≡ false
    → file_content path
        (path_line e.path ∷ mode_line e.mode ∷ codes "    content: |" ∷ (indented 6 ks ++ ls))
      ≡ file_content path ls
unfolding file_content after_line
file_content_miss path e ks ls h =
    rw h (ap (λ ws. yaml_block 4 (drop 2 ws)) (after_line-indented path ks ls))

abbrev pub content_at : Text → FileEntry → Option Text
content_at path e = if text_eq e.path path then some e.content else none

-- The content that is read under a path is that of the first file with this path.
pub file_content-files_text :
    (path content : Text) (es : List FileEntry) (t : Text)
    → All IsFileEntry es
    → EndsBlock t
    → find_map (content_at path) es ≡ some content
    → file_content path (lines (files_text es t)) ≡ content_lines content
unfolding file_content
file_content-files_text path content [] t _ _ h = cc
file_content-files_text path content (e ∷ es) t (k, ks) f h =
    let (l, rest, lines_eq, solid, out) = files_text-EndsBlock es t ks f in
    elim (Bool-cases (text_eq e.path path)) [
      | inl hit ↦
          ap (file_content path) (lines-file_text e (files_text es t) k)
          ∙ file_content_hit path e _ hit
          ∙ ap (λ ws. yaml_block 4 (indented 6 (content_lines e.content) ++ ws)) lines_eq
          ∙ yaml_block-indented 4 6 (content_lines e.content) l rest (omega arith) k.flush solid out
          ∙ found_content hit h
      | inr miss ↦
          ap (file_content path) (lines-file_text e (files_text es t) k)
          ∙ file_content_miss path e (content_lines e.content) (lines (files_text es t)) miss
          ∙ file_content-files_text path content es t ks f (skip miss h)
    ]
  where
    found_content :
        text_eq e.path path ≡ true
        → find_map (content_at path) (e ∷ es) ≡ some content
        → content_lines e.content ≡ content_lines content
    found_content hit h = ap content_lines (ground arith)

    skip :
        text_eq e.path path ≡ false
        → find_map (content_at path) (e ∷ es) ≡ some content
        → find_map (content_at path) es ≡ some content
    skip miss h = ground arith
