-- ===== src/Cli/Address/Serial.antt =====
-- The guest's serial log: which of its lines gives the address.
use malleus.Base.{
  ℕ, ◌≡◌, ◌≢◌, refl, ap, ◌∙◌, true, false, append-nil, none, some, List, [], ◌∷◌, ◌++◌, ◌==◌, ◌<◌,
  ◌+◌, find_map, All, arith, Option,
}
use malleus.Base.Text.{
  Text, codes, strip_prefix, after_find, lines, is_whitespace, split_whitespace, non_empty,
}
use malleus.Base.Text.Split.{Lacks, split_on_end, split_on-append}
use malleus.Base.Ipv4.{
  Ipv4Addr, IsIpv4, parse_ipv4, show_ipv4, parse_ipv4-show_ipv4, show_ipv4-Lacks, show_ipv4-ne-nil,
}
use malleus.Base.FilePath.{FilePath, join_path}
use malleus.Base.Result.{ok}
use malleus.Base.Fs.{unreadable_text, World}
use malleus.Base.Fs.Laws.{read_to_string_present}
use malleus.Cli.Address.{
  of_option, or_empty, first_word, reported_ip, reversed, last_lines, serial_ip,
}

abbrev pub mark : Text
mark = codes "Reported IP "

not_mark : (c : ℕ) → (c == b'R') ≡ false → (b'R' == c) ≡ false
not_mark c h = ground arith

strip_prefix_other : (c : ℕ) (s : Text) → (b'R' == c) ≡ false → strip_prefix mark (c ∷ s) ≡ none
unfolding strip_prefix
strip_prefix_other c s h = rw h refl

after_find-here : (s : Text) → after_find mark (mark ++ s) ≡ some s
unfolding after_find strip_prefix
after_find-here s = refl

after_find-mark :
    (before s : Text)
    → Lacks (λ c. c == b'R') before
    → after_find mark (before ++ (mark ++ s)) ≡ some s
unfolding after_find
after_find-mark [] s h = after_find-here s
after_find-mark (c ∷ before) s (h, hs) =
    rw (after_find, strip_prefix_other c (before ++ (mark ++ s)) (not_mark c h))
      (after_find-mark before s hs)

-- Nothing, or what white space sets off.
abbrev pub IsApart : Text → Type 0
IsApart [] = Unit
IsApart (c ∷ s) = is_whitespace c ≡ true

first_word-append :
    (w rest : Text)
    → w ≢ []
    → Lacks is_whitespace w
    → IsApart rest
    → first_word (split_whitespace (w ++ rest)) ≡ some w
first_word-append [] rest h _ _ = absurd (h refl)
first_word-append (c ∷ w) [] _ h _ =
    ap (λ t. first_word (split_whitespace t)) (append-nil (c ∷ w))
    ∙ ap (λ parts. first_word (non_empty parts)) (split_on_end is_whitespace (c ∷ w) h)
first_word-append (c ∷ w) (d ∷ rest) _ h k =
    ap (λ parts. first_word (non_empty parts)) (split_on-append is_whitespace (c ∷ w) rest d h k)

digit-plain : (d : ℕ) → d < 10 → is_whitespace (48 + d) ≡ false
unfolding is_whitespace
digit-plain d h = ground arith

-- A line that reports an address.
reported_ip-show_ipv4 :
    (before rest : Text) (ip : Ipv4Addr)
    → Lacks (λ c. c == b'R') before
    → IsIpv4 ip
    → IsApart rest
    → reported_ip (before ++ (mark ++ (show_ipv4 ip ++ rest))) ≡ some ip
unfolding reported_ip
reported_ip-show_ipv4 before rest ip h proper set_off =
    rw (after_find-mark before (show_ipv4 ip ++ rest) h) (
      ap (λ word. parse_ipv4 (or_empty word))
        (first_word-append (show_ipv4 ip) rest (show_ipv4-ne-nil ip)
          (show_ipv4-Lacks is_whitespace (unfold is_whitespace in refl) digit-plain ip) set_off)
      ∙ parse_ipv4-show_ipv4 ip proper)

module _ {B : Type 0} (f : Text → Option B) where
  find_map-reversed :
      (newer acc : List Text)
      → All (λ l. f l ≡ none) newer
      → find_map f (reversed newer acc) ≡ find_map f acc
  find_map-reversed [] acc h = refl
  find_map-reversed (l ∷ newer) acc (h, hs) =
      find_map-reversed newer (l ∷ acc) hs ∙ rw (find_map, h) refl

  -- The newest line with a result decides.
  find_map-newest :
      (older newer acc : List Text) (line : Text) (b : B)
      → f line ≡ some b
      → All (λ l. f l ≡ none) newer
      → find_map f (reversed (older ++ (line ∷ newer)) acc) ≡ some b
  find_map-newest [] newer acc line b h hs =
      find_map-reversed newer (line ∷ acc) hs ∙ rw (find_map, h) refl
  find_map-newest (l ∷ older) newer acc line b h hs =
      find_map-newest older newer (l ∷ acc) line b h hs

-- In a log that may be read and has these lines, the newest line that reports an address decides,
-- if no line behind it reports anything, whatever the older lines report. Behind the address of a
-- report there may be more words, as the guest writes them; in front of it there is no `R`.
pub serial_ip-newest :
    (state_dir : FilePath) (w : World) (older newer : List Text) (before rest : Text)
    (ip : Ipv4Addr)
    → Lacks (λ c. c == b'R') before
    → IsIpv4 ip
    → IsApart rest
    → All (λ l. reported_ip l ≡ none) newer
    → (log : Text) → lines log ≡ older ++ ((before ++ (mark ++ (show_ipv4 ip ++ rest))) ∷ newer)
    → unreadable_text (join_path state_dir (codes "vfkit.guest.log")) w ≡ false
    → w.files (join_path state_dir (codes "vfkit.guest.log")) ≡ some log
    → serial_ip state_dir w ≡ (ok ip, w)
unfolding serial_ip
serial_ip-newest state_dir w older newer before rest ip plain proper set_off silent log read
      readable there =
    let newest : find_map reported_ip (last_lines log) ≡ some ip =
      ap (λ ls. find_map reported_ip (reversed ls [])) read
      ∙ find_map-newest reported_ip older newer [] (before ++ (mark ++ (show_ipv4 ip ++ rest))) ip
          (reported_ip-show_ipv4 before rest ip plain proper set_off) silent in
    rw (read_to_string_present (join_path state_dir (codes "vfkit.guest.log")) w log readable there)
      (ap (λ found. (of_option found, w)) newest)
