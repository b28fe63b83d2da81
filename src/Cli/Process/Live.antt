-- ===== src/Cli/Process/Live.antt =====
-- Which processes count as a running virtual machine.
use malleus.Base.{
  ℕ, ◌+◌, ◌<◌, ◌≤◌, ◌≡◌, refl, ◌∙◌, ap, Bool, true, false, not, ◌&&◌, some, List, [], ◌∷◌,
  if◌then◌else◌, arith, All,
}
use malleus.Base.Text.{
  Text, codes, trim, trim_start_matches, is_whitespace, join, starts_with, contains,
}
use malleus.Base.Text.Split.{Lacks}
use malleus.Base.Text.Words.{trim_end_matches_absent}
use malleus.Base.Text.Lines.{IsWord, split_ascii_whitespace-join}
use malleus.Base.Number.{to_string, parse_u32, u32_max}
use malleus.Base.Number.Laws.{to_string-All, from_str_radix-to_string}
use malleus.Base.FilePath.{FilePath}
use malleus.Base.Fs.{World, unreadable_text}
use malleus.Base.Fs.Laws.{read_to_string_present}
use malleus.Cli.Process.{
  ps_args, live_fields, describes_live_vfkit, Ps, pid_path, live_answer, is_vm_running,
}

-- A line of `ps` with a state and a command is that of a live vfkit exactly if the state is not a
-- zombie's and the command names vfkit.
pub describes_live_vfkit-join :
    (state command : Text) (rest : List Text)
    → All IsWord (state ∷ command ∷ rest)
    → describes_live_vfkit (join (codes " ") (state ∷ command ∷ rest))
      ≡ (not (starts_with (codes "Z") state) && contains (codes "vfkit") command)
unfolding describes_live_vfkit live_fields
describes_live_vfkit-join state command rest h =
    ap live_fields (split_ascii_whitespace-join state (command ∷ rest) h)
    ∙ choose (starts_with (codes "Z") state) (contains (codes "vfkit") command)
  where
    choose : (z c : Bool) → (if z then false else c) ≡ (not z && c)
    choose true c = refl
    choose false c = refl

digit-not_whitespace : (d : ℕ) → d < 10 → is_whitespace (48 + d) ≡ false
unfolding is_whitespace
digit-not_whitespace d h = ground arith

trim_start_matches_absent : (p : ℕ → Bool) (s : Text) → Lacks p s → trim_start_matches p s ≡ s
unfolding trim_start_matches
trim_start_matches_absent p [] h = refl
trim_start_matches_absent p (c ∷ s) (h, hs) = rw h refl

pub parse_u32-trim-to_string : (n : ℕ) → n ≤ u32_max → parse_u32 (trim (to_string n)) ≡ some n
parse_u32-trim-to_string n h =
    let plain : Lacks is_whitespace (to_string n) =
      to_string-All _ (λ d small. digit-not_whitespace d small) n in
    ap parse_u32 (
      ap (trim_start_matches is_whitespace)
        (trim_end_matches_absent is_whitespace (to_string n) plain)
      ∙ trim_start_matches_absent is_whitespace (to_string n) plain)
    ∙ from_str_radix-to_string u32_max n h

-- The process whose number a start left in the file is the one that is asked for, and the answer
-- of `ps` decides.
pub is_vm_running-to_string :
    (from_utf8_lossy : List ℕ → Text) (ps : Ps) (state_dir : FilePath) (w : World) (pid : ℕ)
    → pid ≤ u32_max
    → unreadable_text (pid_path state_dir) w ≡ false
    → w.files (pid_path state_dir) ≡ some (to_string pid)
    → is_vm_running from_utf8_lossy ps state_dir w
      ≡ live_answer from_utf8_lossy ps (ps (ps_args pid) w)
unfolding is_vm_running
is_vm_running-to_string from_utf8_lossy ps state_dir w pid h readable there =
    rw
      (
        read_to_string_present (pid_path state_dir) w (to_string pid) readable there,
        parse_u32-trim-to_string pid h,
      )
      refl
