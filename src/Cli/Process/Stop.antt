-- ===== src/Cli/Process/Stop.antt =====
-- `cmd_stop`: which process it stops and what it leaves.
use malleus.Base.{ℕ, ◌≤◌, ◌≡◌, refl, ◌∙◌, ap, Bool, false, none, some, Bool-cases, inl, inr}
use malleus.Base.Text.{Text, codes}
use malleus.Base.Number.{to_string, u32_max}
use malleus.Base.FilePath.{FilePath, join_path, path_eq}
use malleus.Base.Result.{Result, ok, err}
use malleus.Base.Io.{called-keeps, check}
use malleus.Base.Fs.{IoError, World, unreadable_text, remove, remove_file, exists, read_to_string}
use malleus.Base.Fs.Laws.{
  read_to_string_present, read_to_string-world, remove_file-none, remove_file-elsewhere,
}
use malleus.Cli.Error.{io}
use malleus.Cli.Process.{parse_pid, pid_or_error, pid_path, clean_up, stop_pid, cmd_stop}
use malleus.Cli.Process.Live.{parse_u32-trim-to_string}

parse_pid-to_string : (pid : ℕ) → pid ≤ u32_max → parse_pid (to_string pid) ≡ ok pid
unfolding parse_pid
parse_pid-to_string pid h = ap pid_or_error (parse_u32-trim-to_string pid h)

module _ (kill : Text → World → Result IoError Bool × World) where
  -- The process that a stop signals is the one whose number a start left in the file.
  pub cmd_stop-to_string :
      (state_dir : FilePath) (w : World) (pid : ℕ)
      → pid ≤ u32_max
      → unreadable_text (pid_path state_dir) w ≡ false
      → w.files (pid_path state_dir) ≡ some (to_string pid)
      → cmd_stop kill state_dir w ≡ clean_up kill state_dir (kill (to_string pid) w)
  unfolding cmd_stop stop_pid
  cmd_stop-to_string state_dir w pid h readable there = rw there (
      rw
        (
          read_to_string_present (pid_path state_dir) w (to_string pid) readable there,
          parse_pid-to_string pid h,
        )
        refl)

  -- If `kill` can be run, whatever it answers, a stop succeeds and the file of the process is gone
  -- behind it, as far as the system lets it be removed.
  pub cmd_stop-none :
      (state_dir : FilePath) (w v : World) (pid : ℕ) (success : Bool)
      → pid ≤ u32_max
      → unreadable_text (pid_path state_dir) w ≡ false
      → w.files (pid_path state_dir) ≡ some (to_string pid)
      → kill (to_string pid) w ≡ (ok success, v)
      → v.refuses remove (pid_path state_dir) ≡ false
      → ((cmd_stop kill state_dir w).0 ≡ ok tt)
        × ((cmd_stop kill state_dir w).1.files (pid_path state_dir) ≡ none)
  unfolding clean_up
  cmd_stop-none state_dir w v pid success h readable there ran removable =
      let stopped =
        cmd_stop-to_string state_dir w pid h readable there ∙ ap (clean_up kill state_dir) ran in
      let without_pid = (remove_file (pid_path state_dir) v).1 in
      (
        ap (λ r. r.0) stopped,
        ap (λ r. r.1.files (pid_path state_dir)) stopped
            ∙ remove_file-elsewhere (join_path state_dir (codes "ready.sock")) (pid_path state_dir)
                without_pid refl
            ∙ remove_file-none (pid_path state_dir) v removable,
      )

module _ (kill : Text → World → Result IoError Bool × World) (p : FilePath) (w : World) where
  abbrev Kept : World → Type 0
  Kept v = v.files p ≡ w.files p

  clean_up-elsewhere :
      (state_dir : FilePath) (r : Result IoError Bool × World)
      → path_eq (pid_path state_dir) p ≡ false
      → path_eq (join_path state_dir (codes "ready.sock")) p ≡ false
      → Kept r.1
      → Kept (clean_up kill state_dir r).1
  unfolding clean_up
  clean_up-elsewhere state_dir (err e, v) pid sock k = k
  clean_up-elsewhere state_dir (ok success, v) pid sock k =
      remove_file-elsewhere (join_path state_dir (codes "ready.sock")) p
        (remove_file (pid_path state_dir) v).1 sock
      ∙ remove_file-elsewhere (pid_path state_dir) p v pid
      ∙ k

  -- A stop changes no file but that of the process and the socket, if `kill` does not.
  pub cmd_stop-elsewhere :
      (state_dir : FilePath)
      → ((pid : Text) (v : World) → (kill pid v).1.files p ≡ v.files p)
      → path_eq (pid_path state_dir) p ≡ false
      → path_eq (join_path state_dir (codes "ready.sock")) p ≡ false
      → (cmd_stop kill state_dir w).1.files p ≡ w.files p
  unfolding cmd_stop stop_pid
  cmd_stop-elsewhere state_dir kept pid sock = elim (Bool-cases (exists (pid_path state_dir) w)) [
    | inr missing ↦ rw missing refl
    | inl there ↦ rw there (
        called-keeps Kept io (read_to_string (pid_path state_dir) w) _
          (ap (λ v. v.files p) (read_to_string-world (pid_path state_dir) w))
          (λ pid_str v k. called-keeps Kept io (check (parse_pid pid_str) v) _ k (λ n u l.
            clean_up-elsewhere state_dir (kill (to_string n) u) pid sock
              (kept (to_string n) u ∙ l))))
  ]
