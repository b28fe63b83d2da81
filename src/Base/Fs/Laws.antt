-- ===== src/Base/Fs/Laws.antt =====
-- The laws of reading, writing and making directories.
use malleus.Base.{
  ◌∙◌, ap, ℕ, none, Option-cases, Bool-cases, if◌then◌else◌, inl, inr, ◌≡◌, sym, Bool, ◌||◌, refl,
  true, false, some, [], ◌∷◌, arith,
}
use malleus.Base.Text.{Text}
use malleus.Base.FilePath.{FilePath, parent, path_eq, path_eq_iff}
use malleus.Base.Result.{Result, ok, err}
use malleus.Base.Io.{after-keeps, after, after_inv}
use malleus.Base.Fs.{
  permission_denied, is_a_directory, not_found, is_under, remove_dir_all, remove_tree, copy,
  open_for_write, create_file, set_len, resize, remove, remove_file, IoError, World, open_read,
  create, fill, put_file, mark_binary, read, unreadable_text, read_to_string, write, make_dir,
  create_dir_all,
}

pub write_inv :
    (p : FilePath) (t : Text) (w v : World) (u : Unit {0})
    → write p t w ≡ (ok u, v)
    → v ≡ put_file p (some t) w
unfolding write
write_inv p t w v u h = ground arith

pub read_to_string_inv :
    (p : FilePath) (w v : World) (t : Text)
    → read_to_string p w ≡ (ok t, v)
    → (w.files p ≡ some t) × (v ≡ w)
unfolding read_to_string
read_to_string_inv p w v t h = ground arith

read_inv :
    (p : FilePath) (w v : World) (t : Text) → read p w ≡ (ok t, v) → (w.files p ≡ some t) × (v ≡ w)
unfolding read
read_inv p w v t h = ground arith

read-world : (p : FilePath) (w : World) → (read p w).1 ≡ w
unfolding read
read-world p w = ground arith

pub read_to_string_present :
    (p : FilePath) (w : World) (t : Text)
    → unreadable_text p w ≡ false
    → w.files p ≡ some t
    → read_to_string p w ≡ (ok t, w)
unfolding read_to_string
read_to_string_present p w t h k =
    let (opens, decodes) = neither (w.refuses open_read p) (w.binary p) h in
    rw (opens, k, decodes) refl
  where
    neither : (a b : Bool) → (a || b) ≡ false → (a ≡ false) × (b ≡ false)
    neither true b h = cc
    neither false b h = (refl, h)

make_dir-files : (p : FilePath) (w : World) → (make_dir p w).1.files ≡ w.files
unfolding make_dir
make_dir-files p w = ground arith

after-make_dir-files :
    (p : FilePath) (r : Result IoError (Unit {0}) × World)
    → (after r (λ _. make_dir p)).1.files ≡ r.1.files
after-make_dir-files p (ok _, v) = make_dir-files p v
after-make_dir-files p (err e, v) = refl

-- Making directories leaves the files as they are.
pub create_dir_all-files : (p : FilePath) (w : World) → (create_dir_all p w).1.files ≡ w.files
unfolding create_dir_all
create_dir_all-files [] w = refl
create_dir_all-files (name ∷ p) w =
    ground (arith, after-make_dir-files (name ∷ p) (create_dir_all p w), create_dir_all-files p w)

pub read_to_string-world : (p : FilePath) (w : World) → (read_to_string p w).1 ≡ w
unfolding read_to_string
read_to_string-world p w = ground arith

-- A write changes one file at most.
pub write-elsewhere :
    (p q : FilePath) (t : Text) (w : World)
    → path_eq p q ≡ false
    → (write p t w).1.files q ≡ w.files q
unfolding write
write-elsewhere p q t w h = ground arith

pub write_allowed :
    (p : FilePath) (t : Text) (w : World)
    → w.refuses create p ≡ false
    → w.dirs (parent p) ≡ true
    → w.dirs p ≡ false
    → w.refuses fill p ≡ false
    → write p t w ≡ (ok tt, put_file p (some t) w)
unfolding write
write_allowed p t w h k d e = rw (h, k, d, e)

pub path_eq_refl : (p : FilePath) → path_eq p p ≡ true
path_eq_refl p = (path_eq_iff p p).1 refl

pub copy-elsewhere :
    (from p q : FilePath) (w : World) → path_eq p q ≡ false → (copy from p w).1.files q ≡ w.files q
unfolding copy
copy-elsewhere from p q w h =
    after-keeps (λ v. v.files q ≡ w.files q) (read from w) _
      (ap (λ v. v.files q) (read-world from w))
      (λ content v k.
        after-keeps (λ x. x.files q ≡ w.files q) (write p content v) _
          (write-elsewhere p q content v h ∙ k) (λ u x l. l))

pub open_for_write-world : (p : FilePath) (w : World) → (open_for_write p w).1 ≡ w
unfolding open_for_write
open_for_write-world p w = ground arith

pub create_file-elsewhere :
    (p q : FilePath) (w : World) → path_eq p q ≡ false → (create_file p w).1.files q ≡ w.files q
unfolding create_file
create_file-elsewhere p q w h = ground arith

pub set_len-elsewhere :
    (p q : FilePath) (size : ℕ) (w : World)
    → path_eq p q ≡ false
    → (set_len p size w).1.files q ≡ w.files q
unfolding set_len
set_len-elsewhere p q size w h = ground arith

pub set_len_inv :
    (p : FilePath) (size : ℕ) (w v : World) (u : Unit {0})
    → set_len p size w ≡ (ok u, v)
    → (content : Text) × (w.files p ≡ some content)
      × (v ≡ mark_binary p (w.binary p) (put_file p (some (resize size content)) w))
unfolding set_len
set_len_inv p size w v u h = elim (Option-cases (w.files p)) [
  | inl e ↦ ground arith
  | inr (content, e) ↦ (content, e, ground arith)
]

pub remove_file_allowed :
    (p : FilePath) (w : World) (content : Text)
    → w.files p ≡ some content
    → w.refuses remove p ≡ false
    → remove_file p w ≡ (ok tt, put_file p none w)
unfolding remove_file
remove_file_allowed p w content h k = rw (h, k) refl

pub remove_file-none :
    (p : FilePath) (w : World) → w.refuses remove p ≡ false → (remove_file p w).1.files p ≡ none
unfolding remove_file
remove_file-none p w h = elim (Option-cases (w.files p)) [
  | inl e ↦ rw e e
  | inr (content, e) ↦ rw (e, h) (rw (path_eq_refl p) refl)
]

pub remove_file-elsewhere :
    (p q : FilePath) (w : World) → path_eq p q ≡ false → (remove_file p w).1.files q ≡ w.files q
unfolding remove_file
remove_file-elsewhere p q w h = ground arith

pub is_under_refl : (p : FilePath) → is_under p p ≡ true
unfolding is_under
is_under_refl [] = refl
is_under_refl (name ∷ p) = rw (path_eq_refl (name ∷ p)) refl

pub remove_dir_all_inv :
    (p : FilePath) (w v : World) (u : Unit {0})
    → remove_dir_all p w ≡ (ok u, v)
    → v ≡ remove_tree p w
unfolding remove_dir_all
remove_dir_all_inv p w v u h = ground arith

pub copy_inv :
    (from p : FilePath) (w v : World) (u : Unit {0})
    → copy from p w ≡ (ok u, v)
    → (content : Text) × (w.files from ≡ some content)
      × (v ≡ mark_binary p (w.binary from) (put_file p (some content) w))
unfolding copy
copy_inv from p w v u h =
    let (content, w1, e1, h1) = after_inv (read from w) _ v h in
    let (there, same) = read_inv from w w1 content e1 in
    let (t, w2, e2, h2) = after_inv (write p content w1) _ v h1 in
    (
      content,
      there,
      sym (ap (λ r. r.1) h2)
          ∙ ap (mark_binary p (w.binary from))
              (write_inv p content w1 w2 t e2 ∙ ap (put_file p (some content)) same),
    )

pub remove_file-dirs : (p : FilePath) (w : World) → (remove_file p w).1.dirs ≡ w.dirs
unfolding remove_file
remove_file-dirs p w = ground arith

-- A file that is not there cannot be read.
pub read_to_string_absent :
    (p : FilePath) (w : World) → w.files p ≡ none → (e : IoError) × ((read_to_string p w).0 ≡ err e)
unfolding read_to_string
read_to_string_absent p w h = elim (Bool-cases (w.refuses open_read p)) [
  | inl refused ↦ (permission_denied, rw refused refl)
  | inr allowed ↦ (if w.dirs p then is_a_directory else not_found, rw (allowed, h) refl)
]
