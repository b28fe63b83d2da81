-- ===== src/Base/Fs.antt =====
-- What the program uses of `std::fs`: files with their contents, directories, and a system that
-- may refuse an operation on a path.
pub mod Laws
use malleus.Base.{
  ◌++◌, take, replicate, ◌-◌, length, ℕ, ◌≡◌, refl, Bool, true, false, not, ◌||◌, Option, none,
  some, List, [], ◌∷◌, if◌then◌else◌,
}
use malleus.Base.Text.{Text, is_some}
use malleus.Base.FilePath.{FilePath, parent, path_eq}
use malleus.Base.Result.{Result, ok, err}
use malleus.Base.Io.{Io, after, after_inv}

pub data IoError : Type 0 where
  not_found permission_denied already_exists is_a_directory storage_full invalid_data
        not_a_directory :
      IoError
  other : Text → IoError

-- `other` is an error of the program's own, with its text. `fill` is the writing of the content
-- behind the creation of a file.
pub data FsOp : Type 0 where
  open_read open_write create fill mkdir remove : FsOp

-- `binary` says of a file that its bytes are not UTF-8; what the program writes is. `drawn` counts
-- what was taken from outside: random keys and readings of the clock.
pub record World : Type 0 where
  pub files : FilePath → Option Text
  pub dirs : FilePath → Bool
  pub binary : FilePath → Bool
  pub refuses : FsOp → FilePath → Bool
  pub drawn : ℕ

abbrev pub FsIo : Type 0 → Type 0
FsIo = Io World IoError

abbrev pub put_file : FilePath → Option Text → World → World
put_file p content w = record w {
  files = λ q. if path_eq p q then content else w.files q;
  binary = λ q. if path_eq p q then false else w.binary q;
}

abbrev pub mark_binary : FilePath → Bool → World → World
mark_binary p b w = record w { binary = λ q. if path_eq p q then b else w.binary q }

-- A file that cannot be read as text, if it is there.
abbrev pub unreadable_text : FilePath → World → Bool
unreadable_text p w = w.refuses open_read p || w.binary p

abbrev pub add_dir : FilePath → World → World
add_dir p w = record w { dirs = λ q. path_eq p q || w.dirs q }

-- `Path::exists`.
abbrev pub exists : FilePath → World → Bool
exists p w = is_some (w.files p) || w.dirs p

unfoldable pub read_to_string : FilePath → FsIo Text
read_to_string p w =
    if w.refuses open_read p then (err permission_denied, w) else elim (w.files p) [
      | some content ↦ (if w.binary p then err invalid_data else ok content, w)
      | none ↦ (err (if w.dirs p then is_a_directory else not_found), w)
    ]

-- A write that fails on the way leaves the file empty.
unfoldable pub write : FilePath → Text → FsIo (Unit {0})
write p content w =
    if w.refuses create p
    then (err permission_denied, w)
    else if not (w.dirs (parent p))
    then (err not_found, w)
    else if w.dirs p
    then (err is_a_directory, w)
    else if w.refuses fill p
    then (err storage_full, put_file p (some []) w)
    else (ok tt, put_file p (some content) w)

unfoldable pub remove_file : FilePath → FsIo (Unit {0})
remove_file p w =
    if is_some (w.files p)
    then if w.refuses remove p then (err permission_denied, w) else (ok tt, put_file p none w)
    else (err (if w.dirs p then is_a_directory else not_found), w)

unfoldable pub make_dir : FilePath → FsIo (Unit {0})
make_dir p w = if w.refuses mkdir p then (err permission_denied, w) else (ok tt, add_dir p w)

-- The directories above are made first.
unfoldable pub create_dir_all : FilePath → FsIo (Unit {0})
unfolding make_dir
create_dir_all [] w = (ok tt, w)
create_dir_all (name ∷ p) w =
    let above = create_dir_all p w in
    if w.dirs (name ∷ p)
    then (ok tt, w)
    else if is_some (w.files (name ∷ p))
    then (err already_exists, w)
    else after above (λ _. make_dir (name ∷ p))

-- `File::create`.
unfoldable pub create_file : FilePath → FsIo (Unit {0})
create_file p w =
    if w.refuses create p
    then (err permission_denied, w)
    else if not (w.dirs (parent p))
    then (err not_found, w)
    else if w.dirs p
    then (err is_a_directory, w)
    else (ok tt, put_file p (some []) w)

unfoldable pub read : FilePath → FsIo Text
read p w = if w.refuses open_read p then (err permission_denied, w) else elim (w.files p) [
  | some content ↦ (ok content, w)
  | none ↦ (err (if w.dirs p then is_a_directory else not_found), w)
]

-- `fs::copy`, of the bytes.
unfoldable pub copy : FilePath → FilePath → FsIo (Unit {0})
unfolding read write
copy from to w =
    after (read from w)
      (λ content v. after (write to content v) (λ u x. (ok u, mark_binary to (w.binary from) x)))

-- `OpenOptions::new().write(true).open(…)`.
unfoldable pub open_for_write : FilePath → FsIo (Unit {0})
open_for_write p w =
    if w.refuses open_write p
    then (err permission_denied, w)
    else if is_some (w.files p)
    then (ok tt, w)
    else (err not_found, w)

-- A file cut, or filled up with zeros, to the size.
abbrev pub resize : ℕ → Text → Text
resize size content = take size content ++ replicate (size - length content) 0

unfoldable pub set_len : FilePath → ℕ → FsIo (Unit {0})
set_len p size w = if w.refuses fill p then (err storage_full, w) else elim (w.files p) [
  | none ↦ (err not_found, w)
  | some content ↦ (ok tt, mark_binary p (w.binary p) (put_file p (some (resize size content)) w))
]

-- The path, or one below it.
unfoldable pub is_under : FilePath → FilePath → Bool
is_under p [] = path_eq p []
is_under p (name ∷ q) = let below = is_under p q in path_eq p (name ∷ q) || below

abbrev pub remove_tree : FilePath → World → World
remove_tree p w = record w {
  files = λ q. if is_under p q then none else w.files q;
  dirs = λ q. if is_under p q then false else w.dirs q;
}

unfoldable pub remove_dir_all : FilePath → FsIo (Unit {0})
remove_dir_all p w =
    if w.refuses remove p
    then (err permission_denied, w)
    else if w.dirs p
    then (ok tt, remove_tree p w)
    else (err (if is_some (w.files p) then not_a_directory else not_found), w)
