-- ===== src/Image.antt =====
-- src/image.rs: the check of the disk images, and their making.
pub mod Header
pub mod Verify
pub mod Ensure
pub mod Effects
pub mod Tests
use malleus.Base.{
  ℕ, zero, suc, ◌+◌, ◌-◌, ◌*◌, ◌%◌, ◌^◌, Bool, true, false, not, ◌&&◌, ◌||◌, ◌==◌, leb, ltb, Option,
  none, some, List, [], ◌∷◌, ◌++◌, if◌then◌else◌, length, get_elem?, take, drop, map, is_empty,
  replicate,
}
use malleus.Base.Text.{Text, codes, text_eq, trim, is_some, is_control}
use malleus.Base.FilePath.{FilePath, join_path, display}
use malleus.Base.Result.{Result, ok, err}
use malleus.Base.Io.{Io, pure, fail, check, from_error, ignore, ◌>>=◌, ◌>>◌}
use malleus.Base.Fs.{
  IoError, is_a_directory, not_found, permission_denied, World, FsOp, open_read, exists,
  remove_file, create_dir_all, write, fill, create, put_file, create_file, copy, open_for_write,
  set_len,
}
use malleus.Config.{Config}

pub data ImageError : Type 0 where
  io : IoError → ImageError
  download : Text → ImageError
  unsupported_arch : Text → ImageError
  not_a_disk_image : Text → Text → ImageError

abbrev pub header_len : ℕ
header_len = 520

abbrev pub snippet_len : ℕ
snippet_len = 120

-- `header[i] == b` behind a check of the length.
abbrev pub has_byte : Option ℕ → ℕ → Bool
has_byte none b = false
has_byte (some a) b = a == b

unfoldable pub looks_like_disk_image : List ℕ → Bool
looks_like_disk_image header =
    let has_mbr_signature =
      leb 512 (length header)
      && has_byte (get_elem? header 510) 85
      && has_byte (get_elem? header 511) 170 in
    let has_gpt_header =
      leb header_len (length header) && text_eq (take 8 (drop 512 header)) (codes "EFI PART") in
    has_mbr_signature || has_gpt_header

-- How many bytes of those on offer fit the room; before the end of the file it is at least one.
abbrev pub amount : ℕ → ℕ → ℕ
amount n room = if leb n room then (if n == 0 then 1 else n) else room

-- One `read` into the room that is left: some bytes of the file, or an error. `serve` says at each
-- offset how much the system hands out, which is at least one byte before the end of the file.
unfoldable pub read_some : (ℕ → Result IoError ℕ) → ℕ → ℕ → List ℕ → Result IoError (List ℕ)
read_some serve room offset rest = elim (serve offset) [
  | err e ↦ err e
  | ok n ↦ ok (take (amount n room) rest)
]

abbrev pub prepend_read : List ℕ → Result IoError (List ℕ) → Result IoError (List ℕ)
prepend_read bytes (ok more) = ok (bytes ++ more)
prepend_read bytes (err e) = err e

-- The loop of `read_full`, on fuel: the bytes that fill the room.
unfoldable pub fill_room : (ℕ → Result IoError ℕ) → ℕ → ℕ → ℕ → List ℕ → Result IoError (List ℕ)
unfolding read_some
fill_room serve zero room offset rest = ok []
fill_room serve (suc fuel) room offset rest =
    if room == 0 then ok [] else elim (read_some serve room offset rest) [
      | err e ↦ err e
      | ok bytes ↦
          let n = length bytes in
          let more = fill_room serve fuel (room - n) (offset + n) (drop n rest) in
          if n == 0 then ok [] else prepend_read bytes more
    ]

-- `read_full` of a buffer of the given length, which is fuel enough.
unfoldable pub read_full : (ℕ → Result IoError ℕ) → ℕ → List ℕ → Result IoError (List ℕ)
unfolding fill_room
read_full serve len content = fill_room serve len len 0 content

-- What `curl` leaves behind as its exit status, and the text of that.
pub record ExitStatus : Type 0 where
  pub success : Bool
  pub shown : Text

-- `debian_arch`.
unfoldable pub debian_arch : Text → Result ImageError Text
debian_arch arch =
    if text_eq arch (codes "aarch64")
    then ok (codes "arm64")
    else if text_eq arch (codes "x86_64")
    then ok (codes "amd64")
    else err (unsupported_arch arch)

-- `gib * 1024 * 1024 * 1024` in a `u64`.
abbrev pub size_bytes : ℕ → ℕ
size_bytes gib = (gib * 1024 * 1024 * 1024) % 2 ^ 64

abbrev pub images_url : Text
images_url = codes "https://cloud.debian.org/images/cloud/bookworm/latest/"

abbrev pub image_name : Text → Text
image_name arch = codes "debian-12-genericcloud-" ++ (arch ++ codes ".raw")

-- Parameters: the decoding of `String::from_utf8_lossy`, and how the system serves each file.
module _ (from_utf8_lossy : List ℕ → Text) (serve : FilePath → ℕ → Result IoError ℕ) where
  unfoldable pub describe_header : List ℕ → Text
  describe_header header =
      trim
        (take snippet_len (map (λ ch. if is_control ch then 32 else ch) (from_utf8_lossy header)))

  -- `File::open` and `read_full` on the file.
  unfoldable pub open_header : FilePath → Io World IoError (List ℕ)
  unfolding read_full
  open_header path w =
      if w.refuses open_read path then (err permission_denied, w) else elim (w.files path) [
        | none ↦ (err (if w.dirs path then is_a_directory else not_found), w)
        | some content ↦ (read_full (serve path) header_len content, w)
      ]

  unfoldable pub verify_header : FilePath → List ℕ → Io World ImageError (Unit {0})
  verify_header path header = if looks_like_disk_image header then pure tt else (do
    from_error io (remove_file path)
    fail (not_a_disk_image (display path) (describe_header header)))

  unfoldable pub verify_disk_image : FilePath → Io World ImageError (Unit {0})
  unfolding open_header verify_header
  verify_disk_image path = do header ← from_error io (open_header path); verify_header path header

  -- The call of `curl`, a program outside, which may do anything to the world.
  module _ (curl : List Text → Io World IoError ExitStatus) where
    unfoldable pub check_download : FilePath → Text → ExitStatus → Io World ImageError (Unit {0})
    check_download path url status = if status.success then pure tt else (do
      ignore {F = ImageError} (remove_file path)
      fail
          (download (codes "curl exited with status " ++ (status.shown ++ (codes " for " ++ url)))))

    unfoldable pub fetch : FilePath → Text → Io World ImageError (Unit {0})
    unfolding check_download
    fetch path url w =
        if exists path w
        then (ok tt, w)
        else (do
          status ←
              from_error io
                (curl (codes "--fail" ∷ codes "-L" ∷ codes "-o" ∷ display path ∷ url ∷ []))
          check_download path url status)
            w

    unfoldable pub make_root : FilePath → FilePath → ℕ → Io World ImageError (Unit {0})
    make_root base root gib w =
        if exists root w
        then (ok tt, w)
        else (do
          from_error io (copy base root)
          from_error io (open_for_write root)
          from_error io (set_len root (size_bytes gib)))
            w

    unfoldable pub make_pool : FilePath → ℕ → Io World ImageError (Unit {0})
    make_pool pool gib w =
        if exists pool w
        then (ok tt, w)
        else (do from_error io (create_file pool); from_error io (set_len pool (size_bytes gib))) w

    -- `arch` is `std::env::consts::ARCH`.
    unfoldable pub ensure_images : Text → FilePath → Config → Io World ImageError (Unit {0})
    unfolding debian_arch fetch verify_disk_image make_root make_pool
    ensure_images arch state_dir cfg = do
      from_error io (create_dir_all (join_path state_dir (codes "images")))
      name ← check (debian_arch arch)
      fetch (join_path (join_path state_dir (codes "images")) (image_name name))
          (images_url ++ image_name name)
      verify_disk_image (join_path (join_path state_dir (codes "images")) (image_name name))
      make_root (join_path (join_path state_dir (codes "images")) (image_name name))
          (join_path state_dir (codes "root.raw")) cfg.root_disk_gib
      verify_disk_image (join_path state_dir (codes "root.raw"))
      make_pool (join_path state_dir (codes "pool.raw")) cfg.pool_disk_gib
