-- ===== src/Image/Tests.antt =====
-- Images and downloads at small inputs, and the theorems at them.
use malleus.Base.{
  ℕ, ◌≡◌, refl, true, false, ◌||◌, none, some, List, [], ◌∷◌, ◌++◌, if◌then◌else◌, replicate, take,
}
use malleus.Base.Text.{Text, codes}
use malleus.Base.FilePath.{FilePath, path_eq, display}
use malleus.Base.Result.{Result, ok, err}
use malleus.Base.Io.{Io}
use malleus.Base.Fs.{put_file, IoError, World, create_dir_all, make_dir}
use malleus.Config.{default}
use malleus.Image.{
  not_a_disk_image, download, debian_arch, looks_like_disk_image, read_some, fill_room, read_full,
  describe_header, open_header, verify_header, verify_disk_image, ExitStatus, fetch, make_root,
  make_pool, ensure_images,
}
use malleus.Image.Header.{read_full-take, IsSnippet, describe_header-IsSnippet}
use malleus.Image.Verify.{verify_disk_image_exact}
use malleus.Image.Ensure.{IsEnsured, ensure_images-IsEnsured, fetch_failed}

-- Reads of a hundred bytes, of a text in ASCII.
abbrev give : ℕ → ℕ
give _ = 100

abbrev serve : FilePath → ℕ → Result IoError ℕ
serve _ k = ok (give k)

abbrev ascii : List ℕ → Text
ascii bytes = bytes

abbrev pub gpt_disk : List ℕ
gpt_disk = replicate 512 0 ++ codes "EFI PART and more"

abbrev html : List ℕ
html = codes "<html>404 Not Found\n"

gpt_header_is_recognised : looks_like_disk_image (take 520 gpt_disk) ≡ true
unfolding looks_like_disk_image
gpt_header_is_recognised = refl

html_is_not_recognised : looks_like_disk_image (take 520 html) ≡ false
unfolding looks_like_disk_image
html_is_not_recognised = refl

read_full-take_example : read_full (λ k. ok (give k)) 520 gpt_disk ≡ ok (take 520 gpt_disk)
read_full-take_example = read_full-take give 520 gpt_disk

describe_header-IsSnippet_example : IsSnippet (describe_header ascii serve html)
describe_header-IsSnippet_example = describe_header-IsSnippet ascii serve html

abbrev state_dir : FilePath
state_dir = codes "/s" ∷ []

abbrev base : FilePath
base = codes "debian-12-genericcloud-arm64.raw" ∷ codes "images" ∷ state_dir

-- The three files are there, with the given base image.
abbrev stored : List ℕ → World
stored image = record {
  files = λ p.
      if path_eq p base
      then some image
      else if path_eq p (codes "root.raw" ∷ state_dir)
      then some gpt_disk
      else if path_eq p (codes "pool.raw" ∷ state_dir)
      then some []
      else none;
  dirs = λ p. path_eq p (codes "images" ∷ state_dir) || path_eq p state_dir;
  binary = λ _. false;
  refuses = λ _ _. false;
  drawn = 0;
}

abbrev stored_empty : World
stored_empty = record (stored html) { files = λ _. none }

base_passes : verify_disk_image ascii serve base (stored gpt_disk) ≡ (ok tt, stored gpt_disk)
unfolding verify_disk_image open_header verify_header read_full fill_room read_some
    looks_like_disk_image
base_passes = refl

verify_disk_image_exact_example : verify_disk_image ascii serve base (stored html) ≡ (
    if looks_like_disk_image (take 520 html) then (ok tt, stored html) else (
      err (not_a_disk_image (display base) (describe_header ascii serve (take 520 html))),
      put_file base none (stored html),
    ))
verify_disk_image_exact_example =
    verify_disk_image_exact ascii give base html (stored html) refl refl refl

abbrev not_found_status : ExitStatus
not_found_status = record { success = false; shown = codes "exit status: 22" }

-- A download of a page that is not there.
abbrev failing_curl : List Text → Io World IoError ExitStatus
failing_curl args w = (ok not_found_status, w)

all_there :
    ensure_images ascii serve failing_curl (codes "aarch64") state_dir default (stored gpt_disk)
    ≡ (ok tt, stored gpt_disk)
unfolding ensure_images create_dir_all make_dir debian_arch fetch make_root make_pool
    verify_disk_image open_header verify_header read_full fill_room read_some looks_like_disk_image
all_there = refl

ensure_images-IsEnsured_example :
    (name : Text) × (debian_arch (codes "aarch64") ≡ ok name)
    × IsEnsured ascii serve failing_curl name state_dir (stored gpt_disk)
ensure_images-IsEnsured_example =
    ensure_images-IsEnsured ascii serve failing_curl (codes "aarch64") state_dir default
      (stored gpt_disk) (stored gpt_disk) tt all_there

fetch_failed_example :
    ((fetch ascii serve failing_curl base (codes "https://x") stored_empty).0
      ≡ err (download (codes "curl exited with status exit status: 22 for https://x")))
    × ((fetch ascii serve failing_curl base (codes "https://x") stored_empty).1.files base ≡ none)
fetch_failed_example =
    fetch_failed ascii serve failing_curl base (codes "https://x") stored_empty stored_empty
      not_found_status refl refl refl refl
