-- ===== src/Image/Effects.antt =====
-- `ensure_images`: which files it changes.
use malleus.Base.{ℕ, ◌≡◌, refl, ap, ◌∙◌, false, List, Bool-cases, Option-cases, inl, inr}
use malleus.Base.Text.{Text, codes}
use malleus.Base.FilePath.{FilePath, path_eq, join_path}
use malleus.Base.Result.{Result}
use malleus.Base.Io.{Io, after-keeps, called-keeps, check}
use malleus.Base.Fs.{IoError, World, exists, remove_file, create_dir_all, open_read}
use malleus.Base.Fs.Laws.{remove_file-elsewhere, create_dir_all-files}
use malleus.Config.{Config}
use malleus.Image.{
  io, debian_arch, looks_like_disk_image, ExitStatus, open_header, verify_header, verify_disk_image,
  check_download, fetch, make_root, ensure_images,
}
use malleus.Image.Ensure.{base_image, make_root-Kept, make_pool-Kept}

module _ (from_utf8_lossy : List ℕ → Text) (serve : FilePath → ℕ → Result IoError ℕ)
    (curl : List Text → Io World IoError ExitStatus) (p : FilePath) (w : World)
    (curl_keeps : (args : List Text) (v : World) → (curl args v).1.files p ≡ v.files p) where
  abbrev Kept : World → Type 0
  Kept v = v.files p ≡ w.files p

  open_header-world :
      (path : FilePath) (v : World) → (open_header from_utf8_lossy serve path v).1 ≡ v
  unfolding open_header
  open_header-world path v = elim (Bool-cases (v.refuses open_read path)) [
    | inl refused ↦ rw refused refl
    | inr allowed ↦ elim (Option-cases (v.files path)) [
      | inl gone ↦ rw (allowed, gone) refl
      | inr (content, there) ↦ rw (allowed, there) refl
    ]
  ]

  verify_header-keeps :
      (path : FilePath) (header : List ℕ) (v : World)
      → path_eq path p ≡ false
      → Kept v
      → Kept (verify_header from_utf8_lossy serve path header v).1
  unfolding verify_header
  verify_header-keeps path header v h k = elim (Bool-cases (looks_like_disk_image header)) [
    | inl image ↦ rw image k
    | inr other ↦ rw other (
        called-keeps Kept io (remove_file path v) _ (remove_file-elsewhere path p v h ∙ k)
          (λ _ u l. l))
  ]

  verify_disk_image-keeps :
      (path : FilePath) (v : World)
      → path_eq path p ≡ false
      → Kept v
      → Kept (verify_disk_image from_utf8_lossy serve path v).1
  unfolding verify_disk_image
  verify_disk_image-keeps path v h k =
      called-keeps Kept io (open_header from_utf8_lossy serve path v) _
        (ap (λ s. s.files p) (open_header-world path v) ∙ k)
        (λ header u l. verify_header-keeps path header u h l)

  check_download-keeps :
      (path : FilePath) (url : Text) (status : ExitStatus) (v : World)
      → path_eq path p ≡ false
      → Kept v
      → Kept (check_download from_utf8_lossy serve curl path url status v).1
  unfolding check_download
  check_download-keeps path url status v h k = elim (Bool-cases status.success) [
    | inl success ↦ rw success k
    | inr failed ↦ rw failed (remove_file-elsewhere path p v h ∙ k)
  ]

  fetch-keeps :
      (path : FilePath) (url : Text) (v : World)
      → path_eq path p ≡ false
      → Kept v
      → Kept (fetch from_utf8_lossy serve curl path url v).1
  unfolding fetch
  fetch-keeps path url v h k = elim (Bool-cases (exists path v)) [
    | inl there ↦ rw there k
    | inr new ↦ rw new (
        called-keeps Kept io (curl _ v) _ (curl_keeps _ v ∙ k)
          (λ status u l. check_download-keeps path url status u h l))
  ]

  -- Making the images changes no other file than the base image, the root disk and the pool disk,
  -- whether it succeeds or fails, if `curl` does not.
  pub ensure_images-elsewhere :
      (arch : Text) (state_dir : FilePath) (cfg : Config)
      → ((name : Text) → path_eq (base_image state_dir name) p ≡ false)
      → path_eq (join_path state_dir (codes "root.raw")) p ≡ false
      → path_eq (join_path state_dir (codes "pool.raw")) p ≡ false
      → (ensure_images from_utf8_lossy serve curl arch state_dir cfg w).1.files p ≡ w.files p
  unfolding ensure_images
  ensure_images-elsewhere arch state_dir cfg base root pool =
      called-keeps Kept io (create_dir_all (join_path state_dir (codes "images")) w) _
        (ap (λ files. files p) (create_dir_all-files (join_path state_dir (codes "images")) w))
        (λ _ w1 k1. after-keeps Kept (check (debian_arch arch) w1) _ k1 (λ name w2 k2.
          after-keeps Kept (fetch from_utf8_lossy serve curl _ _ w2) _
            (fetch-keeps _ _ w2 (base name) k2)
            (λ _ w3 k3.
              after-keeps Kept (verify_disk_image from_utf8_lossy serve _ w3) _
                (verify_disk_image-keeps _ w3 (base name) k3)
                (λ _ w4 k4.
                  after-keeps Kept (make_root from_utf8_lossy serve curl _ _ cfg.root_disk_gib w4) _
                    (make_root-Kept from_utf8_lossy serve curl _ _ p cfg.root_disk_gib w4 root ∙ k4)
                    (λ _ w5 k5.
                      after-keeps Kept (verify_disk_image from_utf8_lossy serve _ w5) _
                        (verify_disk_image-keeps _ w5 root k5)
                        (λ _ w6 k6.
                          make_pool-Kept from_utf8_lossy serve curl _ p cfg.pool_disk_gib w6 pool
                          ∙ k6))))))
