-- ===== src/Image/Ensure.antt =====
-- `ensure_images`: what its success guarantees, and what a failed download leaves.
use malleus.Base.{
  ℕ, ◌≡◌, refl, sym, ap, ◌∙◌, true, false, none, List, [], ◌∷◌, ◌++◌, Bool-cases, inl, inr,
}
use malleus.Base.Text.{Text, codes}
use malleus.Base.FilePath.{FilePath, display, path_eq, join_path}
use malleus.Base.Result.{Result, ok, err}
use malleus.Base.Io.{Io, after, after_inv, convert, convert_inv, after-keeps, convert-keeps, check}
use malleus.Base.Fs.{
  IoError, World, remove, exists, copy, open_for_write, set_len, create_file, create_dir_all,
}
use malleus.Base.Fs.Laws.{
  copy-elsewhere, open_for_write-world, set_len-elsewhere, set_len_inv, create_file-elsewhere,
  path_eq_refl, remove_file-none,
}
use malleus.Config.{Config}
use malleus.Image.{
  ImageError, io, download, debian_arch, size_bytes, images_url, image_name, ExitStatus,
  check_download, fetch, make_root, make_pool, ensure_images, verify_disk_image,
}
use malleus.Image.Verify.{HasImage, verify_disk_image-HasImage}

module _ (p : FilePath) (w : World) where
  abbrev Kept : World → Type 0
  Kept v = v.files p ≡ w.files p

  sized-Kept :
      (q : FilePath) (size : ℕ) (v : World)
      → path_eq q p ≡ false
      → Kept v
      → Kept (convert io (set_len q size v)).1
  sized-Kept q size v h k =
      convert-keeps Kept io (set_len q size v) (set_len-elsewhere q p size v h ∙ k)

pub HasImage_kept :
    (p : FilePath) (w v : World) → v.files p ≡ w.files p → HasImage p w → HasImage p v
HasImage_kept p w v e h = record { content = h.content; there = e ∙ h.there; image = h.image }

abbrev pub base_image : FilePath → Text → FilePath
base_image state_dir name = join_path (join_path state_dir (codes "images")) (image_name name)

module _ (from_utf8_lossy : List ℕ → Text) (serve : FilePath → ℕ → Result IoError ℕ)
    (curl : List Text → Io World IoError ExitStatus) where
  pub make_root-Kept :
      (base root p : FilePath) (gib : ℕ) (w : World)
      → path_eq root p ≡ false
      → Kept p w (make_root from_utf8_lossy serve curl base root gib w).1
  unfolding make_root
  make_root-Kept base root p gib w h = elim (Bool-cases (exists root w)) [
    | inl there ↦ rw there refl
    | inr new ↦ rw new (
        after-keeps (Kept p w) (convert io (copy base root w)) _
          (convert-keeps (Kept p w) io (copy base root w) (copy-elsewhere base root p w h))
          (λ _ v k.
            after-keeps (Kept p w) (convert io (open_for_write root v)) _
              (convert-keeps (Kept p w) io (open_for_write root v)
                (ap (λ s. s.files p) (open_for_write-world root v) ∙ k))
              (λ _ u l. sized-Kept p w root (size_bytes gib) u h l)))
  ]

  pub make_pool-Kept :
      (pool p : FilePath) (gib : ℕ) (w : World)
      → path_eq pool p ≡ false
      → Kept p w (make_pool from_utf8_lossy serve curl pool gib w).1
  unfolding make_pool
  make_pool-Kept pool p gib w h = elim (Bool-cases (exists pool w)) [
    | inl there ↦ rw there refl
    | inr new ↦ rw new (
        after-keeps (Kept p w) (convert io (create_file pool w)) _
          (convert-keeps (Kept p w) io (create_file pool w) (create_file-elsewhere pool p w h))
          (λ _ v k. sized-Kept p w pool (size_bytes gib) v h k))
  ]

  make_pool-exists :
      (pool : FilePath) (gib : ℕ) (w v : World) (u : Unit {0})
      → make_pool from_utf8_lossy serve curl pool gib w ≡ (ok u, v)
      → exists pool v ≡ true
  unfolding make_pool
  make_pool-exists pool gib w v u h = elim (Bool-cases (exists pool w)) [
    | inl there ↦
        let step : make_pool from_utf8_lossy serve curl pool gib w ≡ (ok tt, w) = rw there refl in
        ap (exists pool) (sym (ap (λ r. r.1) (sym step ∙ h))) ∙ there
    | inr new ↦
        let sized : Io World ImageError (Unit {0}) =
          λ s. convert io (set_len pool (size_bytes gib) s) in
        let step : make_pool from_utf8_lossy serve curl pool gib w
            ≡ after (convert io (create_file pool w)) (λ _. sized) =
          rw new refl in
        let (_, w1, e1, h1) =
          after_inv (convert io (create_file pool w)) (λ _. sized) v (sym step ∙ h) in
        let (content, _, e) = set_len_inv pool (size_bytes gib) w1 v u (convert_inv io _ v h1) in
        ap (exists pool) e ∙ rw (path_eq_refl pool) refl
  ]

  -- What the start of the machine relies on.
  pub record IsEnsured (name : Text) (state_dir : FilePath) (v : World) : Type 0 where
    pub base : HasImage (base_image state_dir name) v
    pub root : HasImage (join_path state_dir (codes "root.raw")) v
    pub pool : exists (join_path state_dir (codes "pool.raw")) v ≡ true

  -- Whatever `curl` did, a run that succeeds leaves a base image and a root disk that begin like
  -- disk images, and a pool disk; the machine is a known one.
  pub ensure_images-IsEnsured :
      (arch : Text) (state_dir : FilePath) (cfg : Config) (w v : World) (u : Unit {0})
      → ensure_images from_utf8_lossy serve curl arch state_dir cfg w ≡ (ok u, v)
      → (name : Text) × (debian_arch arch ≡ ok name) × IsEnsured name state_dir v
  unfolding ensure_images
  ensure_images-IsEnsured arch state_dir cfg w v u h =
      let root = join_path state_dir (codes "root.raw") in
      let pool = join_path state_dir (codes "pool.raw") in
      let (_, w1, e1, h1) =
        after_inv (convert io (create_dir_all (join_path state_dir (codes "images")) w)) _ v h in
      let (name, w2, e2, h2) = after_inv (check (debian_arch arch) w1) _ v h1 in
      let base = base_image state_dir name in
      let (_, w3, e3, h3) =
        after_inv (fetch from_utf8_lossy serve curl base (images_url ++ image_name name) w2) _ v
          h2 in
      let (u4, w4, e4, h4) = after_inv (verify_disk_image from_utf8_lossy serve base w3) _ v h3 in
      let (_, w5, e5, h5) =
        after_inv (make_root from_utf8_lossy serve curl base root cfg.root_disk_gib w4) _ v h4 in
      let (u6, w6, e6, h6) = after_inv (verify_disk_image from_utf8_lossy serve root w5) _ v h5 in
      let (base_image, same4) = verify_disk_image-HasImage from_utf8_lossy serve base w3 w4 u4 e4 in
      let (root_image, same6) = verify_disk_image-HasImage from_utf8_lossy serve root w5 w6 u6 e6 in
      let rooted : w5.files base ≡ w4.files base =
        ap (λ r. r.1.files base) (sym e5)
        ∙ make_root-Kept base root base cfg.root_disk_gib w4 refl in
      let pooled : (p : FilePath) → path_eq pool p ≡ false → v.files p ≡ w6.files p =
        λ p k. ap (λ r. r.1.files p) (sym h6) ∙ make_pool-Kept pool p cfg.pool_disk_gib w6 k in
      (
        name,
        ap (λ r. r.0) e2,
        record {
          base =
              HasImage_kept base w3 v
                (pooled base refl
                  ∙ ap (λ s. s.files base) same6
                  ∙ rooted
                  ∙ ap (λ s. s.files base) same4)
                base_image;
          root =
              HasImage_kept root w5 v (pooled root refl ∙ ap (λ s. s.files root) same6) root_image;
          pool = make_pool-exists pool cfg.pool_disk_gib w6 v u h6;
        },
      )

  -- If `curl` fails, the file that it was to write is gone behind it, as far as the system lets
  -- files be removed, and the error names the status and the address.
  pub fetch_failed :
      (path : FilePath) (url : Text) (w v : World) (status : ExitStatus)
      → exists path w ≡ false
      → curl (codes "--fail" ∷ codes "-L" ∷ codes "-o" ∷ display path ∷ url ∷ []) w ≡ (ok status, v)
      → status.success ≡ false
      → v.refuses remove path ≡ false
      → ((fetch from_utf8_lossy serve curl path url w).0
          ≡ err (
              download
                (codes "curl exited with status " ++ (status.shown ++ (codes " for " ++ url)))))
        × ((fetch from_utf8_lossy serve curl path url w).1.files path ≡ none)
  unfolding fetch check_download
  fetch_failed path url w v status new ran failed removable =
      rw (new, ran) (rw failed (refl, remove_file-none path v removable))
