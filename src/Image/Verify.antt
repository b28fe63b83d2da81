-- ===== src/Image/Verify.antt =====
-- `verify_disk_image`.
use malleus.Base.{
  ℕ, ◌≡◌, refl, sym, ap, ◌∙◌, true, false, none, some, List, if◌then◌else◌, take, arith, Bool-cases,
  Option-cases, inl, inr,
}
use malleus.Base.Text.{Text}
use malleus.Base.FilePath.{FilePath, display}
use malleus.Base.Result.{Result, ok, err}
use malleus.Base.Io.{fail, after, after_inv, convert, convert_inv}
use malleus.Base.Fs.{IoError, World, open_read, remove, remove_file, put_file}
use malleus.Base.Fs.Laws.{remove_file_allowed}
use malleus.Image.{
  io, not_a_disk_image, header_len, looks_like_disk_image, read_full, describe_header, open_header,
  verify_header, verify_disk_image,
}
use malleus.Image.Header.{read_full-take, read_full_ok}

-- The file begins like a disk image.
pub record HasImage (p : FilePath) (w : World) : Type 0 where
  pub content : Text
  pub there : w.files p ≡ some content
  pub image : looks_like_disk_image (take header_len content) ≡ true

module _ (from_utf8_lossy : List ℕ → Text) where
  module _ (serve : FilePath → ℕ → Result IoError ℕ) where
    open_header_inv :
        (p : FilePath) (w v : World) (header : List ℕ)
        → open_header from_utf8_lossy serve p w ≡ (ok header, v)
        → (content : Text) × (w.files p ≡ some content)
          × (header ≡ take header_len content)
          × (v ≡ w)
    unfolding open_header
    open_header_inv p w v header h = elim (Bool-cases (w.refuses open_read p)) [
      | inl refused ↦ ground arith
      | inr allowed ↦ elim (Option-cases (w.files p)) [
        | inl e ↦ ground arith
        | inr (content, e) ↦
            let step : open_header from_utf8_lossy serve p w
                ≡ (read_full (serve p) header_len content, w) =
              rw (allowed, e) refl in
            let same = sym step ∙ h in
            (
              content,
              e,
              read_full_ok (serve p) header_len content header (ap (λ r. r.0) same),
              sym (ap (λ r. r.1) same),
            )
      ]
    ]

    verify_header_inv :
        (p : FilePath) (header : List ℕ) (w v : World) (u : Unit {0})
        → verify_header from_utf8_lossy serve p header w ≡ (ok u, v)
        → (looks_like_disk_image header ≡ true) × (v ≡ w)
    unfolding verify_header
    verify_header_inv p header w v u h = elim (Bool-cases (looks_like_disk_image header)) [
      | inl looks ↦
          let step : verify_header from_utf8_lossy serve p header w ≡ (ok tt, w) = rw looks refl in
          (looks, sym (ap (λ r. r.1) (sym step ∙ h)))
      | inr looks_not ↦
          let quoted =
            fail (not_a_disk_image (display p) (describe_header from_utf8_lossy serve header)) in
          let step : verify_header from_utf8_lossy serve p header w
              ≡ after (convert io (remove_file p w)) (λ _. quoted) =
            rw looks_not refl in
          let (_, w1, e, h1) =
            after_inv (convert io (remove_file p w)) (λ _. quoted) v (sym step ∙ h) in
          cc
    ]

    -- A file that passes the check begins like a disk image, and stays as it is.
    pub verify_disk_image-HasImage :
        (p : FilePath) (w v : World) (u : Unit {0})
        → verify_disk_image from_utf8_lossy serve p w ≡ (ok u, v)
        → HasImage p w × (v ≡ w)
    unfolding verify_disk_image
    verify_disk_image-HasImage p w v u h =
        let (header, w1, e, h1) =
          after_inv (convert io (open_header from_utf8_lossy serve p w)) _ v h in
        let (content, there, d, same) = open_header_inv p w w1 header (convert_inv io _ w1 e) in
        let (looks, kept) = verify_header_inv p header w1 v u h1 in
        (
          record {
            content = content;
            there = there;
            image = ap looks_like_disk_image (sym d) ∙ looks;
          },
          kept ∙ same,
        )

  -- A file that can be read is kept if it begins like a disk image; if not, it is removed, and
  -- the error names it and quotes its beginning. However the system cuts the file into reads.
  pub verify_disk_image_exact :
      (give : ℕ → ℕ) (p : FilePath) (content : Text) (w : World)
      → w.files p ≡ some content
      → w.refuses open_read p ≡ false
      → w.refuses remove p ≡ false
      → verify_disk_image from_utf8_lossy (λ _ k. ok (give k)) p w ≡ (
          if looks_like_disk_image (take header_len content) then (ok tt, w) else (
            err (
                not_a_disk_image
                  (display p)
                  (describe_header from_utf8_lossy (λ _ k. ok (give k)) (take header_len content))),
            put_file p none w,
          ))
  unfolding verify_disk_image open_header verify_header
  verify_disk_image_exact give p content w there readable removable =
      rw (readable, there, read_full-take give header_len content)
        (elim (Bool-cases (looks_like_disk_image (take header_len content))) [
          | inl looks ↦ rw looks refl
          | inr looks_not ↦ rw (looks_not, remove_file_allowed p w content there removable) refl
        ])
