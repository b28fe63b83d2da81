-- ===== src/Pki/Load.antt =====
-- `load_or_create` where some of the four files are there.
use malleus.Base.{
  ◌≤◌, ◌≡◌, refl, ap, ◌∙◌, Bool, true, false, ◌==◌, none, some, List, [], ◌∷◌, arith, Bool-cases,
  inl, inr, length, keep, any, all,
}
use malleus.Base.FilePath.{FilePath, parent}
use malleus.Base.Result.{Result, ok, err}
use malleus.Base.Io.{Io, after, convert, after-keeps, convert-keeps}
use malleus.Base.Fs.{World, read_to_string}
use malleus.Base.Fs.Laws.{read_to_string-world}
use malleus.Pki.Certificate.{PkiError, io, incomplete_material, Certificates}
use malleus.Pki.{
  PkiMaterial, PkiPaths, pki_paths, existing, read_identity, load, maybe_load, load_or_create,
  return_or, create_material,
}

abbrev pub holds : Bool → Bool
holds b = b

-- One of the four files is there.
abbrev pub some_present : FilePath → World → Bool
some_present dir w = any holds (existing (pki_paths dir) w)

abbrev pub all_present : FilePath → World → Bool
all_present dir w = all holds (existing (pki_paths dir) w)

keep-le : (bs : List Bool) → length (keep holds bs) ≤ length bs
keep-le [] = omega arith
keep-le (b ∷ bs) = ground (arith, keep-le bs)

count_some : (bs : List Bool) → any holds bs ≡ true → (length (keep holds bs) == 0) ≡ false
count_some [] h = cc
count_some (b ∷ bs) h = ground (arith, count_some bs)

count_missing :
    (bs : List Bool) → all holds bs ≡ false → (length (keep holds bs) == length bs) ≡ false
count_missing [] h = cc
count_missing (b ∷ bs) h = ground (arith, count_missing bs, keep-le bs)

pub count_all : (bs : List Bool) → all holds bs ≡ true → keep holds bs ≡ bs
count_all [] h = refl
count_all (b ∷ bs) h = ground (arith, count_all bs)

pub count_none : (bs : List Bool) → any holds bs ≡ false → keep holds bs ≡ []
count_none [] h = refl
count_none (b ∷ bs) h = ground (arith, count_none bs)

maybe_load_incomplete :
    (paths : PkiPaths) (w : World)
    → any holds (existing paths w) ≡ true
    → all holds (existing paths w) ≡ false
    → maybe_load paths w ≡ (err (incomplete_material (parent paths.client_cert)), w)
unfolding maybe_load
maybe_load_incomplete paths w h k = rw (count_some _ h, count_missing _ k)

maybe_load_complete :
    (paths : PkiPaths) (w : World)
    → all holds (existing paths w) ≡ true
    → maybe_load paths w ≡ after (load paths w) (λ material v. (ok (some material), v))
unfolding maybe_load existing
maybe_load_complete paths w h = rw (count_all (existing paths w) h)

maybe_load-none :
    (paths : PkiPaths) (w : World)
    → any holds (existing paths w) ≡ false
    → maybe_load paths w ≡ (ok none, w)
unfolding maybe_load
maybe_load-none paths w h = rw (count_none (existing paths w) h)

module _ (w : World) where
  abbrev Same : World → Type 0
  Same v = v ≡ w

  read_step : (p : FilePath) (v : World) → Same v → Same (convert io (read_to_string p v)).1
  read_step p v h = convert-keeps Same io (read_to_string p v) (read_to_string-world p v ∙ h)

  read_identity-Same : (c k : FilePath) (v : World) → Same v → Same (read_identity c k v).1
  unfolding read_identity
  read_identity-Same c k v h =
      after-keeps Same (convert io (read_to_string c v)) _ (read_step c v h) (λ cert u e.
        after-keeps Same (convert io (read_to_string k u)) _ (read_step k u e) (λ key t d. d))

  load-Same : (paths : PkiPaths) (v : World) → Same v → Same (load paths v).1
  unfolding load
  load-Same paths v h =
      after-keeps Same (read_identity paths.client_cert paths.client_key v) _
        (read_identity-Same _ _ v h)
        (λ client u e.
          after-keeps Same (read_identity paths.server_cert paths.server_key u) _
            (read_identity-Same _ _ u e) (λ server t d. d))

pub load-world : (paths : PkiPaths) (w : World) → (load paths w).1 ≡ w
load-world paths w = load-Same w paths w refl

module _ (lib : Certificates) where
  returned :
      (r : Result PkiError PkiMaterial × World) (create : Io World PkiError PkiMaterial)
      → after (after r (λ material v. (ok (some material), v))) (return_or lib create) ≡ r
  returned (ok material, v) create = refl
  returned (err e, v) create = refl

  pub load_or_create_complete :
      (dir : FilePath) (w : World)
      → all_present dir w ≡ true
      → load_or_create lib dir w ≡ load (pki_paths dir) w
  unfolding load_or_create
  load_or_create_complete dir w h =
      ap (λ r. after r (return_or lib (create_material lib dir)))
        (maybe_load_complete (pki_paths dir) w h)
      ∙ returned (load (pki_paths dir) w) (create_material lib dir)

  pub load_or_create_none :
      (dir : FilePath) (w : World)
      → some_present dir w ≡ false
      → load_or_create lib dir w ≡ create_material lib dir w
  unfolding load_or_create
  load_or_create_none dir w h =
      ap (λ r. after r (return_or lib (create_material lib dir)))
        (maybe_load-none (pki_paths dir) w h)

  -- If some but not all of the four files are there, the run fails with the directory they are
  -- missing from, and changes nothing.
  pub load_or_create_incomplete :
      (dir : FilePath) (w : World)
      → some_present dir w ≡ true
      → all_present dir w ≡ false
      → load_or_create lib dir w ≡ (err (incomplete_material dir), w)
  unfolding load_or_create pki_paths
  load_or_create_incomplete dir w h k =
      ap (λ r. after r (return_or lib (create_material lib dir)))
        (maybe_load_incomplete (pki_paths dir) w h k)

  -- A run that finds one of the four files changes nothing, whatever it returns.
  pub load_or_create_untouched :
      (dir : FilePath) (w : World) → some_present dir w ≡ true → (load_or_create lib dir w).1 ≡ w
  unfolding load_or_create
  load_or_create_untouched dir w h = elim (Bool-cases (all_present dir w)) [
    | inl all ↦ ap (λ r. r.1) (load_or_create_complete dir w all) ∙ load-world (pki_paths dir) w
    | inr missing ↦ ap (λ r. r.1) (load_or_create_incomplete dir w h missing)
  ]
