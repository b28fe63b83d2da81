-- ===== src/Pki/Effects.antt =====
-- What a run of `load_or_create` leaves as it is, and when it succeeds.
use malleus.Base.{
  Bool, ℕ, suc, ◌≡◌, refl, ap, ◌∙◌, true, false, Option, some, ◌∷◌, Bool-cases, inl, inr,
}
use malleus.Base.Text.{Text, codes}
use malleus.Base.FilePath.{FilePath, path_eq}
use malleus.Base.Result.{Result, ok}
use malleus.Base.Io.{convert, after-keeps, convert-keeps}
use malleus.Base.Fs.{World, create, fill, write, create_dir_all, put_file}
use malleus.Base.Fs.Laws.{write-elsewhere, write_allowed, create_dir_all-files}
use malleus.Pki.Certificate.{IdentityMaterial, PkiError, io, Certificates, certify}
use malleus.Pki.{pki_paths, load_or_create, create_material, generate_identity, write_identity}
use malleus.Pki.Load.{some_present, load_or_create_none}
use malleus.Pki.Load.{load_or_create_untouched}
use malleus.Pki.Create.{stored}

-- The path is none of the four.
pub record IsElsewhere (dir p : FilePath) : Type 0 where
  pub client_cert : path_eq (pki_paths dir).client_cert p ≡ false
  pub client_key : path_eq (pki_paths dir).client_key p ≡ false
  pub server_cert : path_eq (pki_paths dir).server_cert p ≡ false
  pub server_key : path_eq (pki_paths dir).server_key p ≡ false

module _ (p : FilePath) (w : World) where
  -- The file is as it was.
  abbrev Kept : World → Type 0
  Kept v = v.files p ≡ w.files p

  write-Kept :
      (q : FilePath) (t : Text) (v : World)
      → path_eq q p ≡ false
      → Kept v
      → Kept (convert io (write q t v)).1
  write-Kept q t v h k = convert-keeps Kept io (write q t v) (write-elsewhere q p t v h ∙ k)

  write_identity-Kept :
      (c k : FilePath) (m : IdentityMaterial) (v : World)
      → path_eq c p ≡ false
      → path_eq k p ≡ false
      → Kept v
      → Kept (write_identity c k m v).1
  unfolding write_identity
  write_identity-Kept c k m v hc hk h =
      after-keeps Kept (convert io (write c m.cert_pem v)) _ (write-Kept c m.cert_pem v hc h)
        (λ _ u e.
          after-keeps Kept (convert io (write k m.key_pem u)) _ (write-Kept k m.key_pem u hk e)
            (λ _ t d. d))

  create_material-Kept :
      (lib : Certificates) (dir : FilePath) (v : World)
      → IsElsewhere dir p
      → Kept v
      → Kept (create_material lib dir v).1
  unfolding create_material generate_identity
  create_material-Kept lib dir v e h =
      let paths = pki_paths dir in
      after-keeps Kept (convert io (create_dir_all dir v)) _
        (convert-keeps Kept io (create_dir_all dir v)
          (ap (λ f. f p) (create_dir_all-files dir v) ∙ h))
        (λ _ v1 h1.
          after-keeps Kept (generate_identity lib (codes "malleus-client") 1 v1) _ h1
            (λ client v2 h2.
              after-keeps Kept (generate_identity lib (codes "malleus-server") 2 v2) _ h2
                (λ server v3 h3.
                  after-keeps Kept (write_identity paths.client_cert paths.client_key client v3) _
                    (write_identity-Kept _ _ client v3 e.client_cert e.client_key h3)
                    (λ _ v4 h4.
                      after-keeps Kept (write_identity paths.server_cert paths.server_key server v4)
                        _ (write_identity-Kept _ _ server v4 e.server_cert e.server_key h4)
                        (λ _ v5 h5. h5)))))

-- No run touches another file than the four, whether it succeeds or fails.
pub load_or_create-elsewhere :
    (lib : Certificates) (dir p : FilePath) (w : World)
    → IsElsewhere dir p
    → (load_or_create lib dir w).1.files p ≡ w.files p
load_or_create-elsewhere lib dir p w h = elim (Bool-cases (some_present dir w)) [
  | inl there ↦ ap (λ v. v.files p) (load_or_create_untouched lib dir w there)
  | inr none_there ↦
      ap (λ r. r.1.files p) (load_or_create_none lib dir w none_there)
      ∙ create_material-Kept p w lib dir w h refl
]

-- The system lets a file be made and written.
pub record IsWritable (p : FilePath) (w : World) : Type 0 where
  pub create_allowed : w.refuses create p ≡ false
  pub fill_allowed : w.refuses fill p ≡ false
  pub no_dir : w.dirs p ≡ false

IsWritable_later :
    (p : FilePath) (v : World) (files : FilePath → Option Text) (binary : FilePath → Bool) (n : ℕ)
    → IsWritable p v
    → IsWritable p (record v { files = files; binary = binary; drawn = n })
IsWritable_later p v files binary n h = record {
  create_allowed = h.create_allowed;
  fill_allowed = h.fill_allowed;
  no_dir = h.no_dir;
}

write_identity_allowed :
    (dir : FilePath) (c k : Text) (m : IdentityMaterial) (w : World)
    → w.dirs dir ≡ true
    → IsWritable (c ∷ dir) w
    → IsWritable (k ∷ dir) w
    → write_identity (c ∷ dir) (k ∷ dir) m w
      ≡ (ok tt, put_file (k ∷ dir) (some m.key_pem) (put_file (c ∷ dir) (some m.cert_pem) w))
unfolding write_identity
write_identity_allowed dir c k m w d hc hk =
    rw
      (
        write_allowed (c ∷ dir) m.cert_pem w hc.create_allowed d hc.no_dir hc.fill_allowed,
        write_allowed (k ∷ dir) m.key_pem (put_file (c ∷ dir) (some m.cert_pem) w) hk.create_allowed
            d hk.no_dir hk.fill_allowed,
      )
      refl

-- What a first run needs: the directory can be made and the four files can be written there.
pub record IsReady (dir : FilePath) (w v : World) : Type 0 where
  pub dir_made : create_dir_all dir w ≡ (ok tt, v)
  pub dir_there : v.dirs dir ≡ true
  pub client_cert : IsWritable (pki_paths dir).client_cert v
  pub client_key : IsWritable (pki_paths dir).client_key v
  pub server_cert : IsWritable (pki_paths dir).server_cert v
  pub server_key : IsWritable (pki_paths dir).server_key v

module _ (lib : Certificates) where
  -- The material of the next two keys.
  abbrev pub drawn_identity : Text → ℕ → ℕ → Result PkiError IdentityMaterial
  drawn_identity name serial n = certify lib name serial n (lib.generate n)

  -- Where nothing is there, the directory and the files may be written and the certificates can
  -- be made, a run succeeds: it draws two keys, the client's and then the server's, and writes
  -- the four files.
  pub load_or_create_first :
      (dir : FilePath) (w v : World) (client server : IdentityMaterial)
      → some_present dir w ≡ false
      → IsReady dir w v
      → drawn_identity (codes "malleus-client") 1 v.drawn ≡ ok client
      → drawn_identity (codes "malleus-server") 2 (suc v.drawn) ≡ ok server
      → load_or_create lib dir w ≡ (
        ok (record { client = client; server = server }),
        stored
            (record { client = client; server = server })
            (pki_paths dir)
            (record v { drawn = suc (suc v.drawn) }),
      )
  unfolding create_material generate_identity pki_paths
  load_or_create_first dir w v client server none_there r hc hs =
      load_or_create_none lib dir w none_there
      ∙ rw (r.dir_made, hc, hs)
          (rw
            (
              write_identity_allowed dir (codes "client.crt") (codes "client.key") client drawn
                  r.dir_there (IsWritable_later _ v _ _ _ r.client_cert)
                  (IsWritable_later _ v _ _ _ r.client_key),
              write_identity_allowed dir (codes "server.crt") (codes "server.key") server
                  (put_file (codes "client.key" ∷ dir) (some client.key_pem)
                    (put_file (codes "client.crt" ∷ dir) (some client.cert_pem) drawn))
                  r.dir_there (IsWritable_later _ v _ _ _ r.server_cert)
                  (IsWritable_later _ v _ _ _ r.server_key),
            )
            refl)
    where
      drawn : World
      drawn = record v { drawn = suc (suc v.drawn) }
