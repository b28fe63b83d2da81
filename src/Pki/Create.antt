-- ===== src/Pki/Create.antt =====
-- What `load_or_create` returns and what it leaves behind.
use mathlib.Core.Path.{subst}
use malleus.Base.{◌≡◌, refl, sym, ap, ◌∙◌, true, false, some, Bool-cases, inl, inr}
use malleus.Base.Text.{codes}
use malleus.Base.FilePath.{FilePath}
use malleus.Base.Result.{ok}
use malleus.Base.Io.{after_inv, ok_inv, convert_inv, convert}
use malleus.Base.Fs.{World, unreadable_text, read_to_string, write, create_dir_all, put_file}
use malleus.Base.Fs.Laws.{read_to_string_inv, read_to_string_present, write_inv, path_eq_refl}
use malleus.Pki.Certificate.{IdentityMaterial, io, Certificates}
use malleus.Pki.{
  PkiMaterial, PkiPaths, pki_paths, existing, read_identity, load, load_or_create, create_material,
  generate_identity, write_identity,
}
use malleus.Pki.Load.{
  some_present, all_present, load_or_create_complete, load_or_create_incomplete,
  load_or_create_none, load-world,
}

-- The four files hold the material.
pub record Holds (m : PkiMaterial) (paths : PkiPaths) (w : World) : Type 0 where
  pub client_cert : w.files paths.client_cert ≡ some m.client.cert_pem
  pub client_key : w.files paths.client_key ≡ some m.client.key_pem
  pub server_cert : w.files paths.server_cert ≡ some m.server.cert_pem
  pub server_key : w.files paths.server_key ≡ some m.server.key_pem

-- The four files may be read.
pub record IsReadable (paths : PkiPaths) (w : World) : Type 0 where
  pub client_cert : unreadable_text paths.client_cert w ≡ false
  pub client_key : unreadable_text paths.client_key w ≡ false
  pub server_cert : unreadable_text paths.server_cert w ≡ false
  pub server_key : unreadable_text paths.server_key w ≡ false

read_identity_inv :
    (c k : FilePath) (w v : World) (m : IdentityMaterial)
    → read_identity c k w ≡ (ok m, v)
    → (w.files c ≡ some m.cert_pem) × (w.files k ≡ some m.key_pem) × (v ≡ w)
unfolding read_identity
read_identity_inv c k w v m h =
    let (cert, u, e, h1) = after_inv (convert io (read_to_string c w)) _ v h in
    let (key, t, d, h2) = after_inv (convert io (read_to_string k u)) _ v h1 in
    let (a, b) = read_to_string_inv c w u cert (convert_inv io _ u e) in
    let (a2, b2) = read_to_string_inv k u t key (convert_inv io _ t d) in
    let (p, q) = ok_inv _ m t v h2 in
    (
      a ∙ ap (λ i. some i.cert_pem) p,
      ap (λ s. s.files k) (sym b) ∙ a2 ∙ ap (λ i. some i.key_pem) p,
      sym q ∙ b2 ∙ b,
    )

load-Holds :
    (paths : PkiPaths) (w v : World) (m : PkiMaterial) → load paths w ≡ (ok m, v) → Holds m paths w
unfolding load
load-Holds paths w v m h =
    let (client, u, e, h1) = after_inv (read_identity paths.client_cert paths.client_key w) _ v h in
    let (server, t, d, h2) =
      after_inv (read_identity paths.server_cert paths.server_key u) _ v h1 in
    let (a, b, c) = read_identity_inv _ _ w u client e in
    let (a2, b2, c2) = read_identity_inv _ _ u t server d in
    let (p, q) = ok_inv _ m t v h2 in
    record {
      client_cert = a ∙ ap (λ i. some i.client.cert_pem) p;
      client_key = b ∙ ap (λ i. some i.client.key_pem) p;
      server_cert =
          ap (λ s. s.files paths.server_cert) (sym c) ∙ a2 ∙ ap (λ i. some i.server.cert_pem) p;
      server_key =
          ap (λ s. s.files paths.server_key) (sym c) ∙ b2 ∙ ap (λ i. some i.server.key_pem) p;
    }

read_identity_present :
    (c k : FilePath) (w : World) (m : IdentityMaterial)
    → unreadable_text c w ≡ false
    → unreadable_text k w ≡ false
    → w.files c ≡ some m.cert_pem
    → w.files k ≡ some m.key_pem
    → read_identity c k w ≡ (ok m, w)
unfolding read_identity
read_identity_present c k w m h l hc hk =
    rw (read_to_string_present c w m.cert_pem h hc, read_to_string_present k w m.key_pem l hk) refl

load_present :
    (paths : PkiPaths) (w : World) (m : PkiMaterial)
    → Holds m paths w
    → IsReadable paths w
    → load paths w ≡ (ok m, w)
unfolding load
load_present paths w m h r =
    rw
      (
        read_identity_present paths.client_cert paths.client_key w m.client r.client_cert
            r.client_key h.client_cert h.client_key,
        read_identity_present paths.server_cert paths.server_key w m.server r.server_cert
            r.server_key h.server_cert h.server_key,
      )
      refl

write_identity_inv :
    (c k : FilePath) (m : IdentityMaterial) (w v : World) (u : Unit {0})
    → write_identity c k m w ≡ (ok u, v)
    → v ≡ put_file k (some m.key_pem) (put_file c (some m.cert_pem) w)
unfolding write_identity
write_identity_inv c k m w v u h =
    let (u1, w1, e, h1) = after_inv (convert io (write c m.cert_pem w)) _ v h in
    let (u2, w2, d, h2) = after_inv (convert io (write k m.key_pem w1)) _ v h1 in
    let (p, q) = ok_inv _ u w2 v h2 in
    sym q
    ∙ write_inv k m.key_pem w1 w2 u2 (convert_inv io _ w2 d)
    ∙ ap (put_file k (some m.key_pem)) (write_inv c m.cert_pem w w1 u1 (convert_inv io _ w1 e))

-- The four files written, the last first.
abbrev pub stored : PkiMaterial → PkiPaths → World → World
stored m paths w = put_file paths.server_key (some m.server.key_pem) (
    put_file paths.server_cert (some m.server.cert_pem) (
      put_file paths.client_key (some m.client.key_pem)
        (put_file paths.client_cert (some m.client.cert_pem) w)))

stored-Holds :
    (m : PkiMaterial) (dir : FilePath) (w : World)
    → Holds m (pki_paths dir) (stored m (pki_paths dir) w)
unfolding pki_paths
stored-Holds m dir w = record {
  client_cert = rw (path_eq_refl dir) refl;
  client_key = rw (path_eq_refl dir) refl;
  server_cert = rw (path_eq_refl dir) refl;
  server_key = rw (path_eq_refl dir) refl;
}

Holds-all_present :
    (m : PkiMaterial) (dir : FilePath) (w : World)
    → Holds m (pki_paths dir) w
    → all_present dir w ≡ true
unfolding existing
Holds-all_present m dir w h = rw (h.client_cert, h.client_key, h.server_cert, h.server_key) refl

module _ (lib : Certificates) where
  create_material_inv :
      (dir : FilePath) (w v : World) (m : PkiMaterial)
      → create_material lib dir w ≡ (ok m, v)
      → (w0 : World) × (v ≡ stored m (pki_paths dir) w0)
  unfolding create_material
  create_material_inv dir w v m h =
      let (u1, w1, e1, h1) = after_inv (convert io (create_dir_all dir w)) _ v h in
      let (client, w2, e2, h2) =
        after_inv (generate_identity lib (codes "malleus-client") 1 w1) _ v h1 in
      let (server, w3, e3, h3) =
        after_inv (generate_identity lib (codes "malleus-server") 2 w2) _ v h2 in
      let (u4, w4, e4, h4) =
        after_inv (write_identity (pki_paths dir).client_cert (pki_paths dir).client_key client w3)
          _ v h3 in
      let (u5, w5, e5, h5) =
        after_inv (write_identity (pki_paths dir).server_cert (pki_paths dir).server_key server w4)
          _ v h4 in
      let (p, q) = ok_inv _ m w5 v h5 in
      (
        w3,
        sym q
            ∙ write_identity_inv _ _ server w4 w5 u5 e5
            ∙ ap
                (λ s.
                  put_file (pki_paths dir).server_key (some server.key_pem)
                    (put_file (pki_paths dir).server_cert (some server.cert_pem) s))
                (write_identity_inv _ _ client w3 w4 u4 e4)
            ∙ ap (λ i. stored i (pki_paths dir) w3) p,
      )

  -- Whether the material is found or made, a run that succeeds returns what the four files hold
  -- behind it.
  pub load_or_create-Holds :
      (dir : FilePath) (w v : World) (m : PkiMaterial)
      → load_or_create lib dir w ≡ (ok m, v)
      → Holds m (pki_paths dir) v
  load_or_create-Holds dir w v m h = elim (Bool-cases (some_present dir w)) [
    | inr none_there ↦
        let (w0, e) =
          create_material_inv dir w v m (sym (load_or_create_none lib dir w none_there) ∙ h) in
        subst (λ s. Holds m (pki_paths dir) s) (sym e) (stored-Holds m dir w0)
    | inl some_there ↦ elim (Bool-cases (all_present dir w)) [
      | inr missing ↦ let e = sym (load_or_create_incomplete lib dir w some_there missing) ∙ h in cc
      | inl all_there ↦
          let e = sym (load_or_create_complete lib dir w all_there) ∙ h in
          subst (λ s. Holds m (pki_paths dir) s)
            (sym (load-world (pki_paths dir) w) ∙ ap (λ r. r.1) e)
            (load-Holds (pki_paths dir) w v m e)
    ]
  ]

  -- A second run returns the same material and changes nothing, if the files may be read.
  pub load_or_create_again :
      (dir : FilePath) (w v : World) (m : PkiMaterial)
      → load_or_create lib dir w ≡ (ok m, v)
      → IsReadable (pki_paths dir) v
      → load_or_create lib dir v ≡ (ok m, v)
  load_or_create_again dir w v m h r =
      let kept = load_or_create-Holds dir w v m h in
      load_or_create_complete lib dir v (Holds-all_present m dir v kept)
      ∙ load_present (pki_paths dir) v m kept r
