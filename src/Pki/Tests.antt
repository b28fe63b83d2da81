-- ===== src/Pki/Tests.antt =====
-- Runs of src/pki.rs over a small library of certificates, and the theorems at them.
use malleus.Base.{if◌then◌else◌, ℕ, ◌≡◌, refl, Bool, true, false, none, some, [], ◌∷◌}
use malleus.Base.Text.{Text, codes}
use malleus.Base.Number.{to_string}
use malleus.Base.FilePath.{FilePath, path_eq}
use malleus.Base.Result.{ok, err}
use malleus.Base.Fs.{
  World, FsOp, fill, create_dir_all, make_dir, write, read_to_string, storage_full,
}
use malleus.Pki.Certificate.{
  IdentityMaterial, io, incomplete_material, Certificates, certify, subject,
}
use malleus.Pki.{
  PkiMaterial, pki_paths, existing, maybe_load, load, read_identity, write_identity,
  generate_identity, create_material, load_or_create,
}
use malleus.Pki.Load.{load_or_create_incomplete}
use malleus.Pki.Create.{Holds, IsReadable, load_or_create-Holds, load_or_create_again, stored}
use malleus.Pki.Effects.{IsElsewhere, load_or_create-elsewhere, IsReady, load_or_create_first}

-- A certificate is the name it is for, a key the number it is drawn as.
abbrev pub small : Certificates
small = record {
  SigningKey = ℕ;
  Name = Text;
  Profile = Text;
  Validity = ℕ;
  PublicKey = ℕ;
  Builder = Text;
  Certificate = Text;
  Error = Text;
  error_text = λ e. e;
  generate = λ n. n;
  name_from_str = λ t. ok t;
  root_profile = λ _ name. ok name;
  from_now = λ clock seconds. ok seconds;
  from_key = λ key. ok key;
  new_builder = λ profile serial validity key. ok profile;
  build = λ builder key. ok builder;
  to_pem = λ certificate. ok certificate;
  to_pkcs8_pem = λ key. ok (to_string key);
}

abbrev dir : FilePath
dir = codes "pki" ∷ codes "/s" ∷ []

abbrev empty : World
empty = record {
  files = λ _. none;
  dirs = λ p. path_eq p (codes "/s" ∷ []);
  binary = λ _. false;
  refuses = λ _ _. false;
  drawn = 7;
}

-- The directory exists, and one file stands in it.
abbrev partial : World
partial = record {
  files = λ p. if path_eq p (codes "client.crt" ∷ dir) then some (codes "old") else none;
  dirs = λ p. path_eq p dir;
  binary = λ _. false;
  refuses = λ _ _. false;
  drawn = 7;
}

abbrev is_fill : FsOp → Bool
is_fill fill = true
is_fill _ = false

-- The disk is full when the server's key is written.
abbrev full : World
full = record empty {
  binary = λ _. false;
  refuses = λ op p. if is_fill op then path_eq p (codes "server.key" ∷ dir) else false;
}

abbrev client : IdentityMaterial
client = record { cert_pem = codes "CN=malleus-client,O=malleus,C=US"; key_pem = codes "7" }

abbrev server : IdentityMaterial
server = record { cert_pem = codes "CN=malleus-server,O=malleus,C=US"; key_pem = codes "8" }

abbrev made : PkiMaterial
made = record { client = client; server = server }

after_first : World
unfolding load_or_create
after_first = (load_or_create small dir empty).1

first_run : load_or_create small dir empty ≡ (ok made, after_first)
unfolding load_or_create after_first maybe_load existing create_material create_dir_all make_dir
    generate_identity certify subject write_identity write pki_paths to_string
first_run = refl

after_full : World
unfolding load_or_create
after_full = (load_or_create small dir full).1

full_run : load_or_create small dir full ≡ (err (io storage_full), after_full)
unfolding load_or_create after_full maybe_load existing create_material create_dir_all make_dir
    generate_identity certify subject write_identity write pki_paths to_string
full_run = refl

-- The run after a failed write takes the empty key for the server's.
empty_key_accepted :
    (load_or_create small dir after_full).0
    ≡ ok (record { client = client; server = record server { key_pem = [] } })
unfolding load_or_create after_full maybe_load existing load read_identity read_to_string
    create_material create_dir_all make_dir generate_identity certify subject write_identity write
    pki_paths to_string
empty_key_accepted = refl

load_or_create_incomplete_example :
    load_or_create small dir partial ≡ (err (incomplete_material dir), partial)
load_or_create_incomplete_example =
    load_or_create_incomplete small dir partial (unfold existing pki_paths in refl)
      (unfold existing pki_paths in refl)

load_or_create-Holds_example : Holds made (pki_paths dir) after_first
load_or_create-Holds_example = load_or_create-Holds small dir empty after_first made first_run

readable : IsReadable (pki_paths dir) after_first
unfolding after_first load_or_create maybe_load existing create_material create_dir_all make_dir
    generate_identity certify subject write_identity write pki_paths to_string
readable = record { client_cert = refl; client_key = refl; server_cert = refl; server_key = refl }

load_or_create_again_example : load_or_create small dir after_first ≡ (ok made, after_first)
load_or_create_again_example =
    load_or_create_again small dir empty after_first made first_run readable

elsewhere : IsElsewhere dir (codes "config.toml" ∷ codes "/s" ∷ [])
unfolding pki_paths
elsewhere = record { client_cert = refl; client_key = refl; server_cert = refl; server_key = refl }

load_or_create-elsewhere_example :
    (load_or_create small dir full).1.files (codes "config.toml" ∷ codes "/s" ∷ []) ≡ none
load_or_create-elsewhere_example =
    load_or_create-elsewhere small dir (codes "config.toml" ∷ codes "/s" ∷ []) full elsewhere

with_dir : World
unfolding create_dir_all
with_dir = (create_dir_all dir empty).1

ready : IsReady dir empty with_dir
unfolding with_dir create_dir_all make_dir pki_paths
ready = record {
  dir_made = refl;
  dir_there = refl;
  client_cert = record { create_allowed = refl; fill_allowed = refl; no_dir = refl };
  client_key = record { create_allowed = refl; fill_allowed = refl; no_dir = refl };
  server_cert = record { create_allowed = refl; fill_allowed = refl; no_dir = refl };
  server_key = record { create_allowed = refl; fill_allowed = refl; no_dir = refl };
}

load_or_create_first_example :
    load_or_create small dir empty
    ≡ (ok made, stored made (pki_paths dir) (record with_dir { drawn = 9 }))
unfolding with_dir create_dir_all make_dir certify subject to_string
load_or_create_first_example =
    load_or_create_first small dir empty with_dir client server (unfold existing pki_paths in refl)
      ready refl refl
