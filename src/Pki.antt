-- ===== src/Pki.antt =====
-- src/pki.rs: the key material of the client and the server. The certificate libraries are
-- parameters.
pub mod Certificate
pub mod Load
pub mod Create
pub mod Effects
pub mod Tests
use malleus.Base.{
  ℕ, suc, Bool, true, false, ◌==◌, ◌+◌, ◌*◌, Option, none, some, List, [], ◌∷◌, ◌++◌, if◌then◌else◌,
  length, keep,
}
use malleus.Base.Text.{Text, codes}
use malleus.Base.FilePath.{FilePath, join_path, parent}
use malleus.Base.Result.{Result, ok, err, map_err}
use malleus.Base.Io.{Io, pure, fail, check, from_error, ◌>>=◌, ◌>>◌}
use malleus.Pki.Certificate.{
  IdentityMaterial, PkiError, io, incomplete_material, Certificates, certify,
}
use malleus.Base.Fs.{IoError, World, exists, read_to_string, write, create_dir_all}

abbrev pub client_cert_file : Text
client_cert_file = codes "client.crt"

abbrev pub client_key_file : Text
client_key_file = codes "client.key"

abbrev pub server_cert_file : Text
server_cert_file = codes "server.crt"

abbrev pub server_key_file : Text
server_key_file = codes "server.key"

pub record PkiMaterial : Type 0 where
  pub client : IdentityMaterial
  pub server : IdentityMaterial

pub record PkiPaths : Type 0 where
  pub client_cert : FilePath
  pub client_key : FilePath
  pub server_cert : FilePath
  pub server_key : FilePath

abbrev pub PkiIo : Type 0 → Type 0
PkiIo = Io World PkiError

unfoldable pub pki_paths : FilePath → PkiPaths
pki_paths base_dir = record {
  client_cert = join_path base_dir client_cert_file;
  client_key = join_path base_dir client_key_file;
  server_cert = join_path base_dir server_cert_file;
  server_key = join_path base_dir server_key_file;
}

-- `?` on an error of the file system.
abbrev pub try_io : {A : Type 0} → Io World IoError A → PkiIo A
try_io = from_error io

unfoldable pub write_identity : FilePath → FilePath → IdentityMaterial → PkiIo (Unit {0})
write_identity cert_path key_path identity = do
  try_io (write cert_path identity.cert_pem)
  try_io (write key_path identity.key_pem)
  pure tt

unfoldable pub read_identity : FilePath → FilePath → PkiIo IdentityMaterial
read_identity cert_path key_path = do
  cert ← try_io (read_to_string cert_path)
  key ← try_io (read_to_string key_path)
  pure (record { cert_pem = cert; key_pem = key })

-- `existing` of `maybe_load`.
unfoldable pub existing : PkiPaths → World → List Bool
existing paths w =
    exists paths.client_cert w
    ∷ exists paths.client_key w
    ∷ exists paths.server_cert w
    ∷ exists paths.server_key w
    ∷ []

unfoldable pub load : PkiPaths → PkiIo PkiMaterial
unfolding read_identity
load paths = do
  client ← read_identity paths.client_cert paths.client_key
  server ← read_identity paths.server_cert paths.server_key
  pure (record { client = client; server = server })

unfoldable pub maybe_load : PkiPaths → PkiIo (Option PkiMaterial)
unfolding existing load
maybe_load paths w =
    let present_count = length (keep (λ present. present) (existing paths w)) in
    if present_count == 0
    then (ok none, w)
    else if present_count == length (existing paths w)
    then (do material ← load paths; pure (some material)) w
    else (err (incomplete_material (parent paths.client_cert)), w)

module _ (lib : Certificates) where
  -- The key and the reading of the clock are drawn, whether the rest succeeds or not.
  unfoldable pub generate_identity : Text → ℕ → PkiIo IdentityMaterial
  unfolding certify
  generate_identity common_name serial w = (
    certify lib common_name serial w.drawn (lib.generate w.drawn),
    record w { drawn = suc w.drawn },
  )

  -- `load_or_create` when nothing is there.
  unfoldable pub create_material : FilePath → PkiIo PkiMaterial
  unfolding pki_paths generate_identity write_identity
  create_material base_dir = do
    try_io (create_dir_all base_dir)
    client ← generate_identity (codes "malleus-client") 1
    server ← generate_identity (codes "malleus-server") 2
    write_identity (pki_paths base_dir).client_cert (pki_paths base_dir).client_key client
    write_identity (pki_paths base_dir).server_cert (pki_paths base_dir).server_key server
    pure (record { client = client; server = server })

  abbrev pub return_or : PkiIo PkiMaterial → Option PkiMaterial → PkiIo PkiMaterial
  return_or create (some found) = pure found
  return_or create none = create

  unfoldable pub load_or_create : FilePath → PkiIo PkiMaterial
  unfolding maybe_load pki_paths create_material
  load_or_create base_dir = do
    found ← maybe_load (pki_paths base_dir)
    return_or (create_material base_dir) found
