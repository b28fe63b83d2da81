-- ===== src/Cli/Incus/Laws.antt =====
-- `cmd_autoconfigure_with_runner`: its guards, and the credentials that it copies.
use malleus.Base.{◌≡◌, refl, sym, ap, ◌∙◌, Bool, true, false, not, ◌&&◌, ◌||◌, Option, some, List}
use malleus.Base.Text.{Text, codes}
use malleus.Base.Ipv4.{Ipv4Addr}
use malleus.Base.FilePath.{FilePath, join_path}
use malleus.Base.Result.{Result, ok, err}
use malleus.Base.Io.{after_inv, convert, convert_inv}
use malleus.Base.Fs.{IoError, World, exists, create_dir_all, copy}
use malleus.Base.Fs.Laws.{copy_inv, create_dir_all-files, path_eq_refl}
use malleus.Pki.{pki_paths}
use malleus.Cli.Error.{CliError, io, invalid_remote_name, missing_pki_material}
use malleus.Cli.Names.{valid_mount_name}
use malleus.Cli.Start.{Outside}
use malleus.Cli.Spawn.{Machine}
use malleus.Cli.Address.{Network}
use malleus.Cli.Incus.{Runner, copy_credentials, conf_dir, configure, cmd_autoconfigure_with_runner}

-- The directory of the client has what the files of the key material held.
pub record IsCopied (pki_dir incus_conf : FilePath) (w v : World) : Type 0 where
  pub cert : Text
  pub key : Text
  pub cert_there : w.files (pki_paths pki_dir).client_cert ≡ some cert
  pub key_there : w.files (pki_paths pki_dir).client_key ≡ some key
  pub cert_copied : v.files (join_path incus_conf (codes "client.crt")) ≡ some cert
  pub key_copied : v.files (join_path incus_conf (codes "client.key")) ≡ some key

-- When the credentials are copied, the client's directory holds the certificate and the key of the
-- key material, as they stood before.
pub copy_credentials-IsCopied :
    (pki_dir incus_conf : FilePath) (w v : World) (u : Unit {0})
    → copy_credentials (pki_paths pki_dir) incus_conf w ≡ (ok u, v)
    → IsCopied pki_dir incus_conf w v
unfolding copy_credentials pki_paths
copy_credentials-IsCopied pki_dir incus_conf w v u h =
    let cert_path = join_path pki_dir (codes "client.crt") in
    let key_path = join_path pki_dir (codes "client.key") in
    let cert_copy = join_path incus_conf (codes "client.crt") in
    let key_copy = join_path incus_conf (codes "client.key") in
    let (_, w1, e1, h1) = after_inv (convert io (create_dir_all incus_conf w)) _ v h in
    let (u2, w2, e2, h2) = after_inv (convert io (copy cert_path cert_copy w1)) _ v h1 in
    let (cert, cert_there, cert_put) =
      copy_inv cert_path cert_copy w1 w2 u2 (convert_inv io _ w2 e2) in
    let (key, key_there, key_put) = copy_inv key_path key_copy w2 v u (convert_inv io _ v h2) in
    let made : w1.files ≡ w.files =
      ap (λ r. r.1.files) (sym (convert_inv io _ w1 e1)) ∙ create_dir_all-files incus_conf w in
    record {
      cert = cert;
      key = key;
      cert_there = ap (λ files. files cert_path) (sym made) ∙ cert_there;
      key_there =
          ap (λ files. files key_path) (sym made)
          ∙ ap (λ s. s.files key_path) (sym cert_put)
          ∙ key_there;
      cert_copied =
          ap (λ s. s.files cert_copy) key_put
          ∙ ap (λ s. s.files cert_copy) cert_put
          ∙ rw (path_eq_refl incus_conf) refl;
      key_copied = ap (λ s. s.files key_copy) key_put ∙ rw (path_eq_refl incus_conf) refl;
    }

abbrev pub has_client : FilePath → World → Bool
has_client state_dir w =
    let paths = pki_paths (join_path state_dir (codes "pki")) in
    exists paths.client_cert w && exists paths.client_key w

guard_false : (a b : Bool) → (a && b) ≡ false → (not a || not b) ≡ true
guard_false true true h = cc
guard_false true false h = refl
guard_false false b h = refl

guard_true : (a b : Bool) → (a && b) ≡ true → (not a || not b) ≡ false
guard_true true true h = refl
guard_true true false h = cc
guard_true false b h = cc

module _ (machine : Machine) (out : Outside) (network : Network)
    (typed : List (Result IoError Text)) (home incus_conf_var : Option Text) (state_dir : FilePath)
    (vm_ip : Option Ipv4Addr) (remote_name : Text) (incus_conf : Option FilePath)
    (lease_path : FilePath) (runner : Runner) (vm_is_running : FilePath → World → Bool) where
  abbrev pub autoconfigured : World → Result CliError (Unit {0}) × World
  autoconfigured =
      cmd_autoconfigure_with_runner machine out network typed home incus_conf_var state_dir vm_ip
        remote_name incus_conf lease_path runner vm_is_running

  -- A remote name that is not valid is refused first, then a state directory without the client's
  -- certificate and key; a refusal changes nothing. Otherwise everything behind the guards runs.
  pub cmd_autoconfigure_with_runner_guards :
      (w : World)
      → (valid_mount_name remote_name ≡ false
          → autoconfigured w ≡ (err (invalid_remote_name remote_name), w))
        × (valid_mount_name remote_name ≡ true
            → has_client state_dir w ≡ false
            → autoconfigured w
              ≡ (err (missing_pki_material (join_path state_dir (codes "pki"))), w))
        × (valid_mount_name remote_name ≡ true
            → has_client state_dir w ≡ true
            → autoconfigured w
              ≡ configure machine out network typed state_dir vm_ip remote_name
                  (conf_dir home incus_conf_var incus_conf)
                  lease_path
                  runner
                  vm_is_running
                  w)
  unfolding cmd_autoconfigure_with_runner
  cmd_autoconfigure_with_runner_guards w = (
    λ invalid. rw invalid refl,
    λ valid lacks. rw (valid, guard_false _ _ lacks) refl,
    λ valid has. rw (valid, guard_true _ _ has) refl,
  )
