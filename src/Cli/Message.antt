-- ===== src/Cli/Message.antt =====
-- What `main` of src/main.rs prints: the texts of the errors of src/config.rs, src/provision.rs,
-- src/pki.rs, src/image.rs and src/main.rs, as their `#[error]` attributes give them.
pub mod Laws
pub mod Tests
use malleus.Base.{ℕ, suc, List, [], ◌∷◌, ◌++◌}
use malleus.Base.Text.{Text, codes}
use malleus.Base.Number.{to_string}
use malleus.Base.FilePath.{display}
use malleus.Base.Result.{Result, ok, err}
use malleus.Base.Fs.{IoError, World}
use malleus.Config.{ConfigError}
use malleus.Provision.{
  ProvisionError, empty_hostname, empty_bridge_cidr, empty_mount_tag, invalid_mount_tag,
}
use malleus.Pki.Certificate.{PkiError, incomplete_material, invalid_subject, certificate_generation}
use malleus.Image.{ImageError, download, unsupported_arch, not_a_disk_image}
use malleus.Cli.Error.{
  ℤ, pos, negsuc, CliError, config_parse, config_validation, missing_mount_name, invalid_mount_name,
  invalid_remote_name, missing_pki_material, missing_vm_ip, vfkit_not_found, vfkit_exec,
  vfkit_exited, incus_exec, incus_failed,
}
use malleus.Cli.Run.{Setting, Cli, run_with_args}

unfoldable pub config_text : ConfigError → Text
config_text (ConfigError.cpus n) = codes "cpus must be at least 1, got " ++ to_string n
config_text (ConfigError.memory_mib n) = codes "memory_mib must be at least 1, got " ++ to_string n
config_text (ConfigError.root_disk_gib n) =
    codes "root_disk_gib must be at least 1, got " ++ to_string n
config_text (ConfigError.pool_disk_gib n) =
    codes "pool_disk_gib must be at least 1, got " ++ to_string n

unfoldable pub provision_text : ProvisionError → Text
provision_text empty_hostname = codes "hostname must not be empty"
provision_text empty_bridge_cidr = codes "bridge_cidr must not be empty"
provision_text empty_mount_tag = codes "mount tag must not be empty"
provision_text (invalid_mount_tag tag) = codes "mount tag contains invalid characters: " ++ tag

abbrev pub status_text : ℤ → Text
status_text (pos n) = to_string n
status_text (negsuc n) = b'-' ∷ to_string (suc n)

-- The text of an `io::Error` is the system's.
module _ (io_text : IoError → Text) where
  unfoldable pub pki_text : PkiError → Text
  pki_text (PkiError.io e) = codes "i/o error: " ++ io_text e
  pki_text (incomplete_material dir) = codes "incomplete PKI material in " ++ display dir
  pki_text (invalid_subject subject details) =
      codes "invalid certificate subject `" ++ subject ++ codes "`: " ++ details
  pki_text (certificate_generation reason) = codes "certificate generation failed: " ++ reason

  unfoldable pub image_text : ImageError → Text
  image_text (ImageError.io e) = codes "i/o error: " ++ io_text e
  image_text (download reason) = codes "failed to download image: " ++ reason
  image_text (unsupported_arch arch) = codes "unsupported architecture: " ++ arch
  image_text (not_a_disk_image path snippet) =
      b'`' ∷ path
      ++ codes "` is not a disk image (no partition table); it began with: "
      ++ snippet
      ++ codes ". The bad file has been removed — re-run to recreate it"

  unfoldable pub cli_text : CliError → Text
  unfolding config_text provision_text pki_text image_text
  cli_text (CliError.clap text) = text
  cli_text (CliError.io e) = codes "i/o error: " ++ io_text e
  cli_text (config_parse path source) =
      codes "failed to parse config TOML `" ++ display path ++ codes "`: " ++ source
  cli_text (config_validation e) = codes "invalid VM configuration: " ++ config_text e
  cli_text (CliError.pki e) = codes "PKI error: " ++ pki_text e
  cli_text (CliError.provision e) = codes "provisioning render error: " ++ provision_text e
  cli_text (CliError.image e) = codes "image error: " ++ image_text e
  cli_text (missing_mount_name path) =
      codes "mount name is required when it cannot be derived from path `"
      ++ display path
      ++ codes "`"
  cli_text (invalid_mount_name name) =
      codes "invalid mount name `"
      ++ name
      ++ codes "`; allowed characters are letters, numbers, '-', '_', '.'"
  cli_text (invalid_remote_name name) =
      codes "invalid remote name `"
      ++ name
      ++ codes "`; allowed characters are letters, numbers, '-', '_', '.'"
  cli_text (missing_pki_material dir) =
      codes "missing PKI material in `" ++ display dir ++ codes "`; run `malleus start` first"
  cli_text (missing_vm_ip searched_paths mac name reason) =
      codes "unable to find VM IP for MAC `"
      ++ mac
      ++ codes "` or name `"
      ++ name
      ++ codes "`. Searched: "
      ++ searched_paths
      ++ codes ". Reason: "
      ++ reason
      ++ codes "; pass `--vm-ip` or ensure the VM is running"
  cli_text vfkit_not_found =
      codes "vfkit not found in PATH; please install it or ensure it is in your PATH"
  cli_text (vfkit_exec e) = codes "failed to execute `vfkit`: " ++ io_text e
  cli_text (vfkit_exited status stderr) =
      codes "vfkit exited immediately with status " ++ status_text status ++ codes ": " ++ stderr
  cli_text (incus_exec args source) =
      codes "failed to execute `incus " ++ args ++ codes "`: " ++ io_text source
  cli_text (incus_failed args status stderr) =
      codes "`incus "
      ++ args
      ++ codes "` failed with status "
      ++ status_text status
      ++ codes ": "
      ++ stderr

  -- How the process ends: its exit code and what it has printed on its error output.
  pub record Exit : Type 0 where
    pub code : ℕ
    pub stderr : Text

  abbrev pub exit_with : Result CliError (List Text) → Exit
  exit_with (ok lines) = record { code = 0; stderr = [] }
  exit_with (err e) = record { code = 1; stderr = cli_text e ++ codes "\n" }

  unfoldable pub main : Setting → (List Text → Result Text Cli) → List Text → World → Exit × World
  main setting try_parse_from args w =
      let r = run_with_args setting try_parse_from args w in (exit_with r.0, r.1)
