-- ===== src/Cli/Error.antt =====
-- The errors and the constants of src/main.rs.
use malleus.Base.{ℕ}
use malleus.Base.Text.{Text}
use malleus.Base.FilePath.{FilePath}
use malleus.Base.Fs.{IoError, World}
use malleus.Base.Io.{Io}
use malleus.Config.{ConfigError}
use malleus.Pki.Certificate.{PkiError}
use malleus.Provision.{ProvisionError}
use malleus.Image.{ImageError}

-- An `i32`.
pub data ℤ : Type 0 where
  pos : ℕ → ℤ
  negsuc : ℕ → ℤ

-- The errors of other libraries are the texts that they print.
pub data CliError : Type 0 where
  clap : Text → CliError
  io : IoError → CliError
  config_parse : FilePath → Text → CliError
  config_validation : ConfigError → CliError
  pki : PkiError → CliError
  provision : ProvisionError → CliError
  image : ImageError → CliError
  missing_mount_name : FilePath → CliError
  invalid_mount_name : Text → CliError
  invalid_remote_name : Text → CliError
  missing_pki_material : FilePath → CliError
  missing_vm_ip : Text → Text → Text → Text → CliError
  vfkit_not_found : CliError
  vfkit_exec : IoError → CliError
  vfkit_exited : ℤ → Text → CliError
  incus_exec : Text → IoError → CliError
  incus_failed : Text → ℤ → Text → CliError

abbrev pub CliIo : Type 0 → Type 0
CliIo = Io World CliError
