-- ===== src/Cli/Start.antt =====
-- `cmd_start` of src/main.rs up to the start of vfkit: what it makes and writes.
pub mod Laws
pub mod ArgsFile
pub mod Tests
use malleus.Base.{ℕ, Option, none, some, List, [], ◌∷◌}
use malleus.Base.Text.{Text, codes, join}
use malleus.Base.FilePath.{FilePath, join_path}
use malleus.Base.Result.{Result, map_err}
use malleus.Base.Io.{Io, pure, check, from_error, ◌>>=◌, ◌>>◌}
use malleus.Base.Fs.{IoError, World, create_dir_all, write}
use malleus.Config.{Config}
use malleus.Image.{ExitStatus, ensure_images}
use malleus.Pki.Certificate.{Certificates}
use malleus.Pki.{PkiMaterial, load_or_create}
use malleus.Provision.{ProvisionSpec, render_user_data, render_meta_data}
use malleus.Vm.{Share, VmSpec, build_args}
use malleus.Cli.Error.{CliError, CliIo}
use malleus.Cli.Settings.{load_config}

abbrev pub default_bridge_cidr : Text
default_bridge_cidr = codes "10.174.0.1/24"

abbrev pub default_vm_mac : Text
default_vm_mac = codes "52:54:00:12:34:56"

abbrev pub default_ready_port : ℕ
default_ready_port = 5

abbrev pub default_restful_port : ℕ
default_restful_port = 8444

-- `provision_spec`.
abbrev pub provision_spec : PkiMaterial → ProvisionSpec
provision_spec material = record {
  hostname = codes "malleus";
  bridge_cidr = default_bridge_cidr;
  client_cert_pem = material.client.cert_pem;
  server_cert_pem = material.server.cert_pem;
  server_key_pem = material.server.key_pem;
  mounts = [];
  state_tag = some (codes "malleus-state");
}

-- `spec`.
abbrev pub vm_spec : FilePath → Config → VmSpec
vm_spec state_dir cfg = record {
  cpus = cfg.cpus;
  memory_mib = cfg.memory_mib;
  efi_store = join_path state_dir (codes "efi-store");
  root_disk = join_path state_dir (codes "root.raw");
  pool_disk = join_path state_dir (codes "pool.raw");
  mac = default_vm_mac;
  user_data = join_path state_dir (codes "user-data");
  meta_data = join_path state_dir (codes "meta-data");
  network_config = none;
  ready_socket = join_path state_dir (codes "ready.sock");
  ready_port = default_ready_port;
  restful_port = default_restful_port;
  shares = (record { host_path = state_dir; tag = codes "malleus-state" }) ∷ [];
  serial_log = some (join_path state_dir (codes "vfkit.guest.log"));
}

-- The programs and libraries outside that a start uses.
pub record Outside : Type 1 where
  pub from_toml : Text → Result Text Config
  pub from_utf8_lossy : List ℕ → Text
  pub serve : FilePath → ℕ → Result IoError ℕ
  pub curl : List Text → Io World IoError ExitStatus
  pub arch : Text
  pub certificates : Certificates

module _ (out : Outside) where
  open out use {from_toml, from_utf8_lossy, serve, curl, arch, certificates}

  unfoldable pub write_payloads : FilePath → Text → Text → CliIo (Unit {0})
  write_payloads state_dir user_data meta_data = do
    from_error CliError.io (write (join_path state_dir (codes "user-data")) user_data)
    from_error CliError.io (write (join_path state_dir (codes "meta-data")) meta_data)

  -- The payloads and the arguments of the machine, rendered and written.
  unfoldable pub write_start : FilePath → Config → PkiMaterial → CliIo (List Text)
  unfolding write_payloads
  write_start state_dir cfg pki_material = do
    user_data ← check (map_err CliError.provision (render_user_data (provision_spec pki_material)))
    meta_data ← check (map_err CliError.provision (render_meta_data (provision_spec pki_material)))
    write_payloads state_dir user_data meta_data
    from_error CliError.io (
        write (join_path state_dir (codes "vfkit.args"))
          (join (codes "\n") (build_args (vm_spec state_dir cfg))))
    pure (build_args (vm_spec state_dir cfg))

  -- The result is the arguments that vfkit is started with.
  unfoldable pub prepare_start : FilePath → CliIo (List Text)
  unfolding write_start
  prepare_start state_dir = do
    from_error CliError.io (create_dir_all state_dir)
    cfg ← load_config from_toml state_dir
    from_error CliError.image (ensure_images from_utf8_lossy serve curl arch state_dir cfg)
    pki_material ←
        from_error CliError.pki (load_or_create certificates (join_path state_dir (codes "pki")))
    write_start state_dir cfg pki_material
