-- ===== src/Cli/Incus.antt =====
-- `ProcessIncusRunner` and `cmd_autoconfigure_with_runner` of src/main.rs, and `cmd_autoconfigure`.
pub mod Laws
pub mod Refine
pub mod Command
pub mod Counter
pub mod Tests
use malleus.Base.{
  ℕ, Bool, true, false, not, ◌||◌, Option, none, some, List, [], ◌∷◌, ◌++◌, if◌then◌else◌,
}
use malleus.Base.Text.{Text, codes, trim, join}
use malleus.Base.Number.{to_string}
use malleus.Base.Ipv4.{Ipv4Addr, show_ipv4}
use malleus.Base.FilePath.{FilePath, join_path}
use malleus.Base.Result.{Result, ok, err}
use malleus.Base.Io.{Io, pure, fail, from_error, ◌>>=◌, ◌>>◌}
use malleus.Base.Fs.{IoError, World, exists, create_dir_all, copy}
use malleus.Pki.{PkiPaths, pki_paths}
use malleus.Cli.Error.{
  ℤ, CliError, io, invalid_remote_name, missing_pki_material, incus_exec, incus_failed, CliIo,
}
use malleus.Cli.Names.{valid_mount_name}
use malleus.Cli.Remote.{remote_exists}
use malleus.Cli.Process.{Ps, is_vm_running}
use malleus.Cli.Settings.{default_incus_conf_dir}
use malleus.Cli.Start.{Outside}
use malleus.Cli.Spawn.{Machine, code_or_minus_one, cmd_start}
use malleus.Cli.Address.{Network}
use malleus.Cli.Address.Round.{resolve_vm_ip}

abbrev pub default_incus_remote_name : Text
default_incus_remote_name = codes "malleus"

abbrev pub default_incus_https_port : ℕ
default_incus_https_port = 8443

abbrev pub default_dhcp_leases_path : FilePath
default_dhcp_leases_path = codes "/var/db/dhcpd_leases" ∷ []

-- `IncusRunner::run`: the configuration directory and the arguments.
abbrev pub Runner : Type 0
Runner = FilePath → List Text → CliIo Text

-- What a process leaves when it ends.
pub record Output : Type 0 where
  pub success : Bool
  pub code : Option ℤ
  pub stdout : List ℕ
  pub stderr : List ℕ

module _ (from_utf8_lossy : List ℕ → Text)
    (incus : FilePath → List Text → Io World IoError Output) where
  abbrev pub reported : List Text → Output → CliIo Text
  reported args output =
      if output.success
      then pure (from_utf8_lossy output.stdout)
      else fail (
          incus_failed (join (codes " ") args) (code_or_minus_one output.code)
            (trim (from_utf8_lossy output.stderr)))

  -- `ProcessIncusRunner`; `incus` runs with `INCUS_CONF` set to the directory.
  unfoldable pub process_runner : Runner
  process_runner incus_conf args = do
    output ← from_error (incus_exec (join (codes " ") args)) (incus incus_conf args)
    reported args output

abbrev pub remote_url : Ipv4Addr → Text
remote_url vm_ip =
    codes "https://" ++ (show_ipv4 vm_ip ++ b':' ∷ to_string default_incus_https_port)

abbrev pub list_args : List Text
list_args = codes "remote" ∷ codes "list" ∷ codes "--format" ∷ codes "csv" ∷ []

abbrev pub add_args : Text → Text → List Text
add_args remote_name url =
    codes "remote" ∷ codes "add" ∷ remote_name ∷ url ∷ codes "--accept-certificate" ∷ []

abbrev pub switch_args : Text → List Text
switch_args remote_name = codes "remote" ∷ codes "switch" ∷ remote_name ∷ []

module _ (runner : Runner) where
  -- A command whose output is dropped.
  unfoldable pub run_incus : FilePath → List Text → CliIo (Unit {0})
  run_incus incus_conf args = do _ ← runner incus_conf args; pure tt

  unfoldable pub add_missing : FilePath → Text → Text → Text → CliIo (Unit {0})
  unfolding run_incus
  add_missing incus_conf remote_name url remote_list w =
      if not (remote_exists remote_list remote_name)
      then run_incus incus_conf (add_args remote_name url) w
      else (ok tt, w)

  -- The commands for the remote.
  unfoldable pub configure_remote : FilePath → Text → Text → CliIo (Unit {0})
  unfolding add_missing run_incus
  configure_remote incus_conf remote_name url = do
    remote_list ← runner incus_conf list_args
    add_missing incus_conf remote_name url remote_list
    run_incus incus_conf (switch_args remote_name)

unfoldable pub copy_credentials : PkiPaths → FilePath → CliIo (Unit {0})
copy_credentials paths incus_conf = do
  from_error io (create_dir_all incus_conf)
  from_error io (copy paths.client_cert (join_path incus_conf (codes "client.crt")))
  from_error io (copy paths.client_key (join_path incus_conf (codes "client.key")))

abbrev pub conf_dir : Option Text → Option Text → Option FilePath → FilePath
conf_dir home incus_conf_var none = default_incus_conf_dir incus_conf_var home
conf_dir home incus_conf_var (some dir) = dir

module _ (machine : Machine) (out : Outside) (network : Network)
    (typed : List (Result IoError Text)) where
  unfoldable pub start_missing : (FilePath → World → Bool) → FilePath → CliIo (Unit {0})
  start_missing vm_is_running state_dir w =
      if not (vm_is_running state_dir w)
      then cmd_start machine out typed state_dir w
      else (ok tt, w)

  -- Behind the guards.
  unfoldable pub configure :
      FilePath
      → Option Ipv4Addr
      → Text
      → FilePath
      → FilePath
      → Runner
      → (FilePath → World → Bool)
      → CliIo (Unit {0})
  unfolding copy_credentials start_missing configure_remote
  configure state_dir vm_ip remote_name incus_conf lease_path runner vm_is_running = do
    copy_credentials (pki_paths (join_path state_dir (codes "pki"))) incus_conf
    start_missing vm_is_running state_dir
    ip ← resolve_vm_ip network machine vm_is_running lease_path state_dir vm_ip
    configure_remote runner incus_conf remote_name (remote_url ip)

  unfoldable pub cmd_autoconfigure_with_runner :
      Option Text
      → Option Text
      → FilePath
      → Option Ipv4Addr
      → Text
      → Option FilePath
      → FilePath
      → Runner
      → (FilePath → World → Bool)
      → CliIo (Unit {0})
  unfolding configure
  cmd_autoconfigure_with_runner home incus_conf_var state_dir vm_ip remote_name incus_conf
        lease_path runner vm_is_running w =
      let pki_dir = join_path state_dir (codes "pki") in
      let paths = pki_paths pki_dir in
      if not (valid_mount_name remote_name)
      then (err (invalid_remote_name remote_name), w)
      else if not (exists paths.client_cert w) || not (exists paths.client_key w)
      then (err (missing_pki_material pki_dir), w)
      else configure state_dir vm_ip remote_name (conf_dir home incus_conf_var incus_conf)
          lease_path runner vm_is_running w

  unfoldable pub cmd_autoconfigure :
      (FilePath → List Text → Io World IoError Output)
      → Ps
      → Option Text
      → Option Text
      → FilePath
      → Option Ipv4Addr
      → Text
      → Option FilePath
      → CliIo (Unit {0})
  unfolding cmd_autoconfigure_with_runner process_runner
  cmd_autoconfigure incus ps home incus_conf_var state_dir vm_ip remote_name incus_conf =
      cmd_autoconfigure_with_runner home incus_conf_var state_dir vm_ip remote_name incus_conf
        default_dhcp_leases_path (process_runner network.from_utf8_lossy incus)
        (is_vm_running network.from_utf8_lossy ps)
