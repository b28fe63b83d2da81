-- ===== src/Cli/Incus/Command.antt =====
-- `cmd_autoconfigure_with_runner` as a whole: what a run that succeeds has done.
use malleus.Base.{◌≡◌, sym, ◌∙◌, Bool, true, Option, List, Bool-cases, inl, inr}
use malleus.Base.Text.{Text, codes}
use malleus.Base.Ipv4.{Ipv4Addr}
use malleus.Base.FilePath.{FilePath, join_path}
use malleus.Base.Result.{Result, ok, err}
use malleus.Base.Io.{after_inv}
use malleus.Base.Fs.{IoError, World}
use malleus.Pki.{pki_paths}
use malleus.Cli.Error.{CliError, invalid_remote_name, missing_pki_material}
use malleus.Cli.Names.{valid_mount_name}
use malleus.Cli.Start.{Outside}
use malleus.Cli.Spawn.{Machine}
use malleus.Cli.Address.{Network}
use malleus.Cli.Address.Round.{resolve_vm_ip}
use malleus.Cli.Incus.{Runner, remote_url, copy_credentials, start_missing, conf_dir, configure}
use malleus.Cli.Incus.Laws.{
  IsCopied, copy_credentials-IsCopied, has_client, autoconfigured,
  cmd_autoconfigure_with_runner_guards,
}
use malleus.Cli.Incus.Refine.{IsIncus, IsSwitched, configure_remote-IsSwitched}

module _ (machine : Machine) (out : Outside) (network : Network)
    (typed : List (Result IoError Text)) (state_dir : FilePath) (vm_ip : Option Ipv4Addr)
    (remote_name : Text) (incus_conf : FilePath) (lease_path : FilePath) (runner : Runner)
    (vm_is_running : FilePath → World → Bool) (incus : IsIncus runner incus_conf) where
  -- The worlds behind the copying, the start and the search for the address.
  pub record IsConfigured (w v : World) : Type 0 where
    pub copied : World
    pub started : World
    pub resolved : World
    pub ip : Ipv4Addr
    pub credentials : IsCopied (join_path state_dir (codes "pki")) incus_conf w copied
    pub running :
        start_missing machine out network typed vm_is_running state_dir copied ≡ (ok tt, started)
    pub address :
        resolve_vm_ip network machine vm_is_running lease_path state_dir vm_ip started
        ≡ (ok ip, resolved)
    pub remotes :
        IsSwitched remote_name
          (incus.columns_of (remote_url ip))
          (incus.rows resolved)
          (incus.rows v)

  configure-IsConfigured :
      (w v : World) (u : Unit {0})
      → configure machine out network typed state_dir vm_ip remote_name incus_conf lease_path runner
          vm_is_running w
        ≡ (ok u, v)
      → IsConfigured w v
  unfolding configure
  configure-IsConfigured w v u h =
      let (u1, w1, e1, h1) =
        after_inv (copy_credentials (pki_paths (join_path state_dir (codes "pki"))) incus_conf w) _
          v h in
      let (u2, w2, e2, h2) =
        after_inv (start_missing machine out network typed vm_is_running state_dir w1) _ v h1 in
      let (ip, w3, e3, h3) =
        after_inv (resolve_vm_ip network machine vm_is_running lease_path state_dir vm_ip w2) _ v
          h2 in
      record {
        copied = w1;
        started = w2;
        resolved = w3;
        ip = ip;
        credentials =
            copy_credentials-IsCopied (join_path state_dir (codes "pki")) incus_conf w w1 u1 e1;
        running = e2;
        address = e3;
        remotes =
            configure_remote-IsSwitched runner incus_conf incus remote_name (remote_url ip) w3 v u
              h3;
      }

module _ (machine : Machine) (out : Outside) (network : Network)
    (typed : List (Result IoError Text)) (home incus_conf_var : Option Text) (state_dir : FilePath)
    (vm_ip : Option Ipv4Addr) (remote_name : Text) (asked : Option FilePath) (lease_path : FilePath)
    (runner : Runner) (vm_is_running : FilePath → World → Bool)
    (incus : IsIncus runner (conf_dir home incus_conf_var asked)) where
  -- With an `incus` that prints its list of remotes in any order, extends and marks it, a run of
  -- `autoconfigure` that succeeds had a valid remote name; it has copied the client's certificate
  -- and key, started the machine if it did not run, found its address, and left the list as is
  -- promised: a remote of this name is there, the new one with this address if none was listed, it
  -- is the current one, and the others are as they were.
  pub cmd_autoconfigure_with_runner-IsConfigured :
      (w v : World) (u : Unit {0})
      → autoconfigured machine out network typed home incus_conf_var state_dir vm_ip remote_name
          asked lease_path runner vm_is_running w
        ≡ (ok u, v)
      → (valid_mount_name remote_name ≡ true)
        × IsConfigured machine out network typed state_dir vm_ip remote_name
            (conf_dir home incus_conf_var asked)
            lease_path
            runner
            vm_is_running
            incus
            w
            v
  cmd_autoconfigure_with_runner-IsConfigured w v u h =
      let (invalid, without, behind) =
        cmd_autoconfigure_with_runner_guards machine out network typed home incus_conf_var state_dir
          vm_ip remote_name asked lease_path runner vm_is_running w in
      elim (Bool-cases (valid_mount_name remote_name)) [
        | inr bad ↦
            let e : Path (Result CliError (Unit {0}) × World)
                (err (invalid_remote_name remote_name), w) (ok u, v) =
              sym (invalid bad) ∙ h in
            cc
        | inl good ↦ elim (Bool-cases (has_client state_dir w)) [
          | inr lacks ↦
              let e : Path (Result CliError (Unit {0}) × World)
                  (err (missing_pki_material (join_path state_dir (codes "pki"))), w) (ok u, v) =
                sym (without good lacks) ∙ h in
              cc
          | inl has ↦ (
            good,
            configure-IsConfigured machine out network typed state_dir vm_ip remote_name
                (conf_dir home incus_conf_var asked) lease_path runner vm_is_running incus w v u
                (sym (behind good has) ∙ h),
          )
        ]
      ]
