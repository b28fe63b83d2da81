-- ===== src/Cli/Run/Configure.antt =====
-- A file of the key material under every command but `delete`, and under sequences of commands.
use malleus.Base.{◌+◌, ◌≡◌, ap, ◌∙◌, Bool, false, Option, none, some, List, Bool-cases, inl, inr}
use malleus.Base.Text.{Text, codes}
use malleus.Base.Ipv4.{Ipv4Addr}
use malleus.Base.FilePath.{FilePath, join_path, path_eq}
use malleus.Base.Result.{Result}
use malleus.Base.Io.{called-keeps, after-keeps, convert-keeps}
use malleus.Base.Poll.Laws.{poll-keeps}
use malleus.Base.Fs.{IoError, World, create_dir_all, copy}
use malleus.Base.Fs.Laws.{create_dir_all-files, copy-elsewhere}
use malleus.Pki.{PkiPaths, pki_paths}
use malleus.Cli.Error.{io}
use malleus.Cli.Names.{valid_mount_name}
use malleus.Cli.Remote.{remote_exists}
use malleus.Cli.Start.{Outside}
use malleus.Cli.Spawn.{Machine}
use malleus.Cli.Address.{Network}
use malleus.Cli.Address.Round.{initial_search, round, time_out, resolve_vm_ip}
use malleus.Cli.Address.Keeps.{IsKept, round-keeps}
use malleus.Cli.Incus.{
  Runner, list_args, add_args, switch_args, run_incus, add_missing, configure_remote,
  copy_credentials, start_missing, configure, conf_dir, cmd_autoconfigure_with_runner, remote_url,
}
use malleus.Cli.Incus.Laws.{has_client, cmd_autoconfigure_with_runner_guards}
use malleus.Cli.Run.Keys.{IsKeyName, key_path, other_dir-key_path}
use malleus.Cli.Run.Prepare.{IsApart}
use malleus.Cli.Run.Boot.{cmd_start-keeps}

module _ (machine : Machine) (out : Outside) (network : Network)
    (typed : List (Result IoError Text)) (state_dir : FilePath) (name content : Text)
    (key : IsKeyName name) (apart : IsApart machine out (key_path state_dir name))
    (asked : IsKept network (λ w. w.files (key_path state_dir name) ≡ some content))
    (runner : Runner)
    (ran : (conf : FilePath) (args : List Text) (w : World)
      → (runner conf args w).1.files (key_path state_dir name) ≡ w.files (key_path state_dir name))
    (vm_is_running : FilePath → World → Bool) where
  abbrev Kept : World → Type 0
  Kept w = w.files (key_path state_dir name) ≡ some content

  copy_credentials-keeps :
      (paths : PkiPaths) (conf : FilePath) (w : World)
      → path_eq conf (join_path state_dir (codes "pki")) ≡ false
      → Kept w
      → Kept (copy_credentials paths conf w).1
  unfolding copy_credentials
  copy_credentials-keeps paths conf w h k =
      called-keeps Kept io (create_dir_all conf w) _
        (ap (λ files. files (key_path state_dir name)) (create_dir_all-files conf w) ∙ k)
        (λ _ w1 k1.
          called-keeps Kept io (copy paths.client_cert (join_path conf (codes "client.crt")) w1) _
            (copied paths.client_cert (codes "client.crt") w1 k1)
            (λ _ w2 k2.
              convert-keeps Kept io (copy paths.client_key (join_path conf (codes "client.key")) w2)
                (copied paths.client_key (codes "client.key") w2 k2)))
    where
      copied :
          (from : FilePath) (t : Text) (v : World)
          → Kept v
          → Kept (copy from (join_path conf t) v).1
      copied from t v l =
          copy-elsewhere from (join_path conf t) (key_path state_dir name) v
            (other_dir-key_path t name conf state_dir h)
          ∙ l

  start_missing-keeps :
      (w : World)
      → Kept w
      → Kept (start_missing machine out network typed vm_is_running state_dir w).1
  unfolding start_missing
  start_missing-keeps w k = elim (Bool-cases (vm_is_running state_dir w)) [
    | inl running ↦ rw running k
    | inr halted ↦
        rw halted (cmd_start-keeps machine out state_dir name content key apart typed w k)
  ]

  resolve_vm_ip-keeps :
      (lease_path : FilePath) (vm_ip : Option Ipv4Addr) (w : World)
      → Kept w
      → Kept (resolve_vm_ip network machine vm_is_running lease_path state_dir vm_ip w).1
  unfolding resolve_vm_ip time_out
  resolve_vm_ip-keeps lease_path (some ip) w k = k
  resolve_vm_ip-keeps lease_path none w k =
      poll-keeps machine.now (machine.sleep 2000) (machine.now w + 60000) 2000
        (round network machine vm_is_running lease_path state_dir) (time_out state_dir) Kept
        (λ s v l. round-keeps network Kept asked machine vm_is_running lease_path state_dir s v l)
        (λ v l. apart.sleep 2000 v ∙ l) (λ s v l. l) 30 initial_search w k

  run_incus-keeps :
      (conf : FilePath) (args : List Text) (w : World)
      → Kept w
      → Kept (run_incus runner conf args w).1
  unfolding run_incus
  run_incus-keeps conf args w k =
      after-keeps Kept (runner conf args w) _ (ran conf args w ∙ k) (λ _ v l. l)

  add_missing-keeps :
      (conf : FilePath) (remote_name url listed : Text) (w : World)
      → Kept w
      → Kept (add_missing runner conf remote_name url listed w).1
  unfolding add_missing
  add_missing-keeps conf remote_name url listed w k =
      elim (Bool-cases (remote_exists listed remote_name)) [
        | inl there ↦ rw there k
        | inr absent ↦ rw absent (run_incus-keeps conf (add_args remote_name url) w k)
      ]

  configure_remote-keeps :
      (conf : FilePath) (remote_name url : Text) (w : World)
      → Kept w
      → Kept (configure_remote runner conf remote_name url w).1
  unfolding configure_remote
  configure_remote-keeps conf remote_name url w k =
      after-keeps Kept (runner conf list_args w) _ (ran conf list_args w ∙ k) (λ listed v l.
        after-keeps Kept (add_missing runner conf remote_name url listed v) _
          (add_missing-keeps conf remote_name url listed v l)
          (λ _ u m. run_incus-keeps conf (switch_args remote_name) u m))

  configure-keeps :
      (vm_ip : Option Ipv4Addr) (remote_name : Text) (conf lease_path : FilePath) (w : World)
      → path_eq conf (join_path state_dir (codes "pki")) ≡ false
      → Kept w
      → Kept
          (configure machine out network typed state_dir vm_ip remote_name conf lease_path runner
            vm_is_running w).1
  unfolding configure
  configure-keeps vm_ip remote_name conf lease_path w h k =
      after-keeps Kept (copy_credentials (pki_paths (join_path state_dir (codes "pki"))) conf w) _
        (copy_credentials-keeps (pki_paths (join_path state_dir (codes "pki"))) conf w h k)
        (λ _ w1 k1.
          after-keeps Kept (start_missing machine out network typed vm_is_running state_dir w1) _
            (start_missing-keeps w1 k1)
            (λ _ w2 k2.
              after-keeps Kept
                (resolve_vm_ip network machine vm_is_running lease_path state_dir vm_ip w2) _
                (resolve_vm_ip-keeps lease_path vm_ip w2 k2)
                (λ ip w3 k3. configure_remote-keeps conf remote_name (remote_url ip) w3 k3)))

  pub cmd_autoconfigure_with_runner-keeps :
      (home incus_conf_var : Option Text) (vm_ip : Option Ipv4Addr) (remote_name : Text)
      (conf : Option FilePath) (lease_path : FilePath) (w : World)
      → path_eq (conf_dir home incus_conf_var conf) (join_path state_dir (codes "pki")) ≡ false
      → Kept w
      → Kept
          (cmd_autoconfigure_with_runner machine out network typed home incus_conf_var state_dir
            vm_ip remote_name conf lease_path runner vm_is_running w).1
  cmd_autoconfigure_with_runner-keeps home incus_conf_var vm_ip remote_name conf lease_path w h k =
      let (invalid, without, behind) =
        cmd_autoconfigure_with_runner_guards machine out network typed home incus_conf_var state_dir
          vm_ip remote_name conf lease_path runner vm_is_running w in
      elim (Bool-cases (valid_mount_name remote_name)) [
        | inr bad ↦ ap (λ r. r.1.files (key_path state_dir name)) (invalid bad) ∙ k
        | inl good ↦ elim (Bool-cases (has_client state_dir w)) [
          | inr lacks ↦ ap (λ r. r.1.files (key_path state_dir name)) (without good lacks) ∙ k
          | inl has ↦
              ap (λ r. r.1.files (key_path state_dir name)) (behind good has)
              ∙ configure-keeps vm_ip remote_name (conf_dir home incus_conf_var conf) lease_path w h
                  k
        ]
      ]
