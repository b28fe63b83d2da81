-- ===== src/Cli/Run/Sessions.antt =====
-- Sequences of commands over one state directory: the key material is an invariant of them.
use malleus.Base.{◌≡◌, refl, ap, ◌∙◌, false, some, List, Option, Bool-cases, inl, inr}
use malleus.Base.Text.{Text, codes, join}
use malleus.Base.Ipv4.{Ipv4Addr}
use malleus.Base.FilePath.{FilePath, join_path, path_eq}
use malleus.Base.Io.{after-keeps, called-keeps, check}
use malleus.Base.Fs.{World}
use malleus.Pki.{PkiMaterial, pki_paths}
use malleus.Pki.Create.{Holds}
use malleus.Cli.Error.{CliIo, incus_exec}
use malleus.Cli.Names.{cmd_mount, cmd_unmount}
use malleus.Cli.Process.{cmd_stop, is_vm_running}
use malleus.Cli.Process.Stop.{cmd_stop-elsewhere}
use malleus.Cli.Settings.Laws.{cmd_status-world}
use malleus.Cli.Spawn.{cmd_start}
use malleus.Cli.Address.Keeps.{IsKept}
use malleus.Cli.Incus.{process_runner, conf_dir, default_dhcp_leases_path, cmd_autoconfigure}
use malleus.Cli.Run.{
  Command, start, stop, status, mount, unmount, autoconfigure, Setting, silent, run_command,
}
use malleus.Cli.Run.Keys.{
  IsKeyName, client_cert, client_key, server_cert, server_key, key_path, state_file-key_path,
}
use malleus.Cli.Run.Prepare.{IsApart}
use malleus.Cli.Run.Boot.{cmd_start-keeps}
use malleus.Cli.Run.Configure.{cmd_autoconfigure_with_runner-keeps}

-- The programs outside leave a file as it is that has a content.
pub record IsHarmless (setting : Setting) (p : FilePath) (content : Text) : Type 0 where
  pub apart : IsApart setting.machine setting.outside p
  pub asked : IsKept setting.network (λ w. w.files p ≡ some content)
  pub killed : (pid : Text) (w : World) → (setting.kill pid w).1.files p ≡ w.files p
  pub configured :
      (conf : FilePath) (args : List Text) (w : World)
      → (setting.incus conf args w).1.files p ≡ w.files p

-- Every command but `delete`, and but an `autoconfigure` into the directory of the key material.
pub data IsMild (setting : Setting) (state_dir : FilePath) : Command → Type 0 where
  mild_start : IsMild setting state_dir start
  mild_stop : IsMild setting state_dir stop
  mild_status : IsMild setting state_dir status
  mild_mount :
      {host_path : FilePath} {name : Option Text} → IsMild setting state_dir (mount host_path name)
  mild_unmount : {name : Text} → IsMild setting state_dir (unmount name)
  mild_autoconfigure :
      {vm_ip : Option Ipv4Addr} {remote_name : Text} {conf : Option FilePath}
      → path_eq (conf_dir setting.home setting.incus_conf conf) (join_path state_dir (codes "pki"))
        ≡ false
      → IsMild setting state_dir (autoconfigure vm_ip remote_name conf)

module _ (setting : Setting) (state_dir : FilePath) (name content : Text) (key : IsKeyName name)
    (harmless : IsHarmless setting (key_path state_dir name) content) where
  abbrev Kept : World → Type 0
  Kept w = w.files (key_path state_dir name) ≡ some content

  process_runner-keeps :
      (conf : FilePath) (args : List Text) (w : World)
      → (process_runner setting.network.from_utf8_lossy setting.incus conf args w).1.files
          (key_path state_dir name)
        ≡ w.files (key_path state_dir name)
  unfolding process_runner
  process_runner-keeps conf args w =
      called-keeps (λ v. v.files (key_path state_dir name) ≡ w.files (key_path state_dir name))
        (incus_exec (join (codes " ") args)) (setting.incus conf args w) _
        (harmless.configured conf args w)
        (λ output v k. elim (Bool-cases output.success) [
          | inl success ↦ rw success k
          | inr failed ↦ rw failed k
        ])

  silent-keeps :
      (command : CliIo (Unit {0})) (w : World) → Kept (command w).1 → Kept (silent command w).1
  silent-keeps command w k = after-keeps Kept (command w) _ k (λ _ v l. l)

  run_command-keeps :
      (command : Command) (w : World)
      → IsMild setting state_dir command
      → Kept w
      → Kept (run_command setting state_dir command w).1
  unfolding run_command cmd_autoconfigure
  run_command-keeps command w mild_start k = silent-keeps (cmd_start _ _ _ state_dir) w (
      cmd_start-keeps setting.machine setting.outside state_dir name content key harmless.apart
        setting.typed w k)
  run_command-keeps command w mild_stop k = silent-keeps (cmd_stop setting.kill state_dir) w (
      cmd_stop-elsewhere setting.kill (key_path state_dir name) w state_dir harmless.killed
        (state_file-key_path (codes "vfkit.pid") name state_dir refl key)
        (state_file-key_path (codes "ready.sock") name state_dir refl key)
      ∙ k)
  run_command-keeps command w mild_status k =
      ap (λ v. v.files (key_path state_dir name))
        (cmd_status-world setting.outside.from_toml setting.outside.from_utf8_lossy setting.ps
          state_dir w)
      ∙ k
  run_command-keeps command w mild_mount k = silent-keeps (check (cmd_mount _ _ _)) w k
  run_command-keeps command w mild_unmount k = silent-keeps (check (cmd_unmount _)) w k
  run_command-keeps command w (mild_autoconfigure {vm_ip} {remote_name} {conf} other) k =
      silent-keeps
        (cmd_autoconfigure setting.machine setting.outside setting.network setting.typed
          setting.incus setting.ps setting.home setting.incus_conf state_dir vm_ip remote_name conf)
        w
        (cmd_autoconfigure_with_runner-keeps setting.machine setting.outside setting.network
          setting.typed state_dir name content key harmless.apart harmless.asked
          (process_runner setting.network.from_utf8_lossy setting.incus) process_runner-keeps
          (is_vm_running setting.network.from_utf8_lossy setting.ps) setting.home setting.incus_conf
          vm_ip remote_name conf default_dhcp_leases_path w other k)

-- What may happen to a world: commands on the state directory, each with programs outside that
-- leave the files of the key material as they are.
pub data Session (state_dir : FilePath) (m : PkiMaterial) : World → World → Type 1 where
  done : {w : World} → Session state_dir m w w
  then :
      {w v : World} {command : Command} (setting : Setting)
      → IsMild setting state_dir command
      → IsHarmless setting (key_path state_dir (codes "client.crt")) m.client.cert_pem
      → IsHarmless setting (key_path state_dir (codes "client.key")) m.client.key_pem
      → IsHarmless setting (key_path state_dir (codes "server.crt")) m.server.cert_pem
      → IsHarmless setting (key_path state_dir (codes "server.key")) m.server.key_pem
      → Session state_dir m (run_command setting state_dir command w).1 v
      → Session state_dir m w v

-- The key material is an invariant: once its four files are there, they hold the same behind every
-- sequence of commands without `delete`, whether the commands succeed or fail, if the programs
-- outside leave the files alone and no `autoconfigure` is told to use their directory as its own.
pub Session-Holds :
    (state_dir : FilePath) (m : PkiMaterial) (w v : World)
    → Session state_dir m w v
    → Holds m (pki_paths (join_path state_dir (codes "pki"))) w
    → Holds m (pki_paths (join_path state_dir (codes "pki"))) v
unfolding pki_paths
Session-Holds state_dir m w v done h = h
Session-Holds state_dir m w v (then {command = command} setting mild a b c d rest) h =
    Session-Holds state_dir m (run_command setting state_dir command w).1 v rest (record {
      client_cert =
          run_command-keeps setting state_dir (codes "client.crt") m.client.cert_pem client_cert a
            command w mild h.client_cert;
      client_key =
          run_command-keeps setting state_dir (codes "client.key") m.client.key_pem client_key b
            command w mild h.client_key;
      server_cert =
          run_command-keeps setting state_dir (codes "server.crt") m.server.cert_pem server_cert c
            command w mild h.server_cert;
      server_key =
          run_command-keeps setting state_dir (codes "server.key") m.server.key_pem server_key d
            command w mild h.server_key;
    })
