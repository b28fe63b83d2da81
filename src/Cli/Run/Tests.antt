-- ===== src/Cli/Run/Tests.antt =====
-- A session over a state directory with key material.
use malleus.Base.{true, ◌≡◌, refl, none, some, []}
use malleus.Base.Text.{Text, codes}
use malleus.Base.FilePath.{FilePath, join_path}
use malleus.Base.Result.{ok, err}
use malleus.Base.Fs.{not_found, World}
use malleus.Pki.{PkiMaterial, pki_paths}
use malleus.Pki.Create.{Holds}
use malleus.Cli.Start.Tests.{outside, state_dir, before}
use malleus.Cli.Spawn.Tests.{machine}
use malleus.Cli.Address.Tests.{network, network-IsKept}
use malleus.Cli.Run.{Setting, start, stop, status, run_command}
use malleus.Cli.Run.Keys.{key_path}
use malleus.Cli.Run.Sessions.{
  IsHarmless, mild_start, mild_stop, mild_status, Session, done, then, Session-Holds,
}

abbrev pub setting : Setting
setting = record {
  machine = machine;
  outside = outside;
  network = network;
  ps = λ args w. ok (true, codes "S+ /opt/homebrew/bin/vfkit");
  kill = λ pid w. (ok true, w);
  incus = λ conf args w. (err not_found, w);
  file_name = λ path. none;
  home = none;
  incus_conf = none;
  typed = [];
}

abbrev material : PkiMaterial
material = record {
  client = record { cert_pem = codes "PEM\n"; key_pem = codes "PEM\n" };
  server = record { cert_pem = codes "PEM\n"; key_pem = codes "PEM\n" };
}

setting-IsHarmless : (p : FilePath) (content : Text) → IsHarmless setting p content
setting-IsHarmless p content = record {
  apart = record {
    spawn = λ args w. refl;
    try_wait = λ child w. refl;
    sleep = λ d w. refl;
    brew = λ args w. refl;
    flush = λ w. refl;
    curl = λ args w. refl;
  };
  asked = network-IsKept (λ w. w.files p ≡ some content);
  killed = λ pid w. refl;
  configured = λ conf args w. refl;
}

harmless : (name : Text) → IsHarmless setting (key_path state_dir name) (codes "PEM\n")
harmless name = setting-IsHarmless (key_path state_dir name) (codes "PEM\n")

abbrev started : World
started = (run_command setting state_dir start before).1

abbrev asked : World
asked = (run_command setting state_dir status started).1

abbrev stopped : World
stopped = (run_command setting state_dir stop asked).1

session : Session state_dir material before stopped
session =
    then setting mild_start (harmless (codes "client.crt")) (harmless (codes "client.key"))
      (harmless (codes "server.crt")) (harmless (codes "server.key"))
      (then setting mild_status (harmless (codes "client.crt")) (harmless (codes "client.key"))
        (harmless (codes "server.crt")) (harmless (codes "server.key"))
        (then setting mild_stop (harmless (codes "client.crt")) (harmless (codes "client.key"))
          (harmless (codes "server.crt")) (harmless (codes "server.key")) done))

before-Holds : Holds material (pki_paths (join_path state_dir (codes "pki"))) before
unfolding pki_paths
before-Holds = record {
  client_cert = refl;
  client_key = refl;
  server_cert = refl;
  server_key = refl;
}

Session-Holds_example : Holds material (pki_paths (join_path state_dir (codes "pki"))) stopped
Session-Holds_example = Session-Holds state_dir material before stopped session before-Holds
