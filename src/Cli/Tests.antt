-- ===== src/Cli/Tests.antt =====
-- The test cases of src/main.rs that concern one function, and the theorems at concrete inputs.
use malleus.Base.{
  ℕ, ◌≡◌, refl, Bool, true, false, not, ◌&&◌, ◌==◌, Option, none, some, List, [], ◌∷◌,
  if◌then◌else◌, arith,
}
use malleus.Base.Text.{
  Text, codes, trim_start_matches, trim_end_matches, is_whitespace, is_ascii_whitespace,
  is_ascii_alphanumeric, strip_prefix, after_find, split_on, lines, raw_lines, strip_cr,
  starts_with, contains, join, to_ascii_lowercase,
}
use malleus.Base.Text.Split.{Lacks_of_any}
use malleus.Base.Text.Lines.{is_line_end}
use malleus.Base.Number.{to_string}
use malleus.Base.FilePath.{FilePath, path_eq}
use malleus.Base.Result.{Result, ok, err}
use malleus.Base.Fs.{remove_tree, remove_dir_all, is_under, exists, IoError, World}
use malleus.Config.{Config, default, validate}
use malleus.Config.Laws.{IsUsable}
use malleus.Provision.{validate_mount_tag}
use malleus.Cli.Names.{valid_mount_name, is_name_char, cmd_mount, derive_mount_name}
use malleus.Cli.Names.Laws.{share_name, cmd_mount_iff}
use malleus.Cli.Remote.{remote_exists, line_name, trim_end_text, repeats}
use malleus.Cli.Remote.Heading.{remote_exists_heading}
use malleus.Cli.Remote.Laws.{listed, Remote, IsRemote, remote_exists-render_remotes}
use malleus.Cli.Process.{describes_live_vfkit, live_fields, Ps, is_vm_running, pid_path, cmd_stop}
use malleus.Cli.Process.Live.{describes_live_vfkit-join}
use malleus.Cli.Delete.{cmd_delete, cmd_delete_gone}
use malleus.Cli.Settings.{load_config, vm_status}
use malleus.Cli.Settings.Stopped.{cmd_stop_twice}
use malleus.Cli.Settings.Laws.{load_config-IsUsable}

zombies_are_not_live : describes_live_vfkit (codes "Z+   (vfkit)") ≡ false
unfolding describes_live_vfkit live_fields split_on is_ascii_whitespace strip_prefix
zombies_are_not_live = refl

vfkit_is_live : describes_live_vfkit (codes "S+   /opt/homebrew/bin/vfkit") ≡ true
unfolding describes_live_vfkit live_fields split_on is_ascii_whitespace strip_prefix after_find
vfkit_is_live = refl

current_remote_is_found :
    remote_exists (codes "local,unix\nmalleus (current),https\n") (codes "malleus") ≡ true
unfolding remote_exists line_name trim_end_text repeats split_on trim_start_matches trim_end_matches
    is_whitespace strip_prefix lines raw_lines strip_cr to_ascii_lowercase
current_remote_is_found = refl

valid_name : valid_mount_name (codes "my-code_1.0") ≡ true
unfolding valid_mount_name is_name_char is_ascii_alphanumeric trim_start_matches trim_end_matches
    is_whitespace
valid_name = refl

-- The last part of a path, if it has more than its base.
abbrev last_part : FilePath → Option Text
last_part (name ∷ _ ∷ _) = some name
last_part _ = none

code_mounted : cmd_mount last_part (codes "code" ∷ codes "/Users/me" ∷ []) none ≡ ok tt
unfolding cmd_mount derive_mount_name valid_mount_name is_name_char is_ascii_alphanumeric
    trim_start_matches trim_end_matches is_whitespace
code_mounted = refl

cmd_mount_iff_example :
    (tag : Text) × (share_name last_part (codes "code" ∷ codes "/Users/me" ∷ []) none ≡ some tag)
    × (validate_mount_tag tag ≡ ok tt)
cmd_mount_iff_example =
    (cmd_mount_iff last_part (codes "code" ∷ codes "/Users/me" ∷ []) none).0 code_mounted

remote_exists_heading_example : remote_exists (codes "NAME,URL\n") (codes "NAME") ≡ false
unfolding to_ascii_lowercase
remote_exists_heading_example = remote_exists_heading (codes "NAME,URL\n") (codes "NAME") refl

abbrev malleus_remote : Remote
malleus_remote = record {
  name = codes "box";
  current = true;
  columns = codes "https://10.0.0.1:8443,incus";
}

IsRemote-malleus_remote : IsRemote malleus_remote
unfolding is_whitespace
IsRemote-malleus_remote = record {
  name_given = λ e. cc;
  name_plain = Lacks_of_any is_whitespace (codes "box") refl;
  name_one = Lacks_of_any (λ c. c == b',') (codes "box") refl;
  columns_one = Lacks_of_any is_line_end (codes "https://10.0.0.1:8443,incus") refl;
}

remote_exists-render_remotes_example :
    remote_exists (codes "box (current),https://10.0.0.1:8443,incus\n") (codes "box")
    ≡ listed (codes "box") (malleus_remote ∷ [])
remote_exists-render_remotes_example =
    remote_exists-render_remotes (malleus_remote ∷ []) (codes "box") (IsRemote-malleus_remote, tt)

describes_live_vfkit-join_example :
    describes_live_vfkit (codes "Z+ (vfkit)")
    ≡ (not (starts_with (codes "Z") (codes "Z+")) && contains (codes "vfkit") (codes "(vfkit)"))
unfolding is_ascii_whitespace join
describes_live_vfkit-join_example = describes_live_vfkit-join (codes "Z+") (codes "(vfkit)") [] (
  (λ e. cc, Lacks_of_any is_ascii_whitespace (codes "Z+") refl),
  ((λ e. cc, Lacks_of_any is_ascii_whitespace (codes "(vfkit)") refl), tt),
)

abbrev state_dir : FilePath
state_dir = codes "/s" ∷ []

-- A start left the number of its process.
abbrev started : World
started = record {
  files = λ p. if path_eq p (pid_path state_dir) then some (to_string 4711) else none;
  dirs = λ p. path_eq p state_dir;
  binary = λ _. false;
  refuses = λ _ _. false;
  drawn = 0;
}

abbrev ascii : List ℕ → Text
ascii bytes = bytes

abbrev live : Ps
live args w = ok (true, codes "S /usr/local/bin/vfkit\n")

abbrev kill : Text → World → Result IoError Bool × World
kill pid w = (ok true, w)

abbrev no_toml : Text → Result Text Config
no_toml raw = err raw

cmd_stop_twice_example :
    (is_vm_running ascii live state_dir (cmd_stop kill state_dir started).1 ≡ false)
    × (vm_status no_toml ascii live state_dir (cmd_stop kill state_dir started).1 ≡ codes "stopped")
    × (cmd_stop kill state_dir (cmd_stop kill state_dir started).1
        ≡ (ok tt, (cmd_stop kill state_dir started).1))
cmd_stop_twice_example =
    cmd_stop_twice no_toml ascii live kill state_dir started started 4711 true (omega arith) refl
      refl refl refl refl

config_loaded : load_config no_toml state_dir started ≡ (ok default, started)
unfolding load_config validate
config_loaded = refl

load_config-IsUsable_example : IsUsable default × (started ≡ started)
load_config-IsUsable_example =
    load_config-IsUsable no_toml state_dir started started default config_loaded

abbrev deleted : World
deleted = remove_tree state_dir started

state_deleted : cmd_delete state_dir started ≡ (ok tt, deleted)
unfolding cmd_delete remove_dir_all
state_deleted = refl

cmd_delete_gone_example :
    (exists state_dir deleted ≡ false)
    × ((q : FilePath) → is_under state_dir q ≡ false → deleted.files q ≡ started.files q)
cmd_delete_gone_example = cmd_delete_gone state_dir started deleted tt state_deleted
