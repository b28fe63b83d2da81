-- ===== src/Cli/Start/Tests.antt =====
-- A start over a state directory that has its disks and its key material.
use malleus.Base.{◌≡◌, refl, Bool, false, ◌||◌, none, some, [], ◌∷◌, if◌then◌else◌}
use malleus.Base.Text.{
  Text, codes, trim_start_matches, trim_end_matches, is_whitespace, is_ascii_alphanumeric,
}
use malleus.Base.FilePath.{FilePath, path_eq}
use malleus.Base.Result.{ok, err}
use malleus.Base.Fs.{World, create_dir_all, make_dir, write, read_to_string}
use malleus.Config.{Config, default, validate}
use malleus.Image.{
  debian_arch, looks_like_disk_image, read_some, fill_room, read_full, open_header, verify_header,
  verify_disk_image, fetch, make_root, make_pool, ensure_images,
}
use malleus.Image.Tests.{gpt_disk}
use malleus.Pki.{pki_paths, existing, maybe_load, load, read_identity, load_or_create}
use malleus.Pki.Tests.{small}
use malleus.Provision.{
  validate_mount_tag, validate_mounts, validate_state_tag, is_tag_char, render_user_data,
  render_meta_data,
}
use malleus.Vm.{build_args}
use malleus.Cli.Settings.{load_config}
use malleus.Cli.Start.{Outside, vm_spec, write_payloads, write_start, prepare_start}

abbrev pub outside : Outside
outside = record {
  from_toml = λ raw. err raw;
  from_utf8_lossy = λ bytes. bytes;
  serve = λ _ k. ok 600;
  curl = λ args w. (ok (record { success = false; shown = codes "exit status: 6" }), w);
  arch = codes "aarch64";
  certificates = small;
}

abbrev pub state_dir : FilePath
state_dir = codes "/s" ∷ []

abbrev pki_dir : FilePath
pki_dir = codes "pki" ∷ state_dir

abbrev is_disk : FilePath → Bool
is_disk p =
    path_eq p (codes "debian-12-genericcloud-arm64.raw" ∷ codes "images" ∷ state_dir)
    || path_eq p (codes "root.raw" ∷ state_dir)
    || path_eq p (codes "pool.raw" ∷ state_dir)

abbrev is_key : FilePath → Bool
is_key p =
    path_eq p (codes "client.crt" ∷ pki_dir)
    || path_eq p (codes "client.key" ∷ pki_dir)
    || path_eq p (codes "server.crt" ∷ pki_dir)
    || path_eq p (codes "server.key" ∷ pki_dir)

abbrev pub before : World
before = record {
  files = λ p. if is_disk p then some gpt_disk else if is_key p then some (codes "PEM\n") else none;
  dirs = λ p. path_eq p (codes "images" ∷ state_dir) || path_eq p state_dir || path_eq p pki_dir;
  binary = λ _. false;
  refuses = λ _ _. false;
  drawn = 0;
}

unfoldable pub behind : World
unfolding prepare_start
behind = (prepare_start outside state_dir before).1

pub start_prepared :
    prepare_start outside state_dir before ≡ (ok (build_args (vm_spec state_dir default)), behind)
unfolding prepare_start behind write_start write_payloads create_dir_all make_dir write
    read_to_string load_config validate ensure_images debian_arch fetch make_root make_pool
    verify_disk_image open_header verify_header read_full fill_room read_some looks_like_disk_image
    pki_paths existing maybe_load load read_identity load_or_create render_user_data
    render_meta_data malleus.Provision.validate validate_mount_tag validate_mounts
    validate_state_tag is_tag_char trim_start_matches trim_end_matches is_whitespace
    is_ascii_alphanumeric
start_prepared = refl
