-- ===== src/Cli/Spawn/Tests.antt =====
-- A start, and a stop behind it.
use malleus.Base.{ℕ, ◌+◌, ◌≡◌, refl, ap, ◌∙◌, Bool, true, false, none, some, List, [], arith, ◌≤◌}
use malleus.Base.Text.{
  Text, codes, trim_start_matches, trim_end_matches, is_whitespace, is_ascii_alphanumeric,
}
use malleus.Base.Number.{to_string, u32_max}
use malleus.Base.Result.{Result, ok, err}
use malleus.Base.Io.{after}
use malleus.Base.Poll.{poll, turn}
use malleus.Base.Fs.{
  create_dir_all, make_dir, IoError, not_found, World, unreadable_text, create_file, write,
  read_to_string,
}
use malleus.Config.{default, validate}
use malleus.Image.{
  debian_arch, looks_like_disk_image, read_some, fill_room, read_full, open_header, verify_header,
  verify_disk_image, fetch, make_root, make_pool, ensure_images,
}
use malleus.Pki.{pki_paths, existing, maybe_load, load, read_identity, load_or_create}
use malleus.Provision.{
  validate_mount_tag, validate_mounts, validate_state_tag, is_tag_char, render_user_data,
  render_meta_data,
}
use malleus.Vm.{build_args}
use malleus.Cli.Settings.{load_config, pid_status, vm_status}
use malleus.Cli.Error.{pos, vfkit_exited, vfkit_not_found}
use malleus.Cli.Process.{Ps, ps_args, pid_path, live_answer, is_vm_running, clean_up, cmd_stop}
use malleus.Cli.Start.{vm_spec, write_payloads, write_start, prepare_start}
use malleus.Cli.Start.Tests.{outside, state_dir, before, behind, start_prepared}
use malleus.Cli.Spawn.{
  Machine, check_child, wait_for_early_exit, report_exit, watch_child, offer_install, on_spawn,
  launch, start_vm, cmd_start,
}
use malleus.Cli.Spawn.Wait.{IsMachine, Waits, wait_for_early_exit-Waits}
use malleus.Cli.Spawn.Exit.{IsExited, start_vm-IsExited}
use malleus.Cli.Spawn.Boots.{outputs, start_vm_boots}
use malleus.Cli.Spawn.Commands.{IsStarted, cmd_start-IsStarted, cmd_stop-cmd_start}

abbrev pub machine : Machine
machine = record {
  spawn = λ args w. (ok 4242, w);
  try_wait = λ child w. (ok none, w);
  now = λ w. w.drawn;
  sleep = λ d w. record w { drawn = w.drawn + (d + 2000) };
  brew = λ args w. (ok false, w);
  flush = λ w. (ok tt, w);
}

child_fits :
    (args : List Text) (child : ℕ) (w v : World)
    → machine.spawn args w ≡ (ok child, v)
    → child ≤ u32_max
child_fits args child w v h = let same : 4242 ≡ child = cc in omega arith

machine-IsMachine : IsMachine machine state_dir
machine-IsMachine = record {
  sleeps = λ d w. omega arith;
  passes = λ child w. omega arith;
  sleep_keeps = λ d w. refl;
  wait_keeps = λ child w. refl;
  fits = child_fits;
}

wait_for_early_exit-Waits_example :
    Waits machine 4242 (before.drawn + 2000) before (wait_for_early_exit machine 4242 before)
wait_for_early_exit-Waits_example =
    wait_for_early_exit-Waits machine state_dir machine-IsMachine 4242 before

unfoldable pub booted : World
unfolding start_vm
booted = (start_vm machine [] state_dir (build_args (vm_spec state_dir default)) behind).1

start_booted :
    start_vm machine [] state_dir (build_args (vm_spec state_dir default)) behind ≡ (ok tt, booted)
unfolding booted start_vm launch on_spawn watch_child wait_for_early_exit check_child report_exit
    poll turn create_file write to_string behind prepare_start write_start write_payloads
    create_dir_all make_dir read_to_string load_config validate ensure_images debian_arch fetch
    make_root make_pool verify_disk_image open_header verify_header read_full fill_room read_some
    looks_like_disk_image pki_paths existing maybe_load load read_identity load_or_create
    render_user_data render_meta_data malleus.Provision.validate validate_mount_tag validate_mounts
    validate_state_tag is_tag_char trim_start_matches trim_end_matches is_whitespace
    is_ascii_alphanumeric
start_booted = refl

cmd_started : cmd_start machine outside [] state_dir before ≡ (ok tt, booted)
unfolding cmd_start
cmd_started = ap (λ r. after r (start_vm machine [] state_dir)) start_prepared ∙ start_booted

booted_readable : unreadable_text (pid_path state_dir) booted ≡ false
unfolding booted start_vm launch on_spawn watch_child wait_for_early_exit check_child report_exit
    poll turn create_file write to_string behind prepare_start write_start write_payloads
    create_dir_all make_dir read_to_string load_config validate ensure_images debian_arch fetch
    make_root make_pool verify_disk_image open_header verify_header read_full fill_room read_some
    looks_like_disk_image pki_paths existing maybe_load load read_identity load_or_create
    render_user_data render_meta_data malleus.Provision.validate validate_mount_tag validate_mounts
    validate_state_tag is_tag_char trim_start_matches trim_end_matches is_whitespace
    is_ascii_alphanumeric
booted_readable = refl

cmd_start-IsStarted_example : IsStarted machine outside state_dir before booted
cmd_start-IsStarted_example =
    cmd_start-IsStarted machine outside state_dir machine-IsMachine [] before booted tt cmd_started

abbrev ps : Ps
ps args w = ok (true, codes "S+ /opt/homebrew/bin/vfkit")

abbrev kill : Text → World → Result IoError Bool × World
kill pid w = (ok true, w)

cmd_stop-cmd_start_example :
    (child : ℕ) × (args : List Text) × (made : World) × (after_spawn : World) × (machine.spawn args
        made
      ≡ (ok child, after_spawn))
    × (is_vm_running (λ bytes. bytes) ps state_dir booted
        ≡ live_answer (λ bytes. bytes) ps (ps (ps_args child) booted))
    × (vm_status outside.from_toml (λ bytes. bytes) ps state_dir booted
        ≡ pid_status outside.from_toml
            (λ bytes. bytes)
            ps
            (some child)
            (live_answer (λ bytes. bytes) ps (ps (ps_args child) booted)))
    × (cmd_stop kill state_dir booted ≡ clean_up kill state_dir (kill (to_string child) booted))
cmd_stop-cmd_start_example =
    cmd_stop-cmd_start machine outside state_dir (λ bytes. bytes) ps kill machine-IsMachine []
      before booted tt booted_readable cmd_started

-- A vfkit that refuses its arguments.
abbrev refusing : Machine
refusing = record machine { try_wait = λ child w. (ok (some (some (pos 1))), w) }

refusing-IsMachine : IsMachine refusing state_dir
refusing-IsMachine = record {
  sleeps = λ d w. omega arith;
  passes = λ child w. omega arith;
  sleep_keeps = λ d w. refl;
  wait_keeps = λ child w. refl;
  fits = child_fits;
}

-- A machine without vfkit and Homebrew.
abbrev bare : Machine
bare = record {
  spawn = λ args w. (err not_found, w);
  try_wait = λ child w. (ok none, w);
  now = λ w. w.drawn;
  sleep = λ d w. w;
  brew = λ args w. (err not_found, w);
  flush = λ w. (ok tt, w);
}

refused_world : World
unfolding start_vm
refused_world = (start_vm refusing [] state_dir [] before).1

refused_reports :
    start_vm refusing [] state_dir [] before ≡ (err (vfkit_exited (pos 1) []), refused_world)
unfolding refused_world start_vm launch on_spawn watch_child wait_for_early_exit check_child
    report_exit poll turn create_file write to_string read_to_string trim_start_matches
    trim_end_matches
refused_reports = refl

start_vm-IsExited_example : IsExited refusing state_dir [] (pos 1) [] refused_world
start_vm-IsExited_example =
    start_vm-IsExited refusing state_dir refusing-IsMachine [] [] (pos 1) [] before refused_world
      refused_reports

bare_not_found : (start_vm bare [] state_dir [] before).0 ≡ err vfkit_not_found
unfolding start_vm launch on_spawn offer_install create_file
bare_not_found = refl

start_vm_boots_example : (start_vm machine [] state_dir [] before).0 ≡ ok tt
start_vm_boots_example =
    start_vm_boots machine state_dir [] [] before (outputs state_dir before) 4242
      (record { allowed = refl; parent_there = refl; no_dir = refl })
      (record { allowed = refl; parent_there = refl; no_dir = refl }) refl
      (record { allowed = refl; parent_there = refl; no_dir = refl }) refl (λ x. refl)
