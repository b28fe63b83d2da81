-- ===== src/Cli/Incus/Tests.antt =====
-- Runs of `autoconfigure`.
use malleus.Cli.Incus.Counter.{ip, name, url, runner, runner-IsIncus}
use malleus.Base.{◌≡◌, refl, Bool, true, none, some, [], ◌∷◌}
use malleus.Base.Text.{
  Text, codes, trim_start_matches, trim_end_matches, is_whitespace, to_ascii_lowercase,
  is_ascii_alphanumeric, strip_prefix, split_on, lines, raw_lines, strip_cr, join,
}
use malleus.Base.Ipv4.{show_ipv4}
use malleus.Base.Number.{to_string}
use malleus.Base.FilePath.{FilePath}
use malleus.Base.Result.{Result, ok}
use malleus.Base.Fs.{World, create_dir_all, make_dir, copy, read_to_string, write}
use malleus.Cli.Error.{CliError}
use malleus.Cli.Remote.{remote_exists, line_name, trim_end_text, repeats}
use malleus.Cli.Start.Tests.{outside, state_dir, before}
use malleus.Cli.Spawn.Tests.{machine}
use malleus.Cli.Address.Tests.{network}
use malleus.Cli.Address.Round.{resolve_vm_ip}
use malleus.Cli.Names.{valid_mount_name, is_name_char}
use malleus.Cli.Incus.Laws.{autoconfigured}
use malleus.Cli.Incus.Command.{IsConfigured, cmd_autoconfigure_with_runner-IsConfigured}
use malleus.Pki.{pki_paths}
use malleus.Cli.Incus.{
  run_incus, add_missing, configure_remote, copy_credentials, start_missing, configure, conf_dir,
  cmd_autoconfigure_with_runner,
}
use malleus.Cli.Incus.Refine.{configure_remote_again}

abbrev conf : FilePath
conf = codes "/c" ∷ []

abbrev configured_world : World
configured_world = record before { drawn = 2 }

first_run : configure_remote runner conf name url before ≡ (ok tt, configured_world)
unfolding configure_remote run_incus add_missing remote_exists line_name trim_end_text repeats
    strip_prefix split_on lines raw_lines strip_cr trim_start_matches trim_end_matches is_whitespace
    to_ascii_lowercase
first_run = refl

abbrev later_url : Text
later_url = codes "https://192.168.64.9:8443"

second_run :
    configure_remote runner conf name later_url configured_world ≡ (ok tt, configured_world)
unfolding configure_remote run_incus add_missing remote_exists line_name trim_end_text repeats
    strip_prefix split_on lines raw_lines strip_cr trim_start_matches trim_end_matches is_whitespace
    to_ascii_lowercase
second_run = refl

configure_remote_again_example :
    (runner-IsIncus conf).rows configured_world ≡ (runner-IsIncus conf).rows configured_world
unfolding to_ascii_lowercase
configure_remote_again_example =
    configure_remote_again runner conf (runner-IsIncus conf) name url later_url before
      configured_world configured_world tt tt refl first_run second_run

abbrev running : FilePath → World → Bool
running dir w = true

abbrev lease_path : FilePath
lease_path = codes "/var/db/dhcpd_leases" ∷ []

abbrev command : World → Result CliError (Unit {0}) × World
command =
    autoconfigured machine outside network [] none none state_dir (some ip) name (some conf)
      lease_path runner running

behind_configured : World
unfolding cmd_autoconfigure_with_runner
behind_configured = (command before).1

command_succeeds : command before ≡ (ok tt, behind_configured)
unfolding behind_configured cmd_autoconfigure_with_runner configure copy_credentials start_missing
    resolve_vm_ip configure_remote run_incus add_missing remote_exists line_name trim_end_text
    repeats strip_prefix split_on lines raw_lines strip_cr trim_start_matches trim_end_matches
    is_whitespace is_ascii_alphanumeric valid_mount_name is_name_char pki_paths create_dir_all
    make_dir copy read_to_string write show_ipv4 to_string join to_ascii_lowercase
command_succeeds = refl

cmd_autoconfigure_with_runner-IsConfigured_example :
    (valid_mount_name name ≡ true)
    × IsConfigured machine outside network [] state_dir
        (some ip)
        name
        (conf_dir none none (some conf))
        lease_path
        runner
        running
        (runner-IsIncus conf)
        before
        behind_configured
cmd_autoconfigure_with_runner-IsConfigured_example =
    cmd_autoconfigure_with_runner-IsConfigured machine outside network [] none none state_dir
      (some ip) name (some conf) lease_path runner running (runner-IsIncus conf) before
      behind_configured tt command_succeeds
