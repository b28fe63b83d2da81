-- ===== src/Cli/Address/Tests.antt =====
-- Addresses that are found, and the order of the sources.
use malleus.Base.{
  ◌+◌, ◌≤◌, ◌≡◌, refl, Bool, true, Option, none, some, List, [], ◌∷◌, find_map, arith,
  if◌then◌else◌,
}
use malleus.Base.Text.{
  Text, codes, text_eq, after_find, strip_prefix, split_on, lines, raw_lines, strip_cr, join,
  is_whitespace,
}
use malleus.Base.Number.{scan_digits, to_digit, to_string}
use malleus.Base.Ipv4.{show_ipv4, Ipv4Addr, parse_ipv4, parse_octet}
use malleus.Base.FilePath.{FilePath, join_path}
use malleus.Base.Result.{ok, err}
use malleus.Base.Fs.{not_found, World, put_file}
use malleus.Cli.Json.{Json, get_str, ip_str, device_ip, inspected_ip}
use malleus.Cli.Start.Tests.{state_dir, before}
use malleus.Cli.Spawn.Tests.{machine}
use malleus.Cli.Address.{Network, reported_ip, last_lines, serial_ip}
use malleus.Cli.Address.Serial.{serial_ip-newest}
use malleus.Cli.Address.Keeps.{IsKept}
use malleus.Cli.Address.Laws.{answer, as_option, first_answer, sources, try_sources-first_answer}
use malleus.Cli.Address.Round.{initial_search, try_sources, resolve_vm_ip}
use malleus.Cli.Address.Resolve.{IsTimely, IsResolved, resolve_vm_ip-IsResolved}

abbrev ip : Ipv4Addr
ip = record { a = 192; b = 168; c = 64; d = 7 }

-- The values that the tests need.
pub data Doc : Type 0 where
  word : Text → Doc
  entry : Text → Doc → Doc → Doc
  only : Doc → Doc
  nothing : Doc

abbrev lookup : Text → Doc → Option Doc
lookup key (entry name value rest) =
    let found = lookup key rest in if text_eq name key then some value else found
lookup key _ = none

abbrev text_of : Doc → Option Text
text_of (word s) = some s
text_of _ = none

abbrev items_of : Doc → Option (List Doc)
items_of (only d) = some (d ∷ [])
items_of _ = none

abbrev network_device : Doc
network_device =
    entry (codes "kind") (word (codes "virtionet"))
      (entry (codes "ip") (word (codes "192.168.64.7")) nothing)

abbrev inspection : Doc
inspection = entry (codes "devices") (only network_device) nothing

abbrev json : Json
json = record {
  Value = Doc;
  from_slice = λ bytes. some inspection;
  get = lookup;
  as_str = text_of;
  as_array = items_of;
}

device_found : inspected_ip json inspection ≡ some ip
unfolding inspected_ip ip_str device_ip get_str parse_ipv4 parse_octet split_on scan_digits to_digit
device_found = refl

newest_line_found :
    find_map reported_ip
      (last_lines (codes "Reported IP 10.0.0.1\nReported IP 192.168.64.7\nbye\n"))
    ≡ some ip
unfolding reported_ip lines raw_lines strip_cr after_find strip_prefix split_on is_whitespace
    parse_ipv4 parse_octet scan_digits to_digit
newest_line_found = refl

-- Only the REST interface answers.
abbrev pub network : Network
network = record {
  curl = λ args w. (ok (true, []), w);
  arp = λ args w. (err not_found, w);
  json = json;
  connect = λ path w. (err not_found, w);
  set_read_timeout = λ stream ms w. (ok tt, w);
  read_stream = λ stream w. (ok [], w);
  from_utf8_lossy = λ bytes. bytes;
}

abbrev running : FilePath → World → Bool
running dir w = true

abbrev lease_path : FilePath
lease_path = codes "/var/db/dhcpd_leases" ∷ []

try_sources-first_answer_example :
    answer (try_sources network machine running lease_path state_dir initial_search before)
    ≡ as_option (first_answer (sources network machine running lease_path state_dir) before)
try_sources-first_answer_example =
    try_sources-first_answer network machine running lease_path state_dir initial_search before

pub network-IsKept : (P : World → Type 0) → IsKept network P
network-IsKept P = record {
  by_curl = λ args w p. p;
  by_arp = λ args w p. p;
  by_connect = λ path w p. p;
  by_timeout = λ stream ms w p. p;
  by_read = λ stream w p. p;
}

network-IsTimely : IsTimely network machine
network-IsTimely = record {
  sleeps = λ d w. omega arith;
  passes = λ t. network-IsKept (λ w. t ≤ machine.now w);
}

resolve_vm_ip-IsResolved_example :
    IsResolved network machine running lease_path state_dir
      (before.drawn + 60000)
      (resolve_vm_ip network machine running lease_path state_dir none before)
resolve_vm_ip-IsResolved_example =
    resolve_vm_ip-IsResolved network machine running lease_path state_dir network-IsTimely before

abbrev log : Text
log = codes "Reported IP 10.0.0.1 via vsock\nReported IP 192.168.64.7 via virtio-fs\nlogin:\n"

abbrev logged : World
logged = put_file (join_path state_dir (codes "vfkit.guest.log")) (some log) before

silent_line : reported_ip (codes "login:") ≡ none
unfolding reported_ip after_find strip_prefix
silent_line = refl

serial_ip-newest_example : serial_ip state_dir logged ≡ (ok ip, logged)
unfolding lines raw_lines strip_cr show_ipv4 to_string join
serial_ip-newest_example =
    serial_ip-newest state_dir logged (codes "Reported IP 10.0.0.1 via vsock" ∷ [])
      (codes "login:" ∷ []) [] (codes " via virtio-fs") ip tt
      (record {
        a_fits = omega arith;
        b_fits = omega arith;
        c_fits = omega arith;
        d_fits = omega arith;
      })
      (unfold is_whitespace in refl) (silent_line, tt) log refl refl refl
