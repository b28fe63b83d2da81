-- ===== src/Cli/Address/Round.antt =====
-- `resolve_vm_ip` of src/main.rs: a round over the sources, and the loop.
use malleus.Base.{
  ℕ, ◌+◌, Bool, true, not, Option, none, some, List, [], ◌∷◌, ◌++◌, any, take, is_empty,
  if◌then◌else◌,
}
use malleus.Base.Text.{Text, codes, text_eq, join}
use malleus.Base.Ipv4.{Ipv4Addr}
use malleus.Base.FilePath.{FilePath, join_path, display}
use malleus.Base.Result.{Result, ok, err}
use malleus.Base.Poll.{Turn, found, missed, poll}
use malleus.Base.Fs.{IoError, World, exists, read_to_string}
use malleus.Leases.Scan.{find_lease}
use malleus.Leases.Arp.{find_in_arp}
use malleus.Cli.Error.{CliError, missing_vm_ip, CliIo}
use malleus.Cli.Start.{default_vm_mac, default_restful_port}
use malleus.Cli.Spawn.{Machine}
use malleus.Cli.Address.{Network, last_lines, query_vfkit_ip, query_vsock_ip, guest_ip, serial_ip}

-- What the rounds note for the error: the places searched so far, and the reasons of a round.
pub record Search : Type 0 where
  pub searched : List Text
  pub reasons : List Text

abbrev pub initial_search : Search
initial_search = record {
  searched =
      codes "vfkit REST API"
      ∷ codes "vsock readiness signal"
      ∷ codes "virtio-fs state share"
      ∷ codes "guest serial log"
      ∷ [];
  reasons = [];
}

abbrev pub note_place : Text → Search → Search
note_place place s =
    if any (text_eq place) s.searched then s else record s { searched = s.searched ++ (place ∷ []) }

abbrev pub note_reason : Text → Search → Search
note_reason reason s = record s { reasons = s.reasons ++ (reason ∷ []) }

-- A source that answers ends the round.
abbrev pub or_continue :
    Result (Unit {0}) Ipv4Addr × World
    → (World → Result CliError (Turn Search Ipv4Addr) × World)
    → Result CliError (Turn Search Ipv4Addr) × World
or_continue (ok ip, v) rest = (ok (found ip), v)
or_continue (err _, v) rest = rest v

abbrev pub or_reason : Option Ipv4Addr → Text → Search → Turn Search Ipv4Addr
or_reason (some ip) reason s = found ip
or_reason none reason s = missed (note_reason reason s)

abbrev pub lease_turn : FilePath → Search → Result IoError Text → Turn Search Ipv4Addr
lease_turn path s (ok lease_contents) =
    or_reason (find_lease lease_contents default_vm_mac (some (codes "malleus")))
      (display path ++ codes ": no matching record") s
lease_turn path s (err e) =
    missed (note_reason (display path ++ codes ": not found or inaccessible") s)

-- The loop over the lease files.
unfoldable pub search_leases : List FilePath → Search → World → Turn Search Ipv4Addr
search_leases [] s w = missed s
search_leases (path ∷ paths) s w =
    elim (lease_turn path (note_place (display path) s) (read_to_string path w).0) [
      | found ip ↦ found ip
      | missed t ↦ search_leases paths t w
    ]

-- What the last five lines of the serial log, or three of vfkit's errors, are quoted as.
abbrev pub quoted : ℕ → Text → Text
quoted n content = join (codes " | ") (take n (last_lines content))

abbrev pub lease_paths : FilePath → List FilePath
lease_paths lease_path = lease_path ∷ (codes "/var/db/dhcp_leases" ∷ []) ∷ []

abbrev socket_part : FilePath → World → Text
socket_part state_dir w =
    let ready_sock = join_path state_dir (codes "ready.sock") in
    if exists ready_sock w
    then []
    else codes "; VM readiness socket `" ++ (display ready_sock ++ codes "` missing")

abbrev errors_part : Result IoError Text → Text
errors_part (err e) = []
errors_part (ok err_log) =
    if is_empty (last_lines err_log)
    then []
    else codes "; last hypervisor errors: " ++ quoted 3 err_log

unfoldable pub not_running_reason : FilePath → World → Text
not_running_reason state_dir w =
    codes "VM is not running (checked PID file)"
    ++ (socket_part state_dir w
        ++ errors_part (read_to_string (join_path state_dir (codes "vfkit.err")) w).0)

abbrev pub missing : Text → Text → CliError
missing searched reason = missing_vm_ip searched default_vm_mac (codes "malleus") reason

abbrev log_reason : Result IoError Text → Text
log_reason (err e) = codes "guest serial log not found"
log_reason (ok guest_log) =
    if is_empty (last_lines guest_log)
    then codes "guest serial log is empty"
    else codes "last guest logs: " ++ quoted 5 guest_log

abbrev share_reason : FilePath → World → Text
share_reason state_dir w =
    if exists (join_path state_dir (codes "guest-ip")) w
    then codes "virtio-fs guest-ip file exists but contains no valid IP"
    else codes "virtio-fs guest-ip file missing"

unfoldable pub time_out : FilePath → Search → CliIo Ipv4Addr
time_out state_dir s w =
    let log = (read_to_string (join_path state_dir (codes "vfkit.guest.log")) w).0 in
    (
      err (
          missing (join (codes ", ") s.searched)
            (join (codes "; ") (s.reasons ++ (log_reason log ∷ share_reason state_dir w ∷ [])))),
      w,
    )

-- In milliseconds; thirty pauses make up the timeout.
abbrev pub resolve_timeout : ℕ
resolve_timeout = 60000

abbrev pub resolve_pause : ℕ
resolve_pause = 2000

module _ (network : Network) (machine : Machine) (vm_is_running : FilePath → World → Bool)
    (lease_path state_dir : FilePath) where
  open network use {arp, from_utf8_lossy}
  open machine use {now, sleep}

  abbrev pub arp_turn :
      Search
      → Result IoError (Bool × List ℕ) × World
      → Result CliError (Turn Search Ipv4Addr) × World
  arp_turn s (ok (true, stdout), v) = (
    ok (
        or_reason (find_in_arp (from_utf8_lossy stdout) default_vm_mac)
          (codes "ARP table: no entry for MAC") s),
    v,
  )
  arp_turn s (_, v) =
      (ok (missed (note_reason (codes "ARP table: command failed or unavailable") s)), v)

  abbrev pub search_arp : Turn Search Ipv4Addr → CliIo (Turn Search Ipv4Addr)
  search_arp (found ip) w = (ok (found ip), w)
  search_arp (missed s) w =
      arp_turn (note_place (codes "host ARP table") s) (arp (codes "-an" ∷ []) w)

  -- The sources in their order, each when those before it did not answer.
  unfoldable pub try_sources : Search → CliIo (Turn Search Ipv4Addr)
  unfolding search_leases
  try_sources s w = or_continue (query_vfkit_ip network default_restful_port w) (λ w1.
      or_continue (query_vsock_ip network (join_path state_dir (codes "ready.sock")) w1) (λ w2.
        or_continue (guest_ip state_dir w2) (λ w3. or_continue (serial_ip state_dir w3) (λ w4.
          search_arp (search_leases (lease_paths lease_path) (record s { reasons = [] }) w4) w4))))

  -- One round: the machine must run.
  unfoldable pub round : Search → CliIo (Turn Search Ipv4Addr)
  unfolding try_sources not_running_reason
  round s w =
      if not (vm_is_running state_dir w)
      then (err (missing (codes "PID check") (not_running_reason state_dir w)), w)
      else try_sources s w

  unfoldable pub resolve_vm_ip : Option Ipv4Addr → CliIo Ipv4Addr
  unfolding round time_out
  resolve_vm_ip (some vm_ip) w = (ok vm_ip, w)
  resolve_vm_ip none w =
      poll now (sleep resolve_pause) (now w + resolve_timeout) round (time_out state_dir) 30
        initial_search w
