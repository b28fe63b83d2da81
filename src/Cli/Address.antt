-- ===== src/Cli/Address.antt =====
-- `query_vfkit_ip`, `query_vsock_ip` and the sources of `resolve_vm_ip` of src/main.rs: where the
-- address of the guest is looked for.
pub mod Round
pub mod Laws
pub mod Keeps
pub mod Resolve
pub mod Serial
pub mod Tests
use mathlib.Core.Option.{bind}
use malleus.Base.{
  ℕ, Bool, true, false, Option, none, some, List, [], ◌∷◌, ◌++◌, find_map, if◌then◌else◌,
}
use malleus.Base.Text.{Text, codes, text_eq, trim, split_whitespace, after_find, lines}
use malleus.Base.Number.{to_string}
use malleus.Base.Ipv4.{Ipv4Addr, parse_ipv4}
use malleus.Base.FilePath.{FilePath, join_path}
use malleus.Base.Result.{Result, ok, err}
use malleus.Base.Io.{Io, fail, check, convert, from_error, ◌>>=◌, ◌>>◌}
use malleus.Base.Fs.{IoError, World, read_to_string}
use malleus.Leases.Scan.{find_lease}
use malleus.Leases.Arp.{find_in_arp}
use malleus.Cli.Json.{Json, inspected_ip}
use malleus.Cli.Start.{default_vm_mac, default_restful_port}

-- A computation that answers or does not: `.ok()?`.
abbrev pub Try : Type 0 → Type 0
Try = Io World (Unit {0})

abbrev pub of_io : {A : Type 0} → Io World IoError A → Try A
of_io = from_error (λ _. tt)

abbrev pub of_option : {A : Type 0} → Option A → Result (Unit {0}) A
of_option none = err tt
of_option (some a) = ok a

-- The programs, the sockets and the parser of JSON that are asked. A program answers whether it
-- succeeds and what it prints; a stream is a number.
pub record Network : Type 1 where
  pub curl : List Text → Io World IoError (Bool × List ℕ)
  pub arp : List Text → Io World IoError (Bool × List ℕ)
  pub json : Json
  pub connect : FilePath → Io World IoError ℕ
  pub set_read_timeout : ℕ → ℕ → Io World IoError (Unit {0})
  pub read_stream : ℕ → Io World IoError Text
  pub from_utf8_lossy : List ℕ → Text

abbrev pub or_empty : Option Text → Text
or_empty none = []
or_empty (some word) = word

abbrev pub first_word : List Text → Option Text
first_word [] = none
first_word (word ∷ _) = some word

-- A line of the guest's serial log.
unfoldable pub reported_ip : Text → Option Ipv4Addr
unfolding bind
reported_ip line =
    bind (after_find (codes "Reported IP ") line)
      (λ part. parse_ipv4 (or_empty (first_word (split_whitespace part))))

abbrev pub reversed {ℓ} : {A : Type ℓ} → List A → List A → List A
reversed [] acc = acc
reversed (x ∷ xs) acc = reversed xs (x ∷ acc)

-- `lines().rev()`.
abbrev pub last_lines : Text → List Text
last_lines content = reversed (lines content) []

-- The file that the guest writes to the shared state directory.
unfoldable pub guest_ip : FilePath → Try Ipv4Addr
guest_ip state_dir = do
  text ← of_io (read_to_string (join_path state_dir (codes "guest-ip")))
  check (of_option (parse_ipv4 (trim text)))

-- The newest line of the serial log that reports an address.
unfoldable pub serial_ip : FilePath → Try Ipv4Addr
unfolding reported_ip
serial_ip state_dir = do
  content ← of_io (read_to_string (join_path state_dir (codes "vfkit.guest.log")))
  check (of_option (find_map reported_ip (last_lines content)))

module _ (network : Network) where
  open network use {curl, arp, json, connect, set_read_timeout, read_stream, from_utf8_lossy}

  abbrev inspect_url : ℕ → Text
  inspect_url port = codes "http://localhost:" ++ (to_string port ++ codes "/vm/inspect")

  unfoldable pub inspected : Bool × List ℕ → Try Ipv4Addr
  unfolding bind inspected_ip
  inspected (false, stdout) w = (err tt, w)
  inspected (true, stdout) w = (of_option (bind (json.from_slice stdout) (inspected_ip json)), w)

  unfoldable pub query_vfkit_ip : ℕ → Try Ipv4Addr
  unfolding inspected
  query_vfkit_ip port = do
    output ← of_io (curl (codes "-s" ∷ inspect_url port ∷ []))
    inspected output

  unfoldable pub query_vsock_ip : FilePath → Try Ipv4Addr
  unfolding bind
  query_vsock_ip ready_sock = do
    stream ← of_io (connect ready_sock)
    of_io (set_read_timeout stream 1000)
    buf ← of_io (read_stream stream)
    check (of_option (bind (first_word (split_whitespace buf)) parse_ipv4))
