-- ===== src/Cli/Address/Laws.antt =====
-- The order of the sources.
use malleus.Base.{
  ◌≡◌, refl, ap, ◌∙◌, true, false, Option, none, some, List, [], ◌∷◌, ◌++◌, map, Bool, ℕ, inl, inr,
  Option-cases,
}
use malleus.Base.Text.{codes}
use malleus.Base.Ipv4.{Ipv4Addr}
use malleus.Base.FilePath.{FilePath, join_path}
use malleus.Base.Result.{Result, ok, err, Result-cases}
use malleus.Base.Io.{fail, check, after, convert, ◌>>=◌}
use malleus.Base.Poll.{Turn, found, missed}
use malleus.Base.Fs.{IoError, World, read_to_string}
use malleus.Base.Fs.Laws.{read_to_string-world}
use malleus.Leases.Scan.{find_lease}
use malleus.Leases.Arp.{find_in_arp}
use malleus.Cli.Error.{CliError}
use malleus.Cli.Start.{default_vm_mac, default_restful_port}
use malleus.Cli.Spawn.{Machine}
use malleus.Cli.Address.{
  Try, of_io, of_option, Network, query_vfkit_ip, query_vsock_ip, guest_ip, serial_ip,
}
use malleus.Cli.Address.Round.{
  Search, note_place, or_continue, search_leases, arp_turn, search_arp, lease_paths, try_sources,
}

-- The abstract view: sources that are asked one after the other until one answers.
abbrev pub fall_back :
    Result (Unit {0}) Ipv4Addr × World → Try Ipv4Addr → Result (Unit {0}) Ipv4Addr × World
fall_back (ok ip, v) rest = (ok ip, v)
fall_back (err _, v) rest = rest v

abbrev pub first_answer : List (Try Ipv4Addr) → Try Ipv4Addr
first_answer [] w = (err tt, w)
first_answer (source ∷ sources) w = fall_back (source w) (first_answer sources)

-- The lease in a file that can be read.
unfoldable pub lease_ip : FilePath → Try Ipv4Addr
lease_ip path = do
  contents ← of_io (read_to_string path)
  check (of_option (find_lease contents default_vm_mac (some (codes "malleus"))))

-- The address behind a round, without what is noted for the error.
abbrev pub answer :
    Result CliError (Turn Search Ipv4Addr) × World → Result CliError (Option Ipv4Addr) × World
answer (ok (found ip), v) = (ok (some ip), v)
answer (ok (missed s), v) = (ok none, v)
answer (err e, v) = (err e, v)

abbrev pub as_option :
    Result (Unit {0}) Ipv4Addr × World → Result CliError (Option Ipv4Addr) × World
as_option (ok ip, v) = (ok (some ip), v)
as_option (err _, v) = (ok none, v)

answer-or_continue :
    (r : Result (Unit {0}) Ipv4Addr × World)
    (rest : World → Result CliError (Turn Search Ipv4Addr) × World) (sources : Try Ipv4Addr)
    → ((v : World) → answer (rest v) ≡ as_option (sources v))
    → answer (or_continue r rest) ≡ as_option (fall_back r sources)
answer-or_continue (ok ip, v) rest sources h = refl
answer-or_continue (err _, v) rest sources h = h v

read_pair : (p : FilePath) (w : World) → read_to_string p w ≡ ((read_to_string p w).0, w)
read_pair p w = ap (λ v. ((read_to_string p w).0, v)) (read_to_string-world p w)

module _ (network : Network) (machine : Machine) (vm_is_running : FilePath → World → Bool)
    (lease_path state_dir : FilePath) where
  abbrev arp_answer : Bool × List ℕ → Try Ipv4Addr
  arp_answer (false, stdout) = fail tt
  arp_answer (true, stdout) =
      check (of_option (find_in_arp (network.from_utf8_lossy stdout) default_vm_mac))

  unfoldable pub arp_ip : Try Ipv4Addr
  arp_ip = do output ← of_io (network.arp (codes "-an" ∷ [])); arp_answer output

  abbrev pub sources : List (Try Ipv4Addr)
  sources =
      query_vfkit_ip network default_restful_port
        ∷ query_vsock_ip network (join_path state_dir (codes "ready.sock"))
        ∷ guest_ip state_dir
        ∷ serial_ip state_dir
        ∷ map lease_ip (lease_paths lease_path)
      ++ (arp_ip ∷ [])

  search_arp-arp_ip :
      (s : Search) (w : World)
      → answer (search_arp network machine vm_is_running lease_path state_dir (missed s) w)
        ≡ as_option (first_answer (arp_ip ∷ []) w)
  unfolding arp_ip
  search_arp-arp_ip s w = on (network.arp (codes "-an" ∷ []) w)
    where
      on :
          (r : Result IoError (Bool × List ℕ) × World)
          → answer (
              arp_turn network machine vm_is_running lease_path state_dir
                (note_place (codes "host ARP table") s)
                r)
            ≡ as_option (fall_back (after (convert (λ _. tt) r) arp_answer) (fail tt))
      on (err e, v) = refl
      on (ok (false, stdout), v) = refl
      on (ok (true, stdout), v) =
          elim (Option-cases (find_in_arp (network.from_utf8_lossy stdout) default_vm_mac)) [
            | inl none_there ↦ rw none_there refl
            | inr (ip, there) ↦ rw there refl
          ]

  search_leases-lease_ip :
      (paths : List FilePath) (s : Search) (w : World)
      → answer (
          search_arp network machine vm_is_running lease_path state_dir (search_leases paths s w) w)
        ≡ as_option (first_answer (map lease_ip paths ++ (arp_ip ∷ [])) w)
  unfolding search_leases lease_ip
  search_leases-lease_ip [] s w = search_arp-arp_ip s w
  search_leases-lease_ip (path ∷ paths) s w = elim (Result-cases (read_to_string path w).0) [
    | inr (e, unreadable) ↦
        let read = read_pair path w ∙ ap (λ r. (r, w)) unreadable in
        rw (search_leases, read) (search_leases-lease_ip paths _ w)
    | inl (contents, readable) ↦
        let read = read_pair path w ∙ ap (λ r. (r, w)) readable in
        elim (Option-cases (find_lease contents default_vm_mac (some (codes "malleus")))) [
          | inl no_lease ↦ rw (search_leases, read, no_lease) (search_leases-lease_ip paths _ w)
          | inr (ip, lease) ↦ rw (search_leases, read, lease) refl
        ]
  ]

  -- While the machine runs, a round gives the first answer of the sources in this order: the REST
  -- interface of vfkit, the readiness socket, the file of the guest, its serial log, the two lease
  -- files and the ARP table; it asks no source behind one that answers, and it never fails.
  pub try_sources-first_answer :
      (s : Search) (w : World)
      → answer (try_sources network machine vm_is_running lease_path state_dir s w)
        ≡ as_option (first_answer sources w)
  unfolding try_sources
  try_sources-first_answer s w =
      answer-or_continue (query_vfkit_ip network default_restful_port w) _ _ (λ w1.
        answer-or_continue (query_vsock_ip network (join_path state_dir (codes "ready.sock")) w1) _
          _
          (λ w2. answer-or_continue (guest_ip state_dir w2) _ _ (λ w3.
            answer-or_continue (serial_ip state_dir w3) _ _ (λ w4.
              search_leases-lease_ip (lease_paths lease_path) (record s { reasons = [] }) w4))))
