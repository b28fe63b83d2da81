-- ===== src/Cli/Address/Keeps.antt =====
-- What a round over the sources keeps.
use mathlib.Core.Path.{subst}
use malleus.Base.{ℕ, sym, Bool, true, false, List, inl, inr, Bool-cases}
use malleus.Base.Text.{Text, codes}
use malleus.Base.Ipv4.{Ipv4Addr}
use malleus.Base.FilePath.{FilePath}
use malleus.Base.Result.{Result, ok, err}
use malleus.Base.Io.{after, after-keeps, convert, convert-keeps}
use malleus.Base.Poll.{Turn, found, missed}
use malleus.Base.Fs.{IoError, World, read_to_string}
use malleus.Base.Fs.Laws.{read_to_string-world}
use malleus.Cli.Error.{CliError}
use malleus.Cli.Spawn.{Machine}
use malleus.Cli.Start.{default_restful_port}
use malleus.Cli.Address.{
  of_io, Network, inspected, query_vfkit_ip, query_vsock_ip, guest_ip, serial_ip,
}
use malleus.Cli.Address.Round.{
  Search, note_place, or_continue, arp_turn, search_arp, try_sources, round,
}

-- A property of the world that no program or socket that is asked destroys.
pub record IsKept (network : Network) (P : World → Type 0) : Type 0 where
  pub by_curl : (args : List Text) (w : World) → P w → P (network.curl args w).1
  pub by_arp : (args : List Text) (w : World) → P w → P (network.arp args w).1
  pub by_connect : (path : FilePath) (w : World) → P w → P (network.connect path w).1
  pub by_timeout : (stream ms : ℕ) (w : World) → P w → P (network.set_read_timeout stream ms w).1
  pub by_read : (stream : ℕ) (w : World) → P w → P (network.read_stream stream w).1

module _ (network : Network) (P : World → Type 0) (kept : IsKept network P) where
  inspected-keeps : (output : Bool × List ℕ) (w : World) → P w → P (inspected network output w).1
  unfolding inspected
  inspected-keeps (false, stdout) w p = p
  inspected-keeps (true, stdout) w p = p

  query_vfkit_ip-keeps : (port : ℕ) (w : World) → P w → P (query_vfkit_ip network port w).1
  unfolding query_vfkit_ip
  query_vfkit_ip-keeps port w p =
      after-keeps P (convert (λ _. tt) (network.curl _ w)) (λ output. inspected network output)
        (convert-keeps P (λ _. tt) (network.curl _ w) (kept.by_curl _ w p))
        (λ output v q. inspected-keeps output v q)

  query_vsock_ip-keeps : (sock : FilePath) (w : World) → P w → P (query_vsock_ip network sock w).1
  unfolding query_vsock_ip
  query_vsock_ip-keeps sock w p =
      after-keeps P (convert (λ _. tt) (network.connect sock w)) _
        (convert-keeps P (λ _. tt) (network.connect sock w) (kept.by_connect sock w p))
        (λ stream v q.
          after-keeps P (convert (λ _. tt) (network.set_read_timeout stream 1000 v)) _
            (convert-keeps P (λ _. tt) (network.set_read_timeout stream 1000 v)
              (kept.by_timeout stream 1000 v q))
            (λ _ u k.
              after-keeps P (convert (λ _. tt) (network.read_stream stream u)) _
                (convert-keeps P (λ _. tt) (network.read_stream stream u) (kept.by_read stream u k))
                (λ buf x l. l)))

  after_read-keeps :
      {B : Type 0} (path : FilePath) (next : Text → World → Result (Unit {0}) B × World) (w : World)
      → ((t : Text) (v : World) → P v → P (next t v).1)
      → P w
      → P (after (of_io (read_to_string path) w) next).1
  after_read-keeps path next w keeps p =
      after-keeps P (convert (λ _. tt) (read_to_string path w)) next
        (convert-keeps P (λ _. tt) (read_to_string path w)
          (subst P (sym (read_to_string-world path w)) p))
        keeps

  or_continue-keeps :
      (r : Result (Unit {0}) Ipv4Addr × World)
      (rest : World → Result CliError (Turn Search Ipv4Addr) × World)
      → P r.1
      → ((v : World) → P v → P (rest v).1)
      → P (or_continue r rest).1
  or_continue-keeps (ok ip, v) rest p keeps = p
  or_continue-keeps (err e, v) rest p keeps = keeps v p

  module _ (machine : Machine) (vm_is_running : FilePath → World → Bool)
      (lease_path state_dir : FilePath) where
    arp_turn-keeps :
        (s : Search) (r : Result IoError (Bool × List ℕ) × World)
        → P r.1
        → P (arp_turn network machine vm_is_running lease_path state_dir s r).1
    arp_turn-keeps s (err e, v) p = p
    arp_turn-keeps s (ok (false, stdout), v) p = p
    arp_turn-keeps s (ok (true, stdout), v) p = p

    search_arp-keeps :
        (t : Turn Search Ipv4Addr) (w : World)
        → P w
        → P (search_arp network machine vm_is_running lease_path state_dir t w).1
    search_arp-keeps (found ip) w p = p
    search_arp-keeps (missed s) w p =
        arp_turn-keeps (note_place (codes "host ARP table") s) (network.arp _ w) (kept.by_arp _ w p)

    try_sources-keeps :
        (s : Search) (w : World)
        → P w
        → P (try_sources network machine vm_is_running lease_path state_dir s w).1
    unfolding try_sources guest_ip serial_ip
    try_sources-keeps s w p =
        or_continue-keeps (query_vfkit_ip network default_restful_port w) _
          (query_vfkit_ip-keeps default_restful_port w p)
          (λ w1 p1.
            or_continue-keeps (query_vsock_ip network _ w1) _ (query_vsock_ip-keeps _ w1 p1)
              (λ w2 p2.
                or_continue-keeps (guest_ip state_dir w2) _
                  (after_read-keeps _ _ w2 (λ t v q. q) p2)
                  (λ w3 p3.
                    or_continue-keeps (serial_ip state_dir w3) _
                      (after_read-keeps _ _ w3 (λ t v q. q) p3)
                      (λ w4 p4. search_arp-keeps _ w4 p4))))

    pub round-keeps :
        (s : Search) (w : World)
        → P w
        → P (round network machine vm_is_running lease_path state_dir s w).1
    unfolding round
    round-keeps s w p = elim (Bool-cases (vm_is_running state_dir w)) [
      | inl running ↦ rw running (try_sources-keeps s w p)
      | inr halted ↦ rw halted p
    ]
