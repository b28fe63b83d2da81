-- ===== src/Leases/Tests.antt =====
-- The test cases of src/leases.rs, and the theorems at their inputs.
use mathlib.Core.List.{cons-ne-nil}
use malleus.Base.Text.Split.{Lacks_of_any}
use malleus.Base.Text.Lines.{IsWord}
use malleus.Base.{false, any, is_empty, ℕ, ◌≡◌, refl, ◌↔◌, none, some, List, [], ◌∷◌, arith, All}
use malleus.Base.Text.{
  Text, codes, split_on, split_once, join, replace, is_ascii_whitespace, trim_end_matches,
}
use malleus.Base.Number.{from_str_radix, to_string}
use malleus.Base.Ipv4.{IsIpv4, Ipv4Addr, parse_ipv4, parse_octet, show_ipv4}
use malleus.Leases.Mac.{normalize_mac}
use malleus.Leases.Mac.Laws.{mac_bytes}
use malleus.Leases.Mac.Canonical.{IsMac, normalize_mac_exact}
use malleus.Leases.Scan.{is_tail, find_lease, lease_words}
use malleus.Leases.Scan.Blocks.{blocks_from}
use malleus.Leases.Scan.Identity.{find_lease-lease_ip}
use malleus.Leases.Scan.Render.{is_special, render_file}
use malleus.Leases.Scan.Records.{Lease, IsLease, render_leases, find_lease-render_leases}
use malleus.Leases.Arp.{find_in_arp}
use malleus.Leases.Arp.Table.{Arp, IsArp, render_arps, find_in_arp-render_arps}

abbrev address : ℕ → Ipv4Addr
address d = record { a = 192; b = 168; c = 64; d = d }

-- `52:54:00:12:34:56`.
abbrev vm_bytes : List ℕ
vm_bytes = 0x52 ∷ 0x54 ∷ 0 ∷ 0x12 ∷ 0x34 ∷ 0x56 ∷ []

abbrev vm_mac : Text
vm_mac = codes "52:54:00:12:34:56"

abbrev leases : List Lease
leases =
    record {
      name = codes "other-vm";
      ip = address 4;
      mac = 0xaa ∷ 0xbb ∷ 0xcc ∷ 0xdd ∷ 0xee ∷ 0xff ∷ [];
      expires = codes "0x687a1000";
    }
    ∷ record { name = codes "debian"; ip = address 5; mac = vm_bytes; expires = codes "0x687a2000" }
    ∷ []

-- The table prints as the sample of the source.
sample_text :
    render_leases (leases)
    ≡ codes
        "{\n\tname=other-vm\n\tip_address=192.168.64.4\n\thw_address=1,aa:bb:cc:dd:ee:ff\n\tidentifier=1,aa:bb:cc:dd:ee:ff\n\tlease=0x687a1000\n}\n{\n\tname=debian\n\tip_address=192.168.64.5\n\thw_address=1,52:54:0:12:34:56\n\tidentifier=1,52:54:0:12:34:56\n\tlease=0x687a2000\n}\n"
unfolding render_file show_ipv4 to_string join
sample_text = refl

malformed_record_skipped :
    find_lease
      (codes
        "{\n\tip_address=not-an-ip\n\thw_address=1,52:54:0:12:34:56\n}\n{\n\tip_address=192.168.64.9\n\thw_address=1,52:54:0:12:34:56\n}\n")
      vm_mac
      none
    ≡ some (address 9)
unfolding find_lease normalize_mac from_str_radix split_on split_once join replace
    is_ascii_whitespace trim_end_matches parse_ipv4 parse_octet
malformed_record_skipped = refl

lease-IsLease :
    (l : Lease)
    → any is_special l.name ≡ false
    → trim_end_matches is_tail l.name ≡ l.name
    → IsIpv4 l.ip
    → IsMac l.mac
    → any is_special l.expires ≡ false
    → trim_end_matches is_tail l.expires ≡ l.expires
    → IsLease l
lease-IsLease l n ne i m e ee = record {
  name_token = Lacks_of_any _ l.name n;
  name_end = ne;
  ip_fits = i;
  mac_fits = m;
  expires_token = Lacks_of_any _ l.expires e;
  expires_end = ee;
}

leases-IsLease : All IsLease leases
unfolding is_ascii_whitespace trim_end_matches
leases-IsLease = (
  lease-IsLease _ refl refl (omega arith) (omega arith) refl refl,
  (lease-IsLease _ refl refl (omega arith) (omega arith) refl refl, tt),
)

find_lease-render_leases_example : find_lease (render_leases leases) vm_mac none ≡ some (address 5)
unfolding from_str_radix split_on
find_lease-render_leases_example = find_lease-render_leases vm_mac none leases leases-IsLease

-- A lease under the wanted name is taken, whatever its MAC address.
found_by_name :
    find_lease (render_leases leases) (codes "not-a-mac") (some (codes "debian")) ≡ some (address 5)
unfolding from_str_radix split_on
found_by_name =
    find_lease-render_leases (codes "not-a-mac") (some (codes "debian")) leases leases-IsLease

find_lease-lease_ip_example :
    find_lease (codes "{ ip_address=10.0.0.1 name=malleus } }") vm_mac (some (codes "malleus"))
    ≡ some (record { a = 10; b = 0; c = 0; d = 1 })
unfolding normalize_mac from_str_radix split_on split_once join lease_words replace blocks_from
    is_ascii_whitespace trim_end_matches parse_ipv4 parse_octet
find_lease-lease_ip_example =
    find_lease-lease_ip (codes "{ ip_address=10.0.0.1 name=malleus } }") vm_mac
      (some (codes "malleus"))

not_a_mac : normalize_mac (codes "not-a-mac") ≡ none
unfolding normalize_mac from_str_radix split_on
not_a_mac = refl

vm_mac_normal : normalize_mac vm_mac ≡ some vm_mac
unfolding normalize_mac from_str_radix split_on join
vm_mac_normal = refl

normalize_mac_exact_example :
    (normalize_mac (codes "52:54:0:12:34:56") ≡ some vm_mac)
    ↔ (mac_bytes (codes "52:54:0:12:34:56") ≡ mac_bytes vm_mac)
normalize_mac_exact_example =
    normalize_mac_exact vm_mac (codes "52:54:0:12:34:56") vm_mac vm_mac_normal

stripped_normal : normalize_mac (codes "52:54:0:12:34:56") ≡ some vm_mac
unfolding normalize_mac from_str_radix split_on join
stripped_normal = refl

abbrev arps : List Arp
arps =
    record {
      host = codes "?";
      ip = address 1;
      mac = codes "(incomplete)";
      rest = codes "on" ∷ codes "bridge100" ∷ [];
    }
    ∷ record {
      host = codes "?";
      ip = address 5;
      mac = codes "52:54:0:12:34:56";
      rest = codes "on" ∷ codes "bridge100" ∷ codes "ifscope" ∷ codes "[ethernet]" ∷ [];
    }
    ∷ []

arp_text :
    render_arps arps
    ≡ codes
        "? (192.168.64.1) at (incomplete) on bridge100\n? (192.168.64.5) at 52:54:0:12:34:56 on bridge100 ifscope [ethernet]\n"
unfolding render_arps show_ipv4 to_string join
arp_text = refl

is_empty-IsWord : (w : Text) → is_empty w ≡ false → any is_ascii_whitespace w ≡ false → IsWord w
is_empty-IsWord [] h _ = cc
is_empty-IsWord (c ∷ w) _ h = (cons-ne-nil _ _, Lacks_of_any _ (c ∷ w) h)

arps-IsArp : All IsArp arps
unfolding is_ascii_whitespace
arps-IsArp = (
  record {
    host_word = is_empty-IsWord _ refl refl;
    ip_fits = omega arith;
    mac_word = is_empty-IsWord _ refl refl;
    rest_words = (is_empty-IsWord _ refl refl, (is_empty-IsWord _ refl refl, tt));
  },
  (
    record {
      host_word = is_empty-IsWord _ refl refl;
      ip_fits = omega arith;
      mac_word = is_empty-IsWord _ refl refl;
      rest_words = (
        is_empty-IsWord _ refl refl,
        (
          is_empty-IsWord _ refl refl,
          (is_empty-IsWord _ refl refl, (is_empty-IsWord _ refl refl, tt)),
        ),
      );
    },
    tt,
  ),
)

find_in_arp-render_arps_example : find_in_arp (render_arps arps) vm_mac ≡ some (address 5)
unfolding from_str_radix split_on
find_in_arp-render_arps_example = find_in_arp-render_arps arps vm_mac arps-IsArp
