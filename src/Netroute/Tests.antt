-- ===== src/Netroute/Tests.antt =====
-- Networks as pairs of a block number and a number of host bits, and the test cases of
-- src/netroute.rs over them.
use malleus.Base.{
  ℕ, ◌+◌, ◌*◌, ◌/◌, ◌^◌, ◌≤◌, ◌≡◌, refl, ◌↔◌, Bool, true, ◌&&◌, none, some, List, [], ◌∷◌, arith,
  leb,
}
use malleus.Netroute.{Ipv4Nets, find_conflict}
use malleus.Netroute.Overlap.{IsFirst, find_conflict-IsFirst}

abbrev Cidr : Type 0
Cidr = ℕ × ℕ

abbrev start : Cidr → ℕ
start n = n.0 * 2 ^ n.1

abbrev holds : Cidr → Cidr → Bool
holds n m = leb (start n) (start m) && leb (start m + 2 ^ m.1) (start n + 2 ^ n.1)

holds_iff :
    (n m : Cidr)
    → (holds n m ≡ true) ↔ ((start n ≤ start m) × (start m + 2 ^ m.1 ≤ start n + 2 ^ n.1))
holds_iff n m = (λ h. ground arith, λ h. ground arith)

abbrev cidrs : Ipv4Nets
cidrs = record {
  Ipv4Net = Cidr;
  network = start;
  host_bits = λ n. n.1;
  contains = holds;
  aligned = λ n. (n.0, refl);
  contains_iff = holds_iff;
}

-- `a.b.c.d/prefix`.
abbrev net : ℕ → ℕ → ℕ → ℕ → ℕ → Cidr
net a b c d bits = ((((a * 256 + b) * 256 + c) * 256 + d) / 2 ^ bits, bits)

abbrev bridge : Cidr
bridge = net 10 174 0 0 8

abbrev routes : List Cidr
routes = net 172 16 0 0 20 ∷ net 10 0 0 0 24 ∷ net 192 168 64 0 8 ∷ []

wider_route : find_conflict cidrs bridge routes ≡ some (net 10 0 0 0 24)
unfolding find_conflict
wider_route = refl

narrower_route : find_conflict cidrs bridge (net 10 174 0 0 7 ∷ []) ≡ some (net 10 174 0 0 7)
unfolding find_conflict
narrower_route = refl

no_conflict : find_conflict cidrs bridge (net 172 16 0 0 20 ∷ net 192 168 64 0 8 ∷ []) ≡ none
unfolding find_conflict
no_conflict = refl

find_conflict-IsFirst_example : IsFirst cidrs bridge routes (find_conflict cidrs bridge routes)
find_conflict-IsFirst_example = find_conflict-IsFirst cidrs bridge routes
