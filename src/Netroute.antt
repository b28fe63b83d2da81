-- ===== src/Netroute.antt =====
-- src/netroute.rs: routes that overlap the bridge subnet. `Ipv4Net` is a type of the `ipnet`
-- library, a parameter here.
pub mod Overlap
pub mod Tests
use malleus.Base.{
  ℕ, ◌+◌, ◌*◌, ◌^◌, ◌≤◌, ◌≡◌, ◌↔◌, Bool, true, ◌||◌, Option, none, some, List, [], ◌∷◌,
  if◌then◌else◌,
}

-- The parts of `ipnet::Ipv4Net` that the program uses, with what that library documents: a network
-- is a block of `2 ^ host_bits` addresses that starts at a multiple of its size, and a network
-- contains another exactly when it holds the other's first and last address.
pub record Ipv4Nets : Type 1 where
  pub Ipv4Net : Type 0
  pub network : Ipv4Net → ℕ
  pub host_bits : Ipv4Net → ℕ
  pub contains : Ipv4Net → Ipv4Net → Bool
  pub aligned : (n : Ipv4Net) → (k : ℕ) × (network n ≡ k * 2 ^ host_bits n)
  pub contains_iff :
      (n m : Ipv4Net)
      → (contains n m ≡ true)
        ↔ ((network n ≤ network m) × (network m + 2 ^ host_bits m ≤ network n + 2 ^ host_bits n))

module _ (nets : Ipv4Nets) where
  open nets use {Ipv4Net, contains}

  -- `existing.iter().copied().find(…)`.
  unfoldable pub find_conflict : Ipv4Net → List Ipv4Net → Option Ipv4Net
  find_conflict wanted [] = none
  find_conflict wanted (route ∷ existing) =
      let rest = find_conflict wanted existing in
      if contains route wanted || contains wanted route then some route else rest
