-- ===== src/Netroute/Overlap.antt =====
-- Containment one way or the other is overlap.
use native.Mathlib.Decide.{dec_le}
use native.Mathlib.Nat.{add-zero, add-suc, pow-zero, pow-suc}
use malleus.Base.{
  ℕ, zero, suc, ◌+◌, ◌-◌, ◌*◌, ◌^◌, ◌≤◌, ◌<◌, ◌≡◌, refl, ◌↔◌, true, ◌||◌, Option, none, some, List,
  [], ◌∷◌, ◌++◌, arith, All, Bool-cases, inl, inr, ap, ◌∙◌,
}
use malleus.Netroute.{Ipv4Nets, find_conflict}

times_mono : (a b m : ℕ) → a ≤ b → a * m ≤ b * m
times_mono a b m h = grind arith

-- An overlap of two blocks of aligned addresses, the second `q` times as large, puts the first
-- inside the second.
nested :
    (j k q m x : ℕ)
    → j * m ≤ x
    → x < j * m + m
    → k * (q * m) ≤ x
    → x < k * (q * m) + q * m
    → (k * (q * m) ≤ j * m) × (j * m + m ≤ k * (q * m) + q * m)
nested j k q m x a b c d =
    let low : k * q ≤ j = elim (dec_le (k * q) j) [
      | yes p ↦ p
      | no p ↦ absurd (omega (arith, times_mono (j + 1) (k * q) m (omega arith)))
    ] in
    let high : j + 1 ≤ k * q + q = elim (dec_le (j + 1) (k * q + q)) [
      | yes p ↦ p
      | no p ↦ absurd (omega (arith, times_mono (k * q + q) j m (omega arith)))
    ] in
    (
      omega (arith, times_mono (k * q) j m low),
      omega (arith, times_mono (j + 1) (k * q + q) m high),
    )

pow_add : (s d : ℕ) → 2 ^ (s + d) ≡ 2 ^ d * 2 ^ s
pow_add s zero = rw (add-zero, pow-zero) (omega arith)
pow_add s (suc d) = rw (add-suc, pow-suc, pow-suc) (omega (arith, pow_add s d))

pow_split : (s t : ℕ) → s ≤ t → 2 ^ t ≡ 2 ^ (t - s) * 2 ^ s
pow_split s t h = ap (λ e. 2 ^ e) (omega arith) ∙ pow_add s (t - s)

pow_pos : (s : ℕ) → 0 < 2 ^ s
pow_pos zero = rw pow-zero (omega arith)
pow_pos (suc s) = rw pow-suc (omega (arith, pow_pos s))

module _ (nets : Ipv4Nets) where
  open nets use {Ipv4Net, network, host_bits, contains, aligned, contains_iff}

  -- The addresses of a network.
  abbrev pub Holds : Ipv4Net → ℕ → Type 0
  Holds n x = (network n ≤ x) × (x < network n + 2 ^ host_bits n)

  -- An address that two networks share.
  abbrev pub Overlap : Ipv4Net → Ipv4Net → Type 0
  Overlap n m = (x : ℕ) × Holds n x × Holds m x

  contains_of_le : (n m : Ipv4Net) → Overlap n m → host_bits m ≤ host_bits n → contains n m ≡ true
  contains_of_le n m (x, (nx, xn), (mx, xm)) h =
      let (k, ek) = aligned n in
      let (j, ej) = aligned m in
      let e = pow_split (host_bits m) (host_bits n) h in
      (contains_iff n m).1 (
        let r =
          nested j k (2 ^ (host_bits n - host_bits m)) (2 ^ host_bits m) x (rw (← ej) mx)
            (rw (← ej) xm) (rw (← e, ← ek) nx) (rw (← e, ← ek) xn) in
        rw (ek, ej, e) r)

  Overlap-contains : (n m : Ipv4Net) → contains n m ≡ true → Overlap n m
  Overlap-contains n m h =
      let (low, high) = (contains_iff n m).0 h in
      let pos = pow_pos (host_bits m) in (network m, (low, omega arith), (omega arith, omega arith))

  -- Two networks share an address exactly when one contains the other.
  Overlap-iff :
      (route wanted : Ipv4Net)
      → ((contains route wanted || contains wanted route) ≡ true) ↔ Overlap route wanted
  Overlap-iff route wanted = (
    λ h. elim (Bool-cases (contains route wanted)) [
      | inl c ↦ Overlap-contains route wanted c
      | inr c ↦ let (x, w, r) = Overlap-contains wanted route (ground arith) in (x, r, w)
    ],
    λ o. elim (dec_le (host_bits wanted) (host_bits route)) [
      | yes p ↦ rw (contains_of_le route wanted o p)
      | no p ↦ let c = contains_of_le wanted route (o.0, o.2, o.1) (omega arith) in ground arith
    ],
  )

  -- What a result says of the existing routes.
  abbrev pub IsFirst : Ipv4Net → List Ipv4Net → Option Ipv4Net → Type 0
  IsFirst wanted existing none = All (λ r. ¬ Overlap r wanted) existing
  IsFirst wanted existing (some route) =
      (before after : List Ipv4Net) × (existing ≡ before ++ route ∷ after)
      × All (λ r. ¬ Overlap r wanted) before
      × Overlap route wanted

  IsFirst-cons :
      (wanted route : Ipv4Net) (existing : List Ipv4Net) (o : Option Ipv4Net)
      → ¬ Overlap route wanted
      → IsFirst wanted existing o
      → IsFirst wanted (route ∷ existing) o
  IsFirst-cons wanted route existing none h all = (h, all)
  IsFirst-cons wanted route existing (some r) h (before, after, e, all, o) =
      (route ∷ before, after, ap (λ t. route ∷ t) e, (h, all), o)

  -- The result is the first route that shares an address with the wanted network; there is none
  -- exactly if no route does.
  pub find_conflict-IsFirst :
      (wanted : Ipv4Net) (existing : List Ipv4Net)
      → IsFirst wanted existing (find_conflict nets wanted existing)
  unfolding find_conflict
  find_conflict-IsFirst wanted [] = tt
  find_conflict-IsFirst wanted (route ∷ existing) =
      elim (Bool-cases (contains route wanted || contains wanted route)) [
        | inl c ↦ rw c ([], existing, refl, tt, (Overlap-iff route wanted).0 c)
        | inr c ↦ rw c (
            IsFirst-cons wanted route existing _ (λ o. let t = (Overlap-iff route wanted).1 o in cc)
              (find_conflict-IsFirst wanted existing))
      ]
