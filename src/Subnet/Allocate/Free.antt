-- ===== src/Subnet/Allocate/Free.antt =====
-- A free subnet, by its address alone.
use flannel_ng.Base.{ℕ, ◌+◌, ◌%◌, ◌≤◌, ◌≡◌, ◌⊎◌, false, List, [], ◌∷◌, arith, All}
use flannel_ng.Base.Word.{size}
use flannel_ng.Crates.{Crates, NetworkLaws}
use flannel_ng.Lease.{Lease}
use flannel_ng.Subnet.Allocate.{overlaps_any}

-- The block of this length at address `a` has no address in common with any lease.
abbrev pub IsFree : (c : Crates) → ℕ → List (Lease c) → ℕ → Type 0
IsFree c len leases a =
    All
      (λ (l : Lease c).
        (a + size len ≤ c.network l.subnet) ⊎ (c.network l.subnet + size (c.prefix l.subnet) ≤ a))
      leases

-- A subnet that may be given out: aligned, in the configured range, and free.
pub record IsCandidate (c : Crates) (len subnet_min subnet_max : ℕ) (leases : List (Lease c))
    (a : ℕ) : Type 0 where
  pub from : subnet_min ≤ a
  pub upto : a ≤ subnet_max
  pub aligned : a % size len ≡ 0
  pub free : IsFree c len leases a

module _ (c : Crates) (laws : NetworkLaws c) (sn : c.Ipv4Network)
    (start : c.ip sn % size (c.prefix sn) ≡ 0) where
  network-first : c.network sn ≡ c.ip sn
  network-first = omega (arith, laws.network-add sn)

  overlaps-false :
      (m : c.Ipv4Network)
      → c.overlaps sn m ≡ false
      → (c.ip sn + size (c.prefix sn) ≤ c.network m) ⊎ (c.network m + size (c.prefix m) ≤ c.ip sn)
  overlaps-false m h = grind (arith, laws.overlaps_iff sn m, network-first)

  overlaps_of_apart :
      (m : c.Ipv4Network)
      → (c.ip sn + size (c.prefix sn) ≤ c.network m) ⊎ (c.network m + size (c.prefix m) ≤ c.ip sn)
      → c.overlaps sn m ≡ false
  overlaps_of_apart m h = grind (arith, laws.overlaps_iff sn m, network-first)

  -- The test of the loop decides freedom.
  pub IsFree-overlaps_any :
      (leases : List (Lease c))
      → overlaps_any c sn leases ≡ false
      → IsFree c (c.prefix sn) leases (c.ip sn)
  unfolding overlaps_any
  IsFree-overlaps_any [] h = tt
  IsFree-overlaps_any (l ∷ ls) h =
      (overlaps-false l.subnet (ground arith), IsFree-overlaps_any ls (ground arith))

  pub overlaps_any-false :
      (leases : List (Lease c))
      → IsFree c (c.prefix sn) leases (c.ip sn)
      → overlaps_any c sn leases ≡ false
  unfolding overlaps_any
  overlaps_any-false [] h = ground arith
  overlaps_any-false (l ∷ ls) h =
      ground (arith, overlaps_of_apart l.subnet h.0, overlaps_any-false ls h.1)
