-- ===== src/Subnet/Allocate/Sound.antt =====
-- The results of `allocate_subnet` of src/subnet/subnet.rs.
use flannel_ng.Base.{
  ℕ, zero, suc, ◌+◌, ◌≤◌, ◌<◌, ◌%◌, ◌≡◌, refl, ◌⊎◌, inl, inr, false, List, [], ◌∷◌, arith, All,
  Bool-cases, length, get_elem?, some,
}
use flannel_ng.Base.Outcome.{ok, err, no_available_subnets}
use flannel_ng.Base.Word.{size, u32_mod}
use flannel_ng.Crates.{Crates, NetworkLaws}
use flannel_ng.Lease.{Lease}
use flannel_ng.Subnet.Config.{Config}
use flannel_ng.Subnet.Watcher.{is_empty}
use flannel_ng.Subnet.Allocate.{collect, loop_fuel, allocate_subnet}
use flannel_ng.Subnet.Allocate.Free.{IsCandidate}
use flannel_ng.Subnet.Allocate.Search.{collect_lem, Inv}

-- What `gen_range(0..n)` promises.
abbrev pub IsPick : (ℕ → ℕ) → Type 0
IsPick pick = (n : ℕ) → 0 < n → pick n < n

get_of_All {ℓ κ} :
    {A : Type ℓ} (P : A → Type κ) (xs : List A) (i : ℕ)
    → All P xs
    → i < length xs
    → (a : A) × (get_elem? xs i ≡ some a) × P a
get_of_All P [] i h lt = absurd (omega arith)
get_of_All P (x ∷ xs) zero h lt = (x, refl, h.0)
get_of_All P (x ∷ xs) (suc i) h lt = get_of_All P xs i h.1 (omega arith)

length_pos {ℓ} : {A : Type ℓ} (xs : List A) → is_empty xs ≡ false → 0 < length xs
length_pos [] h = cc
length_pos (x ∷ xs) h = omega arith

module _ (c : Crates) where
  -- A configuration of IPv4 subnets whose last subnet ends below the end of the address space.
  pub record IsRange (config : Config c) (subnet_min subnet_max : ℕ) : Type 0 where
    pub min_given : config.subnet_min ≡ some subnet_min
    pub max_given : config.subnet_max ≡ some subnet_max
    pub min_aligned : subnet_min % size config.subnet_len ≡ 0
    pub min_bound : subnet_min < u32_mod
    pub room : subnet_max + size config.subnet_len < u32_mod
    pub long : 0 < config.subnet_len
    pub short : config.subnet_len ≤ 30

module _ (c : Crates) (laws : NetworkLaws c) where
  -- What the search from the first subnet of the range returns.
  collected :
      (config : Config c) (leases : List (Lease c)) (subnet_min subnet_max : ℕ)
      → IsRange c config subnet_min subnet_max
      → (sn : c.Ipv4Network) × (out : List ℕ) × (c.new subnet_min config.subnet_len ≡ some sn)
        × (collect c loop_fuel leases subnet_max sn [] ≡ ok out)
        × All (IsCandidate c config.subnet_len subnet_min subnet_max leases) out
        × ((a : ℕ)
            → IsCandidate c config.subnet_len subnet_min subnet_max leases a
            → is_empty out ≡ false)
  collected config leases subnet_min subnet_max range =
      let len = config.subnet_len in
      let (sn, made, i, p) =
        laws.new-some subnet_min len range.min_bound (omega (arith, range.short)) in
      let start : Inv c laws len subnet_min subnet_max leases range.long range.short range.room sn
          [] =
        record {
          of_len = p;
          from = omega (arith, i);
          aligned = rw i range.min_aligned;
          all_good = tt;
          none_missed = λ a good lt. absurd (omega (arith, good.from, i));
        } in
      let (out, returns, good, complete) =
        collect_lem c laws len subnet_min subnet_max leases range.long range.short range.room
          loop_fuel sn [] start (omega arith) (omega (arith, range.room, i)) in
      (sn, out, made, returns, good, complete)

module _ (c : Crates) (laws : NetworkLaws c) (pick : ℕ → ℕ) (fair : IsPick pick) where
  -- For a configuration whose bounds are given, whose least subnet is aligned, whose length is
  -- from 1 to 30 and whose greatest subnet ends below the end of the address space, and for an
  -- index drawn in range: the loop of `allocate_subnet` ends, and either it gives out a network of
  -- the configured length at an aligned address between the bounds that has no address in common
  -- with any lease, or there is no such address and the error is that no subnet is available.
  pub allocate_subnet_lem :
      (config : Config c) (leases : List (Lease c)) (subnet_min subnet_max : ℕ)
      → IsRange c config subnet_min subnet_max
      → ((sn : c.Ipv4Network) × (allocate_subnet c pick config leases ≡ ok sn)
          × (c.prefix sn ≡ config.subnet_len)
          × IsCandidate c config.subnet_len subnet_min subnet_max leases (c.ip sn))
        ⊎ ((allocate_subnet c pick config leases ≡ err no_available_subnets)
            × ((a : ℕ) → ¬ IsCandidate c config.subnet_len subnet_min subnet_max leases a))
  unfolding allocate_subnet
  allocate_subnet_lem config leases subnet_min subnet_max range =
      let (sn, out, made, returns, good, complete) =
        collected c laws config leases subnet_min subnet_max range in
      elim (Bool-cases (is_empty out)) [
        | inl nothing ↦
            inr (ground (arith, range.min_given, range.max_given), λ a h. cc (complete a h))
        | inr something ↦
            let (ip, drawn, candidate) =
              get_of_All _ out (pick (length out)) good
                (fair (length out) (length_pos out something)) in
            let (given, made', i, p) =
              laws.new-some ip config.subnet_len (omega (arith, candidate.upto, range.room))
                (omega (arith, range.short)) in
            inl (given, ground (arith, range.min_given, range.max_given), p, rw i candidate)
      ]
