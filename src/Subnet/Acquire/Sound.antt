-- ===== src/Subnet/Acquire/Sound.antt =====
-- Which lease `try_acquire_lease` of src/subnet/subnet.rs comes back with.
use mathlib.Core.List.{Memᴰ}
use flannel_ng.Base.{
  ℕ, ◌≤◌, ◌≡◌, refl, ap, sym, subst, ◌⊎◌, inl, inr, String, true, false, Option, none, some, List,
  [], ◌∷◌, arith, find, Bool, Bool-cases, ◌==◌,
}
use flannel_ng.Base.Outcome.{Outcome, ok, err, panic, out_of_fuel}
use flannel_ng.Base.Io.{pure, lift, ◌>>=◌, >>=-eq-ok, lift-ok, pure-ok}
use flannel_ng.Crates.{Crates, NetworkLaws}
use flannel_ng.Lease.{Lease, LeaseAttrs}
use flannel_ng.Etcd.{Client}
use flannel_ng.Etcd.Create.{create_subnet, update_subnet}
use flannel_ng.Etcd.Registry.{get_subnets, new_lease}
use flannel_ng.Subnet.Allocate.{allocate_subnet}
use flannel_ng.Subnet.Allocate.Free.{IsCandidate}
use flannel_ng.Subnet.Allocate.Sound.{IsPick, IsRange, allocate_subnet_lem}
use flannel_ng.Subnet.Config.{Config}
use flannel_ng.Subnet.Acquire.{
  subnet_ttl, fits, own_lease, fresh_lease, kept, reusable, take, try_acquire_lease,
}

find-some {ℓ} :
    {A : Type ℓ} (p : A → Bool) (xs : List A) {a : A}
    → find p xs ≡ some a
    → Memᴰ a xs × (p a ≡ true)
find-some p [] h = cc
find-some p (x ∷ xs) h = elim (Bool-cases (p x)) [
  | inl here ↦ let e : x ≡ _ = ground arith in (Memᴰ.head (sym e), subst (λ y. p y ≡ true) e here)
  | inr later ↦ let (m, holds) = find-some p xs (ground arith) in (Memᴰ.tail m, holds)
]

module _ (c : Crates) (config : Config c) (leases : List (Lease c)) (subnet_min subnet_max : ℕ)
    (range : IsRange c config subnet_min subnet_max) where
  -- A lease of the registry that the node uses again: its own, in the range and of the length.
  pub record IsReused (ext_addr : ℕ) (lease : Lease c) : Type 0 where
    pub listed : Memᴰ lease leases
    pub own : lease.attrs.public_ip ≡ ext_addr
    pub from : subnet_min ≤ c.ip lease.subnet
    pub upto : c.ip lease.subnet ≤ subnet_max
    pub of_len : c.prefix lease.subnet ≡ config.subnet_len

  -- A lease on a subnet that is clear of the leases of the registry.
  pub record IsFresh (attrs : LeaseAttrs c) (lease : Lease c) : Type 0 where
    pub of_len : c.prefix lease.subnet ≡ config.subnet_len
    pub candidate : IsCandidate c config.subnet_len subnet_min subnet_max leases (c.ip lease.subnet)
    pub attrs_eq : lease.attrs ≡ attrs

  fits-true :
      (lease : Lease c)
      → fits c config lease config.subnet_min ≡ ok true
      → (subnet_min ≤ c.ip lease.subnet)
        × (c.ip lease.subnet ≤ subnet_max)
        × (c.prefix lease.subnet ≡ config.subnet_len)
  unfolding fits
  fits-true lease h = ground (arith, range.min_given, range.max_given)

  kept-some :
      (l : Lease c) (r : Outcome Bool) {lease : Lease c}
      → kept c l r ≡ ok (some lease)
      → (l ≡ lease) × (r ≡ ok true)
  kept-some l (ok true) h = (cc h, refl)
  kept-some l (ok false) h = absurd (cc h)
  kept-some l (err e) h = absurd (cc h)
  kept-some l panic h = absurd (cc h)
  kept-some l out_of_fuel h = absurd (cc h)

  reusable-some :
      (o : Option (Lease c)) {lease : Lease c}
      → reusable c config o ≡ ok (some lease)
      → (o ≡ some lease) × (fits c config lease config.subnet_min ≡ ok true)
  unfolding reusable
  reusable-some none h = cc
  reusable-some (some l) h =
      let (e, fit) = kept-some l (fits c config l config.subnet_min) h in
      (ap some e, subst (λ x. fits c config x config.subnet_min ≡ ok true) e fit)

  own_lease-IsReused :
      (ext_addr : ℕ) {lease : Lease c}
      → reusable c config (own_lease c ext_addr leases) ≡ ok (some lease)
      → IsReused ext_addr lease
  unfolding own_lease
  own_lease-IsReused ext_addr h =
      let (found, fit) = reusable-some (own_lease c ext_addr leases) h in
      let (m, own) = find-some (λ (it : Lease c). it.attrs.public_ip == ext_addr) leases found in
      let (from, upto, of_len) = fits-true _ fit in
      record { listed = m; own = ground arith; from = from; upto = upto; of_len = of_len }

module _ (c : Crates) (nets : NetworkLaws c) (client : Client c) (prefix : String)
    (from_str : String → Option (Config c)) (pick : ℕ → ℕ) (fair : IsPick pick) where
  open client use {World}

  allocated-IsFresh :
      (config : Config c) (leases : List (Lease c)) (subnet_min subnet_max : ℕ)
      (range : IsRange c config subnet_min subnet_max) (attrs : LeaseAttrs c) (base : Lease c)
      (exp : ℕ) {sn : c.Ipv4Network}
      → allocate_subnet c pick config leases ≡ ok sn
      → IsFresh c config leases subnet_min subnet_max range attrs (fresh_lease c base sn attrs exp)
  allocated-IsFresh config leases subnet_min subnet_max range attrs base exp h =
      elim (allocate_subnet_lem c nets pick fair config leases subnet_min subnet_max range) [
        | inl (sn', drawn, of_len, candidate) ↦
            let e : sn' ≡ _ = cc (drawn, h) in
            record {
              of_len = subst (λ s. c.prefix s ≡ config.subnet_len) e of_len;
              candidate =
                  subst (λ s. IsCandidate c config.subnet_len subnet_min subnet_max leases (c.ip s))
                    e candidate;
              attrs_eq = refl;
            }
        | inr (refused, none_free) ↦ absurd (cc (refused, h))
      ]

  take_reused :
      (config : Config c) (attrs : LeaseAttrs c) (leases : List (Lease c)) (own : Lease c)
      (w : World) {lease : Lease c} {w' : World}
      → take c client prefix from_str pick config attrs leases (some own) w ≡ (ok lease, w')
      → own ≡ lease
  unfolding take
  take_reused config attrs leases own w h =
      let (exp, v, updated, h') =
        >>=-eq-ok (update_subnet c client prefix own.subnet attrs subnet_ttl) (λ exp. pure own) w
          h in
      pure-ok own v h'

  take-IsFresh :
      (config : Config c) (leases : List (Lease c)) (subnet_min subnet_max : ℕ)
      (range : IsRange c config subnet_min subnet_max) (attrs : LeaseAttrs c) (w : World)
      {lease : Lease c} {w' : World}
      → take c client prefix from_str pick config attrs leases none w ≡ (ok lease, w')
      → IsFresh c config leases subnet_min subnet_max range attrs lease
  unfolding take
  take-IsFresh config leases subnet_min subnet_max range attrs w h =
      let (sn, v, drawn, h1) =
        >>=-eq-ok (lift (allocate_subnet c pick config leases))
          (λ sn. create_subnet c client prefix sn attrs subnet_ttl >>= λ exp.
            new_lease c client >>= λ base. pure (fresh_lease c base sn attrs exp))
          w h in
      let (exp, v1, created, h2) =
        >>=-eq-ok (create_subnet c client prefix sn attrs subnet_ttl)
          (λ exp. new_lease c client >>= λ base. pure (fresh_lease c base sn attrs exp)) v h1 in
      let (base, v2, made, h3) =
        >>=-eq-ok (new_lease c client) (λ base. pure (fresh_lease c base sn attrs exp)) v1 h2 in
      let (allocated, same) = lift-ok (allocate_subnet c pick config leases) w drawn in
      subst (IsFresh c config leases subnet_min subnet_max range attrs)
        (pure-ok (fresh_lease c base sn attrs exp) v2 h3)
        (allocated-IsFresh config leases subnet_min subnet_max range attrs base exp allocated)

  acquired_kind :
      (config : Config c) (leases : List (Lease c)) (subnet_min subnet_max : ℕ)
      (range : IsRange c config subnet_min subnet_max) (attrs : LeaseAttrs c) (ext_addr : ℕ)
      (own : Option (Lease c)) (w : World) {lease : Lease c} {w' : World}
      → reusable c config (own_lease c ext_addr leases) ≡ ok own
      → take c client prefix from_str pick config attrs leases own w ≡ (ok lease, w')
      → IsReused c config leases subnet_min subnet_max range ext_addr lease
        ⊎ IsFresh c config leases subnet_min subnet_max range attrs lease
  acquired_kind config leases subnet_min subnet_max range attrs ext_addr none w fit h =
      inr (take-IsFresh config leases subnet_min subnet_max range attrs w h)
  acquired_kind config leases subnet_min subnet_max range attrs ext_addr (some own) w fit h = inl (
      subst (IsReused c config leases subnet_min subnet_max range ext_addr)
        (take_reused config attrs leases own w h)
        (own_lease-IsReused c config leases subnet_min subnet_max range ext_addr fit))

  -- When `try_acquire_lease` returns a lease, it has read the leases of the registry, and the lease
  -- is one of these with the node's public address, in the configured range and of the configured
  -- length, or it is a new one with the attributes asked for, on an aligned subnet of the range and
  -- of that length which has no address in common with any of them.
  pub try_acquire_lease_lem :
      (config : Config c) (attrs : LeaseAttrs c) (ext_addr : ℕ) (subnet_min subnet_max : ℕ)
      (range : IsRange c config subnet_min subnet_max) (w : World) {lease : Lease c} {w' : World}
      → try_acquire_lease c client prefix from_str pick config attrs ext_addr w ≡ (ok lease, w')
      → (leases : List (Lease c)) × (index : ℕ) × (v : World) × (get_subnets c client prefix w
          ≡ (ok (leases, index), v))
        × (IsReused c config leases subnet_min subnet_max range ext_addr lease
            ⊎ IsFresh c config leases subnet_min subnet_max range attrs lease)
  unfolding try_acquire_lease
  try_acquire_lease_lem config attrs ext_addr subnet_min subnet_max range w h =
      let ((leases, index), v, read, h1) =
        >>=-eq-ok (get_subnets c client prefix)
          (λ r. lift (reusable c config (own_lease c ext_addr (r.0))) >>= λ own.
            take c client prefix from_str pick config attrs (r.0) own)
          w h in
      let (own, v1, checked, h2) =
        >>=-eq-ok (lift (reusable c config (own_lease c ext_addr leases)))
          (λ own. take c client prefix from_str pick config attrs leases own) v h1 in
      let (fit, same) = lift-ok (reusable c config (own_lease c ext_addr leases)) v checked in
      (
        leases,
        index,
        v,
        read,
        acquired_kind config leases subnet_min subnet_max range attrs ext_addr own v1 fit h2,
      )
