-- ===== src/Subnet/Renew/Current.antt =====
-- The leases that `renew_lease_if_needed` of src/subnet/subnet.rs holds over its loop: the one that
-- it starts from, those that the watch of the lease puts, and those that it renews.
use flannel_ng.Base.{
  ℕ, ◌≡◌, ◌∙◌, sym, All, ap, ◌⊎◌, inl, inr, Option, none, some, List, [], ◌∷◌, String,
}
use flannel_ng.Base.Outcome.{Outcome, ok, err, panic, out_of_fuel, Error}
use flannel_ng.Base.Io.{Io, pure, caught, catch, pure-ok, >>=-eq-ok}
use flannel_ng.Crates.{Crates}
use flannel_ng.Lease.{Lease, LeaseWatchEvent, EventType}
use flannel_ng.Etcd.{Client}
use flannel_ng.Etcd.Create.{update_subnet}
use flannel_ng.Subnet.Acquire.{subnet_ttl}
use flannel_ng.Subnet.Renew.{Wake, slept, received, renew_lease}

module _ (c : Crates) where
  -- A batch has an event of the kind, on the lease.
  abbrev pub InBatch : EventType → Lease c → List (LeaseWatchEvent c) → Type 0
  InBatch kind l [] = ⊥
  InBatch kind l (e ∷ events) = ((e.event_type ≡ kind) × (e.lease ≡ l)) ⊎ InBatch kind l events

  -- One of the batches that the loop receives has it.
  abbrev pub Received : EventType → Lease c → List (Wake c) → Type 0
  Received kind l [] = ⊥
  Received kind l (slept ∷ wakes) = Received kind l wakes
  Received kind l (received events ∷ wakes) = InBatch kind l events ⊎ Received kind l wakes

module _ (c : Crates) (client : Client c) (prefix : String) (margin : ℕ) (first : Lease c)
    (start : client.World) (wakes : List (Wake c)) where
  open client use {World}

  -- A lease that the loop has come to hold, and the state after which it does: for a lease that has
  -- been renewed that after the renewal, and for one that a put event carries any state.
  pub data IsCurrent : Lease c → World → Type 0 where
    given : IsCurrent first start
    told : (l : Lease c) (v : World) → Received c EventType.put l wakes → IsCurrent l v
    renewed :
        (l l' : Lease c) (u v v' : World)
        → IsCurrent l u
        → renew_lease c client prefix margin l v ≡ (ok l', v')
        → IsCurrent l' v'

module _ {W A : Type 0} where
  pub pure-same : (a : A) (w : W) {a' : A} {w' : W} → pure a w ≡ (ok a', w') → (a ≡ a') × (w ≡ w')
  unfolding pure
  pure-same a w h = (cc (ap (λ p. p.0) h), ap (λ p. p.1) h)

  pub caught-ok :
      (m : Io W A) (w : W) {o : Option A} {w' : W}
      → caught m w ≡ (ok o, w')
      → ((o ≡ none) × ((e : Error) × (m w ≡ (err e, w'))))
        ⊎ ((a : A) × (o ≡ some a) × (m w ≡ (ok a, w')))
  unfolding caught
  caught-ok m w h = by_outcome (m w) h
    where
      by_outcome :
          (r : Outcome A × W) {o : Option A} {w' : W}
          → ◌≡◌ {A = Outcome (Option A) × W} (catch r.0, r.1) (ok o, w')
          → ((o ≡ none) × ((e : Error) × (r ≡ (err e, w'))))
            ⊎ ((a : A) × (o ≡ some a) × (r ≡ (ok a, w')))
      by_outcome (ok a, w) h = inr (a, cc (ap (λ p. p.0) h), cc (ap (λ p. p.1) h))
      by_outcome (err e, w) h =
          inl (cc (ap (λ p. p.0) h), (e, ap (λ w. (err e, w)) (ap (λ p. p.1) h)))
      by_outcome (panic, w) h = absurd (cc (ap (λ p. p.0) h))
      by_outcome (out_of_fuel, w) h = absurd (cc (ap (λ p. p.0) h))

module _ (c : Crates) (sn : c.Ipv4Network) where
  -- Every event of the watch is on the lease's subnet, as its key is.
  abbrev pub OnSubnet : Wake c → Type 0
  OnSubnet slept = Unit
  OnSubnet (received events) = All (λ (e : LeaseWatchEvent c). e.lease.subnet ≡ sn) events

module _ (c : Crates) (sn : c.Ipv4Network) where
  InBatch-subnet :
      (kind : EventType) (l : Lease c) (events : List (LeaseWatchEvent c))
      → All (λ (e : LeaseWatchEvent c). e.lease.subnet ≡ sn) events
      → InBatch c kind l events
      → l.subnet ≡ sn
  InBatch-subnet kind l [] on seen = elim seen [ ]
  InBatch-subnet kind l (e ∷ events) on (inl (k, same)) =
      ap (λ (l : Lease c). l.subnet) (sym same) ∙ on.0
  InBatch-subnet kind l (e ∷ events) on (inr seen) = InBatch-subnet kind l events on.1 seen

  Received-subnet :
      (kind : EventType) (l : Lease c) (wakes : List (Wake c))
      → All (OnSubnet c sn) wakes
      → Received c kind l wakes
      → l.subnet ≡ sn
  Received-subnet kind l [] on seen = elim seen [ ]
  Received-subnet kind l (slept ∷ wakes) on seen = Received-subnet kind l wakes on.1 seen
  Received-subnet kind l (received events ∷ wakes) on (inl seen) =
      InBatch-subnet kind l events on.0 seen
  Received-subnet kind l (received events ∷ wakes) on (inr seen) =
      Received-subnet kind l wakes on.1 seen

module _ (c : Crates) (client : Client c) (prefix : String) (margin : ℕ) (sn : c.Ipv4Network) where
  open client use {World}

  renew_lease-subnet :
      (lease l : Lease c) (w : World) {w' : World}
      → renew_lease c client prefix margin lease w ≡ (ok l, w')
      → l.subnet ≡ lease.subnet
  unfolding renew_lease
  renew_lease-subnet lease l w h =
      let (exp, w1, updated, h1) =
        >>=-eq-ok (update_subnet c client prefix lease.subnet lease.attrs subnet_ttl)
          (λ exp. pure (record lease { expiration = exp })) w h in
      ap (λ (l : Lease c). l.subnet) (sym (pure-ok (record lease { expiration = exp }) w1 h1))

  pub IsCurrent-subnet :
      (first : Lease c) (start : World) (wakes : List (Wake c)) (l : Lease c) (v : World)
      → first.subnet ≡ sn
      → All (OnSubnet c sn) wakes
      → IsCurrent c client prefix margin first start wakes l v
      → l.subnet ≡ sn
  IsCurrent-subnet first start wakes k t e on given = e
  IsCurrent-subnet first start wakes k t e on (told l v seen) =
      Received-subnet c sn EventType.put l wakes on seen
  IsCurrent-subnet first start wakes k t e on (renewed l l' u v v' held done) =
      renew_lease-subnet l l' v done ∙ IsCurrent-subnet first start wakes l u e on held
