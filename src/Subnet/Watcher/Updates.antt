-- ===== src/Subnet/Watcher/Updates.antt =====
-- `LeaseWatcher::update` of src/subnet/subnet.rs, and the receiver of its batch.
use flannel_ng.Base.{◌≡◌, refl, inl, inr, List, [], ◌∷◌, arith, subst, sym}
use flannel_ng.Crates.{Crates, NetworkLaws}
use flannel_ng.Lease.{Lease, LeaseWatchEvent, EventType}
use flannel_ng.Subnet.Watcher.{LeaseWatcher, add, remove, apply, update_round, update, lease_at}
use flannel_ng.Subnet.Watcher.Table.{
  without_absent, lookup, without, IsDistinct, position_cases, lookup-without, without-IsDistinct,
  lookup-replace_or_push, replace_or_push-IsDistinct,
}
use flannel_ng.Subnet.Watcher.Consumer.{
  Table, Agrees, Covers, receive, receive_all, receive_all-append, receive-cong, is_some-lookup,
  is_some-receive,
}

module _ (c : Crates) where
  leases-remove :
      (w : LeaseWatcher c) (lease : Lease c)
      → (remove c w lease).0.leases ≡ without c lease.subnet w.leases
  unfolding remove
  leases-remove w lease = elim (position_cases c lease.subnet w.leases lease) [
    | inl (p, h, q) ↦ ground (arith, without_absent c lease.subnet w.leases h)
    | inr (i, p, h, q, r, e) ↦ ground arith
  ]

  apply-own :
      (w : LeaseWatcher c) (lease : Lease c) (kind : EventType)
      → (apply c kind w lease).0.own_lease ≡ w.own_lease
  unfolding add remove
  apply-own w lease EventType.put = refl
  apply-own w lease EventType.delete = ground arith

  pub update_round-own :
      (w : LeaseWatcher c) (e : LeaseWatchEvent c) → (update_round c w e).0.own_lease ≡ w.own_lease
  unfolding update_round
  update_round-own w e = ground (arith, apply-own w e.lease e.event_type)

module _ (c : Crates) (laws : NetworkLaws c) where
  -- After an event of the registry the table changes at the event's subnet alone: a put writes its
  -- lease there, a delete clears it.
  pub lookup-apply :
      (w : LeaseWatcher c) (lease : Lease c) (kind : EventType) (t : c.Ipv4Network)
      → IsDistinct c w.leases
      → lookup c t (apply c kind w lease).0.leases
        ≡ receive c (λ s. lookup c s w.leases) (record { lease = lease; event_type = kind }) t
  unfolding add receive
  lookup-apply w lease EventType.put t d = lookup-replace_or_push c laws lease t w.leases
  lookup-apply w lease EventType.delete t d =
      rw leases-remove (lookup-without c laws lease.subnet t w.leases d)

  apply-IsDistinct :
      (w : LeaseWatcher c) (lease : Lease c) (kind : EventType)
      → IsDistinct c w.leases
      → IsDistinct c (apply c kind w lease).0.leases
  unfolding add
  apply-IsDistinct w lease EventType.put d = replace_or_push-IsDistinct c laws lease w.leases d
  apply-IsDistinct w lease EventType.delete d =
      subst (IsDistinct c) (sym (leases-remove c w lease))
        (without-IsDistinct c laws lease.subnet w.leases d)

  -- The event that is passed on stands for the same change: a deletion may carry the lease that the
  -- watcher held in place of the one that the registry named.
  receive-apply :
      (table : Table c) (w : LeaseWatcher c) (lease : Lease c) (kind : EventType)
      (t : c.Ipv4Network)
      → receive c table (apply c kind w lease).1 t
        ≡ receive c table (record { lease = lease; event_type = kind }) t
  unfolding add remove receive
  receive-apply table w lease EventType.put t = refl
  receive-apply table w lease EventType.delete t =
      elim (position_cases c lease.subnet w.leases lease) [
        | inl (p, h, q) ↦ ground arith
        | inr (i, p, h, q, r, e) ↦
            ground (arith, laws.equal_iff (lease_at c w.leases i lease).subnet lease.subnet)
      ]

  pub update_round-IsDistinct :
      (w : LeaseWatcher c) (e : LeaseWatchEvent c)
      → IsDistinct c w.leases
      → IsDistinct c (update_round c w e).0.leases
  unfolding update_round
  update_round-IsDistinct w e d = ground (arith, apply-IsDistinct w e.lease e.event_type d)

  update_round-Agrees :
      (table : Table c) (w : LeaseWatcher c) (e : LeaseWatchEvent c)
      → IsDistinct c w.leases
      → Agrees c table w
      → Agrees c (receive_all c table (update_round c w e).1) (update_round c w e).0
  unfolding update_round receive_all
  update_round-Agrees table w e d h t other =
      let kept = update_round-own c w e in
      let old = h t (rw (← kept) other) in
      let event : LeaseWatchEvent c = record { lease = e.lease; event_type = e.event_type } in
      ground (
        arith,
        receive-apply table w e.lease e.event_type t,
        lookup-apply w e.lease e.event_type t d,
        receive-cong c table (λ s. lookup c s w.leases) event t old,
      )

  -- From a watcher with one lease a subnet and a receiver's table that agrees with it, but for the
  -- node's own subnet, the batch of `update` leads to a table that agrees with the watcher again,
  -- and the watcher still holds one lease a subnet.
  pub update-Agrees :
      (table : Table c) (w : LeaseWatcher c) (es : List (LeaseWatchEvent c))
      → IsDistinct c w.leases
      → Agrees c table w
      → Agrees c (receive_all c table (update c w es).1) (update c w es).0
        × IsDistinct c (update c w es).0.leases
  unfolding update receive_all
  update-Agrees table w [] d h = (h, d)
  update-Agrees table w (e ∷ es) d h = rw receive_all-append (
      update-Agrees (receive_all c table (update_round c w e).1) (update_round c w e).0 es
        (update_round-IsDistinct w e d) (update_round-Agrees table w e d h))

  update_round-Covers :
      (table : Table c) (w : LeaseWatcher c) (e : LeaseWatchEvent c)
      → IsDistinct c w.leases
      → Covers c table w
      → Covers c (receive_all c table (update_round c w e).1) (update_round c w e).0
  unfolding update_round receive_all
  update_round-Covers table w e d h t other =
      let kept = update_round-own c w e in
      let old = h t (rw (← kept) other) in
      let event : LeaseWatchEvent c = record { lease = e.lease; event_type = e.event_type } in
      ground (
        arith,
        receive-apply table w e.lease e.event_type t,
        lookup-apply w e.lease e.event_type t d,
        is_some-lookup c t w.leases,
        is_some-lookup c t (apply c e.event_type w e.lease).0.leases,
        is_some-receive c table (λ s. lookup c s w.leases) event t,
      )

  -- The same for a table that has the watcher's subnets.
  pub update-Covers :
      (table : Table c) (w : LeaseWatcher c) (es : List (LeaseWatchEvent c))
      → IsDistinct c w.leases
      → Covers c table w
      → Covers c (receive_all c table (update c w es).1) (update c w es).0
        × IsDistinct c (update c w es).0.leases
  unfolding update receive_all
  update-Covers table w [] d h = (h, d)
  update-Covers table w (e ∷ es) d h = rw receive_all-append (
      update-Covers (receive_all c table (update_round c w e).1) (update_round c w e).0 es
        (update_round-IsDistinct w e d) (update_round-Covers table w e d h))
