-- ===== src/Subnet/Watcher.antt =====
-- `LeaseWatcher` of src/subnet/subnet.rs, and the loop of `SubnetManager::watch_leases` over the
-- results of the registry. What the loop sends to its channel is the list of the batches; the
-- receiver stays open.
pub mod Table
pub mod Consumer
pub mod Updates
pub mod Snapshots
pub mod Stream
use mathlib.Core.Option
use flannel_ng.Base.{
  ℕ, zero, suc, Bool, true, false, Option, none, some, List, [], ◌∷◌, ◌++◌, map, if◌then◌else◌,
}
use flannel_ng.Crates.{Crates}
use flannel_ng.Lease.{Lease, LeaseWatchEvent, LeaseWatchResult, EventType}

-- `Vec::remove`
abbrev pub remove_at {ℓ} : {A : Type ℓ} → List A → ℕ → List A
remove_at [] i = []
remove_at (x ∷ xs) zero = xs
remove_at (x ∷ xs) (suc i) = x ∷ remove_at xs i

abbrev pub is_empty {ℓ} : {A : Type ℓ} → List A → Bool
is_empty [] = true
is_empty (x ∷ xs) = false

module _ (c : Crates) where
  pub record LeaseWatcher : Type 0 where
    pub own_lease : Lease c
    pub leases : List (Lease c)

  abbrev pub put_event : Lease c → LeaseWatchEvent c
  put_event lease = record { lease = lease; event_type = EventType.put }

  abbrev pub delete_event : Lease c → LeaseWatchEvent c
  delete_event lease = record { lease = lease; event_type = EventType.delete }

  -- The search loops of `reset` and `remove`.
  unfoldable pub position : c.Ipv4Network → List (Lease c) → Option ℕ
  position subnet [] = none
  position subnet (l ∷ ls) =
      if c.equal l.subnet subnet then some 0 else Option.map suc (position subnet ls)

  -- One round of the loop of `reset`, over the leases that are left and the batch.
  unfoldable pub reset_round :
      Lease c
      → Lease c
      → List (Lease c) × List (LeaseWatchEvent c)
      → List (Lease c) × List (LeaseWatchEvent c)
  reset_round own nl (old, batch) =
      if c.equal nl.subnet own.subnet then (old, batch) else elim (position nl.subnet old) [
        | none ↦ (old, batch ++ (put_event nl ∷ []))
        | some idx ↦ (remove_at old idx, batch)
      ]

  unfoldable pub reset_loop :
      Lease c
      → List (Lease c)
      → List (Lease c) × List (LeaseWatchEvent c)
      → List (Lease c) × List (LeaseWatchEvent c)
  reset_loop own [] st = st
  reset_loop own (nl ∷ rest) st = reset_loop own rest (reset_round own nl st)

  unfoldable pub reset : LeaseWatcher → List (Lease c) → LeaseWatcher × List (LeaseWatchEvent c)
  reset w leases =
      let (remaining, batch) = reset_loop w.own_lease leases (w.leases, []) in
      (record w { leases = leases }, batch ++ map delete_event remaining)

  -- The loop of `add`: the first lease of the subnet is replaced, or the lease is pushed.
  unfoldable pub replace_or_push : Lease c → List (Lease c) → List (Lease c)
  replace_or_push lease [] = lease ∷ []
  replace_or_push lease (l ∷ ls) =
      if c.equal l.subnet lease.subnet then lease ∷ ls else l ∷ replace_or_push lease ls

  unfoldable pub add : LeaseWatcher → Lease c → LeaseWatcher × LeaseWatchEvent c
  add w lease = (record w { leases = replace_or_push lease w.leases }, put_event lease)

  -- The lease at an index, which `position` has found.
  abbrev pub lease_at : List (Lease c) → ℕ → Lease c → Lease c
  lease_at [] i other = other
  lease_at (l ∷ ls) zero other = l
  lease_at (l ∷ ls) (suc i) other = lease_at ls i other

  unfoldable pub remove : LeaseWatcher → Lease c → LeaseWatcher × LeaseWatchEvent c
  remove w lease = elim (position lease.subnet w.leases) [
    | none ↦ (w, delete_event lease)
    | some i ↦
        (record w { leases = remove_at w.leases i }, delete_event (lease_at w.leases i lease))
  ]

  abbrev pub apply : EventType → LeaseWatcher → Lease c → LeaseWatcher × LeaseWatchEvent c
  apply EventType.put w lease = add w lease
  apply EventType.delete w lease = remove w lease

  unfoldable pub update_round :
      LeaseWatcher → LeaseWatchEvent c → LeaseWatcher × List (LeaseWatchEvent c)
  update_round w e =
      if c.equal e.lease.subnet w.own_lease.subnet
      then (w, [])
      else let (w', event) = apply e.event_type w e.lease in (w', event ∷ [])

  unfoldable pub update :
      LeaseWatcher → List (LeaseWatchEvent c) → LeaseWatcher × List (LeaseWatchEvent c)
  update w [] = (w, [])
  update w (e ∷ es) =
      let (w', pushed) = update_round w e in
      let (w'', batch) = update w' es in (w'', pushed ++ batch)

  -- The body of the loop of `watch_leases`.
  unfoldable pub handle :
      LeaseWatcher → LeaseWatchResult c → LeaseWatcher × List (LeaseWatchEvent c)
  handle w wr =
      if is_empty wr.events
      then if is_empty wr.snapshot then (w, []) else reset w wr.snapshot
      else update w wr.events

  -- The batches that `watch_leases` sends, in order.
  unfoldable pub watch_leases :
      LeaseWatcher → List (LeaseWatchResult c) → LeaseWatcher × List (List (LeaseWatchEvent c))
  watch_leases w [] = (w, [])
  watch_leases w (wr ∷ rest) =
      let (w', batch) = handle w wr in
      let (w'', sent) = watch_leases w' rest in (w'', if is_empty batch then sent else batch ∷ sent)
