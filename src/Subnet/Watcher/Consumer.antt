-- ===== src/Subnet/Watcher/Consumer.antt =====
-- What a receiver of the watcher's batches does with them, as a specification: it keeps a table of
-- leases by subnet. The back ends keep their routes so.
use flannel_ng.Base.{
  ◌≡◌, refl, Bool, true, false, Option, none, some, List, [], ◌∷◌, ◌++◌, map, arith, if◌then◌else◌,
}
use flannel_ng.Crates.{Crates}
use flannel_ng.Lease.{Lease, LeaseWatchEvent, EventType}
use flannel_ng.Subnet.Watcher.{LeaseWatcher, delete_event}
use flannel_ng.Subnet.Watcher.Table.{has, lookup}

abbrev pub is_some {ℓ} : {A : Type ℓ} → Option A → Bool
is_some none = false
is_some (some a) = true

module _ (c : Crates) where
  abbrev pub Table : Type 0
  Table = c.Ipv4Network → Option (Lease c)

  abbrev pub kept : EventType → Lease c → Option (Lease c)
  kept EventType.put lease = some lease
  kept EventType.delete lease = none

  unfoldable pub receive : Table → LeaseWatchEvent c → Table
  receive table e t = if c.equal e.lease.subnet t then kept e.event_type e.lease else table t

  unfoldable pub receive_all : Table → List (LeaseWatchEvent c) → Table
  receive_all table [] = table
  receive_all table (e ∷ es) = receive_all (receive table e) es

  -- The table has the watcher's leases, but for the node's own subnet.
  abbrev pub Agrees : Table → LeaseWatcher c → Type 0
  Agrees table w =
      (t : c.Ipv4Network) → c.equal w.own_lease.subnet t ≡ false → table t ≡ lookup c t w.leases

  -- The table has the watcher's subnets, but for the node's own.
  abbrev pub Covers : Table → LeaseWatcher c → Type 0
  Covers table w =
      (t : c.Ipv4Network)
      → c.equal w.own_lease.subnet t ≡ false
      → is_some (table t) ≡ has c t w.leases

  pub receive_all-nil : (table : Table) (t : c.Ipv4Network) → receive_all table [] t ≡ table t
  unfolding receive_all
  receive_all-nil table t = refl

  pub receive_all-append :
      (table : Table) (xs ys : List (LeaseWatchEvent c))
      → receive_all table (xs ++ ys) ≡ receive_all (receive_all table xs) ys
  unfolding receive_all
  receive_all-append table [] ys = refl
  receive_all-append table (x ∷ xs) ys = receive_all-append (receive table x) xs ys

  -- Deletions take their subnets out and leave the others.
  pub receive_all-delete :
      (table : Table) (ls : List (Lease c)) (t : c.Ipv4Network)
      → receive_all table (map (delete_event c) ls) t ≡ (if has c t ls then none else table t)
  unfolding receive_all receive has
  receive_all-delete table [] t = refl
  receive_all-delete table (l ∷ ls) t =
      ground (arith, receive_all-delete (receive table (delete_event c l)) ls t)

  pub is_some-lookup :
      (t : c.Ipv4Network) (ls : List (Lease c)) → is_some (lookup c t ls) ≡ has c t ls
  unfolding lookup has
  is_some-lookup t [] = refl
  is_some-lookup t (l ∷ ls) = ground (arith, is_some-lookup t ls)

  -- An event does the same to two tables, where they are the same.
  pub receive-cong :
      (table table' : Table) (e : LeaseWatchEvent c) (t : c.Ipv4Network)
      → table t ≡ table' t
      → receive table e t ≡ receive table' e t
  unfolding receive
  receive-cong table table' e t h = ground arith

  pub is_some-receive :
      (table table' : Table) (e : LeaseWatchEvent c) (t : c.Ipv4Network)
      → is_some (table t) ≡ is_some (table' t)
      → is_some (receive table e t) ≡ is_some (receive table' e t)
  unfolding receive
  is_some-receive table table' e t h = ground arith
