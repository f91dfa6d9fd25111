-- ===== src/Udp/Routes/Table.antt =====
-- The routes of src/backend/udp/udp.rs as a table of leases by subnet.
use flannel_ng.Base.{
  ℕ, ◌≡◌, refl, not, Option, none, some, List, [], ◌∷◌, ◌++◌, map, retain, arith, if◌then◌else◌,
}
use flannel_ng.Crates.{Crates, NetworkLaws}
use flannel_ng.Lease.{Lease, LeaseWatchEvent}
use flannel_ng.Subnet.Watcher.Consumer.{Table, receive, receive_all}
use flannel_ng.Udp.Routes.{RouteEntry, redirect, apply_event, apply_events}

module _ (c : Crates) where
  -- The next hop of the first route to a subnet.
  unfoldable pub next_hop : List (RouteEntry c) → c.Ipv4Network → Option ℕ
  next_hop [] t = none
  next_hop (r ∷ rs) t = if c.equal r.dst t then some r.next_hop else next_hop rs t

  abbrev pub hop : Option (Lease c) → Option ℕ
  hop none = none
  hop (some l) = some l.attrs.public_ip

module _ (c : Crates) (laws : NetworkLaws c) where
  next_hop-put :
      (routes : List (RouteEntry c)) (s t : c.Ipv4Network) (ip : ℕ)
      → next_hop c (map (redirect c s ip) routes ++ record { dst = s; next_hop = ip } ∷ []) t
        ≡ (if c.equal s t then some ip else next_hop c routes t)
  unfolding next_hop
  next_hop-put [] s t ip = refl
  next_hop-put (r ∷ rs) s t ip = ground (
    arith,
    laws.equal_iff r.dst s,
    laws.equal_iff r.dst t,
    laws.equal_iff s t,
    next_hop-put rs s t ip,
  )

  next_hop-delete :
      (routes : List (RouteEntry c)) (s t : c.Ipv4Network)
      → next_hop c (retain (λ (it : RouteEntry c). not (c.equal it.dst s)) routes) t
        ≡ (if c.equal s t then none else next_hop c routes t)
  unfolding next_hop
  next_hop-delete [] s t = ground arith
  next_hop-delete (r ∷ rs) s t = ground (
    arith,
    laws.equal_iff r.dst s,
    laws.equal_iff r.dst t,
    laws.equal_iff s t,
    next_hop-delete rs s t,
  )

  next_hop-apply_event :
      (routes : List (RouteEntry c)) (table : Table c) (e : LeaseWatchEvent c)
      → ((t : c.Ipv4Network) → next_hop c routes t ≡ hop c (table t))
      → (t : c.Ipv4Network) → next_hop c (apply_event c routes e) t ≡ hop c (receive c table e t)
  unfolding apply_event receive
  next_hop-apply_event routes table e h t = ground (
    arith,
    h t,
    next_hop-put routes e.lease.subnet t e.lease.attrs.public_ip,
    next_hop-delete routes e.lease.subnet t,
  )

  -- Where the routes lead to each subnet as a table of leases says, they still do so after any
  -- batch of lease events, which changes the table by writing the lease of each put and clearing
  -- the subnet of each delete.
  pub next_hop-apply_events :
      (routes : List (RouteEntry c)) (table : Table c) (es : List (LeaseWatchEvent c))
      → ((t : c.Ipv4Network) → next_hop c routes t ≡ hop c (table t))
      → (t : c.Ipv4Network)
      → next_hop c (apply_events c routes es) t ≡ hop c (receive_all c table es t)
  unfolding apply_events receive_all
  next_hop-apply_events routes table [] h t = h t
  next_hop-apply_events routes table (e ∷ es) h t =
      next_hop-apply_events (apply_event c routes e) (receive c table e) es
        (next_hop-apply_event routes table e h) t
