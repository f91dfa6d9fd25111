-- ===== src/Udp/Routes.antt =====
-- The routes of src/backend/udp/udp.rs: `RouteEntry`, the handling of lease events in `run`, and
-- `find_route`.
pub mod Table
pub mod Lookup
use flannel_ng.Base.{
  ℕ, Bool, true, false, not, Option, none, some, List, [], ◌∷◌, ◌++◌, map, retain, ◌==◌,
  if◌then◌else◌,
}
use flannel_ng.Base.Outcome.{Outcome, ok, ◌>>=◌, unwrap}
use flannel_ng.Crates.{Crates}
use flannel_ng.Lease.{Lease, LeaseWatchEvent, EventType}

pub record RouteEntry (c : Crates) : Type 0 where
  pub dst : c.Ipv4Network
  pub next_hop : ℕ

module _ (c : Crates) where
  -- The `for` loop over the routes: every entry of the subnet is redirected.
  abbrev pub redirect : c.Ipv4Network → ℕ → RouteEntry c → RouteEntry c
  redirect subnet public_ip r =
      if c.equal r.dst subnet then record r { next_hop = public_ip } else r

  abbrev pub apply_kind : EventType → Lease c → List (RouteEntry c) → List (RouteEntry c)
  apply_kind EventType.put lease routes =
      map (redirect lease.subnet lease.attrs.public_ip) routes
      ++ (record { dst = lease.subnet; next_hop = lease.attrs.public_ip } ∷ [])
  apply_kind EventType.delete lease routes = retain (λ it. not (c.equal it.dst lease.subnet)) routes

  unfoldable pub apply_event : List (RouteEntry c) → LeaseWatchEvent c → List (RouteEntry c)
  apply_event routes e = apply_kind e.event_type e.lease routes

  unfoldable pub apply_events : List (RouteEntry c) → List (LeaseWatchEvent c) → List (RouteEntry c)
  apply_events routes [] = routes
  apply_events routes (e ∷ es) = apply_events (apply_event routes e) es

  unfoldable pub find_route : List (RouteEntry c) → ℕ → Outcome (Option (RouteEntry c))
  find_route [] dst = ok none
  find_route (it ∷ rest) dst =
      let later = find_route rest dst in
      unwrap (c.new dst (c.prefix it.dst)) >>= λ dst_network.
      if c.network dst_network == c.ip it.dst then ok (some it) else later
