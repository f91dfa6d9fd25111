-- ===== src/HostGw.antt =====
-- src/backend/hostgw: routes to the other nodes' subnets by way of the nodes. The kernel's routing
-- table is reached by `netlink_ng`, whose calls are the parameter `Netlink`.
pub mod Installs
pub mod Kept
mod Watched
pub mod Setup
mod Tests
use flannel_ng.Base.{
  ℕ, String, Bool, true, false, not, ◌&&◌, Option, none, some, List, [], ◌∷◌, ◌++◌, retain, ◌==◌,
  str_eq, if◌then◌else◌,
}
use flannel_ng.Base.Outcome.{Outcome, ok, err, public_ip_differs}
use flannel_ng.Base.Io.{Io, pure, call, ignore, ◌>>=◌, ◌>>◌}
use flannel_ng.Crates.{Crates}
use flannel_ng.Lease.{Lease, LeaseWatchEvent, EventType}
use flannel_ng.Netlink.{Route, Netlink, onlink}

-- The test of `HostGw::new`, on the interface's external address and its own.
unfoldable pub new : Option ℕ → ℕ → Outcome (Unit {0})
new none iface_addr = err public_ip_differs
new (some ext_addr) iface_addr = if ext_addr == iface_addr then ok tt else err public_ip_differs

module _ (c : Crates) where
  abbrev pub same_network : Option (c.Ipv4Network) → Option (c.Ipv4Network) → Bool
  same_network (some m) (some n) = c.equal m n
  same_network (some m) none = false
  same_network none n = false

  abbrev pub same_address : Option ℕ → Option ℕ → Bool
  same_address (some a) (some b) = a == b
  same_address (some a) none = false
  same_address none b = false

  unfoldable pub route_equal : Route c → Route c → Bool
  route_equal x y =
      same_network x.dst y.dst && same_address x.gw y.gw && (x.link_index == y.link_index)

  abbrev pub is_kind : String → Option String → Bool
  is_kind kind none = false
  is_kind kind (some other) = str_eq other kind

module _ (c : Crates) (net : Netlink c) where
  open net use {Kernel}

  unfoldable pub get_route : ℕ → Lease c → Route c
  get_route link_index lease = record net.default_route {
    dst = some (lease.subnet);
    gw = some (lease.attrs.public_ip);
    link_index = link_index;
    flags = onlink;
  }

  -- The old route is deleted, unless it is equal to the new one.
  unfoldable pub replace : Bool → Route c → List (Route c) → Io Kernel (List (Route c))
  unfolding ◌>>◌
  replace true old routes = pure routes
  replace false old routes = do
    call (net.route_del old)
    pure (retain (λ it. not (route_equal c it old)) routes)

  -- `!route_list.is_empty() && !route_equal(&route_list[0], route)`
  unfoldable pub drop_stale : Route c → List (Route c) → List (Route c) → Io Kernel (List (Route c))
  unfolding replace
  drop_stale route routes [] = pure routes
  drop_stale route routes (old ∷ rest) = replace (route_equal c old route) old routes

  -- The route is added, unless it is there.
  unfoldable pub install : Bool → Route c → Io Kernel (Unit {0})
  install true route = pure tt
  install false route = call (net.route_add route)

  -- `!route_list.is_empty() && route_equal(&route_list[0], route)`
  unfoldable pub ensure : Route c → List (Route c) → Io Kernel (Unit {0})
  unfolding install
  ensure route [] = install false route
  ensure route (old ∷ rest) = install (route_equal c old route) route

  -- The state is `self.routes`.
  unfoldable pub route_add : Route c → List (Route c) → Io Kernel (List (Route c))
  unfolding ◌>>=◌ ◌>>◌ drop_stale ensure
  route_add route routes = do
    route_list ← call (net.route_list_filtered route.dst)
    kept ← drop_stale route (routes ++ (route ∷ [])) route_list
    route_list' ← call (net.route_list_filtered route.dst)
    ensure route route_list'
    pure kept

  -- An event of the network's kind of back end.
  unfoldable pub apply_kind : ℕ → EventType → Lease c → List (Route c) → Io Kernel (List (Route c))
  unfolding ◌>>◌ get_route route_add
  apply_kind link_index EventType.put lease routes = route_add (get_route link_index lease) routes
  apply_kind link_index EventType.delete lease routes = do
    ignore (net.route_del (get_route link_index lease))
    pure (retain (λ it. not (route_equal c it (get_route link_index lease))) routes)

  -- An event of another back end is left alone.
  unfoldable pub handle_kind :
      Bool → ℕ → List (Route c) → LeaseWatchEvent c → Io Kernel (List (Route c))
  unfolding apply_kind
  handle_kind true link_index routes event =
      apply_kind link_index event.event_type event.lease routes
  handle_kind false link_index routes event = pure routes

  unfoldable pub handle :
      String → ℕ → List (Route c) → LeaseWatchEvent c → Io Kernel (List (Route c))
  unfolding handle_kind
  handle backend_type link_index routes event =
      handle_kind (is_kind c backend_type event.lease.attrs.backend_type) link_index routes event

  -- The loop of `RouterNetwork::run`, over all the events that it receives.
  unfoldable pub run :
      String → ℕ → List (Route c) → List (LeaseWatchEvent c) → Io Kernel (List (Route c))
  unfolding ◌>>=◌ handle
  run backend_type link_index routes [] = pure routes
  run backend_type link_index routes (event ∷ events) = do
    routes' ← handle backend_type link_index routes event
    run backend_type link_index routes' events
