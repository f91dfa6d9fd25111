-- ===== src/HostGw/Installs.antt =====
-- What the kernel's routing table holds after `route_add` of src/backend/hostgw/router_network.rs.
use flannel_ng.Base.{
  ℕ, ◌≡◌, refl, sym, ap, subst, ◌∙◌, ◌++◌, String, Bool, true, false, Option, some, List, [], ◌∷◌,
  any, arith,
}
use flannel_ng.Base.Outcome.{ok}
use flannel_ng.Base.Io.{pure, call, ◌>>=◌, ◌>>◌, >>=-eq-ok, call-ok}
use flannel_ng.Crates.{Crates, NetworkLaws}
use flannel_ng.Lease.{Lease, LeaseWatchEvent, EventType}
use flannel_ng.Netlink.{Route, Netlink}
use flannel_ng.HostGw.{
  route_equal, get_route, install, ensure, drop_stale, route_add, apply_kind, handle, handle_kind,
  is_kind,
}

-- What the program relies on of the kernel's routing table.
pub record KernelLaws (c : Crates) (net : Netlink c) : Type 0 where
  pub table : net.Kernel → List (Route c)
  -- a listing gives routes of the table, and changes nothing
  pub listed :
      (dst : Option (c.Ipv4Network)) (k : net.Kernel) (r : Route c) (rest : List (Route c))
      → (net.route_list_filtered dst k).0 ≡ some (r ∷ rest)
      → (p : Route c → Bool) → p r ≡ true
      → any p (table k) ≡ true
  pub listing-table :
      (dst : Option (c.Ipv4Network)) (k : net.Kernel)
      → table ((net.route_list_filtered dst k).1) ≡ table k
  pub added :
      (r : Route c) (k : net.Kernel)
      → (net.route_add r k).0 ≡ some tt
      → table ((net.route_add r k).1) ≡ r ∷ table k

module _ (c : Crates) (nets : NetworkLaws c) (net : Netlink c) (laws : KernelLaws c net) where
  open net use {Kernel}

  -- Some route of the kernel's table leads to the same network by the same gateway and link.
  abbrev pub IsInstalled : Route c → Kernel → Type 0
  IsInstalled route k = any (λ r. route_equal c r route) (laws.table k) ≡ true

  route_equal-get_route :
      (link_index : ℕ) (lease : Lease c)
      → route_equal c (get_route c net link_index lease) (get_route c net link_index lease) ≡ true
  unfolding route_equal get_route
  route_equal-get_route link_index lease =
      ground (arith, (nets.equal_iff lease.subnet lease.subnet).1 refl)

  install-IsInstalled :
      (there : Bool) (route : Route c) (k : Kernel) {k' : Kernel}
      → route_equal c route route ≡ true
      → (there ≡ true → IsInstalled route k)
      → install c net there route k ≡ (ok tt, k')
      → IsInstalled route k'
  unfolding install pure
  install-IsInstalled true route k same found h =
      subst (IsInstalled route) (ap (λ p. p.1) h) (found refl)
  install-IsInstalled false route k same found h =
      let (done, at) = call-ok (net.route_add route) k h in
      let e : laws.table _ ≡ route ∷ laws.table k =
        sym (ap laws.table at) ∙ laws.added route k done in
      subst (λ t. any (λ r. route_equal c r route) t ≡ true) (sym e) (ground (arith, same))

  ensure-IsInstalled :
      (route : Route c) (listing : List (Route c)) (k : Kernel) {k' : Kernel}
      → route_equal c route route ≡ true
      → ((r : Route c) (rest : List (Route c))
          → listing ≡ r ∷ rest
          → route_equal c r route ≡ true
          → IsInstalled route k)
      → ensure c net route listing k ≡ (ok tt, k')
      → IsInstalled route k'
  unfolding ensure
  ensure-IsInstalled route [] k same there h =
      install-IsInstalled false route k same (λ e. absurd (cc e)) h
  ensure-IsInstalled route (old ∷ rest) k same there h =
      install-IsInstalled (route_equal c old route) route k same (there old rest refl) h

  -- After the second listing, whatever came before it.
  settled :
      (route : Route c) (kept : List (Route c)) (k : Kernel) {routes' : List (Route c)}
      {k' : Kernel}
      → route_equal c route route ≡ true
      → (call (net.route_list_filtered route.dst) >>= λ route_list'.
            ensure c net route route_list' >> pure kept)
          k
        ≡ (ok routes', k')
      → IsInstalled route k'
  unfolding ◌>>◌ pure
  settled route kept k same h =
      let (listing, k1, read, h1) =
        >>=-eq-ok (call (net.route_list_filtered route.dst))
          (λ route_list'. ensure c net route route_list' >> pure kept) k h in
      let (given, at) = call-ok (net.route_list_filtered route.dst) k read in
      let (u, k2, ensured, h2) = >>=-eq-ok (ensure c net route listing) (λ u. pure kept) k1 h1 in
      let same_table : laws.table k1 ≡ laws.table k =
        sym (ap laws.table at) ∙ laws.listing-table route.dst k in
      subst (IsInstalled route) (ap (λ p. p.1) h2) (
        ensure-IsInstalled route listing k1 same
          (λ r rest e equal.
            subst (λ t. any (λ r. route_equal c r route) t ≡ true) (sym same_table)
              (laws.listed route.dst k r rest (given ∙ ap some e) (λ r. route_equal c r route)
                equal))
          ensured)

  route_add-IsInstalled :
      (route : Route c) (routes : List (Route c)) (k : Kernel) {routes' : List (Route c)}
      {k' : Kernel}
      → route_equal c route route ≡ true
      → route_add c net route routes k ≡ (ok routes', k')
      → IsInstalled route k'
  unfolding route_add
  route_add-IsInstalled route routes k same h =
      let (listing, k1, read, h1) =
        >>=-eq-ok (call (net.route_list_filtered route.dst))
          (λ route_list. drop_stale c net route (routes ++ (route ∷ [])) route_list >>= λ kept.
            call (net.route_list_filtered route.dst) >>= λ route_list'.
            ensure c net route route_list' >> pure kept)
          k h in
      let (kept, k2, dropped, h2) =
        >>=-eq-ok (drop_stale c net route (routes ++ (route ∷ [])) listing)
          (λ kept. call (net.route_list_filtered route.dst) >>= λ route_list'.
            ensure c net route route_list' >> pure kept)
          k1 h1 in
      settled route kept k2 same h2

  -- The event is put, and its lease is of the network's back end.
  pub record IsPut (backend_type : String) (event : LeaseWatchEvent c) : Type 0 where
    pub put_event : event.event_type ≡ EventType.put
    pub kind : is_kind c backend_type event.lease.attrs.backend_type ≡ true

  -- When the host gateway has handled a put of its own back end without an error, the kernel's table
  -- has a route to the lease's subnet by way of the lease's public address on the network's link.
  pub handle-IsInstalled :
      (backend_type : String) (link_index : ℕ) (routes : List (Route c)) (event : LeaseWatchEvent c)
      (k : Kernel) {routes' : List (Route c)} {k' : Kernel}
      → IsPut backend_type event
      → handle c net backend_type link_index routes event k ≡ (ok routes', k')
      → IsInstalled (get_route c net link_index event.lease) k'
  unfolding handle handle_kind apply_kind
  handle-IsInstalled backend_type link_index routes event k put h =
      let added : handle c net backend_type link_index routes event k
          ≡ route_add c net (get_route c net link_index event.lease) routes k =
        ap (λ b. handle_kind c net b link_index routes event k) put.kind
        ∙ ap (λ kind. apply_kind c net link_index kind event.lease routes k) put.put_event in
      route_add-IsInstalled (get_route c net link_index event.lease) routes k
        (route_equal-get_route link_index event.lease) (sym added ∙ h)
