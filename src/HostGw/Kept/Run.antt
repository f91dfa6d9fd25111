-- ===== src/HostGw/Kept/Run.antt =====
-- The routes after a run of `RouterNetwork::run` of src/backend/hostgw/router_network.rs over many
-- events: the events of other subnets keep a route that has been installed.
use flannel_ng.Base.{ℕ, ◌≡◌, refl, ap, subst, ◌++◌, String, Bool, true, false, List, [], ◌∷◌, All}
use flannel_ng.Base.Outcome.{ok}
use flannel_ng.Base.Io.{pure, ignore, ◌>>=◌, ◌>>◌, >>=-eq-ok}
use flannel_ng.Crates.{Crates, NetworkLaws}
use flannel_ng.Lease.{Lease, LeaseWatchEvent, EventType}
use flannel_ng.Netlink.{Route, Netlink}
use flannel_ng.HostGw.{get_route, apply_kind, handle, handle_kind, is_kind, run}
use flannel_ng.HostGw.Installs.{KernelLaws, IsInstalled, IsPut, handle-IsInstalled}
use flannel_ng.HostGw.Kept.{DeletionLaws, other_network, route_add_keeps}

module _ (c : Crates) (nets : NetworkLaws c) (net : Netlink c) (laws : KernelLaws c net)
    (deletion : DeletionLaws c net laws) where
  open net use {Kernel}

  abbrev Installed : Route c → Kernel → Type 0
  Installed = IsInstalled c nets net laws

  -- The subnets of two leases differ.
  abbrev pub Differs : Lease c → Lease c → Type 0
  Differs l m = c.equal (l.subnet) (m.subnet) ≡ false

  -- An event of another subnet keeps the route of a lease.
  apply_kind_keeps :
      (i : ℕ) (l m : Lease c) (kind : EventType) (routes : List (Route c)) (k : Kernel)
      {routes' : List (Route c)} {k' : Kernel}
      → Differs m l
      → apply_kind c net i kind m routes k ≡ (ok routes', k')
      → Installed (get_route c net i l) k
      → Installed (get_route c net i l) k'
  unfolding apply_kind get_route ◌>>◌ ◌>>=◌ ignore pure
  apply_kind_keeps i l m EventType.put routes k differs h there =
      route_add_keeps c nets net laws deletion (get_route c net i l) m.subnet (get_route c net i m)
        routes k refl
        (λ old to_m. other_network c nets net laws deletion old.dst m.subnet l.subnet differs to_m)
        h there
  apply_kind_keeps i l m EventType.delete routes k differs h there =
      subst (Installed (get_route c net i l)) (ap (λ p. p.1) h)
        (deletion.deleted (get_route c net i m) (get_route c net i l) k differs there)

  handle_kind_keeps :
      (b : Bool) (i : ℕ) (routes : List (Route c)) (event : LeaseWatchEvent c) (l : Lease c)
      (k : Kernel) {routes' : List (Route c)} {k' : Kernel}
      → Differs event.lease l
      → handle_kind c net b i routes event k ≡ (ok routes', k')
      → Installed (get_route c net i l) k
      → Installed (get_route c net i l) k'
  unfolding handle_kind pure
  handle_kind_keeps true i routes event l k differs h there =
      apply_kind_keeps i l event.lease event.event_type routes k differs h there
  handle_kind_keeps false i routes event l k differs h there =
      subst (Installed (get_route c net i l)) (ap (λ p. p.1) h) there

  run_keeps :
      (backend_type : String) (i : ℕ) (routes : List (Route c)) (events : List (LeaseWatchEvent c))
      (l : Lease c) (k : Kernel) {routes' : List (Route c)} {k' : Kernel}
      → All (λ (event : LeaseWatchEvent c). Differs event.lease l) events
      → run c net backend_type i routes events k ≡ (ok routes', k')
      → Installed (get_route c net i l) k
      → Installed (get_route c net i l) k'
  unfolding run handle pure
  run_keeps backend_type i routes [] l k differ h there =
      subst (Installed (get_route c net i l)) (ap (λ p. p.1) h) there
  run_keeps backend_type i routes (event ∷ events) l k differ h there =
      let kind = is_kind c backend_type event.lease.attrs.backend_type in
      let (routes1, k1, handled, h1) =
        >>=-eq-ok (handle c net backend_type i routes event)
          (λ routes'. run c net backend_type i routes' events) k h in
      run_keeps backend_type i routes1 events l k1 differ.1 h1
        (handle_kind_keeps kind i routes event l k differ.0 handled there)

  -- After a run over events that has ended without an error, the kernel's table has the route of
  -- each lease of a put of the network's back end which no event of the same subnet has followed:
  -- neither the events before it nor those of other subnets after it matter.
  pub run-IsInstalled :
      (backend_type : String) (i : ℕ) (routes : List (Route c)) (before : List (LeaseWatchEvent c))
      (event : LeaseWatchEvent c) (after : List (LeaseWatchEvent c)) (k : Kernel)
      {routes' : List (Route c)} {k' : Kernel}
      → IsPut c nets net laws backend_type event
      → All (λ (later : LeaseWatchEvent c). Differs later.lease event.lease) after
      → run c net backend_type i routes (before ++ (event ∷ after)) k ≡ (ok routes', k')
      → Installed (get_route c net i event.lease) k'
  unfolding run
  run-IsInstalled backend_type i routes [] event after k put differ h =
      let (routes1, k1, handled, h1) =
        >>=-eq-ok (handle c net backend_type i routes event)
          (λ routes'. run c net backend_type i routes' after) k h in
      run_keeps backend_type i routes1 after event.lease k1 differ h1
        (handle-IsInstalled c nets net laws backend_type i routes event k put handled)
  run-IsInstalled backend_type i routes (e ∷ before) event after k put differ h =
      let (routes1, k1, handled, h1) =
        >>=-eq-ok (handle c net backend_type i routes e)
          (λ routes'. run c net backend_type i routes' (before ++ (event ∷ after))) k h in
      run-IsInstalled backend_type i routes1 before event after k1 put differ h1
