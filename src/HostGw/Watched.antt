-- ===== src/HostGw/Watched.antt =====
-- The host gateway of src/backend/hostgw/router_network.rs behind the watcher of leases of
-- src/subnet/subnet.rs: the routes that the kernel has after a stream of results of the registry.
use flannel_ng.Base.{
  ℕ, ◌≡◌, refl, sym, ap, subst, ◌∙◌, ◌++◌, ◌⊎◌, inl, inr, String, true, false, Option, none, some,
  List, [], ◌∷◌, All, Bool-cases, arith, if◌then◌else◌,
}
use flannel_ng.Base.Lists.{concat}
use flannel_ng.Base.Outcome.{ok}
use flannel_ng.Crates.{Crates, NetworkLaws}
use flannel_ng.Lease.{Lease, LeaseWatchEvent, LeaseWatchResult, EventType}
use flannel_ng.Subnet.Watcher.{LeaseWatcher, reset, update_round, update, handle, watch_leases}
use flannel_ng.Subnet.Watcher.Table.{has, IsDistinct}
use flannel_ng.Subnet.Watcher.Updates.{update_round-own}
use flannel_ng.Subnet.Watcher.Consumer.{
  Table, Covers, is_some, kept, receive, receive_all, receive_all-append,
}
use flannel_ng.Subnet.Watcher.Stream.{AllDistinct, receive_batches, watch_leases-Covers}
use flannel_ng.Netlink.{Route, Netlink}
use flannel_ng.HostGw.{get_route, is_kind, run}
use flannel_ng.HostGw.Installs.{KernelLaws, IsInstalled}
use flannel_ng.HostGw.Kept.{DeletionLaws}
use flannel_ng.HostGw.Kept.Run.{Differs, run-IsInstalled}

module _ (c : Crates) where
  abbrev pub no_leases : Table c
  no_leases t = none

  receive_batches-concat :
      (table : Table c) (batches : List (List (LeaseWatchEvent c)))
      → receive_batches c table batches ≡ receive_all c table (concat batches)
  unfolding receive_batches receive_all
  receive_batches-concat table [] = refl
  receive_batches-concat table (batch ∷ rest) =
      receive_batches-concat (receive_all c table batch) rest
      ∙ sym (receive_all-append c table batch (concat rest))

  -- The events are not about the subnet.
  abbrev Elsewhere : c.Ipv4Network → List (LeaseWatchEvent c) → Type 0
  Elsewhere t = All (λ (e : LeaseWatchEvent c). c.equal (e.lease.subnet) t ≡ false)

  -- The last event of a subnet.
  record IsLast (t : c.Ipv4Network) (l : Lease c) (es : List (LeaseWatchEvent c)) : Type 0 where
    before : List (LeaseWatchEvent c)
    event : LeaseWatchEvent c
    after : List (LeaseWatchEvent c)
    split : es ≡ before ++ (event ∷ after)
    of_subnet : c.equal (event.lease.subnet) t ≡ true
    kept_eq : kept c event.event_type event.lease ≡ some l
    elsewhere : Elsewhere t after

  -- What a table holds has been there, or is of the last event of its subnet.
  receive_all-cases :
      (table : Table c) (es : List (LeaseWatchEvent c)) (t : c.Ipv4Network) (l : Lease c)
      → receive_all c table es t ≡ some l
      → ((table t ≡ some l) × Elsewhere t es) ⊎ IsLast t l es
  unfolding receive_all receive
  receive_all-cases table [] t l h = inl (h, tt)
  receive_all-cases table (e ∷ es) t l h = elim (receive_all-cases (receive c table e) es t l h) [
    | inr later ↦ inr (record {
      before = e ∷ later.before;
      event = later.event;
      after = later.after;
      split = ap (λ xs. e ∷ xs) later.split;
      of_subnet = later.of_subnet;
      kept_eq = later.kept_eq;
      elsewhere = later.elsewhere;
    })
    | inl (here, elsewhere) ↦ elim (Bool-cases (c.equal (e.lease.subnet) t)) [
      | inl hit ↦ inr (record {
        before = [];
        event = e;
        after = es;
        split = refl;
        of_subnet = hit;
        kept_eq = sym (ap (λ b. if b then kept c e.event_type e.lease else table t) hit) ∙ here;
        elsewhere = elsewhere;
      })
      | inr miss ↦ inl (
        sym (ap (λ b. if b then kept c e.event_type e.lease else table t) miss) ∙ here,
        (miss, elsewhere),
      )
    ]
  ]

  kept-put :
      (kind : EventType) (m : Lease c) {l : Lease c} → kept c kind m ≡ some l → kind ≡ EventType.put
  kept-put EventType.put m h = refl
  kept-put EventType.delete m h = absurd (cc h)

  is_some-true : (o : Option (Lease c)) → is_some o ≡ true → (l : Lease c) × (o ≡ some l)
  is_some-true none h = absurd (cc h)
  is_some-true (some l) h = (l, refl)

  All-last :
      (P : LeaseWatchEvent c → Type 0) (before : List (LeaseWatchEvent c)) (e : LeaseWatchEvent c)
      (after : List (LeaseWatchEvent c))
      → All P (before ++ (e ∷ after))
      → P e
  All-last P [] e after h = h.0
  All-last P (x ∷ before) e after h = All-last P before e after h.1

  -- The event's lease is of the back end.
  abbrev pub OfKind : String → LeaseWatchEvent c → Type 0
  OfKind backend_type e = is_kind c backend_type e.lease.attrs.backend_type ≡ true

  empty-Covers : (w : LeaseWatcher c) → w.leases ≡ [] → Covers c no_leases w
  unfolding has
  empty-Covers w none_yet t other = sym (ap (has c t) none_yet)

  -- The watcher's own lease stays.
  update-own :
      (w : LeaseWatcher c) (es : List (LeaseWatchEvent c))
      → (update c w es).0.own_lease ≡ w.own_lease
  unfolding update
  update-own w [] = refl
  update-own w (e ∷ es) = update-own (update_round c w e).0 es ∙ update_round-own c w e

  handle-own :
      (w : LeaseWatcher c) (wr : LeaseWatchResult c) → (handle c w wr).0.own_lease ≡ w.own_lease
  unfolding handle reset
  handle-own w wr = ground (arith, update-own w wr.events)

  watch_leases-own :
      (w : LeaseWatcher c) (results : List (LeaseWatchResult c))
      → (watch_leases c w results).0.own_lease ≡ w.own_lease
  unfolding watch_leases
  watch_leases-own w [] = refl
  watch_leases-own w (wr ∷ rest) = watch_leases-own (handle c w wr).0 rest ∙ handle-own w wr

module _ (c : Crates) (nets : NetworkLaws c) (net : Netlink c) (laws : KernelLaws c net)
    (deletion : DeletionLaws c net laws) where
  open net use {Kernel}

  all_differ :
      (t : c.Ipv4Network) (m : Lease c) (es : List (LeaseWatchEvent c))
      → c.equal (m.subnet) t ≡ true
      → Elsewhere c t es
      → All (λ (e : LeaseWatchEvent c). Differs c nets net laws deletion e.lease m) es
  all_differ t m [] hit h = tt
  all_differ t m (e ∷ es) hit h =
      let same = (nets.equal_iff m.subnet t).0 hit in
      (ap (c.equal (e.lease.subnet)) same ∙ h.0, all_differ t m es hit h.1)

  -- The host gateway has a route to the subnet in the kernel.
  abbrev pub IsRouted : ℕ → c.Ipv4Network → Kernel → Type 0
  IsRouted i t k =
      (l : Lease c) × (c.equal (l.subnet) t ≡ true)
      × IsInstalled c nets net laws (get_route c net i l) k

  -- From a watcher without leases, over a stream of results whose snapshots have one lease a
  -- subnet: when the host gateway, with no route of its own yet, has run without an error over the
  -- batches that `watch_leases` has sent, all of them of its own back end, the kernel has a route to
  -- each subnet that the watcher holds at the end, but for the node's own.
  pub run-watch_leases :
      (backend_type : String) (i : ℕ) (w : LeaseWatcher c) (results : List (LeaseWatchResult c))
      (k : Kernel) {routes' : List (Route c)} {k' : Kernel}
      → w.leases ≡ []
      → AllDistinct c results
      → All (OfKind c backend_type) (concat (watch_leases c w results).1)
      → run c net backend_type i [] (concat (watch_leases c w results).1) k ≡ (ok routes', k')
      → (t : c.Ipv4Network) → c.equal w.own_lease.subnet t ≡ false
      → has c t (watch_leases c w results).0.leases ≡ true
      → IsRouted i t k'
  run-watch_leases backend_type i w results k {routes'} {k'} none_yet distinct kinds h t other
        held =
      let (w', batches) = watch_leases c w results in
      let covered =
        watch_leases-Covers c nets (no_leases c) w results (subst (IsDistinct c) (sym none_yet) tt)
          distinct (empty-Covers c w none_yet) in
      let own = ap (λ (l : Lease c). c.equal (l.subnet) t) (watch_leases-own c w results) in
      let table = receive_all c (no_leases c) (concat batches) in
      let (l, found) = is_some-true c (table t) (
        ap (λ (g : Table c). is_some (g t)) (sym (receive_batches-concat c (no_leases c) batches))
        ∙ covered t (own ∙ other)
        ∙ held) in
      elim (receive_all-cases c (no_leases c) (concat batches) t l found) [
        | inl (here, _) ↦ absurd (cc here)
        | inr last ↦ (
          last.event.lease,
          last.of_subnet,
          run-IsInstalled c nets net laws deletion backend_type i [] last.before last.event
              last.after k
              (record {
                put_event = kept-put c last.event.event_type last.event.lease last.kept_eq;
                kind =
                    All-last c _ last.before last.event last.after
                      (subst (All (OfKind c backend_type)) last.split kinds);
              })
              (all_differ t last.event.lease last.after last.of_subnet last.elsewhere)
              (subst (λ es. run c net backend_type i [] es k ≡ (ok routes', k')) last.split h),
        )
      ]
