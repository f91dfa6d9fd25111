-- ===== src/HostGw/Kept.antt =====
-- The routes that `route_add` of src/backend/hostgw/router_network.rs keeps: adding a route to a
-- network keeps those to other networks.
pub mod Run
use flannel_ng.Base.{
  ℕ, ◌≡◌, refl, sym, ap, subst, ◌∙◌, ◌++◌, String, Bool, true, false, not, retain, Option, none,
  some, List, [], ◌∷◌, any, All, ◌||◌, ◌&&◌, arith, bool_ext, Bool-cases, inl, inr,
}
use flannel_ng.Base.Outcome.{ok}
use flannel_ng.Base.Io.{Io, pure, call, ignore, ◌>>=◌, ◌>>◌, >>=-eq-ok, call-ok}
use flannel_ng.Crates.{Crates, NetworkLaws}
use flannel_ng.Lease.{Lease, LeaseWatchEvent, EventType}
use flannel_ng.Netlink.{Route, Netlink}
use flannel_ng.HostGw.{
  route_equal, get_route, replace, install, ensure, drop_stale, route_add, apply_kind, handle,
  handle_kind, is_kind, run, same_network,
}
use flannel_ng.HostGw.Installs.{KernelLaws, IsInstalled, IsPut, handle-IsInstalled}

-- What the program relies on of a listing and a deletion: a listing gives routes to its network,
-- and a deletion leaves the routes to other networks.
pub record DeletionLaws (c : Crates) (net : Netlink c) (laws : KernelLaws c net) : Type 0 where
  pub listed_dst :
      (dst : Option (c.Ipv4Network)) (k : net.Kernel) (r : Route c) (rest : List (Route c))
      → (net.route_list_filtered dst k).0 ≡ some (r ∷ rest)
      → same_network c r.dst dst ≡ true
  pub deleted :
      (old r : Route c) (k : net.Kernel)
      → same_network c old.dst r.dst ≡ false
      → any (λ x. route_equal c x r) (laws.table k) ≡ true
      → any (λ x. route_equal c x r) (laws.table ((net.route_del old k).1)) ≡ true

module _ (c : Crates) (nets : NetworkLaws c) (net : Netlink c) (laws : KernelLaws c net)
    (deletion : DeletionLaws c net laws) where
  open net use {Kernel}

  abbrev pub Installed : Route c → Kernel → Type 0
  Installed = IsInstalled c nets net laws

  pub other_network :
      (d : Option (c.Ipv4Network)) (m n : c.Ipv4Network)
      → c.equal m n ≡ false
      → same_network c d (some m) ≡ true
      → same_network c d (some n) ≡ false
  other_network none m n differs to_m = absurd (cc to_m)
  other_network (some d) m n differs to_m =
      let e = (nets.equal_iff d m).0 to_m in ap (λ d. c.equal d n) e ∙ differs

  -- The steps of `route_add` that come after the first listing, and after the removal.
  abbrev ensured : Route c → List (Route c) → List (Route c) → Io Kernel (List (Route c))
  ensured route kept listing = ensure c net route listing >> pure kept

  abbrev relisted : Route c → List (Route c) → Io Kernel (List (Route c))
  relisted route kept = call (net.route_list_filtered route.dst) >>= ensured route kept

  abbrev dropped : Route c → List (Route c) → List (Route c) → Io Kernel (List (Route c))
  dropped route routes listing =
      drop_stale c net route (routes ++ (route ∷ [])) listing >>= relisted route

  module _ (r : Route c) where
    listing_keeps :
        (dst : Option (c.Ipv4Network)) (k : Kernel) {k' : Kernel}
        → (net.route_list_filtered dst k).1 ≡ k'
        → Installed r k
        → Installed r k'
    listing_keeps dst k at h =
        let same : laws.table _ ≡ laws.table k =
          sym (ap laws.table at) ∙ laws.listing-table dst k in
        subst (λ t. any (λ x. route_equal c x r) t ≡ true) (sym same) h

    replace_keeps :
        (there : Bool) (old : Route c) (routes : List (Route c)) (k : Kernel)
        {routes' : List (Route c)} {k' : Kernel}
        → same_network c old.dst r.dst ≡ false
        → replace c net there old routes k ≡ (ok routes', k')
        → Installed r k
        → Installed r k'
    unfolding replace ◌>>◌ pure
    replace_keeps true old routes k other h there = subst (Installed r) (ap (λ p. p.1) h) there
    replace_keeps false old routes k other h there =
        let (u, k1, deleted, h1) =
          >>=-eq-ok (call (net.route_del old))
            (λ _. pure (retain (λ it. not (route_equal c it old)) routes)) k h in
        let (done, at) = call-ok (net.route_del old) k deleted in
        subst (Installed r) (at ∙ ap (λ p. p.1) h1) (deletion.deleted old r k other there)

    drop_stale_keeps :
        (route : Route c) (routes listing : List (Route c)) (k : Kernel) {routes' : List (Route c)}
        {k' : Kernel}
        → ((old : Route c) (rest : List (Route c))
            → listing ≡ old ∷ rest
            → same_network c old.dst r.dst ≡ false)
        → drop_stale c net route routes listing k ≡ (ok routes', k')
        → Installed r k
        → Installed r k'
    unfolding drop_stale pure
    drop_stale_keeps route routes [] k other h there = subst (Installed r) (ap (λ p. p.1) h) there
    drop_stale_keeps route routes (old ∷ rest) k other h there =
        replace_keeps (route_equal c old route) old routes k (other old rest refl) h there

    install_keeps :
        (has : Bool) (route : Route c) (k : Kernel) {k' : Kernel}
        → install c net has route k ≡ (ok tt, k')
        → Installed r k
        → Installed r k'
    unfolding install pure
    install_keeps true route k h there = subst (Installed r) (ap (λ p. p.1) h) there
    install_keeps false route k h there =
        let (done, at) = call-ok (net.route_add route) k h in
        let e : laws.table _ ≡ route ∷ laws.table k =
          sym (ap laws.table at) ∙ laws.added route k done in
        subst (λ t. any (λ x. route_equal c x r) t ≡ true) (sym e) (ground (arith, there))

    ensure_keeps :
        (route : Route c) (listing : List (Route c)) (k : Kernel) {k' : Kernel}
        → ensure c net route listing k ≡ (ok tt, k')
        → Installed r k
        → Installed r k'
    unfolding ensure
    ensure_keeps route [] k h there = install_keeps false route k h there
    ensure_keeps route (old ∷ rest) k h there =
        install_keeps (route_equal c old route) route k h there

    relisted_keeps :
        (route : Route c) (kept : List (Route c)) (k : Kernel) {routes' : List (Route c)}
        {k' : Kernel}
        → relisted route kept k ≡ (ok routes', k')
        → Installed r k
        → Installed r k'
    unfolding ◌>>◌ pure
    relisted_keeps route kept k h there =
        let (listing, k1, read, h1) =
          >>=-eq-ok (call (net.route_list_filtered route.dst)) (ensured route kept) k h in
        let (given, at) = call-ok (net.route_list_filtered route.dst) k read in
        let (u, k2, done, h2) = >>=-eq-ok (ensure c net route listing) (λ u. pure kept) k1 h1 in
        subst (Installed r) (ap (λ p. p.1) h2)
          (ensure_keeps route listing k1 done (listing_keeps route.dst k at there))

    -- Adding a route to another network keeps the route.
    pub route_add_keeps :
        (m : c.Ipv4Network) (route : Route c) (routes : List (Route c)) (k : Kernel)
        {routes' : List (Route c)} {k' : Kernel}
        → route.dst ≡ some m
        → ((old : Route c)
            → same_network c old.dst (some m) ≡ true
            → same_network c old.dst r.dst ≡ false)
        → route_add c net route routes k ≡ (ok routes', k')
        → Installed r k
        → Installed r k'
    unfolding route_add
    route_add_keeps m route routes k to_m other h there =
        let (listing, k1, read, h1) =
          >>=-eq-ok (call (net.route_list_filtered route.dst)) (dropped route routes) k h in
        let (given, at) = call-ok (net.route_list_filtered route.dst) k read in
        let (kept, k2, stale, h2) =
          >>=-eq-ok (drop_stale c net route (routes ++ (route ∷ [])) listing) (relisted route) k1
            h1 in
        relisted_keeps route kept k2 h2 (
          drop_stale_keeps route (routes ++ (route ∷ [])) listing k1
            (λ old rest e. other old (
              subst (λ d. same_network c old.dst d ≡ true) to_m
                (deletion.listed_dst route.dst k old rest (given ∙ ap some e))))
            stale (listing_keeps route.dst k at there))
