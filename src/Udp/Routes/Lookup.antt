-- ===== src/Udp/Routes/Lookup.antt =====
-- `find_route` of src/backend/udp/udp.rs, and the search that it stands for.
use flannel_ng.Base.{
  ℕ, ◌+◌, ◌%◌, ◌<◌, ◌≡◌, refl, Option, List, [], ◌∷◌, arith, find, All, ◌==◌, ==_iff, bool_ext,
}
use flannel_ng.Base.Outcome.{ok}
use flannel_ng.Base.Multiple.{floor_iff}
use flannel_ng.Base.Word.{size, size_pos, u32_mod}
use flannel_ng.Crates.{Crates, NetworkLaws}
use flannel_ng.Udp.Routes.{RouteEntry, find_route}

module _ (c : Crates) where
  -- The first route whose block holds the address.
  unfoldable pub route_for : List (RouteEntry c) → ℕ → Option (RouteEntry c)
  route_for routes dst = find (λ r. c.contains r.dst dst) routes

  -- A route to a block that is named by its first address, as those of the leases are.
  abbrev pub IsBlock : RouteEntry c → Type 0
  IsBlock r = c.network r.dst ≡ c.ip r.dst

module _ (c : Crates) (laws : NetworkLaws c) (dst : ℕ) (bound : dst < u32_mod) where
  tested :
      (r : RouteEntry c) (n : c.Ipv4Network)
      → IsBlock c r
      → c.ip n ≡ dst
      → c.prefix n ≡ c.prefix r.dst
      → (c.network n == c.ip r.dst) ≡ c.contains r.dst dst
  tested r n block i p =
      let s = size (c.prefix r.dst) in
      let first : c.ip r.dst % s ≡ 0 = omega (arith, laws.network-add r.dst, block) in
      let floor : c.network n + dst % s ≡ dst = rw (i, p) at (laws.network-add n) in
      let same =
        floor_iff s (c.ip r.dst) dst (c.network n) (size_pos (c.prefix r.dst)) first floor in
      let holds = laws.contains_iff r.dst dst in
      bool_ext _ _ (λ e. holds.1 (rw block (same.0 ((==_iff _ _).0 e))))
        (λ e. (==_iff _ _).1 (same.1 (rw block at (holds.0 e))))

  -- For an address below 2 ^ 32 and routes that are blocks named by their first address,
  -- `find_route` does not panic, and finds the first route whose block holds the address.
  pub find_route-eq-route_for :
      (routes : List (RouteEntry c))
      → All (IsBlock c) routes
      → find_route c routes dst ≡ ok (route_for c routes dst)
  unfolding find_route route_for
  find_route-eq-route_for [] h = refl
  find_route-eq-route_for (r ∷ rs) h =
      let (n, made, i, p) = laws.new-some dst (c.prefix r.dst) bound (laws.prefix-le r.dst) in
      ground (arith, made, tested r n h.0 i p, find_route-eq-route_for rs h.1)
