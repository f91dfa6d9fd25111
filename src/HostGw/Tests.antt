-- ===== src/HostGw/Tests.antt =====
-- A host gateway on a concrete routing table.
mod Watched
use flannel_ng.Base.{
  ◌≡◌, refl, Bool, true, false, Option, none, some, List, [], ◌∷◌, any, All, concat, sym, subst,
  ◌∙◌, arith, Bool-cases, inl, inr,
}
use flannel_ng.Base.Outcome.{ok}
use flannel_ng.Crates.Reference.{Block, reference, reference_laws, base, meet, same}
use flannel_ng.Samples.{third, fifth, sample_lease}
use flannel_ng.Lease.{LeaseWatchEvent, LeaseWatchResult, put, delete}
use flannel_ng.Netlink.{Route}
use flannel_ng.Netlink.Reference.{
  Tables, tables_netlink, empty_tables, to_dst, without, same_dst, same_block,
}
use flannel_ng.HostGw.{get_route, route_equal, same_network, handle, run}
use flannel_ng.HostGw.Kept.{DeletionLaws}
use flannel_ng.HostGw.Kept.Run.{run-IsInstalled}
use flannel_ng.HostGw.Watched.{IsRouted, OfKind, run-watch_leases}
use flannel_ng.Subnet.Watcher.{LeaseWatcher, watch_leases}
use flannel_ng.Subnet.Watcher.Table.{has}
use flannel_ng.Subnet.Watcher.Stream.{AllDistinct}
use flannel_ng.HostGw.Installs.{KernelLaws, IsInstalled, handle-IsInstalled}

to_dst-any :
    (dst : Option (reference.Ipv4Network)) (k : List (Route reference)) (r : Route reference)
    (rest : List (Route reference))
    → to_dst dst k ≡ r ∷ rest
    → (p : Route reference → Bool) → p r ≡ true
    → any p k ≡ true
unfolding to_dst
to_dst-any dst [] r rest h p e = absurd (cc h)
to_dst-any dst (x ∷ k) r rest h p e = elim (Bool-cases (same_dst x.dst dst)) [
  | inl here ↦
      let same_route : x ≡ r = ground arith in
      ground (arith, subst (λ y. p y ≡ true) (sym same_route) e)
  | inr later ↦ ground (arith, to_dst-any dst k r rest (ground arith) p e)
]

pub tables_laws : KernelLaws reference tables_netlink
tables_laws = record {
  table = λ k. k.routes;
  listed = λ dst k r rest h p e. to_dst-any dst k.routes r rest (cc h) p e;
  listing-table = λ dst k. refl;
  added = λ r k h. refl;
}

abbrev pub put_third : LeaseWatchEvent reference
put_third = record {
  lease = record (sample_lease third 9) {
    attrs = record ((sample_lease third 9).attrs) { backend_type = some "host-gw" };
  };
  event_type = put;
}

abbrev pub held_by_five : Tables
held_by_five = record empty_tables {
  routes = get_route reference tables_netlink 2 (sample_lease third 5) ∷ [];
}

-- The subnet of `third` moves from one node to another.
moved :
    (routes' : List (Route reference)) × (k' : Tables) × (handle reference tables_netlink "host-gw"
        2 [] put_third held_by_five
      ≡ (ok routes', k'))
unfolding handle to_dst without same_block meet base same route_equal
moved = (_, _, refl)

handle-IsInstalled_example :
    IsInstalled reference reference_laws tables_netlink tables_laws
      (get_route reference tables_netlink 2 put_third.lease)
      moved.1
handle-IsInstalled_example =
    handle-IsInstalled reference reference_laws tables_netlink tables_laws "host-gw" 2 [] put_third
      held_by_five (record { put_event = refl; kind = refl }) (moved.2)

same_network-same_dst :
    (x d : Option (reference.Ipv4Network)) → same_network reference x d ≡ same_dst x d
unfolding same same_block
same_network-same_dst none d = refl
same_network-same_dst (some x) none = refl
same_network-same_dst (some x) (some d) = refl

-- A block that is equal to one is not equal to another.
same_dst_lem :
    (x old r : Option (reference.Ipv4Network))
    → same_network reference x r ≡ true
    → same_network reference old r ≡ false
    → same_dst x old ≡ false
unfolding same same_block
same_dst_lem none old r h other = refl
same_dst_lem (some x) none r h other = refl
same_dst_lem (some x) (some o) none h other = absurd (cc h)
same_dst_lem (some x) (some o) (some r) h other = ground arith

route_equal-dst :
    (x r : Route reference)
    → route_equal reference x r ≡ true
    → same_network reference x.dst r.dst ≡ true
unfolding route_equal
route_equal-dst x r h = ground arith

without-any :
    (old r : Route reference) (rs : List (Route reference))
    → same_network reference old.dst r.dst ≡ false
    → any (λ x. route_equal reference x r) rs ≡ true
    → any (λ x. route_equal reference x r) (without old rs) ≡ true
unfolding without
without-any old r [] other h = h
without-any old r (x ∷ rs) other h = elim (Bool-cases (route_equal reference x r)) [
  | inl here ↦
      let kept = same_dst_lem x.dst old.dst r.dst (route_equal-dst x r here) other in
      ground (arith, kept, here)
  | inr later ↦
      let rest = without-any old r rs other (ground (arith, later, h)) in ground (arith, rest)
]

to_dst-same_network :
    (dst : Option (reference.Ipv4Network)) (rs : List (Route reference)) (r : Route reference)
    (rest : List (Route reference))
    → to_dst dst rs ≡ r ∷ rest
    → same_network reference r.dst dst ≡ true
unfolding to_dst
to_dst-same_network dst [] r rest h = absurd (cc h)
to_dst-same_network dst (x ∷ rs) r rest h = elim (Bool-cases (same_dst x.dst dst)) [
  | inl here ↦
      let same_route : x ≡ r = ground arith in
      subst (λ (y : Route reference). same_network reference y.dst dst ≡ true) same_route
        (same_network-same_dst x.dst dst ∙ here)
  | inr later ↦ to_dst-same_network dst rs r rest (ground arith)
]

pub tables_deletion : DeletionLaws reference tables_netlink tables_laws
unfolding tables_laws
tables_deletion = record {
  listed_dst = λ dst k r rest h. to_dst-same_network dst k.routes r rest (cc h);
  deleted = λ old r k other h. without-any old r k.routes other h;
}

-- The puts of two subnets, and then the deletion of the second.
abbrev put_fifth : LeaseWatchEvent reference
put_fifth = record put_third { lease = record (put_third.lease) { subnet = fifth } }

abbrev delete_fifth : LeaseWatchEvent reference
delete_fifth = record put_fifth { event_type = delete }

ran :
    (routes' : List (Route reference)) × (k' : Tables) × (run reference tables_netlink "host-gw" 2
        []
        (put_fifth ∷ put_third ∷ delete_fifth ∷ [])
        held_by_five
      ≡ (ok routes', k'))
unfolding run to_dst without same_block meet base same route_equal
ran = (_, _, refl)

third_differs : reference.equal fifth third ≡ false
unfolding same
third_differs = refl

run-IsInstalled_example :
    IsInstalled reference reference_laws tables_netlink tables_laws
      (get_route reference tables_netlink 2 put_third.lease)
      ran.1
run-IsInstalled_example =
    run-IsInstalled reference reference_laws tables_netlink tables_laws tables_deletion "host-gw" 2
      [] (put_fifth ∷ []) put_third (delete_fifth ∷ []) held_by_five
      (record { put_event = refl; kind = refl }) (third_differs, tt) (ran.2)
