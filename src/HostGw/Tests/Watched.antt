-- ===== src/HostGw/Tests/Watched.antt =====
-- A host gateway behind the watcher of leases, on a concrete routing table.
use flannel_ng.Base.{◌≡◌, refl, List, [], ◌∷◌, All, concat, arith}
use flannel_ng.Base.Outcome.{ok}
use flannel_ng.Crates.Reference.{Block, reference, reference_laws, same}
use flannel_ng.Samples.{fifth, sample_lease}
use flannel_ng.Lease.{LeaseWatchEvent, LeaseWatchResult}
use flannel_ng.Netlink.{Route}
use flannel_ng.Netlink.Reference.{Tables, tables_netlink, to_dst, without, same_block}
use flannel_ng.HostGw.{route_equal, run}
use flannel_ng.HostGw.Watched.{IsRouted, OfKind, run-watch_leases}
use flannel_ng.Subnet.Watcher.{
  LeaseWatcher, watch_leases, replace_or_push, handle, reset, reset_loop, reset_round, position,
  update, update_round, add,
}
use flannel_ng.Subnet.Watcher.Table.{has}
use flannel_ng.Subnet.Watcher.Stream.{AllDistinct}
use flannel_ng.HostGw.Tests.{tables_laws, tables_deletion, put_third, held_by_five}

-- The registry has the node's own subnet and another, and then a third node joins.
abbrev own_watcher : LeaseWatcher reference
own_watcher = record { own_lease = sample_lease fifth 1; leases = [] }

abbrev seventh : Block
seventh = ((0xAC110700, 24), (omega arith, omega arith))

abbrev put_seventh : LeaseWatchEvent reference
put_seventh = record put_third { lease = record (put_third.lease) { subnet = seventh } }

abbrev results : List (LeaseWatchResult reference)
results =
    record { snapshot = sample_lease fifth 1 ∷ put_third.lease ∷ []; events = []; cursor = 7 }
    ∷ record { snapshot = []; events = put_seventh ∷ []; cursor = 8 }
    ∷ []

distinct_results : AllDistinct reference results
unfolding has same
distinct_results = ((refl, (refl, tt)), (tt, tt))

of_host_gw :
    All (OfKind reference "host-gw") (concat (watch_leases reference own_watcher results).1)
unfolding watch_leases handle reset reset_loop reset_round position update update_round add same
of_host_gw = (refl, (refl, tt))

watched :
    (routes' : List (Route reference)) × (k' : Tables) × (run reference tables_netlink "host-gw" 2
        []
        (concat (watch_leases reference own_watcher results).1)
        held_by_five
      ≡ (ok routes', k'))
unfolding run watch_leases to_dst without same_block same route_equal handle reset reset_loop
    reset_round position update update_round add
watched = (_, _, refl)

run-watch_leases_example :
    IsRouted reference reference_laws tables_netlink tables_laws tables_deletion 2 seventh watched.1
unfolding has watch_leases same handle update update_round reset add replace_or_push
run-watch_leases_example =
    run-watch_leases reference reference_laws tables_netlink tables_laws tables_deletion "host-gw" 2
      own_watcher results held_by_five refl distinct_results of_host_gw (watched.2) seventh refl
      refl
