-- ===== src/Udp/Tests.antt =====
-- Runs of the UDP back end, and its theorems at concrete inputs.
use native.Mathlib.Decide.{dec_lt, dec_le}
use flannel_ng.Base.{
  ℕ, ◌≡◌, refl, true, Option, none, some, List, [], ◌∷◌, arith, length, get_elem?, All,
}
use flannel_ng.Base.Outcome.{ok}
use flannel_ng.Crates.Reference.{Block, reference, reference_laws, make, base}
use flannel_ng.Samples.{third, fifth, sample_lease}
use flannel_ng.Lease.{Lease, LeaseWatchEvent}
use flannel_ng.Subnet.Watcher.{put_event, delete_event}
use flannel_ng.Subnet.Watcher.Consumer.{receive_all}
use flannel_ng.Udp.Codec.{byte_at, new, version, ttl, destination, decrement_ttl}
use flannel_ng.Udp.Codec.Ttl.{decrement_ttl_lem}
use flannel_ng.Udp.Routes.{RouteEntry, find_route, apply_events}
use flannel_ng.Udp.Routes.Table.{next_hop, hop, next_hop-apply_events}
use flannel_ng.Udp.Routes.Lookup.{IsBlock, route_for, find_route-eq-route_for}
use flannel_ng.Udp.Packet.{Address, send_udp_packet}
use flannel_ng.Udp.Packet.Forward.{AreBytes, send_udp_packet-sent}
use flannel_ng.Udp.Run.{State, Input, received, read, leases, run}
use flannel_ng.Udp.Run.Safe.{IsCalm, run-IsCalm}

-- The head of the packet of the test in codec.rs: from 172.17.43.0 to 172.17.5.2.
abbrev ping : List ℕ
ping =
    0x45 ∷ 0x00 ∷ 0x00 ∷ 0x54 ∷ 0x52 ∷ 0x83 ∷ 0x40 ∷ 0x00 ∷ 0x3f ∷ 0x01 ∷ 0x61 ∷ 0x01 ∷ 0xac ∷ 0x11
    ∷ 0x2b ∷ 0x00 ∷ 0xac ∷ 0x11 ∷ 0x05 ∷ 0x02 ∷ []

ping-ttl : (version (record { slice = ping }) ≡ 4) × (ttl (record { slice = ping }) ≡ 63)
unfolding version ttl
ping-ttl = (refl, refl)

decrement_ttl_lem_example :
    (get_elem? (decrement_ttl (record { slice = ping })).slice 8 ≡ some 62)
    × (length (decrement_ttl (record { slice = ping })).slice ≡ 20)
unfolding new
decrement_ttl_lem_example = decrement_ttl_lem ping (record { slice = ping }) 8 refl

abbrev routes : List (RouteEntry reference)
routes =
    record { dst = third; next_hop = 0xC6130001 }
    ∷ record { dst = fifth; next_hop = 0xC6130002 }
    ∷ []

blocks : All (IsBlock reference) routes
unfolding base
blocks = (refl, (refl, tt))

find_route-eq-route_for_example :
    find_route reference routes 0xAC110502 ≡ ok (route_for reference routes 0xAC110502)
find_route-eq-route_for_example =
    find_route-eq-route_for reference reference_laws 0xAC110502 (omega arith) routes blocks

bytes : AreBytes ping
bytes = omega arith

abbrev onward : Address
onward = record { host = 0xC6130002; port = 8285 }

sent_run :
    send_udp_packet reference ping routes
    ≡ ok ((decrement_ttl (record { slice = ping })).slice, some onward)
unfolding send_udp_packet new version destination find_route make dec_lt dec_le base
sent_run = refl

send_udp_packet-sent_example :
    (r : RouteEntry reference) × (route_for reference routes (destination (record { slice = ping }))
      ≡ some r)
    × (onward ≡ record { host = r.next_hop; port = 8285 })
    × (destination (record { slice = (decrement_ttl (record { slice = ping })).slice })
        ≡ destination (record { slice = ping }))
    × (length (decrement_ttl (record { slice = ping })).slice ≡ 20)
    × (byte_at (decrement_ttl (record { slice = ping })).slice 8 ≡ 62)
send_udp_packet-sent_example =
    send_udp_packet-sent reference reference_laws ping
      (decrement_ttl (record { slice = ping })).slice routes onward bytes blocks sent_run

abbrev table : Block → Option (Lease reference)
table t = none

abbrev news : List (LeaseWatchEvent reference)
news =
    put_event reference (sample_lease third 1)
    ∷ put_event reference (sample_lease third 2)
    ∷ delete_event reference (sample_lease fifth 3)
    ∷ []

next_hop-apply_events_example :
    next_hop reference (apply_events reference [] news) third
    ≡ hop reference (receive_all reference table news third)
unfolding next_hop
next_hop-apply_events_example =
    next_hop-apply_events reference reference_laws [] table news (λ t. refl) third

abbrev idle : State reference
idle = record { routes = []; to_tun = []; to_sock = [] }

abbrev traffic : List (Input reference)
traffic = leases news ∷ read ping ∷ received ping true ∷ received [] true ∷ []

traffic_IsInput :
    All (λ (e : LeaseWatchEvent reference). base e.lease.subnet ≡ e.lease.subnet.0.0) news
unfolding base
traffic_IsInput = (refl, (refl, (refl, tt)))

run-IsCalm_example : IsCalm reference (run reference idle traffic)
run-IsCalm_example =
    run-IsCalm reference reference_laws idle traffic tt
      (traffic_IsInput, (bytes, (bytes, (tt, tt))))
