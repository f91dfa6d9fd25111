-- ===== src/Udp/Packet/Forward.antt =====
-- Which packets are forwarded, where to, and what of them changes.
use flannel_ng.Base.{
  ℕ, suc, zero, ◌-◌, ◌<◌, ◌≡◌, none, some, List, [], ◌∷◌, arith, All, length, ◌==◌, ltb,
  Option-cases, inl, inr, if◌then◌else◌,
}
use flannel_ng.Base.Outcome.{ok, err, short_ip_slice}
use flannel_ng.Base.Word.{u32_mod}
use flannel_ng.Crates.{Crates, NetworkLaws}
use flannel_ng.Udp.Codec.{
  IpSlice, byte_at, serialized_size, new, version, destination, decrement_ttl,
}
use flannel_ng.Udp.Codec.Ttl.{decrement_ttl_lem, destination-decrement_ttl}
use flannel_ng.Udp.Routes.{RouteEntry}
use flannel_ng.Udp.Routes.Lookup.{IsBlock, route_for, find_route-eq-route_for}
use flannel_ng.Udp.Packet.{Address, peer_port, forward, send_udp_packet}

abbrev pub AreBytes : List ℕ → Type 0
AreBytes = All (λ b. b < 256)

byte_at-lt : (bytes : List ℕ) (i : ℕ) → AreBytes bytes → byte_at bytes i < 256
byte_at-lt [] i h = omega arith
byte_at-lt (b ∷ bytes) zero h = h.0
byte_at-lt (b ∷ bytes) (suc i) h = byte_at-lt bytes i h.1

pub destination-lt : (packet : IpSlice) → AreBytes packet.slice → destination packet < u32_mod
unfolding destination
destination-lt packet h = omega (
  arith,
  byte_at-lt packet.slice 16 h,
  byte_at-lt packet.slice 17 h,
  byte_at-lt packet.slice 18 h,
  byte_at-lt packet.slice 19 h,
)

module _ (c : Crates) (laws : NetworkLaws c) where
  -- For a buffer of bytes and routes that are blocks named by their first address: a buffer under
  -- 20 bytes is refused. A packet that is not of IPv4, or whose destination no route holds, is
  -- left alone. Any other is forwarded to the next hop of the first route whose block holds its
  -- destination.
  pub send_udp_packet_lem :
      (buf : List ℕ) (routes : List (RouteEntry c))
      → AreBytes buf
      → All (IsBlock c) routes
      → let packet : IpSlice = record { slice = buf } in
        send_udp_packet c buf routes ≡ (
          if ltb (length buf) serialized_size
          then err short_ip_slice
          else if version packet == 4
          then ok (forward c buf packet (route_for c routes (destination packet)))
          else ok (buf, none))
  unfolding send_udp_packet new
  send_udp_packet_lem buf routes bytes blocks =
      let packet : IpSlice = record { slice = buf } in
      ground (
        arith,
        find_route-eq-route_for c laws (destination packet) (destination-lt packet bytes) routes
            blocks,
      )

  sent_cases :
      (buf out : List ℕ) (routes : List (RouteEntry c)) (to : Address)
      → AreBytes buf
      → All (IsBlock c) routes
      → send_udp_packet c buf routes ≡ ok (out, some to)
      → let packet : IpSlice = record { slice = buf } in
        (r : RouteEntry c) × (route_for c routes (destination packet) ≡ some r)
        × (to ≡ record { host = r.next_hop; port = peer_port })
        × (out ≡ (decrement_ttl packet).slice)
        × (new buf ≡ ok packet)
  unfolding new
  sent_cases buf out routes to bytes blocks sent =
      let packet : IpSlice = record { slice = buf } in
      let whole = send_udp_packet_lem buf routes bytes blocks in
      elim (Option-cases (route_for c routes (destination packet))) [
        | inl e ↦ absurd (ground (arith, whole, e))
        | inr (r, e) ↦
            (r, e, ground (arith, whole, e), ground (arith, whole, e), ground (arith, whole, e))
      ]

  -- For a buffer of bytes and routes that are blocks named by their first address: what is sent
  -- has the destination and the length of what was read, one less in its ninth byte if that is
  -- over 0, and goes to the next hop of the first route whose block holds the destination, at port
  -- 8285.
  pub send_udp_packet-sent :
      (buf out : List ℕ) (routes : List (RouteEntry c)) (to : Address)
      → AreBytes buf
      → All (IsBlock c) routes
      → send_udp_packet c buf routes ≡ ok (out, some to)
      → let packet : IpSlice = record { slice = buf } in
        (r : RouteEntry c) × (route_for c routes (destination packet) ≡ some r)
        × (to ≡ record { host = r.next_hop; port = peer_port })
        × (destination (record { slice = out }) ≡ destination packet)
        × (length out ≡ length buf)
        × (byte_at out 8 ≡ byte_at buf 8 - 1)
  send_udp_packet-sent buf out routes to bytes blocks sent =
      let packet : IpSlice = record { slice = buf } in
      let (r, first, there, changed, made) = sent_cases buf out routes to bytes blocks sent in
      let (same, _) = destination-decrement_ttl buf packet made in
      let (ninth, long) = decrement_ttl_lem buf packet 8 made in
      (r, first, there, rw changed same, rw changed long, rw changed (ground (arith, ninth)))
