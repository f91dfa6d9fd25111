-- ===== src/Udp/Packet.antt =====
-- `send_udp_packet` of src/backend/udp/udp.rs: from the TUN device to the socket. The result is the
-- buffer as it is left and the datagram's address, if one is sent; an error of the socket is not
-- modelled, since the caller drops it.
pub mod Forward
use flannel_ng.Base.{ℕ, Option, none, some, List, not, ◌==◌, if◌then◌else◌}
use flannel_ng.Base.Outcome.{Outcome, ok, ◌>>=◌}
use flannel_ng.Crates.{Crates}
use flannel_ng.Udp.Codec.{IpSlice, new, version, destination, decrement_ttl}
use flannel_ng.Udp.Routes.{RouteEntry, find_route}

pub record Address : Type 0 where
  pub host : ℕ
  pub port : ℕ

-- The port in the format string of `send_udp_packet`.
abbrev pub peer_port : ℕ
peer_port = 8285

module _ (c : Crates) where
  abbrev pub forward : List ℕ → IpSlice → Option (RouteEntry c) → List ℕ × Option Address
  forward buf packet none = (buf, none)
  forward buf packet (some route) =
      ((decrement_ttl packet).slice, some (record { host = route.next_hop; port = peer_port }))

  unfoldable pub send_udp_packet : List ℕ → List (RouteEntry c) → Outcome (List ℕ × Option Address)
  send_udp_packet buf routes = do
    packet ← new buf
    if not (version packet == 4)
        then ok (buf, none)
        else do route ← find_route c routes (destination packet); ok (forward buf packet route)
