-- ===== src/Udp/Run.antt =====
-- The loop of `UdpNetwork::run` of src/backend/udp/udp.rs, as a machine over what `select!` takes:
-- a datagram from the socket, a packet from the TUN device, or a batch of lease events.
pub mod Safe
use flannel_ng.Base.{ℕ, Bool, true, false, Option, none, some, List, [], ◌∷◌, ◌++◌, if◌then◌else◌}
use flannel_ng.Base.Outcome.{Outcome, ok, err, panic, out_of_fuel, external}
use flannel_ng.Crates.{Crates}
use flannel_ng.Lease.{LeaseWatchEvent}
use flannel_ng.Udp.Codec.{IpSlice, new, decrement_ttl}
use flannel_ng.Udp.Routes.{RouteEntry, apply_events}
use flannel_ng.Udp.Packet.{Address, send_udp_packet}

module _ (c : Crates) where
  pub data Input : Type 0 where
    -- the bytes received, and whether the device then takes them
    received : List ℕ → Bool → Input
    read : List ℕ → Input
    leases : List (LeaseWatchEvent c) → Input

  pub record State : Type 0 where
    pub routes : List (RouteEntry c)
    pub to_tun : List (List ℕ)
    pub to_sock : List (List ℕ × Address)

  -- The loop goes on, or it has ended with a result.
  pub data Status : Type 0 where
    running : State → Status
    ended : State → Outcome (Unit {0}) → Status

  -- `IpSlice::new(..)?`, `decrement_ttl` and `write_all(..).await?`
  unfoldable pub deliver : State → Bool → Outcome IpSlice → Status
  deliver s written (ok packet) =
      if written
      then running (record s { to_tun = s.to_tun ++ ((decrement_ttl packet).slice ∷ []) })
      else ended s (err external)
  deliver s written (err e) = ended s (err e)
  deliver s written panic = ended s panic
  deliver s written out_of_fuel = ended s out_of_fuel

  -- `let _ = send_udp_packet(..).await`
  unfoldable pub transmit : State → Outcome (List ℕ × Option Address) → Status
  transmit s (ok (buf, none)) = running s
  transmit s (ok (buf, some to)) = running (record s { to_sock = s.to_sock ++ ((buf, to) ∷ []) })
  transmit s (err e) = running s
  transmit s panic = ended s panic
  transmit s out_of_fuel = ended s out_of_fuel

  unfoldable pub step : State → Input → Status
  unfolding deliver transmit
  step s (received bytes written) = deliver s written (new bytes)
  step s (read []) = ended s (ok tt)
  step s (read (b ∷ bytes)) = transmit s (send_udp_packet c (b ∷ bytes) s.routes)
  step s (leases es) = running (record s { routes = apply_events c s.routes es })

  -- The next round, unless the loop has ended.
  abbrev pub resume : Status → (State → Status) → Status
  resume (running s) rest = rest s
  resume (ended s r) rest = ended s r

  unfoldable pub run : State → List Input → Status
  run s [] = running s
  run s (i ∷ is) = resume (step s i) (λ s'. run s' is)
