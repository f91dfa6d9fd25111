-- ===== src/Udp/Run/Safe.antt =====
-- How the loop of src/backend/udp/udp.rs can end.
use flannel_ng.Base.{ℕ, ◌≡◌, Bool, List, [], ◌∷◌, map, retain, arith, All}
use flannel_ng.Base.Outcome.{ok, err, panic, out_of_fuel}
use flannel_ng.Crates.{Crates, NetworkLaws}
use flannel_ng.Lease.{Lease, LeaseWatchEvent, EventType}
use flannel_ng.Udp.Codec.{new}
use flannel_ng.Udp.Routes.{RouteEntry, redirect, apply_event, apply_events}
use flannel_ng.Udp.Routes.Lookup.{IsBlock}
use flannel_ng.Udp.Packet.Forward.{AreBytes, send_udp_packet_lem}
use flannel_ng.Udp.Run.{
  Input, received, read, leases, State, Status, running, ended, step, resume, run,
}
use flannel_ng.Subnet.Allocate.Search.{All-append}

module _ (c : Crates) where
  -- Bytes are below 256, and the events name blocks by their first addresses.
  abbrev pub IsInput : Input c → Type 0
  IsInput (received bytes written) = AreBytes bytes
  IsInput (read bytes) = AreBytes bytes
  IsInput (leases es) =
      All (λ (e : LeaseWatchEvent c). c.network e.lease.subnet ≡ c.ip e.lease.subnet) es

  -- How a status came about: the loop goes on, the device was closed, a datagram was too short, or
  -- the device refused a packet.
  abbrev pub IsCalm : Status c → Type 0
  IsCalm (running s) = All (IsBlock c) s.routes
  IsCalm (ended s (ok u)) = Unit
  IsCalm (ended s (err e)) = Unit
  IsCalm (ended s panic) = ⊥
  IsCalm (ended s out_of_fuel) = ⊥

  redirect-IsBlock :
      (subnet : c.Ipv4Network) (ip : ℕ) (routes : List (RouteEntry c))
      → All (IsBlock c) routes
      → All (IsBlock c) (map (redirect c subnet ip) routes)
  redirect-IsBlock subnet ip [] h = tt
  redirect-IsBlock subnet ip (r ∷ rs) h = (ground arith, redirect-IsBlock subnet ip rs h.1)

  retain-IsBlock :
      (p : RouteEntry c → Bool) (routes : List (RouteEntry c))
      → All (IsBlock c) routes
      → All (IsBlock c) (retain p routes)
  retain-IsBlock p [] h = tt
  retain-IsBlock p (r ∷ rs) h = ground (arith, retain-IsBlock p rs h.1)

  apply_event-IsBlock :
      (routes : List (RouteEntry c)) (lease : Lease c) (kind : EventType)
      → All (IsBlock c) routes
      → c.network lease.subnet ≡ c.ip lease.subnet
      → All (IsBlock c) (apply_event c routes (record { lease = lease; event_type = kind }))
  unfolding apply_event
  apply_event-IsBlock routes lease EventType.put h e =
      All-append (IsBlock c) (map (redirect c lease.subnet lease.attrs.public_ip) routes)
        (record { dst = lease.subnet; next_hop = lease.attrs.public_ip } ∷ [])
        (redirect-IsBlock lease.subnet _ routes h) (e, tt)
  apply_event-IsBlock routes lease EventType.delete h e = retain-IsBlock _ routes h

  apply_events-IsBlock :
      (routes : List (RouteEntry c)) (es : List (LeaseWatchEvent c))
      → All (IsBlock c) routes
      → IsInput (leases es)
      → All (IsBlock c) (apply_events c routes es)
  unfolding apply_events
  apply_events-IsBlock routes [] h f = h
  apply_events-IsBlock routes (e ∷ es) h f =
      apply_events-IsBlock (apply_event c routes e) es
        (apply_event-IsBlock routes e.lease e.event_type h f.0) f.1

  resume-IsCalm :
      (st : Status c) (rest : State c → Status c)
      → IsCalm st
      → ((s : State c) → All (IsBlock c) s.routes → IsCalm (rest s))
      → IsCalm (resume c st rest)
  resume-IsCalm (running s) rest h k = k s h
  resume-IsCalm (ended s r) rest h k = h

module _ (c : Crates) (laws : NetworkLaws c) where
  step-IsCalm :
      (s : State c) (i : Input c) → All (IsBlock c) s.routes → IsInput c i → IsCalm c (step c s i)
  unfolding step new
  step-IsCalm s (received bytes written) h f = ground arith
  step-IsCalm s (read []) h f = tt
  step-IsCalm s (read (b ∷ bytes)) h f =
      ground (arith, send_udp_packet_lem c laws (b ∷ bytes) s.routes f h)
  step-IsCalm s (leases es) h f = apply_events-IsBlock c s.routes es h f

  -- Over any inputs made of bytes and of leases on blocks named by their first address, from
  -- routes to such blocks, the loop goes on with such routes or ends without a panic.
  pub run-IsCalm :
      (s : State c) (is : List (Input c))
      → All (IsBlock c) s.routes
      → All (IsInput c) is
      → IsCalm c (run c s is)
  unfolding run
  run-IsCalm s [] h f = h
  run-IsCalm s (i ∷ is) h f =
      resume-IsCalm c (step c s i) (λ s'. run c s' is) (step-IsCalm s i h f.0)
        (λ s' h'. run-IsCalm s' is h' f.1)
