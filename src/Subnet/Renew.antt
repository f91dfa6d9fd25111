-- ===== src/Subnet/Renew.antt =====
-- The renewal of the node's lease by `SubnetManager` of src/subnet/subnet.rs. The loop of
-- `renew_lease_if_needed` is a run over what `select!` takes: the end of the sleep, or a batch of
-- events of the watch of the lease. Its world is that of etcd and the clock.
pub mod Current
pub mod Schedule
pub mod Ends
mod Tests
use flannel_ng.Base.{
  ℕ, ◌-◌, ◌*◌, String, Bool, true, false, Option, none, some, List, [], ◌∷◌, ltb, if◌then◌else◌,
}
use flannel_ng.Base.Outcome.{
  Outcome, ok, err, panic, out_of_fuel, ok_or, expired, lease_deleted, subnet_not_found,
}
use flannel_ng.Base.Io.{Io, pure, lift, observe, caught, ◌>>=◌, ◌>>◌}
use flannel_ng.Crates.{Crates}
use flannel_ng.Lease.{Lease, LeaseWatchEvent, EventType, put}
use flannel_ng.Etcd.{Client, WatchResponse}
use flannel_ng.Etcd.Create.{update_subnet}
use flannel_ng.Etcd.Registry.{get_subnet}
use flannel_ng.Etcd.Events.{Sent, watch_subnet}
use flannel_ng.Subnet.Acquire.{subnet_ttl}

-- After a renewal that has failed.
abbrev pub retry_delay : ℕ
retry_delay = 3

-- `expiration.duration_since(now)? - renew_margin`: an error if the time is past, and a panic if
-- less than the margin is left.
unfoldable pub time_left : ℕ → ℕ → ℕ → Outcome ℕ
time_left renew_margin expiration now =
    if ltb expiration now
    then err expired
    else if ltb (expiration - now) renew_margin
    then panic
    else ok (expiration - now - renew_margin)

module _ (c : Crates) where
  -- The variables of the loop.
  pub record Renewal : Type 0 where
    pub lease : Lease c
    pub dur : ℕ

  pub data Wake : Type 0 where
    slept : Wake
    received : List (LeaseWatchEvent c) → Wake

module _ (c : Crates) (client : Client c) (prefix : String) (subnet_lease_renew_margin : ℕ) where
  open client use {World, Bytes}

  abbrev pub renew_margin : ℕ
  renew_margin = 60 * subnet_lease_renew_margin

  unfoldable pub renew_lease : Lease c → Io World (Lease c)
  unfolding ◌>>=◌ update_subnet
  renew_lease lease = do
    exp ← update_subnet c client prefix lease.subnet lease.attrs subnet_ttl
    pure (record lease { expiration = exp })

  -- The lease and the time until it is renewed.
  unfoldable pub schedule : Lease c → Io World (Renewal c)
  unfolding ◌>>=◌ time_left
  schedule lease = do
    now ← observe client.now
    dur ← lift (time_left renew_margin lease.expiration now)
    pure (record { lease = lease; dur = dur })

  unfoldable pub after_renewal : Renewal c → Option (Lease c) → Io World (Renewal c)
  unfolding schedule
  after_renewal s none = pure (record s { dur = retry_delay })
  after_renewal s (some lease) = schedule lease

  unfoldable pub on_sleep : Renewal c → Io World (Renewal c)
  unfolding ◌>>=◌ renew_lease after_renewal
  on_sleep s = do renewed ← caught (renew_lease s.lease); after_renewal s renewed

  unfoldable pub on_event : EventType → Lease c → Renewal c → Io World (Renewal c)
  unfolding schedule
  on_event EventType.put lease s = schedule lease
  on_event EventType.delete lease s = lift (err lease_deleted)

  unfoldable pub on_events : List (LeaseWatchEvent c) → Renewal c → Io World (Renewal c)
  unfolding ◌>>=◌ on_event
  on_events [] s = pure s
  on_events (e ∷ events) s = do s' ← on_event e.event_type e.lease s; on_events events s'

  unfoldable pub step : Wake c → Renewal c → Io World (Renewal c)
  unfolding on_sleep on_events
  step slept s = on_sleep s
  step (received events) s = on_events events s

  unfoldable pub run : List (Wake c) → Renewal c → Io World (Renewal c)
  unfolding ◌>>=◌ step
  run [] s = pure s
  run (wake ∷ wakes) s = do s' ← step wake s; run wakes s'

  unfoldable pub renew_lease_if_needed : Lease c → List (Wake c) → Io World (Renewal c)
  unfolding ◌>>=◌ schedule run
  renew_lease_if_needed lease wakes = do s ← schedule lease; run wakes s

  -- The first batch of the watch is the lease as it is, and those of the registry follow.
  abbrev pub announce :
      Outcome (Option (Lease c × ℕ))
      → (ℕ → World → Sent (LeaseWatchEvent c) × World)
      → World
      → Sent (LeaseWatchEvent c) × World
  announce (ok none) later w = (([], err subnet_not_found), w)
  announce (ok (some (l, idx))) later w =
      let ((batches, end), w') = later idx w in
      ((((record { lease = l; event_type = put }) ∷ []) ∷ batches, end), w')
  announce (err e) later w = (([], err e), w)
  announce panic later w = (([], panic), w)
  announce out_of_fuel later w = (([], out_of_fuel), w)

  -- The responses of the watch, from a revision on, are a parameter.
  unfoldable pub watch_lease :
      c.Ipv4Network
      → (ℕ → List (Option (WatchResponse Bytes)))
      → World
      → Sent (LeaseWatchEvent c) × World
  unfolding get_subnet watch_subnet
  watch_lease sn responses w =
      let (found, w') = get_subnet c client prefix sn w in
      announce found (λ idx. watch_subnet c client (responses idx)) w'
