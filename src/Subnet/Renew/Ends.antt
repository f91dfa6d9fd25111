-- ===== src/Subnet/Renew/Ends.antt =====
-- The errors that end the loop of `renew_lease_if_needed` of src/subnet/subnet.rs.
use flannel_ng.Base.{
  ℕ, ◌<◌, ◌≡◌, refl, ap, subst, ◌∙◌, ◌⊎◌, inl, inr, Option, List, [], ◌∷◌, String, arith,
}
use flannel_ng.Base.Outcome.{Outcome, ok, err, panic, out_of_fuel, Error, expired, lease_deleted}
use flannel_ng.Base.Io.{Io, pure, lift, observe, caught, catch, ◌>>=◌, >>=-eq-err, observe-ok}
use flannel_ng.Crates.{Crates}
use flannel_ng.Lease.{Lease, LeaseWatchEvent, EventType}
use flannel_ng.Etcd.{Client}
use flannel_ng.Subnet.Renew.{
  time_left, Renewal, Wake, slept, received, renew_margin, renew_lease, schedule, after_renewal,
  on_sleep, on_event, on_events, step, run, renew_lease_if_needed, retry_delay,
}
use flannel_ng.Subnet.Renew.Current.{InBatch, Received, IsCurrent, given, told, renewed, caught-ok}
use flannel_ng.Subnet.Renew.Schedule.{
  scheduled_for, IsRenewing, schedule-IsRenewing, on_sleep-IsRenewing, on_events-IsRenewing,
}

time_left-err :
    (margin expiration now : ℕ) {e : Error}
    → time_left margin expiration now ≡ err e
    → (e ≡ expired) × (expiration < now)
unfolding time_left
time_left-err margin expiration now h = ground arith

module _ (c : Crates) (client : Client c) (prefix : String) (margin : ℕ) (first : Lease c)
    (start : client.World) (all : List (Wake c)) where
  open client use {World}

  abbrev Held : Lease c → World → Type 0
  Held = IsCurrent c client prefix margin first start all

  -- The loop holds a lease whose time is past, by a reading of the clock that is the last action; or
  -- the watch has a delete event.
  abbrev pub IsEnding : Error → World → Type 0
  IsEnding e w =
      ((e ≡ expired)
        × ((l : Lease c) × (since : World) × (now : ℕ) × Held l since
            × (client.now since ≡ (now, w))
            × (l.expiration < now)))
      ⊎ ((e ≡ lease_deleted) × ((l : Lease c) × Received c EventType.delete l all))

  observe-not_err : (w : World) {e : Error} {w' : World} → ¬ (observe client.now w ≡ (err e, w'))
  unfolding observe
  observe-not_err w h = cc (ap (λ p. p.0) h)

  pure-not_err : (s : Renewal c) (w : World) {e : Error} {w' : World} → ¬ (pure s w ≡ (err e, w'))
  unfolding pure
  pure-not_err s w h = cc (ap (λ p. p.0) h)

  lift-err :
      {r : Outcome ℕ} (w : World) {e : Error} {w' : World}
      → lift r w ≡ (err e, w')
      → (r ≡ err e) × (w ≡ w')
  unfolding lift
  lift-err w h = (ap (λ p. p.0) h, ap (λ p. p.1) h)

  schedule-err :
      (lease : Lease c) (w : World) {e : Error} {w' : World}
      → Held lease w
      → schedule c client prefix margin lease w ≡ (err e, w')
      → IsEnding e w'
  unfolding schedule
  schedule-err lease w held h =
      let rm = renew_margin c client prefix margin in
      elim (>>=-eq-err (observe client.now)
        (λ now. lift (time_left rm lease.expiration now) >>= λ dur. pure (scheduled_for lease dur))
        w h) [
          | inl now ↦ absurd (observe-not_err w now)
          | inr (now, w1, read, later) ↦
              elim (>>=-eq-err (lift (time_left rm lease.expiration now))
                (λ dur. pure (scheduled_for lease dur)) w1 later) [
                  | inl left ↦
                      let (clock, at) = observe-ok client.now w read in
                      let (refused, same) = lift-err w1 left in
                      let (past, lt) = time_left-err rm lease.expiration now refused in
                      inl (past, (lease, w, now, held, cc (clock, at ∙ same), lt))
                  | inr (dur, w2, left, done) ↦
                      absurd (pure-not_err (scheduled_for lease dur) w2 done)
                ]
        ]

  caught-not_err :
      (m : Io World (Lease c)) (w : World) {e : Error} {w' : World} → ¬ (caught m w ≡ (err e, w'))
  unfolding caught
  caught-not_err m w h = by_outcome (m w).0 (ap (λ p. p.0) h)
    where
      by_outcome : (r : Outcome (Lease c)) {e : Error} → ¬ (catch r ≡ err e)
      by_outcome (ok l) h = cc
      by_outcome (err e) h = cc
      by_outcome panic h = cc
      by_outcome out_of_fuel h = cc

  -- The loop holds its lease.
  abbrev HasLease : Renewal c → Type 0
  HasLease s = (since : World) × Held s.lease since

  on_sleep-err :
      (s : Renewal c) (w : World) {e : Error} {w' : World}
      → HasLease s
      → on_sleep c client prefix margin s w ≡ (err e, w')
      → IsEnding e w'
  unfolding on_sleep after_renewal
  on_sleep-err s w {e} {w'} (since, held) h =
      let m = renew_lease c client prefix margin s.lease in
      elim (>>=-eq-err (caught m) (after_renewal c client prefix margin s) w h) [
        | inl now ↦ absurd (caught-not_err m w now)
        | inr (o, w1, tried, later) ↦
            let after : Option (Lease c) → Type 0 =
              λ o. after_renewal c client prefix margin s o w1 ≡ (err e, w') in
            elim (caught-ok m w tried) [
              | inl (failed, why) ↦
                  absurd
                    (pure-not_err (record s { dur = retry_delay }) w1 (subst after failed later))
              | inr (l, got, done) ↦
                  schedule-err l w1 (renewed s.lease l since w w1 held done) (subst after got later)
            ]
      ]

  on_event-err :
      (kind : EventType) (lease : Lease c) (s : Renewal c) (w : World) {e : Error} {w' : World}
      → Received c kind lease all
      → on_event c client prefix margin kind lease s w ≡ (err e, w')
      → IsEnding e w'
  unfolding on_event lift
  on_event-err EventType.put lease s w seen h = schedule-err lease w (told lease w seen) h
  on_event-err EventType.delete lease s w seen h = inr (cc (ap (λ p. p.0) h), (lease, seen))

  on_events-err :
      (events : List (LeaseWatchEvent c)) (s : Renewal c) (w : World) {e : Error} {w' : World}
      → ((kind : EventType) (l : Lease c) → InBatch c kind l events → Received c kind l all)
      → on_events c client prefix margin events s w ≡ (err e, w')
      → IsEnding e w'
  unfolding on_events pure
  on_events-err [] s w into h = absurd (cc (ap (λ p. p.0) h))
  on_events-err (e ∷ events) s w into h =
      elim (>>=-eq-err (on_event c client prefix margin e.event_type e.lease s)
        (on_events c client prefix margin events) w h) [
          | inl now ↦
              on_event-err e.event_type e.lease s w (into e.event_type e.lease (inl (refl, refl)))
                now
          | inr (s1, w1, handled, later) ↦
              on_events-err events s1 w1 (λ kind l seen. into kind l (inr seen)) later
        ]

  run-err :
      (wakes : List (Wake c)) (s : Renewal c) (w : World) {e : Error} {w' : World}
      → IsRenewing c client prefix margin first start all s w
      → ((kind : EventType) (l : Lease c) → Received c kind l wakes → Received c kind l all)
      → run c client prefix margin wakes s w ≡ (err e, w')
      → IsEnding e w'
  unfolding run pure step
  run-err [] s w good into h = absurd (cc (ap (λ p. p.0) h))
  run-err (slept ∷ wakes) s w good into h =
      elim (>>=-eq-err (on_sleep c client prefix margin s) (run c client prefix margin wakes) w h) [
        | inl now ↦ on_sleep-err s w (good.since, good.current) now
        | inr (s1, w1, stepped, later) ↦
            run-err wakes s1 w1
              (on_sleep-IsRenewing c client prefix margin first start all s w good stepped) into
              later
      ]
  run-err (received events ∷ wakes) s w good into h =
      elim (>>=-eq-err (on_events c client prefix margin events s)
        (run c client prefix margin wakes) w h) [
          | inl now ↦ on_events-err events s w (λ kind l seen. into kind l (inl seen)) now
          | inr (s1, w1, stepped, later) ↦
              run-err wakes s1 w1
                (on_events-IsRenewing c client prefix margin first start all events s w good
                  (λ kind l seen. into kind l (inl seen)) stepped)
                (λ kind l seen. into kind l (inr seen)) later
        ]

module _ (c : Crates) (client : Client c) (prefix : String) (margin : ℕ) where
  -- When the loop ends with an error, either the error is that a time is past, and the time at which
  -- a lease expires is past, by a reading of the clock that leaves the world as the run has left it.
  -- This lease is the one that the loop has started from, one that a put event of the watch carries,
  -- or what a renewal of such a lease has returned. Or the error is that the lease is deleted, and
  -- the watch has a delete event. An error of etcd in a renewal does not end the loop.
  pub renew_lease_if_needed-err :
      (lease : Lease c) (wakes : List (Wake c)) (w : client.World) {e : Error} {w' : client.World}
      → renew_lease_if_needed c client prefix margin lease wakes w ≡ (err e, w')
      → IsEnding c client prefix margin lease w wakes e w'
  unfolding renew_lease_if_needed
  renew_lease_if_needed-err lease wakes w h =
      elim (>>=-eq-err (schedule c client prefix margin lease) (run c client prefix margin wakes) w
        h) [
          | inl now ↦ schedule-err c client prefix margin lease w wakes lease w given now
          | inr (s, w1, started, later) ↦
              run-err c client prefix margin lease w wakes wakes s w1
                (schedule-IsRenewing c client prefix margin lease w wakes lease w given started)
                (λ kind l seen. seen) later
        ]
