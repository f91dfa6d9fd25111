-- ===== src/Subnet/Renew/Schedule.antt =====
-- What the loop of `renew_lease_if_needed` of src/subnet/subnet.rs keeps.
use flannel_ng.Base.{
  ℕ, ◌+◌, ◌≡◌, refl, subst, ap, ◌∙◌, ◌⊎◌, inl, inr, Option, List, [], ◌∷◌, arith, String, All,
}
use flannel_ng.Base.Outcome.{ok, err, Error}
use flannel_ng.Base.Io.{pure, lift, observe, caught, ◌>>=◌, >>=-eq-ok, lift-ok, observe-ok}
use flannel_ng.Crates.{Crates}
use flannel_ng.Lease.{Lease, LeaseWatchEvent, EventType}
use flannel_ng.Etcd.{Client}
use flannel_ng.Subnet.Renew.{
  retry_delay, time_left, Renewal, Wake, slept, received, renew_margin, renew_lease, schedule,
  after_renewal, on_sleep, on_event, on_events, step, run, renew_lease_if_needed,
}
use flannel_ng.Subnet.Renew.Current.{
  InBatch, Received, IsCurrent, OnSubnet, IsCurrent-subnet, given, told, renewed, pure-same,
  caught-ok,
}

time_left-ok :
    (margin expiration now : ℕ) {dur : ℕ}
    → time_left margin expiration now ≡ ok dur
    → now + margin + dur ≡ expiration
unfolding time_left
time_left-ok margin expiration now h = ground arith

abbrev pub scheduled_for : {c : Crates} → Lease c → ℕ → Renewal c
scheduled_for lease dur = record { lease = lease; dur = dur }

module _ (c : Crates) (client : Client c) (prefix : String) (margin : ℕ) (first : Lease c)
    (start : client.World) (all : List (Wake c)) where
  open client use {World}

  abbrev Held : Lease c → World → Type 0
  Held = IsCurrent c client prefix margin first start all

  -- The sleep ends the margin before the lease expires, by a reading of the clock that is the last
  -- action on the world; or a renewal of the lease has just failed, and the sleep is the delay of a
  -- retry.
  abbrev pub IsScheduled : Renewal c → World → World → Type 0
  IsScheduled s since w =
      ((now : ℕ) × (client.now since ≡ (now, w))
        × (now + renew_margin c client prefix margin + s.dur ≡ s.lease.expiration))
      ⊎ ((s.dur ≡ retry_delay)
          × ((v : World) × (e : Error) × (renew_lease c client prefix margin s.lease v
                ≡ (err e, w))))

  -- What holds of the loop's variables in a state of etcd and the clock.
  pub record IsRenewing (s : Renewal c) (w : World) : Type 0 where
    pub since : World
    pub current : Held s.lease since
    pub scheduled : IsScheduled s since w

  moved :
      (s s' : Renewal c) (w w' : World) → IsRenewing s w → (s ≡ s') × (w ≡ w') → IsRenewing s' w'
  moved s s' w w' good (es, ew) = subst (IsRenewing s') ew (subst (λ s. IsRenewing s w) es good)

  pub schedule-IsRenewing :
      (lease : Lease c) (w : World) {s : Renewal c} {w' : World}
      → Held lease w
      → schedule c client prefix margin lease w ≡ (ok s, w')
      → IsRenewing s w'
  unfolding schedule
  schedule-IsRenewing lease w {s} {w'} held h =
      let rm = renew_margin c client prefix margin in
      let (now, w1, read, h1) =
        >>=-eq-ok (observe client.now)
          (λ now.
            lift (time_left rm lease.expiration now) >>= λ dur. pure (scheduled_for lease dur))
          w h in
      let (dur, w2, left, h2) =
        >>=-eq-ok (lift (time_left rm lease.expiration now)) (λ dur. pure (scheduled_for lease dur))
          w1 h1 in
      let (clock, at) = observe-ok client.now w read in
      let (enough, same) = lift-ok (time_left rm lease.expiration now) w1 left in
      moved (scheduled_for lease dur) s w2 w'
        (record {
          since = w;
          current = held;
          scheduled = inl (now, cc (clock, at ∙ same), time_left-ok rm lease.expiration now enough);
        })
        (pure-same (scheduled_for lease dur) w2 h2)

  pub on_sleep-IsRenewing :
      (s : Renewal c) (w : World) {s' : Renewal c} {w' : World}
      → IsRenewing s w
      → on_sleep c client prefix margin s w ≡ (ok s', w')
      → IsRenewing s' w'
  unfolding on_sleep after_renewal
  on_sleep-IsRenewing s w {s'} {w'} good h =
      let m = renew_lease c client prefix margin s.lease in
      let (o, w1, tried, h1) = >>=-eq-ok (caught m) (after_renewal c client prefix margin s) w h in
      let after : Option (Lease c) → Type 0 =
        λ o. after_renewal c client prefix margin s o w1 ≡ (ok s', w') in
      elim (caught-ok m w tried) [
        | inl (none_left, (e, failed)) ↦
            moved (record s { dur = retry_delay }) s' w1 w'
              (record {
                since = good.since;
                current = good.current;
                scheduled = inr (refl, (w, e, failed));
              })
              (pure-same (record s { dur = retry_delay }) w1 (subst after none_left h1))
        | inr (l, given_back, done) ↦
            schedule-IsRenewing l w1 (renewed s.lease l good.since w w1 good.current done)
              (subst after given_back h1)
      ]

  on_event-IsRenewing :
      (kind : EventType) (lease : Lease c) (s : Renewal c) (w : World) {s' : Renewal c} {w' : World}
      → Received c kind lease all
      → on_event c client prefix margin kind lease s w ≡ (ok s', w')
      → IsRenewing s' w'
  unfolding on_event lift
  on_event-IsRenewing EventType.put lease s w seen h =
      schedule-IsRenewing lease w (told lease w seen) h
  on_event-IsRenewing EventType.delete lease s w seen h = absurd (cc (ap (λ p. p.0) h))

  pub on_events-IsRenewing :
      (events : List (LeaseWatchEvent c)) (s : Renewal c) (w : World) {s' : Renewal c} {w' : World}
      → IsRenewing s w
      → ((kind : EventType) (l : Lease c) → InBatch c kind l events → Received c kind l all)
      → on_events c client prefix margin events s w ≡ (ok s', w')
      → IsRenewing s' w'
  unfolding on_events
  on_events-IsRenewing [] s w {s'} {w'} good into h = moved s s' w w' good (pure-same s w h)
  on_events-IsRenewing (e ∷ events) s w good into h =
      let (s1, w1, handled, h1) =
        >>=-eq-ok (on_event c client prefix margin e.event_type e.lease s)
          (on_events c client prefix margin events) w h in
      on_events-IsRenewing events s1 w1
        (on_event-IsRenewing e.event_type e.lease s w (into e.event_type e.lease (inl (refl, refl)))
          handled)
        (λ kind l seen. into kind l (inr seen)) h1

  pub run-IsRenewing :
      (wakes : List (Wake c)) (s : Renewal c) (w : World) {s' : Renewal c} {w' : World}
      → IsRenewing s w
      → ((kind : EventType) (l : Lease c) → Received c kind l wakes → Received c kind l all)
      → run c client prefix margin wakes s w ≡ (ok s', w')
      → IsRenewing s' w'
  unfolding run step
  run-IsRenewing [] s w {s'} {w'} good into h = moved s s' w w' good (pure-same s w h)
  run-IsRenewing (slept ∷ wakes) s w good into h =
      let (s1, w1, stepped, h1) =
        >>=-eq-ok (on_sleep c client prefix margin s) (run c client prefix margin wakes) w h in
      run-IsRenewing wakes s1 w1 (on_sleep-IsRenewing s w good stepped) into h1
  run-IsRenewing (received events ∷ wakes) s w good into h =
      let (s1, w1, stepped, h1) =
        >>=-eq-ok (on_events c client prefix margin events s) (run c client prefix margin wakes) w
          h in
      run-IsRenewing wakes s1 w1
        (on_events-IsRenewing events s w good (λ kind l seen. into kind l (inl seen)) stepped)
        (λ kind l seen. into kind l (inr seen)) h1

module _ (c : Crates) (client : Client c) (prefix : String) (margin : ℕ) (sn : c.Ipv4Network) where
  open client use {World}

  -- Over any run of the loop from a lease on the subnet, with events of this subnet alone: the lease
  -- of the loop is on the subnet, and is the one that it has started from, one that a put event of
  -- the watch carries, or what a renewal of such a lease has returned. The next sleep ends the
  -- renewal margin before this lease expires, by a reading of the clock that leaves the world as the
  -- run has left it, and which for the first lease follows the start, and for a renewed one the
  -- renewal, at once; or a renewal of this lease that has failed leaves the world so, and the sleep
  -- is the delay of a retry.
  pub renew_lease_if_needed-IsRenewing :
      (lease : Lease c) (wakes : List (Wake c)) (w : World) {s : Renewal c} {w' : World}
      → lease.subnet ≡ sn
      → All (OnSubnet c sn) wakes
      → renew_lease_if_needed c client prefix margin lease wakes w ≡ (ok s, w')
      → (s.lease.subnet ≡ sn) × IsRenewing c client prefix margin lease w wakes s w'
  unfolding renew_lease_if_needed
  renew_lease_if_needed-IsRenewing lease wakes w {s} e on h =
      let (s1, w1, started, h1) =
        >>=-eq-ok (schedule c client prefix margin lease) (run c client prefix margin wakes) w h in
      let good =
        run-IsRenewing c client prefix margin lease w wakes wakes s1 w1
          (schedule-IsRenewing c client prefix margin lease w wakes lease w given started)
          (λ kind l seen. seen) h1 in
      (
        IsCurrent-subnet c client prefix margin sn lease w wakes s.lease good.since e on
            good.current,
        good,
      )
