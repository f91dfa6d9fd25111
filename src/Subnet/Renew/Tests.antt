-- ===== src/Subnet/Renew/Tests.antt =====
-- The renewal of a lease in the concrete etcd.
use flannel_ng.Base.{ℕ, ◌≡◌, refl, List, [], ◌∷◌}
use flannel_ng.Base.Io.{caught}
use flannel_ng.Base.Outcome.{ok, err, Error}
use flannel_ng.Crates.Reference.{reference}
use flannel_ng.Samples.{third, sample_lease}
use flannel_ng.Lease.{LeaseWatchEvent, put}
use flannel_ng.Etcd.Reference.{Store, store_client}
use flannel_ng.Subnet.Renew.{Renewal, Wake, slept, received, renew_lease_if_needed}
use flannel_ng.Subnet.Renew.Schedule.{IsRenewing, renew_lease_if_needed-IsRenewing}
use flannel_ng.Subnet.Renew.Ends.{IsEnding, renew_lease_if_needed-err}

abbrev store_at : ℕ → Store
store_at clock = record {
  clock = clock;
  entries = ("/net/subnets/172.17.3.0-24", (sample_lease third 7).attrs, 0) ∷ [];
  granted = 0 ∷ [];
  next_id = 1;
}

abbrev seen : LeaseWatchEvent reference
seen = record { lease = sample_lease third 7; event_type = put }

-- The watch announces the lease, and then the time to renew it has come.
abbrev wakes : List (Wake reference)
wakes = received (seen ∷ []) ∷ slept ∷ []

renewed :
    (s : Renewal reference) × (w' : Store) × (renew_lease_if_needed reference store_client "/net" 60
        (sample_lease third 7)
        wakes
        (store_at 1000)
      ≡ (ok s, w'))
unfolding renew_lease_if_needed caught
renewed = (_, _, refl)

renew_lease_if_needed-IsRenewing_example :
    (renewed.0.lease.subnet ≡ third)
    × IsRenewing reference store_client "/net" 60
        (sample_lease third 7)
        (store_at 1000)
        wakes
        renewed.0
        (renewed.1)
renew_lease_if_needed-IsRenewing_example =
    renew_lease_if_needed-IsRenewing reference store_client "/net" 60 third (sample_lease third 7)
      wakes (store_at 1000) refl ((refl, tt), (tt, tt)) (renewed.2)

-- The clock is past the lease.
late :
    (e : Error) × (w' : Store) × (renew_lease_if_needed reference store_client "/net" 60
        (sample_lease third 7)
        wakes
        (store_at 90000)
      ≡ (err e, w'))
unfolding renew_lease_if_needed
late = (_, _, refl)

renew_lease_if_needed-err_example :
    IsEnding reference store_client "/net" 60
      (sample_lease third 7)
      (store_at 90000)
      wakes
      late.0
      (late.1)
renew_lease_if_needed-err_example =
    renew_lease_if_needed-err reference store_client "/net" 60 (sample_lease third 7) wakes
      (store_at 90000) (late.2)
