-- ===== src/Subnet/Acquire/Tests.antt =====
-- A node acquires a lease from the concrete etcd, where another node holds 172.17.3.0/24.
use native.Mathlib.Decide.{dec_lt}
use flannel_ng.Base.{
  String, Option, ap, sym, ℕ, ◌-◌, ◌≡◌, refl, ◌∙◌, ◌⊎◌, none, some, if◌then◌else◌, str_eq, List, [],
  ◌∷◌, arith,
}
use flannel_ng.Base.Outcome.{ok, ok_inj, some_inj}
use flannel_ng.Base.Word.{size}
use flannel_ng.Crates.Reference.{reference, reference_laws, make, meet, base}
use flannel_ng.Samples.{sample_network, bare_config, third, fifth, full_config, sample_lease}
use flannel_ng.Lease.{Lease}
use flannel_ng.Etcd.Regex.{captures}
use flannel_ng.Etcd.Reference.{Store, store_client, commit, parse}
use flannel_ng.Etcd.Key.{extract_ip_and_subnet}
use flannel_ng.Etcd.Registry.{get_subnets}
use flannel_ng.Etcd.Registry
use flannel_ng.Subnet.Config.{Config}
use flannel_ng.Subnet.Config.Check.{
  check_network_config, check_ipv4, choose_len, choose_min, choose_max, check_alignment,
}
use flannel_ng.Subnet.Network.{next_network}
use flannel_ng.Subnet.Allocate.{allocate_subnet, collect, overlaps_any}
use flannel_ng.Subnet.Allocate.Sound.{IsRange, IsPick}
use flannel_ng.Subnet.Acquire.{try_acquire_lease, acquire_lease}
use flannel_ng.Subnet.Acquire.Within.{IsForNetwork, IsNetwork, IsWithin, acquire_lease-IsWithin}
use flannel_ng.Subnet.Acquire.Sound.{IsReused, IsFresh, try_acquire_lease_lem}

abbrev last_pick : ℕ → ℕ
last_pick n = n - 1

-- From 172.17.3.0 to 172.17.5.0.
abbrev short_config : Config reference
short_config = record full_config { subnet_min = some 0xAC110300; subnet_max = some 0xAC110500 }

last_pick-IsPick : IsPick last_pick
last_pick-IsPick n h = omega arith

short-IsRange : IsRange reference short_config 0xAC110300 0xAC110500
unfolding size
short-IsRange = record {
  min_given = refl;
  max_given = refl;
  min_aligned = refl;
  min_bound = omega arith;
  room = omega arith;
  long = omega arith;
  short = omega arith;
}

abbrev busy : Store
busy = record {
  clock = 1000;
  entries = ("/net/subnets/172.17.3.0-24", (sample_lease third 7).attrs, 0) ∷ [];
  granted = 0 ∷ [];
  next_id = 1;
}

acquired :
    (lease : Lease reference) × (w' : Store) × (try_acquire_lease reference store_client "/net"
        (λ s. some full_config)
        last_pick
        short_config
        ((sample_lease fifth 8).attrs)
        8
        busy
      ≡ (ok lease, w'))
unfolding try_acquire_lease commit get_subnets extract_ip_and_subnet captures parse allocate_subnet
    collect next_network overlaps_any make meet base dec_lt
acquired = (_, _, refl)

try_acquire_lease_lem_example :
    (leases : List (Lease reference)) × (index : ℕ) × (v : Store) × (get_subnets reference
        store_client "/net" busy
      ≡ (ok (leases, index), v))
    × (IsReused reference short_config leases 0xAC110300 0xAC110500 short-IsRange 8 acquired.0
        ⊎ IsFresh reference short_config leases 0xAC110300 0xAC110500 short-IsRange
            ((sample_lease fifth 8).attrs)
            acquired.0)
try_acquire_lease_lem_example =
    try_acquire_lease_lem reference reference_laws store_client "/net" (λ s. some full_config)
      last_pick last_pick-IsPick short_config ((sample_lease fifth 8).attrs) 8 0xAC110300 0xAC110500
      short-IsRange busy (acquired.2)

-- The registry holds the text "{}", and another one would be for another network.
abbrev stored : String → Option (Config reference)
stored s =
    if str_eq s "{}"
    then some bare_config
    else if str_eq s "other"
    then some (record bare_config { network = some third })
    else none

abbrev configured : Store
configured = record busy {
  entries = ("/net/config", (sample_lease third 7).attrs, 0) ∷ busy.entries;
}

acquired_within :
    (lease : Lease reference) × (w' : Store) × (acquire_lease reference store_client "/net" stored
        last_pick
        ((sample_lease fifth 8).attrs)
        configured
      ≡ (ok lease, w'))
unfolding acquire_lease commit get_subnets extract_ip_and_subnet captures parse check_network_config
    check_ipv4 choose_len choose_min choose_max check_alignment allocate_subnet collect next_network
    overlaps_any make meet base dec_lt
acquired_within = (_, _, refl)

sample_network-IsNetwork : IsNetwork reference reference_laws sample_network
unfolding size
sample_network-IsNetwork = record { short = omega arith; aligned = refl; room = omega arith }

stored-IsForNetwork :
    IsForNetwork reference reference_laws store_client "/net" stored last_pick last_pick-IsPick
      sample_network configured
unfolding Registry.get_network_config
stored-IsForNetwork text v cfg read parsed =
    let held : "{}" ≡ text = ok_inj (ap (λ p. p.0) read) in
    let e : bare_config ≡ cfg = some_inj (ap stored held ∙ parsed) in
    ap (λ (cfg : Config reference). cfg.network) (sym e)

acquire_lease-IsWithin_example : IsWithin reference reference_laws sample_network acquired_within.0
acquire_lease-IsWithin_example =
    acquire_lease-IsWithin reference reference_laws store_client "/net" stored last_pick
      last_pick-IsPick sample_network ((sample_lease fifth 8).attrs) configured
      sample_network-IsNetwork stored-IsForNetwork (acquired_within.2)
