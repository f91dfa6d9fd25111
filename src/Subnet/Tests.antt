-- ===== src/Subnet/Tests.antt =====
-- Runs of the subnet code, and its theorems at concrete inputs.
use native.Mathlib.Decide.{dec_lt, dec_le}
use flannel_ng.Base.{ℕ, ◌≡◌, refl, ◌⊎◌, Option, none, List, [], ◌∷◌, arith}
use flannel_ng.Base.Outcome.{ok, err, no_available_subnets}
use flannel_ng.Base.Word.{size}
use flannel_ng.Crates.Reference.{Block, reference, reference_laws, make, same}
use flannel_ng.Samples.{sample_network, third, fifth, sample_lease, bare_config, full_config}
use flannel_ng.Lease.{Lease, LeaseWatchEvent, LeaseWatchResult}
use flannel_ng.Subnet.Network.{next_network}
use flannel_ng.Subnet.Config.Check.{
  choose_len, choose_min, choose_max, check_alignment, check_ipv4, check_network_config,
}
use flannel_ng.Subnet.Config.Check.Sound.{IsPlan, check_network_config-IsPlan}
use flannel_ng.Subnet.Config.Check.Defaults.{IsBare, check_network_config-bare, default_plan}
use flannel_ng.Subnet.Allocate.{allocate_subnet}
use flannel_ng.Subnet.Allocate.Free.{IsCandidate}
use flannel_ng.Subnet.Allocate.Sound.{IsPick, IsRange, allocate_subnet_lem}
use flannel_ng.Subnet.Watcher.{LeaseWatcher, reset, update, watch_leases, delete_event}
use flannel_ng.Subnet.Watcher.Table.{has, lookup, IsDistinct}
use flannel_ng.Subnet.Watcher.Consumer.{Agrees, Covers, receive_all}
use flannel_ng.Subnet.Watcher.Updates.{update-Agrees}
use flannel_ng.Subnet.Watcher.Snapshots.{reset-Covers}
use flannel_ng.Subnet.Watcher.Stream.{receive_batches, watch_leases-Covers}

-- The check completes the bare configuration.
checked_run : check_network_config reference bare_config ≡ ok full_config
unfolding check_network_config check_ipv4 choose_len choose_min choose_max check_alignment
    next_network make dec_lt dec_le
checked_run = refl

check_network_config-IsPlan_example : IsPlan reference sample_network bare_config full_config
check_network_config-IsPlan_example =
    check_network_config-IsPlan reference reference_laws bare_config sample_network refl refl
      (omega arith) checked_run

bare : IsBare reference sample_network bare_config
unfolding size
bare = record {
  ipv4_on = refl;
  ipv6_off = refl;
  given = refl;
  no_len = refl;
  no_min = refl;
  no_max = refl;
  long = omega arith;
  short = omega arith;
  first = refl;
}

check_network_config-bare_example :
    check_network_config reference bare_config
    ≡ ok (default_plan reference sample_network bare_config)
check_network_config-bare_example =
    check_network_config-bare reference reference_laws bare_config sample_network bare

abbrev first_pick : ℕ → ℕ
first_pick n = 0

first_pick-IsPick : IsPick first_pick
first_pick-IsPick n h = h

abbrev held : List (Lease reference)
held = sample_lease third 0xC6130001 ∷ sample_lease fifth 0xC6130002 ∷ []

full-IsRange : IsRange reference full_config 0xAC110100 0xAC11FF00
unfolding size
full-IsRange = record {
  min_given = refl;
  max_given = refl;
  min_aligned = refl;
  min_bound = omega arith;
  room = omega arith;
  long = omega arith;
  short = omega arith;
}

allocate_subnet_lem_example :
    ((sn : Block) × (allocate_subnet reference first_pick full_config held ≡ ok sn)
      × (sn.0.1 ≡ 24)
      × IsCandidate reference 24 0xAC110100 0xAC11FF00 held sn.0.0)
    ⊎ ((allocate_subnet reference first_pick full_config held ≡ err no_available_subnets)
        × ((a : ℕ) → ¬ IsCandidate reference 24 0xAC110100 0xAC11FF00 held a))
allocate_subnet_lem_example =
    allocate_subnet_lem reference reference_laws first_pick first_pick-IsPick full_config held
      0xAC110100 0xAC11FF00 full-IsRange

-- A node that holds 172.17.3.0/24 hears of another node's lease.
abbrev own : Lease reference
own = sample_lease third 0xC6130001

abbrev watcher : LeaseWatcher reference
watcher = record { own_lease = own; leases = sample_lease fifth 0xC6130002 ∷ [] }

abbrev change : List (LeaseWatchEvent reference)
change = delete_event reference (sample_lease fifth 0xC6130002) ∷ []

abbrev table : Block → Option (Lease reference)
table t = lookup reference t watcher.leases

update-Agrees_example :
    Agrees reference
      (receive_all reference table (update reference watcher change).1)
      (update reference watcher change).0
    × IsDistinct reference (update reference watcher change).0.leases
unfolding has
update-Agrees_example =
    update-Agrees reference reference_laws table watcher change (refl, tt) (λ t other. refl)

abbrev empty_watcher : LeaseWatcher reference
empty_watcher = record { own_lease = own; leases = [] }

abbrev empty_table : Block → Option (Lease reference)
empty_table t = none

distinct : IsDistinct reference held
unfolding has same
distinct = (refl, (refl, tt))

reset-Covers_example :
    Covers reference
      (receive_all reference empty_table (reset reference empty_watcher held).1)
      (reset reference empty_watcher held).0
    × ((reset reference empty_watcher held).0.leases ≡ held)
unfolding has
reset-Covers_example =
    reset-Covers reference reference_laws empty_table empty_watcher held tt distinct
      (λ t other. refl)

abbrev stream : List (LeaseWatchResult reference)
stream =
    record { snapshot = held; events = []; cursor = 7 }
    ∷ record { snapshot = []; events = change; cursor = 8 }
    ∷ []

watch_leases-Covers_example :
    Covers reference
      (receive_batches reference empty_table (watch_leases reference empty_watcher stream).1)
      (watch_leases reference empty_watcher stream).0
unfolding has
watch_leases-Covers_example =
    watch_leases-Covers reference reference_laws empty_table empty_watcher stream tt
      (distinct, (tt, tt)) (λ t other. refl)
