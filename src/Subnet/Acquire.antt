-- ===== src/Subnet/Acquire.antt =====
-- How `SubnetManager` of src/subnet/subnet.rs acquires a lease. The parameters are the prefix of the
-- registry, `serde_json::from_str` at `Config`, and the index that `gen_range` draws.
pub mod Sound
pub mod Within
pub mod Held
mod Tests
use flannel_ng.Base.{
  ℕ, zero, suc, ◌*◌, String, Bool, true, false, ◌&&◌, Option, none, some, List, find, leb,
  if◌then◌else◌, ◌==◌,
}
use flannel_ng.Base.Outcome.{Outcome, ok, err, panic, out_of_fuel, ok_or, external, max_retries}
use flannel_ng.Base.Outcome
use flannel_ng.Base.Io.{Io, pure, lift, ◌>>=◌}
use flannel_ng.Crates.{Crates}
use flannel_ng.Lease.{Lease, LeaseAttrs}
use flannel_ng.Etcd.{Client}
use flannel_ng.Etcd.Create.{create_subnet, update_subnet}
use flannel_ng.Etcd.Registry.{get_subnets, new_lease}
use flannel_ng.Etcd.Registry
use flannel_ng.Subnet.Allocate.{allocate_subnet}
use flannel_ng.Subnet.Config.{Config}
use flannel_ng.Subnet.Config.Check.{check_network_config}

abbrev pub race_retries : ℕ
race_retries = 10

-- In seconds.
abbrev pub subnet_ttl : ℕ
subnet_ttl = 24 * 60 * 60

module _ (c : Crates) where
  -- `unwrap_or("udp")`
  abbrev pub or_udp : Option String → String
  or_udp none = "udp"
  or_udp (some kind) = kind

  abbrev pub and_then : {A B : Type 0} → Option A → (A → Option B) → Option B
  and_then none f = none
  and_then (some a) f = f a

  unfoldable pub parse_backend_type : Option (c.Value) → String
  parse_backend_type none = "udp"
  parse_backend_type (some be) =
      or_udp (and_then (and_then (c.as_object be) (λ it. c.get it "Type")) c.as_str)

  -- The rest of the test, once the lease is not below the range.
  abbrev pub fits_above : Config c → Lease c → Option ℕ → Outcome Bool
  fits_above config lease none = panic
  fits_above config lease (some subnet_max) =
      ok (leb (c.ip lease.subnet) subnet_max && (c.prefix lease.subnet == config.subnet_len))

  -- Whether a lease lies in the range of subnets, with the configured length. A bound that is
  -- missing panics when it is read.
  unfoldable pub fits : Config c → Lease c → Option ℕ → Outcome Bool
  fits config lease none = panic
  fits config lease (some subnet_min) =
      if leb subnet_min (c.ip lease.subnet)
      then fits_above config lease config.subnet_max
      else ok false

  unfoldable pub own_lease : ℕ → List (Lease c) → Option (Lease c)
  own_lease ext_addr leases = find (λ (it : Lease c). it.attrs.public_ip == ext_addr) leases

  abbrev pub kept : Lease c → Outcome Bool → Outcome (Option (Lease c))
  kept lease (ok true) = ok (some lease)
  kept lease (ok false) = ok none
  kept lease (err e) = err e
  kept lease panic = panic
  kept lease out_of_fuel = out_of_fuel

  -- Whether the node's own lease, if there is one, can be used again.
  unfoldable pub reusable : Config c → Option (Lease c) → Outcome (Option (Lease c))
  unfolding fits
  reusable config none = ok none
  reusable config (some lease) = kept lease (fits config lease config.subnet_min)

-- The fields that `try_acquire_lease` gives a new lease.
abbrev pub fresh_lease : (c : Crates) → Lease c → c.Ipv4Network → LeaseAttrs c → ℕ → Lease c
fresh_lease c base sn attrs exp = record base {
  enable_ipv4 = true;
  subnet = sn;
  enable_ipv6 = false;
  ipv6_subnet = none;
  attrs = attrs;
  expiration = exp;
}

module _ (c : Crates) (client : Client c) (prefix : String) (from_str : String → Option (Config c))
    (pick : ℕ → ℕ) where
  open client use {World}

  unfoldable pub get_network_config : Io World (Config c)
  unfolding ◌>>=◌ Registry.get_network_config parse_backend_type
  get_network_config = do
    text ← Registry.get_network_config c client prefix
    cfg ← lift (ok_or (from_str text) external)
    lift (
        check_network_config c (record cfg {
          enable_ipv4 = true;
          backend_type = some (parse_backend_type c cfg.backend);
        }))

  unfoldable pub take :
      Config c → LeaseAttrs c → List (Lease c) → Option (Lease c) → Io World (Lease c)
  unfolding ◌>>=◌ create_subnet update_subnet new_lease
  take config attrs leases (some lease) = do
    exp ← update_subnet c client prefix lease.subnet attrs subnet_ttl
    pure lease
  take config attrs leases none = do
    sn ← lift (allocate_subnet c pick config leases)
    exp ← create_subnet c client prefix sn attrs subnet_ttl
    base ← new_lease c client
    pure (fresh_lease c base sn attrs exp)

  unfoldable pub try_acquire_lease : Config c → LeaseAttrs c → ℕ → Io World (Lease c)
  unfolding ◌>>=◌ get_subnets own_lease reusable take
  try_acquire_lease config attrs ext_addr = do
    (leases, index) ← get_subnets c client prefix
    own ← lift (reusable c config (own_lease c ext_addr leases))
    take config attrs leases own

  -- The `for` loop returns in its first round.
  unfoldable pub retry : ℕ → Config c → LeaseAttrs c → Io World (Lease c)
  unfolding ◌>>=◌ try_acquire_lease
  retry zero config attrs = lift (err max_retries)
  retry (suc n) config attrs = do l ← try_acquire_lease config attrs attrs.public_ip; pure l

  unfoldable pub acquire_lease : LeaseAttrs c → Io World (Lease c)
  unfolding ◌>>=◌ get_network_config retry
  acquire_lease attrs = do config ← get_network_config; retry race_retries config attrs
