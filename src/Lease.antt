-- ===== src/Lease.antt =====
-- src/lease/lease.rs and the event types of src/etcd/registry.rs. A `SystemTime` is a number of
-- seconds since the epoch.
use flannel_ng.Base.{ℕ, String, Bool, false, Option, none, List}
use flannel_ng.Crates.{Crates}

-- `EventType` of the `etcd_client` crate
pub data EventType : Type 0 where
  put delete : EventType

pub record LeaseAttrs (c : Crates) : Type 0 where
  pub public_ip : ℕ
  pub public_ipv6 : Option (c.Ipv6Network)
  pub backend_type : Option String
  pub backend_data : Option (c.Value)

pub record Lease (c : Crates) : Type 0 where
  pub enable_ipv4 : Bool
  pub subnet : c.Ipv4Network
  pub enable_ipv6 : Bool
  pub ipv6_subnet : Option (c.Ipv6Network)
  pub attrs : LeaseAttrs c
  pub expiration : ℕ

pub record LeaseWatchEvent (c : Crates) : Type 0 where
  pub lease : Lease c
  pub event_type : EventType

pub record LeaseWatchResult (c : Crates) : Type 0 where
  pub snapshot : List (Lease c)
  pub events : List (LeaseWatchEvent c)
  pub cursor : ℕ

module _ (c : Crates) where
  -- `LeaseAttrs::default`
  abbrev pub default_attrs : LeaseAttrs c
  default_attrs = record {
    public_ip = 0;
    public_ipv6 = none;
    backend_type = none;
    backend_data = none;
  }

  -- `Lease::default`, given the network that "0.0.0.0/0" parses to and the time now
  abbrev pub default_lease : c.Ipv4Network → ℕ → Lease c
  default_lease any_network now = record {
    enable_ipv4 = false;
    subnet = any_network;
    enable_ipv6 = false;
    ipv6_subnet = none;
    attrs = default_attrs;
    expiration = now;
  }
