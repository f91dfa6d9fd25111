-- ===== src/Etcd.antt =====
-- src/etcd: the registry of subnets, and the crates that it calls as a parameter: `etcd_client`,
-- `regex`, `serde_json` and the clock.
pub mod Regex
pub mod Key
pub mod Registry
pub mod Events
pub mod Watch
pub mod Laws
pub mod Create
pub mod Exclusive
pub mod Leaks
pub mod Stored
pub mod Reference
mod Tests
use flannel_ng.Base.{ℕ, String, ◌≡◌, Bool, true, false, Option, none, some, List, [], ◌∷◌}
use flannel_ng.Etcd.Regex.{Pattern}
use flannel_ng.Crates.{Crates}
-- An i64 that etcd reports.
pub use flannel_ng.Base.Integer.{ℤ, pos, negsuc}
use flannel_ng.Lease.{LeaseAttrs, EventType}

-- What the program reads of a `KeyValue`, by `key_str`, `value` and `lease`.
pub record KeyValue (Bytes : Type 0) : Type 0 where
  pub key : Option String
  pub value : Bytes
  pub lease : ℕ

-- What it reads of a `GetResponse`, by `kvs`, `count` and `header`.
pub record GetResponse (Bytes : Type 0) : Type 0 where
  pub kvs : List (KeyValue Bytes)
  pub count : ℕ
  pub revision : Option ℕ

-- `LeaseGrantResponse`
pub record Grant : Type 0 where
  pub id : ℕ
  pub ttl : ℤ

-- A transaction that puts a key if its version is 0, as `create_subnet` builds it.
pub record Txn (Bytes : Type 0) : Type 0 where
  pub compare_key : String
  pub version : ℕ
  pub put_key : String
  pub value : Bytes
  pub lease : ℕ

-- An `Event` of a watch.
pub record Event (Bytes : Type 0) : Type 0 where
  pub kv : Option (KeyValue Bytes)
  pub event_type : EventType

-- A `WatchResponse`
pub record WatchResponse (Bytes : Type 0) : Type 0 where
  pub canceled : Bool
  pub events : List (Event Bytes)
  pub revision : Option ℕ

-- The calls of the program on etcd and the clock, each of which acts on a world. An etcd call
-- answers `none` for an error.
pub record Client (c : Crates) : Type 1 where
  pub World : Type 0
  pub Bytes : Type 0
  pub now : World → ℕ × World
  -- the entry of a key, or with the flag the entries of all keys that start with it
  pub get : String → Bool → World → Option (GetResponse Bytes) × World
  pub put : String → Bytes → ℕ → World → Option (Unit {0}) × World
  -- the transaction's answer is whether it succeeded
  pub txn : Txn Bytes → World → Option Bool × World
  pub lease_grant : ℕ → World → Option Grant × World
  pub lease_revoke : ℕ → World → Option (Unit {0}) × World
  pub lease_time_to_live : ℕ → World → Option ℤ × World
  -- `serde_json` at `LeaseAttrs`
  pub to_vec : LeaseAttrs c → Option Bytes
  pub to_str : Bytes → Option String
  pub from_slice : Bytes → Option (LeaseAttrs c)
  -- the captures of a regular expression, and the parsers of networks
  pub captures : Pattern → String → Option (List (Option String))
  pub parse_ipv4 : String → Option (c.Ipv4Network)
  pub parse_ipv6 : String → Option (c.Ipv6Network)
