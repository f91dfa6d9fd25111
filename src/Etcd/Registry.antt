-- ===== src/Etcd/Registry.antt =====
-- `EtcdSubnetRegistry` of src/etcd/registry.rs: each method is an action on the client's world.
use flannel_ng.Base.{
  ℕ, ◌+◌, ◌-◌, ◌^◌, ◌%◌, String, true, false, Option, none, some, List, [], ◌∷◌, ◌++◌, leb, ◌==◌,
  if◌then◌else◌,
}
use flannel_ng.Base.Outcome.{Outcome, ok, panic, ok_or, unwrap, external}
use flannel_ng.Base.Io.{Io, pure, unwrapped, lift, call, attempt, observe, ◌>>=◌}
use flannel_ng.Crates.{Crates}
use flannel_ng.Lease.{Lease, LeaseWatchResult, default_lease}
use flannel_ng.Etcd.{Client, ℤ, pos, negsuc, KeyValue, GetResponse}
use flannel_ng.Etcd.Key.{push, subnet_key, extract_ip_and_subnet}

-- `as u64`
abbrev pub as_u64 : ℤ → ℕ
as_u64 (pos n) = n % 2 ^ 64
as_u64 (negsuc n) = 2 ^ 64 - 1 - n

-- `SystemTime + Duration` in seconds, which panics beyond the range of an i64.
unfoldable pub add_time : ℕ → ℕ → Outcome ℕ
add_time time seconds = if leb (time + seconds) (2 ^ 63 - 1) then ok (time + seconds) else panic

-- `unwrap_or_default`
abbrev pub or_zero : Option ℕ → ℕ
or_zero none = 0
or_zero (some n) = n

module _ (c : Crates) (client : Client c) where
  open client use {World, Bytes}

  -- The time now and a number of seconds.
  unfoldable pub time_in : ℕ → Io World ℕ
  unfolding ◌>>=◌ add_time
  time_in seconds = do now ← observe client.now; lift (add_time now seconds)

  unfoldable pub kv_to_ip_lease : KeyValue Bytes → ℤ → Io World (Lease c)
  unfolding ◌>>=◌ time_in
  kv_to_ip_lease kv ttl = do
    key ← lift (ok_or kv.key external)
    (sn4, sn6) ← lift (extract_ip_and_subnet c client key)
    lease_attrs ← lift (ok_or (client.from_slice kv.value) external)
    exp ← time_in (as_u64 ttl)
    pure (record {
      enable_ipv4 = true;
      subnet = sn4;
      enable_ipv6 = elim sn6 [ none ↦ false | some n ↦ true ];
      ipv6_subnet = sn6;
      attrs = lease_attrs;
      expiration = exp;
    })

  -- `Lease::default`
  unfoldable pub new_lease : Io World (Lease c)
  unfolding ◌>>=◌
  new_lease = do
    any_network ← lift (unwrap (client.parse_ipv4 "0.0.0.0/0"))
    now ← observe client.now
    pure (default_lease c any_network now)

  -- The value of the first entry, or no text.
  unfoldable pub first_value : List (KeyValue Bytes) → Io World String
  first_value [] = pure ""
  first_value (kv ∷ kvs) = lift (ok_or (client.to_str kv.value) external)

  -- What `get_subnet` makes of the response to its key.
  unfoldable pub found_subnet : GetResponse Bytes → Io World (Option (Lease c × ℕ))
  unfolding ◌>>=◌ kv_to_ip_lease
  found_subnet resp = elim resp.kvs [
    | [] ↦ pure none
    | kv ∷ kvs ↦ do
      ttl ← call (client.lease_time_to_live kv.lease)
      lease ← kv_to_ip_lease kv ttl
      pure (some (lease, or_zero resp.revision))
  ]

  -- An entry with a time to live is a lease; one for which etcd does not report it is left out.
  unfoldable pub lease_of : KeyValue Bytes → Option ℤ → Io World (List (Lease c))
  unfolding ◌>>=◌ unwrapped kv_to_ip_lease
  lease_of kv none = pure []
  lease_of kv (some ttl) = do lease ← unwrapped (kv_to_ip_lease kv ttl); pure (lease ∷ [])

  unfoldable pub leases_of : List (KeyValue Bytes) → Io World (List (Lease c))
  unfolding ◌>>=◌ lease_of
  leases_of [] = pure []
  leases_of (kv ∷ kvs) = do
    ttl ← attempt (client.lease_time_to_live kv.lease)
    found ← lease_of kv ttl
    rest ← leases_of kvs
    pure (found ++ rest)

module _ (c : Crates) (client : Client c) (prefix : String) where
  open client use {World, Bytes}

  unfoldable pub get_network_config : Io World String
  unfolding ◌>>=◌ push first_value
  get_network_config = do
    resp ← call (client.get (push prefix "config") false)
    first_value c client resp.kvs

  unfoldable pub get_subnet : c.Ipv4Network → Io World (Option (Lease c × ℕ))
  unfolding ◌>>=◌ subnet_key found_subnet
  get_subnet sn = do
    resp ← call (client.get (subnet_key c prefix sn) false)
    found_subnet c client resp

  unfoldable pub get_subnets : Io World (List (Lease c) × ℕ)
  unfolding ◌>>=◌ push leases_of
  get_subnets = do
    resp ← call (client.get (push prefix "subnets") true)
    elim (resp.count == 0) [
      | true ↦ pure ([], 0)
      | false ↦ do leases ← leases_of c client resp.kvs; pure (leases, or_zero resp.revision)
    ]

  unfoldable pub leases_watch_reset : Io World (LeaseWatchResult c)
  unfolding ◌>>=◌ get_subnets
  leases_watch_reset = do
    (leases, index) ← get_subnets
    pure (record { snapshot = leases; events = []; cursor = index })
