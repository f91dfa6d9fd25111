-- ===== src/Etcd/Create.antt =====
-- `create_subnet` and `update_subnet` of src/etcd/registry.rs: a subnet is written to the registry
-- under an etcd lease.
use flannel_ng.Base.{ℕ, String, Bool, true, false, Option, none, some}
use flannel_ng.Base.Outcome.{ok_or, err, external, txn_not_succeeded}
use flannel_ng.Base.Io.{Io, lift, call, ignore, attempt, ◌>>=◌, ◌>>◌}
use flannel_ng.Crates.{Crates}
use flannel_ng.Lease.{LeaseAttrs}
use flannel_ng.Etcd.{Client, Grant, Txn}
use flannel_ng.Etcd.Key.{subnet_key}
use flannel_ng.Etcd.Registry.{as_u64, time_in}

module _ (c : Crates) (client : Client c) (prefix : String) where
  open client use {World, Bytes}

  -- The transaction that puts the key if it has no version yet.
  unfoldable pub creation : String → Bytes → ℕ → Txn Bytes
  creation key value lease = record {
    compare_key = key;
    version = 0;
    put_key = key;
    value = value;
    lease = lease;
  }

  -- The `match` on the transaction's response.
  unfoldable pub conclude : Grant → Option Bool → Io World ℕ
  unfolding ◌>>=◌ ◌>>◌ time_in
  conclude lease_resp none = do ignore (client.lease_revoke lease_resp.id); lift (err external)
  conclude lease_resp (some false) = do
    ignore (client.lease_revoke lease_resp.id)
    lift (err txn_not_succeeded)
  conclude lease_resp (some true) = time_in c client (as_u64 lease_resp.ttl)

  -- The transaction, once the lease is granted.
  unfoldable pub commit : String → Bytes → Grant → Io World ℕ
  unfolding ◌>>=◌ creation conclude
  commit key value lease_resp = do
    txn_resp ← attempt (client.txn (creation key value lease_resp.id))
    conclude lease_resp txn_resp

  unfoldable pub create_subnet : c.Ipv4Network → LeaseAttrs c → ℕ → Io World ℕ
  unfolding ◌>>=◌ subnet_key commit
  create_subnet sn attrs subnet_ttl = do
    value ← lift (ok_or (client.to_vec attrs) external)
    lease_resp ← call (client.lease_grant subnet_ttl)
    commit (subnet_key c prefix sn) value lease_resp

  -- The end of `update_subnet`, given the response to its put.
  unfoldable pub conclude_update : Grant → Option (Unit {0}) → Io World ℕ
  unfolding ◌>>=◌ ◌>>◌ time_in
  conclude_update lease_resp none = do
    ignore (client.lease_revoke lease_resp.id)
    lift (err external)
  conclude_update lease_resp (some u) = time_in c client (as_u64 lease_resp.ttl)

  -- The put, once the lease is granted.
  unfoldable pub replace : String → Bytes → Grant → Io World ℕ
  unfolding ◌>>=◌ conclude_update
  replace key value lease_resp = do
    put_resp ← attempt (client.put key value lease_resp.id)
    conclude_update lease_resp put_resp

  unfoldable pub update_subnet : c.Ipv4Network → LeaseAttrs c → ℕ → Io World ℕ
  unfolding ◌>>=◌ subnet_key replace
  update_subnet subnet attrs ttl = do
    value ← lift (ok_or (client.to_vec attrs) external)
    lease_resp ← call (client.lease_grant ttl)
    replace (subnet_key c prefix subnet) value lease_resp
