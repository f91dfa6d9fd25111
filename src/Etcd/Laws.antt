-- ===== src/Etcd/Laws.antt =====
-- What the program relies on of etcd: a transaction guarded by version 0 puts a key that is absent,
-- a key that is put is there, and a lease that is granted is kept until it is revoked.
use flannel_ng.Base.{ℕ, String, ◌≡◌, Bool, true, false, none, some, List, ◌∷◌}
use flannel_ng.Crates.{Crates}
use flannel_ng.Etcd.{Client, Grant, Txn}

pub record EtcdLaws (c : Crates) (client : Client c) : Type 0 where
  -- the keys there are, and the ids of the leases that have been granted and not revoked
  pub has : client.World → String → Bool
  pub granted : client.World → List ℕ
  pub txn-absent :
      (t : Txn client.Bytes) (w : client.World)
      → t.version ≡ 0
      → (client.txn t w).0 ≡ some true
      → has w t.compare_key ≡ false
  pub txn-has :
      (t : Txn client.Bytes) (w : client.World)
      → (client.txn t w).0 ≡ some true
      → has ((client.txn t w).1) t.put_key ≡ true
  pub txn-granted :
      (t : Txn client.Bytes) (w : client.World) → granted ((client.txn t w).1) ≡ granted w
  pub grant-has :
      (ttl : ℕ) (w : client.World) (k : String) → has ((client.lease_grant ttl w).1) k ≡ has w k
  pub grant-granted :
      (ttl : ℕ) (w : client.World) (g : Grant)
      → (client.lease_grant ttl w).0 ≡ some g
      → granted ((client.lease_grant ttl w).1) ≡ g.id ∷ granted w
  pub grant-refused :
      (ttl : ℕ) (w : client.World)
      → (client.lease_grant ttl w).0 ≡ none
      → granted ((client.lease_grant ttl w).1) ≡ granted w
  pub put-granted :
      (k : String) (v : client.Bytes) (id : ℕ) (w : client.World)
      → granted ((client.put k v id w).1) ≡ granted w
  pub revoke-granted :
      (id : ℕ) (w : client.World) (u : Unit {0}) (ids : List ℕ)
      → (client.lease_revoke id w).0 ≡ some u
      → granted w ≡ id ∷ ids
      → granted ((client.lease_revoke id w).1) ≡ ids
  pub now-has : (w : client.World) (k : String) → has ((client.now w).1) k ≡ has w k
