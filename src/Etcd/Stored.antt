-- ===== src/Etcd/Stored.antt =====
-- What `create_subnet` of src/etcd/registry.rs leaves in the registry.
mod Read
mod Created
mod Tests
use flannel_ng.Base.{
  ℕ, ◌≡◌, refl, sym, ap, ◌∙◌, String, Bool, true, false, Option, none, some, List, [], ◌∷◌,
}
use flannel_ng.Base.Outcome.{Outcome, ok, ok_or, ok_or-ok, external}
use flannel_ng.Base.Io.{
  Io, pure, lift, call, ignore, attempt, observe, ◌>>=◌, ◌>>◌, >>=-eq-ok, lift-ok, call-ok,
  attempt-ok, observe-ok, pure-ok,
}
use flannel_ng.Crates.{Crates, NetworkLaws}
use flannel_ng.Lease.{Lease, LeaseAttrs}
use flannel_ng.Etcd.{Client, ℤ, pos, KeyValue, GetResponse, Grant, Txn}
use flannel_ng.Etcd.Key.{subnet_key, extract_ip_and_subnet}
use flannel_ng.Etcd.Key.RoundTrip.{KeyLaws, extract_ip_and_subnet-subnet_key}
use flannel_ng.Etcd.Registry.{
  add_time, as_u64, time_in, kv_to_ip_lease, found_subnet, get_subnet, or_zero,
}
use flannel_ng.Etcd.Create.{creation, conclude, commit, create_subnet}
use flannel_ng.Etcd.Exclusive.{conclude-ok}

-- What the program relies on of etcd: a transaction that succeeds has put its entry, a get answers
-- with the entry of its key, and the clock leaves the entries as they are. `serde_json` reads the
-- attributes that it has written.
pub record StoreLaws (c : Crates) (client : Client c) : Type 0 where
  pub entry : client.World → String → Option (client.Bytes × ℕ)
  pub txn-entry :
      (t : Txn client.Bytes) (w : client.World)
      → t.version ≡ 0
      → (client.txn t w).0 ≡ some true
      → entry ((client.txn t w).1) t.put_key ≡ some (t.value, t.lease)
  pub now-entry : (w : client.World) (k : String) → entry ((client.now w).1) k ≡ entry w k
  pub get-entry :
      (k : String) (w : client.World) (v : client.Bytes) (id : ℕ) (resp : GetResponse client.Bytes)
      → entry w k ≡ some (v, id)
      → (client.get k false w).0 ≡ some resp
      → resp.kvs ≡ record { key = some k; value = v; lease = id } ∷ []
  pub from_slice-to_vec :
      (attrs : LeaseAttrs c) (v : client.Bytes)
      → client.to_vec attrs ≡ some v
      → client.from_slice v ≡ some attrs

module _ (c : Crates) (client : Client c) (store : StoreLaws c client) (prefix : String) where
  open client use {World, Bytes}

  time_in-entry :
      (seconds : ℕ) (w : World) (k : String) {t : ℕ} {w' : World}
      → time_in c client seconds w ≡ (ok t, w')
      → store.entry w' k ≡ store.entry w k
  unfolding time_in
  time_in-entry seconds w k h =
      let (now, v, read, done) =
        >>=-eq-ok (observe client.now) (λ now. lift (add_time now seconds)) w h in
      let (value, at) = observe-ok client.now w read in
      let (sum, same) = lift-ok (add_time now seconds) v done in cc (store.now-entry w k, at, same)

  conclude-entry :
      (g : Grant) (r : Option Bool) (w : World) (k : String) {t : ℕ} {w' : World}
      → conclude c client prefix g r w ≡ (ok t, w')
      → (r ≡ some true) × (store.entry w' k ≡ store.entry w k)
  unfolding conclude ◌>>=◌ ◌>>◌ ignore lift
  conclude-entry g none w k h = absurd (cc (ap (λ p. p.0) h))
  conclude-entry g (some false) w k h = absurd (cc (ap (λ p. p.0) h))
  conclude-entry g (some true) w k h = (refl, time_in-entry _ w k h)

  -- A subnet that has been created has its attributes in the registry.
  pub create_subnet-entry :
      (sn : c.Ipv4Network) (attrs : LeaseAttrs c) (ttl : ℕ) (w : World) {t : ℕ} {w' : World}
      → create_subnet c client prefix sn attrs ttl w ≡ (ok t, w')
      → (v : Bytes) × (id : ℕ) × (client.to_vec attrs ≡ some v)
        × (store.entry w' (subnet_key c prefix sn) ≡ some (v, id))
  unfolding create_subnet commit creation
  create_subnet-entry sn attrs ttl w h =
      let key = subnet_key c prefix sn in
      let encode = ok_or (client.to_vec attrs) external in
      let (v, w1, encoded, h1) =
        >>=-eq-ok (lift encode)
          (λ value. call (client.lease_grant ttl) >>= commit c client prefix key value) w h in
      let (parsed, same) = lift-ok encode w encoded in
      let (g, w2, granted, h2) =
        >>=-eq-ok (call (client.lease_grant ttl)) (commit c client prefix key v) w1 h1 in
      let txn = creation c client prefix key v g.id in
      let (r, w3, tried, h3) =
        >>=-eq-ok (attempt (client.txn txn)) (conclude c client prefix g) w2 h2 in
      let (answer, at) = attempt-ok (client.txn txn) w2 tried in
      let (succeeded, kept) = conclude-entry g r w3 key h3 in
      let put = store.txn-entry txn w2 refl (answer ∙ succeeded) in
      (v, g.id, ok_or-ok (client.to_vec attrs) external parsed, cc (put, at, kept))
