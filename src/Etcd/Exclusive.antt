-- ===== src/Etcd/Exclusive.antt =====
-- Two creations of one subnet by `create_subnet` of src/etcd/registry.rs.
use flannel_ng.Base.{ℕ, String, ◌≡◌, ◌≢◌, refl, ap, ◌∙◌, Bool, true, false, Option, none, some}
use flannel_ng.Base.Outcome.{ok, ok_or, external}
use flannel_ng.Base.Io.{
  lift, call, ignore, attempt, observe, ◌>>=◌, ◌>>◌, >>=-eq-ok, lift-ok, call-ok, attempt-ok,
  observe-ok,
}
use flannel_ng.Crates.{Crates}
use flannel_ng.Lease.{LeaseAttrs}
use flannel_ng.Etcd.{Client, Grant}
use flannel_ng.Etcd.Key.{subnet_key}
use flannel_ng.Etcd.Registry.{add_time, time_in}
use flannel_ng.Etcd.Create.{creation, conclude, commit, create_subnet}
use flannel_ng.Etcd.Laws.{EtcdLaws}

module _ (c : Crates) (client : Client c) (laws : EtcdLaws c client) where
  open client use {World}

  pub time_in-has :
      (seconds : ℕ) (w : World) (k : String) {t : ℕ} {w' : World}
      → time_in c client seconds w ≡ (ok t, w')
      → laws.has w' k ≡ laws.has w k
  unfolding time_in
  time_in-has seconds w k h =
      let (now, v, read, done) =
        >>=-eq-ok (observe client.now) (λ now. lift (add_time now seconds)) w h in
      let (value, at) = observe-ok client.now w read in
      let (sum, same) = lift-ok (add_time now seconds) v done in cc (laws.now-has w k, at, same)

module _ (c : Crates) (client : Client c) (laws : EtcdLaws c client) (prefix : String) where
  open client use {World}

  pub conclude-ok :
      (g : Grant) (r : Option Bool) (w : World) (k : String) {t : ℕ} {w' : World}
      → conclude c client prefix g r w ≡ (ok t, w')
      → (r ≡ some true) × (laws.has w' k ≡ laws.has w k)
  unfolding conclude ◌>>=◌ ◌>>◌ ignore lift
  conclude-ok g none w k h = absurd (cc (ap (λ p. p.0) h))
  conclude-ok g (some false) w k h = absurd (cc (ap (λ p. p.0) h))
  conclude-ok g (some true) w k h = (refl, time_in-has c client laws _ w k h)

  commit-has :
      (key : String) (value : client.Bytes) (g : Grant) (w : World) {t : ℕ} {w' : World}
      → commit c client prefix key value g w ≡ (ok t, w')
      → (laws.has w key ≡ false) × (laws.has w' key ≡ true)
  unfolding commit creation
  commit-has key value g w h =
      let txn = creation c client prefix key value g.id in
      let (r, w1, tried, h1) =
        >>=-eq-ok (attempt (client.txn txn)) (conclude c client prefix g) w h in
      let (answer, at) = attempt-ok (client.txn txn) w tried in
      let (succeeded, kept) = conclude-ok g r w1 key h1 in
      let won : (client.txn txn w).0 ≡ some true = answer ∙ succeeded in
      (laws.txn-absent txn w refl won, cc (laws.txn-has txn w won, at, kept))

  -- The subnet was not in the registry before, and is after.
  pub create_subnet-has :
      (sn : c.Ipv4Network) (attrs : LeaseAttrs c) (ttl : ℕ) (w : World) {t : ℕ} {w' : World}
      → create_subnet c client prefix sn attrs ttl w ≡ (ok t, w')
      → (laws.has w (subnet_key c prefix sn) ≡ false)
        × (laws.has w' (subnet_key c prefix sn) ≡ true)
  unfolding create_subnet
  create_subnet-has sn attrs ttl w h =
      let key = subnet_key c prefix sn in
      let encode = ok_or (client.to_vec attrs) external in
      let (value, w1, encoded, h1) =
        >>=-eq-ok (lift encode)
          (λ value. call (client.lease_grant ttl) >>= commit c client prefix key value) w h in
      let (parsed, same) = lift-ok encode w encoded in
      let (g, w2, granted, h2) =
        >>=-eq-ok (call (client.lease_grant ttl)) (commit c client prefix key value) w1 h1 in
      let (some_g, at) = call-ok (client.lease_grant ttl) w1 granted in
      let (absent, present) = commit-has key value g w2 h2 in
      (cc (absent, laws.grant-has ttl w1 key, at, same), present)

  -- When a node has created a subnet, no creation of the same subnet succeeds in a state of etcd in
  -- which the subnet's key is still there, whatever attributes and time to live it asks for: two
  -- nodes that race for a subnet do not both get it.
  pub create_subnet-excludes :
      (sn : c.Ipv4Network) (attrs attrs' : LeaseAttrs c) (ttl ttl' : ℕ) (w : World) {t t' : ℕ}
      {w' v v' : World}
      → create_subnet c client prefix sn attrs ttl w ≡ (ok t, w')
      → laws.has v (subnet_key c prefix sn) ≡ laws.has w' (subnet_key c prefix sn)
      → create_subnet c client prefix sn attrs' ttl' v ≢ (ok t', v')
  create_subnet-excludes sn attrs attrs' ttl ttl' w first still second =
      let (before, after) = create_subnet-has sn attrs ttl w first in
      let (before', after') = create_subnet-has sn attrs' ttl' _ second in
      absurd (cc (after, still, before'))
