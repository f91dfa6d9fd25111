-- ===== src/Etcd/Leaks.antt =====
-- The etcd leases after a write of src/etcd/registry.rs that fails.
use flannel_ng.Base.{
  ℕ, String, ◌≡◌, sym, ap, ◌∙◌, Bool, Option-cases, true, false, Option, none, some, List, ◌∷◌, inl,
  inr, arith,
}
use flannel_ng.Base.Outcome.{err, Error, ok_or, external, txn_not_succeeded}
use flannel_ng.Base.Io.{
  Io, lift, call, ignore, attempt, observe, ◌>>=◌, ◌>>◌, >>=-eq-err, call-ok, call-err,
}
use flannel_ng.Crates.{Crates}
use flannel_ng.Lease.{LeaseAttrs}
use flannel_ng.Etcd.{Client, Grant}
use flannel_ng.Etcd.Key.{subnet_key}
use flannel_ng.Etcd.Registry.{as_u64, add_time, time_in}
use flannel_ng.Etcd.Create.{
  creation, conclude, commit, create_subnet, conclude_update, replace, update_subnet,
}
use flannel_ng.Etcd.Laws.{EtcdLaws}

add_time-not_err : (time seconds : ℕ) {e : Error} → ¬ (add_time time seconds ≡ err e)
unfolding add_time
add_time-not_err time seconds h = ground arith

module _ (c : Crates) (client : Client c) (laws : EtcdLaws c client) where
  open client use {World}

  -- The etcd leases are those there were, or there is one more, whose revocation, the last call of
  -- the run, etcd has not answered well.
  pub data IsKept (ids : List ℕ) (w' : World) : Type 0 where
    same : laws.granted w' ≡ ids → IsKept ids w'
    left :
        (id : ℕ) (v : World)
        → laws.granted v ≡ id ∷ ids
        → (client.lease_revoke id v).0 ≡ none
        → (client.lease_revoke id v).1 ≡ w'
        → IsKept ids w'

  -- The time is read, or the program panics.
  time_in-not_err :
      (seconds : ℕ) (w : World) {e : Error} {w' : World}
      → ¬ (time_in c client seconds w ≡ (err e, w'))
  unfolding time_in ◌>>=◌ observe lift
  time_in-not_err seconds w h = add_time-not_err ((client.now w).0) seconds (ap (λ p. p.0) h)

  revoked :
      (id : ℕ) (ids : List ℕ) (w : World) (e : Error) {e' : Error} {w' : World}
      → laws.granted w ≡ id ∷ ids
      → (ignore {A = Unit} (client.lease_revoke id) >> lift {A = ℕ} (err e)) w ≡ (err e', w')
      → IsKept ids w'
  unfolding ◌>>=◌ ◌>>◌ ignore lift
  revoked id ids w e {w' = w'} kept h =
      let at : (client.lease_revoke id w).1 ≡ w' = ap (λ p. p.1) h in
      elim (Option-cases ((client.lease_revoke id w).0)) [
        | inl refused ↦ left id w kept refused at
        | inr (u, done) ↦ same (sym (ap laws.granted at) ∙ laws.revoke-granted id w u ids done kept)
      ]

module _ (c : Crates) (client : Client c) (laws : EtcdLaws c client) (prefix : String) where
  open client use {World}

  conclude-granted :
      (g : Grant) (r : Option Bool) (ids : List ℕ) (w : World) {e : Error} {w' : World}
      → laws.granted w ≡ g.id ∷ ids
      → conclude c client prefix g r w ≡ (err e, w')
      → IsKept c client laws ids w'
  unfolding conclude
  conclude-granted g none ids w kept h = revoked c client laws g.id ids w external kept h
  conclude-granted g (some false) ids w kept h =
      revoked c client laws g.id ids w txn_not_succeeded kept h
  conclude-granted g (some true) ids w kept h =
      absurd (time_in-not_err c client laws (as_u64 g.ttl) w h)

  commit-granted :
      (key : String) (value : client.Bytes) (g : Grant) (ids : List ℕ) (w : World) {e : Error}
      {w' : World}
      → laws.granted w ≡ g.id ∷ ids
      → commit c client prefix key value g w ≡ (err e, w')
      → IsKept c client laws ids w'
  unfolding commit ◌>>=◌ attempt
  commit-granted key value g ids w kept h =
      let txn = creation c client prefix key value g.id in
      conclude-granted g ((client.txn txn w).0) ids ((client.txn txn w).1)
        (laws.txn-granted txn w ∙ kept) h

  -- The last step of a write: nothing is granted, or the lease is revoked.
  grant-granted :
      (ttl : ℕ) (f : Grant → Io World ℕ) (w : World) {e : Error} {w' : World}
      → ((g : Grant) (v : World)
          → laws.granted v ≡ g.id ∷ laws.granted w
          → f g v ≡ (err e, w')
          → IsKept c client laws (laws.granted w) w')
      → (call (client.lease_grant ttl) >>= f) w ≡ (err e, w')
      → IsKept c client laws (laws.granted w) w'
  grant-granted ttl f w rest h = elim (>>=-eq-err (call (client.lease_grant ttl)) f w h) [
    | inl refused ↦
        let (nothing, at) = call-err (client.lease_grant ttl) w refused in
        same (sym (ap laws.granted at) ∙ laws.grant-refused ttl w nothing)
    | inr (g, v, granted, h') ↦
        let (given, at) = call-ok (client.lease_grant ttl) w granted in
        rest g v (cc (laws.grant-granted ttl w g given, at)) h'
  ]

  -- A whole write, given the encoded attributes.
  write-granted :
      (encoded : Option client.Bytes) (ttl : ℕ) (f : client.Bytes → Grant → Io World ℕ) (w : World)
      {e : Error} {w' : World}
      → ((value : client.Bytes) (g : Grant) (v : World)
          → laws.granted v ≡ g.id ∷ laws.granted w
          → f value g v ≡ (err e, w')
          → IsKept c client laws (laws.granted w) w')
      → (lift (ok_or encoded external) >>= λ value. call (client.lease_grant ttl) >>= f value) w
        ≡ (err e, w')
      → IsKept c client laws (laws.granted w) w'
  unfolding ◌>>=◌ lift
  write-granted none ttl f w rest h = same (sym (ap (λ p. laws.granted p.1) h))
  write-granted (some value) ttl f w rest h = grant-granted ttl (f value) w (rest value) h

  -- A creation that ends with an error, wherever it does, leaves the etcd leases as they were, but
  -- for the one that it was granted when etcd has refused its revocation, which the creation has
  -- then asked for last.
  pub create_subnet-granted :
      (sn : c.Ipv4Network) (attrs : LeaseAttrs c) (ttl : ℕ) (w : World) {e : Error} {w' : World}
      → create_subnet c client prefix sn attrs ttl w ≡ (err e, w')
      → IsKept c client laws (laws.granted w) w'
  unfolding create_subnet
  create_subnet-granted sn attrs ttl w h =
      let key = subnet_key c prefix sn in
      write-granted (client.to_vec attrs) ttl (commit c client prefix key) w
        (λ value g v kept h'. commit-granted key value g (laws.granted w) v kept h') h

  conclude_update-granted :
      (g : Grant) (r : Option (Unit {0})) (ids : List ℕ) (w : World) {e : Error} {w' : World}
      → laws.granted w ≡ g.id ∷ ids
      → conclude_update c client prefix g r w ≡ (err e, w')
      → IsKept c client laws ids w'
  unfolding conclude_update
  conclude_update-granted g none ids w kept h = revoked c client laws g.id ids w external kept h
  conclude_update-granted g (some u) ids w kept h =
      absurd (time_in-not_err c client laws (as_u64 g.ttl) w h)

  replace-granted :
      (key : String) (value : client.Bytes) (g : Grant) (ids : List ℕ) (w : World) {e : Error}
      {w' : World}
      → laws.granted w ≡ g.id ∷ ids
      → replace c client prefix key value g w ≡ (err e, w')
      → IsKept c client laws ids w'
  unfolding replace ◌>>=◌ attempt
  replace-granted key value g ids w kept h =
      conclude_update-granted g ((client.put key value g.id w).0) ids
        ((client.put key value g.id w).1) (laws.put-granted key value g.id w ∙ kept) h

  -- An update that ends with an error, wherever it does, leaves the etcd leases as they were, but for
  -- the one that it was granted when etcd has refused its revocation, which the update has then
  -- asked for last.
  pub update_subnet-granted :
      (sn : c.Ipv4Network) (attrs : LeaseAttrs c) (ttl : ℕ) (w : World) {e : Error} {w' : World}
      → update_subnet c client prefix sn attrs ttl w ≡ (err e, w')
      → IsKept c client laws (laws.granted w) w'
  unfolding update_subnet
  update_subnet-granted sn attrs ttl w h =
      let key = subnet_key c prefix sn in
      write-granted (client.to_vec attrs) ttl (replace c client prefix key) w
        (λ value g v kept h'. replace-granted key value g (laws.granted w) v kept h') h
