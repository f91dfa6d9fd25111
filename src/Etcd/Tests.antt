-- ===== src/Etcd/Tests.antt =====
-- Runs of the registry on the concrete etcd.
use flannel_ng.Base.{ℕ, ◌≡◌, ◌≢◌, refl, none, List, [], ◌∷◌}
use flannel_ng.Base.Outcome.{ok, err, txn_not_succeeded, external}
use flannel_ng.Crates.Reference.{reference}
use flannel_ng.Samples.{third, sample_lease}
use flannel_ng.Lease.{LeaseAttrs}
use flannel_ng.Etcd.{Client}
use flannel_ng.Etcd.Laws.{EtcdLaws}
use flannel_ng.Etcd.Reference.{Entry, Store, store_client, store_laws, commit}
use flannel_ng.Etcd.Key.{subnet_key}
use flannel_ng.Etcd.Create.{create_subnet, update_subnet}
use flannel_ng.Etcd.Exclusive.{create_subnet-excludes}
use flannel_ng.Etcd.Leaks.{IsKept, create_subnet-granted, update_subnet-granted}

abbrev attrs_of : ℕ → LeaseAttrs reference
attrs_of public_ip = (sample_lease third public_ip).attrs

abbrev store_of : List Entry → List ℕ → ℕ → Store
store_of entries granted next_id = record {
  clock = 1000;
  entries = entries;
  granted = granted;
  next_id = next_id;
}

key_of_third : subnet_key reference "/net" third ≡ "/net/subnets/172.17.3.0-24"
unfolding subnet_key
key_of_third = refl

abbrev third_entry : Entry
third_entry = ("/net/subnets/172.17.3.0-24", attrs_of 1, 0)

third_created :
    create_subnet reference store_client "/net" third (attrs_of 1) 86400 (store_of [] [] 0)
    ≡ (ok 87400, store_of (third_entry ∷ []) (0 ∷ []) 1)
unfolding create_subnet commit
third_created = refl

third_refused :
    create_subnet reference store_client "/net" third
      (attrs_of 2)
      86400
      (store_of (third_entry ∷ []) (0 ∷ []) 1)
    ≡ (err txn_not_succeeded, store_of (third_entry ∷ []) (0 ∷ []) 2)
unfolding create_subnet commit
third_refused = refl

create_subnet-excludes_example :
    create_subnet reference store_client "/net" third
      (attrs_of 2)
      3600
      (store_of (third_entry ∷ []) (0 ∷ []) 1)
    ≢ (ok 4600, store_of (third_entry ∷ []) (1 ∷ 0 ∷ []) 2)
create_subnet-excludes_example =
    create_subnet-excludes reference store_client store_laws "/net" third (attrs_of 1) (attrs_of 2)
      86400 3600 (store_of [] [] 0) third_created refl

create_subnet-granted_example :
    IsKept reference store_client store_laws
      (store_laws.granted (store_of (third_entry ∷ []) (0 ∷ []) 1))
      (store_of (third_entry ∷ []) (0 ∷ []) 2)
create_subnet-granted_example =
    create_subnet-granted reference store_client store_laws "/net" third (attrs_of 2) 86400
      (store_of (third_entry ∷ []) (0 ∷ []) 1) third_refused

-- An etcd that answers each put with an error.
abbrev refusing_client : Client reference
refusing_client = record store_client { put = λ k v id w. (none, w) }

refusing_laws : EtcdLaws reference refusing_client
refusing_laws = record {
  has = store_laws.has;
  granted = store_laws.granted;
  txn-absent = store_laws.txn-absent;
  txn-has = store_laws.txn-has;
  txn-granted = store_laws.txn-granted;
  grant-has = store_laws.grant-has;
  grant-granted = store_laws.grant-granted;
  grant-refused = store_laws.grant-refused;
  put-granted = λ k v id w. refl;
  revoke-granted = store_laws.revoke-granted;
  now-has = store_laws.now-has;
}

third_kept :
    update_subnet reference refusing_client "/net" third (attrs_of 1) 86400 (store_of [] [] 4)
    ≡ (err external, store_of [] [] 5)
unfolding update_subnet
third_kept = refl

update_subnet-granted_example :
    IsKept reference refusing_client refusing_laws
      (refusing_laws.granted (store_of [] [] 4))
      (store_of [] [] 5)
update_subnet-granted_example =
    update_subnet-granted reference refusing_client refusing_laws "/net" third (attrs_of 1) 86400
      (store_of [] [] 4) third_kept
