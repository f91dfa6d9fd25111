-- ===== src/Etcd/Stored/Tests.antt =====
-- A subnet created and read back on the concrete etcd.
use text.Mathlib.TextPositions.{eq_refl}
use text.Mathlib.TextEquality.{eq_iff}
use flannel_ng.Base.{
  ℕ, ◌≡◌, refl, sym, ap, ◌∙◌, String, Bool, true, false, not, Option, none, some, List, [], ◌∷◌,
  map, retain, str_eq, Bool-cases, inl, inr,
}
use flannel_ng.Base.Outcome.{ok}
use flannel_ng.Crates.Reference.{reference, reference_laws, make}
use flannel_ng.Samples.{third, sample_lease}
use flannel_ng.Lease.{Lease, LeaseAttrs}
use flannel_ng.Etcd.Regex.{captures}
use flannel_ng.Etcd.{KeyValue, GetResponse, Txn}
use flannel_ng.Etcd.Key.{extract_ip_and_subnet}
use flannel_ng.Env.Decimal.{numbers, is_digit}
use native.Mathlib.Decide.{dec_lt}
use flannel_ng.Etcd.Key.Reference.{key_client, key_client_laws}
use flannel_ng.Etcd.Reference.{Entry, Store, commit, present, to_kv, decide}
use flannel_ng.Etcd.Registry.{get_subnet}
use flannel_ng.Etcd.Create.{create_subnet}
use flannel_ng.Etcd.Stored.{StoreLaws}
use flannel_ng.Etcd.Stored.Created.{get_subnet-create_subnet}

abbrev of_key : String → Entry → Bool
of_key k e = str_eq e.0 k

abbrev value_of : Entry → LeaseAttrs reference × ℕ
value_of e = (e.1, e.2)

abbrev kept : Bool → Entry → Option (LeaseAttrs reference × ℕ)
kept true e = some (value_of e)
kept false e = none

-- The one entry there is, if it is of the key.
abbrev sole : String → List Entry → Option (LeaseAttrs reference × ℕ)
sole k (e ∷ []) = kept (of_key k e) e
sole k es = none

abbrev entry_of : Store → String → Option (LeaseAttrs reference × ℕ)
entry_of w k = sole k (retain (of_key k) w.entries)

retain-retain : (p : Entry → Bool) (es : List Entry) → retain p (retain (λ e. not (p e)) es) ≡ []
retain-retain p [] = refl
retain-retain p (e ∷ es) = elim (Bool-cases (p e)) [
  | inl h ↦ rw h (retain-retain p es)
  | inr h ↦ rw (h, h) (retain-retain p es)
]

decide-entry :
    (b : Bool) (t : Txn (LeaseAttrs reference)) (w : Store)
    → (decide b t w).0 ≡ some true
    → entry_of ((decide b t w).1) t.put_key ≡ some (t.value, t.lease)
decide-entry true t w h = absurd (cc h)
decide-entry false t w h =
    rw (eq_refl t.put_key, retain-retain (of_key t.put_key) w.entries, eq_refl t.put_key) refl

some_inj : {A : Type 0} {a b : A} → some a ≡ some b → a ≡ b
some_inj h = cc h

kept-some :
    (b : Bool) (e : Entry) (r : LeaseAttrs reference × ℕ)
    → kept b e ≡ some r
    → (b ≡ true) × (value_of e ≡ r)
kept-some true e r h = (refl, some_inj h)
kept-some false e r h = absurd (cc h)

abbrev one_kv : String → LeaseAttrs reference × ℕ → List (KeyValue (LeaseAttrs reference))
one_kv key (v, id) = record { key = some key; value = v; lease = id } ∷ []

sole-some :
    (k : String) (es : List Entry) (v : LeaseAttrs reference) (id : ℕ)
    → sole k es ≡ some (v, id)
    → map to_kv es ≡ one_kv k (v, id)
sole-some k [] v id h = absurd (cc h)
sole-some k (e ∷ []) v id h =
    let (is_key, same) = kept-some (of_key k e) e (v, id) h in
    ap (λ key. one_kv key (e.1, e.2)) ((eq_iff e.0 k).0 is_key) ∙ ap (one_kv k) same
sole-some k (e ∷ e' ∷ es) v id h = absurd (cc h)

key_client_store : StoreLaws reference key_client
unfolding commit
key_client_store = record {
  entry = entry_of;
  txn-entry = λ t w v h. decide-entry (present t.compare_key w.entries) t w h;
  now-entry = λ w k. refl;
  get-entry = λ k w v id resp h answered.
      ap (λ (r : GetResponse (LeaseAttrs reference)). r.kvs) (sym (some_inj answered))
      ∙ sole-some k (retain (of_key k) w.entries) v id h;
  from_slice-to_vec = λ attrs v h. sym h;
}

abbrev empty_store : Store
empty_store = record { clock = 1000; entries = []; granted = []; next_id = 0 }

abbrev attrs : LeaseAttrs reference
attrs = (sample_lease third 1).attrs

abbrev one_entry : Store
one_entry = record {
  clock = 1000;
  entries = ("/net/subnets/172.17.3.0-24", attrs, 0) ∷ [];
  granted = 0 ∷ [];
  next_id = 1;
}

created :
    create_subnet reference key_client "/net" third attrs 86400 empty_store ≡ (ok 87400, one_entry)
unfolding create_subnet commit
created = refl

got :
    (r : Option (Lease reference × ℕ)) × (v' : Store) × (get_subnet reference key_client "/net"
        third one_entry
      ≡ (ok r, v'))
unfolding get_subnet extract_ip_and_subnet captures numbers is_digit make dec_lt
got = (_, _, refl)

get_subnet-create_subnet_example :
    (l : Lease reference) × (revision : ℕ) × (got.0 ≡ some (l, revision))
    × (l.subnet.0.0 ≡ third.0.0)
    × (l.subnet.0.1 ≡ third.0.1)
    × (l.attrs ≡ attrs)
get_subnet-create_subnet_example =
    get_subnet-create_subnet reference reference_laws key_client key_client_laws key_client_store
      "/net" third attrs 86400 empty_store one_entry created refl (got.2)
