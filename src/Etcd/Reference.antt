-- ===== src/Etcd/Reference.antt =====
-- A concrete etcd that meets `EtcdLaws`, for the tests: it keeps entries and granted leases in lists.
-- Its values are the attributes themselves, its pattern matcher has the digits of ASCII alone, and its
-- parser knows two subnets.
use Prim.Native.Char.{code}
use text.Mathlib.TextPositions.{eq_refl}
use flannel_ng.Base.{
  ℕ, suc, String, ◌≡◌, refl, Bool, true, false, not, ◌&&◌, Option, none, some, List, [], ◌∷◌, map,
  any, retain, length, ◌==◌, str_eq, if◌then◌else◌, arith,
}
use flannel_ng.Crates.Reference.{Block, reference}
use flannel_ng.Samples.{third, fifth}
use flannel_ng.Lease.{LeaseAttrs}
use flannel_ng.Etcd.{Client, pos, KeyValue, GetResponse, Grant, Txn}
use flannel_ng.Etcd.Regex.{captures}
use flannel_ng.Etcd.Laws.{EtcdLaws}

abbrev pub Entry : Type 0
Entry = String × LeaseAttrs reference × ℕ

pub record Store : Type 0 where
  pub clock : ℕ
  pub entries : List Entry
  pub granted : List ℕ
  pub next_id : ℕ

abbrev pub starts_with : String → String → Bool
starts_with s String.[] = true
starts_with String.[] (String.◌∷◌ p ps) = false
starts_with (String.◌∷◌ ch s) (String.◌∷◌ p ps) = (code ch == code p) && starts_with s ps

unfoldable pub present : String → List Entry → Bool
present k entries = any (λ (e : Entry). str_eq e.0 k) entries

abbrev pub remove_first : ℕ → List ℕ → List ℕ
remove_first id [] = []
remove_first id (x ∷ xs) = let rest = remove_first id xs in if x == id then xs else x ∷ rest

abbrev pub to_kv : Entry → KeyValue (LeaseAttrs reference)
to_kv e = record { key = some (e.0); value = e.1; lease = e.2 }

abbrev pub respond : List Entry → GetResponse (LeaseAttrs reference)
respond found = record { kvs = map to_kv found; count = length found; revision = some 7 }

abbrev pub read : String → Bool → Store → Option (GetResponse (LeaseAttrs reference)) × Store
read k true w = (some (respond (retain (λ (e : Entry). starts_with e.0 k) w.entries)), w)
read k false w = (some (respond (retain (λ (e : Entry). str_eq e.0 k) w.entries)), w)

abbrev pub write : String → LeaseAttrs reference → ℕ → Store → Store
write k v id w = record w {
  entries = (k, v, id) ∷ retain (λ (e : Entry). not (str_eq e.0 k)) w.entries;
}

abbrev pub decide : Bool → Txn (LeaseAttrs reference) → Store → Option Bool × Store
decide true t w = (some false, w)
decide false t w = (some true, write t.put_key t.value t.lease w)

unfoldable pub commit : Txn (LeaseAttrs reference) → Store → Option Bool × Store
unfolding present
commit t w = decide (present t.compare_key w.entries) t w

abbrev pub grant : ℕ → Store → Option Grant × Store
grant ttl w = (
  some (record { id = w.next_id; ttl = pos ttl }),
  record w { granted = w.next_id ∷ w.granted; next_id = suc w.next_id },
)

unfoldable pub parse : String → Option Block
parse s =
    if str_eq s "172.17.3.0/24"
    then some third
    else if str_eq s "172.17.5.0/24"
    then some fifth
    else if str_eq s "0.0.0.0/0"
    then some ((0, 0), (omega arith, omega arith))
    else none

abbrev pub store_client : Client reference
store_client = record {
  World = Store;
  Bytes = LeaseAttrs reference;
  now = λ w. (w.clock, w);
  get = read;
  put = λ k v id w. (some tt, write k v id w);
  txn = commit;
  lease_grant = grant;
  lease_revoke = λ id w. (some tt, record w { granted = remove_first id w.granted });
  lease_time_to_live = λ id w. (some (pos 86400), w);
  to_vec = some;
  to_str = λ v. some "{}";
  from_slice = some;
  captures = captures (λ n. false);
  parse_ipv4 = parse;
  parse_ipv6 = λ s. none;
}

decide-absent :
    (b : Bool) (t : Txn (LeaseAttrs reference)) (w : Store)
    → (decide b t w).0 ≡ some true
    → b ≡ false
decide-absent true t w h = cc
decide-absent false t w h = refl

decide-has :
    (b : Bool) (t : Txn (LeaseAttrs reference)) (w : Store)
    → (decide b t w).0 ≡ some true
    → present t.put_key ((decide b t w).1.entries) ≡ true
unfolding present
decide-has true t w h = absurd (cc h)
decide-has false t w h = ground (arith, eq_refl t.put_key)

decide-granted :
    (b : Bool) (t : Txn (LeaseAttrs reference)) (w : Store) → (decide b t w).1.granted ≡ w.granted
decide-granted true t w = refl
decide-granted false t w = refl

remove_first-head : (id : ℕ) (xs ids : List ℕ) → xs ≡ id ∷ ids → remove_first id xs ≡ ids
remove_first-head id xs ids h = ground arith

pub store_laws : EtcdLaws reference store_client
unfolding commit
store_laws = record {
  has = λ w k. present k w.entries;
  granted = λ w. w.granted;
  txn-absent = λ t w v h. decide-absent (present t.compare_key w.entries) t w h;
  txn-has = λ t w h. decide-has (present t.compare_key w.entries) t w h;
  txn-granted = λ t w. decide-granted (present t.compare_key w.entries) t w;
  grant-has = λ ttl w k. refl;
  grant-granted = λ ttl w g h. ground arith;
  grant-refused = λ ttl w h. absurd (cc h);
  put-granted = λ k v id w. refl;
  revoke-granted = λ id w u ids h e. remove_first-head id w.granted ids e;
  now-has = λ w k. refl;
}
