-- ===== src/Etcd/Stored/Read.antt =====
-- What `get_subnet` of src/etcd/registry.rs makes of an entry.
use flannel_ng.Base.{ℕ, ◌≡◌, refl, sym, ◌∙◌, String, true, false, Option, none, some, [], ◌∷◌}
use flannel_ng.Base.Outcome.{ok, ok_or, ok_or-ok, external}
use flannel_ng.Base.Io.{Io, pure, lift, call, ◌>>=◌, >>=-eq-ok, lift-ok, pure-ok}
use flannel_ng.Crates.{Crates}
use flannel_ng.Lease.{Lease, LeaseAttrs}
use flannel_ng.Etcd.{Client, ℤ, KeyValue, GetResponse}
use flannel_ng.Etcd.Key.{extract_ip_and_subnet}
use flannel_ng.Etcd.Registry.{as_u64, time_in, kv_to_ip_lease, found_subnet, or_zero}

module _ (c : Crates) (client : Client c) where
  open client use {World, Bytes}

  abbrev pub Subnets : Type 0
  Subnets = c.Ipv4Network × Option (c.Ipv6Network)

  abbrev pub lease_at : Subnets → LeaseAttrs c → ℕ → Lease c
  lease_at sn attrs exp = record {
    enable_ipv4 = true;
    subnet = sn.0;
    enable_ipv6 = elim sn.1 [ none ↦ false | some n ↦ true ];
    ipv6_subnet = sn.1;
    attrs = attrs;
    expiration = exp;
  }

  abbrev with_attrs : ℤ → Subnets → LeaseAttrs c → Io World (Lease c)
  with_attrs ttl sn attrs = time_in c client (as_u64 ttl) >>= λ exp. pure (lease_at sn attrs exp)

  abbrev with_subnets : KeyValue Bytes → ℤ → Subnets → Io World (Lease c)
  with_subnets kv ttl sn = lift (ok_or (client.from_slice kv.value) external) >>= with_attrs ttl sn

  abbrev with_key : KeyValue Bytes → ℤ → String → Io World (Lease c)
  with_key kv ttl key = lift (extract_ip_and_subnet c client key) >>= with_subnets kv ttl

  pub record IsRead (kv : KeyValue Bytes) (l : Lease c) : Type 0 where
    pub key : String
    pub key_eq : kv.key ≡ some key
    pub subnets : Subnets
    pub subnets_eq : extract_ip_and_subnet c client key ≡ ok subnets
    pub attrs : LeaseAttrs c
    pub attrs_eq : client.from_slice kv.value ≡ some attrs
    pub expiration : ℕ
    pub lease_eq : lease_at subnets attrs expiration ≡ l

  kv_to_ip_lease-IsRead :
      (kv : KeyValue Bytes) (ttl : ℤ) (w : World) {l : Lease c} {w' : World}
      → kv_to_ip_lease c client kv ttl w ≡ (ok l, w')
      → IsRead kv l
  unfolding kv_to_ip_lease
  kv_to_ip_lease-IsRead kv ttl w h =
      let (key, w1, keyed, h1) = >>=-eq-ok (lift (ok_or kv.key external)) (with_key kv ttl) w h in
      let (sn, w2, extracted, h2) =
        >>=-eq-ok (lift (extract_ip_and_subnet c client key)) (with_subnets kv ttl) w1 h1 in
      let decode = ok_or (client.from_slice kv.value) external in
      let (attrs, w3, decoded, h3) = >>=-eq-ok (lift decode) (with_attrs ttl sn) w2 h2 in
      let (exp, w4, timed, h4) =
        >>=-eq-ok (time_in c client (as_u64 ttl)) (λ exp. pure (lease_at sn attrs exp)) w3 h3 in
      record {
        key = key;
        key_eq = ok_or-ok kv.key external (lift-ok (ok_or kv.key external) w keyed).0;
        subnets = sn;
        subnets_eq = (lift-ok (extract_ip_and_subnet c client key) w1 extracted).0;
        attrs = attrs;
        attrs_eq = ok_or-ok (client.from_slice kv.value) external (lift-ok decode w2 decoded).0;
        expiration = exp;
        lease_eq = pure-ok (lease_at sn attrs exp) w4 h4;
      }

  abbrev found : GetResponse Bytes → Lease c → Io World (Option (Lease c × ℕ))
  found resp l = pure (some (l, or_zero resp.revision))

  abbrev with_ttl : GetResponse Bytes → KeyValue Bytes → ℤ → Io World (Option (Lease c × ℕ))
  with_ttl resp kv ttl = kv_to_ip_lease c client kv ttl >>= found resp

  found_subnet-one :
      (resp : GetResponse Bytes) (kv : KeyValue Bytes) (w : World)
      → resp.kvs ≡ kv ∷ []
      → found_subnet c client resp w
        ≡ (call (client.lease_time_to_live kv.lease) >>= with_ttl resp kv) w
  unfolding found_subnet
  found_subnet-one resp kv w e = rw e refl

  -- A response with one entry is read as its lease.
  pub found_subnet-IsRead :
      (resp : GetResponse Bytes) (kv : KeyValue Bytes) (w : World) {r : Option (Lease c × ℕ)}
      {w' : World}
      → resp.kvs ≡ kv ∷ []
      → found_subnet c client resp w ≡ (ok r, w')
      → (l : Lease c) × (r ≡ some (l, or_zero resp.revision)) × IsRead kv l
  found_subnet-IsRead resp kv w e h =
      let h' = sym (found_subnet-one resp kv w e) ∙ h in
      let (ttl, w1, asked, h1) =
        >>=-eq-ok (call (client.lease_time_to_live kv.lease)) (with_ttl resp kv) w h' in
      let (l, w2, read, h2) = >>=-eq-ok (kv_to_ip_lease c client kv ttl) (found resp) w1 h1 in
      (
        l,
        sym (pure-ok (some (l, or_zero resp.revision)) w2 h2),
        kv_to_ip_lease-IsRead kv ttl w1 read,
      )
