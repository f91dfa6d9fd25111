-- ===== src/Etcd/Stored/Created.antt =====
-- A subnet that `create_subnet` of src/etcd/registry.rs has written is read back by `get_subnet`.
use flannel_ng.Base.{ℕ, ◌≡◌, sym, ap, ◌∙◌, String, false, Option, none, some}
use flannel_ng.Base.Outcome.{ok, ok_inj}
use flannel_ng.Base.Io.{call, >>=-eq-ok, call-ok}
use flannel_ng.Crates.{Crates, NetworkLaws}
use flannel_ng.Lease.{Lease, LeaseAttrs}
use flannel_ng.Etcd.{Client, KeyValue}
use flannel_ng.Etcd.Key.{subnet_key, extract_ip_and_subnet}
use flannel_ng.Etcd.Key.RoundTrip.{KeyLaws, extract_ip_and_subnet-subnet_key}
use flannel_ng.Etcd.Registry.{found_subnet, get_subnet, or_zero}
use flannel_ng.Etcd.Create.{create_subnet}
use flannel_ng.Etcd.Stored.{StoreLaws, create_subnet-entry}
use flannel_ng.Etcd.Stored.Read.{found_subnet-IsRead}

module _ (c : Crates) (nets : NetworkLaws c) (client : Client c) (keys : KeyLaws c client)
    (store : StoreLaws c client) (prefix : String) where
  open client use {World}

  -- When `create_subnet` has succeeded, and until the entry changes, what `get_subnet` returns
  -- without an error is a lease with the address, the prefix length and the attributes of the
  -- subnet that was created, and never that there is none.
  pub get_subnet-create_subnet :
      (sn : c.Ipv4Network) (attrs : LeaseAttrs c) (ttl : ℕ) (w v : World) {t : ℕ} {w' : World}
      {r : Option (Lease c × ℕ)} {v' : World}
      → create_subnet c client prefix sn attrs ttl w ≡ (ok t, w')
      → store.entry v (subnet_key c prefix sn) ≡ store.entry w' (subnet_key c prefix sn)
      → get_subnet c client prefix sn v ≡ (ok r, v')
      → (l : Lease c) × (revision : ℕ) × (r ≡ some (l, revision))
        × (c.ip l.subnet ≡ c.ip sn)
        × (c.prefix l.subnet ≡ c.prefix sn)
        × (l.attrs ≡ attrs)
  unfolding get_subnet
  get_subnet-create_subnet sn attrs ttl w v created still got =
      let key = subnet_key c prefix sn in
      let (value, id, encoded, put) =
        create_subnet-entry c client store prefix sn attrs ttl w created in
      let (resp, v1, asked, h1) =
        >>=-eq-ok (call (client.get key false)) (found_subnet c client) v got in
      let (answered, at) = call-ok (client.get key false) v asked in
      let kv : KeyValue client.Bytes = record { key = some key; value = value; lease = id } in
      let one = store.get-entry key v value id resp (still ∙ put) answered in
      let (l, found, read) = found_subnet-IsRead c client resp kv v1 one h1 in
      let (m, ip, len, extracted) = extract_ip_and_subnet-subnet_key c nets client keys prefix sn in
      let same_key : key ≡ read.key = cc read.key_eq in
      let same : (m, none) ≡ read.subnets =
        ok_inj (sym extracted ∙ ap (extract_ip_and_subnet c client) same_key ∙ read.subnets_eq) in
      let attrs_eq : read.attrs ≡ attrs =
        cc (read.attrs_eq, store.from_slice-to_vec attrs value encoded) in
      (
        l,
        or_zero resp.revision,
        found,
        ap (λ (l : Lease c). c.ip l.subnet) (sym read.lease_eq)
            ∙ ap (λ q. c.ip q.0) (sym same)
            ∙ ip,
        ap (λ (l : Lease c). c.prefix l.subnet) (sym read.lease_eq)
            ∙ ap (λ q. c.prefix q.0) (sym same)
            ∙ len,
        ap (λ (l : Lease c). l.attrs) (sym read.lease_eq) ∙ attrs_eq,
      )
