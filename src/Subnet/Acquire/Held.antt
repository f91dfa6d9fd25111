-- ===== src/Subnet/Acquire/Held.antt =====
-- The network configuration that the registry holds, as `get_network_config` of src/etcd/registry.rs
-- reads it.
use flannel_ng.Base.{ℕ, ◌≡◌, sym, ap, ◌∙◌, subst, String, false, Option, some, [], ◌∷◌}
use flannel_ng.Base.Outcome.{ok, ok_or, ok_or-ok, external, some_inj}
use flannel_ng.Base.Io.{call, >>=-eq-ok, lift-ok, call-ok}
use flannel_ng.Crates.{Crates}
use flannel_ng.Etcd.{Client, KeyValue, GetResponse}
use flannel_ng.Etcd.Key.{push}
use flannel_ng.Etcd.Registry.{get_network_config, first_value}
use flannel_ng.Subnet.Config.{Config}
use flannel_ng.Subnet.Acquire.Within.{IsForNetwork}
use flannel_ng.Subnet.Allocate.Sound.{IsPick}
use flannel_ng.Crates.{NetworkLaws}

-- What the program relies on of etcd: a get of a key that has a value answers with this value alone,
-- and changes the value of no key.
pub record GetLaws (c : Crates) (client : Client c) : Type 0 where
  pub value : client.World → String → Option client.Bytes
  pub get-value :
      (k : String) (w : client.World) (v : client.Bytes) (resp : GetResponse client.Bytes)
      → value w k ≡ some v
      → (client.get k false w).0 ≡ some resp
      → (kv : KeyValue client.Bytes) × (resp.kvs ≡ kv ∷ []) × (kv.value ≡ v)
  pub get-same :
      (k k' : String) (w : client.World) → value ((client.get k false w).1) k' ≡ value w k'

module _ (c : Crates) (client : Client c) (etcd : GetLaws c client) (prefix : String)
    (from_str : String → Option (Config c)) (network : c.Ipv4Network) where
  open client use {World, Bytes}

  -- The registry holds a configuration for the network.
  pub record HoldsConfig (w : World) : Type 0 where
    pub bytes : Bytes
    pub text : String
    pub config : Config c
    pub held : etcd.value w (push prefix "config") ≡ some bytes
    pub decoded : client.to_str bytes ≡ some text
    pub parsed : from_str text ≡ some config
    pub for_network : config.network ≡ some network

  first_value-ok :
      (v : Bytes) (kv : KeyValue Bytes) (w : World) {text : String} {w' : World}
      → kv.value ≡ v
      → first_value c client (kv ∷ []) w ≡ (ok text, w')
      → (client.to_str v ≡ some text) × (w ≡ w')
  unfolding first_value
  first_value-ok v kv w {text} e h =
      let (given, same) = lift-ok (ok_or (client.to_str kv.value) external) w h in
      (
        subst (λ v. client.to_str v ≡ some text) e
            (ok_or-ok (client.to_str kv.value) external given),
        same,
      )

  -- What is read is the text that the registry holds, and it holds the configuration after the
  -- reading.
  pub get_network_config-HoldsConfig :
      (w : World) {text : String} {w' : World} (h : HoldsConfig w)
      → get_network_config c client prefix w ≡ (ok text, w')
      → (h.text ≡ text) × HoldsConfig w'
  unfolding get_network_config
  get_network_config-HoldsConfig w {text} {w'} h read =
      let key = push prefix "config" in
      let (resp, w1, answered, h1) =
        >>=-eq-ok (call (client.get key false)) (λ resp. first_value c client resp.kvs) w read in
      let (given, at) = call-ok (client.get key false) w answered in
      let (kv, sole, same_value) = etcd.get-value key w h.bytes resp h.held given in
      let (decoded, same) =
        first_value-ok h.bytes kv w1 same_value
          (subst (λ kvs. first_value c client kvs w1 ≡ (ok text, w')) sole h1) in
      (
        some_inj (sym h.decoded ∙ decoded),
        record {
          bytes = h.bytes;
          text = h.text;
          config = h.config;
          held =
              subst (λ w. etcd.value w key ≡ some h.bytes) (at ∙ same)
                (etcd.get-same key key w ∙ h.held);
          decoded = h.decoded;
          parsed = h.parsed;
          for_network = h.for_network;
        },
      )

module _ (c : Crates) (laws : NetworkLaws c) (client : Client c) (etcd : GetLaws c client)
    (prefix : String) (from_str : String → Option (Config c)) (pick : ℕ → ℕ)
    (in_range : IsPick pick) (network : c.Ipv4Network) where
  pub HoldsConfig-IsForNetwork :
      (w : client.World)
      → HoldsConfig c client etcd prefix from_str network w
      → IsForNetwork c laws client prefix from_str pick in_range network w
  HoldsConfig-IsForNetwork w h text v cfg read parsed =
      let (same, after) =
        get_network_config-HoldsConfig c client etcd prefix from_str network w h read in
      let e : h.config ≡ cfg = some_inj (sym h.parsed ∙ ap from_str same ∙ parsed) in
      ap (λ (cfg : Config c). cfg.network) (sym e) ∙ h.for_network
