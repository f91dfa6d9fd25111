-- ===== src/Etcd/Key/Reference.antt =====
-- A concrete reader of keys, with a parser of all networks.
use flannel_ng.Base.{refl, false}
use flannel_ng.Crates.Reference.{reference}
use flannel_ng.Etcd.{Client}
use flannel_ng.Etcd.Reference.{store_client}
use flannel_ng.Etcd.Key.RoundTrip.{KeyLaws}
use flannel_ng.Env.Decimal.{parse_block, block_text}

abbrev pub key_client : Client reference
key_client = record store_client { parse_ipv4 = parse_block }

pub key_client_laws : KeyLaws reference key_client
key_client_laws = record {
  decimal = λ n. false;
  captures_lem = λ p s. refl;
  parse-show = block_text.parse-show;
}
