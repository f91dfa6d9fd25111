-- ===== src/Start/Command.antt =====
-- The command line of src/main.rs, which `clap` reads, and the `EtcdConfig` of src/etcd/registry.rs
-- that `main` makes of it.
use Prim.Native.Char.{code}
use Prim.Native.String.{◌++◌ as ◌<>◌}
use flannel_ng.Base.{ℕ, String, Bool, true, false, Option, List, [], ◌∷◌, ◌==◌}

-- `Args`
pub record Args : Type 0 where
  pub public_ip : String
  pub etcd_endpoints : String
  pub etcd_prefix : String
  pub etcd_keyfile : Option String
  pub etcd_certfile : Option String
  pub etcd_cafile : Option String
  pub kube_subnet_mgr : Bool
  pub iface : String
  pub iface_regex : String
  pub iface_can_reach : Option String
  pub iptables_resync : ℕ
  pub subnet_file : String
  pub net_config_path : String
  pub subnet_lease_renew_margin : ℕ
  pub ip_masq : Bool
  pub v : ℕ
  pub healthz_ip : String
  pub healthz_port : ℕ
  pub version : Bool

pub record EtcdConfig : Type 0 where
  pub endpoints : List String
  pub keyfile : String
  pub certfile : String
  pub ca_file : String
  pub prefix : String
  pub username : String
  pub password : String

-- A character before the first of the parts.
abbrev pub onto_first : String → List String → List String
onto_first ch [] = ch ∷ []
onto_first ch (part ∷ parts) = (ch <> part) ∷ parts

-- `split(',')`
unfoldable pub split_commas : String → List String
split_commas String.[] = "" ∷ []
split_commas (String.◌∷◌ ch s) =
    let rest = split_commas s in
    elim (code ch == 44) [ true ↦ "" ∷ rest | false ↦ onto_first (String.◌∷◌ ch "") rest ]

unfoldable pub etcd_config : Args → EtcdConfig
unfolding split_commas
etcd_config args = record {
  endpoints = split_commas args.etcd_endpoints;
  keyfile = "";
  certfile = "";
  ca_file = "";
  prefix = args.etcd_prefix;
  username = "";
  password = "";
}
