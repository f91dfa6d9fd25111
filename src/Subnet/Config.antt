-- ===== src/Subnet/Config.antt =====
-- src/subnet/config.rs, and the check that completes a configuration (src/subnet/subnet.rs).
pub mod Check
use flannel_ng.Base.{ℕ, String, Bool, Option}
use flannel_ng.Base.Outcome.{Outcome, ok_or, network_undefined}
use flannel_ng.Crates.{Crates}

pub record Config (c : Crates) : Type 0 where
  pub enable_ipv4 : Bool
  pub enable_ipv6 : Bool
  pub network : Option (c.Ipv4Network)
  pub ipv6_network : Option (c.Ipv6Network)
  pub subnet_min : Option ℕ
  pub subnet_max : Option ℕ
  pub ipv6_subnet_min : Option ℕ
  pub ipv6_subnet_max : Option ℕ
  pub subnet_len : ℕ
  pub ipv6_subnet_len : ℕ
  pub backend_type : Option String
  pub backend : Option (c.Value)

module _ (c : Crates) where
  unfoldable pub get_flannel_network : Config c → Outcome (c.Ipv4Network)
  get_flannel_network config = ok_or config.network network_undefined
