-- ===== src/Vxlan.antt =====
-- src/backend/vxlan: the VXLAN back end, whose device, neighbours and routes are in the kernel.
-- What the program reads and writes as JSON or as the text of a MAC address is the parameter
-- `Formats`.
pub mod Links
pub mod Device
pub mod Network
pub mod Setup
mod Tests
use flannel_ng.Base.{ℕ, String, Bool, Option}
use flannel_ng.Crates.{Crates}
use flannel_ng.Netlink.{Mac}

pub record VxlanConfig : Type 0 where
  pub vxlan_type : String
  pub vni : ℕ
  pub port : ℕ
  pub gbp : Bool
  pub direct_routing : Bool
  pub mtu : Option ℕ

pub record VxlanLeaseAttrs : Type 0 where
  pub vni : ℕ
  pub vtep_mac : String

pub record Formats (c : Crates) : Type 0 where
  -- `serde_json`, from and to a value
  pub to_config : c.Value → Option VxlanConfig
  pub to_lease_attrs : c.Value → Option VxlanLeaseAttrs
  pub from_lease_attrs : VxlanLeaseAttrs → Option (c.Value)
  -- `Display` and `FromStr` of `MacAddr6`, and of a number
  pub show_mac : Mac → String
  pub parse_mac : String → Option Mac
  pub show_number : ℕ → String
