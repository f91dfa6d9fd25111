-- ===== src/Vxlan/Device.antt =====
-- `VxlanDevice` of src/backend/vxlan/device.rs, its neighbours, and the MAC address of
-- src/mac/mac.rs, whose random bytes are a parameter.
pub mod Address
use flannel_ng.Base.{ℕ, String, Bool, some, List, [], ◌∷◌, bit_and, bit_or}
use flannel_ng.Base.Io.{Io, pure, call, ◌>>=◌}
use flannel_ng.Base.Word.{sub_u32}
use flannel_ng.Crates.{Crates}
use flannel_ng.Netlink.{
  IpAddr, v4, Mac, vxlan, Link, Neigh, Netlink, nud_permanent, rtn_unicast, af_bridge, ntf_self,
}
use flannel_ng.Vxlan.Links.{ensure_vxlan_link}

pub record VxlanDeviceAttrs : Type 0 where
  pub vni : ℕ
  pub name : String
  pub mtu : ℕ
  pub vtep_index : ℕ
  pub vtep_addr : IpAddr
  pub vtep_port : ℕ
  pub gbp : Bool

pub record Neighbor : Type 0 where
  pub ip : ℕ
  pub mac : Mac

pub record VxlanDevice : Type 0 where
  pub link : Link
  pub direct_routing : Bool

-- The address is local and names one device.
unfoldable pub local_byte : ℕ → ℕ
local_byte b = bit_or (bit_and b 0xfe) 0x02

unfoldable pub new_hardware_addr : List ℕ → Mac
unfolding local_byte
new_hardware_addr [] = []
new_hardware_addr (b ∷ bytes) = local_byte b ∷ bytes

module _ (c : Crates) (net : Netlink c) where
  open net use {Kernel}

  -- The link that `VxlanDevice::new` asks for.
  unfoldable pub wanted_link : VxlanDeviceAttrs → Mac → Link
  wanted_link attrs mac_addr = record {
    index = net.default_index;
    name = attrs.name;
    mtu = sub_u32 attrs.mtu 50;
    hardware_addr = some mac_addr;
    link_kind = vxlan (record net.default_vxlan {
      vxlan_id = attrs.vni;
      vtep_dev_index = attrs.vtep_index;
      src_addr = some attrs.vtep_addr;
      gbp = attrs.gbp;
    });
  }

  unfoldable pub new : VxlanDeviceAttrs → Bool → List ℕ → Io Kernel VxlanDevice
  unfolding ◌>>=◌ wanted_link ensure_vxlan_link
  new attrs direct_routing random = do
    vxlan_link ← ensure_vxlan_link c net (wanted_link attrs (new_hardware_addr random))
    pure (record { link = vxlan_link; direct_routing = direct_routing })

  unfoldable pub arp_entry : VxlanDevice → Neighbor → Neigh
  arp_entry device n = record net.default_neigh {
    link_index = net.as_index device.link;
    state = nud_permanent;
    type_ = rtn_unicast;
    ip = v4 n.ip;
    hardware_addr = n.mac;
  }

  unfoldable pub fdb_entry : VxlanDevice → Neighbor → Neigh
  fdb_entry device n = record net.default_neigh {
    link_index = net.as_index device.link;
    family = af_bridge;
    state = nud_permanent;
    flags = ntf_self;
    ip = v4 n.ip;
    hardware_addr = n.mac;
  }

  unfoldable pub add_arp : VxlanDevice → Neighbor → Io Kernel (Unit {0})
  unfolding arp_entry
  add_arp device n = call (net.neigh_set (arp_entry device n))

  unfoldable pub add_fdb : VxlanDevice → Neighbor → Io Kernel (Unit {0})
  unfolding fdb_entry
  add_fdb device n = call (net.neigh_set (fdb_entry device n))
