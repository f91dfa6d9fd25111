-- ===== src/Vxlan/Setup.antt =====
-- `register_network` of src/backend/vxlan/vxlan.rs: the configuration's defaults, the device, the
-- lease and the device's address. Its world is that of etcd and the kernel.
pub mod Published
use Prim.Native.String.{◌++◌ as ◌<>◌}
use flannel_ng.Base.{ℕ, String, Bool, true, false, Option, none, some, List, ◌==◌, if◌then◌else◌}
use flannel_ng.Base.Outcome.{
  Outcome, ok, err, unwrap, ok_or, external, backend_undefined, invalid_prefix,
}
use flannel_ng.Base.Io.{Io, pure, lift, call, on_left, on_right, ◌>>=◌, ◌>>◌}
use flannel_ng.Crates.{Crates}
use flannel_ng.Lease.{Lease, LeaseAttrs}
use flannel_ng.Etcd.{Client}
use flannel_ng.Subnet.Config.{Config, get_flannel_network}
use flannel_ng.Subnet.Acquire.{acquire_lease}
use flannel_ng.Netlink.{v4, Mac, Netlink}
use flannel_ng.Iface.{ExternalInterface, ensure_v4_addr_on_link}
use flannel_ng.Vxlan.{VxlanConfig, VxlanLeaseAttrs, Formats}
use flannel_ng.Vxlan.Device.{VxlanDevice, VxlanDeviceAttrs}
use flannel_ng.Vxlan.Device

abbrev pub or_else : Option ℕ → ℕ → Option ℕ
or_else none d = some d
or_else (some n) d = some n

-- The defaults, given the MTU of the interface.
unfoldable pub with_defaults : ℕ → VxlanConfig → VxlanConfig
with_defaults mtu config = record config {
  vni = if config.vni == 0 then 1 else config.vni;
  mtu = or_else config.mtu mtu;
  port = if config.port == 0 then 8472 else config.port;
}

-- The fields of `VxlanNetwork` that are values of the program.
pub record VxlanNetwork (c : Crates) : Type 0 where
  pub subnet_lease : Lease c
  pub ext_iface : ExternalInterface
  pub device : VxlanDevice
  pub mtu : ℕ

module _ (c : Crates) (net : Netlink c) (formats : Formats c) where
  open net use {Kernel}

  unfoldable pub device_attrs : ExternalInterface → VxlanConfig → ℕ → VxlanDeviceAttrs
  device_attrs ext_iface config mtu = record {
    vni = config.vni;
    name = "flannel." <> formats.show_number config.vni;
    mtu = mtu;
    vtep_index = ext_iface.iface.index;
    vtep_addr = v4 ext_iface.iface_addr;
    vtep_port = config.port;
    gbp = config.gbp;
  }

  abbrev pub attrs_with : ℕ → Option (c.Value) → Outcome (LeaseAttrs c)
  attrs_with iface_addr none = err external
  attrs_with iface_addr (some backend_data) = ok (record {
    public_ip = iface_addr;
    public_ipv6 = none;
    backend_type = some "vxlan";
    backend_data = some backend_data;
  })

  -- What the node tells the other ones of its device.
  unfoldable pub lease_attrs : ℕ → ℕ → Mac → Outcome (LeaseAttrs c)
  lease_attrs iface_addr vni mac =
      attrs_with iface_addr
        (formats.from_lease_attrs (record { vni = vni; vtep_mac = formats.show_mac mac }))

  unfoldable pub configure : VxlanDevice → c.Ipv4Network → c.Ipv4Network → Io Kernel (Unit {0})
  unfolding ◌>>◌ ensure_v4_addr_on_link
  configure device ipa flannel_net = do
    ensure_v4_addr_on_link c net ipa flannel_net (net.as_index device.link)
    call (net.link_set_up (net.as_index device.link))

module _ (c : Crates) (net : Netlink c) (formats : Formats c) (client : Client c) (prefix : String)
    (from_str : String → Option (Config c)) (pick : ℕ → ℕ) where
  abbrev pub Worlds : Type 0
  Worlds = client.World × net.Kernel

  -- The end of `register_network`, with the lease: the device gets its address.
  unfoldable pub finish :
      ExternalInterface → Config c → VxlanDevice → ℕ → Lease c → Io Worlds (VxlanNetwork c)
  unfolding ◌>>=◌ ◌>>◌ configure get_flannel_network
  finish ext_iface config device mtu lease = do
    flannel_net ← lift (get_flannel_network c config)
    host ← lift (ok_or (c.new (c.ip lease.subnet) 32) invalid_prefix)
    on_right (configure c net formats device host flannel_net)
    pure (record { subnet_lease = lease; ext_iface = ext_iface; device = device; mtu = mtu })

  -- From the device on.
  unfoldable pub attach :
      ExternalInterface → Config c → ℕ → ℕ → VxlanDevice → Io Worlds (VxlanNetwork c)
  unfolding ◌>>=◌ lease_attrs acquire_lease finish
  attach ext_iface config vni mtu device = do
    mac ← lift (unwrap device.link.hardware_addr)
    attrs ← lift (lease_attrs c net formats ext_iface.iface_addr vni mac)
    lease ← on_left (acquire_lease c client prefix from_str pick attrs)
    finish ext_iface config device mtu lease

  -- `register_network`, given the random bytes of the device's address.
  unfoldable pub register_network :
      ExternalInterface → Config c → List ℕ → Io Worlds (VxlanNetwork c)
  unfolding ◌>>=◌ with_defaults device_attrs Device.new attach
  register_network ext_iface config random = do
    backend ← lift (ok_or config.backend backend_undefined)
    read ← lift (ok_or (formats.to_config backend) external)
    let vxlan_config = with_defaults ext_iface.iface.mtu read
    mtu ← lift (unwrap vxlan_config.mtu)
    device ← on_right (
        Device.new c net (device_attrs c net formats ext_iface vxlan_config mtu)
          vxlan_config.direct_routing random)
    attach ext_iface config vxlan_config.vni mtu device
