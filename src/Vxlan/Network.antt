-- ===== src/Vxlan/Network.antt =====
-- The handling of lease events by `VxlanNetwork::run` of src/backend/vxlan/vxlan_network.rs.
pub mod Reachable
use flannel_ng.Base.{
  ℕ, String, Bool, true, false, Option, none, some, List, [], ◌∷◌, bit_or, str_eq,
}
use flannel_ng.Base.Outcome.{ok_or, external}
use flannel_ng.Base.Io.{Io, pure, lift, call, ◌>>=◌, ◌>>◌}
use flannel_ng.Crates.{Crates}
use flannel_ng.Lease.{Lease, LeaseWatchEvent, EventType}
use flannel_ng.Netlink.{Mac, Route, Netlink, onlink, scope_universe}
use flannel_ng.Vxlan.{Formats, VxlanLeaseAttrs}
use flannel_ng.Vxlan.Device.{VxlanDevice, Neighbor, add_arp, add_fdb}

-- `attrs.backend_type.is_none() || attrs.backend_type.as_ref().unwrap() != "vxlan"`, negated.
abbrev pub is_vxlan : Option String → Bool
is_vxlan none = false
is_vxlan (some kind) = str_eq kind "vxlan"

module _ (c : Crates) (net : Netlink c) where
  open net use {Kernel}

  unfoldable pub route_to : VxlanDevice → c.Ipv4Network → Route c
  route_to device sn = record net.default_route {
    link_index = net.as_index device.link;
    scope = scope_universe;
    dst = some sn;
    gw = some (c.ip sn);
    flags = bit_or net.default_route.flags onlink;
  }

  unfoldable pub apply_kind : VxlanDevice → EventType → Lease c → Mac → Io Kernel (Unit {0})
  unfolding ◌>>=◌ ◌>>◌ add_arp add_fdb route_to
  apply_kind device EventType.put lease vtep_mac = do
    add_arp c net device (record { ip = c.ip lease.subnet; mac = vtep_mac })
    add_fdb c net device (record { ip = lease.attrs.public_ip; mac = vtep_mac })
    call (net.route_replace (route_to device lease.subnet))
  apply_kind device EventType.delete lease vtep_mac = pure tt

module _ (c : Crates) (net : Netlink c) (formats : Formats c) where
  open net use {Kernel}

  -- An event of a lease with the back end's data, if there is any.
  unfoldable pub handle_data :
      VxlanDevice → LeaseWatchEvent c → Option (c.Value) → Io Kernel (Unit {0})
  unfolding ◌>>=◌ apply_kind
  handle_data device e none = pure tt
  handle_data device e (some backend_data) = do
    vxlan_attrs ← lift (ok_or (formats.to_lease_attrs backend_data) external)
    vtep_mac ← lift (ok_or (formats.parse_mac vxlan_attrs.vtep_mac) external)
    apply_kind c net device e.event_type e.lease vtep_mac

  unfoldable pub handle_kind : Bool → VxlanDevice → LeaseWatchEvent c → Io Kernel (Unit {0})
  unfolding handle_data
  handle_kind true device e = handle_data device e e.lease.attrs.backend_data
  handle_kind false device e = pure tt

  unfoldable pub handle : VxlanDevice → LeaseWatchEvent c → Io Kernel (Unit {0})
  unfolding handle_kind
  handle device e = handle_kind (is_vxlan e.lease.attrs.backend_type) device e

  -- The loop, over all the events that it receives.
  unfoldable pub run : VxlanDevice → List (LeaseWatchEvent c) → Io Kernel (Unit {0})
  unfolding ◌>>=◌ ◌>>◌ handle
  run device [] = pure tt
  run device (e ∷ events) = do handle device e; run device events
