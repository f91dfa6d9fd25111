-- ===== src/Vxlan/Setup/Published.antt =====
-- What one node publishes of its VXLAN device, and what another one makes of it.
use text.Mathlib.TextPositions.{eq_refl}
use flannel_ng.Base.{ℕ, ◌≡◌, refl, sym, ap, ◌∙◌, Option, none, some}
use flannel_ng.Base.Outcome.{ok}
use flannel_ng.Crates.{Crates}
use flannel_ng.Lease.{LeaseAttrs, LeaseWatchEvent, EventType}
use flannel_ng.Netlink.{Mac, Netlink}
use flannel_ng.Vxlan.{Formats, VxlanLeaseAttrs}
use flannel_ng.Vxlan.Device.{VxlanDevice}
use flannel_ng.Vxlan.Network.{handle, is_vxlan}
use flannel_ng.Vxlan.Network.Reachable.{NeighLaws, IsReachable, IsPeer, handle-IsReachable}
use flannel_ng.Vxlan.Setup.{lease_attrs, attrs_with}

-- What is written is read back.
pub record FormatLaws (c : Crates) (formats : Formats c) : Type 0 where
  pub to-from :
      (a : VxlanLeaseAttrs) (v : c.Value)
      → formats.from_lease_attrs a ≡ some v
      → formats.to_lease_attrs v ≡ some a
  pub parse-show : (m : Mac) → formats.parse_mac (formats.show_mac m) ≡ some m

abbrev attrs_of : {c : Crates} → c.Value → ℕ → LeaseAttrs c
attrs_of v iface_addr = record {
  public_ip = iface_addr;
  public_ipv6 = none;
  backend_type = some "vxlan";
  backend_data = some v;
}

module _ (c : Crates) (net : Netlink c) (formats : Formats c) (back : FormatLaws c formats) where
  attrs_with-ok :
      (iface_addr : ℕ) (o : Option (c.Value)) {attrs : LeaseAttrs c}
      → attrs_with c net formats iface_addr o ≡ ok attrs
      → (v : c.Value) × (o ≡ some v)
        × (attrs.backend_type ≡ some "vxlan")
        × (attrs.backend_data ≡ some v)
        × (attrs.public_ip ≡ iface_addr)
  attrs_with-ok iface_addr none h = absurd (cc h)
  attrs_with-ok iface_addr (some v) {attrs} h =
      let e : attrs_of v iface_addr ≡ attrs = cc h in
      (
        v,
        refl,
        ap (λ (a : LeaseAttrs c). a.backend_type) (sym e),
        ap (λ (a : LeaseAttrs c). a.backend_data) (sym e),
        ap (λ (a : LeaseAttrs c). a.public_ip) (sym e),
      )

  lease_attrs-IsPeer :
      (iface_addr vni : ℕ) (mac : Mac) (event : LeaseWatchEvent c)
      → event.event_type ≡ EventType.put
      → lease_attrs c net formats iface_addr vni mac ≡ ok event.lease.attrs
      → IsPeer c formats event mac
  unfolding lease_attrs
  lease_attrs-IsPeer iface_addr vni mac event e h =
      let peer : VxlanLeaseAttrs = record { vni = vni; vtep_mac = formats.show_mac mac } in
      let (v, written, kind, data_eq, ip) =
        attrs_with-ok iface_addr (formats.from_lease_attrs peer) h in
      record {
        put_event = e;
        kind = ap is_vxlan kind ∙ eq_refl "vxlan";
        data_value = v;
        has_data = data_eq;
        peer = peer;
        parsed = back.to-from peer v written;
        mac_parsed = back.parse-show mac;
      }

module _ (c : Crates) (net : Netlink c) (laws : NeighLaws c net) (formats : Formats c)
    (back : FormatLaws c formats) where
  -- When the VXLAN back end of a node has handled, without an error, the put of a lease whose
  -- attributes are those that another node makes for its own device, the kernel knows that device's
  -- MAC address as the one of the gateway of the lease's subnet, where to find this address, and a
  -- route to the subnet by way of the gateway.
  pub published-IsReachable :
      (iface_addr vni : ℕ) (mac : Mac) (device : VxlanDevice) (event : LeaseWatchEvent c)
      (k : net.Kernel) {u : Unit {0}} {k' : net.Kernel}
      → event.event_type ≡ EventType.put
      → lease_attrs c net formats iface_addr vni mac ≡ ok event.lease.attrs
      → handle c net formats device event k ≡ (ok u, k')
      → IsReachable c net laws device event.lease mac k'
  published-IsReachable iface_addr vni mac device event k e h =
      handle-IsReachable c net laws formats device event mac k
        (lease_attrs-IsPeer c net formats back iface_addr vni mac event e h)
