-- ===== src/Vxlan/Network/Reachable.antt =====
-- What the kernel knows after `VxlanNetwork::run` of src/backend/vxlan/vxlan_network.rs has handled
-- a put.
use flannel_ng.Base.{◌≡◌, ◌≢◌, sym, subst, ap, ◌∙◌, true, some}
use flannel_ng.Base.Outcome.{ok, ok_or, ok_or-ok, external}
use flannel_ng.Base.Io.{lift, call, ◌>>=◌, ◌>>◌, >>=-eq-ok, call-ok, lift-ok}
use flannel_ng.Crates.{Crates}
use flannel_ng.Lease.{Lease, LeaseWatchEvent, EventType}
use flannel_ng.Netlink.{Mac, Route, Neigh, Netlink, af_bridge}
use flannel_ng.Vxlan.{Formats, VxlanLeaseAttrs}
use flannel_ng.Vxlan.Device.{VxlanDevice, Neighbor, arp_entry, fdb_entry, add_arp, add_fdb}
use flannel_ng.Vxlan.Network.{is_vxlan, route_to, apply_kind, handle_data, handle_kind, handle}

-- What the program relies on of the kernel's neighbours and routes.
pub record NeighLaws (c : Crates) (net : Netlink c) : Type 1 where
  pub Knows : net.Kernel → Neigh → Type 0
  pub Routed : net.Kernel → Route c → Type 0
  pub set-Knows :
      (n : Neigh) (k : net.Kernel) (u : Unit {0})
      → (net.neigh_set n k).0 ≡ some u
      → Knows ((net.neigh_set n k).1) n
  -- an entry of another family stays
  pub set_keeps-Knows :
      (n m : Neigh) (k : net.Kernel)
      → m.family ≢ n.family
      → Knows k m
      → Knows ((net.neigh_set n k).1) m
  pub replace-Routed :
      (r : Route c) (k : net.Kernel) (u : Unit {0})
      → (net.route_replace r k).0 ≡ some u
      → Routed ((net.route_replace r k).1) r
  pub replace_keeps-Knows :
      (r : Route c) (m : Neigh) (k : net.Kernel) → Knows k m → Knows ((net.route_replace r k).1) m
  pub default_family : net.default_neigh.family ≢ af_bridge

module _ (c : Crates) (net : Netlink c) (laws : NeighLaws c net) (device : VxlanDevice) where
  open net use {Kernel}

  abbrev pub gateway : Lease c → Mac → Neighbor
  gateway lease mac = record { ip = c.ip lease.subnet; mac = mac }

  abbrev pub node : Lease c → Mac → Neighbor
  node lease mac = record { ip = lease.attrs.public_ip; mac = mac }

  -- The gateway of the subnet has the MAC address, which is found at the node's public address, and
  -- the subnet is routed to its gateway.
  pub record IsReachable (lease : Lease c) (mac : Mac) (k : Kernel) : Type 0 where
    pub arp : laws.Knows k (arp_entry c net device (gateway lease mac))
    pub fdb : laws.Knows k (fdb_entry c net device (node lease mac))
    pub routed : laws.Routed k (route_to c net device lease.subnet)

  families_differ :
      (n m : Neighbor) → (arp_entry c net device n).family ≢ (fdb_entry c net device m).family
  unfolding arp_entry fdb_entry
  families_differ n m = laws.default_family

  put-IsReachable :
      (lease : Lease c) (mac : Mac) (k : Kernel) {u : Unit {0}} {k' : Kernel}
      → apply_kind c net device EventType.put lease mac k ≡ (ok u, k')
      → IsReachable lease mac k'
  unfolding apply_kind ◌>>◌ add_arp add_fdb
  put-IsReachable lease mac k {u} h =
      let arp = arp_entry c net device (gateway lease mac) in
      let fdb = fdb_entry c net device (node lease mac) in
      let route = route_to c net device lease.subnet in
      let (u1, k1, first, h1) =
        >>=-eq-ok (call (net.neigh_set arp))
          (λ _. call (net.neigh_set fdb) >>= λ _. call (net.route_replace route)) k h in
      let (u2, k2, second, h2) =
        >>=-eq-ok (call (net.neigh_set fdb)) (λ _. call (net.route_replace route)) k1 h1 in
      let (done1, at1) = call-ok (net.neigh_set arp) k first in
      let (done2, at2) = call-ok (net.neigh_set fdb) k1 second in
      let (done3, at3) = call-ok (net.route_replace route) k2 h2 in
      let arp1 : laws.Knows k1 arp =
        subst (λ k. laws.Knows k arp) at1 (laws.set-Knows arp k u1 done1) in
      let arp2 : laws.Knows k2 arp =
        subst (λ k. laws.Knows k arp) at2
          (laws.set_keeps-Knows fdb arp k1 (families_differ (gateway lease mac) (node lease mac))
            arp1) in
      let fdb2 : laws.Knows k2 fdb =
        subst (λ k. laws.Knows k fdb) at2 (laws.set-Knows fdb k1 u2 done2) in
      record {
        arp = subst (λ k. laws.Knows k arp) at3 (laws.replace_keeps-Knows route arp k2 arp2);
        fdb = subst (λ k. laws.Knows k fdb) at3 (laws.replace_keeps-Knows route fdb k2 fdb2);
        routed = subst (λ k. laws.Routed k route) at3 (laws.replace-Routed route k2 u done3);
      }

module _ (c : Crates) (formats : Formats c) where
  -- A put of a lease whose data names the back end and a MAC address.
  pub record IsPeer (event : LeaseWatchEvent c) (mac : Mac) : Type 0 where
    pub put_event : event.event_type ≡ EventType.put
    pub kind : is_vxlan event.lease.attrs.backend_type ≡ true
    pub data_value : c.Value
    pub has_data : event.lease.attrs.backend_data ≡ some data_value
    pub peer : VxlanLeaseAttrs
    pub parsed : formats.to_lease_attrs data_value ≡ some peer
    pub mac_parsed : formats.parse_mac peer.vtep_mac ≡ some mac

module _ (c : Crates) (net : Netlink c) (laws : NeighLaws c net) (formats : Formats c) where
  open net use {Kernel}

  data-IsReachable :
      (device : VxlanDevice) (event : LeaseWatchEvent c) (mac : Mac) (k : Kernel) {u : Unit {0}}
      {k' : Kernel}
      → (p : IsPeer c formats event mac)
      → handle_data c net formats device event (some p.data_value) k ≡ (ok u, k')
      → IsReachable c net laws device event.lease mac k'
  unfolding handle_data
  data-IsReachable device event mac k {u} {k'} p h =
      let (peer, k1, read, h1) =
        >>=-eq-ok (lift (ok_or (formats.to_lease_attrs p.data_value) external))
          (λ a.
            lift (ok_or (formats.parse_mac a.vtep_mac) external)
            >>= apply_kind c net device event.event_type event.lease)
          k h in
      let (mac', k2, text, h2) =
        >>=-eq-ok (lift (ok_or (formats.parse_mac peer.vtep_mac) external))
          (apply_kind c net device event.event_type event.lease) k1 h1 in
      let (e1, at1) = lift-ok (ok_or (formats.to_lease_attrs p.data_value) external) k read in
      let (e2, at2) = lift-ok (ok_or (formats.parse_mac peer.vtep_mac) external) k1 text in
      let same_peer : peer ≡ p.peer =
        cc (ok_or-ok (formats.to_lease_attrs p.data_value) external e1, p.parsed) in
      let same_mac : mac' ≡ mac =
        cc (ok_or-ok (formats.parse_mac peer.vtep_mac) external e2, p.mac_parsed, same_peer) in
      let put_done : apply_kind c net device EventType.put event.lease mac' k2 ≡ (ok u, k') =
        ap (λ kind. apply_kind c net device kind event.lease mac' k2) (sym p.put_event) ∙ h2 in
      subst (λ m. IsReachable c net laws device event.lease m k') same_mac
        (put-IsReachable c net laws device event.lease mac' k2 put_done)

  -- When the VXLAN back end has handled the put of a peer without an error, the kernel knows the
  -- peer's MAC address as that of the gateway of its subnet, where to find this address, and a route
  -- to the subnet by way of the gateway.
  pub handle-IsReachable :
      (device : VxlanDevice) (event : LeaseWatchEvent c) (mac : Mac) (k : Kernel) {u : Unit {0}}
      {k' : Kernel}
      → IsPeer c formats event mac
      → handle c net formats device event k ≡ (ok u, k')
      → IsReachable c net laws device event.lease mac k'
  unfolding handle handle_kind
  handle-IsReachable device event mac k {u} {k'} p h = data-IsReachable device event mac k p (
      ap (λ d. handle_data c net formats device event d k) (sym p.has_data)
      ∙ ap (λ b. handle_kind c net formats b device event k) (sym p.kind)
      ∙ h)
