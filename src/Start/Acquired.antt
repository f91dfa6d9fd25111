-- ===== src/Start/Acquired.antt =====
-- Where the lease of a back end comes from that src/main.rs has registered.
use flannel_ng.Base.{ℕ, ◌≡◌, ◌∙◌, sym, subst, ap, String, Option, List}
use flannel_ng.Base.Outcome.{ok, ok_or, unwrap, external, backend_undefined, invalid_prefix}
use flannel_ng.Base.Io.{
  Io, pure, lift, call, on_left, on_right, ◌>>=◌, ◌>>◌, >>=-eq-ok, on_left-ok, on_right-ok,
  on_right_keeps, pure-ok, lift-ok,
}
use flannel_ng.Crates.{Crates}
use flannel_ng.Lease.{Lease, LeaseAttrs}
use flannel_ng.Etcd.{Client}
use flannel_ng.Netlink.{Netlink, Mac}
use flannel_ng.Iface.{ExternalInterface}
use flannel_ng.Subnet.Config.{Config, get_flannel_network}
use flannel_ng.Subnet.Acquire.{acquire_lease}
use flannel_ng.Vxlan.{Formats, VxlanConfig}
use flannel_ng.Vxlan.Device.{VxlanDevice}
use flannel_ng.Vxlan.Device
use flannel_ng.Vxlan.Setup.{
  VxlanNetwork, with_defaults, device_attrs, lease_attrs, configure, finish, attach,
}
use flannel_ng.Vxlan
use flannel_ng.Udp.Setup.{UdpNetwork, Devices, udp_attrs, init_tun}
use flannel_ng.Udp.Port.{get_port_from_config}
use flannel_ng.Udp
use flannel_ng.HostGw.Setup.{RouterNetwork, gateway_attrs}
use flannel_ng.HostGw
use flannel_ng.Start.{
  Backend, vxlan_backend, udp_backend, host_gw_backend, Network, vxlan_network, udp_network,
  router_network, lease, register,
}

module _ (c : Crates) (net : Netlink c) (formats : Formats c) (devices : Devices c net)
    (client : Client c) (prefix : String) (from_str : String → Option (Config c)) (pick : ℕ → ℕ)
    (random : List ℕ) where
  abbrev Worlds : Type 0
  Worlds = client.World × net.Kernel

  abbrev acquire : LeaseAttrs c → Io client.World (Lease c)
  acquire attrs = acquire_lease c client prefix from_str pick attrs

  -- The lease is one that `acquire_lease` has returned, from the state on.
  abbrev pub IsAcquired : client.World → Lease c → Type 0
  IsAcquired w l =
      (attrs : LeaseAttrs c) × (w' : client.World) × (acquire_lease c client prefix from_str pick
          attrs w
        ≡ (ok l, w'))

  on_left-IsAcquired :
      (attrs : LeaseAttrs c) (v : Worlds) {l : Lease c} {v' : Worlds}
      → on_left (acquire attrs) v ≡ (ok l, v')
      → IsAcquired v.0 l
  on_left-IsAcquired attrs v got =
      let (w', acquired) = on_left-ok (acquire attrs) v got in (attrs, w', acquired)

  udp_new-lease :
      (ext_iface : ExternalInterface) (port : ℕ) (nw : c.Ipv4Network) (l : Lease c) (k : net.Kernel)
      {n : UdpNetwork c} {k' : net.Kernel}
      → Udp.Setup.new c net devices ext_iface port nw l k ≡ (ok n, k')
      → l ≡ n.subnet_lease
  unfolding Udp.Setup.new ◌>>◌
  udp_new-lease ext_iface port nw l k h =
      let made : UdpNetwork c = record {
        ext_iface = ext_iface;
        subnet_lease = l;
        port = port;
        tun_net = nw;
      } in
      let (u, k1, opened, h1) =
        >>=-eq-ok (init_tun c net devices made)
          (λ _. call (devices.bind ext_iface.iface_addr port) >>= λ _. pure made) k h in
      let (u', k2, bound, h2) =
        >>=-eq-ok (call (devices.bind ext_iface.iface_addr port)) (λ _. pure made) k1 h1 in
      ap (λ (n : UdpNetwork c). n.subnet_lease) (pure-ok made k2 h2)

  udp-IsAcquired :
      (ext_iface : ExternalInterface) (config : Config c) (w : Worlds) {n : UdpNetwork c}
      {w' : Worlds}
      → Udp.Setup.register_network c net devices client prefix from_str pick ext_iface config w
        ≡ (ok n, w')
      → IsAcquired w.0 n.subnet_lease
  unfolding Udp.Setup.register_network
  udp-IsAcquired ext_iface config w h =
      let port = get_port_from_config c config in
      let opened = λ (l : Lease c) (nw : c.Ipv4Network).
        on_right (Udp.Setup.new c net devices ext_iface port nw l) in
      let sized = λ (l : Lease c) (f : c.Ipv4Network).
        lift (ok_or (c.new (c.ip l.subnet) (c.prefix f)) invalid_prefix) >>= opened l in
      let (l, w1, got, h1) =
        >>=-eq-ok (on_left (acquire (udp_attrs c ext_iface)))
          (λ l. lift (get_flannel_network c config) >>= sized l) w h in
      let (f, w2, given, h2) = >>=-eq-ok (lift (get_flannel_network c config)) (sized l) w1 h1 in
      let (nw, w3, made, h3) =
        >>=-eq-ok (lift (ok_or (c.new (c.ip l.subnet) (c.prefix f)) invalid_prefix)) (opened l) w2
          h2 in
      let (k', done) = on_right-ok (Udp.Setup.new c net devices ext_iface port nw l) w3 h3 in
      subst (IsAcquired w.0) (udp_new-lease ext_iface port nw l (w3.1) done)
        (on_left-IsAcquired (udp_attrs c ext_iface) w got)

  abbrev router_with : ExternalInterface → Lease c → RouterNetwork c
  router_with ext_iface l = record {
    subnet_lease = l;
    ext_iface = ext_iface;
    backend_type = "host-gw";
    mtu = ext_iface.iface.mtu;
    link_index = ext_iface.iface.index;
  }

  router-IsAcquired :
      (ext_iface : ExternalInterface) (w : client.World) {n : RouterNetwork c} {w' : client.World}
      → HostGw.Setup.register_network c client prefix from_str pick ext_iface w ≡ (ok n, w')
      → IsAcquired w n.subnet_lease
  unfolding HostGw.Setup.register_network
  router-IsAcquired ext_iface w h =
      let made : Lease c → RouterNetwork c = router_with ext_iface in
      let (a, w1, given, h1) =
        >>=-eq-ok (lift (unwrap ext_iface.ext_addr))
          (λ a. acquire (gateway_attrs c a) >>= λ l. pure (made l)) w h in
      let (l, w2, got, h2) = >>=-eq-ok (acquire (gateway_attrs c a)) (λ l. pure (made l)) w1 h1 in
      let (there, at) = lift-ok (unwrap ext_iface.ext_addr) w given in
      subst (IsAcquired w) (ap (λ (n : RouterNetwork c). n.subnet_lease) (pure-ok (made l) w2 h2))
        (gateway_attrs c a, w2, ap (acquire (gateway_attrs c a)) at ∙ got)

  finish-lease :
      (ext_iface : ExternalInterface) (config : Config c) (device : VxlanDevice) (mtu : ℕ)
      (l : Lease c) (w : Worlds) {n : VxlanNetwork c} {w' : Worlds}
      → finish c net formats client prefix from_str pick ext_iface config device mtu l w
        ≡ (ok n, w')
      → l ≡ n.subnet_lease
  unfolding finish ◌>>◌
  finish-lease ext_iface config device mtu l w h =
      let made : VxlanNetwork c = record {
        subnet_lease = l;
        ext_iface = ext_iface;
        device = device;
        mtu = mtu;
      } in
      let set_up = λ (f : c.Ipv4Network) (host : c.Ipv4Network).
        on_right {V = client.World} (configure c net formats device host f) in
      let (f, w1, given, h1) =
        >>=-eq-ok (lift (get_flannel_network c config))
          (λ f. lift (ok_or (c.new (c.ip l.subnet) 32) invalid_prefix) >>= λ host.
            set_up f host >>= λ _. pure made)
          w h in
      let (host, w2, sized, h2) =
        >>=-eq-ok (lift (ok_or (c.new (c.ip l.subnet) 32) invalid_prefix))
          (λ host. set_up f host >>= λ _. pure made) w1 h1 in
      let (u, w3, done, h3) = >>=-eq-ok (set_up f host) (λ _. pure made) w2 h2 in
      ap (λ (n : VxlanNetwork c). n.subnet_lease) (pure-ok made w3 h3)

  attach-IsAcquired :
      (ext_iface : ExternalInterface) (config : Config c) (vni mtu : ℕ) (device : VxlanDevice)
      (w : Worlds) {n : VxlanNetwork c} {w' : Worlds}
      → attach c net formats client prefix from_str pick ext_iface config vni mtu device w
        ≡ (ok n, w')
      → IsAcquired w.0 n.subnet_lease
  unfolding attach
  attach-IsAcquired ext_iface config vni mtu device w {n} h =
      let published = λ (mac : Mac). lease_attrs c net formats ext_iface.iface_addr vni mac in
      let last = finish c net formats client prefix from_str pick ext_iface config device mtu in
      let (mac, w1, given, h1) =
        >>=-eq-ok (lift (unwrap device.link.hardware_addr))
          (λ mac. lift (published mac) >>= λ attrs. on_left (acquire attrs) >>= last) w h in
      let (attrs, w2, told, h2) =
        >>=-eq-ok (lift (published mac)) (λ attrs. on_left (acquire attrs) >>= last) w1 h1 in
      let (l, w3, got, h3) = >>=-eq-ok (on_left (acquire attrs)) last w2 h2 in
      let (there, at) = lift-ok (unwrap device.link.hardware_addr) w given in
      let (ready, at1) = lift-ok (published mac) w1 told in
      subst (λ v. IsAcquired v.0 n.subnet_lease) (sym (at ∙ at1))
        (subst (IsAcquired w2.0) (finish-lease ext_iface config device mtu l w3 h3)
          (on_left-IsAcquired attrs w2 got))

  vxlan-IsAcquired :
      (ext_iface : ExternalInterface) (config : Config c) (w : Worlds) {n : VxlanNetwork c}
      {w' : Worlds}
      → Vxlan.Setup.register_network c net formats client prefix from_str pick ext_iface config
          random w
        ≡ (ok n, w')
      → IsAcquired w.0 n.subnet_lease
  unfolding Vxlan.Setup.register_network
  vxlan-IsAcquired ext_iface config w {n} h =
      let full = with_defaults ext_iface.iface.mtu in
      let last = λ (cfg : VxlanConfig) (mtu : ℕ).
        attach c net formats client prefix from_str pick ext_iface config cfg.vni mtu in
      let made_device = λ (cfg : VxlanConfig) (mtu : ℕ).
        Device.new c net (device_attrs c net formats ext_iface cfg mtu) cfg.direct_routing random in
      let device =
        λ (cfg : VxlanConfig) (mtu : ℕ). on_right {V = client.World} (made_device cfg mtu) in
      let (backend, w1, given, h1) =
        >>=-eq-ok (lift (ok_or config.backend backend_undefined))
          (λ backend. lift (ok_or (formats.to_config backend) external) >>= λ read.
            lift (unwrap ((full read).mtu)) >>= λ mtu.
            device (full read) mtu >>= last (full read) mtu)
          w h in
      let (read, w2, parsed, h2) =
        >>=-eq-ok (lift (ok_or (formats.to_config backend) external))
          (λ read. lift (unwrap ((full read).mtu)) >>= λ mtu.
            device (full read) mtu >>= last (full read) mtu)
          w1 h1 in
      let (mtu, w3, set, h3) =
        >>=-eq-ok (lift (unwrap ((full read).mtu)))
          (λ mtu. device (full read) mtu >>= last (full read) mtu) w2 h2 in
      let (made, w4, opened, h4) =
        >>=-eq-ok (device (full read) mtu) (last (full read) mtu) w3 h3 in
      let (r1, at1) = lift-ok (ok_or config.backend backend_undefined) w given in
      let (r2, at2) = lift-ok (ok_or (formats.to_config backend) external) w1 parsed in
      let (r3, at3) = lift-ok (unwrap ((full read).mtu)) w2 set in
      let kept = on_right_keeps (made_device (full read) mtu) w3 opened in
      subst (λ v. IsAcquired v n.subnet_lease)
        (kept ∙ sym (ap (λ (v : Worlds). v.0) (at1 ∙ at2 ∙ at3)))
        (attach-IsAcquired ext_iface config ((full read).vni) mtu made w4 h4)

  -- Whatever the back end, the lease of the network that it registers is one that `acquire_lease` has
  -- returned, from the state of etcd at the registration on.
  pub register-IsAcquired :
      (backend : Backend) (ext_iface : ExternalInterface) (config : Config c) (w : Worlds)
      {n : Network c} {w' : Worlds}
      → register c net formats devices client prefix from_str pick random backend ext_iface config w
        ≡ (ok n, w')
      → IsAcquired w.0 (lease c n)
  unfolding register lease
  register-IsAcquired vxlan_backend ext_iface config w h =
      let (n, w1, registered, h1) =
        >>=-eq-ok
          (Vxlan.Setup.register_network c net formats client prefix from_str pick ext_iface config
            random)
          (λ n. pure (vxlan_network n)) w h in
      subst (λ n. IsAcquired w.0 (lease c n)) (pure-ok (vxlan_network n) w1 h1)
        (vxlan-IsAcquired ext_iface config w registered)
  register-IsAcquired udp_backend ext_iface config w h =
      let (n, w1, registered, h1) =
        >>=-eq-ok
          (Udp.Setup.register_network c net devices client prefix from_str pick ext_iface config)
          (λ n. pure (udp_network n)) w h in
      subst (λ n. IsAcquired w.0 (lease c n)) (pure-ok (udp_network n) w1 h1)
        (udp-IsAcquired ext_iface config w registered)
  register-IsAcquired host_gw_backend ext_iface config w h =
      let net_of = HostGw.Setup.register_network c client prefix from_str pick ext_iface in
      let (n, w1, registered, h1) = >>=-eq-ok (on_left net_of) (λ n. pure (router_network n)) w h in
      let (v', done) = on_left-ok net_of w registered in
      subst (λ n. IsAcquired w.0 (lease c n)) (pure-ok (router_network n) w1 h1)
        (router-IsAcquired ext_iface (w.0) done)
