-- ===== src/Udp/Setup/Configured.antt =====
-- What the kernel has after `configure_tun` of src/backend/udp/udp.rs.
use flannel_ng.Base.{ℕ, ◌<◌, ◌≤◌, ◌≡◌, sym, subst, ap, ◌∙◌, String, some, arith}
use flannel_ng.Base.Outcome.{Outcome, ok, ok_or, ok_or-ok, link_not_found, invalid_prefix}
use flannel_ng.Base.Io.{Io, lift, call, ◌>>=◌, ◌>>◌, >>=-eq-ok, call-ok, lift-ok}
use flannel_ng.Base.Word.{u32_mod}
use flannel_ng.Crates.{Crates, NetworkLaws}
use flannel_ng.Netlink.{Addr, Route, Link, Netlink}
use flannel_ng.Udp.Setup.{tun_addr, tun_route, configure_tun}

-- What the program relies on of the kernel's links and routes.
pub record TunLaws (c : Crates) (net : Netlink c) : Type 1 where
  pub HasAddr : net.Kernel → ℕ → Addr c → Type 0
  pub HasMtu : net.Kernel → ℕ → ℕ → Type 0
  pub Routed : net.Kernel → Route c → Type 0
  pub add-HasAddr :
      (i : ℕ) (a : Addr c) (k : net.Kernel) (u : Unit {0})
      → (net.addr_add i a k).0 ≡ some u
      → HasAddr ((net.addr_add i a k).1) i a
  pub mtu-HasMtu :
      (i mtu : ℕ) (k : net.Kernel) (u : Unit {0})
      → (net.link_set_mtu i mtu k).0 ≡ some u
      → HasMtu ((net.link_set_mtu i mtu k).1) i mtu
  pub add-Routed :
      (r : Route c) (k : net.Kernel) (u : Unit {0})
      → (net.route_add r k).0 ≡ some u
      → Routed ((net.route_add r k).1) r
  -- the later calls leave addresses and MTUs as they are
  pub mtu_keeps-HasAddr :
      (j mtu i : ℕ) (a : Addr c) (k : net.Kernel)
      → HasAddr k i a
      → HasAddr ((net.link_set_mtu j mtu k).1) i a
  pub up_keeps-HasAddr :
      (j i : ℕ) (a : Addr c) (k : net.Kernel)
      → HasAddr k i a
      → HasAddr ((net.link_set_up j k).1) i a
  pub route_keeps-HasAddr :
      (r : Route c) (i : ℕ) (a : Addr c) (k : net.Kernel)
      → HasAddr k i a
      → HasAddr ((net.route_add r k).1) i a
  pub up_keeps-HasMtu :
      (j i mtu : ℕ) (k : net.Kernel) → HasMtu k i mtu → HasMtu ((net.link_set_up j k).1) i mtu
  pub route_keeps-HasMtu :
      (r : Route c) (i mtu : ℕ) (k : net.Kernel)
      → HasMtu k i mtu
      → HasMtu ((net.route_add r k).1) i mtu

module _ (c : Crates) (laws : NetworkLaws c) (net : Netlink c) (kernel : TunLaws c net) where
  open net use {Kernel}

  -- The steps of `configure_tun` on a link that has been found.
  abbrev new_dst : c.Ipv4Network → Outcome (c.Ipv4Network)
  new_dst n = ok_or (c.new (c.network n) (c.prefix n)) invalid_prefix

  abbrev route : Link → c.Ipv4Network → Io Kernel (Unit {0})
  route link dst = call (net.route_add (tun_route c net link.index dst))

  abbrev after_up : Link → c.Ipv4Network → Unit {0} → Io Kernel (Unit {0})
  after_up link n u = lift (new_dst n) >>= route link

  abbrev after_resize : Link → c.Ipv4Network → Unit {0} → Io Kernel (Unit {0})
  after_resize link n u = call (net.link_set_up (net.as_index link)) >>= after_up link n

  abbrev after_address : Link → c.Ipv4Network → ℕ → Unit {0} → Io Kernel (Unit {0})
  after_address link n mtu u =
      call (net.link_set_mtu (net.as_index link) mtu) >>= after_resize link n

  abbrev with_local : Link → c.Ipv4Network → ℕ → c.Ipv4Network → Io Kernel (Unit {0})
  with_local link n mtu local =
      call (net.addr_add (net.as_index link) (tun_addr c net local)) >>= after_address link n mtu

  abbrev with_link : c.Ipv4Network → ℕ → Link → Io Kernel (Unit {0})
  with_link n mtu link = lift (ok_or (c.new (c.ip n) 32) invalid_prefix) >>= with_local link n mtu

  -- The link of the name has the address alone, without its network, and the MTU, and the block of
  -- the network is routed to the link.
  pub record IsTun (ifname : String) (ip_network : c.Ipv4Network) (mtu : ℕ) (k k' : Kernel)
      : Type 0 where
    pub link : Link
    pub named : (net.link_by_name ifname k).0 ≡ some (some link)
    pub local : c.Ipv4Network
    pub local_ip : c.ip local ≡ c.ip ip_network
    pub local_prefix : c.prefix local ≡ 32
    pub dst : c.Ipv4Network
    pub dst_ip : c.ip dst ≡ c.network ip_network
    pub dst_prefix : c.prefix dst ≡ c.prefix ip_network
    pub addressed : kernel.HasAddr k' (net.as_index link) (tun_addr c net local)
    pub has_mtu : kernel.HasMtu k' (net.as_index link) mtu
    pub routed : kernel.Routed k' (tun_route c net link.index dst)

  made :
      (a p : ℕ) {n : c.Ipv4Network}
      → a < u32_mod
      → p ≤ 32
      → c.new a p ≡ some n
      → (c.ip n ≡ a) × (c.prefix n ≡ p)
  made a p {n} h k e =
      let (m, new, ip, prefix) = laws.new-some a p h k in
      let same : m ≡ n = cc (new, e) in (ap c.ip (sym same) ∙ ip, ap c.prefix (sym same) ∙ prefix)

  routed-ok :
      (link : Link) (n : c.Ipv4Network) (k : Kernel) {u : Unit {0}} {k' : Kernel}
      → after_up link n tt k ≡ (ok u, k')
      → (dst : c.Ipv4Network) × (c.ip dst ≡ c.network n)
        × (c.prefix dst ≡ c.prefix n)
        × ((net.route_add (tun_route c net link.index dst) k).1 ≡ k')
        × kernel.Routed k' (tun_route c net link.index dst)
  routed-ok link n k {u} {k'} h =
      let (dst, k1, built, h1) = >>=-eq-ok (lift (new_dst n)) (route link) k h in
      let (dst_ok, at) = lift-ok (new_dst n) k built in
      let r = tun_route c net link.index dst in
      let (done, at1) = call-ok (net.route_add r) k1 h1 in
      let (ip, prefix) =
        made (c.network n) (c.prefix n) (omega (arith, laws.network-add n, laws.ip-lt n))
          (laws.prefix-le n) (ok_or-ok (c.new (c.network n) (c.prefix n)) invalid_prefix dst_ok) in
      (
        dst,
        ip,
        prefix,
        ap (λ k. (net.route_add r k).1) at ∙ at1,
        subst (λ k. kernel.Routed k r) at1 (kernel.add-Routed r k1 u done),
      )

  -- A property of the kernel that the two last steps keep.
  kept :
      (P : Kernel → Type 0) (link : Link) (n : c.Ipv4Network) (k : Kernel) {u : Unit {0}}
      {k' : Kernel}
      → ((j : ℕ) (k : Kernel) → P k → P ((net.link_set_up j k).1))
      → ((r : Route c) (k : Kernel) → P k → P ((net.route_add r k).1))
      → after_resize link n tt k ≡ (ok u, k')
      → P k
      → P k'
  kept P link n k up_keeps route_keeps h holds =
      let i = net.as_index link in
      let (u1, k1, upped, h1) = >>=-eq-ok (call (net.link_set_up i)) (after_up link n) k h in
      let (done, at) = call-ok (net.link_set_up i) k upped in
      let (dst, ip, prefix, at1, routed) = routed-ok link n k1 h1 in
      subst P at1
        (route_keeps (tun_route c net link.index dst) k1 (subst P at (up_keeps i k holds)))

  -- What the steps on the link have done.
  set_up-ok :
      (link : Link) (n local : c.Ipv4Network) (mtu : ℕ) (k : Kernel) {u : Unit {0}} {k' : Kernel}
      → with_local link n mtu local k ≡ (ok u, k')
      → kernel.HasAddr k' (net.as_index link) (tun_addr c net local)
        × kernel.HasMtu k' (net.as_index link) mtu
        × ((k1 : Kernel) × (after_up link n tt k1 ≡ (ok u, k')))
  set_up-ok link n local mtu k {u} {k'} h =
      let i = net.as_index link in
      let a = tun_addr c net local in
      let (u1, k1, addressed, h1) =
        >>=-eq-ok (call (net.addr_add i a)) (after_address link n mtu) k h in
      let (u2, k2, resized, h2) =
        >>=-eq-ok (call (net.link_set_mtu i mtu)) (after_resize link n) k1 h1 in
      let (u3, k3, upped, h3) = >>=-eq-ok (call (net.link_set_up i)) (after_up link n) k2 h2 in
      let (done1, at1) = call-ok (net.addr_add i a) k addressed in
      let (done2, at2) = call-ok (net.link_set_mtu i mtu) k1 resized in
      let addr1 = subst (λ k. kernel.HasAddr k i a) at1 (kernel.add-HasAddr i a k u1 done1) in
      let addr2 =
        subst (λ k. kernel.HasAddr k i a) at2 (kernel.mtu_keeps-HasAddr i mtu i a k1 addr1) in
      let mtu2 = subst (λ k. kernel.HasMtu k i mtu) at2 (kernel.mtu-HasMtu i mtu k1 u2 done2) in
      (
        kept (λ k. kernel.HasAddr k i a) link n k2 (λ j. kernel.up_keeps-HasAddr j i a)
            (λ r. kernel.route_keeps-HasAddr r i a) h2 addr2,
        kept (λ k. kernel.HasMtu k i mtu) link n k2 (λ j. kernel.up_keeps-HasMtu j i mtu)
            (λ r. kernel.route_keeps-HasMtu r i mtu) h2 mtu2,
        (k3, h3),
      )

  -- When `configure_tun` has ended without an error, the link of the name has the address of the
  -- network as one of its own, with a prefix of 32, and the MTU, and the route to the network's
  -- block by way of the link is in the kernel.
  pub configure_tun-IsTun :
      (ifname : String) (ip_network : c.Ipv4Network) (mtu : ℕ) (k : Kernel) {u : Unit {0}}
      {k' : Kernel}
      → configure_tun c net ifname ip_network mtu k ≡ (ok u, k')
      → IsTun ifname ip_network mtu k k'
  unfolding configure_tun ◌>>◌
  configure_tun-IsTun ifname n mtu k h =
      let new_local = ok_or (c.new (c.ip n) 32) invalid_prefix in
      let (found, k1, asked, h1) =
        >>=-eq-ok (call (net.link_by_name ifname))
          (λ found. lift (ok_or found link_not_found) >>= with_link n mtu) k h in
      let (link, k2, given, h2) =
        >>=-eq-ok (lift (ok_or found link_not_found)) (with_link n mtu) k1 h1 in
      let (local, k3, built, h3) = >>=-eq-ok (lift new_local) (with_local link n mtu) k2 h2 in
      let (answer, at) = call-ok (net.link_by_name ifname) k asked in
      let (present, at1) = lift-ok (ok_or found link_not_found) k1 given in
      let (local_ok, at2) = lift-ok new_local k2 built in
      let (local_ip, local_prefix) =
        made (c.ip n) 32 (laws.ip-lt n) (omega arith)
          (ok_or-ok (c.new (c.ip n) 32) invalid_prefix local_ok) in
      let (addressed, has_mtu, last) = set_up-ok link n local mtu k3 h3 in
      let (dst, dst_ip, dst_prefix, same, routed) = routed-ok link n (last.0) (last.1) in
      record {
        link = link;
        named = answer ∙ ap some (ok_or-ok found link_not_found present);
        local = local;
        local_ip = local_ip;
        local_prefix = local_prefix;
        dst = dst;
        dst_ip = dst_ip;
        dst_prefix = dst_prefix;
        addressed = addressed;
        has_mtu = has_mtu;
        routed = routed;
      }
