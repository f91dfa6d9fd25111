-- ===== src/Udp/Setup.antt =====
-- How the UDP back end of src/backend/udp/udp.rs registers: the lease, the TUN device and the
-- socket. libc, `AsyncFd` and the socket are the parameter `Devices`.
pub mod Configured
mod Tests
use flannel_ng.Base.{ℕ, String, Option, some}
use flannel_ng.Base.Outcome.{ok_or, link_not_found, invalid_prefix}
use flannel_ng.Base.Io.{Io, pure, lift, call, on_left, on_right, ◌>>=◌, ◌>>◌}
use flannel_ng.Base.Word.{sub_u32}
use flannel_ng.Crates.{Crates}
use flannel_ng.Lease.{Lease, LeaseAttrs, default_attrs}
use flannel_ng.Etcd.{Client}
use flannel_ng.Netlink.{net4, Addr, Route, Call, Netlink, scope_universe}
use flannel_ng.Iface.{ExternalInterface}
use flannel_ng.Tun
use flannel_ng.Tun.{Os, AsyncFd}
use flannel_ng.Tun.Open.{open_tun}
use flannel_ng.Subnet.Config.{Config, get_flannel_network}
use flannel_ng.Subnet.Acquire.{acquire_lease}
use flannel_ng.Udp.Port.{encap_overhead, get_port_from_config}

-- The calls of libc and of `AsyncFd`, and the one that binds a socket to an address and a port.
pub record Devices (c : Crates) (net : Netlink c) : Type 1 where
  pub os : Os net.Kernel
  pub async : AsyncFd os
  pub bind : ℕ → ℕ → Call net.Kernel (Unit {0})

module _ (c : Crates) where
  -- The fields of `UdpNetwork` that are values of the program.
  pub record UdpNetwork : Type 0 where
    pub ext_iface : ExternalInterface
    pub subnet_lease : Lease c
    pub port : ℕ
    pub tun_net : c.Ipv4Network

  abbrev pub udp_mtu : UdpNetwork → ℕ
  udp_mtu nw = sub_u32 nw.ext_iface.iface.mtu encap_overhead

  abbrev pub udp_attrs : ExternalInterface → LeaseAttrs c
  udp_attrs ext_iface = record (default_attrs c) { public_ip = ext_iface.iface_addr }

module _ (c : Crates) (net : Netlink c) where
  open net use {Kernel}

  abbrev pub tun_addr : c.Ipv4Network → Addr c
  tun_addr ip_local = record { ipnet = net4 ip_local; label = "" }

  abbrev pub tun_route : ℕ → c.Ipv4Network → Route c
  tun_route index dst = record net.default_route {
    link_index = index;
    scope = scope_universe;
    dst = some dst;
  }

  unfoldable pub configure_tun : String → c.Ipv4Network → ℕ → Io Kernel (Unit {0})
  unfolding ◌>>=◌ ◌>>◌
  configure_tun ifname ip_network mtu = do
    found ← call (net.link_by_name ifname)
    link ← lift (ok_or found link_not_found)
    ip_local ← lift (ok_or (c.new (c.ip ip_network) 32) invalid_prefix)
    call (net.addr_add (net.as_index link) (tun_addr ip_local))
    call (net.link_set_mtu (net.as_index link) mtu)
    call (net.link_set_up (net.as_index link))
    dst ← lift (ok_or (c.new (c.network ip_network) (c.prefix ip_network)) invalid_prefix)
    call (net.route_add (tun_route link.index dst))

module _ (c : Crates) (net : Netlink c) (devices : Devices c net) where
  open net use {Kernel}

  unfoldable pub init_tun : UdpNetwork c → Io Kernel (Unit {0})
  unfolding ◌>>=◌ ◌>>◌ configure_tun open_tun Tun.Open.new
  init_tun nw = do
    (tun, name) ← open_tun devices.os "flannel%d"
    file ← Tun.Open.new devices.os devices.async tun
    configure_tun c net name nw.tun_net (udp_mtu c nw)

  unfoldable pub new : ExternalInterface → ℕ → c.Ipv4Network → Lease c → Io Kernel (UdpNetwork c)
  unfolding ◌>>=◌ ◌>>◌ init_tun
  new ext_iface port nw lease = do
    let n : UdpNetwork c = record {
      ext_iface = ext_iface;
      subnet_lease = lease;
      port = port;
      tun_net = nw;
    }
    init_tun n
    call (devices.bind ext_iface.iface_addr port)
    pure n

module _ (c : Crates) (net : Netlink c) (devices : Devices c net) (client : Client c)
    (prefix : String) (from_str : String → Option (Config c)) (pick : ℕ → ℕ) where
  unfoldable pub register_network :
      ExternalInterface → Config c → Io (client.World × net.Kernel) (UdpNetwork c)
  unfolding ◌>>=◌ new acquire_lease get_flannel_network
  register_network ext_iface config = do
    lease ← on_left (acquire_lease c client prefix from_str pick (udp_attrs c ext_iface))
    flannel_net ← lift (get_flannel_network c config)
    tun_net ← lift (ok_or (c.new (c.ip lease.subnet) (c.prefix flannel_net)) invalid_prefix)
    on_right (new c net devices ext_iface (get_port_from_config c config) tun_net lease)
