-- ===== src/Start.antt =====
-- The start of the program: the choice of the back end by src/backend/manager.rs, what the traits of
-- src/backend/common.rs ask of one, and `main` of src/main.rs up to the tasks that it starts. The
-- world is that of etcd and the kernel.
pub mod Choice
pub mod Acquired
pub mod Ready
pub mod Command
mod Tests
use Prim.Native.Char.{code}
use flannel_ng.Base.{
  ℕ, ◌+◌, ◌==◌, List, String, Bool, true, false, ◌&&◌, Option, some, none, leb, str_eq,
  if◌then◌else◌,
}
use flannel_ng.Base.Outcome.{Outcome, ok, err, panic, out_of_fuel, unwrap, backend_undefined}
use flannel_ng.Base.Io.{Io, pure, lift, on_left, on_right, ◌>>=◌}
use flannel_ng.Crates.{Crates}
use flannel_ng.Lease.{Lease}
use flannel_ng.Etcd.{Client}
use flannel_ng.Netlink.{Netlink}
use flannel_ng.Iface.{ExternalInterface, lookup_ext_iface}
use flannel_ng.Subnet.Config.{Config}
use flannel_ng.Subnet.Acquire.{get_network_config}
use flannel_ng.Vxlan.{Formats}
use flannel_ng.Vxlan.Setup.{VxlanNetwork}
use flannel_ng.Vxlan
use flannel_ng.Udp.Setup.{UdpNetwork, Devices, udp_mtu}
use flannel_ng.Udp
use flannel_ng.HostGw
use flannel_ng.HostGw.Setup.{RouterNetwork}
use flannel_ng.Env.{write_subnet_file, prev_subnet}

pub data Backend : Type 0 where
  vxlan_backend udp_backend host_gw_backend : Backend

-- `to_lowercase` of a character, as far as it makes ASCII letters; the two others that it makes one
-- of, the Kelvin sign and the dotted I, are in no name of a back end.
unfoldable pub lower : ℕ → ℕ
lower n = if leb 65 n && leb n 90 then n + 32 else n

-- The text in lower case is the name.
unfoldable pub lower_eq : String → String → Bool
unfolding lower
lower_eq String.[] String.[] = true
lower_eq String.[] (String.◌∷◌ d t) = false
lower_eq (String.◌∷◌ ch s) String.[] = false
lower_eq (String.◌∷◌ ch s) (String.◌∷◌ d t) = (lower (code ch) == code d) && lower_eq s t

abbrev pub checked_host_gw : Outcome (Unit {0}) → Outcome Backend
checked_host_gw (ok u) = ok host_gw_backend
checked_host_gw (err e) = err e
checked_host_gw panic = panic
checked_host_gw out_of_fuel = out_of_fuel

unfoldable pub get_backend : String → ExternalInterface → Outcome Backend
unfolding lower_eq HostGw.new
get_backend backend_type ext_iface =
    if lower_eq backend_type "vxlan"
    then ok vxlan_backend
    else if lower_eq backend_type "udp"
    then ok udp_backend
    else if lower_eq backend_type "host-gw"
    then checked_host_gw (HostGw.new ext_iface.ext_addr ext_iface.iface_addr)
    else err backend_undefined

module _ (c : Crates) where
  -- `Box<dyn Network>`
  pub data Network : Type 0 where
    vxlan_network : VxlanNetwork c → Network
    udp_network : UdpNetwork c → Network
    router_network : RouterNetwork c → Network

  unfoldable pub lease : Network → Lease c
  lease (vxlan_network n) = n.subnet_lease
  lease (udp_network n) = n.subnet_lease
  lease (router_network n) = n.subnet_lease

  unfoldable pub mtu : Network → ℕ
  mtu (vxlan_network n) = n.ext_iface.iface.mtu
  mtu (udp_network n) = udp_mtu c n
  mtu (router_network n) = n.mtu

module _ (c : Crates) (net : Netlink c) (formats : Formats c) (devices : Devices c net)
    (client : Client c) (prefix : String) (from_str : String → Option (Config c)) (pick : ℕ → ℕ)
    (random : List ℕ) where
  abbrev pub Worlds : Type 0
  Worlds = client.World × net.Kernel

  unfoldable pub register : Backend → ExternalInterface → Config c → Io Worlds (Network c)
  unfolding ◌>>=◌ Vxlan.Setup.register_network Udp.Setup.register_network
      HostGw.Setup.register_network
  register vxlan_backend ext_iface config = do
    n ←
        Vxlan.Setup.register_network c net formats client prefix from_str pick ext_iface config
          random
    pure (vxlan_network n)
  register udp_backend ext_iface config = do
    n ← Udp.Setup.register_network c net devices client prefix from_str pick ext_iface config
    pure (udp_network n)
  register host_gw_backend ext_iface config = do
    n ← on_left (HostGw.Setup.register_network c client prefix from_str pick ext_iface)
    pure (router_network n)

  -- What the program holds when it starts its tasks.
  pub record Started : Type 0 where
    pub prev : Option (c.Ipv4Network)
    pub config : Config c
    pub network : Network c
    pub subnet_file : String

  -- `main` up to the tasks, given the subnet file, if there is one, and the network that "0.0.0.0/0"
  -- parses to.
  unfoldable pub start :
      Option String → Bool → (c.Ipv4Network → String) → c.Ipv4Network → Io Worlds Started
  unfolding ◌>>=◌ lookup_ext_iface prev_subnet get_network_config get_backend register
      write_subnet_file
  start file ip_masq show_network any_network = do
    ext_iface ← on_right (lookup_ext_iface c net any_network)
    prev ← lift (prev_subnet c client.parse_ipv4 file)
    config ← on_left (get_network_config c client prefix from_str pick)
    backend_type ← lift (unwrap config.backend_type)
    backend ← lift (get_backend backend_type ext_iface)
    bn ← register backend ext_iface config
    written ← lift (write_subnet_file c show_network config ip_masq (lease c bn).subnet (mtu c bn))
    pure (record { prev = prev; config = config; network = bn; subnet_file = written })
