-- ===== src/Start/Ready.antt =====
-- What the program has when `main` of src/main.rs starts its tasks.
use flannel_ng.Base.{ℕ, ◌≡◌, refl, sym, ◌∙◌, subst, ap, String, Bool, true, Option, some, List}
use flannel_ng.Base.Outcome.{ok, unwrap}
use flannel_ng.Base.Io.{
  Io, pure, lift, on_left, on_right, ◌>>=◌, >>=-eq-ok, lift-ok, on_left-run, on_right_keeps,
  pure-ok,
}
use flannel_ng.Crates.{Crates, NetworkLaws}
use flannel_ng.Etcd.{Client}
use flannel_ng.Netlink.{Netlink}
use flannel_ng.Iface.{ExternalInterface, lookup_ext_iface}
use flannel_ng.Subnet.Network.{add}
use flannel_ng.Subnet.Config.{Config}
use flannel_ng.Subnet.Config.Check.Sound.{check_network_config-IsPlan}
use flannel_ng.Subnet.Allocate.Sound.{IsPick}
use flannel_ng.Subnet.Acquire.{get_network_config}
use flannel_ng.Subnet.Acquire.Within.{
  IsNetwork, IsForNetwork, IsWithin, completed, get_network_config-ok, acquire_lease-IsWithin,
}
use flannel_ng.Subnet.Acquire.Held.{
  GetLaws, HoldsConfig, get_network_config-HoldsConfig, HoldsConfig-IsForNetwork,
}
use flannel_ng.Vxlan.{Formats}
use flannel_ng.Udp.Setup.{Devices}
use flannel_ng.Env.{write_subnet_file, prev_subnet}
use flannel_ng.Env.Previous.{TextLaws, prev_subnet-first}
use flannel_ng.Start.{Backend, Network, lease, mtu, get_backend, register, Started, start}
use flannel_ng.Start.Acquired.{register-IsAcquired}

module _ (c : Crates) (laws : NetworkLaws c) (net : Netlink c) (formats : Formats c)
    (devices : Devices c net) (client : Client c) (prefix : String)
    (from_str : String → Option (Config c)) (pick : ℕ → ℕ) (in_range : IsPick pick)
    (random : List ℕ) (show_network : c.Ipv4Network → String)
    (text : TextLaws c show_network client.parse_ipv4) (etcd : GetLaws c client)
    (network : c.Ipv4Network) where
  abbrev Worlds : Type 0
  Worlds = client.World × net.Kernel

  abbrev Result : Type 0
  Result = Started c net formats devices client prefix from_str pick random

  -- The lease is on a subnet of the network, and the subnet file leads back to the first address of
  -- the subnet, with its prefix.
  pub record IsReady (st : Result) : Type 0 where
    pub within : IsWithin c laws network (lease c st.network)
    pub prev : c.Ipv4Network
    pub prev_read : prev_subnet c client.parse_ipv4 (some st.subnet_file) ≡ ok (some prev)
    pub prev_ip : c.ip prev ≡ add (c.ip (lease c st.network).subnet) 1
    pub prev_prefix : c.prefix prev ≡ c.prefix (lease c st.network).subnet

  -- The registry holds a configuration for the network.
  abbrev pub Holds : client.World → Type 0
  Holds w = HoldsConfig c client etcd prefix from_str network w

  abbrev IsFor : client.World → Type 0
  IsFor w = IsForNetwork c laws client prefix from_str pick in_range network w

  Holds-IsFor : (w : client.World) → Holds w → IsFor w
  Holds-IsFor w holds =
      HoldsConfig-IsForNetwork c laws client etcd prefix from_str pick in_range network w holds

  config-ipv4 :
      (w : client.World) {config : Config c} {w' : client.World}
      → IsNetwork c laws network
      → Holds w
      → get_network_config c client prefix from_str pick w ≡ (ok config, w')
      → (config.enable_ipv4 ≡ true) × Holds w'
  config-ipv4 w n holds h =
      let (s, cfg, read, parsed, fine) =
        get_network_config-ok c laws client prefix from_str pick in_range network w h in
      let plan =
        check_network_config-IsPlan c laws
          (completed c laws client prefix from_str pick in_range network cfg) network refl
          (Holds-IsFor w holds s _ cfg read parsed) n.short fine in
      let (same, after) =
        get_network_config-HoldsConfig c client etcd prefix from_str network w holds read in
      (ap (λ (cfg : Config c). cfg.enable_ipv4) plan.checked_eq, after)

  register-IsReady :
      (backend : Backend) (ext_iface : ExternalInterface) (config : Config c)
      (prev : Option (c.Ipv4Network)) (ip_masq : Bool) (w : Worlds) {bn : Network c} {w' : Worlds}
      {file : String}
      → IsNetwork c laws network
      → IsFor w.0
      → config.enable_ipv4 ≡ true
      → register c net formats devices client prefix from_str pick random backend ext_iface config w
        ≡ (ok bn, w')
      → write_subnet_file c show_network config ip_masq (lease c bn).subnet (mtu c bn) ≡ ok file
      → IsReady (record { prev = prev; config = config; network = bn; subnet_file = file })
  register-IsReady backend ext_iface config prev ip_masq w {bn} n for_network on registered
        written =
      let (attrs, v', acquired) =
        register-IsAcquired c net formats devices client prefix from_str pick random backend
          ext_iface config w registered in
      let (back, read, ip, len) =
        prev_subnet-first c laws show_network client.parse_ipv4 text config ip_masq
          (lease c bn).subnet (mtu c bn) on written in
      record {
        within =
            acquire_lease-IsWithin c laws client prefix from_str pick in_range network attrs w.0 n
              for_network acquired;
        prev = back;
        prev_read = read;
        prev_ip = ip;
        prev_prefix = len;
      }

  abbrev outcome : Option (c.Ipv4Network) → Config c → Network c → String → Result
  outcome prev config bn file = record {
    prev = prev;
    config = config;
    network = bn;
    subnet_file = file;
  }

  -- The steps of `start`, from the last one back.
  module _ (ip_masq : Bool) where
    abbrev last : Option (c.Ipv4Network) → Config c → Network c → Io Worlds Result
    last prev config bn =
        lift (write_subnet_file c show_network config ip_masq (lease c bn).subnet (mtu c bn))
        >>= λ written. pure (outcome prev config bn written)

    abbrev registering : ExternalInterface → Config c → Backend → Io Worlds (Network c)
    registering ext_iface config backend =
        register c net formats devices client prefix from_str pick random backend ext_iface config

    abbrev choosing :
        ExternalInterface → Option (c.Ipv4Network) → Config c → String → Io Worlds Result
    choosing ext_iface prev config kind = lift (get_backend kind ext_iface) >>= λ backend.
        registering ext_iface config backend >>= last prev config

    abbrev configuring : ExternalInterface → Option (c.Ipv4Network) → Config c → Io Worlds Result
    configuring ext_iface prev config =
        lift (unwrap config.backend_type) >>= choosing ext_iface prev config

    abbrev reading : ExternalInterface → Option (c.Ipv4Network) → Io Worlds Result
    reading ext_iface prev =
        on_left (get_network_config c client prefix from_str pick) >>= configuring ext_iface prev

    registering-IsReady :
        (backend : Backend) (ext_iface : ExternalInterface) (prev : Option (c.Ipv4Network))
        (config : Config c) (w : Worlds) {st : Result} {w' : Worlds}
        → IsNetwork c laws network
        → Holds w.0
        → config.enable_ipv4 ≡ true
        → (registering ext_iface config backend >>= last prev config) w ≡ (ok st, w')
        → IsReady st
    registering-IsReady backend ext_iface prev config w n holds on h =
        let (bn, w1, registered, h1) =
          >>=-eq-ok (registering ext_iface config backend) (last prev config) w h in
        let write =
          write_subnet_file c show_network config ip_masq (lease c bn).subnet (mtu c bn) in
        let (file, w2, wrote, h2) =
          >>=-eq-ok (lift write) (λ written. pure (outcome prev config bn written)) w1 h1 in
        let (written, same) = lift-ok write w1 wrote in
        subst IsReady (pure-ok (outcome prev config bn file) w2 h2) (
          register-IsReady backend ext_iface config prev ip_masq w n (Holds-IsFor (w.0) holds) on
            registered written)

    configuring-IsReady :
        (ext_iface : ExternalInterface) (prev : Option (c.Ipv4Network)) (config : Config c)
        (w : Worlds) {st : Result} {w' : Worlds}
        → IsNetwork c laws network
        → Holds w.0
        → config.enable_ipv4 ≡ true
        → configuring ext_iface prev config w ≡ (ok st, w')
        → IsReady st
    configuring-IsReady ext_iface prev config w n holds on h =
        let (kind, w1, named, h1) =
          >>=-eq-ok (lift (unwrap config.backend_type)) (choosing ext_iface prev config) w h in
        let (backend, w2, chosen, h2) =
          >>=-eq-ok (lift (get_backend kind ext_iface))
            (λ backend. registering ext_iface config backend >>= last prev config) w1 h1 in
        let (kind_given, at) = lift-ok (unwrap config.backend_type) w named in
        let (backend_given, at1) = lift-ok (get_backend kind ext_iface) w1 chosen in
        registering-IsReady backend ext_iface prev config w2 n
          (subst (λ w. Holds w.0) (at ∙ at1) holds) on h2

    reading-IsReady :
        (ext_iface : ExternalInterface) (prev : Option (c.Ipv4Network)) (w : Worlds) {st : Result}
        {w' : Worlds}
        → IsNetwork c laws network
        → Holds w.0
        → reading ext_iface prev w ≡ (ok st, w')
        → IsReady st
    reading-IsReady ext_iface prev w n holds h =
        let configure = get_network_config c client prefix from_str pick in
        let (config, w1, configured, h1) =
          >>=-eq-ok (on_left configure) (configuring ext_iface prev) w h in
        let got = on_left-run configure w configured in
        let (on, after) = config-ipv4 (w.0) n holds got in
        configuring-IsReady ext_iface prev config w1 n after on h1

  -- Where the registry holds, at the start, a configuration for a network which is aligned, has a
  -- prefix over 0 and ends below the end of the address space: when the start of the program has
  -- ended without an error, the node has, with any back end, a lease on a subnet of the network, and
  -- the subnet file that it has written is read back, at the next start, as the first address of
  -- that subnet with its prefix.
  pub start-IsReady :
      (file : Option String) (ip_masq : Bool) (any_network : c.Ipv4Network) (w : Worlds)
      {st : Result} {w' : Worlds}
      → IsNetwork c laws network
      → Holds w.0
      → start c net formats devices client prefix from_str pick random file ip_masq show_network
          any_network w
        ≡ (ok st, w')
      → IsReady st
  unfolding start
  start-IsReady file ip_masq any_network w n holds h =
      let (ext_iface, w1, found, h1) =
        >>=-eq-ok (on_right (lookup_ext_iface c net any_network))
          (λ ext_iface. lift (prev_subnet c client.parse_ipv4 file) >>= reading ip_masq ext_iface) w
          h in
      let (prev, w2, read, h2) =
        >>=-eq-ok (lift (prev_subnet c client.parse_ipv4 file)) (reading ip_masq ext_iface) w1 h1 in
      let (prev_given, at) = lift-ok (prev_subnet c client.parse_ipv4 file) w1 read in
      let kept = on_right_keeps (lookup_ext_iface c net any_network) w found in
      reading-IsReady ip_masq ext_iface prev w2 n
        (subst Holds (sym kept ∙ ap (λ (w : Worlds). w.0) at) holds) h2
