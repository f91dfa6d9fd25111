-- ===== src/Iface.antt =====
-- src/ip/iface.rs, and the choice of the external interface in src/main.rs.
pub mod OnLink
pub mod External
mod Tests
use flannel_ng.Base.{
  ℕ, String, Bool, true, false, not, ◌&&◌, ◌||◌, Option, none, some, List, [], ◌∷◌, ◌++◌, ltb, leb,
  ◌==◌, ◌/◌, ◌^◌, if◌then◌else◌,
}
use flannel_ng.Base.Outcome.{
  Outcome, ok, err, panic, unwrap, ok_or, external, no_interface, no_address, no_gateway,
  link_not_found,
}
use flannel_ng.Base.Io.{Io, pure, lift, call, ◌>>=◌, ◌>>◌}
use flannel_ng.Base.Word.{u32_mod}
use flannel_ng.Crates.{Crates}
use flannel_ng.Netlink.{IpNetwork, net4, net6, Route, Addr, Link, Netlink}

pub record Interface : Type 0 where
  pub index : ℕ
  pub mtu : ℕ
  pub name : String

pub record ExternalInterface : Type 0 where
  pub iface : Interface
  pub iface_addr : ℕ
  pub iface_v6_addr : Option ℕ
  pub ext_addr : Option ℕ
  pub ext_v6_addr : Option ℕ

-- The predicates of `Ipv4Addr`: 127.0.0.0/8, 224.0.0.0/4, 169.254.0.0/16, and the two addresses.
abbrev pub is_loopback : ℕ → Bool
is_loopback ip = ip / 2 ^ 24 == 127

abbrev pub is_multicast : ℕ → Bool
is_multicast ip = ip / 2 ^ 28 == 14

abbrev pub is_link_local : ℕ → Bool
is_link_local ip = ip / 2 ^ 16 == 43518

abbrev pub is_unspecified : ℕ → Bool
is_unspecified ip = ip == 0

abbrev pub is_broadcast : ℕ → Bool
is_broadcast ip = ip == 0xFFFFFFFF

unfoldable pub is_usable : ℕ → Bool
is_usable ip =
    not (is_broadcast ip)
    && (not (is_unspecified ip)
        && (not (is_loopback ip) && (not (is_multicast ip) && not (is_link_local ip))))

abbrev pub nonempty : List ℕ → Outcome (List ℕ)
nonempty [] = err no_address
nonempty (ip ∷ ips) = ok (ip ∷ ips)

-- `Vec::pop`
abbrev pub last : List ℕ → Option ℕ
last [] = none
last (ip ∷ []) = some ip
last (ip ∷ ip' ∷ ips) = last (ip' ∷ ips)

module _ (c : Crates) where
  abbrev pub ipv4_of : IpNetwork c → Option ℕ
  ipv4_of (net4 n) = some (c.ip n)
  ipv4_of (net6 n) = none

  -- One round of the loop of `get_iface_addrs`, over the addresses and the link-local ones.
  unfoldable pub sort_addr : Option ℕ → List ℕ × List ℕ → List ℕ × List ℕ
  unfolding is_usable
  sort_addr none (addrs, ll) = (addrs, ll)
  sort_addr (some ip) (addrs, ll) =
      if is_usable ip
      then (addrs ++ (ip ∷ []), ll)
      else if is_link_local ip
      then (addrs, ll ++ (ip ∷ []))
      else (addrs, ll)

  unfoldable pub sort_addrs : List (Addr c) → List ℕ × List ℕ → List ℕ × List ℕ
  unfolding sort_addr
  sort_addrs [] st = st
  sort_addrs (a ∷ rest) st = sort_addrs rest (sort_addr (ipv4_of a.ipnet) st)

module _ (c : Crates) (net : Netlink c) where
  open net use {Kernel}

  abbrev pub to_interface : Link → Interface
  to_interface link = record { index = link.index; mtu = link.mtu; name = link.name }

  abbrev pub is_default : c.Ipv4Network → Route c → Bool
  is_default any_network route = elim route.dst [ none ↦ true | some dst ↦ c.equal dst any_network ]

  -- The interface of a default route.
  unfoldable pub interface_of : Route c → Io Kernel (Option Interface)
  unfolding ◌>>=◌
  interface_of route = elim (route.link_index == 0) [
    | true ↦ lift (err no_interface)
    | false ↦ do
      link ← call (net.link_by_index route.link_index)
      link ← lift (ok_or link link_not_found)
      pure (some (to_interface link))
  ]

  -- The loop over the routes, given the network that "0.0.0.0/0" parses to.
  unfoldable pub default_interface : c.Ipv4Network → List (Route c) → Io Kernel (Option Interface)
  unfolding interface_of
  default_interface any_network [] = pure none
  default_interface any_network (route ∷ routes) = elim (is_default any_network route) [
    | true ↦ interface_of route
    | false ↦ default_interface any_network routes
  ]

  unfoldable pub get_default_gateway_interface : c.Ipv4Network → Io Kernel (Option Interface)
  unfolding ◌>>=◌ default_interface
  get_default_gateway_interface any_network = do
    routes ← call net.route_list
    default_interface any_network routes

  unfoldable pub get_iface_addrs : Interface → Io Kernel (List ℕ)
  unfolding ◌>>=◌ sort_addrs
  get_iface_addrs ext_iface = do
    addr_list ← call (net.addr_list ext_iface.index)
    let (addrs, ll) = sort_addrs c addr_list ([], [])
    lift (nonempty (addrs ++ ll))

  unfoldable pub lookup_ext_iface : c.Ipv4Network → Io Kernel ExternalInterface
  unfolding ◌>>=◌ get_default_gateway_interface get_iface_addrs
  lookup_ext_iface any_network = do
    found ← get_default_gateway_interface any_network
    ext_iface ← lift (ok_or found no_gateway)
    addrs ← get_iface_addrs ext_iface
    iface_addr ← lift (unwrap (last addrs))
    pure (record {
      iface = ext_iface;
      iface_addr = iface_addr;
      iface_v6_addr = none;
      ext_addr = some iface_addr;
      ext_v6_addr = none;
    })

  -- An address of the network, other than the one wanted.
  abbrev pub is_stale : c.Ipv4Network → Addr c → Bool
  is_stale ipn a = elim (ipv4_of c a.ipnet) [ none ↦ false | some ip ↦ c.contains ipn ip ]

  abbrev pub wanted_addr : c.Ipv4Network → Addr c
  wanted_addr ip = record { ipnet = net4 ip; label = net.default_label }

  unfoldable pub drop_if : Bool → ℕ → Addr c → Io Kernel (Unit {0})
  drop_if true link_id a = call (net.addr_del link_id a)
  drop_if false link_id a = pure tt

  -- One round of the loop of `ensure_v4_addr_on_link`, with `has_addr`.
  unfoldable pub visit : Bool → c.Ipv4Network → ℕ → Addr c → Bool → Io Kernel Bool
  unfolding ◌>>◌ drop_if
  visit true ipn link_id a has_addr = pure true
  visit false ipn link_id a has_addr = do drop_if (is_stale ipn a) link_id a; pure has_addr

  unfoldable pub sweep : Addr c → c.Ipv4Network → ℕ → List (Addr c) → Bool → Io Kernel Bool
  unfolding ◌>>=◌ visit
  sweep addr ipn link_id [] has_addr = pure has_addr
  sweep addr ipn link_id (a ∷ rest) has_addr = do
    has_addr' ← visit (net.equal_addr a addr) ipn link_id a has_addr
    sweep addr ipn link_id rest has_addr'

  unfoldable pub add_unless : Bool → ℕ → Addr c → Io Kernel (Unit {0})
  add_unless true link_id addr = pure tt
  add_unless false link_id addr = call (net.addr_add link_id addr)

  unfoldable pub ensure_v4_addr_on_link : c.Ipv4Network → c.Ipv4Network → ℕ → Io Kernel (Unit {0})
  unfolding ◌>>=◌ sweep add_unless
  ensure_v4_addr_on_link ip ipn link_id = do
    existing_addrs ← call (net.addr_list link_id)
    has_addr ← sweep (wanted_addr ip) ipn link_id existing_addrs false
    add_unless has_addr link_id (wanted_addr ip)
