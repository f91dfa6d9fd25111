-- ===== src/Netlink.antt =====
-- The `netlink_ng` crate, as far as the program calls it: its types with the fields that the program
-- sets or reads, and its calls, each of which acts on the kernel. A call answers `none` for an
-- error. The laws that a proof relies on stand with the proof.
pub mod Reference
use flannel_ng.Base.{ℕ, String, Bool, true, false, Option, List, ◌==◌}
use flannel_ng.Crates.{Crates}

-- `std::net::IpAddr`
pub data IpAddr : Type 0 where
  v4 : ℕ → IpAddr
  v6 : ℕ → IpAddr

abbrev pub same_ip : IpAddr → IpAddr → Bool
same_ip (v4 a) (v4 b) = a == b
same_ip (v4 a) (v6 b) = false
same_ip (v6 a) (v4 b) = false
same_ip (v6 a) (v6 b) = a == b

-- `ipnetwork::IpNetwork`
pub data IpNetwork (c : Crates) : Type 0 where
  net4 : c.Ipv4Network → IpNetwork c
  net6 : c.Ipv6Network → IpNetwork c

-- `MacAddr6`, by its bytes
abbrev pub Mac : Type 0
Mac = List ℕ

-- A `Route` of the IPv4 family.
pub record Route (c : Crates) : Type 0 where
  pub dst : Option (c.Ipv4Network)
  pub gw : Option ℕ
  pub link_index : ℕ
  pub flags : ℕ
  pub scope : ℕ

pub record Addr (c : Crates) : Type 0 where
  pub ipnet : IpNetwork c
  pub label : String

-- `nl_type::Vxlan`
pub record VxlanLink : Type 0 where
  pub vxlan_id : ℕ
  pub vtep_dev_index : ℕ
  pub src_addr : Option IpAddr
  pub group : Option IpAddr
  pub l2miss : Bool
  pub port : ℕ
  pub gbp : Bool

pub data LinkKind : Type 0 where
  vxlan : VxlanLink → LinkKind
  other : String → LinkKind

-- `Link`, with its `LinkAttrs`
pub record Link : Type 0 where
  pub index : ℕ
  pub name : String
  pub mtu : ℕ
  pub hardware_addr : Option Mac
  pub link_kind : LinkKind

pub record Neigh : Type 0 where
  pub link_index : ℕ
  pub family : ℕ
  pub state : ℕ
  pub type_ : ℕ
  pub flags : ℕ
  pub ip : IpAddr
  pub hardware_addr : Mac

-- How `link_add` ends. Of an error the program asks whether it is one of `std::io`, and which.
pub data AddReply : Type 0 where
  added already_exists other_io other_error : AddReply

abbrev pub Call : Type 0 → Type 0 → Type 0
Call Kernel A = Kernel → Option A × Kernel

pub record Netlink (c : Crates) : Type 1 where
  pub Kernel : Type 0
  -- the `Default`s, of which the program keeps the fields that it does not set
  pub default_route : Route c
  pub default_label : String
  pub default_vxlan : VxlanLink
  pub default_index : ℕ
  pub default_neigh : Neigh
  -- `PartialEq` of `Addr`, `LinkKind::kind` and `as_index`
  pub equal_addr : Addr c → Addr c → Bool
  pub kind : LinkKind → String
  pub as_index : Link → ℕ
  -- routes; a listing is filtered by a destination
  pub route_list : Call Kernel (List (Route c))
  pub route_list_filtered : Option (c.Ipv4Network) → Call Kernel (List (Route c))
  pub route_add : Route c → Call Kernel (Unit {0})
  pub route_del : Route c → Call Kernel (Unit {0})
  pub route_replace : Route c → Call Kernel (Unit {0})
  -- links
  pub link_add : Link → Kernel → AddReply × Kernel
  pub link_del : ℕ → Call Kernel (Unit {0})
  pub link_by_name : String → Call Kernel (Option Link)
  pub link_by_index : ℕ → Call Kernel (Option Link)
  pub link_set_up : ℕ → Call Kernel (Unit {0})
  pub link_set_mtu : ℕ → ℕ → Call Kernel (Unit {0})
  -- addresses of a link
  pub addr_list : ℕ → Call Kernel (List (Addr c))
  pub addr_add : ℕ → Addr c → Call Kernel (Unit {0})
  pub addr_del : ℕ → Addr c → Call Kernel (Unit {0})
  -- neighbours
  pub neigh_set : Neigh → Call Kernel (Unit {0})

-- `RTNH_F_ONLINK`, `RT_SCOPE_UNIVERSE`, `NUD_PERMANENT`, `RTN_UNICAST`, `AF_BRIDGE` and `NTF_SELF`
-- of Linux
abbrev pub onlink : ℕ
onlink = 4

abbrev pub scope_universe : ℕ
scope_universe = 0

abbrev pub nud_permanent : ℕ
nud_permanent = 0x80

abbrev pub rtn_unicast : ℕ
rtn_unicast = 1

abbrev pub af_bridge : ℕ
af_bridge = 7

abbrev pub ntf_self : ℕ
ntf_self = 2
