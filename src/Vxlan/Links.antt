-- ===== src/Vxlan/Links.antt =====
-- The VXLAN link of src/backend/vxlan/device.rs: when an existing one will do, and how it is made
-- sure that there is one.
pub mod Compatible
pub mod Ensured
use flannel_ng.Base.{
  ℕ, String, Bool, true, false, not, ◌&&◌, Option, none, some, ltb, ◌==◌, str_eq, if◌then◌else◌,
}
use flannel_ng.Base.Outcome.{Outcome, ok, err, ok_or, external, link_not_found}
use flannel_ng.Base.Io.{Io, pure, lift, call, observe, ◌>>=◌, ◌>>◌}
use flannel_ng.Crates.{Crates}
use flannel_ng.Netlink.{
  IpAddr, same_ip, VxlanLink, LinkKind, vxlan, other, Link, AddReply, added, already_exists,
  other_io, other_error, Netlink,
}

-- Both are set, and they differ.
abbrev pub numbers_differ : ℕ → ℕ → Bool
numbers_differ a b = ltb 0 a && ltb 0 b && not (a == b)

abbrev pub addresses_differ : Option IpAddr → Option IpAddr → Bool
addresses_differ none b = false
addresses_differ (some a) none = false
addresses_differ (some a) (some b) = not (same_ip a b)

abbrev pub flags_differ : Bool → Bool → Bool
flags_differ true b = not b
flags_differ false b = b

unfoldable pub settings_match : VxlanLink → VxlanLink → Bool
settings_match v1 v2 =
    if not (v1.vxlan_id == v2.vxlan_id)
    then false
    else if numbers_differ v1.vtep_dev_index v2.vtep_dev_index
    then false
    else if addresses_differ v1.src_addr v2.src_addr
    then false
    else if addresses_differ v1.group v2.group
    then false
    else if flags_differ v1.l2miss v2.l2miss
    then false
    else if numbers_differ v1.port v2.port
    then false
    else if flags_differ v1.gbp v2.gbp
    then false
    else true

abbrev pub kinds_match : LinkKind → LinkKind → Bool
kinds_match (vxlan v1) (vxlan v2) = settings_match v1 v2
kinds_match (vxlan v1) (other s) = false
kinds_match (other s) k = false

-- `link_add` with every error passed on.
abbrev pub accept : AddReply → Outcome (Unit {0})
accept added = ok tt
accept already_exists = err external
accept other_io = err external
accept other_error = err external

module _ (c : Crates) (net : Netlink c) where
  open net use {Kernel}

  -- Whatever its name says, it answers whether the links are compatible.
  unfoldable pub vxlan_links_incompat : Link → Link → Bool
  vxlan_links_incompat l1 l2 =
      if not (str_eq (net.kind l1.link_kind) (net.kind l2.link_kind))
      then false
      else kinds_match l1.link_kind l2.link_kind

  unfoldable pub find_link : String → Io Kernel Link
  unfolding ◌>>=◌
  find_link name = do found ← call (net.link_by_name name); lift (ok_or found link_not_found)

  -- The end of the branch of a link that exists: it is kept, or another one takes its place.
  unfoldable pub keep_or_replace : Bool → Link → Link → Io Kernel Link
  unfolding ◌>>=◌ ◌>>◌ find_link
  keep_or_replace true link existing = pure existing
  keep_or_replace false link existing = do
    call (net.link_del (net.as_index existing))
    reply ← observe (net.link_add link)
    lift (accept reply)
    find_link link.name

  unfoldable pub resolve : Link → AddReply → Io Kernel Link
  unfolding ◌>>=◌ find_link vxlan_links_incompat keep_or_replace
  resolve link added = find_link link.name
  resolve link already_exists = do
    existing ← find_link link.name
    keep_or_replace (vxlan_links_incompat link existing) link existing
  resolve link other_io = find_link link.name
  resolve link other_error = lift (err external)

  unfoldable pub ensure_vxlan_link : Link → Io Kernel Link
  unfolding ◌>>=◌ resolve
  ensure_vxlan_link link = do reply ← observe (net.link_add link); resolve link reply
