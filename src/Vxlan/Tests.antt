-- ===== src/Vxlan/Tests.antt =====
-- A VXLAN device, its peer and its link on a concrete kernel.
use mathlib.Core.List.{Memᴰ}
use Prim.Native.Char.{code}
use package.text.Mathlib.TextPositions.{eq_refl}
use flannel_ng.Base.{
  ℕ, zero, suc, ◌+◌, ◌==◌, ◌∙◌, ◌≡◌, ◌≢◌, ◌↔◌, refl, subst, ap, String, true, false, Option, none,
  some, [], ◌∷◌, arith,
}
use flannel_ng.Base.Outcome.{ok}
use flannel_ng.Crates.Reference.{reference, Json, text, number, object, end, member}
use flannel_ng.Samples.{third, sample_lease}
use flannel_ng.Lease.{LeaseAttrs, LeaseWatchEvent, put}
use flannel_ng.Netlink.{v4, Mac, VxlanLink, vxlan, Link, added, other_io}
use flannel_ng.Netlink.Reference.{
  Tables, tables_netlink, empty_tables, named, put_link, not_to, same_block,
}
use flannel_ng.Vxlan.{VxlanLeaseAttrs, Formats}
use flannel_ng.Vxlan.Links.{ensure_vxlan_link, vxlan_links_incompat, settings_match}
use flannel_ng.Vxlan.Links.Compatible.{BothVxlan, vxlan_links_incompat_iff}
use flannel_ng.Vxlan.Links.Ensured.{LinkLaws, IsEnsured, ensure_vxlan_link-IsEnsured}
use flannel_ng.Vxlan.Device.{VxlanDevice, new_hardware_addr}
use flannel_ng.Vxlan.Device.Address.{IsLocal, new_hardware_addr-IsLocal}
use flannel_ng.Vxlan.Network.{handle}
use flannel_ng.Vxlan.Network.Reachable.{NeighLaws, IsReachable, handle-IsReachable}
use flannel_ng.Vxlan.Setup.{lease_attrs}
use flannel_ng.Vxlan.Setup.Published.{FormatLaws, published-IsReachable}

abbrev settings : ℕ → VxlanLink
settings id = record (tables_netlink.default_vxlan) { vxlan_id = id; src_addr = some (v4 7) }

abbrev link_of : ℕ → ℕ → Link
link_of i id = record {
  index = i;
  name = "flannel.1";
  mtu = 1450;
  hardware_addr = some (2 ∷ 0 ∷ 0 ∷ 0 ∷ 0 ∷ 9 ∷ []);
  link_kind = vxlan (settings id);
}

vxlan_links_incompat_iff_example :
    (vxlan_links_incompat reference tables_netlink (link_of 0 1) (link_of 5 2) ≡ true) ↔ (
      (tables_netlink.kind ((link_of 0 1).link_kind)
        ≡ tables_netlink.kind ((link_of 5 2).link_kind))
      × BothVxlan ((link_of 0 1).link_kind) ((link_of 5 2).link_kind))
vxlan_links_incompat_iff_example =
    vxlan_links_incompat_iff reference tables_netlink (link_of 0 1) (link_of 5 2)

put_link-added :
    (l : Link) (o : Option Link) (k : Tables)
    → (put_link l o k).0 ≡ added
    → (l' : Link) × (named l.name ((put_link l o k).1.links) ≡ some l')
      × (l'.link_kind ≡ l.link_kind)
unfolding named
put_link-added l none k h = (record l { index = 5 }, rw (eq_refl l.name) refl, refl)
put_link-added l (some old) k h = absurd (cc h)

tables_links : LinkLaws reference tables_netlink
tables_links = record {
  links = λ k n. named n k.links;
  found-links = λ n k r h. cc h;
  by_name-links = λ n m k. refl;
  added-links = λ l k h. put_link-added l (named l.name k.links) k h;
}

-- A link of another network identifier is in the way.
abbrev with_other_link : Tables
with_other_link = record empty_tables { links = link_of 3 2 ∷ [] }

ensured :
    (found : Link) × (k' : Tables) × (ensure_vxlan_link reference tables_netlink
        (link_of 0 1)
        with_other_link
      ≡ (ok found, k'))
unfolding ensure_vxlan_link named vxlan_links_incompat settings_match
ensured = (_, _, refl)

exists_not_io : (tables_netlink.link_add (link_of 0 1) with_other_link).0 ≢ other_io
unfolding named
exists_not_io h = cc h

ensure_vxlan_link-IsEnsured_example :
    IsEnsured reference tables_netlink tables_links (link_of 0 1) ensured.0 ensured.1
ensure_vxlan_link-IsEnsured_example =
    ensure_vxlan_link-IsEnsured reference tables_netlink tables_links (link_of 0 1) (settings 1)
      with_other_link refl exists_not_io (ensured.2)

-- An entry replaces none: the last one of a key is at the head.
tables_neighs : NeighLaws reference tables_netlink
tables_neighs = record {
  Knows = λ k n. Memᴰ n k.neighs;
  Routed = λ k r. Memᴰ r k.routes;
  set-Knows = λ n k u h. Memᴰ.head refl;
  set_keeps-Knows = λ n m k other m_in. Memᴰ.tail m_in;
  replace-Routed = λ r k u h. Memᴰ.head refl;
  replace_keeps-Knows = λ r m k m_in. m_in;
  default_family = λ h. ground arith;
}

-- A byte as so many marks, and its end.
abbrev show_byte : ℕ → String → String
show_byte zero rest = String.◌∷◌ ":" rest
show_byte (suc n) rest = String.◌∷◌ "i" (show_byte n rest)

abbrev show_bytes : Mac → String
show_bytes [] = String.[]
show_bytes (b ∷ bytes) = show_byte b (show_bytes bytes)

abbrev put_byte : ℕ → Option Mac → Option Mac
put_byte n none = none
put_byte n (some bytes) = some (n ∷ bytes)

unfoldable read_bytes : ℕ → String → Option Mac
read_bytes n String.[] = some []
read_bytes n (String.◌∷◌ ch s) = elim (code ch == 58) [
  | true ↦ put_byte n (read_bytes 0 s)
  | false ↦ read_bytes (suc n) s
]

read_bytes-show_byte :
    (n b : ℕ) (rest : String)
    → read_bytes n (show_byte b rest) ≡ put_byte (n + b) (read_bytes 0 rest)
unfolding read_bytes
read_bytes-show_byte n zero rest =
    let e : n ≡ n + 0 = omega arith in ap (λ m. put_byte m (read_bytes 0 rest)) e
read_bytes-show_byte n (suc b) rest =
    let e : suc n + b ≡ n + suc b = omega arith in
    read_bytes-show_byte (suc n) b rest ∙ ap (λ m. put_byte m (read_bytes 0 rest)) e

read_bytes-show_bytes : (m : Mac) → read_bytes 0 (show_bytes m) ≡ some m
unfolding read_bytes
read_bytes-show_bytes [] = refl
read_bytes-show_bytes (b ∷ bytes) =
    let e : 0 + b ≡ b = omega arith in
    read_bytes-show_byte 0 b (show_bytes bytes) ∙ cc (e, read_bytes-show_bytes bytes)

abbrev read_attrs : Json → Option VxlanLeaseAttrs
read_attrs (object (member k (number vni) (member j (text mac) end))) =
    some (record { vni = vni; vtep_mac = mac })
read_attrs v = none

abbrev written : VxlanLeaseAttrs → Json
written a = object (member "VNI" (number a.vni) (member "VtepMAC" (text a.vtep_mac) end))

abbrev formats : Formats reference
formats = record {
  to_config = λ v. none;
  to_lease_attrs = read_attrs;
  from_lease_attrs = λ a. some (written a);
  show_mac = show_bytes;
  parse_mac = read_bytes 0;
  show_number = λ n. "1";
}

read_attrs-from :
    (a : VxlanLeaseAttrs) (v : Json) → formats.from_lease_attrs a ≡ some v → read_attrs v ≡ some a
read_attrs-from a v h = let e : written a ≡ v = cc h in subst (λ v. read_attrs v ≡ some a) e refl

formats_back : FormatLaws reference formats
formats_back = record { to-from = read_attrs-from; parse-show = read_bytes-show_bytes }

abbrev peer_mac : Mac
peer_mac = 6 ∷ 1 ∷ 0 ∷ 2 ∷ 0 ∷ 3 ∷ []

published :
    (attrs : LeaseAttrs reference) × (lease_attrs reference tables_netlink formats 9 1 peer_mac
      ≡ ok attrs)
unfolding lease_attrs
published = (_, refl)

abbrev put_third : LeaseWatchEvent reference
put_third = record {
  lease = record (sample_lease third 9) { attrs = published.0 };
  event_type = put;
}

abbrev device : VxlanDevice
device = record { link = link_of 5 1; direct_routing = false }

handled :
    (k' : Tables) × (handle reference tables_netlink formats device put_third empty_tables
      ≡ (ok tt, k'))
unfolding handle read_bytes not_to same_block published
handled = (_, refl)

published-IsReachable_example :
    IsReachable reference tables_netlink tables_neighs device put_third.lease peer_mac handled.0
published-IsReachable_example =
    published-IsReachable reference tables_netlink tables_neighs formats formats_back 9 1 peer_mac
      device put_third empty_tables refl (published.1) (handled.1)

handle-IsReachable_example :
    IsReachable reference tables_netlink tables_neighs device put_third.lease peer_mac handled.0
unfolding read_bytes published
handle-IsReachable_example =
    handle-IsReachable reference tables_netlink tables_neighs formats device put_third peer_mac
      empty_tables
      (record {
        put_event = refl;
        kind = refl;
        data_value = _;
        has_data = refl;
        peer = _;
        parsed = refl;
        mac_parsed = refl;
      })
      (handled.1)

new_hardware_addr-IsLocal_example :
    IsLocal 0x0B (1 ∷ 0 ∷ 2 ∷ 0 ∷ 3 ∷ []) (new_hardware_addr (0x0B ∷ 1 ∷ 0 ∷ 2 ∷ 0 ∷ 3 ∷ []))
new_hardware_addr-IsLocal_example =
    new_hardware_addr-IsLocal 0x0B (1 ∷ 0 ∷ 2 ∷ 0 ∷ 3 ∷ []) (omega arith)
