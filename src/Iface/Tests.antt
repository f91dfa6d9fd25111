-- ===== src/Iface/Tests.antt =====
-- The external interface and the addresses of a link, on a concrete kernel.
use text.Mathlib.TextEquality.{eq_iff}
use flannel_ng.Base.{
  ℕ, ◌≡◌, ◌↔◌, refl, ap, inl, inr, Bool, true, not, ◌&&◌, none, some, List, [], ◌∷◌, ◌++◌, retain,
  ◌==◌, str_eq, arith, Bool-cases,
}
use flannel_ng.Base.Outcome.{ok}
use flannel_ng.Crates.Reference.{Block, reference, reference_laws, same, holds, base}
use flannel_ng.Samples.{third, sample_network}
use flannel_ng.Netlink.{IpNetwork, net4, net6, Addr, Link, other}
use flannel_ng.Netlink.Reference.{
  Tables, tables_netlink, empty_tables, of_link, drop_addr, same_addr, same_ipnet, same_block,
  indexed,
}
use flannel_ng.Iface.{
  Interface, ExternalInterface, is_usable, is_link_local, wanted_addr, ensure_v4_addr_on_link,
  get_iface_addrs, lookup_ext_iface,
}
use flannel_ng.Iface.OnLink.{AddrLaws, IsAlone, ensure_v4_addr_on_link-IsAlone}
use flannel_ng.Iface.External.{ipv4s, IsChosen, get_iface_addrs_lem, lookup_ext_iface-IsChosen}

same_block_iff : (b d : Block) → (same_block b d ≡ true) ↔ (b ≡ d)
unfolding same_block same
same_block_iff b d = reference_laws.equal_iff b d

same_ipnet_iff : (a b : IpNetwork reference) → (same_ipnet a b ≡ true) ↔ (a ≡ b)
same_ipnet_iff (net4 b) (net4 d) =
    ((λ h. ap net4 ((same_block_iff b d).0 h)), (λ e. (same_block_iff b d).1 (cc e)))
same_ipnet_iff (net4 b) (net6 u) = ((λ h. absurd (cc h)), (λ e. absurd (cc e)))
same_ipnet_iff (net6 u) (net4 d) = ((λ h. absurd (cc h)), (λ e. absurd (cc e)))
same_ipnet_iff (net6 u) (net6 w) = ((λ h. refl), (λ e. refl))

both : (p q : Bool) → (p && q) ≡ true → (p ≡ true) × (q ≡ true)
both p q h = ground arith

same_addr_iff : (a b : Addr reference) → (same_addr a b ≡ true) ↔ (a ≡ b)
unfolding same_addr
same_addr_iff a b = (
  (λ h.
      let (i, l) = both (same_ipnet a.ipnet b.ipnet) (str_eq a.label b.label) h in
      cc ((same_ipnet_iff a.ipnet b.ipnet).0 i, (eq_iff a.label b.label).0 l)),
  (λ e.
      rw ((same_ipnet_iff a.ipnet b.ipnet).1 (ap (λ (x : Addr reference). x.ipnet) e))
        ((eq_iff a.label b.label).1 (ap (λ (x : Addr reference). x.label) e))),
)

of_link-drop_addr :
    (i : ℕ) (a : Addr reference) (addrs : List (ℕ × Addr reference))
    → of_link i (drop_addr i a addrs) ≡ retain (λ x. not (same_addr x a)) (of_link i addrs)
unfolding of_link drop_addr
of_link-drop_addr i a [] = refl
of_link-drop_addr i a ((j, x) ∷ addrs) =
    let rest = of_link-drop_addr i a addrs in
    elim (Bool-cases (j == i)) [
      | inl here ↦ elim (Bool-cases (same_addr x a)) [
        | inl is ↦ rw (here, is) rest
        | inr not_it ↦ rw (here, not_it) (rw here (ap (λ l. x ∷ l) rest))
      ]
      | inr elsewhere ↦ rw elsewhere (rw elsewhere rest)
    ]

of_link-head :
    (i : ℕ) (a : Addr reference) (addrs : List (ℕ × Addr reference))
    → of_link i ((i, a) ∷ addrs) ≡ a ∷ of_link i addrs
unfolding of_link
of_link-head i a addrs = ground arith

tables_addrs : AddrLaws reference tables_netlink
tables_addrs = record {
  addrs = λ k i. of_link i k.addrs;
  equal_addr_iff = same_addr_iff;
  listed-addrs = λ i k l h. (cc h, refl);
  added-addrs = λ i a k u h. of_link-head i a k.addrs;
  deleted-addrs = λ i a k u h. of_link-drop_addr i a k.addrs;
}

abbrev with_addr : Block → Addr reference
with_addr b = record { ipnet = net4 b; label = "" }

-- 172.17.5.1/32, and 10.0.0.1/8
abbrev stale : Block
stale = ((0xAC110501, 32), (omega arith, omega arith))

abbrev elsewhere : Block
elsewhere = ((0x0A000001, 8), (omega arith, omega arith))

abbrev addressed : Tables
addressed = record empty_tables {
  addrs = (5, with_addr stale) ∷ (5, with_addr elsewhere) ∷ (6, with_addr stale) ∷ [];
}

ensured :
    (k' : Tables) × (ensure_v4_addr_on_link reference tables_netlink third sample_network 5
        addressed
      ≡ (ok tt, k'))
unfolding ensure_v4_addr_on_link of_link drop_addr same_addr same_block holds base
ensured = (_, refl)

ensure_v4_addr_on_link-IsAlone_example :
    IsAlone reference tables_netlink tables_addrs
      (wanted_addr reference tables_netlink third)
      sample_network
      5
      (tables_addrs.addrs ensured.0 5)
ensure_v4_addr_on_link-IsAlone_example =
    ensure_v4_addr_on_link-IsAlone reference tables_netlink tables_addrs third sample_network 5
      addressed (ensured.1)

-- 169.254.1.1/16 and 0.0.0.0/0
abbrev local : Block
local = ((0xA9FE0101, 16), (omega arith, omega arith))

abbrev any : Block
any = ((0, 0), (omega arith, omega arith))

abbrev eth0 : Link
eth0 = record {
  index = 2;
  name = "eth0";
  mtu = 1500;
  hardware_addr = none;
  link_kind = other "device";
}

abbrev connected : Tables
connected = record empty_tables {
  routes = record (tables_netlink.default_route) { link_index = 2 } ∷ [];
  links = eth0 ∷ [];
  addrs = (2, with_addr local) ∷ (2, with_addr elsewhere) ∷ [];
}

chosen :
    (ext : ExternalInterface) × (k' : Tables) × (lookup_ext_iface reference tables_netlink any
        connected
      ≡ (ok ext, k'))
unfolding lookup_ext_iface indexed of_link
chosen = (_, _, refl)

lookup_ext_iface-IsChosen_example : IsChosen reference tables_netlink any connected chosen.0
lookup_ext_iface-IsChosen_example =
    lookup_ext_iface-IsChosen reference tables_netlink any connected (chosen.2)

abbrev iface0 : Interface
iface0 = record { index = 2; mtu = 1500; name = "eth0" }

found :
    (addrs : List ℕ) × (k' : Tables) × (get_iface_addrs reference tables_netlink iface0 connected
      ≡ (ok addrs, k'))
unfolding get_iface_addrs of_link
found = (_, _, refl)

get_iface_addrs_lem_example :
    (listed : List (Addr reference)) × ((tables_netlink.addr_list 2 connected).0 ≡ some listed)
    × (found.0
        ≡ retain is_usable (ipv4s reference listed)
          ++ retain is_link_local (ipv4s reference listed))
get_iface_addrs_lem_example =
    get_iface_addrs_lem reference tables_netlink iface0 connected (found.2)
