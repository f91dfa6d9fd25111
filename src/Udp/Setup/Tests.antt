-- ===== src/Udp/Setup/Tests.antt =====
-- The set-up of a TUN device on a concrete kernel.
use mathlib.Core.List.{Memᴰ}
use native.Mathlib.Decide.{dec_lt, dec_le}
use flannel_ng.Base.{
  ℕ, ◌≡◌, refl, inl, inr, ◌==◌, true, none, List, [], ◌∷◌, arith, All, Bool-cases,
}
use flannel_ng.Base.Outcome.{ok}
use flannel_ng.Crates.Reference.{Block, reference, reference_laws, make, base}
use flannel_ng.Netlink.{Link, other}
use flannel_ng.Netlink.Reference.{Tables, tables_netlink, empty_tables, named, resized}
use flannel_ng.Udp.Setup.{configure_tun}
use flannel_ng.Udp.Setup.Configured.{TunLaws, IsTun, configure_tun-IsTun}

-- Every link of the index has the MTU.
abbrev MtuOf : ℕ → ℕ → Link → Type 0
MtuOf i mtu l = (l.index == i) ≡ true → l.mtu ≡ mtu

resized-All : (i mtu : ℕ) (ls : List Link) → All (MtuOf i mtu) (resized i mtu ls)
unfolding resized
resized-All i mtu [] = tt
resized-All i mtu (l ∷ ls) = elim (Bool-cases (l.index == i)) [
  | inl here ↦ rw here ((λ _. refl), resized-All i mtu ls)
  | inr elsewhere ↦ rw elsewhere ((λ h. absurd (cc (h, elsewhere))), resized-All i mtu ls)
]

tables_tun : TunLaws reference tables_netlink
tables_tun = record {
  HasAddr = λ k i a. Memᴰ (i, a) k.addrs;
  HasMtu = λ k i mtu. All (MtuOf i mtu) k.links;
  Routed = λ k r. Memᴰ r k.routes;
  add-HasAddr = λ i a k u h. Memᴰ.head refl;
  mtu-HasMtu = λ i mtu k u h. resized-All i mtu k.links;
  add-Routed = λ r k u h. Memᴰ.head refl;
  mtu_keeps-HasAddr = λ j mtu i a k h. h;
  up_keeps-HasAddr = λ j i a k h. h;
  route_keeps-HasAddr = λ r i a k h. h;
  up_keeps-HasMtu = λ j i mtu k h. h;
  route_keeps-HasMtu = λ r i mtu k h. h;
}

-- 172.17.43.1/16
abbrev tun_net : Block
tun_net = ((0xAC112B01, 16), (omega arith, omega arith))

abbrev flannel0 : Link
flannel0 = record {
  index = 7;
  name = "flannel0";
  mtu = 1500;
  hardware_addr = none;
  link_kind = other "tun";
}

abbrev opened : Tables
opened = record empty_tables { links = flannel0 ∷ [] }

configured :
    (k' : Tables) × (configure_tun reference tables_netlink "flannel0" tun_net 1472 opened
      ≡ (ok tt, k'))
unfolding configure_tun named resized make base dec_lt dec_le
configured = (_, refl)

configure_tun-IsTun_example :
    IsTun reference reference_laws tables_netlink tables_tun "flannel0" tun_net 1472 opened
      configured.0
configure_tun-IsTun_example =
    configure_tun-IsTun reference reference_laws tables_netlink tables_tun "flannel0" tun_net 1472
      opened (configured.1)
