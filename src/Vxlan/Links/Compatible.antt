-- ===== src/Vxlan/Links/Compatible.antt =====
-- What `vxlan_links_incompat` of src/backend/vxlan/device.rs decides.
use text.Mathlib.TextEquality.{eq_iff}
use flannel_ng.Base.{
  ℕ, ◌≡◌, ◌↔◌, ◌⊎◌, refl, Bool, true, false, not, Option, none, some, arith, inl, inr, Bool-cases,
  str_eq, ◌==◌, if◌then◌else◌,
}
use flannel_ng.Crates.{Crates}
use flannel_ng.Netlink.{IpAddr, v4, v6, same_ip, VxlanLink, LinkKind, vxlan, other, Link, Netlink}
use flannel_ng.Vxlan.Links.{
  numbers_differ, addresses_differ, flags_differ, settings_match, kinds_match, vxlan_links_incompat,
}

-- A number that is not set is 0.
abbrev pub AgreeIfSet : ℕ → ℕ → Type 0
AgreeIfSet a b = (a ≡ 0) ⊎ (b ≡ 0) ⊎ (a ≡ b)

abbrev pub AgreeIfGiven : Option IpAddr → Option IpAddr → Type 0
AgreeIfGiven none b = Unit
AgreeIfGiven (some a) none = Unit
AgreeIfGiven (some a) (some b) = a ≡ b

pub record SettingsAgree (v1 v2 : VxlanLink) : Type 0 where
  pub same_id : v1.vxlan_id ≡ v2.vxlan_id
  pub device : AgreeIfSet v1.vtep_dev_index v2.vtep_dev_index
  pub source : AgreeIfGiven v1.src_addr v2.src_addr
  pub multicast : AgreeIfGiven v1.group v2.group
  pub same_l2miss : v1.l2miss ≡ v2.l2miss
  pub ports : AgreeIfSet v1.port v2.port
  pub same_gbp : v1.gbp ≡ v2.gbp

numbers_differ-false : (a b : ℕ) → (numbers_differ a b ≡ false) ↔ AgreeIfSet a b
numbers_differ-false a b = (ground arith, ground arith)

same_ip_iff : (a b : IpAddr) → (same_ip a b ≡ true) ↔ (a ≡ b)
same_ip_iff (v4 a) (v4 b) = ground arith
same_ip_iff (v4 a) (v6 b) = ground arith
same_ip_iff (v6 a) (v4 b) = ground arith
same_ip_iff (v6 a) (v6 b) = ground arith

addresses_differ-false : (a b : Option IpAddr) → (addresses_differ a b ≡ false) ↔ AgreeIfGiven a b
addresses_differ-false none b = ground arith
addresses_differ-false (some a) none = ground arith
addresses_differ-false (some a) (some b) = ground (arith, same_ip_iff a b)

flags_differ-false : (a b : Bool) → (flags_differ a b ≡ false) ↔ (a ≡ b)
flags_differ-false true b = ground arith
flags_differ-false false b = ground arith

abbrev chain_of : (i d s g l p b : Bool) → Bool
chain_of i d s g l p b =
    if not i
    then false
    else if d
    then false
    else if s
    then false
    else if g
    then false
    else if l
    then false
    else if p
    then false
    else if b
    then false
    else true

chain :
    (i d s g l p b : Bool)
    → chain_of i d s g l p b ≡ true
    → (i ≡ true) × (d ≡ false) × (s ≡ false) × (g ≡ false) × (l ≡ false) × (p ≡ false) × (b ≡ false)
chain i d s g l p b h = ground arith

matched : (v1 v2 : VxlanLink) → SettingsAgree v1 v2 → settings_match v1 v2 ≡ true
unfolding settings_match
matched v1 v2 agree =
    let i : (v1.vxlan_id == v2.vxlan_id) ≡ true = ground arith in
    simp (
      i,
      (numbers_differ-false v1.vtep_dev_index v2.vtep_dev_index).1 agree.device,
      (addresses_differ-false v1.src_addr v2.src_addr).1 agree.source,
      (addresses_differ-false v1.group v2.group).1 agree.multicast,
      (flags_differ-false v1.l2miss v2.l2miss).1 agree.same_l2miss,
      (numbers_differ-false v1.port v2.port).1 agree.ports,
      (flags_differ-false v1.gbp v2.gbp).1 agree.same_gbp,
    )

-- Every test of the chain fails.
settings_match-true :
    (v1 v2 : VxlanLink)
    → settings_match v1 v2 ≡ true
    → ((v1.vxlan_id == v2.vxlan_id) ≡ true)
      × (numbers_differ v1.vtep_dev_index v2.vtep_dev_index ≡ false)
      × (addresses_differ v1.src_addr v2.src_addr ≡ false)
      × (addresses_differ v1.group v2.group ≡ false)
      × (flags_differ v1.l2miss v2.l2miss ≡ false)
      × (numbers_differ v1.port v2.port ≡ false)
      × (flags_differ v1.gbp v2.gbp ≡ false)
unfolding settings_match
settings_match-true v1 v2 h =
    chain (v1.vxlan_id == v2.vxlan_id) (numbers_differ v1.vtep_dev_index v2.vtep_dev_index)
      (addresses_differ v1.src_addr v2.src_addr) (addresses_differ v1.group v2.group)
      (flags_differ v1.l2miss v2.l2miss) (numbers_differ v1.port v2.port)
      (flags_differ v1.gbp v2.gbp) h

settings_match_iff : (v1 v2 : VxlanLink) → (settings_match v1 v2 ≡ true) ↔ SettingsAgree v1 v2
settings_match_iff v1 v2 = (
  (λ h.
      let (i, d, s, g, l, p, b) = settings_match-true v1 v2 h in
      record {
        same_id = ground arith;
        device = (numbers_differ-false v1.vtep_dev_index v2.vtep_dev_index).0 d;
        source = (addresses_differ-false v1.src_addr v2.src_addr).0 s;
        multicast = (addresses_differ-false v1.group v2.group).0 g;
        same_l2miss = (flags_differ-false v1.l2miss v2.l2miss).0 l;
        ports = (numbers_differ-false v1.port v2.port).0 p;
        same_gbp = (flags_differ-false v1.gbp v2.gbp).0 b;
      }),
  (λ agree. matched v1 v2 agree),
)

-- Both links are VXLAN links, with settings that agree.
abbrev pub BothVxlan : LinkKind → LinkKind → Type 0
BothVxlan k1 k2 =
    (v1 : VxlanLink) × (v2 : VxlanLink) × (k1 ≡ vxlan v1) × (k2 ≡ vxlan v2) × SettingsAgree v1 v2

kinds_match_iff : (k1 k2 : LinkKind) → (kinds_match k1 k2 ≡ true) ↔ BothVxlan k1 k2
kinds_match_iff (vxlan v1) (vxlan v2) = (
  (λ h. (v1, v2, refl, refl, (settings_match_iff v1 v2).0 h)),
  (λ (w1, w2, e1, e2, agree). cc (matched w1 w2 agree, e1, e2)),
)
kinds_match_iff (vxlan v1) (other s) =
    ((λ h. absurd (cc h)), (λ (w1, w2, e1, e2, agree). absurd (cc e2)))
kinds_match_iff (other s) k = ((λ h. absurd (cc h)), (λ (w1, w2, e1, e2, agree). absurd (cc e1)))

module _ (c : Crates) (net : Netlink c) where
  -- Two links with the same kind of link are compatible exactly when both are VXLAN links, their
  -- identifiers and flags are equal, and their devices, addresses and ports are equal where both
  -- are set.
  pub vxlan_links_incompat_iff :
      (l1 l2 : Link)
      → (vxlan_links_incompat c net l1 l2 ≡ true)
        ↔ ((net.kind l1.link_kind ≡ net.kind l2.link_kind) × BothVxlan l1.link_kind l2.link_kind)
  unfolding vxlan_links_incompat
  vxlan_links_incompat_iff l1 l2 =
      let names = eq_iff (net.kind l1.link_kind) (net.kind l2.link_kind) in
      let kinds = kinds_match_iff l1.link_kind l2.link_kind in
      elim (Bool-cases (str_eq (net.kind l1.link_kind) (net.kind l2.link_kind))) [
        | inl same ↦ ((λ h. (names.0 same, kinds.0 (rw same at h))), (λ h. rw same (kinds.1 h.1)))
        | inr differ ↦
            ((λ h. absurd (cc (rw differ at h))), (λ h. absurd (cc (names.1 h.0, differ))))
      ]
