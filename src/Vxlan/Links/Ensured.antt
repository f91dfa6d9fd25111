-- ===== src/Vxlan/Links/Ensured.antt =====
-- Which link `ensure_vxlan_link` of src/backend/vxlan/device.rs comes back with.
use flannel_ng.Base.{
  String, ◌≡◌, ◌≢◌, refl, sym, subst, ap, ◌∙◌, inr, Bool, true, false, Option, none, some,
}
use flannel_ng.Base.Outcome.{ok, ok_or, ok_or-ok, link_not_found}
use flannel_ng.Base.Io.{
  pure, lift, call, observe, ◌>>=◌, ◌>>◌, >>=-eq-ok, lift-ok, call-ok, observe-ok,
}
use flannel_ng.Crates.{Crates}
use flannel_ng.Netlink.{
  IpAddr, VxlanLink, vxlan, Link, AddReply, added, already_exists, other_io, other_error, Netlink,
}
use flannel_ng.Vxlan.Links.{
  vxlan_links_incompat, find_link, accept, keep_or_replace, resolve, ensure_vxlan_link,
}
use flannel_ng.Vxlan.Links.Compatible.{AgreeIfGiven, SettingsAgree, vxlan_links_incompat_iff}

-- What the program relies on of the kernel's links.
pub record LinkLaws (c : Crates) (net : Netlink c) : Type 0 where
  pub links : net.Kernel → String → Option Link
  -- a look-up answers with the link of the name, and changes no link
  pub found-links :
      (n : String) (k : net.Kernel) (r : Option Link)
      → (net.link_by_name n k).0 ≡ some r
      → r ≡ links k n
  pub by_name-links :
      (n m : String) (k : net.Kernel) → links ((net.link_by_name n k).1) m ≡ links k m
  -- a link that is added is of the kind asked for
  pub added-links :
      (l : Link) (k : net.Kernel)
      → (net.link_add l k).0 ≡ added
      → (l' : Link) × (links ((net.link_add l k).1) l.name ≡ some l') × (l'.link_kind ≡ l.link_kind)

AgreeIfGiven-refl : (a : Option IpAddr) → AgreeIfGiven a a
AgreeIfGiven-refl none = tt
AgreeIfGiven-refl (some a) = refl

SettingsAgree-refl : (v : VxlanLink) → SettingsAgree v v
SettingsAgree-refl v = record {
  same_id = refl;
  device = inr (inr refl);
  source = AgreeIfGiven-refl v.src_addr;
  multicast = AgreeIfGiven-refl v.group;
  same_l2miss = refl;
  ports = inr (inr refl);
  same_gbp = refl;
}

accept-ok : (r : AddReply) {u : Unit {0}} → accept r ≡ ok u → r ≡ added
accept-ok added h = refl
accept-ok already_exists h = absurd (cc h)
accept-ok other_io h = absurd (cc h)
accept-ok other_error h = absurd (cc h)

module _ (c : Crates) (net : Netlink c) (laws : LinkLaws c net) where
  open net use {Kernel}

  same_kind-incompat :
      (l l' : Link) (v : VxlanLink)
      → l.link_kind ≡ vxlan v
      → l'.link_kind ≡ l.link_kind
      → vxlan_links_incompat c net l l' ≡ true
  same_kind-incompat l l' v e same =
      (vxlan_links_incompat_iff c net l l').1
        (ap net.kind (sym same), (v, v, e, same ∙ e, SettingsAgree-refl v))

  find_link-ok :
      (name : String) (k : Kernel) {l : Link} {k' : Kernel}
      → find_link c net name k ≡ (ok l, k')
      → (laws.links k name ≡ some l) × (laws.links k' name ≡ some l)
  unfolding find_link
  find_link-ok name k h =
      let (found, k1, read, h1) =
        >>=-eq-ok (call (net.link_by_name name)) (λ found. lift (ok_or found link_not_found)) k h in
      let (given, at) = call-ok (net.link_by_name name) k read in
      let (present, same) = lift-ok (ok_or found link_not_found) k1 h1 in
      let there : laws.links k name ≡ some _ =
        sym (laws.found-links name k found given) ∙ ok_or-ok found link_not_found present in
      (there, cc (laws.by_name-links name name k, at, same, there))

  -- The link is in the kernel under the name, and compatible with the one asked for.
  abbrev pub IsEnsured : Link → Link → Kernel → Type 0
  IsEnsured link found k =
      (laws.links k link.name ≡ some found) × (vxlan_links_incompat c net link found ≡ true)

  -- There is a link of the kind asked for under the name.
  abbrev HasKind : Link → Kernel → Type 0
  HasKind link k = (l : Link) × (laws.links k link.name ≡ some l) × (l.link_kind ≡ link.link_kind)

  find_link-IsEnsured :
      (link : Link) (v : VxlanLink) (k : Kernel) {found : Link} {k' : Kernel}
      → link.link_kind ≡ vxlan v
      → HasKind link k
      → find_link c net link.name k ≡ (ok found, k')
      → IsEnsured link found k'
  find_link-IsEnsured link v k {found} e (l', there, same) h =
      let (before, after) = find_link-ok link.name k h in
      let it : l' ≡ found = cc (there, before) in
      (after, same_kind-incompat link found v e (sym (ap (λ (l : Link). l.link_kind) it) ∙ same))

  observed-HasKind :
      (link : Link) (k : Kernel) {reply : AddReply} {k' : Kernel}
      → observe (net.link_add link) k ≡ (ok reply, k')
      → reply ≡ added
      → HasKind link k'
  observed-HasKind link k h e =
      let (answer, at) = observe-ok (net.link_add link) k h in
      let (l', there, same) = laws.added-links link k (answer ∙ e) in
      (l', ap (λ k. laws.links k link.name) (sym at) ∙ there, same)

  kept_or_replaced :
      (kept : Bool) (link existing : Link) (v : VxlanLink) (k : Kernel) {found : Link} {k' : Kernel}
      → link.link_kind ≡ vxlan v
      → kept ≡ vxlan_links_incompat c net link existing
      → laws.links k link.name ≡ some existing
      → keep_or_replace c net kept link existing k ≡ (ok found, k')
      → IsEnsured link found k'
  unfolding keep_or_replace pure ◌>>◌
  kept_or_replaced true link existing v k e test there h =
      (cc (there, ap (λ p. p.0) h, ap (λ p. p.1) h), cc (test, ap (λ p. p.0) h))
  kept_or_replaced false link existing v k e test there h =
      let index = net.as_index existing in
      let (u, k1, deleted, h1) =
        >>=-eq-ok (call (net.link_del index))
          (λ u. observe (net.link_add link) >>= λ reply.
            lift (accept reply) >> find_link c net link.name)
          k h in
      let (reply, k2, tried, h2) =
        >>=-eq-ok (observe (net.link_add link))
          (λ reply. lift (accept reply) >> find_link c net link.name) k1 h1 in
      let (w, k3, accepted, h3) =
        >>=-eq-ok (lift (accept reply)) (λ w. find_link c net link.name) k2 h2 in
      let (fine, same) = lift-ok (accept reply) k2 accepted in
      find_link-IsEnsured link v k3 e
        (subst (HasKind link) same (observed-HasKind link k1 tried (accept-ok reply fine))) h3

  resolve-IsEnsured :
      (link : Link) (reply : AddReply) (v : VxlanLink) (k : Kernel) {found : Link} {k' : Kernel}
      → link.link_kind ≡ vxlan v
      → reply ≢ other_io
      → (reply ≡ added → HasKind link k)
      → resolve c net link reply k ≡ (ok found, k')
      → IsEnsured link found k'
  unfolding resolve
  resolve-IsEnsured link added v k e plain new h = find_link-IsEnsured link v k e (new refl) h
  resolve-IsEnsured link already_exists v k e plain new h =
      let (existing, k1, read, h1) =
        >>=-eq-ok (find_link c net link.name)
          (λ existing.
            keep_or_replace c net (vxlan_links_incompat c net link existing) link existing)
          k h in
      let (before, after) = find_link-ok link.name k read in
      kept_or_replaced (vxlan_links_incompat c net link existing) link existing v k1 e refl after h1
  resolve-IsEnsured link other_io v k e plain new h = absurd (plain refl)
  resolve-IsEnsured link other_error v k e plain new h = absurd (cc (ap (λ p. p.0) h))

  -- For a VXLAN link, where `link_add` does not fail with an input/output error other than that the
  -- link exists: the link that `ensure_vxlan_link` returns is in the kernel under the name asked
  -- for, and is compatible with the link asked for, whether it was there, is new, or has taken the
  -- place of another.
  pub ensure_vxlan_link-IsEnsured :
      (link : Link) (v : VxlanLink) (k : Kernel) {found : Link} {k' : Kernel}
      → link.link_kind ≡ vxlan v
      → (net.link_add link k).0 ≢ other_io
      → ensure_vxlan_link c net link k ≡ (ok found, k')
      → IsEnsured link found k'
  unfolding ensure_vxlan_link
  ensure_vxlan_link-IsEnsured link v k e plain h =
      let (reply, k1, tried, h1) =
        >>=-eq-ok (observe (net.link_add link)) (resolve c net link) k h in
      let (answer, at) = observe-ok (net.link_add link) k tried in
      resolve-IsEnsured link reply v k1 e (λ io. plain (answer ∙ io))
        (observed-HasKind link k tried) h1
