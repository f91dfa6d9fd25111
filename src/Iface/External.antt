-- ===== src/Iface/External.antt =====
-- Which address `lookup_ext_iface` of src/main.rs settles on.
use mathlib.Core.List.{append-nil, append_assoc}
use flannel_ng.Base.{
  ℕ, ◌≡◌, ◌≢◌, refl, sym, subst, ap, ◌∙◌, ◌⊎◌, inl, inr, Bool, true, false, Option, none, some,
  List, [], ◌∷◌, ◌++◌, retain, arith, Bool-cases, All, if◌then◌else◌,
}
use flannel_ng.Base.Outcome.{ok, ok_or, ok_or-ok, no_gateway, unwrap, unwrap-ok}
use flannel_ng.Base.Io.{pure, lift, call, ◌>>=◌, >>=-eq-ok, call-ok, lift-ok, pure-ok}
use flannel_ng.Crates.{Crates}
use flannel_ng.Netlink.{Addr, Netlink}
use flannel_ng.HostGw
use flannel_ng.Iface.{
  Interface, ExternalInterface, is_usable, is_link_local, ipv4_of, sort_addr, sort_addrs, nonempty,
  last, get_default_gateway_interface, get_iface_addrs, lookup_ext_iface,
}

usable_not_local : (ip : ℕ) → is_usable ip ≡ true → is_link_local ip ≡ false
unfolding is_usable
usable_not_local ip h = ground arith

abbrev placed : Bool → Bool → ℕ → List ℕ → List ℕ → List ℕ × List ℕ
placed usable local ip addrs ll =
    if usable
    then (addrs ++ (ip ∷ []), ll)
    else if local
    then (addrs, ll ++ (ip ∷ []))
    else (addrs, ll)

-- An address that is usable goes to the first list, and one that is link-local to the second.
sorted :
    (usable local : Bool) (ip : ℕ) (addrs ll xs ys : List ℕ)
    → (usable ≡ true → local ≡ false)
    → ((placed usable local ip addrs ll).0 ++ xs ≡ addrs ++ (if usable then ip ∷ xs else xs))
      × ((placed usable local ip addrs ll).1 ++ ys ≡ ll ++ (if local then ip ∷ ys else ys))
sorted true true ip addrs ll xs ys h = absurd (cc (h refl))
sorted true false ip addrs ll xs ys h = (simp append_assoc, refl)
sorted false true ip addrs ll xs ys h = (refl, simp append_assoc)
sorted false false ip addrs ll xs ys h = (refl, refl)

module _ (c : Crates) where
  -- The IPv4 addresses of a listing, in order.
  abbrev pub add_ipv4 : Option ℕ → List ℕ → List ℕ
  add_ipv4 none ips = ips
  add_ipv4 (some ip) ips = ip ∷ ips

  abbrev pub ipv4s : List (Addr c) → List ℕ
  ipv4s [] = []
  ipv4s (a ∷ rest) = add_ipv4 (ipv4_of c a.ipnet) (ipv4s rest)

  sort_addr_lem :
      (o : Option ℕ) (ips addrs ll : List ℕ)
      → ((sort_addr c o (addrs, ll)).0 ++ retain is_usable ips
          ≡ addrs ++ retain is_usable (add_ipv4 o ips))
        × ((sort_addr c o (addrs, ll)).1 ++ retain is_link_local ips
            ≡ ll ++ retain is_link_local (add_ipv4 o ips))
  unfolding sort_addr
  sort_addr_lem none ips addrs ll = (refl, refl)
  sort_addr_lem (some ip) ips addrs ll =
      sorted (is_usable ip) (is_link_local ip) ip addrs ll (retain is_usable ips)
        (retain is_link_local ips) (usable_not_local ip)

  sort_addrs_lem :
      (listed : List (Addr c)) (addrs ll : List ℕ)
      → ((sort_addrs c listed (addrs, ll)).0 ≡ addrs ++ retain is_usable (ipv4s listed))
        × ((sort_addrs c listed (addrs, ll)).1 ≡ ll ++ retain is_link_local (ipv4s listed))
  unfolding sort_addrs
  sort_addrs_lem [] addrs ll = (sym (append-nil addrs), sym (append-nil ll))
  sort_addrs_lem (a ∷ rest) addrs ll =
      let o = ipv4_of c a.ipnet in
      let st = sort_addr c o (addrs, ll) in
      let (usable, local) = sort_addrs_lem rest st.0 st.1 in
      let (usable', local') = sort_addr_lem o (ipv4s rest) addrs ll in
      (usable ∙ usable', local ∙ local')

-- What is popped from a list that ends in addresses of one kind is one of them.
last-All :
    (P : ℕ → Type 0) (xs ys : List ℕ) {a : ℕ} → All P ys → ys ≢ [] → last (xs ++ ys) ≡ some a → P a
last-All P [] [] h ne e = absurd (ne refl)
last-All P [] (y ∷ []) h ne e = subst P (cc e) h.0
last-All P [] (y ∷ y' ∷ ys) h ne e = last-All P [] (y' ∷ ys) h.1 (λ e'. absurd (cc e')) e
last-All P (x ∷ []) [] h ne e = absurd (ne refl)
last-All P (x ∷ []) (y ∷ ys) h ne e = last-All P [] (y ∷ ys) h ne e
last-All P (x ∷ x' ∷ xs) ys h ne e = last-All P (x' ∷ xs) ys h ne e

All-retain_self : (p : ℕ → Bool) (xs : List ℕ) → All (λ x. p x ≡ true) (retain p xs)
All-retain_self p [] = tt
All-retain_self p (x ∷ xs) = elim (Bool-cases (p x)) [
  | inl stays ↦ rw stays (stays, All-retain_self p xs)
  | inr goes ↦ rw goes (All-retain_self p xs)
]

nonempty-ok : (xs : List ℕ) {ys : List ℕ} → nonempty xs ≡ ok ys → xs ≡ ys
nonempty-ok [] h = absurd (cc h)
nonempty-ok (x ∷ xs) h = cc h

accepted_self : (a : ℕ) → HostGw.new (some a) a ≡ ok tt
unfolding HostGw.new
accepted_self a = ground arith

-- The result of `lookup_ext_iface`.
abbrev external_of : Interface → ℕ → ExternalInterface
external_of iface a = record {
  iface = iface;
  iface_addr = a;
  iface_v6_addr = none;
  ext_addr = some a;
  ext_v6_addr = none;
}

module _ (c : Crates) (net : Netlink c) where
  open net use {Kernel}

  -- The usable addresses of an interface in the order of the kernel's listing, and after them the
  -- link-local ones, are what `get_iface_addrs` returns when it ends without an error.
  pub get_iface_addrs_lem :
      (iface : Interface) (k : Kernel) {addrs : List ℕ} {k' : Kernel}
      → get_iface_addrs c net iface k ≡ (ok addrs, k')
      → (listed : List (Addr c)) × ((net.addr_list iface.index k).0 ≡ some listed)
        × (addrs ≡ retain is_usable (ipv4s c listed) ++ retain is_link_local (ipv4s c listed))
  unfolding get_iface_addrs
  get_iface_addrs_lem iface k h =
      let (listed, k1, read, h1) =
        >>=-eq-ok (call (net.addr_list iface.index))
          (λ listed.
            lift (nonempty ((sort_addrs c listed ([], [])).0 ++ (sort_addrs c listed ([], [])).1)))
          k h in
      let (given, at) = call-ok (net.addr_list iface.index) k read in
      let (usable, local) = sort_addrs_lem c listed [] [] in
      let (found, same) =
        lift-ok (nonempty ((sort_addrs c listed ([], [])).0 ++ (sort_addrs c listed ([], [])).1)) k1
          h1 in
      (listed, given, sym (nonempty-ok _ found) ∙ cc (usable, local))

  -- The interface is that of the default route that the search in the kernel has found, and its
  -- address is the last of those that the kernel then lists for it, the link-local ones after the
  -- usable ones, so that it is a link-local one if there is any. The host gateway accepts it.
  pub record IsChosen (any_network : c.Ipv4Network) (k : Kernel) (ext : ExternalInterface)
      : Type 0 where
    pub searched : Kernel
    pub found : get_default_gateway_interface c net any_network k ≡ (ok (some ext.iface), searched)
    pub listed : List (Addr c)
    pub listed_eq : (net.addr_list ext.iface.index searched).0 ≡ some listed
    pub chosen :
        last (retain is_usable (ipv4s c listed) ++ retain is_link_local (ipv4s c listed))
        ≡ some ext.iface_addr
    pub link_local_first :
        (retain is_link_local (ipv4s c listed) ≡ []) ⊎ (is_link_local ext.iface_addr ≡ true)
    pub accepted : HostGw.new ext.ext_addr ext.iface_addr ≡ ok tt

  choice :
      (ips locals : List ℕ) (a : ℕ)
      → All (λ x. is_link_local x ≡ true) locals
      → last (ips ++ locals) ≡ some a
      → (locals ≡ []) ⊎ (is_link_local a ≡ true)
  choice ips [] a all top = inl refl
  choice ips (x ∷ locals) a all top =
      inr (last-All (λ x. is_link_local x ≡ true) ips (x ∷ locals) all (λ e. absurd (cc e)) top)

  external_of-IsChosen :
      (any_network : c.Ipv4Network) (start : Kernel) (iface : Interface) (a : ℕ) (addrs : List ℕ)
      (k : Kernel) {k' : Kernel}
      → get_default_gateway_interface c net any_network start ≡ (ok (some iface), k)
      → get_iface_addrs c net iface k ≡ (ok addrs, k')
      → last addrs ≡ some a
      → IsChosen any_network start (external_of iface a)
  external_of-IsChosen any_network start iface a addrs k found read top =
      let (listed, answer, all) = get_iface_addrs_lem iface k read in
      record {
        accepted = accepted_self a;
        searched = k;
        found = found;
        chosen = ap last (sym all) ∙ top;
        listed = listed;
        listed_eq = answer;
        link_local_first =
            choice (retain is_usable (ipv4s c listed)) (retain is_link_local (ipv4s c listed)) a
              (All-retain_self is_link_local (ipv4s c listed)) (ap last (sym all) ∙ top);
      }

  -- When `lookup_ext_iface` returns an interface, it is the one that `get_default_gateway_interface`
  -- has found in the kernel at the start, and its address is the last of the usable and then the
  -- link-local addresses that the kernel lists for it after this search: a link-local one if there
  -- is any. The host gateway accepts the interface.
  pub lookup_ext_iface-IsChosen :
      (any_network : c.Ipv4Network) (k : Kernel) {ext : ExternalInterface} {k' : Kernel}
      → lookup_ext_iface c net any_network k ≡ (ok ext, k')
      → IsChosen any_network k ext
  unfolding lookup_ext_iface
  lookup_ext_iface-IsChosen any_network k {ext} {k'} h =
      let (found, k1, searched, h1) =
        >>=-eq-ok (get_default_gateway_interface c net any_network)
          (λ found. lift (ok_or found no_gateway) >>= λ iface.
            get_iface_addrs c net iface >>= λ addrs.
            lift (unwrap (last addrs)) >>= λ a. pure (external_of iface a))
          k h in
      let (iface, k2, given, h2) =
        >>=-eq-ok (lift (ok_or found no_gateway))
          (λ iface. get_iface_addrs c net iface >>= λ addrs.
            lift (unwrap (last addrs)) >>= λ a. pure (external_of iface a))
          k1 h1 in
      let (addrs, k3, read, h3) =
        >>=-eq-ok (get_iface_addrs c net iface)
          (λ addrs. lift (unwrap (last addrs)) >>= λ a. pure (external_of iface a)) k2 h2 in
      let (a, k4, popped, h4) =
        >>=-eq-ok (lift (unwrap (last addrs))) (λ a. pure (external_of iface a)) k3 h3 in
      let e : external_of iface a ≡ ext = pure-ok (external_of iface a) k4 h4 in
      let (top, same) = lift-ok (unwrap (last addrs)) k3 popped in
      let (there, at) = lift-ok (ok_or found no_gateway) k1 given in
      let found_eq : get_default_gateway_interface c net any_network k ≡ (ok (some iface), k2) =
        searched
        ∙ ap (λ o. (ok o, k1)) (ok_or-ok found no_gateway there)
        ∙ ap (λ v. (ok (some iface), v)) at in
      subst (IsChosen any_network k) e (
        external_of-IsChosen any_network k iface a addrs k2 found_eq read
          (unwrap-ok (last addrs) top))
