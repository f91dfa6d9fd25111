-- ===== src/Iface/OnLink.antt =====
-- The addresses of a link after `ensure_v4_addr_on_link` of src/ip/iface.rs.
use mathlib.Core.List.{Memᴰ}
use flannel_ng.Base.{
  ℕ, ◌≡◌, ◌↔◌, refl, sym, subst, ap, ◌∙◌, ◌⊎◌, inl, inr, Bool, true, false, not, some, List, [],
  ◌∷◌, retain, Bool-cases, All,
}
use flannel_ng.Base.Members.{All-map, All-retain, Memᴰ-retain, All-of}
use flannel_ng.Base.Outcome.{ok}
use flannel_ng.Base.Io.{pure, call, ◌>>=◌, ◌>>◌, >>=-eq-ok, call-ok, pure-ok}
use flannel_ng.Crates.{Crates}
use flannel_ng.Netlink.{Addr, Netlink}
use flannel_ng.Iface.{
  is_stale, wanted_addr, drop_if, visit, sweep, add_unless, ensure_v4_addr_on_link,
}

-- What the program relies on of the addresses of a link.
pub record AddrLaws (c : Crates) (net : Netlink c) : Type 0 where
  pub addrs : net.Kernel → ℕ → List (Addr c)
  pub equal_addr_iff : (a b : Addr c) → (net.equal_addr a b ≡ true) ↔ (a ≡ b)
  -- a listing gives the addresses, and changes none
  pub listed-addrs :
      (i : ℕ) (k : net.Kernel) (l : List (Addr c))
      → (net.addr_list i k).0 ≡ some l
      → (l ≡ addrs k i) × (addrs ((net.addr_list i k).1) i ≡ addrs k i)
  pub added-addrs :
      (i : ℕ) (a : Addr c) (k : net.Kernel) (u : Unit {0})
      → (net.addr_add i a k).0 ≡ some u
      → addrs ((net.addr_add i a k).1) i ≡ a ∷ addrs k i
  pub deleted-addrs :
      (i : ℕ) (a : Addr c) (k : net.Kernel) (u : Unit {0})
      → (net.addr_del i a k).0 ≡ some u
      → addrs ((net.addr_del i a k).1) i ≡ retain (λ x. not (net.equal_addr x a)) (addrs k i)

-- The invariant of the loop.
module _ (c : Crates) (net : Netlink c) (laws : AddrLaws c net) (addr : Addr c)
    (ipn : c.Ipv4Network) (i : ℕ) where
  open net use {Kernel}

  -- An address of the link is the wanted one, outside the network, or still to be visited.
  abbrev Accounted : List (Addr c) → Addr c → Type 0
  Accounted rest x = (x ≡ addr) ⊎ ((is_stale c net ipn x ≡ false) ⊎ Memᴰ x rest)

  -- What holds of the link's addresses before each round, where `rest` is to be visited.
  record Inv (rest : List (Addr c)) (has_addr : Bool) (here : List (Addr c)) : Type 0 where
    accounted : All (Accounted rest) here
    kept : Memᴰ addr rest → Memᴰ addr here
    found : has_addr ≡ true → Memᴰ addr here

  abbrev InvAt : List (Addr c) → Bool → Kernel → Type 0
  InvAt rest has_addr k = Inv rest has_addr (laws.addrs k i)

  equal_addr-false :
      (a : Addr c) → net.equal_addr a addr ≡ false → not (net.equal_addr addr a) ≡ true
  equal_addr-false a differ = elim (Bool-cases (net.equal_addr addr a)) [
    | inl same ↦
        absurd
          (cc ((laws.equal_addr_iff a addr).1 (sym ((laws.equal_addr_iff addr a).0 same)), differ))
    | inr other ↦ rw other
  ]

  visited :
      (a : Addr c) (rest : List (Addr c))
      → Accounted rest a
      → (x : Addr c) → Accounted (a ∷ rest) x
      → Accounted rest x
  visited a rest settled x (inl e) = inl e
  visited a rest settled x (inr (inl s)) = inr (inl s)
  visited a rest settled x (inr (inr (Memᴰ.head e))) = subst (Accounted rest) (sym e) settled
  visited a rest settled x (inr (inr (Memᴰ.tail m))) = inr (inr m)

  -- A round that leaves the addresses as they are.
  narrow :
      (a : Addr c) (rest here : List (Addr c)) (has_addr : Bool)
      → Accounted rest a
      → Inv (a ∷ rest) has_addr here
      → Inv rest has_addr here
  narrow a rest here has_addr settled inv = record {
    accounted =
        All-map (Accounted (a ∷ rest)) (Accounted rest) here (visited a rest settled) inv.accounted;
    kept = λ m. inv.kept (Memᴰ.tail m);
    found = inv.found;
  }

  other_address :
      (a : Addr c) (rest : List (Addr c)) (x : Addr c)
      → Accounted (a ∷ rest) x
      → not (net.equal_addr x a) ≡ true
      → Accounted rest x
  other_address a rest x (inl e) h = inl e
  other_address a rest x (inr (inl s)) h = inr (inl s)
  other_address a rest x (inr (inr (Memᴰ.head e))) h =
      absurd (cc (rw ((laws.equal_addr_iff x a).1 e) at h))
  other_address a rest x (inr (inr (Memᴰ.tail m))) h = inr (inr m)

  -- A round that takes an address off the link.
  removed :
      (a : Addr c) (rest here : List (Addr c)) (has_addr : Bool)
      → net.equal_addr a addr ≡ false
      → Inv (a ∷ rest) has_addr here
      → Inv rest has_addr (retain (λ x. not (net.equal_addr x a)) here)
  removed a rest here has_addr differ inv = record {
    accounted =
        All-retain (Accounted (a ∷ rest)) (Accounted rest) (λ x. not (net.equal_addr x a)) here
          (other_address a rest) inv.accounted;
    kept = λ m.
        Memᴰ-retain (λ x. not (net.equal_addr x a)) here addr (equal_addr-false a differ)
          (inv.kept (Memᴰ.tail m));
    found = λ h.
        Memᴰ-retain (λ x. not (net.equal_addr x a)) here addr (equal_addr-false a differ)
          (inv.found h);
  }

  drop_if-InvAt :
      (stale : Bool) (a : Addr c) (rest : List (Addr c)) (has_addr : Bool) (k : Kernel)
      {u : Unit {0}} {k' : Kernel}
      → stale ≡ is_stale c net ipn a
      → net.equal_addr a addr ≡ false
      → InvAt (a ∷ rest) has_addr k
      → drop_if c net stale i a k ≡ (ok u, k')
      → InvAt rest has_addr k'
  unfolding drop_if pure
  drop_if-InvAt true a rest has_addr k {u} {k'} e differ inv h =
      let (done, at) = call-ok (net.addr_del i a) k h in
      subst (Inv rest has_addr)
        (sym (laws.deleted-addrs i a k u done) ∙ ap (λ k. laws.addrs k i) at)
        (removed a rest (laws.addrs k i) has_addr differ inv)
  drop_if-InvAt false a rest has_addr k e differ inv h =
      subst (InvAt rest has_addr) (ap (λ p. p.1) h)
        (narrow a rest (laws.addrs k i) has_addr (inr (inl (sym e))) inv)

  visit-InvAt :
      (equal : Bool) (a : Addr c) (rest : List (Addr c)) (has_addr : Bool) (k : Kernel)
      {has_addr' : Bool} {k' : Kernel}
      → equal ≡ net.equal_addr a addr
      → InvAt (a ∷ rest) has_addr k
      → visit c net equal ipn i a has_addr k ≡ (ok has_addr', k')
      → InvAt rest has_addr' k'
  unfolding visit ◌>>◌ pure
  visit-InvAt true a rest has_addr k {has_addr'} {k'} e inv h =
      let here : a ≡ addr = (laws.equal_addr_iff a addr).0 (sym e) in
      subst (InvAt rest has_addr') (ap (λ p. p.1) h) (record {
        accounted = (narrow a rest (laws.addrs k i) has_addr (inl here) inv).accounted;
        kept = λ m. inv.kept (Memᴰ.tail m);
        found = λ _. inv.kept (Memᴰ.head (sym here));
      })
  visit-InvAt false a rest has_addr k {has_addr'} {k'} e inv h =
      let (u, k1, dropped, h1) =
        >>=-eq-ok (drop_if c net (is_stale c net ipn a) i a) (λ u. pure has_addr) k h in
      let done = drop_if-InvAt (is_stale c net ipn a) a rest has_addr k refl (sym e) inv dropped in
      subst (λ b. InvAt rest b k') (pure-ok has_addr k1 h1)
        (subst (InvAt rest has_addr) (ap (λ p. p.1) h1) done)

  sweep-InvAt :
      (rest : List (Addr c)) (has_addr : Bool) (k : Kernel) {has_addr' : Bool} {k' : Kernel}
      → InvAt rest has_addr k
      → sweep c net addr ipn i rest has_addr k ≡ (ok has_addr', k')
      → InvAt [] has_addr' k'
  unfolding sweep pure
  sweep-InvAt [] has_addr k {has_addr'} {k'} inv h =
      subst (λ b. InvAt [] b k') (cc (ap (λ p. p.0) h))
        (subst (InvAt [] has_addr) (ap (λ p. p.1) h) inv)
  sweep-InvAt (a ∷ rest) has_addr k inv h =
      let (has', k1, visited_a, h1) =
        >>=-eq-ok (visit c net (net.equal_addr a addr) ipn i a has_addr)
          (sweep c net addr ipn i rest) k h in
      sweep-InvAt rest has' k1
        (visit-InvAt (net.equal_addr a addr) a rest has_addr k refl inv visited_a) h1

  -- The address is there, and no other one of the link lies in the network.
  pub record IsAlone (here : List (Addr c)) : Type 0 where
    pub there : Memᴰ addr here
    pub others_outside : All (λ x. (x ≡ addr) ⊎ (is_stale c net ipn x ≡ false)) here

  settled_outside : (x : Addr c) → Accounted [] x → (x ≡ addr) ⊎ (is_stale c net ipn x ≡ false)
  settled_outside x (inl e) = inl e
  settled_outside x (inr (inl s)) = inr s
  settled_outside x (inr (inr m)) = elim m [ ]

  add_unless-IsAlone :
      (has_addr : Bool) (k : Kernel) {u : Unit {0}} {k' : Kernel}
      → InvAt [] has_addr k
      → add_unless c net has_addr i addr k ≡ (ok u, k')
      → IsAlone (laws.addrs k' i)
  unfolding add_unless pure
  add_unless-IsAlone true k inv h =
      subst (λ k. IsAlone (laws.addrs k i)) (ap (λ p. p.1) h)
        (record {
          there = inv.found refl;
          others_outside =
              All-map (Accounted []) (λ x. (x ≡ addr) ⊎ (is_stale c net ipn x ≡ false))
                (laws.addrs k i) settled_outside inv.accounted;
        })
  add_unless-IsAlone false k {u} inv h =
      let (done, at) = call-ok (net.addr_add i addr) k h in
      subst IsAlone (sym (laws.added-addrs i addr k u done) ∙ ap (λ k. laws.addrs k i) at) (record {
        there = Memᴰ.head refl;
        others_outside = (
          inl refl,
          All-map (Accounted []) (λ x. (x ≡ addr) ⊎ (is_stale c net ipn x ≡ false)) (laws.addrs k i)
              settled_outside inv.accounted,
        );
      })

module _ (c : Crates) (net : Netlink c) (laws : AddrLaws c net) where
  open net use {Kernel}

  -- When `ensure_v4_addr_on_link` has ended without an error, the link has the address asked for,
  -- and every other address of the link is outside the network.
  pub ensure_v4_addr_on_link-IsAlone :
      (ip ipn : c.Ipv4Network) (i : ℕ) (k : Kernel) {u : Unit {0}} {k' : Kernel}
      → ensure_v4_addr_on_link c net ip ipn i k ≡ (ok u, k')
      → IsAlone c net laws (wanted_addr c net ip) ipn i (laws.addrs k' i)
  unfolding ensure_v4_addr_on_link
  ensure_v4_addr_on_link-IsAlone ip ipn i k h =
      let addr = wanted_addr c net ip in
      let (existing, k1, read, h1) =
        >>=-eq-ok (call (net.addr_list i))
          (λ existing.
            sweep c net addr ipn i existing false >>= λ has_addr. add_unless c net has_addr i addr)
          k h in
      let (given, at) = call-ok (net.addr_list i) k read in
      let (same, kept) = laws.listed-addrs i k existing given in
      let (has_addr, k2, swept, h2) =
        >>=-eq-ok (sweep c net addr ipn i existing false)
          (λ has_addr. add_unless c net has_addr i addr) k1 h1 in
      let here : existing ≡ laws.addrs k1 i = same ∙ sym kept ∙ ap (λ k. laws.addrs k i) at in
      let start : InvAt c net laws addr ipn i existing false k1 = record {
        accounted =
            All-of (Accounted c net laws addr ipn i existing) (laws.addrs k1 i)
              (λ x m. inr (inr (subst (Memᴰ x) (sym here) m)));
        kept = λ m. subst (Memᴰ addr) here m;
        found = λ e. absurd (cc e);
      } in
      add_unless-IsAlone c net laws addr ipn i has_addr k2
        (sweep-InvAt c net laws addr ipn i existing false k1 start swept) h2
