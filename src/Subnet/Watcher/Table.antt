-- ===== src/Subnet/Watcher/Table.antt =====
-- The watcher's leases as a table by subnet: which subnets it holds, and the lease that it holds for
-- each.

use flannel_ng.Base.{
  ℕ, suc, ◌≡◌, refl, ◌⊎◌, inl, inr, Bool, true, false, ◌||◌, Option, none, some, List, [], ◌∷◌,
  arith, Bool-cases, if◌then◌else◌,
}
use flannel_ng.Crates.{Crates, NetworkLaws}
use flannel_ng.Lease.{Lease}
use flannel_ng.Subnet.Watcher.{remove_at, lease_at, position, replace_or_push}

module _ (c : Crates) where
  unfoldable pub has : c.Ipv4Network → List (Lease c) → Bool
  has t [] = false
  has t (l ∷ ls) = c.equal l.subnet t || has t ls

  unfoldable pub lookup : c.Ipv4Network → List (Lease c) → Option (Lease c)
  lookup t [] = none
  lookup t (l ∷ ls) = if c.equal l.subnet t then some l else lookup t ls

  unfoldable pub without : c.Ipv4Network → List (Lease c) → List (Lease c)
  without t [] = []
  without t (l ∷ ls) = if c.equal l.subnet t then ls else l ∷ without t ls

  -- No two leases of one subnet.
  abbrev pub IsDistinct : List (Lease c) → Type 0
  IsDistinct [] = Unit
  IsDistinct (l ∷ ls) = (has l.subnet ls ≡ false) × IsDistinct ls

  -- What the search for a subnet finds.
  pub position_cases :
      (t : c.Ipv4Network) (ls : List (Lease c)) (other : Lease c)
      → ((position c t ls ≡ none) × (has t ls ≡ false) × (lookup t ls ≡ none))
        ⊎ ((i : ℕ) × (position c t ls ≡ some i)
            × (has t ls ≡ true)
            × (lookup t ls ≡ some (lease_at c ls i other))
            × (remove_at ls i ≡ without t ls)
            × (c.equal (lease_at c ls i other).subnet t ≡ true))
  unfolding position has lookup without
  position_cases t [] other = inl (refl, refl, refl)
  position_cases t (l ∷ ls) other = elim (Bool-cases (c.equal l.subnet t)) [
    | inl hit ↦ inr (0, ground arith, ground arith, ground arith, ground arith, hit)
    | inr miss ↦ elim (position_cases t ls other) [
      | inl (p, h, q) ↦ inl (ground arith, ground arith, ground arith)
      | inr (i, p, h, q, r, e) ↦
          inr (suc i, ground arith, ground arith, ground arith, ground arith, e)
    ]
  ]

  pub lookup-absent :
      (t : c.Ipv4Network) (ls : List (Lease c)) → has t ls ≡ false → lookup t ls ≡ none
  unfolding has lookup
  lookup-absent t [] h = refl
  lookup-absent t (l ∷ ls) h = ground (arith, lookup-absent t ls)

  pub without_absent :
      (t : c.Ipv4Network) (ls : List (Lease c)) → has t ls ≡ false → without t ls ≡ ls
  unfolding has without
  without_absent t [] h = refl
  without_absent t (l ∷ ls) h = ground (arith, without_absent t ls)

module _ (c : Crates) (laws : NetworkLaws c) where
  pub has-without :
      (s t : c.Ipv4Network) (ls : List (Lease c))
      → IsDistinct c ls
      → has c t (without c s ls) ≡ (if c.equal s t then false else has c t ls)
  unfolding has without
  has-without s t [] d = ground arith
  has-without s t (l ∷ ls) d = ground (
    arith,
    laws.equal_iff l.subnet s,
    laws.equal_iff s t,
    laws.equal_iff l.subnet t,
    has-without s t ls d.1,
  )

  pub lookup-without :
      (s t : c.Ipv4Network) (ls : List (Lease c))
      → IsDistinct c ls
      → lookup c t (without c s ls) ≡ (if c.equal s t then none else lookup c t ls)
  unfolding lookup without
  lookup-without s t [] d = ground arith
  lookup-without s t (l ∷ ls) d = ground (
    arith,
    laws.equal_iff l.subnet s,
    laws.equal_iff s t,
    laws.equal_iff l.subnet t,
    lookup-absent c l.subnet ls,
    lookup-without s t ls d.1,
  )

  pub without-IsDistinct :
      (s : c.Ipv4Network) (ls : List (Lease c)) → IsDistinct c ls → IsDistinct c (without c s ls)
  unfolding without
  without-IsDistinct s [] d = tt
  without-IsDistinct s (l ∷ ls) d =
      ground (arith, has-without s l.subnet ls d.1, without-IsDistinct s ls d.1)

  pub has-replace_or_push :
      (l : Lease c) (t : c.Ipv4Network) (ls : List (Lease c))
      → has c t (replace_or_push c l ls) ≡ (c.equal l.subnet t || has c t ls)
  unfolding has replace_or_push
  has-replace_or_push l t [] = refl
  has-replace_or_push l t (x ∷ ls) = ground (
    arith,
    laws.equal_iff x.subnet l.subnet,
    laws.equal_iff x.subnet t,
    laws.equal_iff l.subnet t,
    has-replace_or_push l t ls,
  )

  pub lookup-replace_or_push :
      (l : Lease c) (t : c.Ipv4Network) (ls : List (Lease c))
      → lookup c t (replace_or_push c l ls) ≡ (if c.equal l.subnet t then some l else lookup c t ls)
  unfolding lookup replace_or_push
  lookup-replace_or_push l t [] = refl
  lookup-replace_or_push l t (x ∷ ls) = ground (
    arith,
    laws.equal_iff x.subnet l.subnet,
    laws.equal_iff x.subnet t,
    laws.equal_iff l.subnet t,
    lookup-replace_or_push l t ls,
  )

  pub replace_or_push-IsDistinct :
      (l : Lease c) (ls : List (Lease c)) → IsDistinct c ls → IsDistinct c (replace_or_push c l ls)
  unfolding replace_or_push has
  replace_or_push-IsDistinct l [] d = (refl, tt)
  replace_or_push-IsDistinct l (x ∷ ls) d = ground (
    arith,
    laws.equal_iff x.subnet l.subnet,
    laws.equal_iff l.subnet x.subnet,
    has-replace_or_push l x.subnet ls,
    replace_or_push-IsDistinct l ls d.1,
  )
