-- ===== src/Subnet/Allocate/Search.antt =====
-- The search loop of `allocate_subnet` (src/subnet/subnet.rs), with its invariant.
use native.Mathlib.Decide.{dec_lt}
use native.Mathlib.Nat.{add-mod_right}
use flannel_ng.Base.{
  ℕ, zero, suc, ◌+◌, ◌≤◌, ◌<◌, ◌%◌, ◌≡◌, refl, inl, inr, Bool, false, ◌&&◌, List, [], ◌∷◌, ◌++◌,
  arith, All, Bool-cases, length, ltb, leb, if◌then◌else◌, some, ap, ◌∙◌, ap,
}
use flannel_ng.Base.Outcome.{ok}
use flannel_ng.Base.Multiple.{multiple_gap}
use flannel_ng.Base.Word.{size, size_pos, u32_mod}
use flannel_ng.Crates.{Crates, NetworkLaws}
use flannel_ng.Lease.{Lease}
use flannel_ng.Subnet.Network.{next_network, next_network_lem}
use flannel_ng.Subnet.Watcher.{is_empty}
use flannel_ng.Subnet.Allocate.{overlaps_any, collect, max_available}
use flannel_ng.Subnet.Allocate.Free.{IsCandidate, IsFree-overlaps_any, overlaps_any-false}

pub All-append {ℓ κ} :
    {A : Type ℓ} (P : A → Type κ) (xs ys : List A) → All P xs → All P ys → All P (xs ++ ys)
All-append P [] ys h k = k
All-append P (x ∷ xs) ys h k = (h.0, All-append P xs ys h.1 k)

not_empty_append {ℓ} :
    {A : Type ℓ} (xs ys : List A) → is_empty ys ≡ false → is_empty (xs ++ ys) ≡ false
not_empty_append [] ys h = h
not_empty_append (x ∷ xs) ys h = refl

append_not_empty {ℓ} :
    {A : Type ℓ} (xs ys : List A) → is_empty xs ≡ false → is_empty (xs ++ ys) ≡ false
append_not_empty [] ys h = cc
append_not_empty (x ∷ xs) ys h = refl

full_not_empty {ℓ} :
    {A : Type ℓ} (xs : List A) → ltb (length xs) max_available ≡ false → is_empty xs ≡ false
full_not_empty [] h = cc
full_not_empty (x ∷ xs) h = refl

module _ (c : Crates) (laws : NetworkLaws c) (len subnet_min subnet_max : ℕ)
    (leases : List (Lease c)) (long : 0 < len) (short : len ≤ 30)
    (room : subnet_max + size len < u32_mod) where
  abbrev pub Candidate : ℕ → Type 0
  Candidate = IsCandidate c len subnet_min subnet_max leases

  -- What holds between two rounds.
  pub record Inv (sn : c.Ipv4Network) (available_ips : List ℕ) : Type 0 where
    pub of_len : c.prefix sn ≡ len
    pub from : subnet_min ≤ c.ip sn
    pub aligned : c.ip sn % size len ≡ 0
    pub all_good : All Candidate available_ips
    pub none_missed : (a : ℕ) → Candidate a → a < c.ip sn → is_empty available_ips ≡ false

  abbrev found : c.Ipv4Network → List ℕ → List ℕ
  found sn available_ips =
      if overlaps_any c sn leases then available_ips else available_ips ++ (c.ip sn ∷ [])

  found_good :
      (sn : c.Ipv4Network) (available_ips : List ℕ)
      → Inv sn available_ips
      → c.ip sn ≤ subnet_max
      → All Candidate (found sn available_ips)
  found_good sn available_ips inv le = elim (Bool-cases (overlaps_any c sn leases)) [
    | inl taken ↦ rw taken inv.all_good
    | inr free ↦
        rw free (All-append Candidate available_ips (c.ip sn ∷ []) inv.all_good (here free, tt))
  ]
    where
      start : c.ip sn % size (c.prefix sn) ≡ 0
      start = rw inv.of_len inv.aligned

      here : overlaps_any c sn leases ≡ false → Candidate (c.ip sn)
      here e = record {
        from = inv.from;
        upto = le;
        aligned = inv.aligned;
        free = rw inv.of_len at (IsFree-overlaps_any c laws sn start leases e);
      }

  found_more :
      (sn : c.Ipv4Network) (available_ips : List ℕ)
      → Inv sn available_ips
      → (a : ℕ) → Candidate a
      → a < c.ip sn + size len
      → is_empty (found sn available_ips) ≡ false
  found_more sn available_ips inv a good lt = elim (dec_lt a (c.ip sn)) [
    | yes before ↦ elim (Bool-cases (overlaps_any c sn leases)) [
      | inl taken ↦ rw taken (inv.none_missed a good before)
      | inr free ↦ rw free (append_not_empty available_ips _ (inv.none_missed a good before))
    ]
    | no later ↦
        let here : c.ip sn ≡ a =
          multiple_gap (size len) (c.ip sn) a inv.aligned good.aligned (omega arith) lt in
        rw (free here) (not_empty_append available_ips (c.ip sn ∷ []) refl)
  ]
    where
      start : c.ip sn % size (c.prefix sn) ≡ 0
      start = rw inv.of_len inv.aligned

      free : c.ip sn ≡ a → overlaps_any c sn leases ≡ false
      free e = overlaps_any-false c laws sn start leases (rw (inv.of_len, e) good.free)

  round_Inv :
      (sn next : c.Ipv4Network) (available_ips : List ℕ)
      → Inv sn available_ips
      → c.ip sn ≤ subnet_max
      → c.ip next ≡ c.ip sn + size len
      → c.prefix next ≡ len
      → Inv next (found sn available_ips)
  round_Inv sn next available_ips inv le i p = record {
    of_len = p;
    from = omega (arith, inv.from);
    aligned = rw (i, add-mod_right) inv.aligned;
    all_good = found_good sn available_ips inv le;
    none_missed = λ a good lt. found_more sn available_ips inv a good (omega arith);
  }

  abbrev goes_on : c.Ipv4Network → List ℕ → Bool
  goes_on sn available_ips = leb (c.ip sn) subnet_max && ltb (length available_ips) max_available

  next_block :
      (sn : c.Ipv4Network)
      → c.prefix sn ≡ len
      → c.ip sn ≤ subnet_max
      → (next : c.Ipv4Network) × (next_network c sn ≡ some next)
        × (c.ip next ≡ c.ip sn + size len)
        × (c.prefix next ≡ len)
  next_block sn p le =
      let (next, e, i, q) = next_network_lem c laws sn (omega arith) (omega arith) in
      let wrapped = i ∙ ap (λ n. (c.ip sn + size n) % u32_mod) p in (next, e, omega arith, q ∙ p)

  at_end :
      (sn : c.Ipv4Network) (available_ips : List ℕ)
      → Inv sn available_ips
      → goes_on sn available_ips ≡ false
      → (a : ℕ) → Candidate a
      → is_empty available_ips ≡ false
  at_end sn available_ips inv over a good = elim (dec_lt a (c.ip sn)) [
    | yes before ↦ inv.none_missed a good before
    | no later ↦ full_not_empty available_ips (ground (arith, good.upto))
  ]

  -- With a round of fuel for each address the loop ends. What it has collected are candidates, and
  -- it is not empty if there is a candidate at all.
  pub collect_lem :
      (fuel : ℕ) (sn : c.Ipv4Network) (available_ips : List ℕ)
      → Inv sn available_ips
      → 0 < fuel
      → subnet_max + 1 < fuel + c.ip sn
      → (out : List ℕ) × (collect c fuel leases subnet_max sn available_ips ≡ ok out)
        × All Candidate out
        × ((a : ℕ) → Candidate a → is_empty out ≡ false)
  unfolding collect
  collect_lem zero sn available_ips inv some_fuel m = absurd (omega arith)
  collect_lem (suc fuel) sn available_ips inv some_fuel m =
      elim (Bool-cases (goes_on sn available_ips)) [
        | inr over ↦ (available_ips, rw over, inv.all_good, at_end sn available_ips inv over)
        | inl more ↦
            let (next, e, i, p) = next_block sn inv.of_len (ground arith) in
            let again : Inv next (found sn available_ips) =
              round_Inv sn next available_ips inv (ground arith) i p in
            let (out, returns, good, complete) =
              collect_lem fuel next (found sn available_ips) again (ground arith)
                (omega (arith, size_pos len)) in
            (out, rw (more, e) returns, good, complete)
      ]
