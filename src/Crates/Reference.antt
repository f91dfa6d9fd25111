-- ===== src/Crates/Reference.antt =====
-- Concrete crates that meet `NetworkLaws`: a block is an address and a prefix length in range. They
-- serve the tests, where a JSON value is a list of members or a scalar.
use mathlib.Core.HLevel.{Σ_prop_path, ×_prop}
use mathlib.Core.Logic.{dite, dif_pos}
use native.Mathlib.Bridge.{le_prop}
use native.Mathlib.Decide.{dec_lt, dec_le}
use native.Mathlib.Nat.{mod-le}
use flannel_ng.Base.{
  ℕ, ◌+◌, ◌-◌, ◌%◌, ◌≤◌, ◌<◌, String, ◌≡◌, refl, ◌↔◌, Bool, true, ◌&&◌, Option, none, some, arith,
  ltb, leb, ◌==◌, str_eq, if◌then◌else◌,
}
use flannel_ng.Base.Word.{u32_mod, size}
use flannel_ng.Crates.{Crates, NetworkLaws}

abbrev pub Block : Type 0
Block = (q : ℕ × ℕ) × ((q.0 < u32_mod) × (q.1 ≤ 32))

unfoldable pub make : ℕ → ℕ → Option Block
make a p =
    dite (dec_lt a u32_mod) (λ h. dite (dec_le p 32) (λ k. some ((a, p), (h, k))) (λ _. none))
      (λ _. none)

unfoldable pub base : Block → ℕ
unfolding size
base b = b.0.0 - b.0.0 % size b.0.1

unfoldable pub holds : Block → ℕ → Bool
unfolding size
holds b a = leb (base b) a && ltb a (base b + size b.0.1)

unfoldable pub meet : Block → Block → Bool
unfolding size
meet b d = ltb (base b) (base d + size d.0.1) && ltb (base d) (base b + size b.0.1)

unfoldable pub same : Block → Block → Bool
same b d = (b.0.0 == d.0.0) && (b.0.1 == d.0.1)

-- JSON values, as far as the program looks into them.
mutual
  pub data Json : Type 0 where
    text : String → Json
    number : ℕ → Json
    object : Members → Json

  pub data Members : Type 0 where
    end : Members
    member : String → Json → Members → Members

unfoldable pub lookup : Members → String → Option Json
lookup end k = none
lookup (member j v rest) k = if str_eq j k then some v else lookup rest k

abbrev to_object : Json → Option Members
to_object (object m) = some m
to_object (text s) = none
to_object (number n) = none

abbrev to_text : Json → Option String
to_text (text s) = some s
to_text (number n) = none
to_text (object m) = none

abbrev to_number : Json → Option ℕ
to_number (number n) = some n
to_number (text s) = none
to_number (object m) = none

abbrev pub reference : Crates
reference = record {
  Ipv4Network = Block;
  new = make;
  ip = λ b. b.0.0;
  prefix = λ b. b.0.1;
  network = base;
  contains = holds;
  overlaps = meet;
  equal = same;
  Ipv6Network = Unit;
  Value = Json;
  Object = Members;
  as_object = to_object;
  get = lookup;
  as_str = to_text;
  as_u64 = to_number;
}

make-some :
    (a p : ℕ) → a < u32_mod → p ≤ 32 → (n : Block) × (make a p ≡ some n) × (n.0.0 ≡ a) × (n.0.1 ≡ p)
unfolding make
make-some a p h k =
    (((a, p), (h, k)), rw (dif_pos _ le_prop h, dif_pos _ le_prop k) refl, refl, refl)

make-none : (a p : ℕ) → 32 < p → make a p ≡ none
unfolding make
make-none a p h = ground arith

same_iff : (m n : Block) → (same m n ≡ true) ↔ (m ≡ n)
unfolding same
same_iff m n =
    ((λ e. Σ_prop_path (λ q. ×_prop le_prop le_prop) (ground arith)), (λ e. ground arith))

pub reference_laws : NetworkLaws reference
unfolding base holds meet
reference_laws = record {
  new-some = make-some;
  new-none = make-none;
  ip-lt = λ b. b.1.0;
  prefix-le = λ b. b.1.1;
  network-add = λ b. omega (arith, mod-le b.0.0 (size b.0.1));
  contains_iff = λ b a. (ground arith, ground arith);
  overlaps_iff = λ b d. (ground arith, ground arith);
  equal_iff = same_iff;
}
