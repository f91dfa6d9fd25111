-- ===== src/Base/Multiple.antt =====
-- Multiples of a block's size.
use native.Mathlib.Nat.{add-mod, mod-eq_of_lt, mod-mod, mod-lt, div-add-mod', mul-mod_left}
use flannel_ng.Base.{ℕ, ◌+◌, ◌-◌, ◌*◌, ◌/◌, ◌%◌, ◌≤◌, ◌<◌, ◌≡◌, ◌↔◌, ap, ◌∙◌, sym, arith}
use native.Mathlib.Decide.{dec_le}

-- Between two neighbouring multiples there is none.
pub multiple_gap : (s a b : ℕ) → a % s ≡ 0 → b % s ≡ 0 → a ≤ b → b < a + s → a ≡ b
multiple_gap s a b ha hb le lt =
    let d = b - a in
    let small : d % s ≡ d = mod-eq_of_lt (omega arith) in
    let drop : (0 + d % s) % s ≡ d % s % s = ap (λ n. n % s) (omega arith) in
    let sum : (a + d) % s ≡ d =
      add-mod a d s ∙ ap (λ n. (n + d % s) % s) ha ∙ drop ∙ mod-mod d s ∙ small in
    let whole : (a + d) % s ≡ 0 = ap (λ n. n % s) (omega arith) ∙ hb in omega (arith, sum, whole)

-- The multiple at or below a number.
pub floor-mod : (s x n : ℕ) → n + x % s ≡ x → n % s ≡ 0
floor-mod s x n h =
    let whole : n ≡ x / s * s = omega (arith, div-add-mod' x s) in
    ap (λ m. m % s) whole ∙ mul-mod_left (x / s) s

-- It is the multiple `a` exactly if the number lies in the block at `a`.
pub floor_iff :
    (s a x n : ℕ) → 0 < s → a % s ≡ 0 → n + x % s ≡ x → (n ≡ a) ↔ ((a ≤ x) × (x < a + s))
floor_iff s a x n pos ha h =
    ((λ e. (omega arith, omega (arith, mod-lt x pos))), λ inside. joined inside.0 inside.1)
  where
    joined : a ≤ x → x < a + s → n ≡ a
    joined le lt = elim (dec_le n a) [
      | yes below ↦ multiple_gap s n a (floor-mod s x n h) ha below (omega (arith, mod-lt x pos))
      | no above ↦ sym (multiple_gap s a n ha (floor-mod s x n h) (omega arith) (omega arith))
    ]
