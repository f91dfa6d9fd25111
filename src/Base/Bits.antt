-- ===== src/Base/Bits.antt =====
-- `bit_and` at variables: the law of the lowest digit, and masks of leading ones.
use Prim.Native.Nat.{
  ℕ, zero, suc, ◌+◌, ◌-◌, ◌*◌, ◌/◌, ◌%◌, ◌^◌, ◌≤◌, ◌<◌, min, bit_and, digits, bit_and-bitwise,
}
use mathlib.Core.Path.{◌≡◌, refl, ap, ◌∙◌}
use native.Mathlib.Omega.{arith}
use native.Mathlib.Nat.{div-add-mod, mul-add-mod_self_right, mod-eq_of_lt, mod-lt, two-pow-succ}

abbrev conj : ℕ → ℕ → ℕ → ℕ
conj = digits (λ _. zero) min

-- More rounds than the first number has digits change nothing.
conj_rounds : (m n a b : ℕ) → a ≤ m → a ≤ n → conj m a b ≡ conj n a b
conj_rounds zero zero a b p q = refl
conj_rounds (suc m) zero zero b p q = refl
conj_rounds (suc m) zero (suc a) b p q = absurd (omega arith)
conj_rounds zero (suc n) zero b p q = refl
conj_rounds zero (suc n) (suc a) b p q = absurd (omega arith)
conj_rounds (suc m) (suc n) zero b p q = refl
conj_rounds (suc m) (suc n) (suc a) b p q =
    omega (arith, conj_rounds m n (suc a / 2) (b / 2) (omega arith) (omega arith))

zero-bit_and : (b : ℕ) → bit_and 0 b ≡ 0
zero-bit_and b = bit_and-bitwise 0 b

-- The lowest digits meet, and so do the rest.
bit_and_halves : (a b : ℕ) → bit_and a b ≡ bit_and (a / 2) (b / 2) * 2 + min (a % 2) (b % 2)
bit_and_halves zero b = omega (arith, zero-bit_and b, zero-bit_and (b / 2))
bit_and_halves (suc a) b = omega (
  arith,
  bit_and-bitwise (suc a) b,
  bit_and-bitwise (suc a / 2) (b / 2),
  conj_rounds a (suc a / 2) (suc a / 2) (b / 2) (omega arith) (omega arith),
)

mod_double : (p x : ℕ) → 0 < p → x % (p + p) ≡ 2 * (x / 2 % p) + x % 2
mod_double p x h =
    ap (λ t. t % (p + p)) whole
    ∙ mul-add-mod_self_right (x / 2 / p) (p + p) _
    ∙ mod-eq_of_lt (omega (arith, mod-lt (x / 2) h))
  where
    whole : x ≡ x / 2 / p * (p + p) + (2 * (x / 2 % p) + x % 2)
    whole = omega (arith, div-add-mod (x / 2) p)

pub two_pow_pos : (k : ℕ) → 0 < 2 ^ k
two_pow_pos zero = omega arith
two_pow_pos (suc k) = omega (arith, two_pow_pos k, two-pow-succ k)

bit_and-zero_rounds : (n a : ℕ) → a ≤ n → bit_and a 0 ≡ 0
bit_and-zero_rounds n zero h = zero-bit_and 0
bit_and-zero_rounds zero (suc a) h = absurd (omega arith)
bit_and-zero_rounds (suc n) (suc a) h =
    omega (arith, bit_and_halves (suc a) 0, bit_and-zero_rounds n (suc a / 2) (omega arith))

ones : (w x : ℕ) → bit_and x (2 ^ w - 1) ≡ x % 2 ^ w
ones zero x = omega (arith, bit_and-zero_rounds x x (omega arith))
ones (suc w) x =
    let halves : (2 ^ suc w - 1) / 2 ≡ 2 ^ w - 1 = omega (arith, two-pow-succ w, two_pow_pos w) in
    let step = bit_and_halves x (2 ^ suc w - 1) in
    let tail : x % 2 ^ suc w ≡ 2 * (x / 2 % 2 ^ w) + x % 2 =
      rw (two-pow-succ w) (mod_double (2 ^ w) x (two_pow_pos w)) in
    omega (arith, rw halves at step, ones w (x / 2), tail, two-pow-succ w, two_pow_pos w)

-- A mask of `w` digits whose `k` lowest are 0 keeps `w` digits and takes off the lowest `k`.
pub bit_and_mask : (w k x : ℕ) → k ≤ w → bit_and x (2 ^ w - 2 ^ k) + x % 2 ^ k ≡ x % 2 ^ w
bit_and_mask w zero x p = omega (arith, ones w x)
bit_and_mask zero (suc k) x p = absurd (omega arith)
bit_and_mask (suc w) (suc k) x p =
    let mask = 2 ^ suc w - 2 ^ suc k in
    let halves : mask / 2 ≡ 2 ^ w - 2 ^ k = omega (arith, two-pow-succ w, two-pow-succ k) in
    let even : mask % 2 ≡ 0 = omega (arith, two-pow-succ w, two-pow-succ k) in
    let step = bit_and_halves x mask in
    let rest = bit_and_mask w k (x / 2) (omega arith) in
    omega (arith, rw halves at step, rest, tail w, tail k, even)
  where
    tail : (j : ℕ) → x % 2 ^ suc j ≡ 2 * (x / 2 % 2 ^ j) + x % 2
    tail j = rw (two-pow-succ j) (mod_double (2 ^ j) x (two_pow_pos j))
