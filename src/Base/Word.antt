-- ===== src/Base/Word.antt =====
-- Machine words of the release build, where arithmetic wraps and a shift amount is masked. A u8 is
-- a number below `u8_mod`, a u32 or an `Ipv4Addr` one below `u32_mod`.
use Prim.Native.Nat.{◌∣◌}
use flannel_ng.Base.{
  ℕ, zero, suc, ◌+◌, ◌-◌, ◌*◌, ◌/◌, ◌%◌, ◌^◌, ◌≤◌, ◌<◌, ◌≡◌, ap, ◌∙◌, true, bit_and, arith, ◌==◌,
  ==_iff,
}
use flannel_ng.Base.Bits.{two_pow_pos, bit_and_mask}
use native.Mathlib.Nat.{
  dvd-mul_left, mod-eq-zero_of_dvd, dvd_trans, dvd_of_mod-eq-zero, mul-le-mul_right, sub-zero,
  lt_of_mul-lt-mul_left, div-add-mod, pow-le-pow_right, add-zero, pow-suc,
}

abbrev pub u8_mod : ℕ
u8_mod = 2 ^ 8

abbrev pub u32_mod : ℕ
u32_mod = 2 ^ 32

abbrev pub add_u8 : ℕ → ℕ → ℕ
add_u8 a b = (a + b) % u8_mod

abbrev pub sub_u8 : ℕ → ℕ → ℕ
sub_u8 a b = (a + u8_mod - b) % u8_mod

abbrev pub add_u32 : ℕ → ℕ → ℕ
add_u32 a b = (a + b) % u32_mod

abbrev pub sub_u32 : ℕ → ℕ → ℕ
sub_u32 a b = (a + u32_mod - b) % u32_mod

-- `a << k`
abbrev pub shl_u32 : ℕ → ℕ → ℕ
shl_u32 a k = a * 2 ^ (k % 32) % u32_mod

-- The number of addresses of a network with this prefix length.
unfoldable pub size : ℕ → ℕ
size p = 2 ^ (32 - p)

pub size_pos : (p : ℕ) → 0 < size p
unfolding size
size_pos p = two_pow_pos (32 - p)

-- A longer prefix divides the block.
pow_split : (d k : ℕ) → 2 ^ (k + d) ≡ 2 ^ d * 2 ^ k
pow_split zero k = omega (arith, add-zero k, ap (λ n. 2 ^ n) (add-zero k))
pow_split (suc d) k =
    ap (λ n. 2 ^ n) (omega arith)
    ∙ pow-suc 2 (k + d)
    ∙ omega (arith, pow_split d k, pow-suc 2 d, ap (λ n. n * 2 ^ k) (pow-suc 2 d))

pub size_split : (p l : ℕ) → p ≤ l → l ≤ 32 → size p ≡ 2 ^ (l - p) * size l
unfolding size
size_split p l h k = ap (λ n. 2 ^ n) (omega arith) ∙ pow_split (l - p) (32 - l)

shift_amount : (p : ℕ) → 0 < p → p ≤ 32 → sub_u8 32 p % 32 ≡ 32 - p
shift_amount p h k = omega arith

pub size-le : (p : ℕ) → 0 < p → size p ≤ 2 ^ 31
unfolding size
size-le p h = pow-le-pow_right (omega arith) {j = 31} (omega arith)

-- `1 << (32 - p)`
pub shl-one : (p : ℕ) → 0 < p → p ≤ 32 → shl_u32 1 (sub_u8 32 p) ≡ size p
unfolding size
shl-one p h k = rw (shift_amount p h k) (omega (arith, size-le p h))

-- `0xFFFFFFFF << (32 - p)`, the net mask
pub shl-ones : (p : ℕ) → 0 < p → p ≤ 32 → shl_u32 0xFFFFFFFF (sub_u8 32 p) ≡ u32_mod - size p
unfolding size
shl-ones p h k = rw (shift_amount p h k) (omega (arith, size-le p h, size_pos p))

-- The test `x == x & mask` is the test that `x` is a multiple of the block's size.
masked : (p x : ℕ) → bit_and x (2 ^ 32 - size p) + x % size p ≡ x % 2 ^ 32
unfolding size
masked p x = bit_and_mask 32 (32 - p) x (omega arith)

module _ (p x : ℕ) (h : 0 < p) (k : p ≤ 32) where
  pub mod_of_masked : (x == bit_and x (shl_u32 0xFFFFFFFF (sub_u8 32 p))) ≡ true → x % size p ≡ 0
  mod_of_masked = rw (shl-ones p h k) (λ e. omega (arith, (==_iff _ _).0 e, masked p x))

  pub masked_of_mod :
      x < u32_mod → x % size p ≡ 0 → (x == bit_and x (shl_u32 0xFFFFFFFF (sub_u8 32 p))) ≡ true
  masked_of_mod = rw (shl-ones p h k) (λ l e. (==_iff _ _).1 (omega (arith, masked p x)))

pub size-dvd : (p l : ℕ) → p ≤ l → l ≤ 32 → size l ∣ size p
size-dvd p l h k = rw (size_split p l h k) (dvd-mul_left (size l) (2 ^ (l - p)))

-- A multiple of a block's size is one of the size of each block in it.
pub multiple_of_split : (p l a : ℕ) → p ≤ l → l ≤ 32 → a % size p ≡ 0 → a % size l ≡ 0
multiple_of_split p l a h k e =
    mod-eq-zero_of_dvd (size l)
      (dvd_trans (size l) (size-dvd p l h k) (dvd_of_mod-eq-zero (size p) e))

four_fold : (d : ℕ) → 2 ≤ d → 4 ≤ 2 ^ d
four_fold d h = pow-le-pow_right {n = 2} (omega arith) {i = 2} {j = d} h

pub four_blocks : (p l : ℕ) → p + 2 ≤ l → l ≤ 32 → 4 * size l ≤ size p
four_blocks p l h k =
    rw (size_split p l (omega arith) k)
      (mul-le-mul_right (size l) (four_fold (l - p) (omega arith)))

block_of_all : (p : ℕ) → p ≤ 32 → u32_mod ≡ 2 ^ p * size p
unfolding size
block_of_all p h = rw sub-zero at (size_split 0 p (omega arith) h)

-- An aligned block ends within the address space.
pub block_fits : (p a : ℕ) → p ≤ 32 → a < u32_mod → a % size p ≡ 0 → a + size p ≤ u32_mod
block_fits p a h k e =
    let whole : u32_mod ≡ 2 ^ p * size p = block_of_all p h in
    let parts = div-add-mod a (size p) in
    let below : a / size p < 2 ^ p = lt_of_mul-lt-mul_left (size p) (omega (arith, whole, parts)) in
    omega (arith, mul-le-mul_right (size p) below, whole, parts)
