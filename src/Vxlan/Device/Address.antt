-- ===== src/Vxlan/Device/Address.antt =====
-- The addresses that `new_hardware_addr` of src/mac/mac.rs makes of random bytes.
use flannel_ng.Base.{
  ℕ, zero, suc, ◌/◌, ◌%◌, ◌<◌, ◌≡◌, refl, subst, Bool, true, ◌&&◌, List, ◌∷◌, ltb, ◌==◌, arith,
}
use native.Mathlib.Decide.{dec_lt}
use flannel_ng.Netlink.{Mac}
use flannel_ng.Vxlan.Device.{local_byte, new_hardware_addr}

abbrev all_below : ℕ → (ℕ → Bool) → Bool
all_below zero p = true
all_below (suc n) p = p n && all_below n p

all_below-true : (n : ℕ) (p : ℕ → Bool) (i : ℕ) → all_below n p ≡ true → i < n → p i ≡ true
all_below-true zero p i h lt = absurd (omega arith)
all_below-true (suc n) p i h lt = elim (dec_lt i n) [
  | yes below ↦ all_below-true n p i (ground arith) below
  | no above ↦ let top : n ≡ i = omega arith in subst (λ m. p m ≡ true) top (ground arith)
]

-- Of a group address the lowest bit is set, and of a local one the bit above it.
abbrev fine : ℕ → Bool
fine b =
    (local_byte b % 2 == 0)
    && ((local_byte b / 2 % 2 == 1) && ((local_byte b / 4 == b / 4) && ltb (local_byte b) 256))

all_fine : all_below 256 fine ≡ true
unfolding local_byte
all_fine = refl

-- What is made of a first byte and of the others.
pub record IsLocal (first : ℕ) (others : List ℕ) (mac : Mac) : Type 0 where
  pub head : ℕ
  pub mac_eq : mac ≡ head ∷ others
  pub unicast : head % 2 ≡ 0
  pub local : head / 2 % 2 ≡ 1
  pub random_rest : head / 4 ≡ first / 4
  pub byte : head < 256

-- Of any random bytes, `new_hardware_addr` makes an address that is local and of one device, whose
-- first byte is a byte that keeps its six upper bits, and whose other bytes are the random ones.
pub new_hardware_addr-IsLocal :
    (first : ℕ) (others : List ℕ)
    → first < 256
    → IsLocal first others (new_hardware_addr (first ∷ others))
unfolding new_hardware_addr
new_hardware_addr-IsLocal first others h =
    let good = all_below-true 256 fine first all_fine h in
    record {
      head = local_byte first;
      mac_eq = refl;
      unicast = ground (arith, good);
      local = ground (arith, good);
      random_rest = ground (arith, good);
      byte = ground (arith, good);
    }
