-- ===== src/Base/Integer.antt =====
-- The integers of C, over the native numbers.
use Prim.Native.Nat.{ℕ, ◌-◌, bit_and, bit_or}

pub data ℤ : Type 0 where
  pos : ℕ → ℤ
  -- minus the successor
  negsuc : ℕ → ℤ

-- `i | flags` in two's complement, where `flags` is not negative.
unfoldable pub or_flags : ℤ → ℕ → ℤ
or_flags (pos n) flags = pos (bit_or n flags)
or_flags (negsuc n) flags = negsuc (n - bit_and n flags)
