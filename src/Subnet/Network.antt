-- ===== src/Subnet/Network.antt =====
-- The traits `Add`, `Sub` and `Ipv4NetworkIterator` of src/subnet/subnet.rs.
use flannel_ng.Base.{ℕ, ◌<◌, ◌≡◌, Option, none, some, arith, leb, if◌then◌else◌}
use flannel_ng.Base.Word.{add_u32, sub_u32, shl_u32, sub_u8, size, shl-one}
use flannel_ng.Crates.{Crates, NetworkLaws}

abbrev pub add : ℕ → ℕ → ℕ
add ip n = add_u32 ip n

abbrev pub sub : ℕ → ℕ → ℕ
sub ip n = sub_u32 ip n

module _ (c : Crates) where
  unfoldable pub next_network : c.Ipv4Network → Option (c.Ipv4Network)
  next_network n =
      if leb 32 (c.prefix n)
      then none
      else c.new (add (c.ip n) (shl_u32 1 (sub_u8 32 (c.prefix n)))) (c.prefix n)

module _ (c : Crates) (laws : NetworkLaws c) where
  -- The next block starts one block further, modulo the address space.
  pub next_network_lem :
      (n : c.Ipv4Network)
      → 0 < c.prefix n
      → c.prefix n < 32
      → (m : c.Ipv4Network) × (next_network c n ≡ some m)
        × (c.ip m ≡ add (c.ip n) (size (c.prefix n)))
        × (c.prefix m ≡ c.prefix n)
  unfolding next_network
  next_network_lem n h k =
      let (m, e, i, p) =
        laws.new-some (add (c.ip n) (shl_u32 1 (sub_u8 32 (c.prefix n)))) (c.prefix n) (omega arith)
          (omega arith) in
      (m, ground (arith, e), rw (← shl-one (c.prefix n) h (omega arith)) i, p)
