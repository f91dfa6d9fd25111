-- ===== src/Crates.antt =====
-- The other crates' types and functions that the program calls: `ipnetwork` (CIDR blocks) and
-- `serde_json` (values). They are a parameter of the definitions that use them, and what the
-- program relies on is stated in `NetworkLaws`, from the documentation of `ipnetwork`.
pub mod Reference
use flannel_ng.Base.{ℕ, ◌+◌, ◌%◌, ◌≤◌, ◌<◌, String, ◌≡◌, ◌↔◌, Bool, true, Option, none, some}
use flannel_ng.Base.Word.{u32_mod, size}

pub record Crates : Type 1 where
  -- `ipnetwork::Ipv4Network`; an `Ipv4Addr` is a number below `u32_mod`
  pub Ipv4Network : Type 0
  pub new : ℕ → ℕ → Option Ipv4Network
  pub ip : Ipv4Network → ℕ
  pub prefix : Ipv4Network → ℕ
  pub network : Ipv4Network → ℕ
  pub contains : Ipv4Network → ℕ → Bool
  pub overlaps : Ipv4Network → Ipv4Network → Bool
  -- its `PartialEq`
  pub equal : Ipv4Network → Ipv4Network → Bool
  pub Ipv6Network : Type 0
  -- `serde_json::Value` and its maps
  pub Value : Type 0
  pub Object : Type 0
  pub as_object : Value → Option Object
  pub get : Object → String → Option Value
  pub as_str : Value → Option String
  pub as_u64 : Value → Option ℕ

pub record NetworkLaws (c : Crates) : Type 0 where
  -- `new` refuses a prefix length over 32 and keeps the address as it is given
  pub new-some :
      (a p : ℕ)
      → a < u32_mod
      → p ≤ 32
      → (n : c.Ipv4Network) × (c.new a p ≡ some n) × (c.ip n ≡ a) × (c.prefix n ≡ p)
  pub new-none : (a p : ℕ) → 32 < p → c.new a p ≡ none
  pub ip-lt : (n : c.Ipv4Network) → c.ip n < u32_mod
  pub prefix-le : (n : c.Ipv4Network) → c.prefix n ≤ 32
  -- `network` clears the host bits
  pub network-add : (n : c.Ipv4Network) → c.network n + c.ip n % size (c.prefix n) ≡ c.ip n
  pub contains_iff :
      (n : c.Ipv4Network) (a : ℕ)
      → (c.contains n a ≡ true) ↔ ((c.network n ≤ a) × (a < c.network n + size (c.prefix n)))
  -- two blocks overlap when an address lies in both
  pub overlaps_iff :
      (m n : c.Ipv4Network)
      → (c.overlaps m n ≡ true) ↔ (
          (c.network m < c.network n + size (c.prefix n))
          × (c.network n < c.network m + size (c.prefix m)))
  pub equal_iff : (m n : c.Ipv4Network) → (c.equal m n ≡ true) ↔ (m ≡ n)
