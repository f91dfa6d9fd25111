-- ===== src/Subnet/Config/Check/Defaults.antt =====
-- `check_network_config` of src/subnet/subnet.rs on a configuration that gives a network alone.
use native.Mathlib.Nat.{mod_self, mod-eq_of_lt, zero-mod, add-mod, add-mod_right}
use flannel_ng.Base.{
  ℕ, ◌+◌, ◌-◌, ◌%◌, ◌≤◌, ◌<◌, ◌≡◌, refl, ap, ◌∙◌, true, false, none, some, arith, leb,
  if◌then◌else◌, sym,
}
use flannel_ng.Base.Outcome.{ok}
use flannel_ng.Base.Word.{
  sub_u8, shl_u32, size, size_pos, block_fits, four_blocks, multiple_of_split, u32_mod,
  masked_of_mod, shl-one,
}
use flannel_ng.Crates.{Crates, NetworkLaws}
use flannel_ng.Subnet.Network.{next_network_lem}
use flannel_ng.Subnet.Config.{Config}
use flannel_ng.Subnet.Config.Check.{
  choose_len, choose_min, choose_max, check_alignment, check_ipv4, check_network_config,
}

-- The length that a bare network of this prefix length gets.
abbrev pub default_len : ℕ → ℕ
default_len p = if leb p 22 then 24 else p + 2

default_len_room : (p : ℕ) → p ≤ 28 → (p + 2 ≤ default_len p) × (default_len p ≤ 30)
default_len_room p h = ground arith

choose_len-default : (p : ℕ) → p ≤ 28 → choose_len p 0 ≡ ok (default_len p)
unfolding choose_len
choose_len-default p h = ground arith

check_alignment_pass :
    (len a b : ℕ)
    → 0 < len
    → len ≤ 32
    → a < u32_mod
    → b < u32_mod
    → a % size len ≡ 0
    → b % size len ≡ 0
    → check_alignment len a b ≡ ok tt
unfolding check_alignment
check_alignment_pass len a b h k la lb ea eb =
    rw (masked_of_mod len a h k la ea, masked_of_mod len b h k lb eb) refl

module _ (c : Crates) where
  -- A configuration that gives the network alone, at its first address.
  pub record IsBare (network : c.Ipv4Network) (config : Config c) : Type 0 where
    pub ipv4_on : config.enable_ipv4 ≡ true
    pub ipv6_off : config.enable_ipv6 ≡ false
    pub given : config.network ≡ some network
    pub no_len : config.subnet_len ≡ 0
    pub no_min : config.subnet_min ≡ none
    pub no_max : config.subnet_max ≡ none
    pub long : 0 < c.prefix network
    pub short : c.prefix network ≤ 28
    pub first : c.ip network % size (c.prefix network) ≡ 0

  abbrev pub default_plan : c.Ipv4Network → Config c → Config c
  default_plan network config =
      let len = default_len (c.prefix network) in
      record config {
        subnet_len = len;
        subnet_min = some (c.ip network + size len);
        subnet_max = some (c.ip network + size (c.prefix network) - size len);
      }

module _ (c : Crates) (laws : NetworkLaws c) where
  -- What the default bounds are in terms of the block, with no wrap-around.
  choose_min-default :
      (network : c.Ipv4Network) (len : ℕ)
      → 0 < len
      → len ≤ 32
      → c.ip network + size len < u32_mod
      → choose_min c network (shl_u32 1 (sub_u8 32 len)) none ≡ ok (c.ip network + size len)
  unfolding choose_min
  choose_min-default network len h k l = rw (shl-one len h k, mod-eq_of_lt l) refl

  choose_max-default :
      (network : c.Ipv4Network) (len : ℕ)
      → 0 < len
      → len ≤ 32
      → 0 < c.prefix network
      → c.prefix network < 32
      → size len ≤ size (c.prefix network)
      → c.ip network + size (c.prefix network) ≤ u32_mod
      → choose_max c network (shl_u32 1 (sub_u8 32 len)) none
        ≡ ok (c.ip network + size (c.prefix network) - size len)
  unfolding choose_max
  choose_max-default network len h k l m n fits =
      let (next, found, i, _) = next_network_lem c laws network l m in
      rw (shl-one len h k, found, i) (ap ok (omega (arith, size_pos len)))

  -- The last multiple of a block's size below the end of an aligned network.
  last_multiple : (a p l : ℕ) → l ≤ p → a % l ≡ 0 → p % l ≡ 0 → (a + p - l) % l ≡ 0
  last_multiple a p l h e f =
      sym (add-mod_right (a + p - l) l)
      ∙ ap (λ n. n % l) (omega arith)
      ∙ add-mod a p l
      ∙ rw (e, f) (zero-mod l)

  -- A configuration with IPv4 on, IPv6 off, neither length nor bounds, and a network of prefix 1
  -- to 28 that is named by its first address: the check accepts it and completes it with length
  -- 24, or two bits over the prefix if that is over 22, and with bounds that take in all subnets
  -- of the network but the first.
  pub check_network_config-bare :
      (config : Config c) (network : c.Ipv4Network)
      → IsBare c network config
      → check_network_config c config ≡ ok (default_plan c network config)
  unfolding check_network_config check_ipv4
  check_network_config-bare config network bare =
      let p = c.prefix network in
      let len = default_len p in
      let ip = c.ip network in
      let (room, hosts) = default_len_room p bare.short in
      let fits = block_fits p ip (omega arith) (laws.ip-lt network) bare.first in
      let four = four_blocks p len room (omega arith) in
      let positive = size_pos len in
      let whole = multiple_of_split p len ip (omega arith) (omega arith) bare.first in
      let block =
        multiple_of_split p len (size p) (omega arith) (omega arith) (mod_self (size p)) in
      let min = ip + size len in
      let max = ip + size p - size len in
      ground (
        arith,
        choose_len-default p bare.short,
        choose_min-default network len (omega arith) (omega arith) (omega arith),
        choose_max-default network len (omega arith) (omega arith) bare.long (omega arith)
            (omega arith) fits,
        check_alignment_pass len min max (omega arith) (omega arith) (omega arith) (omega arith)
            (rw add-mod_right whole)
            (last_multiple ip (size p) (size len) (omega arith) whole block),
      )
