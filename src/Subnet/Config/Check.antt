-- ===== src/Subnet/Config/Check.antt =====
-- `SubnetManager::check_network_config` of src/subnet/subnet.rs, which completes the configuration
-- that it checks.
pub mod Sound
pub mod Defaults
use flannel_ng.Base.{
  ℕ, ◌*◌, Bool, true, false, not, Option, none, some, bit_and, ltb, leb, ◌==◌, if◌then◌else◌,
}
use flannel_ng.Base.Outcome.{
  Outcome, ok, err, panic, ◌>>=◌, ◌>>◌, bail_if, unwrap, ok_or, network_undefined,
  subnet_len_too_long, network_too_narrow, network_too_small, min_outside, max_outside,
  min_unaligned, max_unaligned,
}
use flannel_ng.Base.Word.{add_u8, sub_u8, shl_u32}
use flannel_ng.Crates.{Crates}
use flannel_ng.Subnet.Network.{add, sub, next_network}
use flannel_ng.Subnet.Config.{Config}

-- The length of a subnet's prefix: the configured one if it is over 0, or one that leaves the
-- network at least four subnets.
unfoldable pub choose_len : ℕ → ℕ → Outcome ℕ
choose_len prefix len =
    if ltb 0 len
    then (do
      bail_if (ltb 30 len) subnet_len_too_long
      bail_if (ltb len (add_u8 prefix 2)) network_too_narrow
      ok len)
    else if ltb 28 prefix
    then err network_too_small
    else if leb prefix 22
    then ok 24
    else ok (add_u8 prefix 2)

-- Both bounds are multiples of the size of a subnet.
unfoldable pub check_alignment : ℕ → ℕ → ℕ → Outcome (Unit {0})
check_alignment len subnet_min subnet_max = do
  let mask = shl_u32 0xFFFFFFFF (sub_u8 32 len)
  bail_if (not (subnet_min == bit_and subnet_min mask)) min_unaligned
  bail_if (not (subnet_max == bit_and subnet_max mask)) max_unaligned

module _ (c : Crates) where
  unfoldable pub choose_min : c.Ipv4Network → ℕ → Option ℕ → Outcome ℕ
  choose_min network subnet_size none = ok (add (c.ip network) subnet_size)
  choose_min network subnet_size (some subnet_min) = do
    bail_if (not (c.contains network subnet_min)) min_outside
    ok subnet_min

  unfoldable pub choose_max : c.Ipv4Network → ℕ → Option ℕ → Outcome ℕ
  choose_max network subnet_size none = do
    next ← unwrap (next_network c network)
    ok (sub (c.ip next) subnet_size)
  choose_max network subnet_size (some subnet_max) = do
    bail_if (not (c.contains network subnet_max)) max_outside
    ok subnet_max

  unfoldable pub check_ipv4 : Config c → Outcome (Config c)
  check_ipv4 config = do
    network ← ok_or config.network network_undefined
    len ← choose_len (c.prefix network) config.subnet_len
    let subnet_size = shl_u32 1 (sub_u8 32 len)
    subnet_min ← choose_min network subnet_size config.subnet_min
    subnet_max ← choose_max network subnet_size config.subnet_max
    check_alignment len subnet_min subnet_max
    ok (record config {
      subnet_len = len;
      subnet_min = some subnet_min;
      subnet_max = some subnet_max;
    })

  -- IPv6 is `todo!()`.
  unfoldable pub check_network_config : Config c → Outcome (Config c)
  check_network_config config = do
    checked ← if config.enable_ipv4 then check_ipv4 config else ok config
    if config.enable_ipv6 then panic else ok checked
