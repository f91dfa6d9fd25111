-- ===== src/Subnet/Allocate.antt =====
-- `SubnetManager::allocate_subnet` of src/subnet/subnet.rs. The index that `gen_range` draws is the
-- parameter `pick`. The `while` loop takes fuel, a round for each address at most.
pub mod Free
pub mod Search
pub mod Sound
use flannel_ng.Base.{
  ℕ, zero, suc, ◌+◌, ◌^◌, Bool, true, false, ◌&&◌, Option, none, some, List, [], ◌∷◌, ◌++◌, any,
  length, get_elem?, ltb, leb, if◌then◌else◌,
}
use flannel_ng.Base.Outcome.{
  Outcome, ok, err, panic, out_of_fuel, ◌>>=◌, ◌>>◌, bail_if, unwrap, ok_or, no_available_subnets,
  invalid_prefix,
}
use flannel_ng.Crates.{Crates}
use flannel_ng.Lease.{Lease}
use flannel_ng.Subnet.Network.{next_network}
use flannel_ng.Subnet.Config.{Config}
use flannel_ng.Subnet.Watcher.{is_empty}

-- A subnet is drawn among the first hundred that are free.
abbrev pub max_available : ℕ
max_available = 100

abbrev pub loop_fuel : ℕ
loop_fuel = 2 ^ 32 + 1

module _ (c : Crates) where
  -- The `for` loop over the leases.
  unfoldable pub overlaps_any : c.Ipv4Network → List (Lease c) → Bool
  overlaps_any sn leases = any (λ l. c.overlaps sn l.subnet) leases

  unfoldable pub collect : ℕ → List (Lease c) → ℕ → c.Ipv4Network → List ℕ → Outcome (List ℕ)
  collect zero leases subnet_max sn available_ips = out_of_fuel
  collect (suc fuel) leases subnet_max sn available_ips =
      let found =
        if overlaps_any sn leases then available_ips else available_ips ++ (c.ip sn ∷ []) in
      let rest = unwrap (next_network c sn) >>= λ next. collect fuel leases subnet_max next found in
      if leb (c.ip sn) subnet_max && ltb (length available_ips) max_available
      then rest
      else ok available_ips

  unfoldable pub allocate_subnet : (ℕ → ℕ) → Config c → List (Lease c) → Outcome (c.Ipv4Network)
  allocate_subnet pick config leases = do
    subnet_max ← unwrap config.subnet_max
    subnet_min ← unwrap config.subnet_min
    sn ← ok_or (c.new subnet_min config.subnet_len) invalid_prefix
    available_ips ← collect loop_fuel leases subnet_max sn []
    bail_if (is_empty available_ips) no_available_subnets
    ip ← unwrap (get_elem? available_ips (pick (length available_ips)))
    unwrap (c.new ip config.subnet_len)
