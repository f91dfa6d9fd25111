-- ===== src/Subnet/Config/Check/Sound.antt =====
-- What a configuration that passes the check looks like.
use flannel_ng.Base.{ℕ, ◌+◌, ◌%◌, ◌≤◌, ◌<◌, ◌≡◌, refl, true, Option, none, some, arith, subst, sym}
use flannel_ng.Base.Outcome.{ok}
use flannel_ng.Base.Word.{sub_u8, shl_u32, size, mod_of_masked, shl-one}
use flannel_ng.Crates.{Crates, NetworkLaws}
use flannel_ng.Subnet.Network.{add, sub, next_network_lem}
use flannel_ng.Subnet.Config.{Config}
use flannel_ng.Subnet.Config.Check.{
  choose_len, choose_min, choose_max, check_alignment, check_ipv4, check_network_config,
}

pub choose_len-ok :
    (p l : ℕ) {len : ℕ} → p ≤ 32 → choose_len p l ≡ ok len → (p + 2 ≤ len) × (len ≤ 30)
unfolding choose_len
choose_len-ok p l h e = ground arith

pub check_alignment-ok :
    (len a b : ℕ) {u : Unit {0}}
    → 0 < len
    → len ≤ 32
    → check_alignment len a b ≡ ok u
    → (a % size len ≡ 0) × (b % size len ≡ 0)
unfolding check_alignment
check_alignment-ok len a b h k e =
    (mod_of_masked len a h k (ground arith), mod_of_masked len b h k (ground arith))

module _ (c : Crates) where
  -- Where a bound of the range of subnets comes from: the default, or an address of the network.
  abbrev pub MinFrom : c.Ipv4Network → ℕ → Option ℕ → ℕ → Type 0
  MinFrom network len none subnet_min = subnet_min ≡ add (c.ip network) (size len)
  MinFrom network len (some configured) subnet_min =
      (subnet_min ≡ configured) × (c.contains network configured ≡ true)

  abbrev pub MaxFrom : c.Ipv4Network → ℕ → Option ℕ → ℕ → Type 0
  MaxFrom network len none subnet_max =
      subnet_max ≡ sub (add (c.ip network) (size (c.prefix network))) (size len)
  MaxFrom network len (some configured) subnet_max =
      (subnet_max ≡ configured) × (c.contains network configured ≡ true)

  -- The plan for subnets of `network` that a checked configuration stands for.
  pub record IsPlan (network : c.Ipv4Network) (config checked : Config c) : Type 0 where
    pub subnet_min : ℕ
    pub subnet_max : ℕ
    pub checked_eq : checked ≡ record config {
      subnet_len = checked.subnet_len;
      subnet_min = some subnet_min;
      subnet_max = some subnet_max;
    }
    pub four_subnets : c.prefix network + 2 ≤ checked.subnet_len
    pub hosts : checked.subnet_len ≤ 30
    pub min_from : MinFrom network checked.subnet_len config.subnet_min subnet_min
    pub max_from : MaxFrom network checked.subnet_len config.subnet_max subnet_max
    pub min_aligned : subnet_min % size checked.subnet_len ≡ 0
    pub max_aligned : subnet_max % size checked.subnet_len ≡ 0

module _ (c : Crates) (laws : NetworkLaws c) where
  choose_min-ok :
      (network : c.Ipv4Network) (len : ℕ) (configured : Option ℕ) {a : ℕ}
      → choose_min c network (size len) configured ≡ ok a
      → MinFrom c network len configured a
  unfolding choose_min
  choose_min-ok network len none e = ground arith
  choose_min-ok network len (some m) e = ground arith

  choose_max-ok :
      (network : c.Ipv4Network) (len : ℕ) (configured : Option ℕ) {a : ℕ}
      → 0 < c.prefix network
      → c.prefix network < 32
      → choose_max c network (size len) configured ≡ ok a
      → MaxFrom c network len configured a
  unfolding choose_max
  choose_max-ok network len none h k e =
      let (next, found, i, _) = next_network_lem c laws network h k in ground (arith, found, i)
  choose_max-ok network len (some m) h k e = ground arith

  abbrev completed : Config c → ℕ → ℕ → ℕ → Config c
  completed config len a b = record config {
    subnet_len = len;
    subnet_min = some a;
    subnet_max = some b;
  }

  check_ipv4-ok :
      (config : Config c) (network : c.Ipv4Network) {checked : Config c}
      → config.network ≡ some network
      → check_ipv4 c config ≡ ok checked
      → (len a b : ℕ) × (choose_len (c.prefix network) config.subnet_len ≡ ok len)
        × (choose_min c network (shl_u32 1 (sub_u8 32 len)) config.subnet_min ≡ ok a)
        × (choose_max c network (shl_u32 1 (sub_u8 32 len)) config.subnet_max ≡ ok b)
        × (check_alignment len a b ≡ ok tt)
        × (checked ≡ completed config len a b)
  unfolding check_ipv4
  check_ipv4-ok config network given e = ground arith

  check_ipv4-IsPlan :
      (config : Config c) (network : c.Ipv4Network) {checked : Config c}
      → config.network ≡ some network
      → 0 < c.prefix network
      → check_ipv4 c config ≡ ok checked
      → IsPlan c network config checked
  check_ipv4-IsPlan config network {checked} given h e =
      let (len, a, b, len_chosen, min_chosen, max_chosen, aligned, done) =
        check_ipv4-ok config network given e in
      let (room, hosts) = choose_len-ok _ _ (laws.prefix-le network) len_chosen in
      let block = shl-one len (omega arith) (omega arith) in
      let (min_multiple, max_multiple) =
        check_alignment-ok len a b (omega arith) (omega arith) aligned in
      subst (IsPlan c network config) (sym done) (record {
        subnet_min = a;
        subnet_max = b;
        checked_eq = refl;
        four_subnets = room;
        hosts = hosts;
        min_from = choose_min-ok network len config.subnet_min (rw block at min_chosen);
        max_from =
            choose_max-ok network len config.subnet_max h (omega arith) (rw block at max_chosen);
        min_aligned = min_multiple;
        max_aligned = max_multiple;
      })

  -- A configuration with IPv4 on and a network of prefix over 0, which the check accepts: only its
  -- length and its two bounds are changed, the length is at most 30 and at least two bits over the
  -- network's prefix, each bound is the default or the configured address, which lies in the
  -- network, and both bounds are multiples of the size of a subnet.
  pub check_network_config-IsPlan :
      (config : Config c) (network : c.Ipv4Network) {checked : Config c}
      → config.enable_ipv4 ≡ true
      → config.network ≡ some network
      → 0 < c.prefix network
      → check_network_config c config ≡ ok checked
      → IsPlan c network config checked
  unfolding check_network_config
  check_network_config-IsPlan config network {checked} on given h e =
      check_ipv4-IsPlan config network given h (ground arith)
