-- ===== src/Env/Previous.antt =====
-- The subnet that `main` of src/main.rs reads back of the file that `write_subnet_file` of
-- src/subnet/subnet.rs has written.
use Prim.Native.String.{◌++◌ as ◌<>◌}
use native.Mathlib.Decide.{dec_lt}
use native.Mathlib.Nat.{mod-eq_of_lt, mul-mod_left}
use flannel_ng.Base.{
  ℕ, ◌+◌, ◌-◌, ◌*◌, ◌%◌, ◌^◌, ◌≤◌, ◌<◌, ◌≡◌, refl, sym, ap, ◌∙◌, String, Bool, true, Option, some,
  arith,
}
use flannel_ng.Base.Outcome.{ok}
use flannel_ng.Base.Word.{u32_mod, size, size_pos, size_split}
use flannel_ng.Base.Multiple.{multiple_gap, floor_iff}
use flannel_ng.Crates.{Crates, NetworkLaws}
use flannel_ng.Subnet.Config.{Config}
use flannel_ng.Subnet.Network.{add}
use flannel_ng.Etcd.Key.{show_u8, show_ip}
use flannel_ng.Env.{get, node_subnet, write_subnet_file, prev_subnet}
use flannel_ng.Env.RoundTrip.{read_from_subnet_env-write_subnet_file}
use flannel_ng.Env.Plain.{IsPlain}

-- What the program relies on of the text of networks.
pub record TextLaws (c : Crates) (show_network : c.Ipv4Network → String)
    (parse_ipv4 : String → Option (c.Ipv4Network)) : Type 0 where
  pub plain : (n : c.Ipv4Network) → IsPlain (show_network n)
  -- an address, a slash and a length are parsed as `new` takes them
  pub parse-show :
      (a p : ℕ) → a < u32_mod → p ≤ 32 → parse_ipv4 (show_ip a <> ("/" <> show_u8 p)) ≡ c.new a p

-- The size of a block divides the address space, and is even below 32 bits of prefix.
size-whole : (p : ℕ) → p ≤ 32 → u32_mod % size p ≡ 0
unfolding size
size-whole p h =
    ap (λ n. n % size p) (size_split 0 p (omega arith) h) ∙ mul-mod_left (2 ^ (p - 0)) (size p)

size-half : (p : ℕ) → p < 32 → 1 < size p
size-half p h =
    let one : p + 1 - p ≡ 1 = omega arith in
    let half : size p ≡ 2 ^ 1 * size (p + 1) =
      size_split p (p + 1) (omega arith) (omega arith) ∙ ap (λ n. 2 ^ n * size (p + 1)) one in
    omega (arith, half, size_pos (p + 1))

-- The address after an aligned one.
add-one : (a p : ℕ) → a < u32_mod → p < 32 → a % size p ≡ 0 → add a 1 ≡ a + 1
add-one a p h long aligned = elim (dec_lt (a + 1) u32_mod) [
  | yes room ↦ mod-eq_of_lt room
  | no full ↦
      let last : a ≡ u32_mod =
        multiple_gap (size p) a u32_mod aligned (size-whole p (omega arith)) (omega arith)
          (omega (arith, size-half p long)) in
      absurd (omega arith)
]

module _ (c : Crates) (laws : NetworkLaws c) (show_network : c.Ipv4Network → String)
    (parse_ipv4 : String → Option (c.Ipv4Network)) (text : TextLaws c show_network parse_ipv4) where
  first-parsed :
      (sn : c.Ipv4Network)
      → (n : c.Ipv4Network) × (parse_ipv4 (node_subnet c show_network sn) ≡ some n)
        × (c.ip n ≡ add (c.ip sn) 1)
        × (c.prefix n ≡ c.prefix sn)
  unfolding node_subnet
  first-parsed sn =
      let (n, made, ip, prefix) =
        laws.new-some (add (c.ip sn) 1) (c.prefix sn) (omega arith) (laws.prefix-le sn) in
      (
        n,
        text.parse-show (add (c.ip sn) 1) (c.prefix sn) (omega arith) (laws.prefix-le sn) ∙ made,
        ip,
        prefix,
      )

  node_subnet-parsed :
      (sn : c.Ipv4Network)
      → c.prefix sn < 32
      → c.ip sn % size (c.prefix sn) ≡ 0
      → (n : c.Ipv4Network) × (parse_ipv4 (node_subnet c show_network sn) ≡ some n)
        × (c.prefix n ≡ c.prefix sn)
        × (c.network n ≡ c.ip sn)
  node_subnet-parsed sn long aligned =
      let p = c.prefix sn in
      let next = add-one (c.ip sn) p (laws.ip-lt sn) long aligned in
      let (n, parsed, ip, prefix) = first-parsed sn in
      let base : c.network n + c.ip n % size p ≡ c.ip n =
        ap (λ q. c.network n + c.ip n % size q) (sym prefix) ∙ laws.network-add n in
      (
        n,
        parsed,
        prefix,
        (floor_iff (size p) (c.ip sn) (c.ip n) (c.network n) (size_pos p) aligned base).1
            (omega (arith, ip, next), omega (arith, ip, next, size-half p long)),
      )

  pub prev_subnet-first :
      (config : Config c) (ip_masq : Bool) (sn : c.Ipv4Network) (mtu : ℕ) {file : String}
      → config.enable_ipv4 ≡ true
      → write_subnet_file c show_network config ip_masq sn mtu ≡ ok file
      → (n : c.Ipv4Network) × (prev_subnet c parse_ipv4 (some file) ≡ ok (some n))
        × (c.ip n ≡ add (c.ip sn) 1)
        × (c.prefix n ≡ c.prefix sn)
  unfolding prev_subnet get
  prev_subnet-first config ip_masq sn mtu e h =
      let (network, given, pairs) =
        read_from_subnet_env-write_subnet_file c show_network config ip_masq sn mtu text.plain e
          h in
      let (n, subnet, ip, prefix) = first-parsed sn in (n, rw (pairs, subnet) refl, ip, prefix)

  -- Where an address, a slash and a length are parsed as that network: with IPv4, and a subnet of
  -- less than 32 bits that is aligned, the subnet that `main` reads back of the file that
  -- `write_subnet_file` writes has the prefix length of the subnet, and its network.
  pub prev_subnet-write_subnet_file :
      (config : Config c) (ip_masq : Bool) (sn : c.Ipv4Network) (mtu : ℕ) {file : String}
      → config.enable_ipv4 ≡ true
      → c.prefix sn < 32
      → c.ip sn % size (c.prefix sn) ≡ 0
      → write_subnet_file c show_network config ip_masq sn mtu ≡ ok file
      → (n : c.Ipv4Network) × (prev_subnet c parse_ipv4 (some file) ≡ ok (some n))
        × (c.prefix n ≡ c.prefix sn)
        × (c.network n ≡ c.ip sn)
  unfolding prev_subnet get
  prev_subnet-write_subnet_file config ip_masq sn mtu e long aligned h =
      let (network, given, pairs) =
        read_from_subnet_env-write_subnet_file c show_network config ip_masq sn mtu text.plain e
          h in
      let (n, subnet, prefix, base) = node_subnet-parsed sn long aligned in
      (n, rw (pairs, subnet) refl, prefix, base)
