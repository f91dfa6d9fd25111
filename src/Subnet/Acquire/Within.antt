-- ===== src/Subnet/Acquire/Within.antt =====
-- Where the subnet that `acquire_lease` of src/subnet/subnet.rs acquires lies, from the
-- configuration in the registry on.
use native.Mathlib.Decide.{dec_lt}
use native.Mathlib.Nat.{mul-mod_left, div-add-mod', add-mod_right, mul_assoc, pow-le-pow_right}
use flannel_ng.Base.{
  ℕ, ◌+◌, ◌-◌, ◌*◌, ◌/◌, ◌%◌, ◌^◌, ◌≤◌, ◌<◌, ◌≡◌, refl, sym, ap, ◌∙◌, inl, inr, String, true,
  Option, none, some, arith,
}
use flannel_ng.Base.Outcome.{ok, ok_or, ok_or-ok, external}
use flannel_ng.Base.Io.{pure, lift, ◌>>=◌, >>=-eq-ok, lift-ok, pure-ok}
use flannel_ng.Base.Word.{u32_mod, size, size_pos, size_split}
use flannel_ng.Base.Multiple.{multiple_gap}
use flannel_ng.Crates.{Crates, NetworkLaws}
use flannel_ng.Lease.{Lease, LeaseAttrs}
use flannel_ng.Etcd.{Client}
use flannel_ng.Etcd.Registry
use flannel_ng.Subnet.Config.{Config}
use flannel_ng.Subnet.Config.Check.{check_network_config}
use flannel_ng.Subnet.Config.Check.Sound.{IsPlan, MinFrom, MaxFrom, check_network_config-IsPlan}
use flannel_ng.Subnet.Allocate.Sound.{IsPick, IsRange}
use flannel_ng.Subnet.Acquire.{
  parse_backend_type, get_network_config, try_acquire_lease, retry, acquire_lease, race_retries,
}
use flannel_ng.Subnet.Acquire.Sound.{try_acquire_lease_lem}

multiple_of : (k m x : ℕ) → x % (k * m) ≡ 0 → x % m ≡ 0
multiple_of k m x h =
    let whole : x ≡ x / (k * m) * (k * m) = omega (arith, div-add-mod' x (k * m)) in
    ap (λ n. n % m) (whole ∙ sym (mul_assoc (x / (k * m)) k m)) ∙ mul-mod_left (x / (k * m) * k) m

-- A subnet is at most a quarter of its network.
quarter : (p len : ℕ) → p + 2 ≤ len → len ≤ 30 → 4 * size len ≤ size p
unfolding size
quarter p len h k =
    let smaller : 2 ^ (32 - len) ≤ 2 ^ (32 - (p + 2)) =
      pow-le-pow_right (omega arith) {j = 32 - (p + 2)} (omega arith) in
    let two : p + 2 - p ≡ 2 = omega arith in
    let split : 2 ^ (32 - p) ≡ 2 ^ 2 * 2 ^ (32 - (p + 2)) =
      size_split p (p + 2) (omega arith) (omega arith) ∙ ap (λ n. 2 ^ n * 2 ^ (32 - (p + 2))) two in
    omega (arith, smaller, split)

-- An aligned subnet whose first address lies in an aligned network lies in it as a whole.
inside_whole :
    (p len base a : ℕ)
    → p ≤ len
    → len ≤ 32
    → base % size p ≡ 0
    → a % size len ≡ 0
    → a < base + size p
    → a + size len ≤ base + size p
inside_whole p len base a h k whole aligned lt =
    let end : (base + size p) % size p ≡ 0 = add-mod_right base (size p) ∙ whole in
    let end' : (base + size p) % size len ≡ 0 =
      multiple_of (2 ^ (len - p)) (size len) (base + size p)
        (ap (λ n. (base + size p) % n) (sym (size_split p len h k)) ∙ end) in
    elim (dec_lt (base + size p) (a + size len)) [
      | yes over ↦
          let same : a ≡ base + size p =
            multiple_gap (size len) a (base + size p) aligned end' (omega arith) over in
          absurd (omega arith)
      | no under ↦ omega arith
    ]

module _ (c : Crates) (laws : NetworkLaws c) (network : c.Ipv4Network) where
  -- A network that starts at its address and ends before the end of the address space.
  pub record IsNetwork : Type 0 where
    pub short : 0 < c.prefix network
    pub aligned : c.ip network % size (c.prefix network) ≡ 0
    pub room : c.ip network + size (c.prefix network) < u32_mod

  contains-between :
      (a : ℕ)
      → c.ip network % size (c.prefix network) ≡ 0
      → c.contains network a ≡ true
      → (c.ip network ≤ a) × (a < c.ip network + size (c.prefix network))
  contains-between a e h =
      let (from, to) = (laws.contains_iff network a).0 h in
      (omega (arith, laws.network-add network), omega (arith, laws.network-add network))

  MinFrom-between :
      (len a : ℕ) (configured : Option ℕ)
      → IsNetwork
      → 4 * size len ≤ size (c.prefix network)
      → MinFrom c network len configured a
      → (c.ip network ≤ a) × (a < c.ip network + size (c.prefix network))
  MinFrom-between len a none n q h =
      (omega (arith, h, n.room, size_pos len), omega (arith, h, n.room, size_pos len))
  MinFrom-between len a (some configured) n q (e, h) =
      contains-between a n.aligned (ap (c.contains network) e ∙ h)

  MaxFrom-between :
      (len a : ℕ) (configured : Option ℕ)
      → IsNetwork
      → 4 * size len ≤ size (c.prefix network)
      → MaxFrom c network len configured a
      → (c.ip network ≤ a) × (a < c.ip network + size (c.prefix network))
  MaxFrom-between len a none n q h =
      (omega (arith, h, n.room, size_pos len), omega (arith, h, n.room, size_pos len))
  MaxFrom-between len a (some configured) n q (e, h) =
      contains-between a n.aligned (ap (c.contains network) e ∙ h)

  plan-IsRange :
      (config checked : Config c) (plan : IsPlan c network config checked)
      → IsNetwork
      → IsRange c checked plan.subnet_min plan.subnet_max
        × ((c.ip network ≤ plan.subnet_min)
            × (plan.subnet_max < c.ip network + size (c.prefix network)))
  plan-IsRange config checked plan n =
      let len = checked.subnet_len in
      let q = quarter (c.prefix network) len plan.four_subnets plan.hosts in
      let (from, below) = MinFrom-between len plan.subnet_min config.subnet_min n q plan.min_from in
      let (above, to) = MaxFrom-between len plan.subnet_max config.subnet_max n q plan.max_from in
      let end =
        inside_whole (c.prefix network) len (c.ip network) plan.subnet_max
          (omega (arith, plan.four_subnets)) (omega (arith, plan.hosts)) n.aligned plan.max_aligned
          to in
      (
        record {
          min_given = ap (λ (cfg : Config c). cfg.subnet_min) plan.checked_eq;
          max_given = ap (λ (cfg : Config c). cfg.subnet_max) plan.checked_eq;
          min_aligned = plan.min_aligned;
          min_bound = omega (arith, below, n.room);
          room = omega (arith, end, n.room);
          long = omega (arith, plan.four_subnets);
          short = plan.hosts;
        },
        (from, to),
      )

  -- The subnet's address lies in the network, and its prefix is longer by two bits at least, of at
  -- most 30.
  pub record IsWithin (lease : Lease c) : Type 0 where
    pub inside : c.contains network (c.ip lease.subnet) ≡ true
    pub longer : c.prefix network + 2 ≤ c.prefix lease.subnet
    pub hosts : c.prefix lease.subnet ≤ 30

  between-contains :
      (a : ℕ)
      → IsNetwork
      → c.ip network ≤ a
      → a < c.ip network + size (c.prefix network)
      → c.contains network a ≡ true
  between-contains a n from to = (laws.contains_iff network a).1 (
    omega (arith, laws.network-add network, n.aligned),
    omega (arith, laws.network-add network, n.aligned),
  )

module _ (c : Crates) (laws : NetworkLaws c) (client : Client c) (prefix : String)
    (from_str : String → Option (Config c)) (pick : ℕ → ℕ) (in_range : IsPick pick)
    (network : c.Ipv4Network) where
  open client use {World}

  planned-IsWithin :
      (config checked : Config c) (attrs : LeaseAttrs c) (ext_addr : ℕ) (w : World)
      {lease : Lease c} {w' : World}
      → IsPlan c network config checked
      → IsNetwork c laws network
      → try_acquire_lease c client prefix from_str pick checked attrs ext_addr w ≡ (ok lease, w')
      → IsWithin c laws network lease
  planned-IsWithin config checked attrs ext_addr w {lease} plan n h =
      let (range, bounds) = plan-IsRange c laws network config checked plan n in
      let (from, to) = bounds in
      let (leases, index, v, read, kind) =
        try_acquire_lease_lem c laws client prefix from_str pick in_range checked attrs ext_addr
          plan.subnet_min plan.subnet_max range w h in
      elim kind [
        | inl reused ↦ record {
          inside =
              between-contains c laws network (c.ip lease.subnet) n
                (omega (arith, from, reused.from)) (omega (arith, to, reused.upto));
          longer = omega (arith, reused.of_len, plan.four_subnets);
          hosts = omega (arith, reused.of_len, plan.hosts);
        }
        | inr fresh ↦ record {
          inside =
              between-contains c laws network (c.ip lease.subnet) n
                (omega (arith, from, fresh.candidate.from))
                (omega (arith, to, fresh.candidate.upto));
          longer = omega (arith, fresh.of_len, plan.four_subnets);
          hosts = omega (arith, fresh.of_len, plan.hosts);
        }
      ]

  -- The configuration that the registry gives in the state, if it gives one, is for the network.
  abbrev pub IsForNetwork : World → Type 0
  IsForNetwork w =
      (text : String) (v : World) (cfg : Config c)
      → Registry.get_network_config c client prefix w ≡ (ok text, v)
      → from_str text ≡ some cfg
      → cfg.network ≡ some network

  -- What `get_network_config` passes to the check.
  abbrev pub completed : Config c → Config c
  completed cfg = record cfg {
    enable_ipv4 = true;
    backend_type = some (parse_backend_type c cfg.backend);
  }

  pub get_network_config-ok :
      (w : World) {checked : Config c} {w' : World}
      → get_network_config c client prefix from_str pick w ≡ (ok checked, w')
      → (text : String) × (cfg : Config c) × (Registry.get_network_config c client prefix w
          ≡ (ok text, w'))
        × (from_str text ≡ some cfg)
        × (check_network_config c (completed cfg) ≡ ok checked)
  unfolding get_network_config
  get_network_config-ok w h =
      let (text, v, read, h1) =
        >>=-eq-ok (Registry.get_network_config c client prefix)
          (λ text. lift (ok_or (from_str text) external) >>= λ cfg.
            lift (check_network_config c (completed cfg)))
          w h in
      let (cfg, v1, parsed, h2) =
        >>=-eq-ok (lift (ok_or (from_str text) external))
          (λ cfg. lift (check_network_config c (completed cfg))) v h1 in
      let (given, same) = lift-ok (ok_or (from_str text) external) v parsed in
      let (checked, same') = lift-ok (check_network_config c (completed cfg)) v1 h2 in
      (
        text,
        cfg,
        read ∙ ap (λ w. (ok text, w)) (same ∙ same'),
        ok_or-ok (from_str text) external given,
        checked,
      )

  retry-ok :
      (config : Config c) (attrs : LeaseAttrs c) (w : World) {lease : Lease c} {w' : World}
      → retry c client prefix from_str pick race_retries config attrs w ≡ (ok lease, w')
      → (w1 : World) × (try_acquire_lease c client prefix from_str pick config attrs attrs.public_ip
            w
          ≡ (ok lease, w1))
  unfolding retry
  retry-ok config attrs w h =
      let (l, w1, tried, done) =
        >>=-eq-ok (try_acquire_lease c client prefix from_str pick config attrs attrs.public_ip)
          (λ l. pure l) w h in
      (w1, tried ∙ ap (λ l. (ok l, w1)) (pure-ok l w1 done))

  -- Where the configuration that the registry holds at the start of `acquire_lease` is for a network
  -- that is aligned, has a prefix over 0 and ends below the end of the address space: a lease that
  -- `acquire_lease` returns is on a subnet of the network, with a prefix longer than the network's
  -- by at least two bits, and of at most 30.
  pub acquire_lease-IsWithin :
      (attrs : LeaseAttrs c) (w : World) {lease : Lease c} {w' : World}
      → IsNetwork c laws network
      → IsForNetwork w
      → acquire_lease c client prefix from_str pick attrs w ≡ (ok lease, w')
      → IsWithin c laws network lease
  unfolding acquire_lease
  acquire_lease-IsWithin attrs w n for_network h =
      let (checked, v, configured, h1) =
        >>=-eq-ok (get_network_config c client prefix from_str pick)
          (λ config. retry c client prefix from_str pick race_retries config attrs) w h in
      let (text, cfg, read, parsed, fine) = get_network_config-ok w configured in
      let plan =
        check_network_config-IsPlan c laws (completed cfg) network refl
          (for_network text v cfg read parsed) n.short fine in
      let (w1, tried) = retry-ok checked attrs v h1 in
      planned-IsWithin (completed cfg) checked attrs attrs.public_ip v plan n tried
