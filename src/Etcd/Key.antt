-- ===== src/Etcd/Key.antt =====
-- Keys of subnets in the registry: `join_path!`, the format of a subnet, and `extract_ip_and_subnet`
-- of src/etcd/registry.rs.
mod Captured
mod Directory
pub mod RoundTrip
pub mod Reference
mod Tests
use Prim.Native.Char.{code}
use Prim.Native.String.{◌++◌ as ◌<>◌}
use flannel_ng.Base.{
  ℕ, ◌/◌, ◌%◌, ◌^◌, String, Bool, false, not, Option, none, some, List, [], ◌∷◌, length, get_elem?,
  ltb, ◌==◌, str_eq, if◌then◌else◌, ◌||◌,
}
use flannel_ng.Base.Outcome.{
  Outcome, ok, ◌>>=◌, ◌>>◌, bail_if, unwrap, ok_or, external, invalid_subnet,
}
use flannel_ng.Crates.{Crates}
use flannel_ng.Etcd.Regex.{
  Class, literal, digit as digit_class, any_char, range, either, Pattern, one, plus, seq, group,
  maybe, end,
}
use flannel_ng.Etcd.{Client}

abbrev pub slash : ℕ
slash = 47

abbrev pub starts_with_slash : String → Bool
starts_with_slash String.[] = false
starts_with_slash (String.◌∷◌ ch rest) = code ch == slash

abbrev pub ends_with_slash : String → Bool
ends_with_slash String.[] = false
ends_with_slash (String.◌∷◌ ch String.[]) = code ch == slash
ends_with_slash (String.◌∷◌ ch (String.◌∷◌ ch' rest)) = ends_with_slash (String.◌∷◌ ch' rest)

-- `PathBuf::push` on Unix
unfoldable pub push : String → String → String
push path segment =
    if starts_with_slash segment
    then segment
    else if str_eq path "" || ends_with_slash path
    then path <> segment
    else path <> ("/" <> segment)

unfoldable pub join_path : List String → String → String
join_path [] path = path
join_path (segment ∷ rest) path = join_path rest (push path segment)

-- Display of an octet, or of a prefix length.
abbrev pub digits : List String
digits = "0" ∷ "1" ∷ "2" ∷ "3" ∷ "4" ∷ "5" ∷ "6" ∷ "7" ∷ "8" ∷ "9" ∷ []

abbrev pub or_empty : Option String → String
or_empty none = ""
or_empty (some d) = d

abbrev pub digit : ℕ → String
digit n = or_empty (get_elem? digits n)

unfoldable pub show_u8 : ℕ → String
show_u8 n =
    if ltb n 10
    then digit n
    else if ltb n 100
    then digit (n / 10) <> digit (n % 10)
    else digit (n / 100) <> (digit (n / 10 % 10) <> digit (n % 10))

-- Display of an `Ipv4Addr`
unfoldable pub show_ip : ℕ → String
unfolding show_u8
show_ip a =
    show_u8 (a / 2 ^ 24)
    <> ("."
        <> (show_u8 (a / 2 ^ 16 % 256)
            <> ("." <> (show_u8 (a / 2 ^ 8 % 256) <> ("." <> show_u8 (a % 256))))))

module _ (c : Crates) where
  unfoldable pub subnet_name : c.Ipv4Network → String
  unfolding show_ip
  subnet_name sn = show_ip (c.ip sn) <> ("-" <> show_u8 (c.prefix sn))

  -- The key of a subnet under the prefix of the registry.
  unfoldable pub subnet_key : String → c.Ipv4Network → String
  unfolding push join_path subnet_name
  subnet_key prefix sn = join_path (prefix ∷ "subnets" ∷ subnet_name sn ∷ []) ""

abbrev pub hex_or_colon : Class
hex_or_colon = either (range 97 102) (either digit_class (literal 58))

-- The four numbers of an address. Only the first of the dots is escaped.
abbrev pub address_pattern : Pattern
address_pattern = seq (plus digit_class) (
    seq (one (literal 46)) (
      seq (plus digit_class)
        (seq (one any_char) (seq (plus digit_class) (seq (one any_char) (plus digit_class))))))

-- `&([a-f\d:]+)-(\d+)`
abbrev pub v6_pattern : Pattern
v6_pattern =
    seq (one (literal 38))
      (seq (group (plus hex_or_colon)) (seq (one (literal 45)) (group (plus digit_class))))

-- `(\d+\.\d+.\d+.\d+)-(\d+)(?:&([a-f\d:]+)-(\d+))?$`
abbrev pub subnet_pattern : Pattern
subnet_pattern =
    seq (group address_pattern)
      (seq (one (literal 45)) (seq (group (plus digit_class)) (seq (maybe v6_pattern) end)))

abbrev join : Option (Option String) → Option String
join none = none
join (some g) = g

module _ (c : Crates) (client : Client c) where
  -- `caps.get(i)`
  abbrev pub capture : List (Option String) → ℕ → Option String
  capture caps i = join (get_elem? caps i)

  abbrev pub parse_v6 :
      c.Ipv4Network
      → Option String
      → Option String
      → Outcome (c.Ipv4Network × Option (c.Ipv6Network))
  parse_v6 sn4 (some ip) (some len) =
      if not (str_eq ip "" || str_eq len "")
      then (do sn6 ← ok_or (client.parse_ipv6 (ip <> ("/" <> len))) external; ok (sn4, some sn6))
      else ok (sn4, none)
  parse_v6 sn4 (some ip) none = ok (sn4, none)
  parse_v6 sn4 none len = ok (sn4, none)

  unfoldable pub extract_ip_and_subnet : String → Outcome (c.Ipv4Network × Option (c.Ipv6Network))
  extract_ip_and_subnet input = do
    caps ← ok_or (client.captures subnet_pattern input) invalid_subnet
    bail_if (not (length caps == 5)) invalid_subnet
    ip_address ← unwrap (capture caps 1)
    subnet_length ← unwrap (capture caps 2)
    sn4 ← ok_or (client.parse_ipv4 (ip_address <> ("/" <> subnet_length))) external
    parse_v6 sn4 (capture caps 3) (capture caps 4)
