-- ===== src/Env.antt =====
-- The subnet file: `write_subnet_file` of src/subnet/subnet.rs, `read_from_subnet_env` of
-- src/main.rs and what `main` makes of it. A file is its text, and a map the list of what has been
-- put into it; the directories and the renaming of the temporary file are left out.
pub mod Plain
pub mod RoundTrip
pub mod Previous
pub mod Decimal
mod Tests
use Prim.Native.Char.{Char, code}
use Prim.Native.String.{◌++◌ as ◌<>◌}
use flannel_ng.Base.{
  ℕ, zero, suc, ◌/◌, ◌%◌, String, Bool, true, false, not, ◌&&◌, ◌||◌, Option, none, some, List, [],
  ◌∷◌, retain, ltb, leb, ◌==◌, str_eq, if◌then◌else◌,
}
use flannel_ng.Base.Outcome.{Outcome, ok, err, ok_or, unwrap, external, ◌>>=◌}
use flannel_ng.Crates.{Crates}
use flannel_ng.Etcd.Key.{digit, show_u8, show_ip}
use flannel_ng.Subnet.Config.{Config}
use flannel_ng.Subnet.Network.{add}

abbrev pub newline : ℕ
newline = 10

abbrev pub equals_sign : ℕ
equals_sign = 61

-- `char::is_whitespace`, of a code point
unfoldable pub is_whitespace : ℕ → Bool
is_whitespace n =
    (leb 9 n && leb n 13)
    || (n == 0x20)
    || (n == 0x85)
    || (n == 0xA0)
    || (n == 0x1680)
    || (leb 0x2000 n && leb n 0x200A)
    || (n == 0x2028)
    || (n == 0x2029)
    || (n == 0x202F)
    || (n == 0x205F)
    || (n == 0x3000)

-- `str::trim`
unfoldable pub trim_start : String → String
trim_start String.[] = String.[]
trim_start (String.◌∷◌ ch s) =
    let rest = trim_start s in if is_whitespace (code ch) then rest else String.◌∷◌ ch s

abbrev pub is_empty : String → Bool
is_empty String.[] = true
is_empty (String.◌∷◌ ch s) = false

unfoldable pub trim_end : String → String
trim_end String.[] = String.[]
trim_end (String.◌∷◌ ch s) =
    let rest = trim_end s in
    if is_whitespace (code ch) && is_empty rest then String.[] else String.◌∷◌ ch rest

unfoldable pub trim : String → String
unfolding trim_start trim_end
trim s = trim_end (trim_start s)

-- `str::split_once` at a character
abbrev pub before : Char → Option (String × String) → Option (String × String)
before ch none = none
before ch (some (k, v)) = some (String.◌∷◌ ch k, v)

unfoldable pub split_once : ℕ → String → Option (String × String)
split_once sep String.[] = none
split_once sep (String.◌∷◌ ch s) =
    let rest = split_once sep s in if code ch == sep then some (String.[], s) else before ch rest

-- `str::lines`: the end of the last line may be missing. The carriage return that it takes off with
-- a newline is left to `trim`.
abbrev pub on_line : Char → List String → List String
on_line ch [] = String.◌∷◌ ch String.[] ∷ []
on_line ch (line ∷ rest) = String.◌∷◌ ch line ∷ rest

unfoldable pub lines : String → List String
lines String.[] = []
lines (String.◌∷◌ ch s) =
    let rest = lines s in if code ch == newline then String.[] ∷ rest else on_line ch rest

-- An element of the map, by the last pair with the key.
abbrev pub later : Option String → Option String → Option String
later none v = v
later (some w) v = some w

unfoldable pub get : String → List (String × String) → Option String
get k [] = none
get k ((j, v) ∷ rest) = later (get k rest) (if str_eq j k then some v else none)

-- The pairs of the lines: an empty line and one without `=` are passed over.
abbrev pub keep_some : Option (String × String) → List (String × String) → List (String × String)
keep_some none pairs = pairs
keep_some (some pair) pairs = pair ∷ pairs

unfoldable pub pairs_of : List String → List (String × String)
unfolding trim split_once
pairs_of [] = []
pairs_of (line ∷ rest) =
    let pairs = pairs_of rest in
    if is_empty line then pairs else keep_some (split_once equals_sign (trim line)) pairs

-- The file, if there is one.
unfoldable pub read_from_subnet_env : Option String → List (String × String)
unfolding lines pairs_of
read_from_subnet_env none = []
read_from_subnet_env (some s) = if is_empty s then [] else pairs_of (lines s)

-- `Display` of a number of at most so many digits.
unfoldable pub show_digits : ℕ → ℕ → String
show_digits zero n = digit n
show_digits (suc k) n =
    let rest = show_digits k (n / 10) in if ltb n 10 then digit n else rest <> digit (n % 10)

abbrev pub show_u32 : ℕ → String
show_u32 n = show_digits 9 n

abbrev pub show_bool : Bool → String
show_bool true = "true"
show_bool false = "false"

-- `writeln!(file, "KEY={}", value)`
unfoldable pub writeln : String → String → String → String
writeln file key value = file <> (key <> ("=" <> (value <> "\n")))

-- `Display` and `FromStr` of `Ipv4Network` are parameters.
module _ (c : Crates) (show_network : c.Ipv4Network → String) where
  abbrev pub node_subnet : c.Ipv4Network → String
  unfolding show_ip
  node_subnet sn = show_ip (add (c.ip sn) 1) <> ("/" <> show_u8 (c.prefix sn))

  -- The four lines, of a configuration with IPv4.
  unfoldable pub subnet_lines : c.Ipv4Network → Bool → c.Ipv4Network → ℕ → String
  unfolding writeln show_digits node_subnet
  subnet_lines network ip_masq sn mtu =
      let file = writeln "" "FLANNEL_NETWORK" (show_network network) in
      let file = writeln file "FLANNEL_SUBNET" (node_subnet sn) in
      let file = writeln file "FLANNEL_MTU" (show_u32 mtu) in
      writeln file "FLANNEL_IPMASQ" (show_bool ip_masq)

  unfoldable pub write_subnet_file : Config c → Bool → c.Ipv4Network → ℕ → Outcome String
  unfolding subnet_lines
  write_subnet_file config ip_masq sn mtu =
      if config.enable_ipv4
      then (do network ← unwrap config.network; ok (subnet_lines network ip_masq sn mtu))
      else ok ""

module _ (c : Crates) (parse_ipv4 : String → Option (c.Ipv4Network)) where
  -- `.map(|it| it.parse()).transpose()?`
  abbrev pub parsed : Option String → Outcome (Option (c.Ipv4Network))
  parsed none = ok none
  parsed (some s) = do sn ← ok_or (parse_ipv4 s) external; ok (some sn)

  -- The node's subnet as the file has it.
  unfoldable pub prev_subnet : Option String → Outcome (Option (c.Ipv4Network))
  unfolding read_from_subnet_env get
  prev_subnet file = parsed (get "FLANNEL_SUBNET" (read_from_subnet_env file))
