-- ===== src/Etcd/Key/RoundTrip.antt =====
-- Keys of subnets, written by `join_path!` and read by `extract_ip_and_subnet` of
-- src/etcd/registry.rs.
use Prim.Native.String.{◌++◌ as ◌<>◌}
use Prim.Native.String.append.{nil, cons}
use Prim.Native.String.compare
use text.Mathlib.Text.{is_eq}
use text.Mathlib.TextLemmas.{append_assoc}
use flannel_ng.Base.{
  ℕ, zero, suc, ◌/◌, ◌%◌, ◌^◌, ◌≤◌, ◌<◌, ◌≡◌, refl, sym, ap, ◌∙◌, String, Bool, true, false, ◌||◌,
  none, List, [], ◌∷◌, All, length, get_elem?, ltb, str_eq, if◌then◌else◌, arith,
}
use flannel_ng.Base.Outcome.{ok, ok_inj}
use flannel_ng.Base.Word.{u32_mod}
use flannel_ng.Crates.{Crates, NetworkLaws}
use flannel_ng.Etcd.{Client}
use flannel_ng.Etcd.Key.{
  starts_with_slash, ends_with_slash, push, join_path, digits, or_empty, digit, show_u8, show_ip,
  subnet_name, subnet_key, extract_ip_and_subnet, subnet_pattern,
}
use flannel_ng.Etcd.Regex.{Pattern, captures}
use flannel_ng.Etcd.Key.Directory.{captures-subnet_pattern}

-- What the program relies on of the crate `regex`, and of the parser of networks.
pub record KeyLaws (c : Crates) (client : Client c) : Type 0 where
  -- the digits of Unicode past ASCII
  pub decimal : ℕ → Bool
  -- the captures of any pattern are those of its leftmost match
  pub captures_lem : (p : Pattern) (s : String) → client.captures p s ≡ captures decimal p s
  -- an address, a slash and a length are parsed as `new` takes them
  pub parse-show :
      (a p : ℕ)
      → a < u32_mod
      → p ≤ 32
      → client.parse_ipv4 (show_ip a <> ("/" <> show_u8 p)) ≡ c.new a p

-- The text does not start with a slash, whatever follows it.
abbrev NoSlash : String → Type 0
NoSlash s = (rest : String) → starts_with_slash (s <> rest) ≡ false

digits-NoSlash : All NoSlash digits
digits-NoSlash = (
  λ r. rw (cons "0" "" r) refl,
  (
    λ r. rw (cons "1" "" r) refl,
    (
      λ r. rw (cons "2" "" r) refl,
      (
        λ r. rw (cons "3" "" r) refl,
        (
          λ r. rw (cons "4" "" r) refl,
          (
            λ r. rw (cons "5" "" r) refl,
            (
              λ r. rw (cons "6" "" r) refl,
              (
                λ r. rw (cons "7" "" r) refl,
                (λ r. rw (cons "8" "" r) refl, (λ r. rw (cons "9" "" r) refl, tt)),
              ),
            ),
          ),
        ),
      ),
    ),
  ),
)

get_elem?-NoSlash :
    (ds : List String) (n : ℕ)
    → All NoSlash ds
    → n < length ds
    → NoSlash (or_empty (get_elem? ds n))
get_elem?-NoSlash [] n h lt = absurd (omega arith)
get_elem?-NoSlash (d ∷ ds) zero h lt = h.0
get_elem?-NoSlash (d ∷ ds) (suc n) h lt = get_elem?-NoSlash ds n h.1 (omega arith)

digit-NoSlash : (n : ℕ) → n < 10 → NoSlash (digit n)
digit-NoSlash n h = get_elem?-NoSlash digits n digits-NoSlash h

append-NoSlash : (s t : String) → NoSlash s → NoSlash (s <> t)
append-NoSlash s t h rest = ap starts_with_slash (append_assoc s t rest) ∙ h (t <> rest)

choose-NoSlash :
    (b : Bool) (s t : String)
    → (b ≡ true → NoSlash s)
    → (b ≡ false → NoSlash t)
    → NoSlash (if b then s else t)
choose-NoSlash true s t hs ht = hs refl
choose-NoSlash false s t hs ht = ht refl

show_u8-NoSlash : (n : ℕ) → n < 256 → NoSlash (show_u8 n)
unfolding show_u8
show_u8-NoSlash n h =
    choose-NoSlash (ltb n 10) (digit n) _ (λ e. digit-NoSlash n (ground arith))
      (λ _.
        choose-NoSlash (ltb n 100) (digit (n / 10) <> digit (n % 10)) _
          (λ e.
            append-NoSlash (digit (n / 10)) (digit (n % 10))
              (digit-NoSlash (n / 10) (ground arith)))
          (λ e.
            append-NoSlash (digit (n / 100)) (digit (n / 10 % 10) <> digit (n % 10))
              (digit-NoSlash (n / 100) (omega arith))))

show_ip-NoSlash : (a : ℕ) → a < u32_mod → NoSlash (show_ip a)
unfolding show_ip
show_ip-NoSlash a h =
    append-NoSlash (show_u8 (a / 2 ^ 24)) _ (show_u8-NoSlash (a / 2 ^ 24) (omega arith))

subnets-ends_with_slash : (d : String) → ends_with_slash (d <> "subnets") ≡ false
subnets-ends_with_slash String.[] = ap ends_with_slash (nil "subnets")
subnets-ends_with_slash (String.◌∷◌ ch String.[]) =
    ap ends_with_slash (cons ch "" "subnets")
    ∙ ap (λ t. ends_with_slash (String.◌∷◌ ch t)) (nil "subnets")
subnets-ends_with_slash (String.◌∷◌ ch (String.◌∷◌ ch' s)) =
    let rest = subnets-ends_with_slash (String.◌∷◌ ch' s) in
    ap ends_with_slash (cons ch (String.◌∷◌ ch' s) "subnets")
    ∙ ap (λ t. ends_with_slash (String.◌∷◌ ch t)) (cons ch' s "subnets")
    ∙ ap ends_with_slash (sym (cons ch' s "subnets"))
    ∙ rest

subnets-not_empty : (d : String) → str_eq (d <> "subnets") "" ≡ false
subnets-not_empty String.[] = ap (λ t. str_eq t "") (nil "subnets")
subnets-not_empty (String.◌∷◌ ch s) =
    ap (λ t. str_eq t "") (cons ch s "subnets") ∙ ap is_eq (compare.cons-nil ch (s <> "subnets"))

-- The directory of the keys, up to "subnets".
abbrev dir_of : String → String
dir_of prefix = if str_eq prefix "" || ends_with_slash prefix then prefix else prefix <> "/"

push-empty : (s : String) → push "" s ≡ s
unfolding push
push-empty s = choose (starts_with_slash s)
  where
    choose : (b : Bool) → (if b then s else ("" <> s)) ≡ s
    choose true = refl
    choose false = nil s

push-subnets : (prefix : String) → push prefix "subnets" ≡ dir_of prefix <> "subnets"
unfolding push
push-subnets prefix = choose (str_eq prefix "" || ends_with_slash prefix)
  where
    choose :
        (b : Bool)
        → (if b then prefix <> "subnets" else (prefix <> ("/" <> "subnets")))
          ≡ (if b then prefix else (prefix <> "/")) <> "subnets"
    choose true = refl
    choose false = sym (append_assoc prefix "/" "subnets")

push-name :
    (d name : String)
    → starts_with_slash name ≡ false
    → push (d <> "subnets") name ≡ d <> ("subnets/" <> name)
unfolding push
push-name d name h =
    rw (h, subnets-not_empty d, subnets-ends_with_slash d)
      (append_assoc d "subnets" ("/" <> name)
        ∙ ap (λ t. d <> t) (sym (append_assoc "subnets" "/" name)))

module _ (c : Crates) (laws : NetworkLaws c) where
  subnet_key_lem :
      (prefix : String) (n : c.Ipv4Network)
      → subnet_key c prefix n
        ≡ dir_of prefix <> ("subnets/" <> (show_ip (c.ip n) <> ("-" <> show_u8 (c.prefix n))))
  unfolding subnet_key join_path subnet_name
  subnet_key_lem prefix n =
      let name = show_ip (c.ip n) <> ("-" <> show_u8 (c.prefix n)) in
      let clear = show_ip-NoSlash (c.ip n) (laws.ip-lt n) ("-" <> show_u8 (c.prefix n)) in
      ap (λ p. push (push p "subnets") name) (push-empty prefix)
      ∙ ap (λ p. push p name) (push-subnets prefix)
      ∙ push-name (dir_of prefix) name clear

module _ (c : Crates) (laws : NetworkLaws c) (client : Client c) (keys : KeyLaws c client) where
  -- `extract_ip_and_subnet` reads back of the key of a subnet, under any prefix of the registry, a
  -- network with the address and the prefix length of the subnet, and no IPv6 network.
  pub extract_ip_and_subnet-subnet_key :
      (prefix : String) (n : c.Ipv4Network)
      → (m : c.Ipv4Network) × (c.ip m ≡ c.ip n)
        × (c.prefix m ≡ c.prefix n)
        × (extract_ip_and_subnet c client (subnet_key c prefix n) ≡ ok (m, none))
  unfolding extract_ip_and_subnet
  extract_ip_and_subnet-subnet_key prefix n =
      let lt = laws.ip-lt n in
      let le = laws.prefix-le n in
      let (m, made, ip, len) = laws.new-some (c.ip n) (c.prefix n) lt le in
      let caught =
        keys.captures_lem subnet_pattern _
        ∙ captures-subnet_pattern keys.decimal (dir_of prefix) (c.ip n) (c.prefix n) lt le in
      (
        m,
        ip,
        len,
        rw
            (
              subnet_key_lem c laws prefix n,
              caught,
              keys.parse-show (c.ip n) (c.prefix n) lt le,
              made,
            )
            refl,
      )

  -- Two subnets of one key, under the prefix of the registry, have one address and one prefix
  -- length: subnets that differ in either have different keys.
  subnet_key_inj :
      (prefix : String) (m n : c.Ipv4Network)
      → subnet_key c prefix m ≡ subnet_key c prefix n
      → (c.ip m ≡ c.ip n) × (c.prefix m ≡ c.prefix n)
  subnet_key_inj prefix m n same =
      let (m', ip, len, read) = extract_ip_and_subnet-subnet_key prefix m in
      let (n', ip', len', read') = extract_ip_and_subnet-subnet_key prefix n in
      let e : m' ≡ n' =
        ap (λ q. q.0) (ok_inj (sym read ∙ ap (extract_ip_and_subnet c client) same ∙ read')) in
      (sym ip ∙ ap c.ip e ∙ ip', sym len ∙ ap c.prefix e ∙ len')
