-- ===== src/Env/RoundTrip.antt =====
-- What `main` of src/main.rs reads back of the subnet file that `write_subnet_file` of
-- src/subnet/subnet.rs has written.
use Prim.Native.String.{◌++◌ as ◌<>◌}
use Prim.Native.String.append.{nil, cons}
use text.Mathlib.TextLemmas.{append-nil as text_append-nil, append_assoc as text_append_assoc}
use mathlib.Core.List.{append-nil, append_assoc}
use flannel_ng.Base.{
  ℕ, ◌≡◌, refl, sym, ap, ◌∙◌, inl, inr, String, Bool, true, false, some, List, [], ◌∷◌, ◌++◌,
  Bool-cases,
}
use flannel_ng.Base.Outcome.{ok, unwrap, unwrap-ok, >>=-eq-ok}
use flannel_ng.Crates.{Crates}
use flannel_ng.Subnet.Config.{Config}
use flannel_ng.Subnet.Network.{add}
use flannel_ng.Etcd.Key.{show_u8, show_ip}
use flannel_ng.Env.{
  is_whitespace, is_empty, lines, pairs_of, read_from_subnet_env, show_u32, show_bool, writeln,
  node_subnet, subnet_lines, write_subnet_file,
}
use flannel_ng.Env.Plain.{
  all_chars, not_equals_sign, IsPlain, joined-IsPlain, show_u8-IsPlain, show_ip-IsPlain,
  show_digits-IsPlain, trim-plain, lines-plain, split_once-key,
}

abbrev Pairs : Type 0
Pairs = List (String × String)

-- A file of whole lines, with the pairs that are read from it before those of what follows.
abbrev IsFile : String → Pairs → Type 0
IsFile file ps = (rest : String) → pairs_of (lines (file <> rest)) ≡ ps ++ pairs_of (lines rest)

nonempty : (k v : String) → is_empty (k <> ("=" <> v)) ≡ false
nonempty String.[] v = rw (nil ("=" <> v)) (rw (cons _ "" v) refl)
nonempty (String.◌∷◌ ch k) v = rw (cons ch k ("=" <> v)) refl

pair_line :
    (k v : String) (others : List String)
    → all_chars not_equals_sign k ≡ true
    → IsPlain (k <> ("=" <> v))
    → pairs_of ((k <> ("=" <> v)) ∷ others) ≡ (k, v) ∷ pairs_of others
unfolding pairs_of
pair_line k v others key plain =
    rw (nonempty k v) (rw (trim-plain (k <> ("=" <> v)) plain) (rw (split_once-key k v key) refl))

empty-IsFile : IsFile "" []
empty-IsFile rest = rw (nil rest) refl

regrouped :
    (file k v rest : String)
    → (file <> (k <> ("=" <> (v <> "\n")))) <> rest ≡ file <> ((k <> ("=" <> v)) <> ("\n" <> rest))
regrouped file k v rest = simp text_append_assoc

writeln-IsFile :
    (file : String) (ps : Pairs) (k v : String)
    → all_chars not_equals_sign k ≡ true
    → IsPlain (k <> ("=" <> v))
    → IsFile file ps
    → IsFile (writeln file k v) (ps ++ ((k, v) ∷ []))
unfolding writeln
writeln-IsFile file ps k v key plain h rest =
    let line = k <> ("=" <> v) in
    ap (λ s. pairs_of (lines s)) (regrouped file k v rest)
    ∙ h (line <> ("\n" <> rest))
    ∙ ap (λ ls. ps ++ pairs_of ls) (lines-plain line rest plain)
    ∙ ap (λ qs. ps ++ qs) (pair_line k v (lines rest) key plain)
    ∙ sym (append_assoc ps ((k, v) ∷ []) (pairs_of (lines rest)))

read-IsFile : (file : String) (ps : Pairs) → IsFile file ps → read_from_subnet_env (some file) ≡ ps
unfolding read_from_subnet_env lines pairs_of
read-IsFile file ps h =
    let whole : pairs_of (lines file) ≡ ps =
      ap (λ s. pairs_of (lines s)) (sym (text_append-nil file)) ∙ h "" ∙ append-nil ps in
    elim (Bool-cases (is_empty file)) [
      | inl e ↦ rw e (read_empty file e ∙ whole)
      | inr e ↦ rw e whole
    ]
  where
    read_empty : (s : String) → is_empty s ≡ true → [] ≡ pairs_of (lines s)
    read_empty String.[] e = refl
    read_empty (String.◌∷◌ ch s) e = absurd (cc e)

-- A key and a value that make a line.
entry-IsFile :
    (file : String) (ps : Pairs) (k v : String)
    → all_chars not_equals_sign k ≡ true
    → IsPlain k
    → IsPlain v
    → IsFile file ps
    → IsFile (writeln file k v) (ps ++ ((k, v) ∷ []))
unfolding all_chars is_whitespace
entry-IsFile file ps k v key plain_k plain_v =
    writeln-IsFile file ps k v key (joined-IsPlain k "=" v plain_k refl plain_v)

show_bool-IsPlain : (b : Bool) → IsPlain (show_bool b)
unfolding all_chars is_whitespace
show_bool-IsPlain true = refl
show_bool-IsPlain false = refl

pub slash-IsPlain : IsPlain "/"
unfolding all_chars is_whitespace
slash-IsPlain = refl

module _ (c : Crates) (show_network : c.Ipv4Network → String) where
  node_subnet-IsPlain : (sn : c.Ipv4Network) → IsPlain (node_subnet c show_network sn)
  unfolding node_subnet
  node_subnet-IsPlain sn =
      joined-IsPlain (show_ip (add (c.ip sn) 1)) "/" (show_u8 (c.prefix sn))
        (show_ip-IsPlain (add (c.ip sn) 1)) slash-IsPlain (show_u8-IsPlain (c.prefix sn))

  -- The four pairs.
  abbrev pub written_pairs : c.Ipv4Network → Bool → c.Ipv4Network → ℕ → Pairs
  written_pairs network ip_masq sn mtu =
      ("FLANNEL_NETWORK", show_network network)
      ∷ ("FLANNEL_SUBNET", node_subnet c show_network sn)
      ∷ ("FLANNEL_MTU", show_u32 mtu)
      ∷ ("FLANNEL_IPMASQ", show_bool ip_masq)
      ∷ []

  subnet_lines-IsFile :
      (network : c.Ipv4Network) (ip_masq : Bool) (sn : c.Ipv4Network) (mtu : ℕ)
      → IsPlain (show_network network)
      → IsFile
          (subnet_lines c show_network network ip_masq sn mtu)
          (written_pairs network ip_masq sn mtu)
  unfolding subnet_lines all_chars is_whitespace
  subnet_lines-IsFile network ip_masq sn mtu plain =
      let subnet = node_subnet c show_network sn in
      let ps1 : Pairs = ("FLANNEL_NETWORK", show_network network) ∷ [] in
      let ps2 : Pairs = ps1 ++ (("FLANNEL_SUBNET", subnet) ∷ []) in
      let ps3 : Pairs = ps2 ++ (("FLANNEL_MTU", show_u32 mtu) ∷ []) in
      let file1 =
        entry-IsFile "" [] "FLANNEL_NETWORK" (show_network network) refl refl plain empty-IsFile in
      let file2 =
        entry-IsFile _ ps1 "FLANNEL_SUBNET" subnet refl refl (node_subnet-IsPlain sn) file1 in
      let file3 =
        entry-IsFile _ ps2 "FLANNEL_MTU" (show_u32 mtu) refl refl (show_digits-IsPlain 9 mtu)
          file2 in
      entry-IsFile _ ps3 "FLANNEL_IPMASQ" (show_bool ip_masq) refl refl (show_bool-IsPlain ip_masq)
        file3

  write_subnet_file-ok :
      (config : Config c) (ip_masq : Bool) (sn : c.Ipv4Network) (mtu : ℕ) {file : String}
      → config.enable_ipv4 ≡ true
      → write_subnet_file c show_network config ip_masq sn mtu ≡ ok file
      → (network : c.Ipv4Network) × (config.network ≡ some network)
        × (subnet_lines c show_network network ip_masq sn mtu ≡ file)
  unfolding write_subnet_file
  write_subnet_file-ok config ip_masq sn mtu e h =
      let (network, given, rest) =
        >>=-eq-ok (unwrap config.network)
          (λ network. ok (subnet_lines c show_network network ip_masq sn mtu)) (rw e at h) in
      (network, unwrap-ok config.network given, cc rest)

  -- Where the texts of networks have no white space: what `read_from_subnet_env` reads of the file
  -- that `write_subnet_file` writes with IPv4 are the configuration's network, the subnet at its
  -- first address, the MTU and whether to masquerade, and nothing else.
  pub read_from_subnet_env-write_subnet_file :
      (config : Config c) (ip_masq : Bool) (sn : c.Ipv4Network) (mtu : ℕ) {file : String}
      → ((n : c.Ipv4Network) → IsPlain (show_network n))
      → config.enable_ipv4 ≡ true
      → write_subnet_file c show_network config ip_masq sn mtu ≡ ok file
      → (network : c.Ipv4Network) × (config.network ≡ some network)
        × (read_from_subnet_env (some file) ≡ written_pairs network ip_masq sn mtu)
  read_from_subnet_env-write_subnet_file config ip_masq sn mtu plain e h =
      let (network, given, text) = write_subnet_file-ok config ip_masq sn mtu e h in
      (
        network,
        given,
        ap (λ s. read_from_subnet_env (some s)) (sym text)
            ∙ read-IsFile (subnet_lines c show_network network ip_masq sn mtu)
                (written_pairs network ip_masq sn mtu)
                (subnet_lines-IsFile network ip_masq sn mtu (plain network)),
      )
