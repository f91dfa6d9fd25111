-- ===== src/Etcd/Key/Directory.antt =====
-- What the pattern of `extract_ip_and_subnet` of src/etcd/registry.rs captures of the key of a subnet,
-- whose name follows a directory.
use Prim.Native.Char.{Char, code}
use Prim.Native.String.{◌++◌ as ◌<>◌}
use Prim.Native.String.append.{nil, cons}
use flannel_ng.Base.{
  ℕ, ◌≡◌, ◌<◌, ◌≤◌, refl, sym, ap, ◌∙◌, subst, inl, inr, String, Bool, false, none, some, [], ◌∷◌,
}
use flannel_ng.Base.Word.{u32_mod}
use flannel_ng.Etcd.Regex.{
  literal, digit as digit_class, any_char, one, plus, seq, group, maybe, end, matches, run, bind,
  run_plus, captures,
}
use flannel_ng.Etcd.Regex.First.{captures-skip}
use flannel_ng.Etcd.Regex.Fails.{
  StartsU, Ahead, AheadOrU, Keeps, seq-Keeps, group-Keeps, maybe-Keeps, one-Keeps, any-Keeps,
  plus-Keeps, end-Keeps, none-left,
}
use flannel_ng.Etcd.Key.{
  show_u8, show_ip, address_pattern, v6_pattern, hex_or_colon, subnet_pattern,
}
use flannel_ng.Etcd.Key.Captured.{captures-name}

module _ (decimal : ℕ → Bool) where
  -- From a place with the letters s and u ahead, there is no match.
  number-Keeps : Keeps decimal (plus digit_class) AheadOrU Ahead
  unfolding matches
  number-Keeps = plus-Keeps decimal digit_class refl refl

  number-Keeps' : Keeps decimal (plus digit_class) Ahead Ahead
  number-Keeps' s h = number-Keeps s (inl h)

  literal-Keeps :
      (n : ℕ)
      → matches decimal (literal n) 115 ≡ false
      → Keeps decimal (one (literal n)) Ahead Ahead
  literal-Keeps n e = one-Keeps decimal (literal n) e

  address-Keeps : Keeps decimal address_pattern Ahead Ahead
  unfolding matches
  address-Keeps =
      let a = Ahead in
      let num = plus digit_class in
      let third =
        seq-Keeps decimal (one any_char) num a AheadOrU a (any-Keeps decimal any_char)
          number-Keeps in
      let second =
        seq-Keeps decimal (one any_char) (seq num (seq (one any_char) num)) a AheadOrU a
          (any-Keeps decimal any_char)
          (seq-Keeps decimal num (seq (one any_char) num) AheadOrU a a number-Keeps third) in
      let first =
        seq-Keeps decimal (one (literal 46)) _ a a a (literal-Keeps 46 refl)
          (seq-Keeps decimal num _ a a a number-Keeps' second) in
      seq-Keeps decimal num _ a a a number-Keeps' first

  hex-Keeps : Keeps decimal (plus hex_or_colon) Ahead Ahead
  unfolding matches
  hex-Keeps s h = plus-Keeps decimal hex_or_colon refl refl s (inl h)

  v6-Keeps : Keeps decimal v6_pattern Ahead Ahead
  unfolding matches
  v6-Keeps =
      let a = Ahead in
      let last =
        seq-Keeps decimal (one (literal 45)) _ a a a (literal-Keeps 45 refl)
          (group-Keeps decimal (plus digit_class) a a number-Keeps') in
      seq-Keeps decimal (one (literal 38)) _ a a a (literal-Keeps 38 refl) (
        seq-Keeps decimal (group (plus hex_or_colon)) _ a a a
          (group-Keeps decimal (plus hex_or_colon) a a hex-Keeps) last)

  Ahead-fails : (s : String) → Ahead s → run decimal subnet_pattern s ≡ []
  unfolding matches
  Ahead-fails s h =
      let a = Ahead in
      let tail =
        seq-Keeps decimal (maybe v6_pattern) end a a (λ _. ⊥)
          (maybe-Keeps decimal v6_pattern a v6-Keeps) (end-Keeps decimal) in
      let length_on =
        seq-Keeps decimal (group (plus digit_class)) _ a a (λ _. ⊥)
          (group-Keeps decimal (plus digit_class) a a number-Keeps') tail in
      let dash_on =
        seq-Keeps decimal (one (literal 45)) _ a a (λ _. ⊥) (literal-Keeps 45 refl) length_on in
      none-left decimal (run decimal subnet_pattern s) (
        seq-Keeps decimal (group address_pattern) _ a a (λ _. ⊥)
          (group-Keeps decimal address_pattern a a address-Keeps) dash_on s h)

  -- No match starts at a character that is no digit.
  abbrev NoDigits : String → Type 0
  NoDigits String.[] = Unit
  NoDigits (String.◌∷◌ ch s) = (matches decimal digit_class (code ch) ≡ false) × NoDigits s

  other-fails :
      (ch : Char) (s : String)
      → matches decimal digit_class (code ch) ≡ false
      → run decimal subnet_pattern (String.◌∷◌ ch s) ≡ []
  unfolding run run_plus bind
  other-fails ch s h = rw h refl

  captures-skip_letters :
      (x s : String)
      → NoDigits x
      → captures decimal subnet_pattern (x <> s) ≡ captures decimal subnet_pattern s
  captures-skip_letters String.[] s h = ap (captures decimal subnet_pattern) (nil s)
  captures-skip_letters (String.◌∷◌ ch x) s h =
      ap (captures decimal subnet_pattern) (cons ch x s)
      ∙ captures-skip decimal subnet_pattern ch (x <> s) (other-fails ch (x <> s) h.0)
      ∙ captures-skip_letters x s h.1

  letters-Ahead : (s : String) → Ahead ("subnets/" <> s)
  letters-Ahead s =
      subst Ahead (sym (cons "s" "ubnets/" s))
        (inl (refl, subst StartsU (sym (cons "u" "bnets/" s)) refl))

  dir-Ahead : (d s : String) → Ahead (d <> ("subnets/" <> s))
  dir-Ahead String.[] s = subst Ahead (sym (nil ("subnets/" <> s))) (letters-Ahead s)
  dir-Ahead (String.◌∷◌ ch d) s =
      subst Ahead (sym (cons ch d ("subnets/" <> s))) (inr (dir-Ahead d s))

  captures-skip_dir :
      (d s : String)
      → captures decimal subnet_pattern (d <> ("subnets/" <> s))
        ≡ captures decimal subnet_pattern ("subnets/" <> s)
  captures-skip_dir String.[] s = ap (captures decimal subnet_pattern) (nil ("subnets/" <> s))
  captures-skip_dir (String.◌∷◌ ch d) s =
      let text = "subnets/" <> s in
      let same = cons ch d text in
      ap (captures decimal subnet_pattern) same
      ∙ captures-skip decimal subnet_pattern ch (d <> text) (
          Ahead-fails (String.◌∷◌ ch (d <> text))
            (subst Ahead same (dir-Ahead (String.◌∷◌ ch d) s)))
      ∙ captures-skip_dir d s

  -- Under any directory, the pattern captures the address and the prefix length of the name.
  pub captures-subnet_pattern :
      (d : String) (a p : ℕ)
      → a < u32_mod
      → p ≤ 32
      → captures decimal subnet_pattern (d <> ("subnets/" <> (show_ip a <> ("-" <> show_u8 p))))
        ≡ some (
            some (show_ip a <> ("-" <> show_u8 p))
            ∷ some (show_ip a)
            ∷ some (show_u8 p)
            ∷ none
            ∷ none
            ∷ [])
  unfolding matches
  captures-subnet_pattern d a p h k =
      let name = show_ip a <> ("-" <> show_u8 p) in
      captures-skip_dir d name
      ∙ captures-skip_letters "subnets/" name
          (refl, (refl, (refl, (refl, (refl, (refl, (refl, (refl, tt))))))))
      ∙ captures-name decimal a p h k
