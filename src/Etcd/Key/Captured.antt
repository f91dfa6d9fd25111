-- ===== src/Etcd/Key/Captured.antt =====
-- What the pattern of `extract_ip_and_subnet` of src/etcd/registry.rs captures of the key of a subnet.
use Prim.Native.String.{◌++◌ as ◌<>◌}
use Prim.Native.String.append.{cons}
use text.Mathlib.TextLemmas.{append-nil, append_assoc}
use flannel_ng.Base.{
  ℕ, zero, suc, ◌/◌, ◌%◌, ◌^◌, ◌≡◌, ◌<◌, ◌≤◌, refl, sym, ap, ◌∙◌, subst, String, Bool, true, false,
  none, some, List, [], ◌∷◌, All, length, get_elem?, ltb, if◌then◌else◌, arith,
}
use flannel_ng.Base.Word.{u32_mod}
use flannel_ng.Etcd.Regex.{
  literal, digit as digit_class, any_char, Pattern, one, plus, seq, group, maybe, end, matches, run,
  run_one, no_groups, captures,
}
use flannel_ng.Etcd.Regex.First.{
  Takes, seq-Takes, group-Takes, one-Takes, Spelled, Spelled-append, plus-Takes, Empty, end-Takes,
  maybe-Takes, Stops, captures-first,
}
use flannel_ng.Etcd.Key.{
  digits, or_empty, digit, show_u8, show_ip, address_pattern, v6_pattern, subnet_pattern,
}

module _ (decimal : ℕ → Bool) where
  abbrev Numeral : String → Type 0
  Numeral s = Spelled decimal digit_class s

  digits-Numeral : All Numeral digits
  unfolding matches
  digits-Numeral = (
    (refl, tt),
    (
      (refl, tt),
      (
        (refl, tt),
        (
          (refl, tt),
          ((refl, tt), ((refl, tt), ((refl, tt), ((refl, tt), ((refl, tt), ((refl, tt), tt)))))),
        ),
      ),
    ),
  )

  get_elem?-Numeral :
      (ds : List String) (n : ℕ)
      → All Numeral ds
      → n < length ds
      → Numeral (or_empty (get_elem? ds n))
  get_elem?-Numeral [] n h lt = absurd (omega arith)
  get_elem?-Numeral (d ∷ ds) zero h lt = h.0
  get_elem?-Numeral (d ∷ ds) (suc n) h lt = get_elem?-Numeral ds n h.1 (omega arith)

  digit-Numeral : (n : ℕ) → n < 10 → Numeral (digit n)
  digit-Numeral n h = get_elem?-Numeral digits n digits-Numeral h

  choose-Numeral :
      (b : Bool) (s t : String)
      → (b ≡ true → Numeral s)
      → (b ≡ false → Numeral t)
      → Numeral (if b then s else t)
  choose-Numeral true s t hs ht = hs refl
  choose-Numeral false s t hs ht = ht refl

  show_u8-Numeral : (n : ℕ) → n < 256 → Numeral (show_u8 n)
  unfolding show_u8
  show_u8-Numeral n h =
      let both = Spelled-append decimal digit_class in
      choose-Numeral (ltb n 10) (digit n) _ (λ e. digit-Numeral n (ground arith))
        (λ _.
          choose-Numeral (ltb n 100) (digit (n / 10) <> digit (n % 10)) _
            (λ e.
              both (digit (n / 10)) (digit (n % 10)) (digit-Numeral (n / 10) (ground arith))
                (digit-Numeral (n % 10) (omega arith)))
            (λ e.
              both (digit (n / 100)) (digit (n / 10 % 10) <> digit (n % 10))
                (digit-Numeral (n / 100) (omega arith))
                (both (digit (n / 10 % 10)) (digit (n % 10))
                  (digit-Numeral (n / 10 % 10) (omega arith))
                  (digit-Numeral (n % 10) (omega arith)))))

  -- A number is taken where another character, or the end, follows.
  abbrev Ends : String → Type 0
  Ends = Stops decimal digit_class

  number-Takes : (n : ℕ) → n < 256 → Takes decimal (plus digit_class) (show_u8 n) [] Ends
  number-Takes n h = plus-Takes decimal digit_class (show_u8 n) (show_u8-Numeral n h)

  dot-Ends : (rest : String) → Ends ("." <> rest)
  unfolding matches
  dot-Ends rest = subst Ends (sym (cons "." "" rest)) refl

  dash-Ends : (rest : String) → Ends ("-" <> rest)
  unfolding matches
  dash-Ends rest = subst Ends (sym (cons "-" "" rest)) refl

  abbrev Always : String → Type 0
  Always s = Unit

  dot-Takes : Takes decimal (one (literal 46)) "." [] Always
  unfolding matches
  dot-Takes = one-Takes decimal (literal 46) "." Always refl

  any-Takes : Takes decimal (one any_char) "." [] Always
  unfolding matches
  any-Takes = one-Takes decimal any_char "." Always refl

  dash-Takes : Takes decimal (one (literal 45)) "-" [] Always
  unfolding matches
  dash-Takes = one-Takes decimal (literal 45) "-" Always refl

  -- A number, a dot and more.
  dotted-Takes :
      (n : ℕ) (p q : Pattern) (t : String)
      → n < 256
      → Takes decimal p "." [] Always
      → Takes decimal q t [] Ends
      → Takes decimal (seq (plus digit_class) (seq p q)) (show_u8 n <> ("." <> t)) [] Ends
  dotted-Takes n p q t h a b =
      seq-Takes decimal (plus digit_class) (seq p q) (show_u8 n) ("." <> t) [] [] Ends Ends
        (number-Takes n h) (seq-Takes decimal p q "." t [] [] Always Ends a b (λ rest k. tt))
        (λ rest k. subst Ends (sym (append_assoc "." t rest)) (dot-Ends (t <> rest)))

  address-Takes : (a : ℕ) → a < u32_mod → Takes decimal address_pattern (show_ip a) [] Ends
  unfolding show_ip
  address-Takes a h =
      let last = number-Takes (a % 256) (omega arith) in
      let third =
        dotted-Takes (a / 2 ^ 8 % 256) (one any_char) (plus digit_class) _ (omega arith) any-Takes
          last in
      let second =
        dotted-Takes (a / 2 ^ 16 % 256) (one any_char) _ _ (omega arith) any-Takes third in
      dotted-Takes (a / 2 ^ 24) (one (literal 46)) _ _ (omega arith) dot-Takes second

  -- The name of a subnet is matched as a whole.
  name-Takes :
      (a p : ℕ)
      → a < u32_mod
      → p ≤ 32
      → Takes decimal subnet_pattern
          (show_ip a <> ("-" <> (show_u8 p <> ("" <> ""))))
          (some (show_ip a) ∷ some (show_u8 p) ∷ none ∷ none ∷ [])
          Empty
  unfolding run run_one no_groups
  name-Takes a p h k =
      let num = plus digit_class in
      let length_end = seq (group num) (seq (maybe v6_pattern) end) in
      let tail =
        seq-Takes decimal (maybe v6_pattern) end "" "" (none ∷ none ∷ []) [] Empty Empty
          (maybe-Takes decimal v6_pattern refl) (end-Takes decimal)
          (λ rest e. ap (λ r. "" <> r) e) in
      let length_on =
        seq-Takes decimal (group num) (seq (maybe v6_pattern) end) (show_u8 p) ("" <> "")
          (some (show_u8 p) ∷ []) (none ∷ none ∷ []) Ends Empty
          (group-Takes decimal num (show_u8 p) [] Ends (number-Takes p (omega arith))) tail
          (λ rest e. subst Ends (sym (ap (λ r. ("" <> "") <> r) e)) tt) in
      let dash_on =
        seq-Takes decimal (one (literal 45)) length_end "-" _ [] _ Always Empty dash-Takes length_on
          (λ rest e. tt) in
      seq-Takes decimal (group address_pattern) (seq (one (literal 45)) length_end) (show_ip a) _
        (some (show_ip a) ∷ []) _ Ends Empty
        (group-Takes decimal address_pattern (show_ip a) [] Ends (address-Takes a h)) dash_on
        (λ rest e. subst Ends (sym (append_assoc "-" _ rest)) (dash-Ends _))

  pub captures-name :
      (a p : ℕ)
      → a < u32_mod
      → p ≤ 32
      → captures decimal subnet_pattern (show_ip a <> ("-" <> show_u8 p))
        ≡ some (
            some (show_ip a <> ("-" <> show_u8 p))
            ∷ some (show_ip a)
            ∷ some (show_u8 p)
            ∷ none
            ∷ none
            ∷ [])
  captures-name a p h k =
      let name = show_ip a <> ("-" <> show_u8 p) in
      let same : show_ip a <> ("-" <> (show_u8 p <> ("" <> ""))) ≡ name =
        ap (λ t. show_ip a <> ("-" <> t)) (append-nil (show_u8 p)) in
      let (hs, e) = name-Takes a p h k "" refl in
      captures-first decimal subnet_pattern name
        (ap (run decimal subnet_pattern) (sym (append-nil _ ∙ same)) ∙ e)
      ∙ ap (λ t. some (some t ∷ some (show_ip a) ∷ some (show_u8 p) ∷ none ∷ none ∷ [])) same
