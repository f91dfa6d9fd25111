-- ===== src/Etcd/Regex/First.antt =====
-- What the first match of a pattern takes of a text.
use Prim.Native.Char.{Char, code}
use Prim.Native.String.{◌++◌ as ◌<>◌}
use Prim.Native.String.append.{nil, cons}
use text.Mathlib.TextLemmas.{append_assoc}
use flannel_ng.Base.{
  ℕ, ◌≡◌, refl, sym, ap, ◌∙◌, subst, String, Bool, true, false, Option, none, some, List, [], ◌∷◌,
  ◌++◌, map,
}
use flannel_ng.Etcd.Regex.{
  Class, Pattern, one, plus, seq, group, maybe, end, Hit, hit, matches, bind, run, run_one,
  run_plus, joined, captured, longer, no_groups, captures, first_or,
}

abbrev pub Empty : String → Type 0
Empty s = s ≡ ""

module _ (decimal : ℕ → Bool) where
  abbrev hit_with : String → String → List (Option String) → Hit
  hit_with t rest gs = record { taken = t; rest = rest; groups = gs }

  -- The first match at the start of the text takes the first part, and leaves the rest.
  abbrev Starts : Pattern → String → String → List (Option String) → Type 0
  Starts p t rest gs = (hs : List Hit) × (run decimal p (t <> rest) ≡ hit_with t rest gs ∷ hs)

  -- It does whatever the rest is, on a condition.
  abbrev pub Takes : Pattern → String → List (Option String) → (String → Type 0) → Type 0
  Takes p t gs P = (rest : String) → P rest → Starts p t rest gs

  pub seq-Takes :
      (p q : Pattern) (t t' : String) (gs gs' : List (Option String)) (P Q : String → Type 0)
      → Takes p t gs P
      → Takes q t' gs' Q
      → ((rest : String) → Q rest → P (t' <> rest))
      → Takes (seq p q) (t <> t') (gs ++ gs') Q
  unfolding run bind
  seq-Takes p q t t' gs gs' P Q a b k rest h =
      let (hs, e) = a (t' <> rest) (k rest h) in
      let (hs', e') = b rest h in
      let h0 = hit_with t (t' <> rest) gs in
      (
        map (joined h0) hs' ++ bind hs (run decimal q),
        ap (λ s. bind (run decimal p s) (run decimal q)) (append_assoc t t' rest)
            ∙ ap (λ hs. bind hs (run decimal q)) e
            ∙ ap (λ hits. map (joined h0) hits ++ bind hs (run decimal q)) e',
      )

  pub group-Takes :
      (p : Pattern) (t : String) (gs : List (Option String)) (P : String → Type 0)
      → Takes p t gs P
      → Takes (group p) t (some t ∷ gs) P
  unfolding run
  group-Takes p t gs P a rest h = let (hs, e) = a rest h in (map captured hs, ap (map captured) e)

  -- The text does not go on with a character of the class.
  abbrev pub Stops : Class → String → Type 0
  Stops cl String.[] = Unit
  Stops cl (String.◌∷◌ ch s) = matches decimal cl (code ch) ≡ false

  pub one-Takes :
      (cl : Class) (ch : Char) (P : String → Type 0)
      → matches decimal cl (code ch) ≡ true
      → Takes (one cl) (String.◌∷◌ ch "") [] P
  unfolding run run_one
  one-Takes cl ch P h rest k =
      ([], ap (run decimal (one cl)) (cons ch "" rest ∙ ap (String.◌∷◌ ch) (nil rest)) ∙ rw h refl)

  abbrev pub AllIn : Class → String → Type 0
  AllIn cl String.[] = Unit
  AllIn cl (String.◌∷◌ ch s) = (matches decimal cl (code ch) ≡ true) × AllIn cl s

  run_plus-Stops : (cl : Class) (s : String) → Stops cl s → run_plus decimal cl s ≡ []
  unfolding run_plus
  run_plus-Stops cl String.[] h = refl
  run_plus-Stops cl (String.◌∷◌ ch s) h = rw h refl

  plus_from :
      (cl : Class) (ch : Char) (s : String)
      → matches decimal cl (code ch) ≡ true
      → AllIn cl s
      → Takes (plus cl) (String.◌∷◌ ch s) [] (Stops cl)
  unfolding run run_plus
  plus_from cl ch String.[] h all rest k = (
    [],
    ap (run_plus decimal cl) (cons ch "" rest ∙ ap (String.◌∷◌ ch) (nil rest))
        ∙ rw (h, run_plus-Stops cl rest k) refl,
  )
  plus_from cl ch (String.◌∷◌ ch' s) h all rest k =
      let (hs, e) = plus_from cl ch' s all.0 all.1 rest k in
      (
        map (longer ch) hs ++ (hit (String.◌∷◌ ch "") (String.◌∷◌ ch' s <> rest) ∷ []),
        ap (run_plus decimal cl) (cons ch (String.◌∷◌ ch' s) rest) ∙ rw (h, e) refl,
      )

  -- A text of characters of the class, of one at least.
  abbrev pub Spelled : Class → String → Type 0
  Spelled cl String.[] = ⊥
  Spelled cl (String.◌∷◌ ch s) = (matches decimal cl (code ch) ≡ true) × AllIn cl s

  AllIn-append : (cl : Class) (s t : String) → AllIn cl s → AllIn cl t → AllIn cl (s <> t)
  AllIn-append cl String.[] t a b = subst (AllIn cl) (sym (nil t)) b
  AllIn-append cl (String.◌∷◌ ch s) t a b =
      subst (AllIn cl) (sym (cons ch s t)) (a.0, AllIn-append cl s t a.1 b)

  Spelled-AllIn : (cl : Class) (s : String) → Spelled cl s → AllIn cl s
  Spelled-AllIn cl String.[] h = elim h [ ]
  Spelled-AllIn cl (String.◌∷◌ ch s) h = h

  pub Spelled-append :
      (cl : Class) (s t : String) → Spelled cl s → Spelled cl t → Spelled cl (s <> t)
  Spelled-append cl String.[] t a b = elim a [ ]
  Spelled-append cl (String.◌∷◌ ch s) t a b =
      subst (Spelled cl) (sym (cons ch s t)) (a.0, AllIn-append cl s t a.1 (Spelled-AllIn cl t b))

  -- A repetition takes all characters of its class.
  pub plus-Takes : (cl : Class) (t : String) → Spelled cl t → Takes (plus cl) t [] (Stops cl)
  plus-Takes cl String.[] h = elim h [ ]
  plus-Takes cl (String.◌∷◌ ch s) h = plus_from cl ch s h.0 h.1

  pub end-Takes : Takes end "" [] Empty
  unfolding run
  end-Takes rest h =
      ([], ap (run decimal end) (nil rest ∙ h) ∙ ap (λ r. hit_with "" r [] ∷ []) (sym h))

  -- An optional part of which there is no match takes nothing.
  pub maybe-Takes : (p : Pattern) → run decimal p "" ≡ [] → Takes (maybe p) "" (no_groups p) Empty
  unfolding run
  maybe-Takes p e rest h = (
    [],
    ap (run decimal (maybe p)) (nil rest ∙ h)
        ∙ ap (λ hs. hs ++ (hit_with "" "" (no_groups p) ∷ [])) e
        ∙ ap (λ r. hit_with "" r (no_groups p) ∷ []) (sym h),
  )

  pub captures-first :
      (p : Pattern) (s : String) {h : Hit} {hs : List Hit}
      → run decimal p s ≡ h ∷ hs
      → captures decimal p s ≡ some (some h.taken ∷ h.groups)
  unfolding captures
  captures-first p String.[] e = ap (λ hs. first_or decimal hs none) e
  captures-first p (String.◌∷◌ ch s) e = ap (λ hs. first_or decimal hs (captures decimal p s)) e

  pub captures-skip :
      (p : Pattern) (ch : Char) (s : String)
      → run decimal p (String.◌∷◌ ch s) ≡ []
      → captures decimal p (String.◌∷◌ ch s) ≡ captures decimal p s
  unfolding captures
  captures-skip p ch s e = ap (λ hs. first_or decimal hs (captures decimal p s)) e
