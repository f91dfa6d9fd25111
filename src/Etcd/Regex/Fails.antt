-- ===== src/Etcd/Regex/Fails.antt =====
-- Where a pattern has not_s match.
use Prim.Native.Char.{Char, code}
use flannel_ng.Base.{
  ℕ, ◌≡◌, refl, String, Bool, Bool-cases, true, false, inl, inr, List, [], ◌∷◌, ◌++◌, map, All, ap,
  ◌∙◌, ◌⊎◌,
}
use flannel_ng.Etcd.Regex.{
  Class, Pattern, one, plus, seq, group, maybe, end, Hit, matches, bind, run, run_one, run_plus,
  joined, captured, longer,
}

abbrev pub Leaves : (String → Type 0) → List Hit → Type 0
Leaves Q hits = All (λ (h : Hit). Q h.rest) hits

module _ (Q : String → Type 0) where
  append-Leaves : (hs hs' : List Hit) → Leaves Q hs → Leaves Q hs' → Leaves Q (hs ++ hs')
  append-Leaves [] hs' a b = b
  append-Leaves (h ∷ hs) hs' a b = (a.0, append-Leaves hs hs' a.1 b)

  joined-Leaves : (h : Hit) (hs : List Hit) → Leaves Q hs → Leaves Q (map (joined h) hs)
  joined-Leaves h [] a = tt
  joined-Leaves h (h' ∷ hs) a = (a.0, joined-Leaves h hs a.1)

  captured-Leaves : (hs : List Hit) → Leaves Q hs → Leaves Q (map captured hs)
  captured-Leaves [] a = tt
  captured-Leaves (h ∷ hs) a = (a.0, captured-Leaves hs a.1)

  pub longer-Leaves : (ch : Char) (hs : List Hit) → Leaves Q hs → Leaves Q (map (longer ch) hs)
  longer-Leaves ch [] a = tt
  longer-Leaves ch (h ∷ hs) a = (a.0, longer-Leaves ch hs a.1)

bind-Leaves :
    (P Q : String → Type 0) (hs : List Hit) (f : String → List Hit)
    → Leaves P hs
    → ((s : String) → P s → Leaves Q (f s))
    → Leaves Q (bind hs f)
unfolding bind
bind-Leaves P Q [] f a k = tt
bind-Leaves P Q (h ∷ hs) f a k =
    append-Leaves Q (map (joined h) (f h.rest)) (bind hs f)
      (joined-Leaves Q h (f h.rest) (k h.rest a.0)) (bind-Leaves P Q hs f a.1 k)

module _ (decimal : ℕ → Bool) where
  -- From a text of one kind, every match leaves a text of the other.
  abbrev pub Keeps : Pattern → (String → Type 0) → (String → Type 0) → Type 0
  Keeps p P Q = (s : String) → P s → Leaves Q (run decimal p s)

  pub seq-Keeps :
      (p q : Pattern) (P Q R : String → Type 0) → Keeps p P Q → Keeps q Q R → Keeps (seq p q) P R
  unfolding run
  seq-Keeps p q P Q R a b s h = bind-Leaves Q R (run decimal p s) (run decimal q) (a s h) b

  pub group-Keeps : (p : Pattern) (P Q : String → Type 0) → Keeps p P Q → Keeps (group p) P Q
  unfolding run
  group-Keeps p P Q a s h = captured-Leaves Q (run decimal p s) (a s h)

  pub maybe-Keeps : (p : Pattern) (P : String → Type 0) → Keeps p P P → Keeps (maybe p) P P
  unfolding run
  maybe-Keeps p P a s h = append-Leaves P (run decimal p s) _ (a s h) (h, tt)

  pub none-left : (hs : List Hit) → Leaves (λ _. ⊥) hs → hs ≡ []
  none-left [] a = refl
  none-left (h ∷ hs) a = elim a.0 [ ]

-- The text has the letters s and u ahead, one after the other, or starts with the letter u.
abbrev pub StartsU : String → Type 0
StartsU String.[] = ⊥
StartsU (String.◌∷◌ ch s) = code ch ≡ 117

abbrev pub Ahead : String → Type 0
Ahead String.[] = ⊥
Ahead (String.◌∷◌ ch s) = ((code ch ≡ 115) × StartsU s) ⊎ Ahead s

abbrev pub AheadOrU : String → Type 0
AheadOrU s = Ahead s ⊎ StartsU s

module _ (decimal : ℕ → Bool) where
  conflict :
      (cl : Class) (n m : ℕ)
      → n ≡ m
      → matches decimal cl n ≡ true
      → ¬ (matches decimal cl m ≡ false)
  conflict cl n m e h k = cc (ap (matches decimal cl) e, h, k)

  -- A class without the letter s takes nothing of the letters ahead.
  pub one-Keeps : (cl : Class) → matches decimal cl 115 ≡ false → Keeps decimal (one cl) Ahead Ahead
  unfolding run run_one
  one-Keeps cl not_s String.[] h = tt
  one-Keeps cl not_s (String.◌∷◌ ch s) h = elim (Bool-cases (matches decimal cl (code ch))) [
    | inl of_class ↦ elim h [
      | inl (e, u) ↦ absurd (conflict cl (code ch) 115 e of_class not_s)
      | inr later ↦ rw of_class (later, tt)
    ]
    | inr other ↦ rw other tt
  ]

  pub any-Keeps : (cl : Class) → Keeps decimal (one cl) Ahead AheadOrU
  unfolding run run_one
  any-Keeps cl String.[] h = tt
  any-Keeps cl (String.◌∷◌ ch s) h = elim (Bool-cases (matches decimal cl (code ch))) [
    | inl of_class ↦ elim h [
      | inl (e, u) ↦ rw of_class (inr u, tt)
      | inr later ↦ rw of_class (inl later, tt)
    ]
    | inr other ↦ rw other tt
  ]

  plus-Ahead : (cl : Class) → matches decimal cl 115 ≡ false → Keeps decimal (plus cl) Ahead Ahead
  unfolding run run_plus
  plus-Ahead cl not_s String.[] h = tt
  plus-Ahead cl not_s (String.◌∷◌ ch s) h = elim (Bool-cases (matches decimal cl (code ch))) [
    | inl of_class ↦ elim h [
      | inl (e, u) ↦ absurd (conflict cl (code ch) 115 e of_class not_s)
      | inr later ↦ rw of_class (
          append-Leaves Ahead (map (longer ch) (run_plus decimal cl s)) _
            (longer-Leaves Ahead ch (run_plus decimal cl s) (plus-Ahead cl not_s s later))
            (later, tt))
    ]
    | inr other ↦ rw other tt
  ]

  pub plus-Keeps :
      (cl : Class)
      → matches decimal cl 115 ≡ false
      → matches decimal cl 117 ≡ false
      → Keeps decimal (plus cl) AheadOrU Ahead
  unfolding run run_plus
  plus-Keeps cl not_s not_u s (inl h) = plus-Ahead cl not_s s h
  plus-Keeps cl not_s not_u String.[] (inr h) = tt
  plus-Keeps cl not_s not_u (String.◌∷◌ ch s) (inr h) = rw (ap (matches decimal cl) h ∙ not_u) tt

  pub end-Keeps : Keeps decimal end Ahead (λ _. ⊥)
  unfolding run
  end-Keeps String.[] h = elim h [ ]
  end-Keeps (String.◌∷◌ ch s) h = tt
