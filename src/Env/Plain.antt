-- ===== src/Env/Plain.antt =====
-- Texts without white space: what the readers of the subnet file make of them.
use Prim.Native.Char.{code}
use Prim.Native.String.{◌++◌ as ◌<>◌}
use Prim.Native.String.append.{nil, cons}
use flannel_ng.Base.{
  ℕ, zero, suc, ◌/◌, ◌%◌, ◌^◌, ◌≡◌, refl, ap, ◌∙◌, String, Bool, true, false, not, ◌&&◌, some, List,
  [], ◌∷◌, get_elem?, ltb, ◌==◌, if◌then◌else◌, arith, All,
}
use flannel_ng.Etcd.Key.{digits, or_empty, digit, show_u8, show_ip}
use flannel_ng.Env.{
  newline, equals_sign, is_whitespace, trim_start, trim_end, trim, before, split_once, on_line,
  lines, show_digits,
}

unfoldable pub all_chars : (ℕ → Bool) → String → Bool
all_chars p String.[] = true
all_chars p (String.◌∷◌ ch s) = p (code ch) && all_chars p s

abbrev pub not_space : ℕ → Bool
not_space n = not (is_whitespace n)

abbrev pub not_equals_sign : ℕ → Bool
not_equals_sign n = not (n == equals_sign)

abbrev pub IsPlain : String → Type 0
IsPlain s = all_chars not_space s ≡ true

both : (p q : Bool) → (p && q) ≡ true → (p ≡ true) × (q ≡ true)
both p q h = ground arith

not-true : (p : Bool) → not p ≡ true → p ≡ false
not-true p h = ground arith

pub append-IsPlain : (s t : String) → IsPlain s → IsPlain t → IsPlain (s <> t)
unfolding all_chars
append-IsPlain String.[] t hs ht = rw (nil t) ht
append-IsPlain (String.◌∷◌ ch s) t hs ht =
    let (first, rest) = both (not_space (code ch)) (all_chars not_space s) hs in
    rw (cons ch s t) (rw first (append-IsPlain s t rest ht))

get_elem?-IsPlain :
    (ds : List String) (n : ℕ) → All IsPlain ds → IsPlain (or_empty (get_elem? ds n))
unfolding all_chars
get_elem?-IsPlain [] n h = refl
get_elem?-IsPlain (d ∷ ds) zero h = h.0
get_elem?-IsPlain (d ∷ ds) (suc n) h = get_elem?-IsPlain ds n h.1

digit-IsPlain : (n : ℕ) → IsPlain (digit n)
unfolding all_chars is_whitespace
digit-IsPlain n =
    get_elem?-IsPlain digits n
      (refl, (refl, (refl, (refl, (refl, (refl, (refl, (refl, (refl, (refl, tt))))))))))

choose-IsPlain : (b : Bool) (s t : String) → IsPlain s → IsPlain t → IsPlain (if b then s else t)
choose-IsPlain true s t hs ht = hs
choose-IsPlain false s t hs ht = ht

pub show_u8-IsPlain : (n : ℕ) → IsPlain (show_u8 n)
unfolding show_u8
show_u8-IsPlain n =
    let d = digit-IsPlain in
    choose-IsPlain (ltb n 10) (digit n) _ (d n) (
      choose-IsPlain (ltb n 100) (digit (n / 10) <> digit (n % 10)) _
        (append-IsPlain (digit (n / 10)) (digit (n % 10)) (d (n / 10)) (d (n % 10)))
        (append-IsPlain (digit (n / 100)) (digit (n / 10 % 10) <> digit (n % 10)) (d (n / 100))
          (append-IsPlain (digit (n / 10 % 10)) (digit (n % 10)) (d (n / 10 % 10)) (d (n % 10)))))

-- A text, a mark and another text.
pub joined-IsPlain :
    (s mark t : String) → IsPlain s → IsPlain mark → IsPlain t → IsPlain (s <> (mark <> t))
joined-IsPlain s mark t hs hm ht = append-IsPlain s (mark <> t) hs (append-IsPlain mark t hm ht)

dot-IsPlain : IsPlain "."
unfolding all_chars is_whitespace
dot-IsPlain = refl

pub show_ip-IsPlain : (a : ℕ) → IsPlain (show_ip a)
unfolding show_ip
show_ip-IsPlain a =
    let d = show_u8-IsPlain in
    joined-IsPlain _ "." _ (d (a / 2 ^ 24)) dot-IsPlain (
      joined-IsPlain _ "." _ (d (a / 2 ^ 16 % 256)) dot-IsPlain
        (joined-IsPlain _ "." _ (d (a / 2 ^ 8 % 256)) dot-IsPlain (d (a % 256))))

pub show_digits-IsPlain : (k n : ℕ) → IsPlain (show_digits k n)
unfolding show_digits
show_digits-IsPlain zero n = digit-IsPlain n
show_digits-IsPlain (suc k) n =
    choose-IsPlain (ltb n 10) (digit n) (show_digits k (n / 10) <> digit (n % 10)) (digit-IsPlain n)
      (append-IsPlain (show_digits k (n / 10)) (digit (n % 10)) (show_digits-IsPlain k (n / 10))
        (digit-IsPlain (n % 10)))

trim_end-plain : (s : String) → IsPlain s → trim_end s ≡ s
unfolding trim_end all_chars
trim_end-plain String.[] h = refl
trim_end-plain (String.◌∷◌ ch s) h =
    let (first, rest) = both (not_space (code ch)) (all_chars not_space s) h in
    rw (not-true (is_whitespace (code ch)) first) (ap (String.◌∷◌ ch) (trim_end-plain s rest))

trim_start-plain : (s : String) → IsPlain s → trim_start s ≡ s
unfolding trim_start all_chars
trim_start-plain String.[] h = refl
trim_start-plain (String.◌∷◌ ch s) h =
    let (first, rest) = both (not_space (code ch)) (all_chars not_space s) h in
    rw (not-true (is_whitespace (code ch)) first) refl

pub trim-plain : (s : String) → IsPlain s → trim s ≡ s
unfolding trim
trim-plain s h = ap trim_end (trim_start-plain s h) ∙ trim_end-plain s h

not_newline : (n : ℕ) → not_space n ≡ true → (n == newline) ≡ false
unfolding is_whitespace
not_newline n h = ground arith

-- A newline ends a line.
pub lines-plain : (s rest : String) → IsPlain s → lines (s <> ("\n" <> rest)) ≡ s ∷ lines rest
unfolding lines all_chars
lines-plain String.[] rest h = rw (nil ("\n" <> rest)) (rw (cons _ "" rest) (rw (nil rest) refl))
lines-plain (String.◌∷◌ ch s) rest h =
    let (first, others) = both (not_space (code ch)) (all_chars not_space s) h in
    rw (cons ch s ("\n" <> rest))
      (rw (not_newline (code ch) first) (ap (on_line ch) (lines-plain s rest others)))

-- The first `=` separates a key from its value.
pub split_once-key :
    (k v : String)
    → all_chars not_equals_sign k ≡ true
    → split_once equals_sign (k <> ("=" <> v)) ≡ some (k, v)
unfolding split_once all_chars
split_once-key String.[] v h = rw (nil ("=" <> v)) (rw (cons _ "" v) (rw (nil v) refl))
split_once-key (String.◌∷◌ ch k) v h =
    let (first, others) = both (not_equals_sign (code ch)) (all_chars not_equals_sign k) h in
    rw (cons ch k ("=" <> v))
      (rw (not-true (code ch == equals_sign) first) (ap (before ch) (split_once-key k v others)))
