-- ===== src/Env/Decimal.antt =====
-- A concrete text of networks and its parser, which reads the numbers of a text, for the tests.
use Prim.Native.Char.{Char, code}
use Prim.Native.String.{◌++◌ as ◌<>◌}
use Prim.Native.String.append.{nil, cons}
use text.Mathlib.TextLemmas.{append-nil, append_assoc}
use flannel_ng.Base.{
  ℕ, zero, suc, ◌+◌, ◌-◌, ◌*◌, ◌/◌, ◌%◌, ◌^◌, ◌<◌, ◌≤◌, ◌≡◌, refl, sym, ap, ◌∙◌, String, Bool, true,
  false, ◌&&◌, Option, none, List, [], ◌∷◌, leb, ltb, length, get_elem?, if◌then◌else◌, arith,
}
use flannel_ng.Base.Word.{u32_mod}
use flannel_ng.Crates.Reference.{Block, reference, make}
use flannel_ng.Etcd.Key.{digits, or_empty, digit, show_u8, show_ip}
use flannel_ng.Env.Plain.{joined-IsPlain, show_ip-IsPlain, show_u8-IsPlain}
use flannel_ng.Env.RoundTrip.{slash-IsPlain}
use flannel_ng.Env.Previous.{TextLaws}

unfoldable pub is_digit : ℕ → Bool
is_digit n = leb 48 n && leb n 57

-- The numbers of a text, each ended by another character.
unfoldable pub numbers : ℕ → String → List ℕ
numbers acc String.[] = acc ∷ []
numbers acc (String.◌∷◌ ch s) = elim (is_digit (code ch)) [
  | true ↦ numbers (acc * 10 + (code ch - 48)) s
  | false ↦ acc ∷ numbers 0 s
]

abbrev pub block_of : List ℕ → Option Block
block_of (a ∷ b ∷ c ∷ d ∷ p ∷ []) = make (a * 2 ^ 24 + b * 2 ^ 16 + c * 2 ^ 8 + d) p
block_of ns = none

abbrev pub parse_block : String → Option Block
parse_block s = block_of (numbers 0 s)

-- The text adds a number of one digit.
abbrev Adds : ℕ → String → Type 0
Adds n d = (acc : ℕ) (rest : String) → numbers acc (d <> rest) ≡ numbers (acc * 10 + n) rest

abbrev AddsFrom : ℕ → List String → Type 0
AddsFrom k [] = Unit
AddsFrom k (d ∷ ds) = Adds k d × AddsFrom (suc k) ds

char-Adds : (ch : Char) → is_digit (code ch) ≡ true → Adds (code ch - 48) (String.◌∷◌ ch "")
unfolding numbers
char-Adds ch h acc rest = rw (cons ch "" rest) (rw (nil rest) (rw (numbers, h) refl))

digits-AddsFrom : AddsFrom 0 digits
unfolding is_digit
digits-AddsFrom = (
  char-Adds "0" refl,
  (
    char-Adds "1" refl,
    (
      char-Adds "2" refl,
      (
        char-Adds "3" refl,
        (
          char-Adds "4" refl,
          (
            char-Adds "5" refl,
            (
              char-Adds "6" refl,
              (char-Adds "7" refl, (char-Adds "8" refl, (char-Adds "9" refl, tt))),
            ),
          ),
        ),
      ),
    ),
  ),
)

AddsFrom-get :
    (k : ℕ) (ds : List String) (n : ℕ)
    → AddsFrom k ds
    → n < length ds
    → Adds (k + n) (or_empty (get_elem? ds n))
AddsFrom-get k [] n h lt acc rest = absurd (omega arith)
AddsFrom-get k (d ∷ ds) zero h lt acc rest = h.0 acc rest ∙ ap (λ m. numbers m rest) (omega arith)
AddsFrom-get k (d ∷ ds) (suc n) h lt acc rest =
    AddsFrom-get (suc k) ds n h.1 (omega arith) acc rest ∙ ap (λ m. numbers m rest) (omega arith)

digit-Adds : (n : ℕ) → n < 10 → Adds n (digit n)
digit-Adds n h acc rest =
    AddsFrom-get 0 digits n digits-AddsFrom h acc rest ∙ ap (λ m. numbers m rest) (omega arith)

abbrev Reads : ℕ → String → Type 0
Reads n s = (rest : String) → numbers 0 (s <> rest) ≡ numbers n rest

two-Adds :
    (a b : ℕ)
    → a < 10
    → b < 10
    → (acc : ℕ) (rest : String)
    → numbers acc ((digit a <> digit b) <> rest) ≡ numbers (acc * 100 + a * 10 + b) rest
two-Adds a b ha hb acc rest =
    ap (numbers acc) (append_assoc (digit a) (digit b) rest)
    ∙ digit-Adds a ha acc (digit b <> rest)
    ∙ digit-Adds b hb (acc * 10 + a) rest
    ∙ ap (λ m. numbers m rest) (omega arith)

two-Reads : (n : ℕ) → n < 100 → Reads n (digit (n / 10) <> digit (n % 10))
two-Reads n h rest =
    two-Adds (n / 10) (n % 10) (omega arith) (omega arith) 0 rest
    ∙ ap (λ m. numbers m rest) (omega arith)

three-Reads :
    (n : ℕ) → n < 256 → Reads n (digit (n / 100) <> (digit (n / 10 % 10) <> digit (n % 10)))
three-Reads n h rest =
    let last = digit (n / 10 % 10) <> digit (n % 10) in
    ap (numbers 0) (append_assoc (digit (n / 100)) last rest)
    ∙ digit-Adds (n / 100) (omega arith) 0 (last <> rest)
    ∙ two-Adds (n / 10 % 10) (n % 10) (omega arith) (omega arith) (0 * 10 + n / 100) rest
    ∙ ap (λ m. numbers m rest) (omega arith)

choose-Reads :
    (b : Bool) (n : ℕ) (s t : String)
    → (b ≡ true → Reads n s)
    → (b ≡ false → Reads n t)
    → Reads n (if b then s else t)
choose-Reads true n s t hs ht = hs refl
choose-Reads false n s t hs ht = ht refl

show_u8-Reads : (n : ℕ) → n < 256 → Reads n (show_u8 n)
unfolding show_u8
show_u8-Reads n h =
    choose-Reads (ltb n 10) n (digit n) _
      (λ e rest. digit-Adds n (ground arith) 0 rest ∙ ap (λ m. numbers m rest) (omega arith))
      (λ _.
        choose-Reads (ltb n 100) n (digit (n / 10) <> digit (n % 10)) _
          (λ e. two-Reads n (ground arith)) (λ e. three-Reads n h))

-- A number, a mark and another text.
marked :
    (n : ℕ) (ch : Char) (s : String)
    → n < 256
    → is_digit (code ch) ≡ false
    → numbers 0 (show_u8 n <> ((String.◌∷◌ ch "") <> s)) ≡ n ∷ numbers 0 s
unfolding numbers
marked n ch s h e =
    show_u8-Reads n h ((String.◌∷◌ ch "") <> s)
    ∙ rw (cons ch "" s) (rw (nil s) (rw (numbers, e) refl))

regrouped :
    (s1 s2 s3 s4 t : String)
    → (s1 <> ("." <> (s2 <> ("." <> (s3 <> ("." <> s4)))))) <> t
      ≡ s1 <> ("." <> (s2 <> ("." <> (s3 <> ("." <> (s4 <> t))))))
regrouped s1 s2 s3 s4 t = simp append_assoc

last-Reads : (p : ℕ) → p ≤ 32 → numbers 0 (show_u8 p) ≡ p ∷ []
unfolding numbers
last-Reads p k = ap (numbers 0) (sym (append-nil (show_u8 p))) ∙ show_u8-Reads p (omega arith) ""

-- The numbers of an address, a mark and a prefix length.
pub spelled :
    (mark : Char) (a p : ℕ)
    → is_digit (code mark) ≡ false
    → a < u32_mod
    → p ≤ 32
    → numbers 0 (show_ip a <> ((String.◌∷◌ mark "") <> show_u8 p))
      ≡ a / 2 ^ 24 ∷ a / 2 ^ 16 % 256 ∷ a / 2 ^ 8 % 256 ∷ a % 256 ∷ p ∷ []
unfolding show_ip is_digit
spelled mark a p m h k =
    let q1 = a / 2 ^ 24 in
    let q2 = a / 2 ^ 16 % 256 in
    let q3 = a / 2 ^ 8 % 256 in
    let q4 = a % 256 in
    let t4 = show_u8 q4 <> ((String.◌∷◌ mark "") <> show_u8 p) in
    let t3 = show_u8 q3 <> ("." <> t4) in
    let t2 = show_u8 q2 <> ("." <> t3) in
    ap (numbers 0) (
      regrouped (show_u8 q1) (show_u8 q2) (show_u8 q3) (show_u8 q4)
        ((String.◌∷◌ mark "") <> show_u8 p))
    ∙ marked q1 "." t2 (omega arith) refl
    ∙ ap (λ ns. q1 ∷ ns) (marked q2 "." t3 (omega arith) refl)
    ∙ ap (λ ns. q1 ∷ q2 ∷ ns) (marked q3 "." t4 (omega arith) refl)
    ∙ ap (λ ns. q1 ∷ q2 ∷ q3 ∷ ns) (marked q4 mark (show_u8 p) (omega arith) m)
    ∙ ap (λ ns. q1 ∷ q2 ∷ q3 ∷ q4 ∷ ns) (last-Reads p k)

pub octets :
    (a : ℕ)
    → a / 2 ^ 24 * 2 ^ 24 + a / 2 ^ 16 % 256 * 2 ^ 16 + a / 2 ^ 8 % 256 * 2 ^ 8 + a % 256 ≡ a
octets a = omega arith

abbrev pub show_block : Block → String
show_block b = show_ip b.0.0 <> ("/" <> show_u8 b.0.1)

pub block_text : TextLaws reference show_block parse_block
unfolding is_digit
block_text = record {
  plain = λ b.
      joined-IsPlain (show_ip b.0.0) "/" (show_u8 b.0.1) (show_ip-IsPlain b.0.0) slash-IsPlain
        (show_u8-IsPlain b.0.1);
  parse-show = λ a p h k. ap block_of (spelled "/" a p refl h k) ∙ ap (λ m. make m p) (octets a);
}
