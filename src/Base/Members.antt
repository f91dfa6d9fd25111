-- ===== src/Base/Members.antt =====
-- Members of lists, and what holds of all of them.
use mathlib.Core.List.{Memᴰ}
use flannel_ng.Base.{◌≡◌, refl, subst, inl, inr, Bool, true, List, [], ◌∷◌, retain, Bool-cases, All}

pub All-map {ℓ κ} :
    {A : Type ℓ} (P Q : A → Type κ) (xs : List A) → ((x : A) → P x → Q x) → All P xs → All Q xs
All-map P Q [] f h = tt
All-map P Q (x ∷ xs) f h = (f x h.0, All-map P Q xs f h.1)

-- What remains after a deletion has what the test adds.
pub All-retain {ℓ κ} :
    {A : Type ℓ} (P Q : A → Type κ) (p : A → Bool) (xs : List A)
    → ((x : A) → P x → p x ≡ true → Q x)
    → All P xs
    → All Q (retain p xs)
All-retain P Q p [] f h = tt
All-retain P Q p (x ∷ xs) f h = elim (Bool-cases (p x)) [
  | inl stays ↦ rw stays (f x h.0 stays, All-retain P Q p xs f h.1)
  | inr goes ↦ rw goes (All-retain P Q p xs f h.1)
]

pub Memᴰ-retain {ℓ} :
    {A : Type ℓ} (p : A → Bool) (xs : List A) (a : A)
    → p a ≡ true
    → Memᴰ a xs
    → Memᴰ a (retain p xs)
Memᴰ-retain p [] a h m = elim m [ ]
Memᴰ-retain p (x ∷ xs) a h (Memᴰ.head e) = rw (subst (λ y. p y ≡ true) e h) (Memᴰ.head e)
Memᴰ-retain p (x ∷ xs) a h (Memᴰ.tail m) = elim (Bool-cases (p x)) [
  | inl stays ↦ rw stays (Memᴰ.tail (Memᴰ-retain p xs a h m))
  | inr goes ↦ rw goes (Memᴰ-retain p xs a h m)
]

pub All-of {ℓ κ} :
    {A : Type ℓ} (P : A → Type κ) (xs : List A) → ((x : A) → Memᴰ x xs → P x) → All P xs
All-of P [] f = tt
All-of P (x ∷ xs) f = (f x (Memᴰ.head refl), All-of P xs (λ y m. f y (Memᴰ.tail m)))
