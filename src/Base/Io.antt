-- ===== src/Base/Io.antt =====
-- Computations that act on the world outside the program: they end as an `Outcome` does, and leave
-- the world as their calls have left it.
use flannel_ng.Base.{Option, none, some, ◌≡◌, refl, sym, ap, ◌⊎◌, inl, inr}
use flannel_ng.Base.Outcome.{Outcome, ok, err, panic, out_of_fuel, unwrap_ok, Error, external}

abbrev pub Io {ℓ} : Type ℓ → Type ℓ → Type ℓ
Io W A = W → Outcome A × W

module _ {ℓ} {W A : Type ℓ} where
  unfoldable pub pure : A → Io W A
  pure a w = (ok a, w)

  -- A step that does not act on the world.
  unfoldable pub lift : Outcome A → Io W A
  lift r w = (r, w)

  -- A call of another crate, awaited and followed by `?`.
  abbrev pub reply : Option A × W → Outcome A × W
  reply (none, w) = (err external, w)
  reply (some a, w) = (ok a, w)

  unfoldable pub call : (W → Option A × W) → Io W A
  call f w = reply (f w)

  -- A call whose result is dropped.
  unfoldable pub ignore : (W → Option A × W) → Io W (Unit {ℓ})
  ignore f w = (ok tt, (f w).1)

  -- A call whose error the program looks at.
  unfoldable pub attempt : (W → Option A × W) → Io W (Option A)
  attempt f w = let (r, w') = f w in (ok r, w')

  -- A reading, such as the time now.
  unfoldable pub observe : (W → A × W) → Io W A
  observe f w = let (a, w') = f w in (ok a, w')

  -- A step whose error is unwrapped.
  unfoldable pub unwrapped : Io W A → Io W A
  unwrapped m w = let (r, w') = m w in (unwrap_ok r, w')

abbrev pub catch {ℓ} : {A : Type ℓ} → Outcome A → Outcome (Option A)
catch (ok a) = ok (some a)
catch (err e) = ok none
catch panic = panic
catch out_of_fuel = out_of_fuel

module _ {ℓ} {W A : Type ℓ} where
  -- A step whose error the program looks at and goes on.
  unfoldable pub caught : Io W A → Io W (Option A)
  caught m w = let (r, w') = m w in (catch r, w')

-- A step on one of two worlds.
module _ {ℓ} {V W A : Type ℓ} where
  unfoldable pub on_left : Io V A → Io (V × W) A
  on_left m (v, w) = let (r, v') = m v in (r, (v', w))

  unfoldable pub on_right : Io W A → Io (V × W) A
  on_right m (v, w) = let (r, w') = m w in (r, (v, w'))

module _ {ℓ} {W A B : Type ℓ} where
  abbrev pub continue : Outcome A → (A → Io W B) → Io W B
  continue (ok a) f w = f a w
  continue (err e) f w = (err e, w)
  continue panic f w = (panic, w)
  continue out_of_fuel f w = (out_of_fuel, w)

  infixl 5 ◌>>=◌
  unfoldable pub ◌>>=◌ : Io W A → (A → Io W B) → Io W B
  unfolding pure lift call observe attempt ignore
  ◌>>=◌ m f w = let (r, w') = m w in continue r f w'

infixl 5 ◌>>◌
unfoldable pub ◌>>◌ {ℓ} : {W B : Type ℓ} → Io W (Unit {ℓ}) → Io W B → Io W B
unfolding ◌>>=◌
m >> k = m >>= λ _. k

module _ {ℓ} {W A : Type ℓ} where
  pub pure-ok : (a : A) (w : W) {b : A} {w' : W} → pure a w ≡ (ok b, w') → a ≡ b
  unfolding pure
  pure-ok a w h = cc (ap (λ p. p.0) h)

  pub lift-ok :
      (r : Outcome A) (w : W) {a : A} {w' : W} → lift r w ≡ (ok a, w') → (r ≡ ok a) × (w ≡ w')
  unfolding lift
  lift-ok r w h = (ap (λ p. p.0) h, ap (λ p. p.1) h)

  reply-ok :
      (r : Option A × W) {a : A} {w' : W} → reply r ≡ (ok a, w') → (r.0 ≡ some a) × (r.1 ≡ w')
  reply-ok (none, w) h = cc
  reply-ok (some a, w) h = (cc, ap (λ p. p.1) h)

  pub call-ok :
      (f : W → Option A × W) (w : W) {a : A} {w' : W}
      → call f w ≡ (ok a, w')
      → ((f w).0 ≡ some a) × ((f w).1 ≡ w')
  unfolding call
  call-ok f w h = reply-ok (f w) h

  reply-err :
      (r : Option A × W) {e : Error} {w' : W} → reply r ≡ (err e, w') → (r.0 ≡ none) × (r.1 ≡ w')
  reply-err (none, w) h = (refl, ap (λ p. p.1) h)
  reply-err (some a, w) h = absurd (cc (ap (λ p. p.0) h))

  pub call-err :
      (f : W → Option A × W) (w : W) {e : Error} {w' : W}
      → call f w ≡ (err e, w')
      → ((f w).0 ≡ none) × ((f w).1 ≡ w')
  unfolding call
  call-err f w h = reply-err (f w) h

  pub attempt-ok :
      (f : W → Option A × W) (w : W) {r : Option A} {w' : W}
      → attempt f w ≡ (ok r, w')
      → ((f w).0 ≡ r) × ((f w).1 ≡ w')
  unfolding attempt
  attempt-ok f w h = (cc (ap (λ p. p.0) h), ap (λ p. p.1) h)

  pub observe-ok :
      (f : W → A × W) (w : W) {a : A} {w' : W}
      → observe f w ≡ (ok a, w')
      → ((f w).0 ≡ a) × ((f w).1 ≡ w')
  unfolding observe
  observe-ok f w h = (cc (ap (λ p. p.0) h), ap (λ p. p.1) h)

module _ {ℓ} {W A B : Type ℓ} where
  continue-ok :
      (r : Outcome A × W) (f : A → Io W B) {b : B} {w' : W}
      → continue r.0 f r.1 ≡ (ok b, w')
      → (a : A) × (v : W) × (r ≡ (ok a, v)) × (f a v ≡ (ok b, w'))
  continue-ok (ok a, v) f h = (a, v, refl, h)
  continue-ok (err e, v) f h = cc
  continue-ok (panic, v) f h = cc
  continue-ok (out_of_fuel, v) f h = cc

  -- What a computation in two steps has done when it ends well.
  pub >>=-eq-ok :
      (m : Io W A) (f : A → Io W B) (w : W) {b : B} {w' : W}
      → (m >>= f) w ≡ (ok b, w')
      → (a : A) × (v : W) × (m w ≡ (ok a, v)) × (f a v ≡ (ok b, w'))
  unfolding ◌>>=◌
  >>=-eq-ok m f w h = continue-ok (m w) f h

  continue-err :
      (r : Outcome A × W) (f : A → Io W B) {e : Error} {w' : W}
      → continue r.0 f r.1 ≡ (err e, w')
      → (r ≡ (err e, w')) ⊎ ((a : A) × (v : W) × (r ≡ (ok a, v)) × (f a v ≡ (err e, w')))
  continue-err (ok a, v) f h = inr (a, v, refl, h)
  continue-err (err e, v) f h = inl (cc h)
  continue-err (panic, v) f h = cc
  continue-err (out_of_fuel, v) f h = cc

  -- The step in which it has failed when it ends with an error.
  pub >>=-eq-err :
      (m : Io W A) (f : A → Io W B) (w : W) {e : Error} {w' : W}
      → (m >>= f) w ≡ (err e, w')
      → (m w ≡ (err e, w')) ⊎ ((a : A) × (v : W) × (m w ≡ (ok a, v)) × (f a v ≡ (err e, w')))
  unfolding ◌>>=◌
  >>=-eq-err m f w h = continue-err (m w) f h

module _ {ℓ} {V W A : Type ℓ} where
  pub on_left-ok :
      (m : Io V A) (w : V × W) {a : A} {w' : V × W}
      → on_left m w ≡ (ok a, w')
      → (v' : V) × (m w.0 ≡ (ok a, v'))
  unfolding on_left
  on_left-ok m (v, w) h = ((m v).1, ap (λ r. (r, (m v).1)) (ap (λ p. p.0) h))

  -- The left is left as the step leaves it.
  pub on_left-run :
      (m : Io V A) (w : V × W) {a : A} {w' : V × W}
      → on_left m w ≡ (ok a, w')
      → m w.0 ≡ (ok a, w'.0)
  unfolding on_left
  on_left-run m (v, w) h = ap (λ p. (p.0, p.1.0)) h

  pub on_right-ok :
      (m : Io W A) (w : V × W) {a : A} {w' : V × W}
      → on_right m w ≡ (ok a, w')
      → (v' : W) × (m w.1 ≡ (ok a, v'))
  unfolding on_right
  on_right-ok m (v, w) h = ((m w).1, ap (λ r. (r, (m w).1)) (ap (λ p. p.0) h))

  -- A step on the right leaves the left as it is.
  pub on_right_keeps :
      (m : Io W A) (w : V × W) {a : A} {w' : V × W} → on_right m w ≡ (ok a, w') → w'.0 ≡ w.0
  unfolding on_right
  on_right_keeps m (v, w) h = sym (ap (λ p. p.1.0) h)
