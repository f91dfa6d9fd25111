-- ===== src/Base/Outcome.antt =====
-- How a Rust computation ends: with a value, with an `anyhow` error, or in a panic. A loop that is
-- modelled on fuel has a fourth end.
use mathlib.Core.Path.{◌≡◌, refl}
use mathlib.Core.Bool.{Bool, true, false}
use mathlib.Core.Option.{Option, none, some}

-- The messages of `bail!` and `anyhow!`, and the errors of other crates that `?` passes on.
pub data Error : Type 0 where
  network_undefined subnet_len_too_long network_too_narrow network_too_small : Error
  min_outside max_outside min_unaligned max_unaligned : Error
  no_available_subnets max_retries subnet_not_found lease_deleted expired txn_not_succeeded : Error
  short_ip_slice link_not_found no_interface no_address no_gateway : Error
  backend_undefined public_ip_differs invalid_subnet invalid_kv : Error
  invalid_prefix external : Error

pub data Outcome {ℓ} (A : Type ℓ) : Type ℓ where
  ok : A → Outcome A
  err : Error → Outcome A
  panic : Outcome A
  out_of_fuel : Outcome A

infixl 5 ◌>>=◌
abbrev pub ◌>>=◌ {ℓ κ} : {A : Type ℓ} {B : Type κ} → Outcome A → (A → Outcome B) → Outcome B
out_of_fuel >>= next = out_of_fuel
panic >>= next = panic
err e >>= next = err e
ok value >>= next = next value

infixl 5 ◌>>◌
abbrev pub ◌>>◌ {ℓ} : {A : Type ℓ} → Outcome (Unit {0}) → Outcome A → Outcome A
out_of_fuel >> next = out_of_fuel
panic >> next = panic
err e >> next = err e
ok u >> next = next

-- `if test { bail!(e) }`
abbrev pub bail_if : Bool → Error → Outcome (Unit {0})
bail_if true e = err e
bail_if false e = ok tt

-- `Option::unwrap`
abbrev pub unwrap {ℓ} : {A : Type ℓ} → Option A → Outcome A
unwrap none = panic
unwrap (some a) = ok a

-- `Result::unwrap`
abbrev pub unwrap_ok {ℓ} : {A : Type ℓ} → Outcome A → Outcome A
unwrap_ok (ok a) = ok a
unwrap_ok (err e) = panic
unwrap_ok panic = panic
unwrap_ok out_of_fuel = out_of_fuel

-- `ok_or(e)?`
abbrev pub ok_or {ℓ} : {A : Type ℓ} → Option A → Error → Outcome A
ok_or none e = err e
ok_or (some a) e = ok a

-- The two steps of a computation that has ended well.
pub >>=-eq-ok {ℓ κ} :
    {A : Type ℓ} {B : Type κ} (step : Outcome A) (next : A → Outcome B) {result : B}
    → (step >>= next) ≡ ok result
    → (value : A) × (step ≡ ok value) × (next value ≡ ok result)
>>=-eq-ok out_of_fuel next h = absurd (cc h)
>>=-eq-ok panic next h = absurd (cc h)
>>=-eq-ok (err e) next h = absurd (cc h)
>>=-eq-ok (ok value) next h = (value, refl, h)

pub ok_or-ok {ℓ} : {A : Type ℓ} (o : Option A) (e : Error) {a : A} → ok_or o e ≡ ok a → o ≡ some a
ok_or-ok none e h = absurd (cc h)
ok_or-ok (some a) e h = cc h

pub unwrap-ok {ℓ} : {A : Type ℓ} (o : Option A) {a : A} → unwrap o ≡ ok a → o ≡ some a
unwrap-ok none h = absurd (cc h)
unwrap-ok (some a) h = cc h

pub ok_inj {ℓ} : {A : Type ℓ} {a b : A} → ok a ≡ ok b → a ≡ b
ok_inj h = cc h

pub some_inj {ℓ} : {A : Type ℓ} {a b : A} → some a ≡ some b → a ≡ b
some_inj h = cc h
