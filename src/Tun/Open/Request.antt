-- ===== src/Tun/Open/Request.antt =====
-- The request with which `open_tun` of src/tun/tun.rs names the device, and what becomes of it.
use flannel_ng.Base.{
  ℕ, zero, suc, ◌≤◌, ◌<◌, ◌≡◌, inl, inr, refl, sym, ap, ◌∙◌, ◌||◌, String, Bool, false, Option,
  none, some, List, [], ◌∷◌, ◌==◌, any, length, ltb, arith, Bool-cases, Option-cases,
}
use flannel_ng.Base.Integer.{ℤ, pos, negsuc, or_flags}
use flannel_ng.Base.Outcome.{Outcome, ok, err, ok_or, external}
use flannel_ng.Base.Io.{Io, pure, lift, call, observe, caught, continue, reply, ◌>>=◌, ◌>>◌}
use flannel_ng.Tun.{Ifreq, IoResult, done, failed, Os}
use flannel_ng.Tun.Open.{
  zeros, copy, c_string, from_bytes_until_nul, is_zero, set_nonblock, request, open_tun, accepted,
}

abbrev has_nul : List ℕ → Bool
has_nul = any (λ b. b == 0)

length-copy : (from : List ℕ) (n : ℕ) → length from ≤ n → length (copy from (zeros n)) ≡ n
length-copy [] zero h = refl
length-copy [] (suc n) h = omega (arith, length-copy [] n (omega arith))
length-copy (b ∷ from) zero h = absurd (omega arith)
length-copy (b ∷ from) (suc n) h = omega (arith, length-copy from n (omega arith))

-- The bytes until the first NUL of those copied are the bytes copied.
from_bytes_until_nul-copy :
    (from : List ℕ) (n : ℕ)
    → has_nul from ≡ false
    → length from < n
    → from_bytes_until_nul (copy from (zeros n)) ≡ some from
unfolding from_bytes_until_nul
from_bytes_until_nul-copy from zero clear h = absurd (omega arith)
from_bytes_until_nul-copy [] (suc n) clear h = refl
from_bytes_until_nul-copy (b ∷ from) (suc n) clear h = elim (Bool-cases (b == 0)) [
  | inl nul ↦ absurd (cc (nul, clear))
  | inr other ↦
      let rest : has_nul from ≡ false = sym (ap (λ x. x || has_nul from) other) ∙ clear in
      rw (other, from_bytes_until_nul-copy from n rest (omega arith)) refl
]

module _ {World : Type 0} (os : Os World) where
  -- The name in a request that the kernel has filled in.
  abbrev pub name_in : Option (List ℕ) → Option String
  name_in none = none
  name_in (some bytes) = os.to_str bytes

  abbrev pub named : ℤ → Option String → Outcome (ℤ × String)
  named fd none = err external
  named fd (some name) = ok (fd, name)

  -- The device that the answer to the request stands for.
  abbrev pub device : ℤ → IoResult os.Errno Ifreq → Outcome (ℤ × String)
  device fd (failed e) = err external
  device fd (done req) = named fd (name_in (from_bytes_until_nul req.ifr_name))

  abbrev opened : ℤ → String → Option (Unit {0}) → Io World (ℤ × String)
  opened fd name _ = pure (fd, name)

  -- What `set_nonblock` answers does not matter.
  caught-is_zero :
      (n fd : ℤ) (name : String) (w : World)
      → ((caught (lift (is_zero n)) >>= opened fd name) w).0 ≡ ok (fd, name)
  unfolding caught lift ◌>>=◌ pure
  caught-is_zero (pos n) fd name w = elim (Bool-cases (n == 0)) [
    | inl h ↦ rw h refl
    | inr h ↦ rw h refl
  ]
  caught-is_zero (negsuc n) fd name w = refl

  abbrev with_name : ℤ → String → Io World (ℤ × String)
  with_name fd name = caught (set_nonblock os fd) >>= opened fd name

  with_name_lem : (fd : ℤ) (name : String) (w : World) → (with_name fd name w).0 ≡ ok (fd, name)
  unfolding set_nonblock caught observe ◌>>=◌
  with_name_lem fd name w =
      let (flags, v) = os.fcntl fd os.f_getfl (pos 0) w in
      let (n, v') = os.fcntl fd os.f_setfl (or_flags flags os.o_nonblock) v in
      caught-is_zero n fd name v'

  abbrev with_bytes : ℤ → List ℕ → Io World (ℤ × String)
  with_bytes fd bytes = lift (ok_or (os.to_str bytes) external) >>= with_name fd

  with_bytes_lem :
      (fd : ℤ) (bytes : List ℕ) (w : World) → (with_bytes fd bytes w).0 ≡ named fd (os.to_str bytes)
  unfolding ◌>>=◌ lift
  with_bytes_lem fd bytes w = elim (Option-cases (os.to_str bytes)) [
    | inl h ↦ rw h refl
    | inr (name, h) ↦ rw h (with_name_lem fd name w)
  ]

  abbrev with_request : ℤ → Ifreq → Io World (ℤ × String)
  with_request fd req = lift (ok_or (from_bytes_until_nul req.ifr_name) external) >>= with_bytes fd

  with_request_lem :
      (fd : ℤ) (req : Ifreq) (w : World) → (with_request fd req w).0 ≡ device fd (done req)
  unfolding ◌>>=◌ lift
  with_request_lem fd req w = elim (Option-cases (from_bytes_until_nul req.ifr_name)) [
    | inl h ↦ rw h refl
    | inr (bytes, h) ↦ rw h (with_bytes_lem fd bytes w)
  ]

  asked_lem :
      (fd : ℤ) (answer : IoResult os.Errno Ifreq × World)
      → (continue
          (reply (accepted answer.0, answer.1)).0
          (with_request fd)
          (reply (accepted answer.0, answer.1)).1).0
        ≡ device fd (answer.0)
  asked_lem fd (failed e, w) = refl
  asked_lem fd (done req, w) = with_request_lem fd req w

  -- For a name without a NUL byte that is shorter than `IFNAMSIZ`, the request of `open_tun` has
  -- `IFNAMSIZ` bytes and, until its first NUL, the name. Whatever `set_nonblock` does, `open_tun`
  -- ends with the descriptor that it has opened and the name that the kernel has left in the
  -- request, or with an error when the kernel refuses the request or leaves no name there.
  pub open_tun-device :
      (name : String) (w : World)
      → has_nul (os.as_bytes name) ≡ false
      → length (os.as_bytes name) < os.ifnamsiz
      → let req = request os (os.as_bytes name) in
        let opened = os.open_path "/dev/net/tun" os.o_rdwr w in
        (length req.ifr_name ≡ os.ifnamsiz)
        × (from_bytes_until_nul req.ifr_name ≡ some (os.as_bytes name))
        × ((open_tun os name w).0 ≡ device opened.0 ((os.tunsetiff opened.0 req opened.1).0))
  unfolding open_tun request c_string ◌>>=◌ ◌>>◌ observe lift call
  open_tun-device name w clear short =
      let bytes = os.as_bytes name in
      let opened = os.open_path "/dev/net/tun" os.o_rdwr w in
      let fits : ltb os.ifnamsiz (suc (length bytes)) ≡ false = ground arith in
      (
        length-copy bytes os.ifnamsiz (omega arith),
        from_bytes_until_nul-copy bytes os.ifnamsiz clear short,
        rw (clear, fits) (asked_lem opened.0 (os.tunsetiff opened.0 (request os bytes) opened.1)),
      )
