-- ===== src/Tun/Open.antt =====
-- The opening of a TUN device, of src/tun/tun.rs.
pub mod Request
use flannel_ng.Base.{
  ℕ, suc, zero, bit_or, ◌%◌, ◌^◌, String, Bool, true, false, Option, none, some, List, [], ◌∷◌,
  ◌++◌, ◌==◌, length, any, ltb, if◌then◌else◌,
}
use flannel_ng.Base.Integer.{ℤ, pos, negsuc, or_flags}
use flannel_ng.Base.Outcome.{Outcome, ok, err, panic, ok_or, external}
use flannel_ng.Base.Io.{Io, pure, lift, call, observe, caught, ◌>>=◌, ◌>>◌}
use flannel_ng.Tun.{Ifreq, IoResult, done, failed, Os, AsyncFd}
use flannel_ng.Tun.Io.{drop}

-- `n` zero bytes
abbrev pub zeros : ℕ → List ℕ
zeros zero = []
zeros (suc n) = 0 ∷ zeros n

-- `copy_nonoverlapping` of all of the source to the front of the bytes
abbrev pub copy : List ℕ → List ℕ → List ℕ
copy [] to = to
copy (b ∷ from) [] = b ∷ from
copy (b ∷ from) (x ∷ to) = b ∷ copy from to

-- `CString::new`, an error when a byte is NUL
unfoldable pub c_string : List ℕ → Option (List ℕ)
c_string bytes = if any (λ b. b == 0) bytes then none else some bytes

abbrev pub after : ℕ → Option (List ℕ) → Option (List ℕ)
after b none = none
after b (some name) = some (b ∷ name)

-- `CStr::from_bytes_until_nul`, an error when no byte is NUL
unfoldable pub from_bytes_until_nul : List ℕ → Option (List ℕ)
from_bytes_until_nul [] = none
from_bytes_until_nul (b ∷ bytes) =
    let rest = from_bytes_until_nul bytes in if b == 0 then some [] else after b rest

abbrev pub panic_if : Bool → Outcome (Unit {0})
panic_if true = panic
panic_if false = ok tt

abbrev pub accepted : {E A : Type 0} → IoResult E A → Option A
accepted (done a) = some a
accepted (failed e) = none

abbrev pub is_zero : ℤ → Outcome (Unit {0})
is_zero (pos n) = if n == 0 then ok tt else err external
is_zero (negsuc n) = err external

module _ {World : Type 0} (os : Os World) where
  unfoldable pub set_nonblock : ℤ → Io World (Unit {0})
  unfolding ◌>>=◌
  set_nonblock fd = do
    flags ← observe (os.fcntl fd os.f_getfl (pos 0))
    res ← observe (os.fcntl fd os.f_setfl (or_flags flags os.o_nonblock))
    lift (is_zero res)

  -- The request, zeroed, with the name and with the flags in 16 bits.
  unfoldable pub request : List ℕ → Ifreq
  request name = record {
    ifr_name = copy name (zeros os.ifnamsiz);
    ifru_flags = bit_or os.iff_tun os.iff_no_pi % 2 ^ 16;
  }

  abbrev pub set_iff : ℤ → Ifreq → World → Option Ifreq × World
  set_iff fd req w = let (r, w') = os.tunsetiff fd req w in (accepted r, w')

  unfoldable pub open_tun : String → Io World (ℤ × String)
  unfolding ◌>>=◌ ◌>>◌ c_string request from_bytes_until_nul set_nonblock
  open_tun name = do
    tun_fd ← observe (os.open_path "/dev/net/tun" os.o_rdwr)
    name ← lift (ok_or (c_string (os.as_bytes name)) external)
    lift (panic_if (ltb os.ifnamsiz (suc (length name))))
    req ← call (set_iff tun_fd (request name))
    bytes ← lift (ok_or (from_bytes_until_nul req.ifr_name) external)
    device_name ← lift (ok_or (os.to_str bytes) external)
    _ ← caught (set_nonblock tun_fd)
    pure (tun_fd, device_name)

module _ {World : Type 0} (os : Os World) (a : AsyncFd os) where
  open a use {Fd}

  -- A `TunIo` that `AsyncFd::new` refuses is dropped.
  abbrev wrapped : ℤ → IoResult os.Errno Fd × World → Option Fd × World
  wrapped fd (done inner, w) = (some inner, w)
  wrapped fd (failed e, w) = (none, drop os fd w)

  unfoldable pub new : ℤ → Io World Fd
  unfolding drop
  new fd = call (λ w. wrapped fd (a.new fd w))
