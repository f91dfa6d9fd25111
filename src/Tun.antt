-- ===== src/Tun.antt =====
-- The TUN device of src/tun. The calls of libc that it makes are the parameter `Os`, and `AsyncFd`
-- and `ReadBuf` of `tokio` are the parameters of those names. What the program relies on is stated
-- in Tun/Laws, from their documentation.
pub mod Io
pub mod Laws
pub mod Open
pub mod Async
pub mod Reference
mod Tests
use flannel_ng.Base.{ℕ, String, Bool, Option, List}
use flannel_ng.Base.Integer.{ℤ}

-- `libc::ifreq`: the bytes of `ifr_name`, and the flags.
pub record Ifreq : Type 0 where
  pub ifr_name : List ℕ
  pub ifru_flags : ℕ

-- `std::io::Result`
pub data IoResult (E A : Type 0) : Type 0 where
  done : A → IoResult E A
  failed : E → IoResult E A

-- `std::task::Poll`
pub data Poll (A : Type 0) : Type 0 where
  ready : A → Poll A
  pending : Poll A

pub record Os (World : Type 0) : Type 1 where
  pub Errno : Type 0
  pub last_os_error : World → Errno
  -- the kind of the error is `ErrorKind::WouldBlock`
  pub would_block : Errno → Bool
  pub open_path : String → ℕ → World → ℤ × World
  pub close : ℤ → World → ℤ × World
  pub fcntl : ℤ → ℕ → ℤ → World → ℤ × World
  -- the `ioctl`, which writes in the request
  pub tunsetiff : ℤ → Ifreq → World → IoResult Errno Ifreq × World
  -- the number of bytes or a negative number, and the buffer afterwards
  pub read : ℤ → List ℕ → World → (ℤ × List ℕ) × World
  pub readv : ℤ → List (List ℕ) → ℕ → World → (ℤ × List (List ℕ)) × World
  pub write : ℤ → List ℕ → World → ℤ × World
  pub writev : ℤ → List (List ℕ) → ℕ → World → ℤ × World
  -- `IFNAMSIZ`, `O_RDWR`, `O_NONBLOCK`, `F_GETFL`, `F_SETFL`, `IFF_TUN`, `IFF_NO_PI`
  pub ifnamsiz : ℕ
  pub o_rdwr : ℕ
  pub o_nonblock : ℕ
  pub f_getfl : ℕ
  pub f_setfl : ℕ
  pub iff_tun : ℕ
  pub iff_no_pi : ℕ
  -- the bytes of a string in UTF-8, and `CStr::to_str`
  pub as_bytes : String → List ℕ
  pub to_str : List ℕ → Option String

-- `AsyncFd<TunIo>`, where a `TunIo` is its descriptor, and its guards. The calls have the place of
-- the variables that a closure borrows, `S`.
pub record AsyncFd {World : Type 0} (os : Os World) : Type 1 where
  pub Fd : Type 0
  pub Guard : Type 0
  pub new : ℤ → World → IoResult os.Errno Fd × World
  pub get_mut : Fd → ℤ
  pub poll_read_ready_mut : Fd → World → Poll (IoResult os.Errno Guard) × World
  pub poll_write_ready_mut : Fd → World → Poll (IoResult os.Errno Guard) × World
  pub try_io :
      {R S : Type 0}
      → Guard
      → (Fd → S × World → IoResult os.Errno R × (S × World))
      → S × World
      → Option (IoResult os.Errno R) × (S × World)

pub record ReadBuf : Type 1 where
  pub Buf : Type 0
  pub filled : Buf → List ℕ
  pub initialize_unfilled : Buf → List ℕ
  -- what the buffer is when the bytes have been written to its unfilled part
  pub written : List ℕ → Buf → Buf
  -- a panic is `none`
  pub advance : ℕ → Buf → Option Buf
