-- ===== src/Tun/Io.antt =====
-- The calls of `TunIo` of src/tun/io.rs: a descriptor, read from and written to.
use flannel_ng.Base.{ℕ, List, length, ltb, if◌then◌else◌}
use flannel_ng.Base.Integer.{ℤ, pos, negsuc}
use flannel_ng.Tun.{IoResult, done, failed, Os}

-- `libc::c_int::MAX`
abbrev pub c_int_max : ℕ
c_int_max = 0x7FFFFFFF

-- `bufs.len().min(libc::c_int::MAX as usize)`
unfoldable pub iovcnt : List (List ℕ) → ℕ
iovcnt bufs = if ltb c_int_max (length bufs) then c_int_max else length bufs

module _ {World : Type 0} (os : Os World) where
  open os use {Errno}

  -- `if n < 0 { return Err(last_os_error()) }`, and the number else
  abbrev pub checked : ℤ → World → IoResult Errno ℕ
  checked (pos n) w = done n
  checked (negsuc n) w = failed (os.last_os_error w)

  -- The buffers that a call borrows stand beside the world.
  unfoldable pub read : ℤ → List ℕ × World → IoResult Errno ℕ × (List ℕ × World)
  read fd (buf, w) = let ((n, buf'), w') = os.read fd buf w in (checked n w', (buf', w'))

  unfoldable pub read_vectored :
      ℤ → List (List ℕ) × World → IoResult Errno ℕ × (List (List ℕ) × World)
  unfolding iovcnt
  read_vectored fd (bufs, w) =
      let ((n, bufs'), w') = os.readv fd bufs (iovcnt bufs) w in (checked n w', (bufs', w'))

  unfoldable pub write : ℤ → List ℕ → World → IoResult Errno ℕ × World
  write fd buf w = let (amount, w') = os.write fd buf w in (checked amount w', w')

  unfoldable pub write_vectored : ℤ → List (List ℕ) → World → IoResult Errno ℕ × World
  unfolding iovcnt
  write_vectored fd bufs w = let (n, w') = os.writev fd bufs (iovcnt bufs) w in (checked n w', w')

  unfoldable pub flush : ℤ → World → IoResult Errno (Unit {0}) × World
  flush fd w = (done tt, w)

  unfoldable pub drop : ℤ → World → World
  drop fd w = (os.close fd w).1
