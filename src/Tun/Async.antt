-- ===== src/Tun/Async.antt =====
-- The polls of `Tun` of src/tun/tun.rs. Each is a loop that tries a call of the device while the
-- device says that it is ready, and goes on when the call would have blocked.
pub mod Rounds
pub mod Ends
mod Tried
pub mod Delivers
use flannel_ng.Base.{ℕ, zero, suc, Bool, true, Option, none, some, List}
use flannel_ng.Base.Outcome.{Outcome, ok, err, panic, out_of_fuel}
use flannel_ng.Base.Integer.{ℤ}
use flannel_ng.Tun.{IoResult, done, failed, Poll, ready, pending, Os, AsyncFd, ReadBuf}
use flannel_ng.Tun.Io.{read, write, write_vectored, flush}

-- The loop, over the question whether the device is ready, and the call by `try_io`.
module _ {E R S W : Type 0} where
  abbrev pub or_again :
      Option (IoResult E R) × (S × W)
      → (S × W → Outcome (Poll (IoResult E R)) × (S × W))
      → Outcome (Poll (IoResult E R)) × (S × W)
  or_again (some res, s) again = (ok (ready res), s)
  or_again (none, s) again = again s

module _ {E G R S W : Type 0} where
  -- `ready!(..)?`, and the rest of the round
  abbrev pub if_ready :
      Poll (IoResult E G) × W
      → S
      → (G → S × W → Outcome (Poll (IoResult E R)) × (S × W))
      → Outcome (Poll (IoResult E R)) × (S × W)
  if_ready (pending, w) s rest = (ok pending, (s, w))
  if_ready (ready (failed e), w) s rest = (ok (ready (failed e)), (s, w))
  if_ready (ready (done g), w) s rest = rest g (s, w)

  unfoldable pub poll_loop :
      ℕ
      → (W → Poll (IoResult E G) × W)
      → (G → S × W → Option (IoResult E R) × (S × W))
      → S × W
      → Outcome (Poll (IoResult E R)) × (S × W)
  poll_loop zero poll_ready body s = (out_of_fuel, s)
  poll_loop (suc fuel) poll_ready body s =
      if_ready (poll_ready s.1) s.0 λ g s'. or_again (body g s') (poll_loop fuel poll_ready body)

module _ {World : Type 0} (os : Os World) (a : AsyncFd os) where
  open os use {Errno}
  open a use {Fd, Guard}

  -- A call that borrows nothing.
  abbrev pub alone :
      {R : Type 0}
      → (ℤ → World → IoResult Errno R × World)
      → Fd
      → Unit {0} × World
      → IoResult Errno R × (Unit {0} × World)
  alone f inner (u, w) = let (r, w') = f (a.get_mut inner) w in (r, (u, w'))

  unfoldable pub poll_write :
      ℕ → Fd → List ℕ → Unit {0} × World → Outcome (Poll (IoResult Errno ℕ)) × (Unit {0} × World)
  unfolding poll_loop write
  poll_write fuel fd buf =
      poll_loop fuel (a.poll_write_ready_mut fd)
        λ guard. a.try_io guard (alone (λ inner. write os inner buf))

  unfoldable pub poll_flush :
      ℕ → Fd → Unit {0} × World → Outcome (Poll (IoResult Errno (Unit {0}))) × (Unit {0} × World)
  unfolding poll_loop flush
  poll_flush fuel fd =
      poll_loop fuel (a.poll_write_ready_mut fd) λ guard. a.try_io guard (alone (flush os))

  unfoldable pub poll_write_vectored :
      ℕ
      → Fd
      → List (List ℕ)
      → Unit {0} × World
      → Outcome (Poll (IoResult Errno ℕ)) × (Unit {0} × World)
  unfolding poll_loop write_vectored
  poll_write_vectored fuel fd bufs =
      poll_loop fuel (a.poll_write_ready_mut fd)
        λ guard. a.try_io guard (alone (λ inner. write_vectored os inner bufs))

  abbrev pub poll_shutdown : Fd → Poll (IoResult Errno (Unit {0}))
  poll_shutdown fd = ready (done tt)

  abbrev pub is_write_vectored : Fd → Bool
  is_write_vectored fd = true

module _ {World : Type 0} (os : Os World) (a : AsyncFd os) (rb : ReadBuf) where
  open os use {Errno}
  open a use {Fd, Guard}
  open rb use {Buf}

  -- `guard.try_io(|inner| inner.get_mut().read(rbuf))`, where `rbuf` borrows the unfilled part
  unfoldable pub try_read : Guard → Buf × World → Option (IoResult Errno ℕ) × (Buf × World)
  unfolding read
  try_read guard (buf, w) =
      let (res, (rbuf, w')) =
        a.try_io guard (λ inner. read os (a.get_mut inner)) (rb.initialize_unfilled buf, w) in
      (res, (rb.written rbuf buf, w'))

  abbrev pub advanced : Option Buf → Buf → Outcome (Poll (IoResult Errno (Unit {0}))) × Buf
  advanced none buf = (panic, buf)
  advanced (some buf') buf = (ok (ready (done tt)), buf')

  -- `res.map(|n| buf.advance(n))`
  abbrev pub advance_by :
      Outcome (Poll (IoResult Errno ℕ)) → Buf → Outcome (Poll (IoResult Errno (Unit {0}))) × Buf
  advance_by (ok (ready (done n))) buf = advanced (rb.advance n buf) buf
  advance_by (ok (ready (failed e))) buf = (ok (ready (failed e)), buf)
  advance_by (ok pending) buf = (ok pending, buf)
  advance_by (err e) buf = (err e, buf)
  advance_by panic buf = (panic, buf)
  advance_by out_of_fuel buf = (out_of_fuel, buf)

  unfoldable pub poll_read :
      ℕ → Fd → Buf × World → Outcome (Poll (IoResult Errno (Unit {0}))) × (Buf × World)
  unfolding poll_loop try_read
  poll_read fuel fd s =
      let (res, (buf, w)) = poll_loop fuel (a.poll_read_ready_mut fd) try_read s in
      let (res', buf') = advance_by res buf in (res', (buf', w))
