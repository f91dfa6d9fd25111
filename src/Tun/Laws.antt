-- ===== src/Tun/Laws.antt =====
-- What src/tun relies on of libc and of `tokio`, from their documentation.
use flannel_ng.Base.Lists.{take}
use flannel_ng.Base.{ℕ, ◌≤◌, ◌<◌, ◌≡◌, Bool, true, false, Option, none, some, List, ◌++◌, length}
use flannel_ng.Base.Integer.{ℤ, pos}
use flannel_ng.Tun.{IoResult, done, failed, ready, Os, AsyncFd, ReadBuf}

pub record OsLaws {World : Type 0} (os : Os World) : Type 0 where
  -- a read writes in the buffer, and returns no more than its length
  pub length-read :
      (fd : ℤ) (buf : List ℕ) (w : World) → length ((os.read fd buf w).0.1) ≡ length buf
  pub read-le :
      (fd : ℤ) (buf : List ℕ) (w : World) (n : ℕ) → (os.read fd buf w).0.0 ≡ pos n → n ≤ length buf

-- `try_io` passes the result of a call on, but for a call that would block: then it clears the
-- readiness of the guard.
module _ {E R S W : Type 0} (clear : W → W) where
  abbrev pub settle_error : Bool → E → S × W → Option (IoResult E R) × (S × W)
  settle_error true e s = (none, (s.0, clear s.1))
  settle_error false e s = (some (failed e), s)

  abbrev pub settle : (E → Bool) → IoResult E R × (S × W) → Option (IoResult E R) × (S × W)
  settle would_block (done r, s) = (some (done r), s)
  settle would_block (failed e, s) = settle_error (would_block e) e s

pub record AsyncLaws {World : Type 0} (os : Os World) (a : AsyncFd os) : Type 1 where
  -- the descriptor of a guard
  pub fd_of : a.Guard → a.Fd
  pub clear_ready : a.Guard → World → World
  pub try_io_lem :
      {R S : Type 0} (g : a.Guard) (f : a.Fd → S × World → IoResult os.Errno R × (S × World))
      (s : S × World)
      → a.try_io g f s ≡ settle (clear_ready g) os.would_block (f (fd_of g) s)
  pub fd_of-read :
      (fd : a.Fd) (w : World) (g : a.Guard)
      → (a.poll_read_ready_mut fd w).0 ≡ ready (done g)
      → fd_of g ≡ fd
  -- what the driver of `tokio` knows of the readiness of descriptors, and how many notifications
  -- of it are still to come or to be cleared: a guard stands for one, and the calls of the device
  -- make none
  pub Readiness : Type 0
  pub readiness : World → Readiness
  pub outstanding : World → ℕ
  pub read_clear-lt :
      (fd : a.Fd) (w w' : World) (g : a.Guard)
      → (a.poll_read_ready_mut fd w).0 ≡ ready (done g)
      → readiness w' ≡ readiness ((a.poll_read_ready_mut fd w).1)
      → outstanding (clear_ready g w') < outstanding w
  pub write_clear-lt :
      (fd : a.Fd) (w w' : World) (g : a.Guard)
      → (a.poll_write_ready_mut fd w).0 ≡ ready (done g)
      → readiness w' ≡ readiness ((a.poll_write_ready_mut fd w).1)
      → outstanding (clear_ready g w') < outstanding w
  pub readiness-read :
      (fd : ℤ) (buf : List ℕ) (w : World) → readiness ((os.read fd buf w).1) ≡ readiness w
  pub readiness-write :
      (fd : ℤ) (buf : List ℕ) (w : World) → readiness ((os.write fd buf w).1) ≡ readiness w
  pub readiness-writev :
      (fd : ℤ) (bufs : List (List ℕ)) (n : ℕ) (w : World)
      → readiness ((os.writev fd bufs n w).1) ≡ readiness w

pub record ReadBufLaws (rb : ReadBuf) : Type 0 where
  pub filled-written : (s : List ℕ) (b : rb.Buf) → rb.filled (rb.written s b) ≡ rb.filled b
  pub advance-written :
      (n : ℕ) (s : List ℕ) (b : rb.Buf)
      → length s ≡ length (rb.initialize_unfilled b)
      → n ≤ length s
      → (b' : rb.Buf) × (rb.advance n (rb.written s b) ≡ some b')
        × (rb.filled b' ≡ rb.filled b ++ take n s)
