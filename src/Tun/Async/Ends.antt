-- ===== src/Tun/Async/Ends.antt =====
-- The polls of `Tun` that write: each ends, with the result of its first call that does not block.
use flannel_ng.Base.{ℕ, ◌<◌, ◌≡◌, refl, sym, ap, ◌∙◌, Bool, true, false, none, List, subst}
use flannel_ng.Base.Integer.{ℤ}
use flannel_ng.Base.Outcome.{Outcome}
use flannel_ng.Tun.{IoResult, done, failed, Poll, Os, AsyncFd}
use flannel_ng.Tun.Io.{write, write_vectored, flush, iovcnt}
use flannel_ng.Tun.Laws.{AsyncLaws, settle, settle_error}
use flannel_ng.Tun.Async.{alone, poll_write, poll_flush, poll_write_vectored, poll_loop}
use flannel_ng.Tun.Async.Rounds.{Blocks, Ends, poll_loop-Ends}

module _ {E R S W : Type 0} (clear : W → W) where
  settle_error-none :
      (blocks : Bool) (e : E) (s : S × W) {t : S × W}
      → settle_error {R = R} clear blocks e s ≡ (none, t)
      → t ≡ (s.0, clear s.1)
  settle_error-none true e s h = sym (ap (λ q. q.1) h)
  settle_error-none false e s h = absurd (cc (ap (λ q. q.0) h))

  settle-none :
      (would_block : E → Bool) (p : IoResult E R × (S × W)) {t : S × W}
      → settle clear would_block p ≡ (none, t)
      → t ≡ (p.1.0, clear p.1.1)
  settle-none would_block (done r, s) h = absurd (cc (ap (λ q. q.0) h))
  settle-none would_block (failed e, s) h = settle_error-none (would_block e) e s h

module _ {World : Type 0} (os : Os World) (a : AsyncFd os) where
  open os use {Errno}
  open a use {Fd}

  -- The poll of a call ends with the result.
  abbrev pub EndsWith :
      {R : Type 0}
      → Fd
      → (ℤ → World → IoResult Errno R × World)
      → Outcome (Poll (IoResult Errno R)) × (Unit {0} × World)
      → World
      → Type 0
  EndsWith fd f result w =
      Ends (a.poll_write_ready_mut fd) (λ guard. a.try_io guard (alone os a f)) result (tt, w)

module _ {World : Type 0} (os : Os World) (a : AsyncFd os) (laws : AsyncLaws os a) where
  open os use {Errno}
  open a use {Fd, Guard}
  open laws use {outstanding, readiness, clear_ready, fd_of}

  -- A call that would block clears the readiness that the guard stands for.
  pub try_io-none :
      {R S : Type 0} (g : Guard) (f : Fd → S × World → IoResult Errno R × (S × World))
      (s : S × World) {t : S × World}
      → a.try_io g f s ≡ (none, t)
      → t ≡ ((f (fd_of g) s).1.0, clear_ready g ((f (fd_of g) s).1.1))
  try_io-none g f s h =
      settle-none (clear_ready g) os.would_block (f (fd_of g) s) (sym (laws.try_io_lem g f s) ∙ h)

  -- A blocked round of a poll that writes leaves fewer notifications.
  outstanding-lt :
      {R : Type 0} (fd : Fd) (f : ℤ → World → IoResult Errno R × World)
      → ((inner : ℤ) (w : World) → readiness ((f inner w).1) ≡ readiness w)
      → (s t : Unit {0} × World)
      → Blocks (a.poll_write_ready_mut fd) (λ guard. a.try_io guard (alone os a f)) s t
      → outstanding t.1 < outstanding s.1
  outstanding-lt fd f keeps s t b =
      let w = (a.poll_write_ready_mut fd s.1).1 in
      let w' = (f (a.get_mut (fd_of b.guard)) w).1 in
      let same = try_io-none b.guard (alone os a f) (s.0, w) b.blocked in
      subst (λ v. outstanding v < outstanding s.1) (sym (ap (λ q. q.1) same))
        (laws.write_clear-lt fd s.1 w' b.guard b.is_ready (keeps (a.get_mut (fd_of b.guard)) w))

  -- With more fuel than notifications of readiness, the polls `poll_write`, `poll_write_vectored`
  -- and `poll_flush` end: after some rounds in which the call has blocked, with the answer of the
  -- device that it is not ready or has failed, or with the result of the first call that does not
  -- block.
  pub polls-End :
      (fd : Fd) (buf : List ℕ) (bufs : List (List ℕ)) (fuel : ℕ) (w : World)
      → outstanding w < fuel
      → EndsWith os a fd (λ inner. write os inner buf) (poll_write os a fuel fd buf (tt, w)) w
        × EndsWith os a fd
            (λ inner. write_vectored os inner bufs)
            (poll_write_vectored os a fuel fd bufs (tt, w))
            w
        × EndsWith os a fd (flush os) (poll_flush os a fuel fd (tt, w)) w
  unfolding poll_write poll_write_vectored poll_flush write write_vectored flush
  polls-End fd buf bufs fuel w h = (
    ended (λ inner. write os inner buf) (λ inner. laws.readiness-write inner buf),
    ended (λ inner. write_vectored os inner bufs)
        (λ inner. laws.readiness-writev inner bufs (iovcnt bufs)),
    ended (flush os) (λ inner w. refl),
  )
    where
      ended :
          {R : Type 0} (f : ℤ → World → IoResult Errno R × World)
          → ((inner : ℤ) (w : World) → readiness ((f inner w).1) ≡ readiness w)
          → Ends
              (a.poll_write_ready_mut fd)
              (λ guard. a.try_io guard (alone os a f))
              (poll_loop fuel
                (a.poll_write_ready_mut fd)
                (λ guard. a.try_io guard (alone os a f))
                (tt, w))
              (tt, w)
      ended f keeps =
          poll_loop-Ends (a.poll_write_ready_mut fd) (λ guard. a.try_io guard (alone os a f))
            outstanding (outstanding-lt fd f keeps) fuel (tt, w) h
