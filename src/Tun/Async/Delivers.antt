-- ===== src/Tun/Async/Delivers.antt =====
-- What `poll_read` of src/tun/tun.rs leaves in the buffer.
use flannel_ng.Base.{ℕ, ◌<◌, ◌≤◌, ◌≡◌, refl, sym, ap, ◌∙◌, ◌++◌, some, List, subst}
use flannel_ng.Base.Lists.{take}
use flannel_ng.Base.Integer.{ℤ, pos}
use flannel_ng.Base.Outcome.{Outcome, ok}
use flannel_ng.Tun.{IoResult, done, failed, Poll, ready, pending, Os, AsyncFd, ReadBuf}
use flannel_ng.Tun.Laws.{OsLaws, AsyncLaws, ReadBufLaws}
use flannel_ng.Tun.Async.{try_read, poll_read, advance_by}
use flannel_ng.Tun.Async.Rounds.{
  Blocks, Rounds, stop, again, IsLast, waits, fails, answers, poll_loop-Ends,
}
use flannel_ng.Tun.Async.Tried.{tried, try_read_lem, try_read-none, try_read-done}

module _ {World : Type 0} (os : Os World) (a : AsyncFd os) (rb : ReadBuf) (posix : OsLaws os)
    (async : AsyncLaws os a) (bufs : ReadBufLaws rb) where
  open os use {Errno}
  open a use {Fd, Guard}
  open rb use {Buf, filled}
  open async use {outstanding, clear_ready, fd_of}

  -- What the poll has done to the bytes of the buffer: it has left them, or it has put at their end
  -- the bytes that a read of the device has returned, as many as it said.
  pub data IsDelivered (fd : ℤ) (buf : Buf)
      : Poll (IoResult Errno (Unit {0})) × (Buf × World) → Type 0 where
    waited :
        (buf' : Buf) (w : World)
        → filled buf' ≡ filled buf
        → IsDelivered fd buf (pending, (buf', w))
    failed_with :
        (e : Errno) (buf' : Buf) (w : World)
        → filled buf' ≡ filled buf
        → IsDelivered fd buf (ready (failed e), (buf', w))
    returned :
        (into : List ℕ) (v : World) (n : ℕ) (buf' : Buf)
        → (os.read fd into v).0.0 ≡ pos n
        → filled buf' ≡ filled buf ++ take n ((os.read fd into v).0.1)
        → IsDelivered fd buf (ready (done tt), (buf', (os.read fd into v).1))

  abbrev poll_ready : Fd → World → Poll (IoResult Errno Guard) × World
  poll_ready fd = a.poll_read_ready_mut fd

  -- A blocked round leaves fewer notifications, and the bytes of the buffer.
  outstanding-lt :
      (fd : Fd) (s t : Buf × World)
      → Blocks (poll_ready fd) (try_read os a rb) s t
      → outstanding t.1 < outstanding s.1
  outstanding-lt fd s t b =
      let v = (poll_ready fd s.1).1 in
      let inner = a.get_mut (fd_of b.guard) in
      let into = rb.initialize_unfilled s.0 in
      let (kept, cleared) = try_read-none os a rb posix async bufs b.guard (s.0, v) b.blocked in
      subst (λ w. outstanding w < outstanding s.1) (sym cleared)
        (async.read_clear-lt fd s.1 ((os.read inner into v).1) b.guard b.is_ready
          (async.readiness-read inner into v))

  filled-Rounds :
      (fd : Fd) (s t : Buf × World)
      → Rounds (poll_ready fd) (try_read os a rb) s t
      → filled t.0 ≡ filled s.0
  filled-Rounds fd s t (stop _) = refl
  filled-Rounds fd s t (again {s' = s'} b rest) =
      filled-Rounds fd s' t rest
      ∙ (try_read-none os a rb posix async bufs b.guard (s.0, (poll_ready fd s.1).1) b.blocked).0

  -- The end of the poll, from the value of the loop.
  abbrev finish :
      Poll (IoResult Errno ℕ) × (Buf × World)
      → Outcome (Poll (IoResult Errno (Unit {0}))) × (Buf × World)
  finish (res, (buf, w)) = let (res', buf') = advance_by os a rb (ok res) buf in (res', (buf', w))

  abbrev Finishes : ℤ → Buf → Outcome (Poll (IoResult Errno (Unit {0}))) × (Buf × World) → Type 0
  Finishes fd buf result =
      (value : Poll (IoResult Errno (Unit {0})) × (Buf × World)) × (result
        ≡ (ok (value.0), value.1))
      × IsDelivered fd buf value

  finish-done :
      (n : ℕ) (t : Buf × World) (buf' : Buf)
      → rb.advance n t.0 ≡ some buf'
      → finish (ready (done n), t) ≡ (ok (ready (done tt)), (buf', t.1))
  finish-done n t buf' h = rw h refl

  finish-answer :
      (g : Guard) (buf : Buf) (s t : Buf × World) (r : IoResult Errno ℕ)
      → filled s.0 ≡ filled buf
      → try_read os a rb g s ≡ (some r, t)
      → Finishes (a.get_mut (fd_of g)) buf (finish (ready r, t))
  finish-answer g buf s t (failed e) same h =
      let kept = ap (λ q. filled q.1.0) (sym (try_read_lem os a rb posix async bufs g s) ∙ h) in
      (
        (ready (failed e), t),
        refl,
        failed_with e t.0 t.1
            (sym kept ∙ bufs.filled-written ((tried os a rb posix async bufs g s).1.0) s.0 ∙ same),
      )
  finish-answer g buf s t (done n) same h =
      let fd = a.get_mut (fd_of g) in
      let into = rb.initialize_unfilled s.0 in
      let bytes = (os.read fd into s.1).0.1 in
      let (count, left, world) = try_read-done os a rb posix async bufs g s h in
      let (buf', advanced_eq, filled_eq) =
        bufs.advance-written n bytes s.0 (posix.length-read fd into s.1) (
          subst (λ l. n ≤ l) (sym (posix.length-read fd into s.1))
            (posix.read-le fd into s.1 n count)) in
      (
        (ready (done tt), (buf', (os.read fd into s.1).1)),
        finish-done n t buf' (ap (rb.advance n) left ∙ advanced_eq)
            ∙ ap (λ w. (ok (ready (done tt)), (buf', w))) world,
        returned into s.1 n buf' count (filled_eq ∙ ap (λ f. f ++ take n bytes) same),
      )

  finish-last :
      (fd : Fd) (buf : Buf) (s : Buf × World) (value : Poll (IoResult Errno ℕ) × (Buf × World))
      → filled s.0 ≡ filled buf
      → IsLast (poll_ready fd) (try_read os a rb) s value
      → Finishes (a.get_mut fd) buf (finish value)
  finish-last fd buf s value same (waits _ h) =
      ((pending, (s.0, (poll_ready fd s.1).1)), refl, waited s.0 ((poll_ready fd s.1).1) same)
  finish-last fd buf s value same (fails _ e h) = (
    (ready (failed e), (s.0, (poll_ready fd s.1).1)),
    refl,
    failed_with e s.0 ((poll_ready fd s.1).1) same,
  )
  finish-last fd buf s value same (answers _ g r t h tried_eq) =
      subst (λ inner. Finishes (a.get_mut inner) buf (finish (ready r, t)))
        (async.fd_of-read fd s.1 g h)
        (finish-answer g buf (s.0, (poll_ready fd s.1).1) t r same tried_eq)

  -- With more fuel than notifications of readiness, `poll_read` ends, and does not panic. When it
  -- has to wait or fails the bytes of the buffer are as they were. Else a read of the device has
  -- returned a number, and that many of the bytes that it has read, and no others, stand at the end
  -- of those that were in the buffer.
  pub poll_read-IsDelivered :
      (fd : Fd) (fuel : ℕ) (buf : Buf) (w : World)
      → outstanding w < fuel
      → (value : Poll (IoResult Errno (Unit {0})) × (Buf × World)) × (poll_read os a rb fuel fd
            (buf, w)
          ≡ (ok (value.0), value.1))
        × IsDelivered (a.get_mut fd) buf value
  unfolding poll_read
  poll_read-IsDelivered fd fuel buf w h =
      let ends =
        poll_loop-Ends (poll_ready fd) (try_read os a rb) outstanding (outstanding-lt fd) fuel
          (buf, w) h in
      let (value, result, delivered) =
        finish-last fd buf ends.last ends.value (filled-Rounds fd (buf, w) ends.last ends.rounds)
          ends.is_last in
      (value, rw ends.is_result result, delivered)
