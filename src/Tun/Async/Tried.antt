-- ===== src/Tun/Async/Tried.antt =====
-- The call of `poll_read` of src/tun/tun.rs by `try_io`: what it does to the buffer and the device.
use flannel_ng.Base.{ℕ, ◌≡◌, refl, sym, ap, ◌∙◌, Bool, true, false, Option, none, some, List}
use flannel_ng.Base.Integer.{ℤ, pos, negsuc}
use flannel_ng.Tun.{IoResult, done, failed, Os, AsyncFd, ReadBuf}
use flannel_ng.Tun.Io.{read, checked}
use flannel_ng.Tun.Laws.{OsLaws, AsyncLaws, ReadBufLaws, settle, settle_error}
use flannel_ng.Tun.Async.{try_read}
use flannel_ng.Tun.Async.Ends.{try_io-none}

module _ {E R S W : Type 0} (clear : W → W) where
  settle_error-done :
      (blocks : Bool) (e : E) (s : S × W) {r : R} {t : S × W}
      → settle_error clear blocks e s ≡ (some (done r), t)
      → (p : IoResult E R × (S × W)) → p ≡ (done r, t)
  settle_error-done true e s h p = absurd (cc (ap (λ q. q.0) h))
  settle_error-done false e s h p = absurd (cc (ap (λ q. q.0) h))

  settle-done :
      (would_block : E → Bool) (p : IoResult E R × (S × W)) {r : R} {t : S × W}
      → settle clear would_block p ≡ (some (done r), t)
      → p ≡ (done r, t)
  settle-done would_block (done r, s) {r = r'} h =
      let here : r ≡ r' = cc (ap (λ q. q.0) h) in cc (here, ap (λ q. q.1) h)
  settle-done would_block (failed e, s) h = settle_error-done (would_block e) e s h (failed e, s)

module _ {World : Type 0} (os : Os World) where
  abbrev outcome_of : (ℤ × List ℕ) × World → IoResult os.Errno ℕ × (List ℕ × World)
  outcome_of p = (checked os p.0.0 p.1, (p.0.1, p.1))

  checked-done :
      (p : (ℤ × List ℕ) × World) {n : ℕ} {t : List ℕ × World}
      → outcome_of p ≡ (done n, t)
      → (p.0.0 ≡ pos n) × ((outcome_of p).1 ≡ t)
  checked-done ((pos m, bytes), w) h = (cc (ap (λ q. q.0) h), ap (λ q. q.1) h)
  checked-done ((negsuc m, bytes), w) h = absurd (cc (ap (λ q. q.0) h))

  read-done :
      (fd : ℤ) (s : List ℕ × World) {n : ℕ} {t : List ℕ × World}
      → read os fd s ≡ (done n, t)
      → ((os.read fd s.0 s.1).0.0 ≡ pos n) × ((outcome_of (os.read fd s.0 s.1)).1 ≡ t)
  unfolding read
  read-done fd (buf, w) h = checked-done (os.read fd buf w) h

module _ {World : Type 0} (os : Os World) (a : AsyncFd os) (rb : ReadBuf) (posix : OsLaws os)
    (async : AsyncLaws os a) (bufs : ReadBufLaws rb) where
  open os use {Errno}
  open a use {Fd, Guard}
  open rb use {Buf, filled}
  open async use {outstanding, clear_ready, fd_of}

  -- The call inside of `try_read`.
  abbrev pub tried : Guard → Buf × World → Option (IoResult Errno ℕ) × (List ℕ × World)
  tried g s = a.try_io g (λ inner. read os (a.get_mut inner)) (rb.initialize_unfilled s.0, s.1)

  pub try_read_lem :
      (g : Guard) (s : Buf × World)
      → try_read os a rb g s ≡ ((tried g s).0, (rb.written ((tried g s).1.0) s.0, (tried g s).1.1))
  unfolding try_read
  try_read_lem g s = refl

  pub try_read-none :
      (g : Guard) (s : Buf × World) {t : Buf × World}
      → try_read os a rb g s ≡ (none, t)
      → (filled t.0 ≡ filled s.0)
        × (t.1 ≡ clear_ready g ((os.read (a.get_mut (fd_of g)) (rb.initialize_unfilled s.0) s.1).1))
  unfolding read
  try_read-none g s {t} h =
      let e = sym (try_read_lem g s) ∙ h in
      let none_eq : tried g s ≡ (none, (tried g s).1) =
        ap (λ o. (o, (tried g s).1)) (ap (λ q. q.0) e) in
      let cleared =
        try_io-none os a async g (λ inner. read os (a.get_mut inner))
          (rb.initialize_unfilled s.0, s.1) none_eq in
      (
        ap (λ q. filled q.1.0) (sym e) ∙ bufs.filled-written ((tried g s).1.0) s.0,
        ap (λ q. q.1.1) (sym e) ∙ ap (λ q. q.1) cleared,
      )

  pub try_read-done :
      (g : Guard) (s : Buf × World) {n : ℕ} {t : Buf × World}
      → try_read os a rb g s ≡ (some (done n), t)
      → let fd = a.get_mut (fd_of g) in
        let into = rb.initialize_unfilled s.0 in
        ((os.read fd into s.1).0.0 ≡ pos n)
        × (t.0 ≡ rb.written ((os.read fd into s.1).0.1) s.0)
        × (t.1 ≡ (os.read fd into s.1).1)
  try_read-done g s {n} {t} h =
      let e = sym (try_read_lem g s) ∙ h in
      let some_eq : tried g s ≡ (some (done n), (tried g s).1) =
        ap (λ o. (o, (tried g s).1)) (ap (λ q. q.0) e) in
      let f : Fd → List ℕ × World → IoResult Errno ℕ × (List ℕ × World) =
        λ inner. read os (a.get_mut inner) in
      let s' : List ℕ × World = (rb.initialize_unfilled s.0, s.1) in
      let is_done =
        settle-done (clear_ready g) os.would_block (f (fd_of g) s')
          (sym (async.try_io_lem g f s') ∙ some_eq) in
      let (count, left) = read-done os (a.get_mut (fd_of g)) s' is_done in
      (
        count,
        ap (λ q. q.1.0) (sym e) ∙ ap (λ q. rb.written q.0 s.0) (sym left),
        ap (λ q. q.1.1) (sym e) ∙ ap (λ q. q.1) (sym left),
      )
