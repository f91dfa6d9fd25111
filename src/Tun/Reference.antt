-- ===== src/Tun/Reference.antt =====
-- A machine with one TUN device: the packets that wait to be read, those that have been written,
-- and the notifications of readiness to come. A call without a packet to read would block, and the
-- device takes a packet only while it has room.
use flannel_ng.Base.{
  ℕ, zero, suc, ◌≤◌, ◌<◌, ◌≡◌, refl, ap, Bool, true, false, Option, none, some, List, [], ◌∷◌, ◌++◌,
  concat, take, length, arith, leb, if◌then◌else◌, le→leb,
}
use flannel_ng.Base.Integer.{ℤ, pos, negsuc}
use flannel_ng.Tun.{Ifreq, IoResult, done, failed, Poll, ready, pending, Os, AsyncFd, ReadBuf}
use flannel_ng.Tun.Laws.{OsLaws, AsyncLaws, ReadBufLaws, settle}

pub record Machine : Type 0 where
  pub packets : List (List ℕ)
  pub sent : List (List ℕ)
  pub room : ℕ
  pub notices : ℕ
  pub is_ready : Bool
  pub refuses : Bool

-- The bytes of a packet put into a buffer, and how many there was a place for.
unfoldable pub fill : List ℕ → List ℕ → ℕ × List ℕ
fill [] buf = (0, buf)
fill (b ∷ packet) [] = (0, [])
fill (b ∷ packet) (x ∷ buf) = let (n, rest) = fill packet buf in (suc n, b ∷ rest)

length-fill : (packet buf : List ℕ) → length ((fill packet buf).1) ≡ length buf
unfolding fill
length-fill [] buf = refl
length-fill (b ∷ packet) [] = refl
length-fill (b ∷ packet) (x ∷ buf) = ap suc (length-fill packet buf)

fill-le : (packet buf : List ℕ) → (fill packet buf).0 ≤ length buf
unfolding fill
fill-le [] buf = omega arith
fill-le (b ∷ packet) [] = omega arith
fill-le (b ∷ packet) (x ∷ buf) = omega (arith, fill-le packet buf)

abbrev take_packet : List (List ℕ) → List ℕ → Machine → (ℤ × List ℕ) × Machine
take_packet [] buf w = ((negsuc 0, buf), w)
take_packet (p ∷ ps) buf w =
    let (n, buf') = fill p buf in ((pos n, buf'), record w { packets = ps })

abbrev put_packet : ℕ → List ℕ → Machine → ℤ × Machine
put_packet zero buf w = (negsuc 0, w)
put_packet (suc room) buf w =
    (pos (length buf), record w { room = room; sent = w.sent ++ (buf ∷ []) })

-- The name with its one number for the place of a device is "tun0".
abbrev tun0 : List ℕ
tun0 = 116 ∷ 117 ∷ 110 ∷ 48 ∷ 0 ∷ 0 ∷ []

abbrev answer_iff : Bool → Ifreq → IoResult (Unit {0}) Ifreq
answer_iff true req = failed tt
answer_iff false req = done (record req { ifr_name = tun0 })

-- "flannel%d"
abbrev flannel_bytes : List ℕ
flannel_bytes = 102 ∷ 108 ∷ 97 ∷ 110 ∷ 110 ∷ 101 ∷ 108 ∷ 37 ∷ 100 ∷ []

abbrev pub machine : Os Machine
machine = record {
  Errno = Unit {0};
  last_os_error = λ w. tt;
  would_block = λ e. true;
  open_path = λ path flags w. (pos 5, w);
  close = λ fd w. (pos 0, w);
  fcntl = λ fd cmd arg w. (pos 0, w);
  tunsetiff = λ fd req w. (answer_iff w.refuses req, w);
  read = λ fd buf w. take_packet w.packets buf w;
  readv = λ fd bufs n w. ((negsuc 0, bufs), w);
  write = λ fd buf w. put_packet w.room buf w;
  writev = λ fd bufs n w. put_packet w.room (concat (take n bufs)) w;
  ifnamsiz = 16;
  o_rdwr = 2;
  o_nonblock = 2048;
  f_getfl = 3;
  f_setfl = 4;
  iff_tun = 1;
  iff_no_pi = 4096;
  as_bytes = λ s. flannel_bytes;
  to_str = λ bytes. some "tun0";
}

-- A notification makes the device ready.
abbrev poll : Bool → ℕ → ℤ → Machine → Poll (IoResult (Unit {0}) ℤ) × Machine
poll true n fd w = (ready (done fd), w)
poll false zero fd w = (pending, w)
poll false (suc n) fd w = (ready (done fd), record w { notices = n; is_ready = true })

abbrev clear : ℤ → Machine → Machine
clear fd w = record w { is_ready = false }

abbrev pub machine_fd : AsyncFd machine
machine_fd = record {
  Fd = ℤ;
  Guard = ℤ;
  new = λ fd w. (done fd, w);
  get_mut = λ fd. fd;
  poll_read_ready_mut = λ fd w. poll w.is_ready w.notices fd w;
  poll_write_ready_mut = λ fd w. poll w.is_ready w.notices fd w;
  try_io = λ g f s. settle (clear g) (λ e. true) (f g s);
}

abbrev count : Bool → ℕ → ℕ
count true n = suc n
count false n = n

pub poll-fd :
    (b : Bool) (n : ℕ) (fd : ℤ) (w : Machine) (g : ℤ) → (poll b n fd w).0 ≡ ready (done g) → g ≡ fd
poll-fd true n fd w g h = cc h
poll-fd false zero fd w g h = absurd (cc h)
poll-fd false (suc n) fd w g h = cc h

pub poll-lt :
    (b : Bool) (n : ℕ) (fd : ℤ) (w : Machine) (m : ℕ) (g : ℤ)
    → w.is_ready ≡ b
    → w.notices ≡ n
    → (poll b n fd w).0 ≡ ready (done g)
    → m ≡ (poll b n fd w).1.notices
    → m < count b n
poll-lt true n fd w m g b_eq n_eq h e = omega (arith, e, n_eq)
poll-lt false zero fd w m g b_eq n_eq h e = absurd (cc h)
poll-lt false (suc n) fd w m g b_eq n_eq h e = omega (arith, e)

abbrev known : Machine → Bool × ℕ
known w = (w.is_ready, w.notices)

pub put_packet_keeps :
    (room : ℕ) (buf : List ℕ) (w : Machine) → known (put_packet room buf w).1 ≡ known w
put_packet_keeps zero buf w = refl
put_packet_keeps (suc room) buf w = refl

pub take_packet_keeps :
    (ps : List (List ℕ)) (buf : List ℕ) (w : Machine) → known (take_packet ps buf w).1 ≡ known w
take_packet_keeps [] buf w = refl
take_packet_keeps (p ∷ ps) buf w = refl

length-take_packet :
    (ps : List (List ℕ)) (buf : List ℕ) (w : Machine)
    → length ((take_packet ps buf w).0.1) ≡ length buf
length-take_packet [] buf w = refl
length-take_packet (p ∷ ps) buf w = length-fill p buf

take_packet-le :
    (ps : List (List ℕ)) (buf : List ℕ) (w : Machine) (n : ℕ)
    → (take_packet ps buf w).0.0 ≡ pos n
    → n ≤ length buf
take_packet-le [] buf w n h = absurd (cc h)
take_packet-le (p ∷ ps) buf w n h =
    let e : (fill p buf).0 ≡ n = cc h in omega (arith, e, fill-le p buf)

pub machine_os_laws : OsLaws machine
machine_os_laws = record {
  length-read = λ fd buf w. length-take_packet w.packets buf w;
  read-le = λ fd buf w. take_packet-le w.packets buf w;
}

abbrev pub machine_async_laws : AsyncLaws machine machine_fd
machine_async_laws = record {
  fd_of = λ g. g;
  clear_ready = clear;
  try_io_lem = λ g f s. refl;
  fd_of-read = λ fd w. poll-fd w.is_ready w.notices fd w;
  Readiness = Bool × ℕ;
  readiness = known;
  outstanding = λ w. count w.is_ready w.notices;
  read_clear-lt =
      λ fd w w' g h e. poll-lt w.is_ready w.notices fd w w'.notices g refl refl h (ap (λ k. k.1) e);
  write_clear-lt =
      λ fd w w' g h e. poll-lt w.is_ready w.notices fd w w'.notices g refl refl h (ap (λ k. k.1) e);
  readiness-read = λ fd buf w. take_packet_keeps w.packets buf w;
  readiness-write = λ fd buf w. put_packet_keeps w.room buf w;
  readiness-writev = λ fd bufs n w. put_packet_keeps w.room (concat (take n bufs)) w;
}

pub record Buffer : Type 0 where
  pub filled : List ℕ
  pub unfilled : List ℕ

abbrev drop : ℕ → List ℕ → List ℕ
drop zero xs = xs
drop (suc n) [] = []
drop (suc n) (x ∷ xs) = drop n xs

unfoldable pub advance : ℕ → Buffer → Option Buffer
advance n b =
    if leb n (length b.unfilled)
    then some (record { filled = b.filled ++ take n b.unfilled; unfilled = drop n b.unfilled })
    else none

abbrev pub buffer : ReadBuf
buffer = record {
  Buf = Buffer;
  filled = λ b. b.filled;
  initialize_unfilled = λ b. b.unfilled;
  written = λ s b. record b { unfilled = s };
  advance = advance;
}

pub buffer_laws : ReadBufLaws buffer
unfolding advance
buffer_laws = record {
  filled-written = λ s b. refl;
  advance-written = λ n s b e h. (
    record { filled = b.filled ++ take n s; unfilled = drop n s },
    rw (le→leb n (length s) h) refl,
    refl,
  );
}
