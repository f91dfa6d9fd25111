-- ===== src/Tun/Tests.antt =====
-- The TUN device on a concrete machine.
use flannel_ng.Base.{◌≡◌, refl, true, false, some, [], ◌∷◌, arith, length}
use flannel_ng.Base.Integer.{pos, or_flags}
use flannel_ng.Base.Outcome.{ok}
use flannel_ng.Base.Io.{pure, lift, call, observe, caught, ◌>>=◌, ◌>>◌}
use flannel_ng.Tun.{Poll, ready, IoResult, done}
use flannel_ng.Tun.Reference.{
  Machine, machine, machine_fd, machine_os_laws, machine_async_laws, Buffer, buffer, buffer_laws,
  fill, advance,
}
use flannel_ng.Tun.Open.{request, open_tun, from_bytes_until_nul, c_string, set_nonblock}
use flannel_ng.Tun.Open.Request.{device, open_tun-device}
use flannel_ng.Tun.Async.{
  try_read, poll_read, poll_loop, poll_write, poll_write_vectored, poll_flush,
}
use flannel_ng.Tun.Io.{read, write, write_vectored, flush}
use flannel_ng.Tun.Async.Ends.{EndsWith, polls-End}
use flannel_ng.Tun.Async.Delivers.{IsDelivered, poll_read-IsDelivered}

-- The device says that it is ready, although no packet waits, and is ready twice more.
abbrev quiet : Machine
quiet = record { packets = []; sent = []; room = 1; notices = 2; is_ready = true; refuses = false }

-- One packet waits.
abbrev busy : Machine
busy = record quiet { packets = (69 ∷ 0 ∷ 28 ∷ []) ∷ [] }

abbrev space : Buffer
space = record { filled = 1 ∷ []; unfilled = 0 ∷ 0 ∷ 0 ∷ 0 ∷ [] }

poll_reads : poll_read machine machine_fd buffer 5 (pos 5) (space, busy) ≡ (
  ok (ready (done tt)),
  (record { filled = 1 ∷ 69 ∷ 0 ∷ 28 ∷ []; unfilled = 0 ∷ [] }, record busy { packets = [] }),
)
unfolding poll_read poll_loop try_read read fill advance
poll_reads = refl

poll_read-IsDelivered_example :
    (value : Poll (IoResult (Unit {0}) (Unit {0})) × (Buffer × Machine)) × (poll_read machine
        machine_fd buffer 4
        (pos 5)
        (space, busy)
      ≡ (ok (value.0), value.1))
    × IsDelivered machine machine_fd buffer machine_os_laws machine_async_laws buffer_laws
        (pos 5)
        space
        value
poll_read-IsDelivered_example =
    poll_read-IsDelivered machine machine_fd buffer machine_os_laws machine_async_laws buffer_laws
      (pos 5) 4 space busy (omega arith)

polls-End_example :
    EndsWith machine machine_fd
      (pos 5)
      (λ inner. write machine inner (1 ∷ 2 ∷ []))
      (poll_write machine machine_fd 4 (pos 5) (1 ∷ 2 ∷ []) (tt, quiet))
      quiet
    × EndsWith machine machine_fd
        (pos 5)
        (λ inner. write_vectored machine inner ((1 ∷ []) ∷ []))
        (poll_write_vectored machine machine_fd 4 (pos 5) ((1 ∷ []) ∷ []) (tt, quiet))
        quiet
    × EndsWith machine machine_fd
        (pos 5)
        (flush machine)
        (poll_flush machine machine_fd 4 (pos 5) (tt, quiet))
        quiet
polls-End_example =
    polls-End machine machine_fd machine_async_laws (pos 5) (1 ∷ 2 ∷ []) ((1 ∷ []) ∷ []) 4 quiet
      (omega arith)

open_tun-device_example :
    let req = request machine (machine.as_bytes "flannel%d") in
    (length req.ifr_name ≡ 16)
    × (from_bytes_until_nul req.ifr_name ≡ some (machine.as_bytes "flannel%d"))
    × ((open_tun machine "flannel%d" quiet).0
        ≡ device machine (pos 5) (machine.tunsetiff (pos 5) req quiet).0)
open_tun-device_example = open_tun-device machine "flannel%d" quiet refl (omega arith)

opens : (open_tun machine "flannel%d" quiet).0 ≡ ok (pos 5, "tun0")
unfolding open_tun request from_bytes_until_nul c_string set_nonblock pure lift call observe caught
    ◌>>=◌ ◌>>◌ or_flags
opens = refl
