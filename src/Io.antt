-- ===== src/Io.antt =====
-- The buffered output of lib/io.c. What the system does is a list of events, one for each round of
-- `io__flush`; behind the last event the timeout passes.
pub mod Conservation
pub mod Input
mod Tests
use Prim.Native.Nat.{min}
use nntp_tools.Prelude.{
  ℕ, zero, suc, ◌+◌, ◌-◌, Bool, true, false, List, [], ◌∷◌, ◌++◌, Option, none, some, Bytes, length,
  take, drop, ◌==◌, if◌then◌else◌,
}

-- `BUFFER_SIZE`.
abbrev pub buffer_size : ℕ
buffer_size = 4096

-- An `errno` value.
pub data Errno : Type 0 where
  etimedout : Errno
  error : ℕ → Errno

-- A round of `io__flush`: `io__wait` fails; `write` fails with EINTR or EAGAIN, with another error, or
-- writes so many bytes, if there are as many.
pub data Event : Type 0 where
  wait_fails write_fails : Errno → Event
  interrupted : Event
  writes : ℕ → Event

-- The first `written` bytes of `output`, and on the other side of the descriptor what has been sent
-- and what is going to happen.
pub record Io : Type 0 where
  pub output : Bytes
  pub sent : Bytes
  pub events : List Event

-- The loop of `io__flush` and the move of what is left to the front of the buffer: the error, or
-- `none` for 0.
unfoldable pub flush_from : List Event → Bytes → Bytes → Option Errno × Io
flush_from events [] sent = (none, record { output = []; sent = sent; events = events })
flush_from [] (c ∷ out) sent =
    (some etimedout, record { output = c ∷ out; sent = sent; events = [] })
flush_from (wait_fails e ∷ events) (c ∷ out) sent =
    (some e, record { output = c ∷ out; sent = sent; events = events })
flush_from (write_fails e ∷ events) (c ∷ out) sent =
    (some e, record { output = c ∷ out; sent = sent; events = events })
flush_from (interrupted ∷ events) (c ∷ out) sent = flush_from events (c ∷ out) sent
flush_from (writes n ∷ events) (c ∷ out) sent =
    flush_from events (drop n (c ∷ out)) (sent ++ take n (c ∷ out))

-- `io_flush`.
unfoldable pub io_flush : Io → Option Errno × Io
io_flush io = flush_from io.events io.output io.sent

-- The result of `io_write`: the error, `*wrote`, and the stream.
pub record Wrote : Type 0 where
  pub errno : Option Errno
  pub wrote : ℕ
  pub stream : Io

-- The copy of one round of `io_write`, from the data that is left.
abbrev pub count : Io → Bytes → ℕ
count io left = min (length left) (buffer_size - length io.output)

unfoldable pub fill : Io → Bytes → Io
fill io left = record io { output = io.output ++ take (count io left) left }

-- The start of one round: a full buffer is flushed.
unfoldable pub make_room : Io → Option Errno × Io
make_room io = if length io.output == buffer_size then io_flush io else (none, io)

-- The loop of `io_write`, with `written_so_far`, on one unit of fuel for each round; `none` says that
-- the fuel ran out.
unfoldable pub write_from : ℕ → Io → Bytes → ℕ → Option Wrote
write_from fuel io [] so_far = some (record { errno = none; wrote = so_far; stream = io })
write_from zero io (c ∷ left) so_far = none
write_from (suc fuel) io (c ∷ left) so_far =
    let (e, ready) = make_room io in
    elim e [
      | some e' ↦ some (record { errno = some e'; wrote = so_far; stream = ready })
      | none ↦
          write_from fuel (fill ready (c ∷ left)) (drop (count ready (c ∷ left)) (c ∷ left))
            (so_far + count ready (c ∷ left))
    ]

-- `io_write`; a round copies a byte at least.
unfoldable pub io_write : Io → Bytes → Option Wrote
io_write io text = write_from (length text) io text 0
