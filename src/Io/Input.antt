-- ===== src/Io/Input.antt =====
-- `io_getline` of lib/io.c and the input buffer under it. What the system does is a list of arrivals,
-- one for each round of `io__fill`; behind the last the timeout passes.
pub mod Lines
mod Tests
use nntp_tools.Prelude.{
  ℕ, zero, suc, ◌+◌, ◌*◌, Bool, true, false, not, ◌&&◌, List, [], ◌∷◌, ◌++◌, Option, none, some,
  Bytes, length, ltb, leb, ◌==◌, if◌then◌else◌, Result, ok, failed,
}
use nntp_tools.Io.{Errno, etimedout}

-- What `io__fill` and `io_getline` return other than 0: -1 or an `errno` value.
pub data End : Type 0 where
  eof : End
  failure : Errno → End

-- A round of `io__fill`: `io__wait` or `read` fails, `read` fails with EINTR or EAGAIN, finds the end,
-- or reads a byte and more behind it.
pub data Arrival : Type 0 where
  wait_fails read_fails : Errno → Arrival
  interrupted closed : Arrival
  reads : ℕ → Bytes → Arrival

-- The bytes of `input` from `inptr` to `available`, and what is going to happen.
pub record Source : Type 0 where
  pub pending : Bytes
  pub arriving : List Arrival

-- What `io__readbyte` returns: a byte or a reason, with what is left.
pub data Read : Type 0 where
  byte : ℕ → Source → Read
  stopped : End → Source → Read

-- `io__fill`, and the first byte that it has read.
unfoldable pub fill : List Arrival → Read
fill [] = stopped (failure etimedout) (record { pending = []; arriving = [] })
fill (wait_fails e ∷ later) = stopped (failure e) (record { pending = []; arriving = later })
fill (read_fails e ∷ later) = stopped (failure e) (record { pending = []; arriving = later })
fill (interrupted ∷ later) = fill later
fill (closed ∷ later) = stopped eof (record { pending = []; arriving = later })
fill (reads c cs ∷ later) = byte c (record { pending = cs; arriving = later })

-- `io__readbyte`.
unfoldable pub readbyte : Bytes → List Arrival → Read
readbyte [] later = fill later
readbyte (c ∷ cs) later = byte c (record { pending = cs; arriving = later })

-- What is wrong when the loop runs out of fuel, or stores a byte outside its buffer.
pub data Fault : Type 0 where
  out_of_fuel overflow : Fault

-- The result of `io_getline`: the error, `*line`, `*linesize`, how many bytes are allocated at `*line`,
-- and the stream.
pub record Line : Type 0 where
  pub errno : Option End
  pub line : Option Bytes
  pub linesize : ℕ
  pub capacity : ℕ
  pub source : Source

-- `*linesize`, or the allocated size, where `used` bytes are in the buffer and one more is to come.
unfoldable pub grow : ℕ → ℕ → ℕ → ℕ
grow used linesize size =
    if leb linesize used then (if linesize == 0 then 64 else 2 * linesize) else size

-- The code behind the loop, when it has ended for a reason or, for `none`, at a newline.
unfoldable pub finish : Option End → Source → Bytes → ℕ → ℕ → Result Fault Line
finish e s buffer linesize capacity = elim (keeps e) [
  | true ↦ elim (ltb (length buffer) (grow (length buffer) linesize capacity)) [
    | false ↦ failed overflow
    | true ↦ ok (record {
      errno = none;
      line = some buffer;
      linesize = grow (length buffer) linesize linesize;
      capacity = grow (length buffer) linesize capacity;
      source = s;
    })
  ]
  | false ↦ ok (record { errno = e; line = none; linesize = linesize; capacity = 0; source = s })
]
  where
    keeps : Option End → Bool
    keeps none = true
    keeps (some eof) = ltb 0 (length buffer)
    keeps (some (failure e)) = false

-- The loop of `io_getline`, with the buffer; one unit of fuel for each byte and one more.
unfoldable pub getline_from : ℕ → Source → Bytes → ℕ → ℕ → Result Fault Line
getline_from zero s buffer linesize capacity = failed out_of_fuel
getline_from (suc fuel) s buffer linesize capacity = elim (readbyte s.pending s.arriving) [
  | stopped e t ↦ finish (some e) t buffer linesize capacity
  | byte c t ↦ elim (ltb (length buffer) (grow (length buffer) linesize capacity)) [
    | false ↦ failed overflow
    | true ↦ elim (c == 10) [
      | true ↦
          finish none t (buffer ++ c ∷ []) (grow (length buffer) linesize linesize)
            (grow (length buffer) linesize capacity)
      | false ↦
          getline_from fuel t (buffer ++ c ∷ []) (grow (length buffer) linesize linesize)
            (grow (length buffer) linesize capacity)
    ]
  ]
]

-- The bytes that will arrive.
unfoldable pub arrivals : List Arrival → Bytes
arrivals [] = []
arrivals (reads c cs ∷ later) = c ∷ (cs ++ arrivals later)
arrivals (_ ∷ later) = arrivals later

unfoldable pub stream : Source → Bytes
stream s = s.pending ++ arrivals s.arriving

-- `io_getline` with `*linesize` and the size that is allocated at `*line`.
unfoldable pub io_getline : Source → ℕ → ℕ → Result Fault Line
io_getline s linesize capacity = getline_from (suc (length (stream s))) s [] linesize capacity
