-- ===== src/Io/Tests.antt =====
-- Runs of the output buffer, and its theorems at a stream whose peer takes three bytes and then stops.
use nntp_tools.Prelude.{◌≡◌, refl, [], ◌∷◌, none, some, codes, arith}
use nntp_tools.Io.{etimedout, interrupted, writes, Io, flush_from, io_flush, Wrote, io_write}
use nntp_tools.Io.Conservation.{given, IsWritten, io_write-IsWritten, io_flush-given}

abbrev slow : Io
slow = record { output = codes "POST"; sent = []; events = interrupted ∷ writes 3 ∷ [] }

slow_flush :
    io_flush slow ≡ (some etimedout, record { output = codes "T"; sent = codes "POS"; events = [] })
unfolding io_flush flush_from
slow_flush = refl

io_write-IsWritten_example :
    (w : Wrote) × (io_write slow (codes "QUIT") ≡ some w) × IsWritten slow (codes "QUIT") 0 w
io_write-IsWritten_example = io_write-IsWritten slow (codes "QUIT") (omega arith)

io_flush-given_example :
    (given (io_flush slow).1 ≡ given slow)
    × ((io_flush slow).0 ≡ none → (io_flush slow).1.output ≡ [])
io_flush-given_example = io_flush-given slow
