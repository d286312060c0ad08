-- ===== src/Io/Input/Tests.antt =====
-- Runs of `io_getline`, and its theorem at a concrete input.
use nntp_tools.Prelude.{◌≡◌, refl, [], ◌∷◌, ◌++◌, none, some, codes, ok, failed}
use nntp_tools.Io.Input.{
  eof, interrupted, closed, reads, Source, Line, fill, readbyte, grow, finish, getline_from,
  arrivals, stream, io_getline, overflow,
}
use nntp_tools.Io.Input.Lines.{IsRead, text_of, stop, io_getline-IsRead}

-- Two lines in two pieces, the last with no newline.
abbrev pieces : Source
pieces = record {
  pending = codes "20";
  arriving = interrupted ∷ reads b'0' (10 ∷ codes "2") ∷ closed ∷ [];
}

first_line :
    io_getline pieces 0 0
    ≡ ok (record {
      errno = none;
      line = some (codes "200" ++ 10 ∷ []);
      linesize = 64;
      capacity = 64;
      source = record { pending = codes "2"; arriving = closed ∷ [] };
    })
unfolding io_getline getline_from readbyte fill grow finish arrivals stream
first_line = refl

io_getline-IsRead_example :
    (r : Line) × (io_getline pieces 0 0 ≡ ok r)
    × IsRead (stream pieces) (text_of pieces) (stop pieces.arriving) r
io_getline-IsRead_example = io_getline-IsRead pieces 0

at_end :
    io_getline (record { pending = []; arriving = closed ∷ [] }) 64 64
    ≡ ok (record {
      errno = some eof;
      line = none;
      linesize = 64;
      capacity = 0;
      source = record { pending = []; arriving = [] };
    })
unfolding io_getline getline_from readbyte fill grow finish arrivals stream
at_end = refl

-- The next call with what the last one has left.
behind_end : io_getline pieces 64 0 ≡ failed overflow
unfolding io_getline getline_from readbyte fill grow finish arrivals stream
behind_end = refl
