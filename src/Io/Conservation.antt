-- ===== src/Io/Conservation.antt =====
-- No byte that is written is lost, doubled or overtaken, and the buffer does not overflow.
use nntp_tools.Prelude.{
  ℕ, zero, suc, ◌+◌, ◌-◌, ◌≤◌, ◌<◌, ◌≡◌, refl, sym, ap, ◌∙◌, List, [], ◌∷◌, ◌++◌, append_assoc,
  append-nil, none, some, Bytes, length, take, drop, ◌==◌, length-append, arith, Bool-cases,
  Option-cases, inl, inr,
}
use nntp_tools.Io.{
  buffer_size, Errno, Event, wait_fails, write_fails, interrupted, writes, Io, flush_from, io_flush,
  Wrote, count, fill, make_room, write_from, io_write,
}

-- Everything that the stream has been given, in order.
pub given : Io → Bytes
given io = io.sent ++ io.output

take-drop : (n : ℕ) (s : Bytes) → take n s ++ drop n s ≡ s
take-drop zero s = refl
take-drop (suc n) [] = refl
take-drop (suc n) (c ∷ s) = ap (◌∷◌ c) (take-drop n s)

flush_from-given :
    (events : List Event) (out sent : Bytes) → given (flush_from events out sent).1 ≡ sent ++ out
unfolding flush_from given
flush_from-given events [] sent = refl
flush_from-given [] (c ∷ out) sent = refl
flush_from-given (wait_fails e ∷ events) (c ∷ out) sent = refl
flush_from-given (write_fails e ∷ events) (c ∷ out) sent = refl
flush_from-given (interrupted ∷ events) (c ∷ out) sent = flush_from-given events (c ∷ out) sent
flush_from-given (writes n ∷ events) (c ∷ out) sent =
    flush_from-given events (drop n (c ∷ out)) (sent ++ take n (c ∷ out))
    ∙ (append_assoc sent (take n (c ∷ out)) (drop n (c ∷ out))
        ∙ ap (λ t. sent ++ t) (take-drop n (c ∷ out)))

length-drop-le : (n : ℕ) (s : Bytes) → length (drop n s) ≤ length s
length-drop-le zero s = omega arith
length-drop-le (suc n) [] = omega arith
length-drop-le (suc n) (c ∷ s) = omega (arith, length-drop-le n s)

-- What a flush leaves is no longer than before, and empty when there is no error.
length-flush_from-le :
    (events : List Event) (out sent : Bytes)
    → length ((flush_from events out sent).1.output) ≤ length out
unfolding flush_from
length-flush_from-le events [] sent = omega arith
length-flush_from-le [] (c ∷ out) sent = omega arith
length-flush_from-le (wait_fails e ∷ events) (c ∷ out) sent = omega arith
length-flush_from-le (write_fails e ∷ events) (c ∷ out) sent = omega arith
length-flush_from-le (interrupted ∷ events) (c ∷ out) sent =
    length-flush_from-le events (c ∷ out) sent
length-flush_from-le (writes n ∷ events) (c ∷ out) sent = omega (
  arith,
  length-flush_from-le events (drop n (c ∷ out)) (sent ++ take n (c ∷ out)),
  length-drop-le n (c ∷ out),
)

flush_from-empty :
    (events : List Event) (out sent : Bytes)
    → (flush_from events out sent).0 ≡ none
    → (flush_from events out sent).1.output ≡ []
unfolding flush_from
flush_from-empty events [] sent h = refl
flush_from-empty [] (c ∷ out) sent h = cc h
flush_from-empty (wait_fails e ∷ events) (c ∷ out) sent h = cc h
flush_from-empty (write_fails e ∷ events) (c ∷ out) sent h = cc h
flush_from-empty (interrupted ∷ events) (c ∷ out) sent h = flush_from-empty events (c ∷ out) sent h
flush_from-empty (writes n ∷ events) (c ∷ out) sent h =
    flush_from-empty events (drop n (c ∷ out)) (sent ++ take n (c ∷ out)) h

make_room-given : (io : Io) → given (make_room io).1 ≡ given io
unfolding make_room io_flush given
make_room-given io = elim (Bool-cases (length io.output == buffer_size)) [
  | inl full ↦ rw (full, make_room) (flush_from-given io.events io.output io.sent)
  | inr room ↦ rw (room, make_room) refl
]

make_room-fits :
    (io : Io) → length io.output ≤ buffer_size → length ((make_room io).1.output) ≤ buffer_size
unfolding make_room io_flush
make_room-fits io h = elim (Bool-cases (length io.output == buffer_size)) [
  | inl full ↦
      rw (full, make_room) (omega (arith, h, length-flush_from-le io.events io.output io.sent))
  | inr room ↦ rw (room, make_room) h
]

make_room-room :
    (io : Io)
    → length io.output ≤ buffer_size
    → (make_room io).0 ≡ none
    → length ((make_room io).1.output) < buffer_size
unfolding make_room io_flush
make_room-room io h none_fails = elim (Bool-cases (length io.output == buffer_size)) [
  | inl full ↦
      let empty =
        flush_from-empty io.events io.output io.sent (rw (full, make_room) at none_fails) in
      rw (full, make_room) (rw (empty) (omega arith))
  | inr room ↦ rw (room, make_room) (ground (arith, room, h))
]

length-take-le : (n : ℕ) (s : Bytes) → length (take n s) ≤ n
length-take-le zero s = omega arith
length-take-le (suc n) [] = omega arith
length-take-le (suc n) (c ∷ s) = omega (arith, length-take-le n s)

length-take : (n : ℕ) (s : Bytes) → n ≤ length s → length (take n s) ≡ n
length-take zero s h = refl
length-take (suc n) [] h = absurd (omega (arith, h))
length-take (suc n) (c ∷ s) h = ap suc (length-take n s (omega (arith, h)))

length-drop : (n : ℕ) (s : Bytes) → length (drop n s) ≡ length s - n
length-drop zero s = omega arith
length-drop (suc n) [] = omega arith
length-drop (suc n) (c ∷ s) = length-drop n s ∙ omega arith

fill-given : (io : Io) (left : Bytes) → given (fill io left) ≡ given io ++ take (count io left) left
unfolding fill given
fill-given io left = sym (append_assoc io.sent io.output (take (count io left) left))

fill-fits :
    (io : Io) (left : Bytes)
    → length io.output ≤ buffer_size
    → length ((fill io left).output) ≤ buffer_size
unfolding fill
fill-fits io left h = omega (
  arith,
  h,
  length-append io.output (take (count io left) left),
  length-take-le (count io left) left,
)

-- What `io_write` has done of a text when it returns: it has given the stream a first part of the
-- text, of the length that it reports, in order, and all of it unless there is an error.
pub record IsWritten (io : Io) (text : Bytes) (so_far : ℕ) (w : Wrote) : Type 0 where
  pub done : Bytes
  pub left : Bytes
  pub parts : text ≡ done ++ left
  pub counted : w.wrote ≡ so_far + length done
  pub order : given w.stream ≡ given io ++ done
  pub fits : length w.stream.output ≤ buffer_size
  pub whole : w.errno ≡ none → left ≡ []

write_from-fails :
    (fuel : ℕ) (io : Io) (c : ℕ) (left : Bytes) (so_far : ℕ) (e : Errno)
    → (make_room io).0 ≡ some e
    → write_from (suc fuel) io (c ∷ left) so_far
      ≡ some (record { errno = some e; wrote = so_far; stream = (make_room io).1 })
unfolding write_from
write_from-fails fuel io c left so_far e h = rw (h, write_from) refl

write_from-round :
    (fuel : ℕ) (io : Io) (c : ℕ) (left : Bytes) (so_far : ℕ)
    → (make_room io).0 ≡ none
    → write_from (suc fuel) io (c ∷ left) so_far
      ≡ write_from fuel
          (fill (make_room io).1 (c ∷ left))
          (drop (count (make_room io).1 (c ∷ left)) (c ∷ left))
          (so_far + count (make_room io).1 (c ∷ left))
unfolding write_from
write_from-round fuel io c left so_far h = rw (h, write_from) refl

-- A round in front of the rest: what the rest has written follows what the round has copied.
IsWritten-round :
    {io : Io} {text : Bytes} {so_far : ℕ} {w : Wrote} (ready : Io)
    → given ready ≡ given io
    → IsWritten (fill ready text) (drop (count ready text) text) (so_far + count ready text) w
    → IsWritten io text so_far w
IsWritten-round {io} {text} {so_far} {w} ready same i = record {
  done = take (count ready text) text ++ i.done;
  left = i.left;
  parts =
      sym (take-drop (count ready text) text)
      ∙ (ap (λ t. take (count ready text) text ++ t) i.parts
          ∙ sym (append_assoc (take (count ready text) text) i.done i.left));
  counted = omega (
    arith,
    i.counted,
    length-append (take (count ready text) text) i.done,
    length-take (count ready text) text (omega arith),
  );
  order =
      i.order
      ∙ (ap (λ t. t ++ i.done)
            (fill-given ready text ∙ ap (λ t. t ++ take (count ready text) text) same)
          ∙ append_assoc (given io) (take (count ready text) text) i.done);
  fits = i.fits;
  whole = i.whole;
}

write_from-IsWritten :
    (fuel : ℕ) (io : Io) (text : Bytes) (so_far : ℕ)
    → length text ≤ fuel
    → length io.output ≤ buffer_size
    → (w : Wrote) × (write_from fuel io text so_far ≡ some w) × IsWritten io text so_far w
write_from-IsWritten fuel io [] so_far enough fits = (
  record { errno = none; wrote = so_far; stream = io },
  unfold write_from in refl,
  record {
    done = [];
    left = [];
    parts = refl;
    counted = omega arith;
    order = sym (append-nil (given io));
    fits = fits;
    whole = λ _. refl;
  },
)
write_from-IsWritten zero io (c ∷ left) so_far enough fits = absurd (omega (arith, enough))
write_from-IsWritten (suc fuel) io (c ∷ left) so_far enough fits =
    elim (Option-cases (make_room io).0) [
      | inr (e, fails) ↦ (
        record { errno = some e; wrote = so_far; stream = (make_room io).1 },
        write_from-fails fuel io c left so_far e fails,
        record {
          done = [];
          left = c ∷ left;
          parts = refl;
          counted = omega arith;
          order = make_room-given io ∙ sym (append-nil (given io));
          fits = make_room-fits io fits;
          whole = λ h. cc h;
        },
      )
      | inl clear ↦
          let ready = (make_room io).1 in
          let room = make_room-room io fits clear in
          let shorter : length (drop (count ready (c ∷ left)) (c ∷ left)) ≤ fuel =
            omega (arith, enough, room, length-drop (count ready (c ∷ left)) (c ∷ left)) in
          let (w, returns, i) =
            write_from-IsWritten fuel (fill ready (c ∷ left))
              (drop (count ready (c ∷ left)) (c ∷ left)) (so_far + count ready (c ∷ left)) shorter
              (fill-fits ready (c ∷ left) (omega (arith, room))) in
          (
            w,
            write_from-round fuel io c left so_far clear ∙ returns,
            IsWritten-round ready (make_room-given io) i,
          )
    ]

-- Whatever the system does, `io_write` on a buffer that has not overflowed returns, and has taken a
-- first part of the text, of the length that it reports, and all of it unless it reports an error:
-- what has been sent and what is in the buffer is what was there before and that part behind it, in
-- order, and the buffer has not overflowed.
pub io_write-IsWritten :
    (io : Io) (text : Bytes)
    → length io.output ≤ buffer_size
    → (w : Wrote) × (io_write io text ≡ some w) × IsWritten io text 0 w
unfolding io_write
io_write-IsWritten io text fits = write_from-IsWritten (length text) io text 0 (omega arith) fits

-- `io_flush` sends a first part of the buffer and keeps the rest, in order; without an error it
-- keeps nothing.
pub io_flush-given :
    (io : Io)
    → (given (io_flush io).1 ≡ given io) × ((io_flush io).0 ≡ none → (io_flush io).1.output ≡ [])
unfolding io_flush
io_flush-given io = (
  (unfold given in flush_from-given io.events io.output io.sent),
  flush_from-empty io.events io.output io.sent,
)
