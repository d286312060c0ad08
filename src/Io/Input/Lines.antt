-- ===== src/Io/Input/Lines.antt =====
-- `io_getline` reads lines off the stream, in a buffer that it does not overflow.
use mathlib.Core.Path.{subst}
use nntp_tools.Prelude.{
  ◌⊎◌, ℕ, zero, suc, ◌≤◌, ◌<◌, ◌≡◌, ◌≢◌, refl, sym, ap, ◌∙◌, true, false, List, [], ◌∷◌, ◌++◌,
  append-nil, append_assoc, none, some, Bytes, length, ltb, ◌==◌, ok, All, All-append,
  length-append, arith, Bool-cases, inl, inr,
}
use nntp_tools.Io.{etimedout}
use nntp_tools.Io.Input.{
  End, eof, failure, Arrival, wait_fails, read_fails, interrupted, closed, reads, Source, Read,
  byte, stopped, fill, readbyte, Line, grow, finish, getline_from, arrivals, stream, io_getline,
}

-- The bytes that arrive before the reading stops for the first time, and why it stops: the end of the
-- file, an error, or the timeout behind the last arrival.
pub arrived : List Arrival → Bytes
arrived [] = []
arrived (wait_fails e ∷ later) = []
arrived (read_fails e ∷ later) = []
arrived (interrupted ∷ later) = arrived later
arrived (closed ∷ later) = []
arrived (reads c cs ∷ later) = c ∷ (cs ++ arrived later)

pub stop : List Arrival → End
stop [] = failure etimedout
stop (wait_fails e ∷ later) = failure e
stop (read_fails e ∷ later) = failure e
stop (interrupted ∷ later) = stop later
stop (closed ∷ later) = eof
stop (reads c cs ∷ later) = stop later

pub text_of : Source → Bytes
text_of s = s.pending ++ arrived s.arriving

-- What reading a byte does to the stream, to the text in front of the stop, and where that is reached.
abbrev IsNext : Bytes → Bytes → End → Read → Type 0
IsNext whole text e (byte c s) =
    (whole ≡ c ∷ stream s) × (text ≡ c ∷ text_of s) × (e ≡ stop s.arriving)
IsNext whole text e (stopped d s) = (whole ≡ stream s) × (text ≡ []) × (e ≡ d)

fill-IsNext :
    (later : List Arrival) → IsNext (arrivals later) (arrived later) (stop later) (fill later)
unfolding fill arrivals stream arrived stop text_of
fill-IsNext [] = (refl, refl, refl)
fill-IsNext (wait_fails e ∷ later) = (refl, refl, refl)
fill-IsNext (read_fails e ∷ later) = (refl, refl, refl)
fill-IsNext (interrupted ∷ later) = fill-IsNext later
fill-IsNext (closed ∷ later) = (refl, refl, refl)
fill-IsNext (reads c cs ∷ later) = (refl, refl, refl)

readbyte-IsNext :
    (p : Bytes) (later : List Arrival)
    → IsNext (p ++ arrivals later) (p ++ arrived later) (stop later) (readbyte p later)
unfolding readbyte
readbyte-IsNext [] later = fill-IsNext later
readbyte-IsNext (c ∷ p) later = unfold stream text_of in (refl, refl, refl)

grow-lt : (used linesize : ℕ) → used ≤ linesize → used < grow used linesize linesize
unfolding grow
grow-lt used linesize h = ground arith

-- A buffer that can be passed to the next call.
abbrev IsAllocated : Line → Type 0
IsAllocated r = r.capacity ≡ r.linesize

-- What `io_getline` has read of the bytes of a stream when it returns, by the text in front of the stop and
-- the reason of that: the line up to the first newline, where the text has one; the whole text, where
-- it has none, is not empty and the end of the file stops it; or nothing, with the reason.
pub data IsRead (whole text : Bytes) (e : End) (r : Line) : Type 0 where
  a_line :
      (l rest : Bytes)
      → All (λ c. c ≢ 10) l
      → text ≡ (l ++ 10 ∷ []) ++ rest
      → r.line ≡ some (l ++ 10 ∷ [])
      → r.errno ≡ none
      → (l ++ 10 ∷ []) ++ stream r.source ≡ whole
      → r.capacity ≡ r.linesize
      → IsRead whole text e r
  a_last_line :
      text ≢ []
      → All (λ c. c ≢ 10) text
      → e ≡ eof
      → r.line ≡ some text
      → r.errno ≡ none
      → text ++ stream r.source ≡ whole
      → r.capacity ≡ r.linesize
      → IsRead whole text e r
  no_line :
      All (λ c. c ≢ 10) text
      → (e ≡ eof → text ≡ [])
      → r.line ≡ none
      → r.errno ≡ some e
      → text ++ stream r.source ≡ whole
      → IsRead whole text e r

same-IsRead :
    {w x : Bytes} {d e : End} (whole text : Bytes) (r : Line)
    → IsRead whole text d r
    → whole ≡ w
    → text ≡ x
    → d ≡ e
    → IsRead w x e r
same-IsRead {w} {x} {d} whole text r i p q h =
    subst (λ e. IsRead w x e r) h
      (subst (λ t. IsRead w t d r) q (subst (λ t. IsRead t text d r) p i))

finish-newline :
    (s : Source) (buffer : Bytes) (linesize : ℕ)
    → length buffer ≤ linesize
    → finish none s buffer linesize linesize
      ≡ ok (record {
        errno = none;
        line = some buffer;
        linesize = grow (length buffer) linesize linesize;
        capacity = grow (length buffer) linesize linesize;
        source = s;
      })
unfolding finish
finish-newline s buffer linesize h =
    let inside : ltb (length buffer) (grow (length buffer) linesize linesize) ≡ true =
      ground (arith, grow-lt (length buffer) linesize h) in
    rw (inside, finish) refl

finish-eof :
    (s : Source) (c : ℕ) (buffer : Bytes) (linesize : ℕ)
    → length (c ∷ buffer) ≤ linesize
    → finish (some eof) s (c ∷ buffer) linesize linesize
      ≡ finish none s (c ∷ buffer) linesize linesize
unfolding finish
finish-eof s c buffer linesize h =
    let some_byte : ltb 0 (length (c ∷ buffer)) ≡ true = ground arith in rw (some_byte, finish) refl

finish-IsRead :
    (e : End) (s : Source) (buffer : Bytes) (linesize : ℕ)
    → All (λ c. c ≢ 10) buffer
    → length buffer ≤ linesize
    → (r : Line) × (finish (some e) s buffer linesize linesize ≡ ok r)
      × IsRead (buffer ++ stream s) buffer e r
finish-IsRead eof s [] linesize plain h = (
  record { errno = some eof; line = none; linesize = linesize; capacity = 0; source = s },
  (unfold finish in refl),
  no_line tt (λ _. refl) refl refl refl,
)
finish-IsRead eof s (c ∷ buffer) linesize plain h = (
  _,
  finish-eof s c buffer linesize h ∙ finish-newline s (c ∷ buffer) linesize h,
  a_last_line (cc) plain refl refl refl refl refl,
)
finish-IsRead (failure e) s buffer linesize plain h = (
  record { errno = some (failure e); line = none; linesize = linesize; capacity = 0; source = s },
  (unfold finish in refl),
  no_line plain (λ h. absurd (cc h)) refl refl refl,
)

-- One round of the loop that reads a byte.
getline_from-newline :
    (fuel c : ℕ) (s t : Source) (buffer : Bytes) (linesize : ℕ)
    → length buffer ≤ linesize
    → readbyte s.pending s.arriving ≡ byte c t
    → (c == 10) ≡ true
    → getline_from (suc fuel) s buffer linesize linesize
      ≡ finish none t
          (buffer ++ c ∷ [])
          (grow (length buffer) linesize linesize)
          (grow (length buffer) linesize linesize)
unfolding getline_from
getline_from-newline fuel c s t buffer linesize h reply lf =
    let inside : ltb (length buffer) (grow (length buffer) linesize linesize) ≡ true =
      ground (arith, grow-lt (length buffer) linesize h) in
    rw (reply, getline_from) (rw (inside, lf) refl)

getline_from-other :
    (fuel c : ℕ) (s t : Source) (buffer : Bytes) (linesize : ℕ)
    → length buffer ≤ linesize
    → readbyte s.pending s.arriving ≡ byte c t
    → (c == 10) ≡ false
    → getline_from (suc fuel) s buffer linesize linesize
      ≡ getline_from fuel t
          (buffer ++ c ∷ [])
          (grow (length buffer) linesize linesize)
          (grow (length buffer) linesize linesize)
unfolding getline_from
getline_from-other fuel c s t buffer linesize h reply other =
    let inside : ltb (length buffer) (grow (length buffer) linesize linesize) ≡ true =
      ground (arith, grow-lt (length buffer) linesize h) in
    rw (reply, getline_from) (rw (inside, other) refl)

getline_from-stopped :
    (fuel : ℕ) (e : End) (s t : Source) (buffer : Bytes) (linesize : ℕ)
    → readbyte s.pending s.arriving ≡ stopped e t
    → getline_from (suc fuel) s buffer linesize linesize
      ≡ finish (some e) t buffer linesize linesize
unfolding getline_from
getline_from-stopped fuel e s t buffer linesize reply = rw (reply, getline_from) refl

Read-cases :
    (r : Read)
    → ((c : ℕ) × (t : Source) × (r ≡ byte c t)) ⊎ ((e : End) × (t : Source) × (r ≡ stopped e t))
Read-cases (byte c t) = inl (c, t, refl)
Read-cases (stopped e t) = inr (e, t, refl)

-- What the next round of the loop needs and gives, where the byte is no newline.
grown :
    (c : ℕ) (buffer : Bytes) (linesize : ℕ)
    → length buffer ≤ linesize
    → length (buffer ++ c ∷ []) ≤ grow (length buffer) linesize linesize
grown c buffer linesize h =
    omega (arith, length-append buffer (c ∷ []), grow-lt (length buffer) linesize h)

getline_from-IsRead :
    (fuel : ℕ) (s : Source) (buffer : Bytes) (linesize : ℕ)
    → All (λ c. c ≢ 10) buffer
    → length buffer ≤ linesize
    → length (stream s) < fuel
    → (r : Line) × (getline_from fuel s buffer linesize linesize ≡ ok r)
      × IsRead (buffer ++ stream s) (buffer ++ text_of s) (stop s.arriving) r
getline_from-IsRead zero s buffer linesize plain h enough = absurd (omega (arith, enough))
getline_from-IsRead (suc fuel) s buffer linesize plain h enough =
    elim (Read-cases (readbyte s.pending s.arriving)) [
      | inr (e, t, reply) ↦
          let (same, nothing, reason) =
            subst (IsNext (stream s) (text_of s) (stop s.arriving)) reply next in
          let (r, returns, i) = finish-IsRead e t buffer linesize plain h in
          (
            r,
            getline_from-stopped fuel e s t buffer linesize reply ∙ returns,
            same-IsRead (buffer ++ stream t) buffer r i (ap (λ w. buffer ++ w) (sym same))
                (sym (ap (λ w. buffer ++ w) nothing ∙ append-nil buffer)) (sym reason),
          )
      | inl (c, t, reply) ↦
          let (same, ahead, reason) =
            subst (IsNext (stream s) (text_of s) (stop s.arriving)) reply next in
          let whole : (buffer ++ c ∷ []) ++ stream t ≡ buffer ++ stream s =
            append_assoc buffer (c ∷ []) (stream t) ∙ ap (λ w. buffer ++ w) (sym same) in
          let text : (buffer ++ c ∷ []) ++ text_of t ≡ buffer ++ text_of s =
            append_assoc buffer (c ∷ []) (text_of t) ∙ ap (λ w. buffer ++ w) (sym ahead) in
          let room = grown c buffer linesize h in
          elim (Bool-cases (c == 10)) [
            | inl lf ↦
                let newline : c ≡ 10 = ground (arith, lf) in
                (
                  _,
                  getline_from-newline fuel c s t buffer linesize h reply lf
                      ∙ finish-newline t _ _ room,
                  a_line buffer (text_of t) plain
                      (sym text ∙ ap (λ d. (buffer ++ d ∷ []) ++ text_of t) newline)
                      (ap (λ d. some (buffer ++ d ∷ [])) newline) refl
                      (ap (λ d. (buffer ++ d ∷ []) ++ stream t) (sym newline) ∙ whole) refl,
                )
            | inr other ↦
                let more : All (λ c. c ≢ 10) (buffer ++ c ∷ []) =
                  All-append _ buffer (c ∷ []) plain (ground (arith, other), tt) in
                let (r, returns, i) =
                  getline_from-IsRead fuel t (buffer ++ c ∷ [])
                    (grow (length buffer) linesize linesize) more room
                    (omega (arith, enough, ap length same)) in
                (
                  r,
                  getline_from-other fuel c s t buffer linesize h reply other ∙ returns,
                  same-IsRead _ _ r i whole text (sym reason),
                )
          ]
    ]
  where
    next : IsNext (stream s) (text_of s) (stop s.arriving) (readbyte s.pending s.arriving)
    next = unfold stream text_of in readbyte-IsNext s.pending s.arriving

-- Whatever the system does, `io_getline` with a buffer of the size that `*linesize` says returns and
-- stores no byte outside its buffer. Where a newline arrives before the reading stops, it gives the bytes
-- up to the first newline, that included, and leaves those behind it; where none does and the end of the
-- file stops the reading behind a byte or more, it gives all of these; then the buffer has again the size
-- that `*linesize` says. Otherwise it gives no line, but the end of the file or the error that stopped
-- it, and has taken what arrived before.
pub io_getline-IsRead :
    (s : Source) (linesize : ℕ)
    → (r : Line) × (io_getline s linesize linesize ≡ ok r)
      × IsRead (stream s) (text_of s) (stop s.arriving) r
unfolding io_getline
io_getline-IsRead s linesize = getline_from-IsRead _ s [] linesize tt (omega arith) (omega arith)
