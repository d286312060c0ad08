-- ===== src/Nntp/Wire.antt =====
-- The dot-stuffed article that `pts_post` writes, against a receiver that follows RFC 3977.
use nntp_tools.Prelude.{
  ℕ, ◌≡◌, ◌≢◌, refl, sym, ap, ◌∙◌, Bool, true, false, Bool-cases, ◌&&◌, inl, inr, List, [], ◌∷◌,
  ◌++◌, Option, none, some, Bytes, ◌==◌, if◌then◌else◌, arith,
}
use nntp_tools.Text.{c_string}
use nntp_tools.Nntp.Response.{crlf}

-- What `pts_post` writes for one byte of the article; the flag is `sol`.
unfoldable pub put : Bool → ℕ → Bytes
put sol c =
    if c == b'.' then if sol then b'.' ∷ c ∷ [] else c ∷ [] else if c == 10 then crlf else c ∷ []

-- The loop of `pts_post` over the article, and what it writes behind it.
unfoldable pub stuff : Bool → Bytes → Bytes
stuff sol [] = (if sol then [] else crlf) ++ (b'.' ∷ crlf)
stuff sol (c ∷ s) = put sol c ++ stuff (c == 10) s

-- What goes over the connection for an article, behind the response to POST.
unfoldable pub wire : Bytes → Bytes
wire article = stuff true (c_string article)

-- A receiver's view of a line: one leading dot is removed.
undot : Bytes → Bytes
undot [] = []
undot (c ∷ s) = if c == b'.' then s else c ∷ s

is_dot : Bytes → Bool
is_dot (c ∷ []) = c == b'.'
is_dot _ = false

add_line : Bytes → Option (List Bytes × Bytes) → Option (List Bytes × Bytes)
add_line l none = none
add_line l (some (ls, rest)) = some (l ∷ ls, rest)

-- The receiver reads lines up to CRLF; a line that is a dot alone ends the article. The result is
-- the lines of the article and the bytes behind it.
unfoldable pub receive : Bytes → Bytes → Option (List Bytes × Bytes)
unfolding undot is_dot add_line
receive cur [] = none
receive cur (c ∷ []) = none
receive cur (c ∷ d ∷ s) = elim (c == 13 && d == 10) [
  | true ↦ elim (is_dot cur) [ true ↦ some ([], s) | false ↦ add_line (undot cur) (receive [] s) ]
  | false ↦ receive (cur ++ c ∷ []) (d ∷ s)
]

-- The lines of a text; a last line with no newline counts, an empty one does not.
abbrev last_line : Bytes → List Bytes
last_line [] = []
last_line (c ∷ cur) = (c ∷ cur) ∷ []

lines_from : Bytes → Bytes → List Bytes
lines_from cur [] = last_line cur
lines_from cur (c ∷ s) = elim (c == 10) [
  | true ↦ cur ∷ lines_from [] s
  | false ↦ lines_from (cur ++ c ∷ []) s
]

pub lines : Bytes → List Bytes
unfolding lines_from
lines = lines_from []

-- A line as the poster sends it.
abbrev dotted : Bytes → Bytes
dotted [] = []
dotted (c ∷ s) = if c == b'.' then b'.' ∷ c ∷ s else c ∷ s

abbrev is_nil : Bytes → Bool
is_nil [] = true
is_nil (c ∷ s) = false

receive_line : (l t : Bytes) → receive (dotted l) (13 ∷ 10 ∷ t) ≡ add_line l (receive [] t)
unfolding receive
receive_line [] t = refl
receive_line (c ∷ l) t = ground arith

receive_byte :
    (cur : Bytes) (c d : ℕ) (t : Bytes)
    → d ≢ 10
    → receive cur (c ∷ d ∷ t) ≡ receive (cur ++ c ∷ []) (d ∷ t)
unfolding receive
receive_byte cur c d t h = ground arith

put-head : (sol : Bool) (c : ℕ) → (d : ℕ) × (t : Bytes) × (put sol c ≡ d ∷ t) × (d ≢ 10)
unfolding put
put-head sol c = elim (Bool-cases (c == b'.')) [
  | inl dot ↦ (c, if sol then c ∷ [] else [], ground arith, ground arith)
  | inr other ↦ elim (Bool-cases (c == 10)) [
    | inl lf ↦ (13, 10 ∷ [], ground arith, omega arith)
    | inr plain ↦ (c, [], ground arith, ground arith)
  ]
]

-- What the poster writes never starts with a LF.
stuff-head :
    (sol : Bool) (s rest : Bytes) → (d : ℕ) × (t : Bytes) × (stuff sol s ++ rest ≡ d ∷ t) × (d ≢ 10)
unfolding stuff put
stuff-head true [] rest = (b'.', _, refl, omega arith)
stuff-head false [] rest = (13, _, refl, omega arith)
stuff-head sol (c ∷ s) rest =
    let (d, t, e, h) = put-head sol c in (d, t ++ stuff (c == 10) s ++ rest, rw e, h)

receive_stuffed :
    (cur : Bytes) (c : ℕ) (sol : Bool) (s rest : Bytes)
    → receive cur (c ∷ (stuff sol s ++ rest)) ≡ receive (cur ++ c ∷ []) (stuff sol s ++ rest)
receive_stuffed cur c sol s rest =
    let (d, t, e, h) = stuff-head sol s rest in rw e (receive_byte cur c d t h)

dotted-concat : (x : ℕ) (l : Bytes) (c : ℕ) → dotted (x ∷ l) ++ c ∷ [] ≡ dotted (x ∷ (l ++ c ∷ []))
dotted-concat x l c = ground arith

-- A byte of a line, in the middle of it or at its start.
receive-put :
    (l : Bytes) (c : ℕ) (s rest : Bytes)
    → c ≢ 10
    → receive (dotted l) (put (is_nil l) c ++ stuff false s ++ rest)
      ≡ receive (dotted (l ++ c ∷ [])) (stuff false s ++ rest)
receive-put [] c s rest h = elim (Bool-cases (c == b'.')) [
  | inl dot ↦
      let twice : put true c ≡ b'.' ∷ c ∷ [] = unfold put in ground arith in
      let start : dotted (c ∷ []) ≡ b'.' ∷ c ∷ [] = ground arith in
      rw (twice, start)
        (receive_byte [] b'.' c (stuff false s ++ rest) h
          ∙ receive_stuffed (b'.' ∷ []) c false s rest)
  | inr other ↦
      let once : put true c ≡ c ∷ [] = unfold put in ground arith in
      let start : dotted (c ∷ []) ≡ c ∷ [] = ground arith in
      rw (once, start) (receive_stuffed [] c false s rest)
]
receive-put (x ∷ l) c s rest h =
    let once : put false c ≡ c ∷ [] = unfold put in ground arith in
    rw once (
      receive_stuffed (dotted (x ∷ l)) c false s rest
      ∙ ap (λ cur. receive cur (stuff false s ++ rest)) (dotted-concat x l c))

lines_from-lf :
    (l : Bytes) (c : ℕ) (s : Bytes) → (c == 10) ≡ true → lines_from l (c ∷ s) ≡ l ∷ lines_from [] s
unfolding lines_from
lines_from-lf l c s h = ground (arith, h)

lines_from-other :
    (l : Bytes) (c : ℕ) (s : Bytes)
    → (c == 10) ≡ false
    → lines_from l (c ∷ s) ≡ lines_from (l ++ c ∷ []) s
unfolding lines_from
lines_from-other l c s h = ground (arith, h)

is_nil-concat : (l : Bytes) (c : ℕ) → is_nil (l ++ c ∷ []) ≡ false
is_nil-concat [] c = refl
is_nil-concat (x ∷ l) c = refl

receive-stuff :
    (l s rest : Bytes)
    → receive (dotted l) (stuff (is_nil l) s ++ rest) ≡ some (lines_from l s, rest)
unfolding stuff
receive-stuff [] [] rest = unfold receive lines_from in refl
receive-stuff (x ∷ l) [] rest =
    receive_line (x ∷ l) (b'.' ∷ 13 ∷ 10 ∷ rest) ∙ (unfold receive lines_from in refl)
receive-stuff l (c ∷ s) rest = elim (Bool-cases (c == 10)) [
  | inl lf ↦
      let pair : put (is_nil l) c ≡ crlf = unfold put in ground arith in
      rw (pair, lf)
        (receive_line l (stuff true s ++ rest)
          ∙ (ap (add_line l) (receive-stuff [] s rest)
              ∙ (unfold add_line in ap (λ ls. some (ls, rest)) (sym (lines_from-lf l c s lf)))))
  | inr other ↦ rw other (
      receive-put l c s rest (ground arith)
      ∙ (rw (is_nil-concat l c) at (receive-stuff (l ++ c ∷ []) s rest)
          ∙ ap (λ ls. some (ls, rest)) (sym (lines_from-other l c s other))))
]

-- A receiver that follows RFC 3977 reads, from what the poster writes for an article and whatever
-- comes behind it, exactly the lines of the article (to its first NUL) and stops in front of the rest.
pub receive-wire :
    (article rest : Bytes)
    → receive [] (wire article ++ rest) ≡ some (lines (c_string article), rest)
unfolding wire lines
receive-wire article rest = receive-stuff [] (c_string article) rest
