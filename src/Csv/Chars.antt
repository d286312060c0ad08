-- ===== src/Csv/Chars.antt =====
-- What `csv_quote` makes of one byte, and what `read_csv` makes of that.
use native.Mathlib.Nat.{zero-add}
use nntp_tools.Prelude.{
  passes_below, passes_below_lem, ℕ, suc, ◌+◌, ◌/◌, ◌%◌, ◌≤◌, ◌<◌, ◌≡◌, refl, ◌∙◌, ap, true, false,
  ◌||◌, [], ◌∷◌, ◌++◌, Bytes, length, ltb, ◌==◌, if◌then◌else◌, equal, equal_iff, ok, arith,
  append-nil, append_assoc, ◌≢◌, All, inl, inr, Bool-cases,
}
use nntp_tools.Text.{is_digit}
use nntp_tools.Csv.{quote_char, escape, read_quoted}

-- Three octal digits.
abbrev octal3 : ℕ → Bytes
octal3 c = (b'0' + c / 64) ∷ (b'0' + c / 8 % 8) ∷ (b'0' + c % 8) ∷ []

-- A byte as it is quoted: a byte of 128 or more takes eleven octal digits.
abbrev quoted : ℕ → Bytes
quoted c =
    if c == b'"' || c == b'\\'
    then b'\\' ∷ c ∷ []
    else if ltb c 0x20 || c == 127
    then b'\\' ∷ octal3 c
    else if ltb c 128
    then c ∷ []
    else b'\\' ∷ (b'3' ∷ b'7' ∷ b'7' ∷ b'7' ∷ b'7' ∷ b'7' ∷ b'7' ∷ b'7' ∷ octal3 (256 + c))

-- The digits that are left over when three of the eleven have been read.
abbrev high_tail : ℕ → Bytes
high_tail c = b'7' ∷ b'7' ∷ b'7' ∷ b'7' ∷ b'7' ∷ octal3 (256 + c)

-- A byte as it is read back.
unfoldable pub restored : ℕ → Bytes
restored c = if ltb c 128 then c ∷ [] else 255 ∷ high_tail c

quote_char_table : passes_below (λ c. equal (quote_char c) (quoted c)) 256 ≡ true
unfolding passes_below quote_char equal
quote_char_table = refl

quote_char-quoted : (c : ℕ) → c < 256 → quote_char c ≡ quoted c
quote_char-quoted c h =
    (equal_iff _ _).0
      (passes_below_lem (λ c. equal (quote_char c) (quoted c)) 256 c h quote_char_table)

escape-octal3 : (c : ℕ) (s : Bytes) → c < 256 → escape (octal3 c ++ s) ≡ ok (c, s)
unfolding escape
escape-octal3 c s h = ground arith

high_tail-digits : (c : ℕ) → c < 256 → 128 ≤ c → All (λ d. is_digit d ≡ true) (high_tail c)
high_tail-digits c h k =
    (refl, (refl, (refl, (refl, (refl, (ground arith, (ground arith, (ground arith, tt))))))))

quote_char-high : (c : ℕ) → c < 256 → 128 ≤ c → quote_char c ≡ b'\\' ∷ (octal3 255 ++ high_tail c)
quote_char-high c h k = quote_char-quoted c h ∙ ground arith

-- One round of the loop of `read_quoted`.
module _ (fuel : ℕ) (t s : Bytes) where
  read_quoted-plain :
      (c : ℕ)
      → c ≢ b'"'
      → c ≢ b'\\'
      → read_quoted (suc fuel) t (c ∷ s) ≡ read_quoted fuel (t ++ c ∷ []) s
  unfolding read_quoted
  read_quoted-plain c h k = ground arith

  read_quoted-escape :
      (r : Bytes) (c : ℕ)
      → escape s ≡ ok (c, r)
      → read_quoted (suc fuel) t (b'\\' ∷ s) ≡ read_quoted fuel (t ++ c ∷ []) r
  unfolding read_quoted
  read_quoted-escape r c e = ground (arith, e)

escape-char : (c : ℕ) (s : Bytes) → is_digit c ≡ false → escape (c ∷ s) ≡ ok (c, s)
unfolding escape
escape-char c s h = ground (arith, h)

read_quoted-low :
    (fuel c : ℕ) (t s : Bytes)
    → c < 128
    → read_quoted (suc fuel) t (quote_char c ++ s) ≡ read_quoted fuel (t ++ c ∷ []) s
read_quoted-low fuel c t s h = elim (Bool-cases (c == b'"' || c == b'\\')) [
  | inl special ↦
      rw (quote_char-quoted c (omega arith), special)
        (read_quoted-escape fuel t (c ∷ s) s c (escape-char c s (ground arith)))
  | inr plain ↦ elim (Bool-cases (ltb c 0x20 || c == 127)) [
    | inl control ↦
        rw (quote_char-quoted c (omega arith), plain, control)
          (read_quoted-escape fuel t (octal3 c ++ s) s c (escape-octal3 c s (omega arith)))
    | inr graphic ↦
        let low : ltb c 128 ≡ true = ground arith in
        rw (quote_char-quoted c (omega arith), plain, graphic, low)
          (read_quoted-plain fuel t s c (ground arith) (ground arith))
  ]
]

-- The digits behind the third are plain bytes.
read_quoted-digits :
    (fuel : ℕ) (d t s : Bytes)
    → All (λ c. is_digit c ≡ true) d
    → read_quoted (length d + fuel) t (d ++ s) ≡ read_quoted fuel (t ++ d) s
read_quoted-digits fuel [] t s _ = rw (zero-add, append-nil)
read_quoted-digits fuel (c ∷ d) t s (h, hs) =
    let more : suc (length d) + fuel ≡ suc (length d + fuel) = omega arith in
    rw more (
      read_quoted-plain (length d + fuel) t (d ++ s) c (ground arith) (ground arith)
      ∙ (read_quoted-digits fuel d (t ++ c ∷ []) s hs
          ∙ ap (λ u. read_quoted fuel u s) (append_assoc t (c ∷ []) d)))

-- Reading goes over the quoted byte and keeps what it stands for.
pub read_quoted-quote_char :
    (fuel c : ℕ) (t s : Bytes)
    → c < 256
    → read_quoted (length (restored c) + fuel) t (quote_char c ++ s)
      ≡ read_quoted fuel (t ++ restored c) s
read_quoted-quote_char fuel c t s h = elim (Bool-cases (ltb c 128)) [
  | inl low ↦
      let one : restored c ≡ c ∷ [] = unfold restored in ground arith in
      let round : length (c ∷ []) + fuel ≡ suc fuel = omega arith in
      rw (one, round) (read_quoted-low fuel c t s (ground arith))
  | inr high ↦
      let nine : restored c ≡ 255 ∷ high_tail c = unfold restored in ground arith in
      let rounds : length (255 ∷ high_tail c) + fuel ≡ suc (length (high_tail c) + fuel) =
        omega arith in
      let digits : All (λ d. is_digit d ≡ true) (high_tail c) =
        high_tail-digits c h (ground arith) in
      rw (quote_char-high c h (ground arith), nine, rounds)
        (read_quoted-escape (length (high_tail c) + fuel) t (octal3 255 ++ (high_tail c ++ s))
            (high_tail c ++ s) 255 (escape-octal3 255 (high_tail c ++ s) (omega arith))
          ∙ (read_quoted-digits fuel (high_tail c) (t ++ 255 ∷ []) s digits
              ∙ ap (λ u. read_quoted fuel u s) (append_assoc t (255 ∷ []) (high_tail c))))
]

pub length-restored-le : (c : ℕ) → c < 256 → length (restored c) ≤ length (quote_char c)
unfolding restored
length-restored-le c h = rw (quote_char-quoted c h) (ground arith)

pub length-restored_high : (c : ℕ) → 128 ≤ c → length (restored c) ≡ 9
unfolding restored
length-restored_high c h = ground arith

pub restored-low : (c : ℕ) → c < 128 → restored c ≡ c ∷ []
unfolding restored
restored-low c h = ground arith
