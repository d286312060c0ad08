-- ===== src/Dates/Fields.antt =====
-- The scanners of lib/parse_date.cc in front of what they stop at.
use nntp_tools.Prelude.{
  ℕ, ◌+◌, ◌<◌, ◌-◌, ◌*◌, ◌≡◌, ◌≢◌, refl, ap, ◌∙◌, Bool, true, false, ◌||◌, [], ◌∷◌, ◌++◌, Bytes,
  All, ◌==◌, ok, arith,
}
use nntp_tools.Text.{char_at, is_digit, is_alpha}
use nntp_tools.Csv.{decimal_value}
use nntp_tools.Dates.{
  Refusal, skip_ws, parse_word, digits_from, int_end, as_int, parse_int, skip_day, skip_comma,
}

unfoldable pub AreDigits : Bytes → Type 0
AreDigits = All (λ c. is_digit c ≡ true)

unfoldable pub AreLetters : Bytes → Type 0
AreLetters = All (λ c. is_alpha c ≡ true)

abbrev pub is_blank : ℕ → Bool
is_blank c = c == b' ' || c == b'\t'

pub skip_ws-solid : (c : ℕ) (s : Bytes) → is_blank c ≡ false → skip_ws (c ∷ s) ≡ c ∷ s
unfolding skip_ws
skip_ws-solid c s h = rw (h, skip_ws) refl

pub skip_ws-space : (s : Bytes) → skip_ws (b' ' ∷ s) ≡ skip_ws s
unfolding skip_ws
skip_ws-space s = refl

pub parse_word-append :
    (w rest : Bytes)
    → AreLetters w
    → is_alpha (char_at rest 0) ≡ false
    → parse_word (w ++ rest) ≡ (w, rest)
unfolding parse_word AreLetters
parse_word-append [] [] _ h = refl
parse_word-append [] (c ∷ rest) _ h = rw (h, parse_word) refl
parse_word-append (c ∷ w) rest (hc, hw) h = rw (hc, parse_word-append w rest hw h, parse_word) refl

pub digits_from-append :
    (n : ℕ) (d rest : Bytes)
    → AreDigits d
    → is_digit (char_at rest 0) ≡ false
    → digits_from n (d ++ rest) ≡ (decimal_value n d, rest)
unfolding digits_from AreDigits decimal_value
digits_from-append n [] [] _ h = refl
digits_from-append n [] (c ∷ rest) _ h = rw (h, digits_from) refl
digits_from-append n (c ∷ d) rest (hc, hd) h =
    rw (hc, digits_from) (digits_from-append (10 * n + (c - b'0')) d rest hd h)

-- A number as the parser takes it: at least one digit.
unfoldable pub IsNumber : Bytes → Type 0
IsNumber d = (d ≢ []) × AreDigits d

as_int-fits : (n : ℕ) (rest : Bytes) → n < int_end → as_int (n, rest) ≡ ok (n, rest)
unfolding as_int
as_int-fits n rest h = ground (arith, h)

pub parse_int-append :
    (e : Refusal) (d rest : Bytes)
    → IsNumber d
    → decimal_value 0 d < int_end
    → is_digit (char_at rest 0) ≡ false
    → parse_int e (d ++ rest) ≡ ok (decimal_value 0 d, rest)
unfolding parse_int IsNumber AreDigits
parse_int-append e [] rest (n, _) b h = absurd (n refl)
parse_int-append e (c ∷ d) rest (_, hd) b h =
    rw (digits_from-append 0 (c ∷ d) rest hd h, hd.0) (as_int-fits (decimal_value 0 (c ∷ d)) rest b)

-- A number after a space.
pub parse_int-space :
    (e : Refusal) (d rest : Bytes)
    → IsNumber d
    → decimal_value 0 d < int_end
    → is_digit (char_at rest 0) ≡ false
    → parse_int e (skip_ws (b' ' ∷ (d ++ rest))) ≡ ok (decimal_value 0 d, rest)
unfolding IsNumber AreDigits
parse_int-space e [] rest (n, _) b h = absurd (n refl)
parse_int-space e (c ∷ d) rest (n, (hc, hd)) b h =
    ap (parse_int e)
      (skip_ws-space (c ∷ d ++ rest) ∙ skip_ws-solid c (d ++ rest) (ground (arith, hc)))
    ∙ parse_int-append e (c ∷ d) rest (n, (hc, hd)) b h

-- A letter is not a blank.
pub letter-not_blank : (c : ℕ) → is_alpha c ≡ true → is_blank c ≡ false
letter-not_blank c h = ground (arith, h)

-- A word after a space.
pub parse_word-space :
    (w rest : Bytes)
    → w ≢ []
    → AreLetters w
    → is_alpha (char_at rest 0) ≡ false
    → parse_word (skip_ws (b' ' ∷ (w ++ rest))) ≡ (w, rest)
unfolding AreLetters
parse_word-space [] rest n _ h = absurd (n refl)
parse_word-space (c ∷ w) rest n (hc, hw) h =
    ap parse_word
      (skip_ws-space (c ∷ w ++ rest) ∙ skip_ws-solid c (w ++ rest) (letter-not_blank c hc))
    ∙ parse_word-append (c ∷ w) rest (hc, hw) h

-- What starts with a digit has no day of the week and no blank in front of it.
pub skip_day-number : (d rest : Bytes) → IsNumber d → skip_ws (skip_day (d ++ rest)) ≡ d ++ rest
unfolding IsNumber AreDigits skip_day skip_comma AreLetters
skip_day-number [] rest (n, _) = absurd (n refl)
skip_day-number (c ∷ d) rest (n, (hc, hd)) =
    let letter : is_alpha c ≡ false = ground (arith, hc) in
    let word : parse_word (c ∷ (d ++ rest)) ≡ ([], c ∷ (d ++ rest)) =
      parse_word-append [] (c ∷ (d ++ rest)) tt letter in
    rw (word) (skip_ws-solid c (d ++ rest) (ground (arith, hc)))

pub skip_day-day :
    (day d rest : Bytes)
    → day ≢ []
    → AreLetters day
    → IsNumber d
    → skip_ws (skip_day (day ++ (b',' ∷ b' ' ∷ (d ++ rest)))) ≡ d ++ rest
unfolding IsNumber AreDigits skip_day skip_comma
skip_day-day [] d rest n _ _ = absurd (n refl)
skip_day-day (a ∷ day) [] rest n _ (m, _) = absurd (m refl)
skip_day-day (a ∷ day) (c ∷ d) rest n l (m, (hc, hd)) =
    let text = c ∷ (d ++ rest) in
    let word : parse_word ((a ∷ day) ++ (b',' ∷ b' ' ∷ text)) ≡ (a ∷ day, b',' ∷ b' ' ∷ text) =
      parse_word-append (a ∷ day) (b',' ∷ b' ' ∷ text) l refl in
    rw (word) (skip_ws-space text ∙ skip_ws-solid c (d ++ rest) (ground (arith, hc)))
