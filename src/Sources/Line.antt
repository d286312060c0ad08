-- ===== src/Sources/Line.antt =====
-- The lines of the news log, as sources/sources.cc reads them.
use nntp_tools.Prelude.{
  ℕ, zero, suc, ◌+◌, ◌<◌, ◌≡◌, ◌≢◌, refl, ap, ◌∙◌, false, [], ◌∷◌, ◌++◌, Option, none, some, Bytes,
  All, get_elem?, if◌then◌else◌, arith, Bool-cases, inl, inr,
}
use mathlib.Core.Option.{map}
use nntp_tools.Text.{char_at, is_digit, is_space}
use nntp_tools.Atoi.{skip_space}
use nntp_tools.Csv.{decimal_value}
use nntp_tools.Dates.{int_end}
use nntp_tools.Dates.Fields.{IsNumber, AreDigits, digits_from-append}
use nntp_tools.Sources.{
  ◌>>?◌, is, get_char, first_char, get_int, digits_of, as_int, get_string, word_of, take_word,
  months, month_from, is_accepted, size_of, Fields, parse_rest, parse_fields,
}

skip_space-solid : (c : ℕ) (s : Bytes) → is_space c ≡ false → skip_space (c ∷ s) ≡ c ∷ s
unfolding skip_space
skip_space-solid c s h = rw (h, skip_space) refl

-- A number that `get_int` reads without an overflow.
unfoldable pub Fits : Bytes → Type 0
Fits d = decimal_value 0 d + b'0' < int_end

as_int-fits : (n : ℕ) (rest : Bytes) → n + b'0' < int_end → as_int (n, rest) ≡ some (n, rest)
unfolding as_int
as_int-fits n rest h = ground (arith, h)

digits_of-append :
    (d rest : Bytes)
    → IsNumber d
    → Fits d
    → is_digit (char_at rest 0) ≡ false
    → digits_of (d ++ rest) ≡ some (decimal_value 0 d, rest)
unfolding digits_of IsNumber AreDigits Fits
digits_of-append [] rest (n, _) f h = absurd (n refl)
digits_of-append (c ∷ d) rest (n, (hc, hd)) f h =
    rw (hc, digits_from-append 0 (c ∷ d) rest (hc, hd) h)
      (as_int-fits (decimal_value 0 (c ∷ d)) rest f)

skip_space-number : (d rest : Bytes) → IsNumber d → skip_space (d ++ rest) ≡ d ++ rest
unfolding IsNumber AreDigits
skip_space-number [] rest (n, _) = absurd (n refl)
skip_space-number (c ∷ d) rest (n, (hc, hd)) = skip_space-solid c (d ++ rest) (ground (arith, hc))

-- A number, with a space in front of it or without.
get_int-append :
    (d rest : Bytes)
    → IsNumber d
    → Fits d
    → is_digit (char_at rest 0) ≡ false
    → get_int (d ++ rest) ≡ some (decimal_value 0 d, rest)
unfolding get_int
get_int-append d rest n f h =
    ap digits_of (skip_space-number d rest n) ∙ digits_of-append d rest n f h

get_int-space :
    (d rest : Bytes)
    → IsNumber d
    → Fits d
    → is_digit (char_at rest 0) ≡ false
    → get_int (b' ' ∷ (d ++ rest)) ≡ some (decimal_value 0 d, rest)
unfolding get_int skip_space
get_int-space d rest n f h =
    ap digits_of (skip_space-number d rest n) ∙ digits_of-append d rest n f h

unfoldable pub NoSpace : Bytes → Type 0
NoSpace = All (λ c. is_space c ≡ false)

-- A name in the log: not empty, and without white space.
unfoldable pub IsWord : Bytes → Type 0
IsWord s = (s ≢ []) × NoSpace s

take_word-space : (s rest : Bytes) → NoSpace s → take_word (s ++ (b' ' ∷ rest)) ≡ (s, b' ' ∷ rest)
unfolding take_word NoSpace
take_word-space [] rest _ = refl
take_word-space (c ∷ s) rest (h, hs) = rw (h, take_word-space s rest hs, take_word) refl

get_string-space :
    (s rest : Bytes) → IsWord s → get_string (b' ' ∷ (s ++ (b' ' ∷ rest))) ≡ some (s, b' ' ∷ rest)
unfolding get_string skip_space IsWord NoSpace word_of
get_string-space [] rest (n, _) = absurd (n refl)
get_string-space (c ∷ s) rest (n, (h, hs)) =
    ap word_of (skip_space-solid c (s ++ (b' ' ∷ rest)) h)
    ∙ ap (λ r. some r) (take_word-space (c ∷ s) rest (h, hs))

get_char-space :
    (c : ℕ) (rest : Bytes) → is_space c ≡ false → get_char (b' ' ∷ c ∷ rest) ≡ some (c, rest)
unfolding get_char skip_space first_char
get_char-space c rest h = ap first_char (skip_space-solid c rest h)

-- The text behind the last field: its leading white space is no part of it.
unfoldable pub IsExtra : Bytes → Type 0
IsExtra s = is_space (char_at s 0) ≡ false

skip_space-extra : (s : Bytes) → IsExtra s → skip_space (b' ' ∷ s) ≡ s
unfolding skip_space IsExtra
skip_space-extra [] h = refl
skip_space-extra (c ∷ s) h = skip_space-solid c s h

-- The name of a month, from 0 on.
unfoldable pub month_name : ℕ → Bytes
month_name n = elim (get_elem? months n) [ none ↦ [] | some name ↦ name ]

month_from-name :
    (n : ℕ) (rest : Bytes) → n < 12 → month_from 0 months (month_name n ++ rest) ≡ some (n, rest)
unfolding month_from month_name is
month_from-name zero rest h = refl
month_from-name (suc zero) rest h = refl
month_from-name (suc (suc zero)) rest h = refl
month_from-name (suc (suc (suc zero))) rest h = refl
month_from-name (suc (suc (suc (suc zero)))) rest h = refl
month_from-name (suc (suc (suc (suc (suc zero))))) rest h = refl
month_from-name (suc (suc (suc (suc (suc (suc zero)))))) rest h = refl
month_from-name (suc (suc (suc (suc (suc (suc (suc zero))))))) rest h = refl
month_from-name (suc (suc (suc (suc (suc (suc (suc (suc zero)))))))) rest h = refl
month_from-name (suc (suc (suc (suc (suc (suc (suc (suc (suc zero))))))))) rest h = refl
month_from-name (suc (suc (suc (suc (suc (suc (suc (suc (suc (suc zero)))))))))) rest h = refl
month_from-name (suc (suc (suc (suc (suc (suc (suc (suc (suc (suc (suc zero))))))))))) rest h = refl
month_from-name (suc (suc (suc (suc (suc (suc (suc (suc (suc (suc (suc (suc n)))))))))))) rest h =
    absurd (omega arith)

-- The texts of a line.
pub record Written : Type 0 where
  pub mon : ℕ
  pub mday : Bytes
  pub hour : Bytes
  pub min : Bytes
  pub sec : Bytes
  pub msec : Bytes
  pub code : ℕ
  pub peer : Bytes
  pub message : Bytes
  pub size : Bytes
  pub extra : Bytes

pub record IsLine (w : Written) : Type 0 where
  pub mon_valid : w.mon < 12
  pub mday_number : IsNumber w.mday
  pub mday_fits : Fits w.mday
  pub hour_number : IsNumber w.hour
  pub hour_fits : Fits w.hour
  pub min_number : IsNumber w.min
  pub min_fits : Fits w.min
  pub sec_number : IsNumber w.sec
  pub sec_fits : Fits w.sec
  pub msec_number : IsNumber w.msec
  pub msec_fits : Fits w.msec
  pub code_valid : is_space w.code ≡ false
  pub peer_word : IsWord w.peer
  pub message_word : IsWord w.message
  pub size_number : IsNumber w.size
  pub size_fits : Fits w.size
  pub extra_valid : IsExtra w.extra

-- The size, which stands in the lines of accepted articles only.
unfoldable pub sized : Written → Bytes
sized w = if is_accepted w.code then w.size ++ (b' ' ∷ w.extra) else w.extra

unfoldable pub tail : Written → Bytes
tail w = w.msec ++ (b' ' ∷ w.code ∷ b' ' ∷ (w.peer ++ (b' ' ∷ (w.message ++ (b' ' ∷ sized w)))))

-- `Nov 25 18:50:48.123 + peer <id> 1234 extra`.
unfoldable pub render : Written → Bytes
render w =
    month_name w.mon
    ++ (b' '
        ∷ (w.mday ++ (b' ' ∷ (w.hour ++ (b':' ∷ (w.min ++ (b':' ∷ (w.sec ++ (b'.' ∷ tail w)))))))))

unfoldable pub fields_of : Written → Fields
fields_of w = record {
  mon = w.mon;
  mday = decimal_value 0 w.mday;
  hour = decimal_value 0 w.hour;
  min = decimal_value 0 w.min;
  sec = decimal_value 0 w.sec;
  msec = decimal_value 0 w.msec;
  code = w.code;
  peer = w.peer;
  message = w.message;
  size = (if is_accepted w.code then decimal_value 0 w.size else 0);
  extra = w.extra;
}

abbrev size_end : ℕ × Bytes → Option (ℕ × Bytes)
size_end p = some (p.0, skip_space p.1)

-- What is behind the message.
size_of-sized :
    (w : Written)
    → IsLine w
    → (size_of w.code (b' ' ∷ sized w) >>? size_end)
      ≡ some ((if is_accepted w.code then decimal_value 0 w.size else 0), w.extra)
unfolding sized size_of
size_of-sized w h = elim (Bool-cases (is_accepted w.code)) [
  | inl yes_here ↦
      rw
        (
          yes_here,
          get_int-space w.size (b' ' ∷ w.extra) h.size_number h.size_fits refl,
          skip_space-extra w.extra h.extra_valid,
        )
        refl
  | inr other ↦ rw (other, skip_space-extra w.extra h.extra_valid) refl
]

parse_rest-tail :
    (fields : ℕ → ℕ → Bytes → Bytes → ℕ → Bytes → Fields) (w : Written)
    → IsLine w
    → parse_rest fields (tail w)
      ≡ some (
          fields
            (decimal_value 0 w.msec)
            w.code
            w.peer
            w.message
            (if is_accepted w.code then decimal_value 0 w.size else 0)
            w.extra)
unfolding parse_rest tail
parse_rest-tail fields w h =
    let b = b' ' ∷ sized w in
    let a = b' ' ∷ (w.peer ++ (b' ' ∷ (w.message ++ b))) in
    rw
      (
        get_int-append w.msec (b' ' ∷ w.code ∷ a) h.msec_number h.msec_fits refl,
        get_char-space w.code a h.code_valid,
        get_string-space w.peer (w.message ++ b) h.peer_word,
        get_string-space w.message (sized w) h.message_word,
      )
      (finish (size_of w.code b) (size_of-sized w h))
  where
    build : ℕ × Bytes → Fields
    build p = fields (decimal_value 0 w.msec) w.code w.peer w.message p.0 p.1

    finish :
        (r : Option (ℕ × Bytes)) {n : ℕ} {e : Bytes}
        → (r >>? size_end) ≡ some (n, e)
        → (r >>? λ p. some (build (p.0, skip_space p.1))) ≡ some (build (n, e))
    finish none q = absurd (cc q)
    finish (some p) q = ap (map build) q

-- A line of the log is read back field by field: a month by its name, numbers below 2147483600, which an
-- `int` holds at every step, a peer and a message without white space, a size where the code says that there is one, and the rest.
pub parse_fields-render : (w : Written) → IsLine w → parse_fields (render w) ≡ some (fields_of w)
unfolding parse_fields render fields_of is
parse_fields-render w h =
    let c = w.sec ++ (b'.' ∷ tail w) in
    let b = w.hour ++ (b':' ∷ (w.min ++ (b':' ∷ c))) in
    rw
      (
        month_from-name w.mon (b' ' ∷ (w.mday ++ (b' ' ∷ b))) h.mon_valid,
        get_int-space w.mday (b' ' ∷ b) h.mday_number h.mday_fits refl,
        get_int-space w.hour (b':' ∷ (w.min ++ (b':' ∷ c))) h.hour_number h.hour_fits refl,
        get_int-append w.min (b':' ∷ c) h.min_number h.min_fits refl,
        get_int-append w.sec (b'.' ∷ tail w) h.sec_number h.sec_fits refl,
      )
      (parse_rest-tail _ w h)
