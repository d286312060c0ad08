-- ===== src/Dates/Strtol.antt =====
-- `do_strtol` of lib/utils.c, and the checked fields that the date converters read with it.
use nntp_tools.Prelude.{
  ℕ, zero, suc, ◌≤◌, ◌≡◌, refl, Bool, true, false, ◌||◌, [], ◌∷◌, ◌++◌, Bytes, ltb, ◌==◌,
  if◌then◌else◌, Result, ok, failed, ◌>>=◌, arith,
}
use nntp_tools.Prelude.Int.{ℤ, pos, negsuc, negate}
use nntp_tools.Text.{char_at, is_digit, is_space}
use nntp_tools.Atoi.{skip_space}
use nntp_tools.Csv.{decimal_value}
use nntp_tools.Dates.{digits_from}
use nntp_tools.Dates.Fields.{IsNumber, AreDigits, digits_from-append}

-- The calls of `fatal` in the converters.
pub data DateFault : Type 0 where
  no_integer out_of_range bad_date bad_zone mktime_failed strptime_failed gmtime_failed : DateFault

-- `strtol` behind the sign: no digit is no conversion.
unfoldable pub digits : Bytes → Result DateFault (ℕ × Bytes)
digits s = if is_digit (char_at s 0) then ok (digits_from 0 s) else failed no_integer

unfoldable pub strtol_sign : Bytes → Result DateFault (ℤ × Bytes)
strtol_sign [] = failed no_integer
strtol_sign (c ∷ s) =
    if c == b'-'
    then (digits s >>= λ (n, r). ok (negate n, r))
    else if c == b'+'
    then (digits s >>= λ (n, r). ok (pos n, r))
    else (digits (c ∷ s) >>= λ (n, r). ok (pos n, r))

-- `int` has 32 bits.
unfoldable pub check_int : ℤ × Bytes → Result DateFault (ℤ × Bytes)
check_int (pos n, r) = if ltb n 0x80000000 then ok (pos n, r) else failed out_of_range
check_int (negsuc n, r) = if ltb n 0x80000000 then ok (negsuc n, r) else failed out_of_range

unfoldable pub do_strtol : Bytes → Result DateFault (ℤ × Bytes)
do_strtol s = strtol_sign (skip_space s) >>= check_int

-- The check of a field: nothing below `low` or above `high` is taken, so what is taken is not negative.
unfoldable pub check_field : ℕ → ℕ → ℤ × Bytes → Result DateFault (ℕ × Bytes)
check_field low high (pos n, r) = if ltb n low || ltb high n then failed bad_date else ok (n, r)
check_field low high (negsuc n, r) = failed bad_date

unfoldable pub field : ℕ → ℕ → Bytes → Result DateFault (ℕ × Bytes)
field low high s = do_strtol s >>= check_field low high

-- `*ptr++` must be this byte.
unfoldable pub expect : ℕ → Bytes → Result DateFault Bytes
expect c [] = failed bad_date
expect c (d ∷ s) = if d == c then ok s else failed bad_date

-- The largest `int`.
abbrev pub int_max : ℕ
int_max = 0x7FFFFFFF

strtol_sign-append :
    (d rest : Bytes)
    → IsNumber d
    → is_digit (char_at rest 0) ≡ false
    → strtol_sign (skip_space (d ++ rest)) ≡ ok (pos (decimal_value 0 d), rest)
unfolding IsNumber AreDigits strtol_sign digits skip_space decimal_value
strtol_sign-append [] rest (n, _) h = absurd (n refl)
strtol_sign-append (c ∷ d) rest (n, (hc, hd)) h =
    let no_space : is_space c ≡ false = ground (arith, hc) in
    let minus : c == b'-' ≡ false = ground (arith, hc) in
    let plus : c == b'+' ≡ false = ground (arith, hc) in
    rw (no_space, skip_space, minus, plus, hc, digits_from-append 0 (c ∷ d) rest (hc, hd) h) refl

pub do_strtol-append :
    (d rest : Bytes)
    → IsNumber d
    → decimal_value 0 d ≤ int_max
    → is_digit (char_at rest 0) ≡ false
    → do_strtol (d ++ rest) ≡ ok (pos (decimal_value 0 d), rest)
unfolding do_strtol check_int
do_strtol-append d rest n fits h =
    let small : ltb (decimal_value 0 d) 0x80000000 ≡ true = ground (arith, fits) in
    rw (strtol_sign-append d rest n h, small) refl

-- Digits whose value a field allows, in front of no other digit, are that field.
pub field-append :
    (low high : ℕ) (d rest : Bytes)
    → IsNumber d
    → low ≤ decimal_value 0 d
    → decimal_value 0 d ≤ high
    → high ≤ int_max
    → is_digit (char_at rest 0) ≡ false
    → field low high (d ++ rest) ≡ ok (decimal_value 0 d, rest)
unfolding field check_field
field-append low high d rest n above below fits h =
    let inside : (ltb (decimal_value 0 d) low || ltb high (decimal_value 0 d)) ≡ false =
      ground (arith, above, below) in
    rw (do_strtol-append d rest n (omega (arith, below, fits)) h, inside) refl

-- A sign, and the digits behind it.
abbrev pub signed : Bool → ℕ → ℤ
signed minus n = if minus then negate n else pos n

abbrev pub sign : Bool → ℕ
sign minus = if minus then b'-' else b'+'

digits-append :
    (d rest : Bytes)
    → IsNumber d
    → is_digit (char_at rest 0) ≡ false
    → digits (d ++ rest) ≡ ok (decimal_value 0 d, rest)
unfolding IsNumber AreDigits digits
digits-append [] rest (n, _) h = absurd (n refl)
digits-append (c ∷ d) rest (n, (hc, hd)) h =
    rw (hc, digits_from-append 0 (c ∷ d) rest (hc, hd) h) refl

check_int-signed :
    (minus : Bool) (n : ℕ) (r : Bytes)
    → n ≤ int_max
    → check_int (signed minus n, r) ≡ ok (signed minus n, r)
unfolding check_int
check_int-signed true zero r h = refl
check_int-signed true (suc n) r h = ground (arith, h)
check_int-signed false n r h = ground (arith, h)

pub do_strtol-sign :
    (minus : Bool) (d rest : Bytes)
    → IsNumber d
    → decimal_value 0 d ≤ int_max
    → is_digit (char_at rest 0) ≡ false
    → do_strtol (sign minus ∷ (d ++ rest)) ≡ ok (signed minus (decimal_value 0 d), rest)
unfolding do_strtol strtol_sign skip_space
do_strtol-sign true d rest n fits h =
    rw (digits-append d rest n h) (check_int-signed true (decimal_value 0 d) rest fits)
do_strtol-sign false d rest n fits h =
    rw (digits-append d rest n h) (check_int-signed false (decimal_value 0 d) rest fits)
