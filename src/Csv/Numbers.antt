-- ===== src/Csv/Numbers.antt =====
-- The rows that spoolstats logs: a quoted string and two numbers, read back by `read_csv`.
use mathlib.Core.List.{cons-ne-nil, concat-ne-nil}
use nntp_tools.Prelude.{
  ℕ, zero, suc, ◌+◌, ◌-◌, ◌*◌, ◌/◌, ◌%◌, ◌^◌, ◌<◌, ◌≡◌, ◌≢◌, refl, sym, ap, ◌∙◌, true, false, inl,
  inr, [], ◌∷◌, ◌++◌, append-nil, Bytes, length, length-append, All, All-append, ltb, Bool-cases,
  ok, ◌>>=◌, arith,
}
use nntp_tools.Text.{is_digit, char_at}
use nntp_tools.Words.{AreBytes}
use nntp_tools.Csv.{
  Value, string, integer, print_base, csv_quote, take_digits, decimal_value, read_integer,
  read_field, read_row, parse_row,
}
use nntp_tools.Csv.RoundTrip.{IsAscii, read_field-restore, restore-eq}

-- `os << n` for a number that is not negative: at most twenty digits.
unfoldable pub decimal : ℕ → Bytes
decimal n = print_base 10 20 n

-- 10 ^ k.
ten_to : ℕ → ℕ
ten_to zero = 1
ten_to (suc k) = 10 * ten_to k

abbrev AreDigits : Bytes → Type 0
AreDigits = All (λ c. is_digit c ≡ true)

print_base-one : (fuel n : ℕ) → ltb n 10 ≡ true → print_base 10 (suc fuel) n ≡ (b'0' + n) ∷ []
unfolding print_base
print_base-one fuel n h = ground (arith, h)

print_base-more :
    (fuel n : ℕ)
    → ltb n 10 ≡ false
    → print_base 10 (suc fuel) n ≡ print_base 10 fuel (n / 10) ++ (b'0' + n % 10) ∷ []
unfolding print_base
print_base-more fuel n h = ground (arith, h)

print_base-AreDigits : (fuel n : ℕ) → AreDigits (print_base 10 fuel n)
print_base-AreDigits zero n = unfold print_base in tt
print_base-AreDigits (suc fuel) n = elim (Bool-cases (ltb n 10)) [
  | inl one ↦ rw (print_base-one fuel n one) (ground arith, tt)
  | inr more ↦ rw (print_base-more fuel n more) (
      All-append _ (print_base 10 fuel (n / 10)) _ (print_base-AreDigits fuel (n / 10))
        (ground arith, tt))
]

decimal_value-concat :
    (m : ℕ) (s : Bytes) (c : ℕ)
    → decimal_value m (s ++ c ∷ []) ≡ 10 * decimal_value m s + (c - b'0')
unfolding decimal_value
decimal_value-concat m [] c = refl
decimal_value-concat m (d ∷ s) c = decimal_value-concat (10 * m + (d - b'0')) s c

decimal_value-print : (fuel n : ℕ) → n < ten_to fuel → decimal_value 0 (print_base 10 fuel n) ≡ n
unfolding ten_to
decimal_value-print zero n h = unfold print_base decimal_value in omega arith
decimal_value-print (suc fuel) n h = elim (Bool-cases (ltb n 10)) [
  | inl one ↦ rw (print_base-one fuel n one) (unfold decimal_value in omega arith)
  | inr more ↦
      rw (print_base-more fuel n more, decimal_value-concat 0 (print_base 10 fuel (n / 10)))
        (omega (arith, decimal_value-print fuel (n / 10) (omega arith)))
]

-- Digits in front of something else are taken whole.
take_digits-append :
    (d rest : Bytes)
    → AreDigits d
    → is_digit (char_at rest 0) ≡ false
    → take_digits (d ++ rest) ≡ (d, rest)
unfolding take_digits
take_digits-append [] [] _ h = refl
take_digits-append [] (c ∷ rest) _ h = ground arith
take_digits-append (c ∷ d) rest (hc, hd) h = ground (arith, take_digits-append d rest hd h)

read_field-digits :
    (d rest : Bytes)
    → AreDigits d
    → d ≢ []
    → is_digit (char_at rest 0) ≡ false
    → read_field (d ++ rest) ≡ ok (integer (read_integer d), rest)
read_field-digits [] rest _ n h = absurd (n refl)
read_field-digits (c ∷ d) rest (hc, hd) n h =
    let taken = take_digits-append (c ∷ d) rest (hc, hd) h in
    unfold read_field in ground (arith, taken, hc)

decimal-ne-nil : (n : ℕ) → decimal n ≢ []
unfolding decimal
decimal-ne-nil n e = elim (Bool-cases (ltb n 10)) [
  | inl one ↦ cons-ne-nil _ _ (sym (print_base-one 19 n one) ∙ e)
  | inr more ↦ concat-ne-nil _ _ (sym (print_base-more 19 n more) ∙ e)
]

-- A number that fits `intmax_t` is read back from its decimal print.
read_field-decimal :
    (n : ℕ) (rest : Bytes)
    → n < 2 ^ 63
    → is_digit (char_at rest 0) ≡ false
    → read_field (decimal n ++ rest) ≡ ok (integer n, rest)
read_field-decimal n rest fits h =
    let exact : decimal_value 0 (decimal n) ≡ n =
      unfold decimal in decimal_value-print 20 n (unfold ten_to in omega (arith, fits)) in
    let value : read_integer (decimal n) ≡ n = unfold read_integer in omega (arith, exact, fits) in
    read_field-digits (decimal n) rest (unfold decimal in print_base-AreDigits 20 n)
      (decimal-ne-nil n) h
    ∙ ap (λ v. ok (integer v, rest)) value

read_row-more :
    (fuel : ℕ) (t : Bytes) (v : Value) (r : Bytes)
    → read_field t ≡ ok (v, b',' ∷ r)
    → read_row (suc fuel) t ≡ (read_row fuel r >>= λ vs. ok (v ∷ vs))
unfolding read_row
read_row-more fuel [] v r e = absurd (unfold read_field in cc e)
read_row-more fuel (c ∷ t) v r e = ground (arith, e)

read_row-last :
    (fuel : ℕ) (t : Bytes) (v : Value)
    → read_field t ≡ ok (v, [])
    → read_row (suc fuel) t ≡ ok (v ∷ [])
unfolding read_row
read_row-last fuel [] v e = absurd (unfold read_field in cc e)
read_row-last fuel (c ∷ t) v e = ground (arith, e)

IsAscii-AreBytes : (s : Bytes) → IsAscii s → AreBytes s
IsAscii-AreBytes [] _ = tt
IsAscii-AreBytes (c ∷ s) (h, hs) = (omega arith, IsAscii-AreBytes s hs)

-- The line that `ArticleProperty::logs` writes for a property value, without its newline.
unfoldable pub log_row : Bytes → ℕ → ℕ → Bytes
log_row value articles senders =
    csv_quote value ++ (b',' ∷ (decimal articles ++ (b',' ∷ decimal senders)))

-- A logged row of an ASCII value and two counts that fit `intmax_t` is read back as it was.
pub parse_row-log_row :
    (value : Bytes) (articles senders : ℕ)
    → IsAscii value
    → articles < 2 ^ 63
    → senders < 2 ^ 63
    → parse_row (log_row value articles senders)
      ≡ ok (string value ∷ integer articles ∷ integer senders ∷ [])
unfolding parse_row log_row
parse_row-log_row value articles senders ascii a s =
    let last = decimal senders in
    let middle = decimal articles ++ (b',' ∷ last) in
    let first = csv_quote value ++ (b',' ∷ middle) in
    let rounds : length first + 1 ≡ suc (suc (suc (length first - 2))) = omega (
      arith,
      length-append (csv_quote value) (b',' ∷ middle),
      length-append (decimal articles) (b',' ∷ last),
    ) in
    let read_first : read_field first ≡ ok (string value, b',' ∷ middle) =
      read_field-restore value (b',' ∷ middle) (IsAscii-AreBytes value ascii)
      ∙ ap (λ t. ok (string t, b',' ∷ middle)) (restore-eq value ascii) in
    let read_middle = read_field-decimal articles (b',' ∷ last) a refl in
    let read_last : read_field last ≡ ok (integer senders, []) =
      ap read_field (sym (append-nil last)) ∙ read_field-decimal senders [] s refl in
    rw (
      rounds,
      read_row-more _ first _ middle read_first,
      read_row-more _ middle _ last read_middle,
      read_row-last _ last _ read_last,
    )
