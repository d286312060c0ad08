-- ===== src/Csv.antt =====
-- CSV files, lib/parse_csv.cc. A `char` is signed, as on the platforms that the programs are built for.
pub mod Chars
pub mod RoundTrip
pub mod Numbers
mod Tests
use Prim.Native.Nat.{min}
use mathlib.Core.List.{flat_map}
use nntp_tools.Prelude.{
  ℕ, zero, suc, ◌+◌, ◌-◌, ◌*◌, ◌/◌, ◌%◌, ◌^◌, Bool, true, false, ◌&&◌, ◌||◌, List, [], ◌∷◌, ◌++◌,
  Bytes, length, replicate, leb, ltb, ◌==◌, if◌then◌else◌, Result, ok, failed, ◌>>=◌,
}
use nntp_tools.Text.{is_digit}

-- What `read_csv` throws: `std::out_of_range` from `at`, and its own two errors.
pub data Fault : Type 0 where
  out_of_range syntax_error missing_comma out_of_fuel : Fault

-- A `Value`.
pub data Value : Type 0 where
  string : Bytes → Value
  integer : ℕ → Value

-- Printing of an unsigned number in octal, and in decimal; the fuel is at least the number of digits.
unfoldable pub print_base : ℕ → ℕ → ℕ → Bytes
print_base base zero n = []
print_base base (suc fuel) n = elim (ltb n base) [
  | true ↦ (b'0' + n) ∷ []
  | false ↦ print_base base fuel (n / base) ++ (b'0' + n % base) ∷ []
]

-- `static_cast<int>(c)` as the unsigned number that `oct` prints.
abbrev pub int_of_char : ℕ → ℕ
int_of_char c = if ltb c 128 then c else 2 ^ 32 - 256 + c

-- `setw(3) << setfill('0')`.
abbrev pub pad3 : Bytes → Bytes
pad3 digits = replicate (3 - length digits) b'0' ++ digits

-- One round of `csv_quote`; a byte of 128 or more is a negative `char`, below 0x20.
unfoldable pub quote_char : ℕ → Bytes
unfolding print_base
quote_char c =
    if c == b'"' || c == b'\\'
    then b'\\' ∷ c ∷ []
    else if (ltb c 0x20 || leb 128 c) || ltb 0x7E c
    then b'\\' ∷ pad3 (print_base 8 11 (int_of_char c))
    else c ∷ []

unfoldable pub csv_quote : Bytes → Bytes
csv_quote s = b'"' ∷ (flat_map quote_char s ++ b'"' ∷ [])

-- The loop over at most three octal digits; `ch` is a `char`, kept as a byte.
unfoldable pub octal_run : ℕ → ℕ → Bytes → Result Fault (ℕ × Bytes)
octal_run zero ch s = ok (ch, s)
octal_run (suc left) ch [] = failed out_of_range
octal_run (suc left) ch (c ∷ s) = elim (leb b'0' c && leb c b'7') [
  | true ↦ octal_run left ((8 * ch + (c - b'0')) % 256) s
  | false ↦ ok (ch, c ∷ s)
]

-- What stands behind a backslash.
unfoldable pub escape : Bytes → Result Fault (ℕ × Bytes)
unfolding octal_run
escape [] = failed out_of_range
escape (c ∷ s) = if is_digit c then octal_run 3 0 (c ∷ s) else ok (c, s)

-- The loop over a quoted field, behind its first quote.
unfoldable pub read_quoted : ℕ → Bytes → Bytes → Result Fault (Bytes × Bytes)
read_quoted zero t s = failed out_of_fuel
read_quoted (suc fuel) t [] = failed out_of_range
read_quoted (suc fuel) t (c ∷ s) = elim (c == b'"') [
  | true ↦ ok (t, s)
  | false ↦ elim (c == b'\\') [
    | true ↦ elim (escape s) [
      | failed e ↦ failed e
      | ok (ch, r) ↦ read_quoted fuel (t ++ ch ∷ []) r
    ]
    | false ↦ read_quoted fuel (t ++ c ∷ []) s
  ]
]

-- The loop over the digits of a number, with the digits and what follows them.
unfoldable pub take_digits : Bytes → Bytes × Bytes
take_digits [] = ([], [])
take_digits (c ∷ s) = if is_digit c then (c ∷ (take_digits s).0, (take_digits s).1) else ([], c ∷ s)

unfoldable pub decimal_value : ℕ → Bytes → ℕ
decimal_value n [] = n
decimal_value n (c ∷ s) = decimal_value (10 * n + (c - b'0')) s

-- `ss >> i` of digits alone: the value, or the largest `intmax_t` when it does not fit.
unfoldable pub read_integer : Bytes → ℕ
unfolding decimal_value
read_integer digits = min (decimal_value 0 digits) (2 ^ 63 - 1)

-- One field, with what follows it.
unfoldable pub read_field : Bytes → Result Fault (Value × Bytes)
read_field [] = failed out_of_range
read_field (c ∷ s) =
    if is_digit c
    then ok (integer (read_integer (take_digits (c ∷ s)).0), (take_digits (c ∷ s)).1)
    else if c == b'"'
    then (read_quoted (length s + 1) [] s >>= λ (t, r). ok (string t, r))
    else failed syntax_error

-- The loop over the fields of a line; the comma is checked and skipped after each field.
unfoldable pub read_row : ℕ → Bytes → Result Fault (List Value)
read_row zero s = failed out_of_fuel
read_row (suc fuel) [] = ok []
read_row (suc fuel) (c ∷ s) = elim (read_field (c ∷ s)) [
  | failed e ↦ failed e
  | ok (v, []) ↦ ok (v ∷ [])
  | ok (v, d ∷ r) ↦ elim (d == b',') [
    | false ↦ failed missing_comma
    | true ↦ read_row fuel r >>= λ vs. ok (v ∷ vs)
  ]
]

-- A line of the file, without its newline.
unfoldable pub parse_row : Bytes → Result Fault (List Value)
parse_row line = read_row (length line + 1) line
