-- ===== src/Csv/Tests.antt =====
-- Runs of the CSV code, and its theorems at concrete inputs.
use mathlib.Core.List.{flat_map}
use nntp_tools.Prelude.{◌≡◌, ◌↔◌, refl, ◌++◌, [], ◌∷◌, codes, ok, arith}
use nntp_tools.Csv.{csv_quote, quote_char, print_base, read_field, parse_row, string, integer}
use nntp_tools.Csv.RoundTrip.{IsAscii, restore, read_field-csv_quote, read_field-restore}
use nntp_tools.Csv.Numbers.{log_row, parse_row-log_row}

-- The byte 0x80 is printed as the eleven octal digits of a negative `int`.
high_quoted : csv_quote (0x80 ∷ []) ≡ codes "\"\\37777777600\""
unfolding csv_quote flat_map quote_char print_base
high_quoted = refl

read_field-csv_quote_example :
    (read_field (csv_quote (codes "a\"b") ++ codes ",1") ≡ ok (string (codes "a\"b"), codes ",1"))
    ↔ IsAscii (codes "a\"b")
read_field-csv_quote_example =
    read_field-csv_quote (codes "a\"b") (codes ",1") (omega arith, (omega arith, (omega arith, tt)))

read_field-restore_example :
    read_field (csv_quote (0x80 ∷ []) ++ codes ",1") ≡ ok (string (restore (0x80 ∷ [])), codes ",1")
read_field-restore_example = read_field-restore (0x80 ∷ []) (codes ",1") (omega arith, tt)

parse_row-log_row_example :
    parse_row (log_row (codes "Pan") 12 3) ≡ ok (string (codes "Pan") ∷ integer 12 ∷ integer 3 ∷ [])
parse_row-log_row_example =
    parse_row-log_row (codes "Pan") 12 3 (omega arith, (omega arith, (omega arith, tt)))
      (omega arith) (omega arith)
