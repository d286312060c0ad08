-- ===== src/Dates.antt =====
-- Dates of articles, lib/parse_date.cc. A position in the text is the text that is left from it;
-- `find_first_not_of` that finds nothing leaves none.
pub mod Zones
pub mod Fields
pub mod Months
pub mod Render
pub mod Strtol
pub mod Stamps
pub mod W3
pub mod Bzr
mod Tests
use mathlib.Core.List.{map}
use nntp_tools.Prelude.{
  ℕ, zero, suc, ◌+◌, ◌-◌, ◌*◌, Bool, true, false, not, ◌&&◌, ◌||◌, List, [], ◌∷◌, ◌++◌, Option,
  none, some, Bytes, codes, ltb, leb, ◌==◌, equal, if◌then◌else◌, Result, ok, failed, ◌>>=◌,
}
use nntp_tools.Prelude.Int.{ℤ, pos, negate, ◌-ℤ◌}
use nntp_tools.Text.{char_at, is_digit, is_alpha, to_lower, to_upper}
use nntp_tools.Dates.Zones.{zone}

-- Why `parse_date_std` returns false: its debug messages, where that of `bad_second` says "bad minute" too.
-- `int_overflow` is a number that an `int` does not hold, behind which C leaves everything undefined.
pub data Refusal : Type 0 where
  bad_mday bad_month bad_month_lookup bad_year bad_hour missing_colon bad_minute bad_second :
      Refusal
  short_zone nonnumeric_zone bad_zone_name unknown_zone int_overflow : Refusal

-- `struct tm`, as far as the parser fills it in.
pub record Tm : Type 0 where
  pub mday : ℕ
  pub mon : ℤ
  pub year : ℕ
  pub hour : ℕ
  pub min : ℕ
  pub sec : ℤ

unfoldable pub skip_ws : Bytes → Bytes
skip_ws [] = []
skip_ws (c ∷ s) = elim (c == b' ' || c == b'\t') [ true ↦ skip_ws s | false ↦ c ∷ s ]

-- The word, which is empty where the code returns false, and what follows it.
unfoldable pub parse_word : Bytes → Bytes × Bytes
parse_word [] = ([], [])
parse_word (c ∷ s) = elim (is_alpha c) [
  | true ↦ (c ∷ (parse_word s).0, (parse_word s).1)
  | false ↦ ([], c ∷ s)
]

-- The digits in front of a text as a number of any size, from a value on.
unfoldable pub digits_from : ℕ → Bytes → ℕ × Bytes
digits_from n [] = (n, [])
digits_from n (c ∷ s) = elim (is_digit c) [
  | true ↦ digits_from (10 * n + (c - b'0')) s
  | false ↦ (n, c ∷ s)
]

-- The values of an `int` are below 2 ^ 31.
abbrev pub int_end : ℕ
int_end = 2147483648

-- The value of the digits as an `int`; the loop's values grow, so one overflows where the last one does.
unfoldable pub as_int : ℕ × Bytes → Result Refusal (ℕ × Bytes)
as_int (n, rest) = if ltb n int_end then ok (n, rest) else failed int_overflow

-- `parse_int`, which returns false where there is no digit.
unfoldable pub parse_int : Refusal → Bytes → Result Refusal (ℕ × Bytes)
parse_int e s = if is_digit (char_at s 0) then as_int (digits_from 0 s) else failed e

-- The skip of "day,".
unfoldable pub skip_comma : Bytes → Bytes → Bytes → Bytes
skip_comma text [] rest = text
skip_comma text (c ∷ word) [] = text
skip_comma text (c ∷ word) (d ∷ rest) = if d == b',' then rest else text

unfoldable pub skip_day : Bytes → Bytes
skip_day text = let (word, rest) = parse_word text in skip_comma text word rest

abbrev pub months : List Bytes
months =
    codes "jan"
    ∷ codes "feb"
    ∷ codes "mar"
    ∷ codes "apr"
    ∷ codes "may"
    ∷ codes "jun"
    ∷ codes "jul"
    ∷ codes "aug"
    ∷ codes "sep"
    ∷ codes "oct"
    ∷ codes "nov"
    ∷ codes "dec"
    ∷ []

-- The loop over `months`; no name stands there twice, so the first match is the last.
unfoldable pub month_from : ℕ → List Bytes → Bytes → Result Refusal ℕ
month_from n [] word = failed bad_month_lookup
month_from n (m ∷ ms) word = elim (equal word m) [
  | true ↦ ok n
  | false ↦ month_from (suc n) ms word
]

unfoldable pub month : Bytes → Result Refusal ℕ
month [] = failed bad_month
month (c ∷ word) = month_from 0 months (map to_lower (c ∷ word))

unfoldable pub colon : Bytes → Result Refusal Bytes
colon [] = failed missing_colon
colon (c ∷ s) = if c == b':' then ok s else failed missing_colon

-- The seconds, which may be missing.
unfoldable pub seconds : Bytes → Result Refusal (ℕ × Bytes)
seconds [] = ok (0, [])
seconds (c ∷ s) = elim (c == b':') [ true ↦ parse_int bad_second s | false ↦ ok (0, c ∷ s) ]

-- The sign of a zone, and the four digits behind it.
unfoldable pub numeric_zone : ℕ → Bytes → Result Refusal ℤ
numeric_zone sign (a ∷ b ∷ c ∷ d ∷ rest) =
    if is_digit a && is_digit b && is_digit c && is_digit d
    then (let zh = a * 10 + b - 11 * b'0' in
        let zm = c * 10 + d - 11 * b'0' in
        ok (if sign == b'-' then negate (zh * 3600 + zm * 60) else pos (zh * 3600 + zm * 60)))
    else failed nonnumeric_zone
numeric_zone sign _ = failed short_zone

unfoldable pub named_zone : Bytes → Result Refusal ℤ
named_zone [] = failed bad_zone_name
named_zone (c ∷ word) = elim (zone (map to_upper (c ∷ word))) [
  | none ↦ failed unknown_zone
  | some z ↦ ok z
]

unfoldable pub parse_zone : Bytes → Result Refusal ℤ
parse_zone [] = ok (pos 0)
parse_zone (c ∷ s) =
    if c == b'+' || c == b'-' then numeric_zone c s else named_zone (parse_word (c ∷ s)).0

-- The tests on the day of the month and the adjustment of the year.
unfoldable pub check_mday : ℕ → Result Refusal ℕ
check_mday n = if n == 0 || ltb 31 n then failed bad_mday else ok n

abbrev pub since_1900 : ℕ → ℕ
since_1900 year = if leb 1900 year then year - 1900 else year

-- The time and the zone, behind the year.
unfoldable pub parse_time : ℕ → ℕ → ℕ → Bytes → Result Refusal (Tm × ℤ)
parse_time mday mon year text = parse_int bad_hour (skip_ws text) >>= λ (hour, r). colon r >>= λ s.
    parse_int bad_minute s >>= λ (min, t). seconds t >>= λ (sec, u). parse_zone (skip_ws u) >>= λ z.
    ok
      (record { mday = mday; mon = pos mon; year = year; hour = hour; min = min; sec = pos sec }, z)

-- The month and the year, behind the day of the month.
unfoldable pub parse_month : ℕ → Bytes → Result Refusal (Tm × ℤ)
parse_month mday text =
    let (word, r) = parse_word (skip_ws text) in
    month word >>= λ mon.
    parse_int bad_year (skip_ws r) >>= λ (year, s). parse_time mday mon (since_1900 year) s

-- `parse_date_std`.
unfoldable pub parse_date_std : Bytes → Result Refusal (Tm × ℤ)
parse_date_std text = parse_int bad_mday (skip_ws (skip_day text)) >>= λ (n, r).
    check_mday n >>= λ mday. parse_month mday r

-- `parse_date`; `timegm` is the C library's.
unfoldable pub parse_date : (Tm → ℤ) → Bytes → ℤ
parse_date timegm text = elim (parse_date_std text) [
  | failed e ↦ pos 0
  | ok (bdt, z) ↦ timegm bdt -ℤ z
]
