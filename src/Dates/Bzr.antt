-- ===== src/Dates/Bzr.antt =====
-- The bzr dates of lib/utils.c, such as `Sun 2007-01-28 13:19:43 +0000`.
pub mod Render
use nntp_tools.Prelude.{
  ℕ, zero, suc, ◌+◌, ◌-◌, ◌*◌, ◌/◌, ◌%◌, ◌≤◌, ◌≡◌, refl, Bool, true, false, not, ◌&&◌, ◌||◌, List,
  [], ◌∷◌, ◌++◌, Option, none, some, Bytes, ltb, ◌==◌, if◌then◌else◌, drop, Result, ok, failed,
  ◌>>=◌, arith,
}
use nntp_tools.Prelude.Int.{ℤ, pos, negsuc, negate, sub_ℕ, ◌-ℤ◌}
use nntp_tools.Text.{char_at, is_alpha}
use nntp_tools.Dates.{Tm}
use nntp_tools.Atoi.{skip_space}
use nntp_tools.Dates.Strtol.{
  DateFault, bad_date, bad_zone, mktime_failed, do_strtol, field, expect, int_max,
}

unfoldable pub weekday : Bytes → Result DateFault Bytes
weekday s =
    if not (is_alpha (char_at s 0))
      || not (is_alpha (char_at s 1))
      || not (is_alpha (char_at s 2))
      || not (char_at s 3 == b' ')
    then failed bad_date
    else ok (drop 4 s)

-- `tzs`, in seconds to the minute.
unfoldable pub zone_sign : Bytes → Result DateFault (Bool × Bytes)
zone_sign [] = failed bad_zone
zone_sign (c ∷ s) =
    if c == b'+' then ok (false, s) else if c == b'-' then ok (true, s) else failed bad_zone

-- Hours and minutes in four digits, to seconds.
unfoldable pub zone_seconds : Bool → ℤ → Result DateFault ℤ
zone_seconds minus (negsuc n) = failed bad_zone
zone_seconds minus (pos n) =
    if ltb 23 (n / 100) || ltb 59 (n % 100)
    then failed bad_zone
    else ok (
        if minus
        then negate (60 * (n % 100 + 60 * (n / 100)))
        else pos (60 * (n % 100 + 60 * (n / 100))))

unfoldable pub at_end : Bytes → Result DateFault Bytes
at_end [] = ok []
at_end (c ∷ s) = failed bad_date

unfoldable pub bzr_zone : Tm → Bytes → Result DateFault (Tm × ℤ)
bzr_zone tm s = zone_sign s >>= λ (minus, r). do_strtol r >>= λ (n, t).
    zone_seconds minus n >>= λ tz. at_end (skip_space t) >>= λ rest. ok (tm, tz)

-- The time of day. The check behind the seconds is on the minutes, which the one before has let pass.
unfoldable pub bzr_time : ℕ → ℕ → ℕ → Bytes → Result DateFault (Tm × ℤ)
bzr_time year mon day s = field 0 23 s >>= λ (h, r). expect b':' r >>= λ t.
    field 0 59 t >>= λ (m, u). expect b':' u >>= λ v. do_strtol v >>= λ (n, w).
    expect b' ' w >>= λ x.
    bzr_zone
      (record { mday = day; mon = sub_ℕ mon 1; year = year - 1900; hour = h; min = m; sec = n }) x

unfoldable pub bzr_parse : Bytes → Result DateFault (Tm × ℤ)
bzr_parse date = weekday date >>= λ s. field 1900 int_max s >>= λ (year, r). expect b'-' r >>= λ t.
    field 1 12 t >>= λ (mon, u). expect b'-' u >>= λ v.
    field 1 31 v >>= λ (day, w). expect b' ' w >>= λ x. bzr_time year mon day x

-- `mktime` is the C library's; none: it fails.
unfoldable pub bzrdate_to_time_t : (Tm → Option ℤ) → Bytes → Result DateFault ℤ
bzrdate_to_time_t mktime date = bzr_parse date >>= λ (tm, tz). elim (mktime tm) [
  | none ↦ failed mktime_failed
  | some t ↦ ok (t -ℤ tz)
]
