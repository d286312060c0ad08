-- ===== src/Dates/Render.antt =====
-- Dates as RFC 5322 writes them, and what lib/parse_date.cc reads from them.
use mathlib.Core.List.{cons-ne-nil, map}
use nntp_tools.Prelude.{
  ℕ, ◌+◌, ◌-◌, ◌*◌, ltb, if◌then◌else◌, ◌≤◌, ◌<◌, ◌≡◌, ◌≢◌, refl, ap, ◌∙◌, false, [], ◌∷◌, ◌++◌,
  Bytes, codes, ◌⊎◌, inl, inr, ok, failed, arith, equal,
}
use nntp_tools.Prelude.Int.{ℤ, pos, negate, ◌-ℤ◌, sub-sub}
use nntp_tools.Text.{char_at, is_digit, is_alpha, to_lower}
use nntp_tools.Csv.{decimal_value}
use nntp_tools.Dates.{
  Tm, skip_ws, parse_word, skip_day, month, int_end, colon, seconds, numeric_zone, parse_zone,
  named_zone, check_mday, since_1900, parse_time, parse_month, parse_date_std, parse_date, bad_mday,
  bad_year, bad_hour, bad_minute, bad_second,
}
use nntp_tools.Dates.Months.{month_name, month_known}
use nntp_tools.Dates.Zones.{zone}
use nntp_tools.Dates.Fields.{
  AreLetters, IsNumber, is_blank, skip_ws-solid, skip_ws-space, parse_int-append, parse_int-space,
  parse_word-space, skip_day-number, skip_day-day,
}

-- The texts between the separators of a date.
pub record Written : Type 0 where
  pub weekday : Bytes
  pub mday : Bytes
  pub month : Bytes
  pub year : Bytes
  pub hour : Bytes
  pub min : Bytes
  pub sec : Bytes

clock : Written → Bytes → Bytes
clock w zone = b' ' ∷ (w.hour ++ (b':' ∷ (w.min ++ (b':' ∷ (w.sec ++ (b' ' ∷ zone))))))

calendar : Written → Bytes → Bytes
calendar w rest = w.mday ++ (b' ' ∷ (w.month ++ (b' ' ∷ (w.year ++ rest))))

abbrev pub with_day : Bytes → Bytes → Bytes
with_day [] text = text
with_day (c ∷ day) text = (c ∷ day) ++ (b',' ∷ b' ' ∷ text)

-- `Thu, 25 Nov 2010 12:30:00 +0100`, or without `Thu, ` where there is no day of the week.
pub render : Written → Bytes → Bytes
render w zone = with_day w.weekday (calendar w (clock w zone))

-- The values of the fields: a day of the month from 1 to 31, the name of a month in upper or lower case,
-- and numbers that fit an `int`.
pub record IsDate (w : Written) (mon : ℕ) : Type 0 where
  pub weekday_letters : AreLetters w.weekday
  pub mday_number : IsNumber w.mday
  pub mday_low : 1 ≤ decimal_value 0 w.mday
  pub mday_high : decimal_value 0 w.mday ≤ 31
  pub month_letters : AreLetters w.month
  pub mon_valid : mon < 12
  pub month_named : map to_lower w.month ≡ month_name mon
  pub year_number : IsNumber w.year
  pub year_int : decimal_value 0 w.year < int_end
  pub hour_number : IsNumber w.hour
  pub hour_int : decimal_value 0 w.hour < int_end
  pub min_number : IsNumber w.min
  pub min_int : decimal_value 0 w.min < int_end
  pub sec_number : IsNumber w.sec
  pub sec_int : decimal_value 0 w.sec < int_end

-- A year as `struct tm` counts it; what is below 1900 counts from 1900 already.
pub year_of : ℕ → ℕ
year_of year = if ltb year 1900 then year else year - 1900

since_1900-year_of : (year : ℕ) → since_1900 year ≡ year_of year
unfolding year_of
since_1900-year_of year = ground arith

-- The date that is written.
pub tm_of : Written → ℕ → Tm
tm_of w mon = record {
  mday = decimal_value 0 w.mday;
  mon = pos mon;
  year = year_of (decimal_value 0 w.year);
  hour = decimal_value 0 w.hour;
  min = decimal_value 0 w.min;
  sec = pos (decimal_value 0 w.sec);
}

-- A zone that does not start with a blank.
pub IsOffsetText : Bytes → ℤ → Type 0
IsOffsetText zone z = (is_blank (char_at zone 0) ≡ false) × (parse_zone zone ≡ ok z)

parse_zone-space :
    (zone : Bytes) (z : ℤ) → IsOffsetText zone z → parse_zone (skip_ws (b' ' ∷ zone)) ≡ ok z
unfolding IsOffsetText
parse_zone-space [] z (_, h) = unfold skip_ws in h
parse_zone-space (c ∷ zone) z (solid, h) =
    ap parse_zone (skip_ws-space (c ∷ zone) ∙ skip_ws-solid c zone solid) ∙ h

parse_time-clock :
    (w : Written) (mon : ℕ) (zone : Bytes) (z : ℤ)
    → IsDate w mon
    → IsOffsetText zone z
    → parse_time (decimal_value 0 w.mday) mon (since_1900 (decimal_value 0 w.year)) (clock w zone)
      ≡ ok (tm_of w mon, z)
unfolding clock tm_of parse_time decimal_value colon seconds
parse_time-clock w mon zone z d h =
    let last = w.sec ++ (b' ' ∷ zone) in
    let later = w.min ++ (b':' ∷ last) in
    rw
      (
        parse_int-space bad_hour w.hour (b':' ∷ later) d.hour_number d.hour_int refl,
        parse_int-append bad_minute w.min (b':' ∷ last) d.min_number d.min_int refl,
        parse_int-append bad_second w.sec (b' ' ∷ zone) d.sec_number d.sec_int refl,
        parse_zone-space zone z h,
        since_1900-year_of (decimal_value 0 w.year),
      )
      refl

month-ne-nil : (w : Bytes) (mon : ℕ) → month w ≡ ok mon → w ≢ []
unfolding month
month-ne-nil [] mon h _ = absurd (cc h)
month-ne-nil (c ∷ w) mon h e = cons-ne-nil c w e

parse_month-calendar :
    (w : Written) (mon : ℕ) (zone : Bytes) (z : ℤ)
    → IsDate w mon
    → IsOffsetText zone z
    → parse_month (decimal_value 0 w.mday) (b' ' ∷ (w.month ++ (b' ' ∷ (w.year ++ clock w zone))))
      ≡ ok (tm_of w mon, z)
unfolding parse_month clock
parse_month-calendar w mon zone z d h =
    let rest = b' ' ∷ (w.year ++ clock w zone) in
    let known = month_known w.month mon d.mon_valid d.month_named in
    rw
      (
        parse_word-space w.month rest (month-ne-nil w.month mon known) d.month_letters refl,
        known,
        parse_int-space bad_year w.year (clock w zone) d.year_number d.year_int refl,
      )
      (parse_time-clock w mon zone z d h)

check_mday_lem : (n : ℕ) → 1 ≤ n → n ≤ 31 → check_mday n ≡ ok n
unfolding check_mday
check_mday_lem n l h = ground arith

parse_date_std-calendar :
    (w : Written) (mon : ℕ) (zone : Bytes) (z : ℤ) (text : Bytes)
    → IsDate w mon
    → IsOffsetText zone z
    → skip_ws (skip_day text) ≡ calendar w (clock w zone)
    → parse_date_std text ≡ ok (tm_of w mon, z)
unfolding parse_date_std calendar
parse_date_std-calendar w mon zone z text d h at =
    let rest = b' ' ∷ (w.month ++ (b' ' ∷ (w.year ++ clock w zone))) in
    rw
      (
        at,
        parse_int-append bad_mday w.mday rest d.mday_number (omega (arith, d.mday_high)) refl,
        check_mday_lem (decimal_value 0 w.mday) d.mday_low d.mday_high,
      )
      (parse_month-calendar w mon zone z d h)

skip_day-render :
    (w : Written) (zone : Bytes)
    → AreLetters w.weekday
    → IsNumber w.mday
    → skip_ws (skip_day (render w zone)) ≡ calendar w (clock w zone)
unfolding render calendar
skip_day-render w zone letters number = headed w.weekday letters
  where
    rest : Bytes
    rest = b' ' ∷ (w.month ++ (b' ' ∷ (w.year ++ clock w zone)))

    headed :
        (day : Bytes)
        → AreLetters day
        → skip_ws (skip_day (with_day day (w.mday ++ rest))) ≡ w.mday ++ rest
    headed [] l = skip_day-number w.mday rest number
    headed (c ∷ day) l = skip_day-day (c ∷ day) w.mday rest (cons-ne-nil c day) l number

-- A written date is read back, with a zone that has the given offset.
parse_date-written :
    (timegm : Tm → ℤ) (w : Written) (mon : ℕ) (zone : Bytes) (z : ℤ)
    → IsDate w mon
    → IsOffsetText zone z
    → parse_date timegm (render w zone) ≡ timegm (tm_of w mon) -ℤ z
unfolding tm_of parse_date ◌-ℤ◌
parse_date-written timegm w mon zone z d h =
    rw
      (
        parse_date_std-calendar w mon zone z (render w zone) d h
            (skip_day-render w zone d.weekday_letters d.mday_number),
        parse_date,
      )
      refl

-- A zone of a sign and four digits, which stand for hours and minutes, with anything behind it.
pub numeric_zone-IsOffsetText :
    (a b c d : ℕ) (rest : Bytes)
    → a ≤ 9
    → b ≤ 9
    → c ≤ 9
    → d ≤ 9
    → IsOffsetText
        (b'+' ∷ (b'0' + a) ∷ (b'0' + b) ∷ (b'0' + c) ∷ (b'0' + d) ∷ rest)
        (pos (((10 * a + b) * 60 + (10 * c + d)) * 60))
      × IsOffsetText
          (b'-' ∷ (b'0' + a) ∷ (b'0' + b) ∷ (b'0' + c) ∷ (b'0' + d) ∷ rest)
          (negate (((10 * a + b) * 60 + (10 * c + d)) * 60))
unfolding IsOffsetText parse_zone numeric_zone
numeric_zone-IsOffsetText a b c d rest ha hb hc hd = ground (arith, ha, hb, hc, hd)

-- A zone east or west of Greenwich, by the two digits of its hours and the two of its minutes.
pub data Offset : Type 0 where
  east west : ℕ → ℕ → ℕ → ℕ → Offset

pub hhmm : ℕ → ℕ → ℕ → ℕ → Bytes
hhmm a b c d = (b'0' + a) ∷ (b'0' + b) ∷ (b'0' + c) ∷ (b'0' + d) ∷ []

-- `+0100`, with anything behind it.
pub offset_text : Offset → Bytes → Bytes
offset_text (east a b c d) rest = b'+' ∷ hhmm a b c d ++ rest
offset_text (west a b c d) rest = b'-' ∷ hhmm a b c d ++ rest

-- The seconds of an offset, which a time west of Greenwich is behind.
pub offset_seconds : Offset → ℤ
offset_seconds (east a b c d) = pos (((10 * a + b) * 60 + (10 * c + d)) * 60)
offset_seconds (west a b c d) = negate (((10 * a + b) * 60 + (10 * c + d)) * 60)

pub record AreDecimal (a b c d : ℕ) : Type 0 where
  pub first : a ≤ 9
  pub second : b ≤ 9
  pub third : c ≤ 9
  pub fourth : d ≤ 9

unfoldable pub IsOffset : Offset → Type 0
IsOffset (east a b c d) = AreDecimal a b c d
IsOffset (west a b c d) = AreDecimal a b c d

offset-IsOffsetText :
    (o : Offset) (rest : Bytes) → IsOffset o → IsOffsetText (offset_text o rest) (offset_seconds o)
unfolding IsOffset offset_text offset_seconds hhmm
offset-IsOffsetText (east a b c d) rest h =
    (numeric_zone-IsOffsetText a b c d rest h.first h.second h.third h.fourth).0
offset-IsOffsetText (west a b c d) rest h =
    (numeric_zone-IsOffsetText a b c d rest h.first h.second h.third h.fourth).1

-- A date is read back as `timegm` of its fields less the offset of its zone: with or without its day of
-- the week, with a day of the month from 1 to 31, the three letters of a month in upper or lower case,
-- numbers that fit an `int`, where a year below 1900 counts from 1900, and a zone of a sign and four
-- digits with anything behind it.
pub parse_date-render :
    (timegm : Tm → ℤ) (w : Written) (mon : ℕ) (o : Offset) (rest : Bytes)
    → IsDate w mon
    → IsOffset o
    → parse_date timegm (render w (offset_text o rest)) ≡ timegm (tm_of w mon) -ℤ offset_seconds o
parse_date-render timegm w mon o rest d h =
    parse_date-written timegm w mon (offset_text o rest) (offset_seconds o) d
      (offset-IsOffsetText o rest h)

check_mday-bad : (n : ℕ) → (n ≡ 0) ⊎ (31 < n) → check_mday n ≡ failed bad_mday
unfolding check_mday
check_mday-bad n (inl z) = ground (arith, z)
check_mday-bad n (inr h) = ground (arith, h)

parse_date_std-bad_mday :
    (w : Written) (zone : Bytes)
    → AreLetters w.weekday
    → IsNumber w.mday
    → decimal_value 0 w.mday < int_end
    → (decimal_value 0 w.mday ≡ 0) ⊎ (31 < decimal_value 0 w.mday)
    → parse_date_std (render w zone) ≡ failed bad_mday
unfolding parse_date_std calendar
parse_date_std-bad_mday w zone letters number small bad =
    let rest = b' ' ∷ (w.month ++ (b' ' ∷ (w.year ++ clock w zone))) in
    rw
      (
        skip_day-render w zone letters number,
        parse_int-append bad_mday w.mday rest number small refl,
        check_mday-bad (decimal_value 0 w.mday) bad,
      )
      refl

-- A date whose day of the month is 0 or more than 31 is refused, whatever follows: the time 0.
parse_date-bad_mday :
    (timegm : Tm → ℤ) (w : Written) (zone : Bytes)
    → AreLetters w.weekday
    → IsNumber w.mday
    → decimal_value 0 w.mday < int_end
    → (decimal_value 0 w.mday ≡ 0) ⊎ (31 < decimal_value 0 w.mday)
    → parse_date timegm (render w zone) ≡ pos 0
unfolding parse_date
parse_date-bad_mday timegm w zone letters number small bad =
    rw (parse_date_std-bad_mday w zone letters number small bad, parse_date) refl

est-IsOffsetText : IsOffsetText (codes "EST") (negate 300)
unfolding IsOffsetText parse_zone named_zone parse_word zone nntp_tools.Text.lookup
    nntp_tools.Text.insert equal
est-IsOffsetText = (refl, refl)

-- The same time in the zones "EST" and "-0500", which are one, comes out 17700 seconds apart.
parse_date-ne-est :
    (timegm : Tm → ℤ) (w : Written) (mon : ℕ)
    → IsDate w mon
    → parse_date timegm (render w (codes "-0500")) -ℤ parse_date timegm (render w (codes "EST"))
      ≡ pos 17700
unfolding ◌-ℤ◌
parse_date-ne-est timegm w mon d =
    rw
      (
        parse_date-written timegm w mon (codes "-0500") (negate 18000) d
            (numeric_zone-IsOffsetText 0 5 0 0 [] (omega arith) (omega arith) (omega arith)
              (omega arith)).1,
        parse_date-written timegm w mon (codes "EST") (negate 300) d est-IsOffsetText,
      )
      (sub-sub (timegm (tm_of w mon)) (negate 18000) (negate 300))
