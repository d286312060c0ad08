-- ===== src/Dates/W3.antt =====
-- The W3 and RFC 822 dates of lib/utils.c. `time_t` and `long` are unbounded here.
pub mod Render
use nntp_tools.Prelude.{
  ℕ, zero, suc, ◌+◌, ◌-◌, ◌*◌, ◌≤◌, ◌≡◌, refl, sym, ap, ◌∙◌, Bool, true, false, ◌||◌, List, [], ◌∷◌,
  ◌++◌, Option, none, some, Bytes, codes, ltb, ◌==◌, if◌then◌else◌, Result, ok, failed, ◌>>=◌,
  arith,
}
use nntp_tools.Prelude.Int.{ℤ, pos, negsuc, sub_ℕ, times, ◌+ℤ◌, ◌-ℤ◌}
use nntp_tools.Dates.{Tm}
use nntp_tools.Dates.Strtol.{
  DateFault, bad_date, bad_zone, mktime_failed, strptime_failed, gmtime_failed, do_strtol, field,
  expect, int_max,
}

-- The variables of `w3date_to_time_t`.
pub record W3 : Type 0 where
  pub year : ℕ
  pub mon : ℕ
  pub day : ℕ
  pub hour : ℕ
  pub min : ℕ
  pub sec : ℕ
  pub tzh : ℤ
  pub tzm : ℤ

abbrev pub initial : W3
initial = record {
  year = 0;
  mon = 0;
  day = 1;
  hour = 0;
  min = 0;
  sec = 0;
  tzh = pos 0;
  tzm = pos 0;
}

unfoldable pub zone_minutes : W3 → ℤ × Bytes → Result DateFault (W3 × Bytes)
zone_minutes w (h, s) =
    expect b':' s >>= λ t. do_strtol t >>= λ (m, r). ok (record w { tzh = h; tzm = m }, r)

unfoldable pub w3_zone : W3 → Bytes → Result DateFault (W3 × Bytes)
w3_zone w [] = failed bad_zone
w3_zone w (c ∷ s) =
    if c == b'+' || c == b'-'
    then (do_strtol (c ∷ s) >>= zone_minutes w)
    else if c == b'Z'
    then ok (w, s)
    else failed bad_zone

-- The fraction of the seconds is thrown away.
unfoldable pub w3_fraction : W3 → Bytes → Result DateFault (W3 × Bytes)
w3_fraction w [] = w3_zone w []
w3_fraction w (c ∷ s) =
    if c == b'.' then (do_strtol s >>= λ (n, r). w3_zone w r) else w3_zone w (c ∷ s)

unfoldable pub w3_seconds : W3 → Bytes → Result DateFault (W3 × Bytes)
w3_seconds w [] = w3_zone w []
w3_seconds w (c ∷ s) =
    if c == b':'
    then (field 0 61 s >>= λ (n, r). w3_fraction (record w { sec = n }) r)
    else w3_zone w (c ∷ s)

unfoldable pub w3_time : W3 → Bytes → Result DateFault (W3 × Bytes)
w3_time w [] = ok (w, [])
w3_time w (c ∷ s) =
    if c == b'T'
    then (field 0 23 s >>= λ (h, r). expect b':' r >>= λ t.
        field 0 59 t >>= λ (m, u). w3_seconds (record w { hour = h; min = m }) u)
    else ok (w, c ∷ s)

unfoldable pub w3_day : W3 → Bytes → Result DateFault (W3 × Bytes)
w3_day w [] = ok (w, [])
w3_day w (c ∷ s) =
    if c == b'-'
    then (field 1 31 s >>= λ (n, r). w3_time (record w { day = n }) r)
    else ok (w, c ∷ s)

unfoldable pub w3_month : W3 → Bytes → Result DateFault (W3 × Bytes)
w3_month w [] = ok (w, [])
w3_month w (c ∷ s) =
    if c == b'-'
    then (field 1 12 s >>= λ (n, r). w3_day (record w { mon = n }) r)
    else ok (w, c ∷ s)

-- Nothing may be left.
unfoldable pub w3_end : W3 × Bytes → Result DateFault W3
w3_end (w, []) = ok w
w3_end (w, c ∷ s) = failed bad_date

unfoldable pub w3_parse : Bytes → Result DateFault W3
w3_parse s =
    (field 1900 int_max s >>= λ (n, r). w3_month (record initial { year = n }) r) >>= w3_end

-- `tz`.
unfoldable pub w3_offset : ℤ → ℤ → ℤ
w3_offset (pos (suc h)) m = pos (3600 * suc h) +ℤ times 60 m
w3_offset h m = times 3600 h -ℤ times 60 m

-- `bdt`; the month counts from 0.
unfoldable pub w3_tm : W3 → Tm
w3_tm w = record {
  mday = w.day;
  mon = sub_ℕ (w.mon) 1;
  year = w.year - 1900;
  hour = w.hour;
  min = w.min;
  sec = pos (w.sec);
}

-- `gmtime_r` and `strftime` of the C library; none: the first fails.
unfoldable pub time_t_to_822date : (ℤ → Option Bytes) → ℤ → Result DateFault Bytes
time_t_to_822date format_822 t = elim (format_822 t) [ none ↦ failed gmtime_failed | some s ↦ ok s ]

-- `mktime` of the C library; none: it fails.
module _ (mktime : Tm → Option ℤ) where
  -- The time of the fields, less the offset.
  unfoldable pub stamp : Tm → ℤ → Result DateFault ℤ
  stamp tm offset = elim (mktime tm) [ none ↦ failed mktime_failed | some t ↦ ok (t -ℤ offset) ]

  unfoldable pub w3date_to_time_t : Bytes → Result DateFault ℤ
  w3date_to_time_t s = w3_parse s >>= λ w. stamp (w3_tm w) (w3_offset w.tzh w.tzm)

  unfoldable pub w3date_to_822date : (ℤ → Option Bytes) → Bytes → Result DateFault Bytes
  w3date_to_822date format_822 s = w3date_to_time_t s >>= time_t_to_822date format_822

  -- `strptime` is the C library's too.
  unfoldable pub rfc822date_to_time_t : (Bytes → Option Tm) → Bytes → Result DateFault ℤ
  rfc822date_to_time_t strptime s = elim (strptime s) [
    | none ↦ failed strptime_failed
    | some tm ↦ elim (mktime tm) [ none ↦ failed mktime_failed | some t ↦ ok t ]
  ]
