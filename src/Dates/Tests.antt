-- ===== src/Dates/Tests.antt =====
-- The date parser on concrete texts, with the C library's `timegm` replaced by the seconds of the day.
use nntp_tools.Prelude.{
  ℕ, ◌+◌, ◌*◌, ◌≡◌, refl, inr, true, false, ◌≤◌, Option, some, Bytes, codes, failed, ok, [], ◌∷◌,
  arith,
}
use mathlib.Core.List.{cons-ne-nil}
use nntp_tools.Csv
use nntp_tools.Dates
use nntp_tools.Prelude.Int.{ℤ, pos, ◌-ℤ◌, ◌+ℤ◌}
use nntp_tools.Dates.{Tm, parse_date_std, parse_date, unknown_zone, bad_minute, short_zone}
use nntp_tools.Dates.Strtol.{int_max}
use nntp_tools.Dates.Stamps.{Stamp, IsField, IsStamp}
use nntp_tools.Dates.W3
use nntp_tools.Dates.W3.{w3date_to_time_t}
use nntp_tools.Dates.W3.Render.{w3_render, stamp_tm, w3date_to_time_t-minutes}
use nntp_tools.Dates.Bzr.{bzrdate_to_time_t}
use nntp_tools.Dates.Bzr.Render.{bzr_render, IsTz, bzrdate_to_time_t-render}
use nntp_tools.Dates.Fields.{IsNumber, AreLetters, AreDigits}
use nntp_tools.Dates.Months.{month_name}
use nntp_tools.Dates.Render.{
  Written, IsDate, render, tm_of, parse_date-render, west, offset_text, offset_seconds, IsOffset,
}

abbrev seconds_of_day : Tm → ℤ
seconds_of_day tm = pos ((tm.hour * 60 + tm.min) * 60) +ℤ tm.sec

abbrev thursday : Written
thursday = record {
  weekday = codes "Thu";
  mday = codes "25";
  month = codes "NOV";
  year = codes "2010";
  hour = codes "09";
  min = codes "30";
  sec = codes "05";
}

thursday-IsDate : IsDate thursday 10
unfolding AreLetters IsNumber AreDigits nntp_tools.Csv.decimal_value month_name
    nntp_tools.Prelude.equal
thursday-IsDate = record {
  weekday_letters = (refl, (refl, (refl, tt)));
  mday_number = (cons-ne-nil _ _, (refl, (refl, tt)));
  mday_low = omega arith;
  mday_high = omega arith;
  month_letters = (refl, (refl, (refl, tt)));
  mon_valid = omega arith;
  month_named = refl;
  year_number = (cons-ne-nil _ _, (refl, (refl, (refl, (refl, tt)))));
  year_int = omega arith;
  hour_number = (cons-ne-nil _ _, (refl, (refl, tt)));
  hour_int = omega arith;
  min_number = (cons-ne-nil _ _, (refl, (refl, tt)));
  min_int = omega arith;
  sec_number = (cons-ne-nil _ _, (refl, (refl, tt)));
  sec_int = omega arith;
}

parse_date-render_example :
    parse_date seconds_of_day (render thursday (offset_text (west 0 1 3 0) (codes " (X)")))
    ≡ seconds_of_day (tm_of thursday 10) -ℤ offset_seconds (west 0 1 3 0)
unfolding IsOffset
parse_date-render_example =
    parse_date-render seconds_of_day thursday 10 (west 0 1 3 0) (codes " (X)") thursday-IsDate
      (record {
        first = omega arith;
        second = omega arith;
        third = omega arith;
        fourth = omega arith;
      })

short_zone_test : parse_date_std (codes "Saturday, 29 May 2010 00:29:01 +000") ≡ failed short_zone
unfolding parse_date_std Dates.parse_int Dates.skip_ws Dates.skip_day Dates.skip_comma
    Dates.parse_word Dates.check_mday Dates.digits_from Dates.parse_month Dates.month
    Dates.month_from nntp_tools.Prelude.equal Dates.parse_time Dates.colon Dates.seconds
    Dates.parse_zone Dates.numeric_zone Dates.as_int
short_zone_test = refl

abbrev noon : Stamp
noon = record {
  year = codes "2010";
  mon = codes "11";
  day = codes "25";
  hour = codes "12";
  min = codes "30";
  sec = codes "59";
}

noon-IsStamp : (top : ℕ) → 59 ≤ top → IsStamp top noon
unfolding IsNumber AreDigits nntp_tools.Csv.decimal_value
noon-IsStamp top h = record {
  year_valid = record {
    is_number = (cons-ne-nil _ _, (refl, (refl, (refl, (refl, tt)))));
    above = omega arith;
    below = omega arith;
  };
  mon_valid = record {
    is_number = (cons-ne-nil _ _, (refl, (refl, tt)));
    above = omega arith;
    below = omega arith;
  };
  day_valid = record {
    is_number = (cons-ne-nil _ _, (refl, (refl, tt)));
    above = omega arith;
    below = omega arith;
  };
  hour_valid = record {
    is_number = (cons-ne-nil _ _, (refl, (refl, tt)));
    above = omega arith;
    below = omega arith;
  };
  min_valid = record {
    is_number = (cons-ne-nil _ _, (refl, (refl, tt)));
    above = omega arith;
    below = omega arith;
  };
  sec_valid = record {
    is_number = (cons-ne-nil _ _, (refl, (refl, tt)));
    above = omega arith;
    below = omega (arith, h);
  };
}

zeros-IsField : IsField 0 int_max (codes "00")
unfolding IsNumber AreDigits nntp_tools.Csv.decimal_value
zeros-IsField = record {
  is_number = (cons-ne-nil _ _, (refl, (refl, tt)));
  above = omega arith;
  below = omega arith;
}

thirty-IsField : IsField 0 int_max (codes "30")
unfolding IsNumber AreDigits nntp_tools.Csv.decimal_value
thirty-IsField = record {
  is_number = (cons-ne-nil _ _, (refl, (refl, tt)));
  above = omega arith;
  below = omega arith;
}

digits-IsTz : IsTz (codes "0130")
unfolding IsNumber AreDigits nntp_tools.Csv.decimal_value
digits-IsTz = record {
  is_number = (cons-ne-nil _ _, (refl, (refl, (refl, (refl, tt)))));
  hours = omega arith;
  minutes = omega arith;
}

abbrev some_seconds : Tm → Option ℤ
some_seconds tm = some (seconds_of_day tm)

w3date_to_time_t-minutes_example :
    w3date_to_time_t some_seconds (w3_render noon false (codes "00") (codes "30"))
    ≡ w3date_to_time_t some_seconds (w3_render noon true (codes "00") (codes "30"))
unfolding nntp_tools.Csv.decimal_value
w3date_to_time_t-minutes_example =
    w3date_to_time_t-minutes some_seconds noon (codes "00") (codes "30")
      (noon-IsStamp 61 (omega arith)) zeros-IsField thirty-IsField refl

bzrdate_to_time_t-render_example :
    bzrdate_to_time_t some_seconds (bzr_render b'S' b'u' b'n' noon false (codes "0130"))
    ≡ W3.stamp some_seconds (stamp_tm noon) (pos 5400)
unfolding nntp_tools.Csv.decimal_value
bzrdate_to_time_t-render_example =
    bzrdate_to_time_t-render some_seconds b'S' b'u' b'n' noon false (codes "0130") refl refl refl
      (noon-IsStamp int_max (omega arith)) digits-IsTz
