-- ===== src/TimeGraph.antt =====
-- The packing of calendar times in graph/TimeGraph.cc and TimeGraph.h. Years before 1900 are left out.
pub mod Packing
mod Tests
use nntp_tools.Prelude.{ℕ, ◌+◌, ◌*◌, ◌/◌, ◌%◌, ◌-◌, Option, none, Bool}

-- The fields of `struct tm` that the code uses; `none` is the -1 of `tm_isdst`.
pub record Tm : Type 0 where
  pub year : ℕ
  pub mon : ℕ
  pub mday : ℕ
  pub hour : ℕ
  pub min : ℕ
  pub sec : ℕ
  pub isdst : Option Bool

-- `decompose_fn` and `compose_fn`, such as `gmtime_r` and `timegm`, with their `time_t`.
module _ {T : Type 0} (decompose_fn : T → Tm) (compose_fn : Tm → T) where
  -- `compose`.
  unfoldable pub compose : Tm → T
  compose dc = compose_fn (record dc { sec = 0; min = 0; isdst = none })

  -- A `struct tm` of which the code has set the year, the month, the day and the hour.
  abbrev pub date : ℕ → ℕ → ℕ → ℕ → Tm
  date year mon mday hour = record {
    year = year;
    mon = mon;
    mday = mday;
    hour = hour;
    min = 0;
    sec = 0;
    isdst = none;
  }

  unfoldable pub hour : T → ℕ
  hour t = let dc = decompose_fn t in dc.hour + 32 * ((dc.mday - 1) + 32 * (dc.mon + 16 * dc.year))

  unfoldable pub hourstart : ℕ → T
  unfolding compose
  hourstart h = compose (date (h / 32 / 32 / 16) (h / 32 / 32 % 16) (1 + h / 32 % 32) (h % 32))

  unfoldable pub day : T → ℕ
  day t = let dc = decompose_fn t in (dc.mday - 1) + 32 * (dc.mon + 16 * dc.year)

  unfoldable pub daystart : ℕ → T
  unfolding compose
  daystart d = compose (date (d / 32 / 16) (d / 32 % 16) (1 + d % 32) 0)

  unfoldable pub month : T → ℕ
  month t = let dc = decompose_fn t in dc.mon + 16 * dc.year

  unfoldable pub monthstart : ℕ → T
  unfolding compose
  monthstart m = compose (date (m / 16) (m % 16) 1 0)

  unfoldable pub year : T → ℕ
  year t = (decompose_fn t).year

  unfoldable pub yearstart : ℕ → T
  unfolding compose
  yearstart y = compose (date y 0 1 0)

  unfoldable pub nexthour : T → T
  nexthour t = hourstart (hour t + 1)

  unfoldable pub nextday : T → T
  nextday t = daystart (day t + 1)

  unfoldable pub nextmonth : T → T
  nextmonth t = monthstart (month t + 1)

  unfoldable pub nextyear : T → T
  nextyear t = yearstart (year t + 1)
