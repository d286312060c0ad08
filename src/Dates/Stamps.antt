-- ===== src/Dates/Stamps.antt =====
-- The digits of a time stamp, as the date converters of lib/utils.c check them.
use nntp_tools.Prelude.{ℕ, ◌≤◌, Bytes}
use nntp_tools.Csv.{decimal_value}
use nntp_tools.Dates.Fields.{IsNumber}
use nntp_tools.Dates.Strtol.{int_max}

pub record Stamp : Type 0 where
  pub year : Bytes
  pub mon : Bytes
  pub day : Bytes
  pub hour : Bytes
  pub min : Bytes
  pub sec : Bytes

-- A number from `low` to `high`.
pub record IsField (low high : ℕ) (d : Bytes) : Type 0 where
  pub is_number : IsNumber d
  pub above : low ≤ decimal_value 0 d
  pub below : decimal_value 0 d ≤ high

-- The fields within their ranges, the seconds up to `top`.
pub record IsStamp (top : ℕ) (s : Stamp) : Type 0 where
  pub year_valid : IsField 1900 int_max s.year
  pub mon_valid : IsField 1 12 s.mon
  pub day_valid : IsField 1 31 s.day
  pub hour_valid : IsField 0 23 s.hour
  pub min_valid : IsField 0 59 s.min
  pub sec_valid : IsField 0 top s.sec
