-- ===== src/TimeGraph/Packing.antt =====
-- The starts of the hour, the day, the month and the year of a time.
use nntp_tools.Prelude.{ℕ, ◌+◌, ◌/◌, ◌%◌, ◌≤◌, ◌≡◌}
use nntp_tools.TimeGraph.{Tm, date, hour, year}

-- The ranges that C gives for the fields.
pub record IsTm (dc : Tm) : Type 0 where
  pub hour_le : dc.hour ≤ 23
  pub mday_pos : 1 ≤ dc.mday
  pub mday_le : dc.mday ≤ 31
  pub mon_le : dc.mon ≤ 11

-- The fields come back from a packed hour.
pub record IsPacked (n a b c d : ℕ) : Type 0 where
  pub low : n % 32 ≡ a
  pub middle : 1 + n / 32 % 32 ≡ b
  pub high : n / 32 / 32 % 16 ≡ c
  pub top : n / 32 / 32 / 16 ≡ d

module _ {T : Type 0} (decompose_fn : T → Tm) (compose_fn : Tm → T) where
  -- The time that the C library gives for a year, a month, a day and an hour.
  abbrev time : ℕ → ℕ → ℕ → ℕ → T
  time year mon mday hour = compose_fn (date decompose_fn compose_fn year mon mday hour)
