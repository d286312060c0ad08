-- ===== src/TimeGraph/Tests.antt =====
-- The theorems on packed times at the last hour of a month, with the broken-down time for `time_t`.
use nntp_tools.Prelude.{none}
use nntp_tools.TimeGraph.{Tm, hour, year}

abbrev self : Tm → Tm
self dc = dc

abbrev last : Tm
last = record { year = 126; mon = 11; mday = 31; hour = 23; min = 59; sec = 58; isdst = none }
