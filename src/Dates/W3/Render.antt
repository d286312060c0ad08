-- ===== src/Dates/W3/Render.antt =====
-- W3 dates down to the second, and what `w3date_to_time_t` of lib/utils.c reads from them.
use nntp_tools.Prelude.{
  ℕ, zero, suc, ◌-◌, ◌*◌, ◌≤◌, ◌≡◌, refl, sym, ap, ◌∙◌, Bool, true, false, [], ◌∷◌, ◌++◌, Option,
  Bytes, append-nil, ok, arith,
}
use nntp_tools.Prelude.Int.{ℤ, pos, negate, sub_ℕ, ◌-ℤ◌}
use nntp_tools.Text.{char_at, is_digit}
use nntp_tools.Csv.{decimal_value}
use nntp_tools.Dates.{Tm}
use nntp_tools.Dates.Stamps.{Stamp, IsField, IsStamp}
use nntp_tools.Dates.Strtol.{
  do_strtol, field, expect, int_max, field-append, do_strtol-append, do_strtol-sign, sign, signed,
}
use nntp_tools.Dates.W3.{
  W3, zone_minutes, w3_zone, w3_fraction, w3_seconds, w3_time, w3_day, w3_month, w3_end, w3_parse,
  w3_offset, w3_tm, stamp, w3date_to_time_t,
}

-- The zone: a sign, the hours and the minutes.
abbrev offset_text : Bool → Bytes → Bytes → Bytes
offset_text minus h m = sign minus ∷ (h ++ (b':' ∷ m))

-- `2010-11-25T12:30:05+01:00`.
pub w3_render : Stamp → Bool → Bytes → Bytes → Bytes
w3_render s minus h m =
    s.year
    ++ (b'-'
        ∷ (s.mon
            ++ (b'-'
                ∷ (s.day
                    ++ (b'T'
                        ∷ (s.hour
                            ++ (b':' ∷ (s.min ++ (b':' ∷ (s.sec ++ offset_text minus h m))))))))))

-- The fields that the text stands for, with its zone.
w3_of : Stamp → ℤ → ℤ → W3
w3_of s h m = record {
  year = decimal_value 0 s.year;
  mon = decimal_value 0 s.mon;
  day = decimal_value 0 s.day;
  hour = decimal_value 0 s.hour;
  min = decimal_value 0 s.min;
  sec = decimal_value 0 s.sec;
  tzh = h;
  tzm = m;
}

-- The zone's numbers are `int`s.
abbrev pub IsOffset : Bytes → Type 0
IsOffset = IsField 0 int_max

pub field-valid :
    (low high : ℕ) (d rest : Bytes)
    → IsField low high d
    → high ≤ int_max
    → is_digit (char_at rest 0) ≡ false
    → field low high (d ++ rest) ≡ ok (decimal_value 0 d, rest)
field-valid low high d rest v fits h =
    field-append low high d rest v.is_number v.above v.below fits h

do_strtol-end : (m : Bytes) → IsOffset m → do_strtol m ≡ ok (pos (decimal_value 0 m), [])
do_strtol-end m v =
    ap do_strtol (sym (append-nil m)) ∙ do_strtol-append m [] v.is_number v.below refl

w3_zone-offset :
    (w : W3) (minus : Bool) (h m : Bytes)
    → IsOffset h
    → IsOffset m
    → w3_zone w (offset_text minus h m)
      ≡ ok (record w { tzh = signed minus (decimal_value 0 h); tzm = pos (decimal_value 0 m) }, [])
unfolding w3_zone zone_minutes expect
w3_zone-offset w true h m vh vm =
    rw (do_strtol-sign true h (b':' ∷ m) vh.is_number vh.below refl, do_strtol-end m vm) refl
w3_zone-offset w false h m vh vm =
    rw (do_strtol-sign false h (b':' ∷ m) vh.is_number vh.below refl, do_strtol-end m vm) refl

w3_fraction-offset :
    (w : W3) (minus : Bool) (h m : Bytes)
    → w3_fraction w (offset_text minus h m) ≡ w3_zone w (offset_text minus h m)
unfolding w3_fraction
w3_fraction-offset w true h m = refl
w3_fraction-offset w false h m = refl

sign-not_digit : (minus : Bool) → is_digit (sign minus) ≡ false
sign-not_digit true = refl
sign-not_digit false = refl

w3_parse-render :
    (s : Stamp) (minus : Bool) (h m : Bytes)
    → IsStamp 61 s
    → IsOffset h
    → IsOffset m
    → w3_parse (w3_render s minus h m)
      ≡ ok (w3_of s (signed minus (decimal_value 0 h)) (pos (decimal_value 0 m)))
unfolding w3_parse w3_render w3_month w3_day w3_time w3_seconds w3_end w3_of expect
w3_parse-render s minus h m v vh vm =
    let zone = offset_text minus h m in
    let clock = s.hour ++ (b':' ∷ (s.min ++ (b':' ∷ (s.sec ++ zone)))) in
    rw
      (
        field-valid 1900 int_max s.year (b'-' ∷ (s.mon ++ (b'-' ∷ (s.day ++ (b'T' ∷ clock)))))
            v.year_valid (omega arith) refl,
        field-valid 1 12 s.mon (b'-' ∷ (s.day ++ (b'T' ∷ clock))) v.mon_valid (omega arith) refl,
        field-valid 1 31 s.day (b'T' ∷ clock) v.day_valid (omega arith) refl,
        field-valid 0 23 s.hour (b':' ∷ (s.min ++ (b':' ∷ (s.sec ++ zone)))) v.hour_valid
            (omega arith) refl,
        field-valid 0 59 s.min (b':' ∷ (s.sec ++ zone)) v.min_valid (omega arith) refl,
        field-valid 0 61 s.sec zone v.sec_valid (omega arith) (sign-not_digit minus),
        w3_fraction-offset (w3_of s (pos 0) (pos 0)) minus h m,
        w3_zone-offset (w3_of s (pos 0) (pos 0)) minus h m vh vm,
      )
      refl

w3_offset-minutes : (minus : Bool) (m : ℕ) → w3_offset (signed minus 0) (pos m) ≡ negate (60 * m)
unfolding w3_offset ◌-ℤ◌
w3_offset-minutes true m = ground arith
w3_offset-minutes false m = ground arith

-- The fields of the text as `mktime` gets them.
unfoldable pub stamp_tm : Stamp → Tm
stamp_tm s = record {
  mday = decimal_value 0 s.day;
  mon = sub_ℕ (decimal_value 0 s.mon) 1;
  year = decimal_value 0 s.year - 1900;
  hour = decimal_value 0 s.hour;
  min = decimal_value 0 s.min;
  sec = pos (decimal_value 0 s.sec);
}

module _ (mktime : Tm → Option ℤ) where
  w3date-offset :
      (s : Stamp) (minus : Bool) (h m : Bytes)
      → IsStamp 61 s
      → IsOffset h
      → IsOffset m
      → w3date_to_time_t mktime (w3_render s minus h m)
        ≡ stamp mktime
            (stamp_tm s)
            (w3_offset (signed minus (decimal_value 0 h)) (pos (decimal_value 0 m)))
  unfolding w3date_to_time_t w3_tm w3_of stamp_tm
  w3date-offset s minus h m v vh vm = rw (w3_parse-render s minus h m v vh vm) refl

  -- Zones of no hours lose their sign: with `+00:30` the time is the one of `-00:30`.
  pub w3date_to_time_t-minutes :
      (s : Stamp) (h m : Bytes)
      → IsStamp 61 s
      → IsOffset h
      → IsOffset m
      → decimal_value 0 h ≡ 0
      → w3date_to_time_t mktime (w3_render s false h m)
        ≡ w3date_to_time_t mktime (w3_render s true h m)
  w3date_to_time_t-minutes s h m v vh vm z =
      w3date-offset s false h m v vh vm
      ∙ (ap (stamp mktime (stamp_tm s)) (same (decimal_value 0 h) z)
          ∙ sym (w3date-offset s true h m v vh vm))
    where
      same :
          (n : ℕ)
          → n ≡ 0
          → w3_offset (signed false n) (pos (decimal_value 0 m))
            ≡ w3_offset (signed true n) (pos (decimal_value 0 m))
      same zero _ =
          w3_offset-minutes false (decimal_value 0 m)
          ∙ sym (w3_offset-minutes true (decimal_value 0 m))
      same (suc n) e = absurd (omega arith)
