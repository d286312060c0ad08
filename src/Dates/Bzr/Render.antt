-- ===== src/Dates/Bzr/Render.antt =====
-- Bzr dates, and what `bzrdate_to_time_t` of lib/utils.c reads from them.
use nntp_tools.Prelude.{
  ℕ, ◌+◌, ◌*◌, ◌/◌, ◌%◌, ◌≤◌, ◌≡◌, refl, sym, ap, ◌∙◌, Bool, true, false, ◌||◌, [], ◌∷◌, ◌++◌,
  Option, Bytes, ltb, append-nil, ok, arith,
}
use nntp_tools.Prelude.Int.{ℤ, pos}
use nntp_tools.Text.{is_alpha}
use nntp_tools.Csv.{decimal_value}
use nntp_tools.Dates.{Tm}
use nntp_tools.Dates.Fields.{IsNumber}
use nntp_tools.Dates.Stamps.{Stamp, IsStamp}
use nntp_tools.Dates.W3.{stamp}
use nntp_tools.Dates.W3.Render.{stamp_tm, field-valid}
use nntp_tools.Atoi.{skip_space}
use nntp_tools.Dates.Strtol.{do_strtol, expect, int_max, do_strtol-append, sign, signed}
use nntp_tools.Dates.Bzr.{
  weekday, zone_sign, zone_seconds, at_end, bzr_zone, bzr_time, bzr_parse, bzrdate_to_time_t,
}

-- A day of three letters, the stamp, the sign of the zone and its digits.
pub bzr_render : ℕ → ℕ → ℕ → Stamp → Bool → Bytes → Bytes
bzr_render a b c s minus tz =
    a
    ∷ b
    ∷ c
    ∷ b' '
    ∷ (s.year
        ++ (b'-'
            ∷ (s.mon
                ++ (b'-'
                    ∷ (s.day
                        ++ (b' '
                            ∷ (s.hour
                                ++ (b':'
                                    ∷ (s.min
                                        ++ (b':' ∷ (s.sec ++ (b' ' ∷ sign minus ∷ tz))))))))))))

weekday-letters :
    (a b c : ℕ) (s : Bytes)
    → is_alpha a ≡ true
    → is_alpha b ≡ true
    → is_alpha c ≡ true
    → weekday (a ∷ b ∷ c ∷ b' ' ∷ s) ≡ ok s
unfolding weekday
weekday-letters a b c s ha hb hc = rw (ha, hb, hc) refl

-- The digits of a zone: up to 23 hours and 59 minutes.
pub record IsTz (tz : Bytes) : Type 0 where
  pub is_number : IsNumber tz
  pub hours : decimal_value 0 tz / 100 ≤ 23
  pub minutes : decimal_value 0 tz % 100 ≤ 59

zone_seconds-signed :
    (minus : Bool) (n : ℕ)
    → n / 100 ≤ 23
    → n % 100 ≤ 59
    → zone_seconds minus (pos n) ≡ ok (signed minus (60 * (n % 100 + 60 * (n / 100))))
unfolding zone_seconds
zone_seconds-signed minus n h m =
    let inside : (ltb 23 (n / 100) || ltb 59 (n % 100)) ≡ false = ground (arith, h, m) in
    rw (inside) refl

zone_sign-sign : (minus : Bool) (s : Bytes) → zone_sign (sign minus ∷ s) ≡ ok (minus, s)
unfolding zone_sign
zone_sign-sign true s = refl
zone_sign-sign false s = refl

bzr_zone-render :
    (tm : Tm) (minus : Bool) (tz : Bytes)
    → IsTz tz
    → bzr_zone tm (sign minus ∷ tz)
      ≡ ok (tm, signed minus (60 * (decimal_value 0 tz % 100 + 60 * (decimal_value 0 tz / 100))))
unfolding bzr_zone at_end skip_space
bzr_zone-render tm minus tz v =
    let fits : decimal_value 0 tz ≤ int_max = omega (arith, v.hours, v.minutes) in
    let digits_read : do_strtol tz ≡ ok (pos (decimal_value 0 tz), []) =
      ap do_strtol (sym (append-nil tz)) ∙ do_strtol-append tz [] v.is_number fits refl in
    rw
      (
        zone_sign-sign minus tz,
        digits_read,
        zone_seconds-signed minus (decimal_value 0 tz) v.hours v.minutes,
      )
      refl

bzr_parse-render :
    (a b c : ℕ) (s : Stamp) (minus : Bool) (tz : Bytes)
    → is_alpha a ≡ true
    → is_alpha b ≡ true
    → is_alpha c ≡ true
    → IsStamp int_max s
    → IsTz tz
    → bzr_parse (bzr_render a b c s minus tz)
      ≡ ok (
        stamp_tm s,
        signed minus (60 * (decimal_value 0 tz % 100 + 60 * (decimal_value 0 tz / 100))),
      )
unfolding bzr_parse bzr_render bzr_time expect stamp_tm
bzr_parse-render a b c s minus tz ha hb hc v vz =
    let zone = sign minus ∷ tz in
    let clock = s.hour ++ (b':' ∷ (s.min ++ (b':' ∷ (s.sec ++ (b' ' ∷ zone))))) in
    let date = s.year ++ (b'-' ∷ (s.mon ++ (b'-' ∷ (s.day ++ (b' ' ∷ clock))))) in
    rw
      (
        weekday-letters a b c date ha hb hc,
        field-valid 1900 int_max s.year (b'-' ∷ (s.mon ++ (b'-' ∷ (s.day ++ (b' ' ∷ clock)))))
            v.year_valid (omega arith) refl,
        field-valid 1 12 s.mon (b'-' ∷ (s.day ++ (b' ' ∷ clock))) v.mon_valid (omega arith) refl,
        field-valid 1 31 s.day (b' ' ∷ clock) v.day_valid (omega arith) refl,
        field-valid 0 23 s.hour (b':' ∷ (s.min ++ (b':' ∷ (s.sec ++ (b' ' ∷ zone))))) v.hour_valid
            (omega arith) refl,
        field-valid 0 59 s.min (b':' ∷ (s.sec ++ (b' ' ∷ zone))) v.min_valid (omega arith) refl,
        do_strtol-append s.sec (b' ' ∷ zone) v.sec_valid.is_number v.sec_valid.below refl,
        bzr_zone-render (stamp_tm s) minus tz vz,
      )
      refl

-- A bzr date with fields in their ranges, but seconds of any size an `int` has, is the time that
-- `mktime` gives for the fields less the zone's offset.
pub bzrdate_to_time_t-render :
    (mktime : Tm → Option ℤ) (a b c : ℕ) (s : Stamp) (minus : Bool) (tz : Bytes)
    → is_alpha a ≡ true
    → is_alpha b ≡ true
    → is_alpha c ≡ true
    → IsStamp int_max s
    → IsTz tz
    → bzrdate_to_time_t mktime (bzr_render a b c s minus tz)
      ≡ stamp mktime
          (stamp_tm s)
          (signed minus (60 * (decimal_value 0 tz % 100 + 60 * (decimal_value 0 tz / 100))))
unfolding bzrdate_to_time_t stamp
bzrdate_to_time_t-render mktime a b c s minus tz ha hb hc v vz =
    rw (bzr_parse-render a b c s minus tz ha hb hc v vz) refl
