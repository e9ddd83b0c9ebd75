-- ===== src/Time/Examples.antt =====
-- Dates and times that the functions are tried on.
use s4_lib_lite.Prelude.{ℕ, ◌+◌, ◌*◌, ◌≡◌, refl, some, codes, arith, true}
use s4_lib_lite.Prelude.Int.{pos, negsuc}
use s4_lib_lite.Time.Offtime.{utc_to_date}
use s4_lib_lite.Time.Dates.{ok, out_of_bounds, date_to_utc, days_in, chk_stk_date_legal}
use s4_lib_lite.Time.Calendar.{Date, IsDate, pack, pack_time, days_later}
use s4_lib_lite.Time.DateLaws.{date_to_utc-days_later, days_in-days_later}
use s4_lib_lite.Prelude.Decimal.{print_padded}
use s4_lib_lite.Time.Texts.{
  utc_to_str, utc_to_str_minu, date_to_str, ms_to_str, ms_to_str_r, str_to_date, str_to_tm,
  now_date, now_minu_sec, utc_str_now,
}
use s4_lib_lite.Time.TextLaws.{str_to_date-date_to_str}
use s4_lib_lite.Time.RoundTrip.{utc_to_date-date_to_utc}

abbrev leap_day : Date
leap_day = record { year = 2024; month = 2; day = 29 }

leap_day-IsDate : IsDate leap_day
leap_day-IsDate = record {
  year_lo = omega arith;
  year_hi = omega arith;
  month_lo = omega arith;
  month_hi = omega arith;
  day_lo = omega arith;
  day_hi = omega arith;
}

two_days_later : days_later 2 leap_day ≡ record { year = 2024; month = 3; day = 2 }
unfolding days_later
two_days_later = refl

first_day : date_to_utc (pos 19810101) (pos 0) ≡ ok 347155200
unfolding date_to_utc
first_day = refl

date_to_utc-days_later_example :
    (u : ℕ) × (date_to_utc (pos 20240229) (pos 0) ≡ ok u)
    × (date_to_utc (pos (pack (days_later 2 leap_day))) (pos 93015)
        ≡ ok (u + 2 * 86400 + 9 * 3600 + 30 * 60 + 15))
unfolding days_later
date_to_utc-days_later_example =
    date_to_utc-days_later 2 leap_day 9 30 15 leap_day-IsDate (omega arith) (omega arith)
      (omega arith) (omega arith)

days_in-days_later_example :
    (days_in (pos 20240229) (pos (pack (days_later 2 leap_day))) ≡ ok (pos 2))
    × (days_in (pos (pack (days_later 2 leap_day))) (pos 20240229) ≡ ok (pos 2))
unfolding days_later
days_in-days_later_example =
    days_in-days_later 2 leap_day leap_day-IsDate (omega arith) (omega arith)

-- There was no such day.
bad_leap_day : chk_stk_date_legal (pos 20230229) ≡ true
unfolding chk_stk_date_legal
bad_leap_day = refl

last_int32 : utc_to_date (pos 2147483647) ≡ some (pos 20380119, some (pos 31407))
unfolding utc_to_date
last_int32 = refl

before_1970 : utc_to_date (negsuc 0) ≡ some (pos 19691231, some (pos 235959))
unfolding utc_to_date
before_1970 = refl

utc_to_date-date_to_utc_example :
    (t : ℕ) × (date_to_utc (pos (pack leap_day)) (pos (pack_time 9 30 15)) ≡ ok t)
    × (utc_to_date (pos t) ≡ some (pos (pack leap_day), some (pos (pack_time 9 30 15))))
utc_to_date-date_to_utc_example =
    utc_to_date-date_to_utc leap_day 9 30 15 leap_day-IsDate (omega arith) (omega arith)
      (omega arith)

str_to_date-date_to_str_example :
    str_to_date (date_to_str (pos (pack leap_day))) ≡ ok (pos (pack leap_day))
str_to_date-date_to_str_example = str_to_date-date_to_str leap_day leap_day-IsDate

stamp_text :
    (utc_to_str (pos 2147483647) ≡ some (codes "2038_01_19__03_14_07"))
    × (utc_to_str_minu (pos 2147483647) ≡ some (codes "03:14:07"))
unfolding utc_to_str utc_to_str_minu print_padded
stamp_text = (refl, refl)

-- Five milliseconds read like five tenths of a second.
ms_text : (ms_to_str 5 ≡ some (codes "08_00_00'5")) × (ms_to_str_r 5 ≡ some (codes "08:00:00.5"))
unfolding ms_to_str ms_to_str_r print_padded
ms_text = (refl, refl)

tm_text :
    (str_to_tm (codes "2010-11-30") (codes "11:30:45")
      ≡ ok ((pos 110, pos 10, pos 30), (pos 11, pos 30, pos 45)))
    × (str_to_date (codes "2010") ≡ out_of_bounds)
unfolding str_to_tm str_to_date
tm_text = (refl, refl)

-- Sixteen o'clock in Greenwich is midnight in Shanghai.
midnight :
    (now_date (pos 57600) ≡ some (pos 19700102))
    × (now_minu_sec (pos 57600) ≡ some (pos 0))
    × (utc_str_now (pos 57600) ≡ some (codes "1970_01_02__00_00_00"))
unfolding now_date now_minu_sec utc_str_now print_padded
midnight = (refl, refl, refl)
