-- ===== src/Time/RoundTrip.antt =====
-- `utc_to_date` of source/common/s4time.cpp against `date_to_utc`.
use s4_lib_lite.Prelude.{
  ℕ, suc, ◌+◌, ◌-◌, ◌*◌, ◌%◌, ◌≤◌, ◌<◌, ◌≡◌, refl, ap, ◌∙◌, Bool, true, false, none, some, arith,
}
use s4_lib_lite.Prelude.Int.{leb_ℤ, ℤ, pos, ◌+ℤ◌, ◌-ℤ◌, scale, quot, rem, difference-pos}
use s4_lib_lite.Time.Dates.{ok, date_to_utc, day_at}
use s4_lib_lite.Time.Calendar.{Date, IsDate, is_leap, pack, pack_time}
use s4_lib_lite.Time.Months.{days_of, day_number, date_to_utc-day_number}
use s4_lib_lite.Time.Offtime.{
  Filled, Broken, filled, mon_yday, raise_rem, lower_rem, isleap, month_loop, fill, year_loop,
  offtime, date_of, utc_to_date, fits_int, weekday, secs_per_day, stuck,
}
use s4_lib_lite.Time.MonthLoop.{
  days_of_same, day_at-mon_yday, month_loop-days_of, days_of-month, days_of-year_length,
}
use s4_lib_lite.Time.YearLoop.{IsYearOf, year_loop-IsYearOf}
use s4_lib_lite.Time.YearRounds.{isleap-pos}

IsYearOf-same : (d y r y' r' : ℕ) → IsYearOf d y r → IsYearOf d y' r' → (y ≡ y') × (r ≡ r')
IsYearOf-same d y r y' r' v w = (ground arith, ground arith)

-- The day of the year.
abbrev day_of_year : Date → ℕ
day_of_year d = days_of (is_leap d.year) 0 (d.month - 1) + d.day - 1

in_month : (d : Date) → IsDate d → day_of_year d < days_of (is_leap d.year) 0 d.month
in_month d v = omega (arith, v.day_lo, v.day_hi, days_of-month (is_leap d.year) d.month v.month_lo)

IsDate-IsYearOf : (d : Date) → IsDate d → IsYearOf (day_number d) d.year (day_of_year d)
IsDate-IsYearOf d v = record {
  year_lo = omega (arith, v.year_lo);
  year_hi = v.year_hi;
  in_year = omega (arith, in_month d v, days_of-year_length (is_leap d.year) d.month v.month_hi);
  total = omega (arith, v.day_lo);
}

IsYearOf-small : (d y r : ℕ) → IsYearOf d y r → d < 47482
IsYearOf-small d y r v = ground arith

year_loop-IsDate :
    (fuel : ℕ) (d : Date)
    → IsDate d
    → year_loop (suc (suc (suc fuel))) (pos 1970) (pos (day_number d))
      ≡ some (pos d.year, pos (day_of_year d))
year_loop-IsDate fuel d v =
    let w = IsDate-IsYearOf d v in
    let found =
      year_loop-IsYearOf fuel (day_number d)
        (IsYearOf-small (day_number d) d.year (day_of_year d) w) in
    let same = IsYearOf-same (day_number d) found.0 found.1 d.year (day_of_year d) found.2 w in
    found.3 ∙ ap (λ a. some (pos a, pos found.1)) same.0 ∙ ap (λ a. some (pos d.year, pos a)) same.1

-- The parts of the fields.
fields_of : (mon : ℕ) (y day h m s w yd : ℤ) → Filled
fields_of mon y day h m s w yd = record {
  tm_sec = s;
  tm_min = m;
  tm_hour = h;
  tm_mday = day;
  tm_mon = mon;
  tm_year = y;
  tm_wday = w;
  tm_yday = yd;
}

fill-parts :
    (leap : Bool) (mon : ℕ) (days r y yday year day h m s : ℤ)
    → isleap y ≡ leap
    → month_loop 11 yday (mon_yday leap) ≡ mon
    → y -ℤ pos 1900 ≡ year
    → fits_int year ≡ true
    → yday -ℤ pos (day_at mon (mon_yday leap)) +ℤ pos 1 ≡ day
    → quot r 3600 ≡ h
    → quot (rem r 3600) 60 ≡ m
    → rem (rem r 3600) 60 ≡ s
    → fill days r (y, yday) ≡ filled (fields_of mon year day h m s (weekday days) yday)
unfolding fill fields_of
fill-parts leap mon days r y yday year day h m s e f g fits b c d k =
    rw (e, f, g) (rw (fits, b, c, d, k) refl)

pub packed :
    (a b c : ℕ) → scale 10000 (pos a) +ℤ scale 100 (pos b) +ℤ pos c ≡ pos (a * 10000 + b * 100 + c)
packed a b c =
    ap (λ x. x +ℤ scale 100 (pos b) +ℤ pos c)
      (difference-pos (10000 * a) (10000 * 0) (a * 10000) (omega arith))
    ∙ ap (λ x. pos (a * 10000) +ℤ x +ℤ pos c)
        (difference-pos (100 * b) (100 * 0) (b * 100) (omega arith))
    ∙ ap (λ x. x +ℤ pos c)
        (difference-pos (a * 10000 + b * 100) (0 + 0) (a * 10000 + b * 100) (omega arith))
    ∙ difference-pos (a * 10000 + b * 100 + c) (0 + 0) (a * 10000 + b * 100 + c) (omega arith)

date_of-fields :
    (mon y day h m s : ℕ) (w yd : ℤ)
    → 1900 ≤ y
    → date_of (filled (fields_of mon (pos (y - 1900)) (pos day) (pos h) (pos m) (pos s) w yd))
      ≡ some (pos (y * 10000 + (mon + 1) * 100 + day), some (pos (pack_time h m s)))
unfolding date_of fields_of
date_of-fields mon y day h m s w yd lo =
    ap
      (λ a. some (
        scale 10000 a +ℤ scale 100 (pos (mon + 1)) +ℤ pos day,
        some (scale 10000 (pos h) +ℤ scale 100 (pos m) +ℤ pos s),
      ))
      (difference-pos (y - 1900 + 1900) (0 + 0) y (omega arith))
    ∙ ap (λ a. some (a, some (scale 10000 (pos h) +ℤ scale 100 (pos m) +ℤ pos s)))
        (packed y (mon + 1) day)
    ∙ ap (λ a. some (pos (y * 10000 + (mon + 1) * 100 + day), some a)) (packed h m s)

day_back : (r c day : ℕ) → c + day ≡ suc r → 1 ≤ day → pos r -ℤ pos c +ℤ pos 1 ≡ pos day
day_back r c day e one = ground arith

fits_int-small : (n : ℕ) → n ≤ 2099 → fits_int (pos n) ≡ true
fits_int-small n h = ground arith

fill-IsDate :
    (d : Date) (n h m s : ℕ)
    → IsDate d
    → h < 24
    → m < 60
    → s < 60
    → date_of (fill (pos n) (pos (h * 3600 + m * 60 + s)) (pos d.year, pos (day_of_year d)))
      ≡ some (pos (pack d), some (pos (pack_time h m s)))
fill-IsDate d n h m s v a b c =
    let month =
      month_loop-days_of (is_leap d.year) 11 (d.month - 1) (day_of_year d)
        (omega (arith, v.month_hi)) (omega arith) (omega (arith, v.day_lo))
        (omega (
          arith,
          in_month d v,
          days_of_same (is_leap d.year) (suc (d.month - 1)) d.month (omega (arith, v.month_lo)),
        )) in
    let entry = day_at-mon_yday (is_leap d.year) (d.month - 1) (omega (arith, v.month_hi)) in
    ap date_of (
      fill-parts (is_leap d.year) (d.month - 1) (pos n) (pos (h * 3600 + m * 60 + s)) (pos d.year)
        (pos (day_of_year d)) (pos (d.year - 1900)) (pos d.day) (pos h) (pos m) (pos s)
        (isleap-pos d.year (omega (arith, v.year_lo)) v.year_hi) month
        (difference-pos (d.year + 0) (0 + 1900) (d.year - 1900) (omega (arith, v.year_lo)))
        (fits_int-small (d.year - 1900) (omega (arith, v.year_hi)))
        (day_back (day_of_year d) (day_at (d.month - 1) (mon_yday (is_leap d.year))) d.day
          (omega (arith, entry, v.day_lo)) v.day_lo)
        (ap pos (omega arith)) (ap pos (omega arith)) (ap pos (omega arith)))
    ∙ date_of-fields (d.month - 1) d.year d.day h m s (weekday (pos n)) (pos (day_of_year d))
        (omega (arith, v.year_lo))
    ∙ ap (λ k. some (pos k, some (pos (pack_time h m s)))) (omega (arith, v.month_lo))

offtime-parts :
    (fuel : ℕ) (t a b c e f g : ℤ) (found : ℤ × ℤ)
    → quot t secs_per_day ≡ a
    → rem t secs_per_day +ℤ pos 0 ≡ b
    → raise_rem fuel a b ≡ some (c, e)
    → lower_rem fuel c e ≡ some (f, g)
    → year_loop fuel (pos 1970) f ≡ some found
    → offtime fuel t (pos 0) ≡ fill f g found
unfolding offtime
offtime-parts fuel t a b c e f g found q r up down year =
    rw (offtime, q, r)
      (rw (up, down)
        (ap (λ x. elim x as (λ y. Broken) [ none ↦ stuck | some z ↦ fill f g z ]) year))

raise_rem-day :
    (fuel : ℕ) (days : ℤ) (r : ℕ) → raise_rem (suc fuel) days (pos r) ≡ some (days, pos r)
unfolding raise_rem
raise_rem-day fuel days r = refl

lower_rem-day :
    (fuel : ℕ) (days : ℤ) (r : ℕ)
    → r < 86400
    → lower_rem (suc fuel) days (pos r) ≡ some (days, pos r)
unfolding lower_rem
lower_rem-day fuel days r h =
    let within : leb_ℤ (pos 86400) (pos r) ≡ false = ground arith in rw (within, lower_rem) refl

offtime-IsDate :
    (d : Date) (r : ℕ)
    → IsDate d
    → r < 86400
    → offtime 12 (pos (day_number d * 86400 + r)) (pos 0)
      ≡ fill (pos (day_number d)) (pos r) (pos d.year, pos (day_of_year d))
offtime-IsDate d r v h =
    offtime-parts 12 (pos (day_number d * 86400 + r)) (pos (day_number d)) (pos r)
      (pos (day_number d)) (pos r) (pos (day_number d)) (pos r) (pos d.year, pos (day_of_year d))
      (ap pos (omega arith))
      (difference-pos ((day_number d * 86400 + r) % 86400 + 0) (0 + 0) r (omega arith))
      (raise_rem-day 11 (pos (day_number d)) r) (lower_rem-day 11 (pos (day_number d)) r h)
      (year_loop-IsDate 9 d v)

-- For a date from 1981 to 2099 and a time of day, `date_to_utc` returns a number of seconds from
-- which `utc_to_date`, whose loops end, writes the same date and the same time.
pub utc_to_date-date_to_utc :
    (d : Date) (h m s : ℕ)
    → IsDate d
    → h < 24
    → m < 60
    → s < 60
    → (t : ℕ) × (date_to_utc (pos (pack d)) (pos (pack_time h m s)) ≡ ok t)
      × (utc_to_date (pos t) ≡ some (pos (pack d), some (pos (pack_time h m s))))
unfolding utc_to_date
utc_to_date-date_to_utc d h m s v a b c =
    let r = h * 3600 + m * 60 + s in
    let same : day_number d * 86400 + h * 3600 + m * 60 + s ≡ day_number d * 86400 + r =
      omega arith in
    (
      day_number d * 86400 + h * 3600 + m * 60 + s,
      date_to_utc-day_number d h m s v a b c,
      ap (λ t. date_of (offtime 12 (pos t) (pos 0))) same
          ∙ ap date_of (offtime-IsDate d r v (omega arith))
          ∙ fill-IsDate d (day_number d) h m s v a b c,
    )
