-- ===== src/Time/DateLaws.antt =====
-- `date_to_utc` and `days_in` against the calendar.
use s4_lib_lite.Prelude.{
  ℕ, zero, suc, ◌+◌, ◌-◌, ◌*◌, ◌/◌, ◌%◌, ◌≤◌, ◌<◌, ◌≡◌, refl, ap, ◌∙◌, Bool, true, false, List, [],
  ◌∷◌, arith, length, ltb,
}
use s4_lib_lite.Prelude.Int.{ℤ, pos}
use s4_lib_lite.Time.Dates.{
  ok, mon_days_leap, date_to_utc, days_in, int_days, days_between, day_at, chk_stk_date_legal,
}
use s4_lib_lite.Time.Calendar.{Date, IsDate, is_leap, length_of, pack, pack_time, days_later}
use s4_lib_lite.Time.Months.{
  day_number, IsTable, date_to_utc-day_number, length_of-small, pack-fields, leap-IsTable,
  same_length,
}
use s4_lib_lite.Time.DayNumber.{date_to_utc-midnight, days_later-IsDate, day_number-days_later}

-- For every date of the calendar and every date `n` days later up to 2099, and every time of the
-- day, `date_to_utc` of the later date and the time is `date_to_utc` of the earlier date's midnight,
-- which it computes, plus the seconds of `n` days and of the time.
pub date_to_utc-days_later :
    (n : ℕ) (d : Date) (h m s : ℕ)
    → IsDate d
    → (days_later n d).year ≤ 2099
    → h < 24
    → m < 60
    → s < 60
    → (u : ℕ) × (date_to_utc (pos (pack d)) (pos 0) ≡ ok u)
      × (date_to_utc (pos (pack (days_later n d))) (pos (pack_time h m s))
          ≡ ok (u + n * 86400 + h * 3600 + m * 60 + s))
date_to_utc-days_later n d h m s v y a b c = (
  day_number d * 86400,
  date_to_utc-midnight d v,
  date_to_utc-day_number (days_later n d) h m s (days_later-IsDate n d v y) a b c
      ∙ ap ok (omega (arith, day_number-days_later n d v y)),
)

int_days-small : (n : ℕ) → n ≤ 24855 → int_days (n * 86400) ≡ pos n
int_days-small n h = ground arith

days_between-small :
    (u v n : ℕ)
    → n ≤ 24855
    → v ≡ u + n * 86400
    → (days_between u v ≡ pos n) × (days_between v u ≡ pos n)
days_between-small u v zero h e =
    let less : ltb u v ≡ false = ground arith in
    let more : ltb v u ≡ false = ground arith in
    let none_up : v - u ≡ 0 = omega arith in
    let none_down : u - v ≡ 0 = omega arith in rw (less, more, none_up, none_down) (refl, refl)
days_between-small u v (suc n) h e =
    let less : ltb u v ≡ true = ground arith in
    let more : ltb v u ≡ false = ground arith in
    let up : v - u ≡ suc n * 86400 = omega arith in
    rw (less, more, up) (int_days-small (suc n) h, int_days-small (suc n) h)

days_in-ok :
    (a b : ℤ) (u v : ℕ)
    → date_to_utc a (pos 0) ≡ ok u
    → date_to_utc b (pos 0) ≡ ok v
    → days_in a b ≡ ok (days_between u v)
unfolding days_in
days_in-ok a b u v e f = rw (e, f) refl

-- For every date of the calendar and the date at most 24855 days later, up to 2099, `days_in` gives
-- the number of days between them, whichever comes first; 24855 days are the most that fit an int
-- as seconds.
pub days_in-days_later :
    (n : ℕ) (d : Date)
    → IsDate d
    → (days_later n d).year ≤ 2099
    → n ≤ 24855
    → (days_in (pos (pack d)) (pos (pack (days_later n d))) ≡ ok (pos n))
      × (days_in (pos (pack (days_later n d))) (pos (pack d)) ≡ ok (pos n))
days_in-days_later n d v y h =
    let early = date_to_utc-midnight d v in
    let late = date_to_utc-midnight (days_later n d) (days_later-IsDate n d v y) in
    let small =
      days_between-small (day_number d * 86400) (day_number (days_later n d) * 86400) n h
        (omega (arith, day_number-days_later n d v y)) in
    (days_in-ok _ _ _ _ early late ∙ ap ok small.0, days_in-ok _ _ _ _ late early ∙ ap ok small.1)

pack-day :
    (y m d : ℕ)
    → m < 100
    → d < 100
    → ((y * 10000 + m * 100 + d) % 10000 / 100 ≡ m) × ((y * 10000 + m * 100 + d) % 10000 % 100 ≡ d)
pack-day y m d h k = (omega arith, omega arith)

day_at-IsTable :
    (n : ℕ) (ds : List ℕ) (leap : Bool) (i : ℕ)
    → IsTable leap i ds
    → n < length ds
    → day_at n ds ≡ length_of leap (i + n + 1)
day_at-IsTable n [] leap i t h = absurd (omega arith)
day_at-IsTable zero (d ∷ ds) leap i t h = t.0 ∙ same_length leap (i + 1) (i + 0 + 1) (omega arith)
day_at-IsTable (suc n) (d ∷ ds) leap i t h =
    day_at-IsTable n ds leap (i + 1) t.1 (omega arith)
    ∙ same_length leap (i + 1 + n + 1) (i + suc n + 1) (omega arith)

length_of-leap : (leap : Bool) (m : ℕ) → length_of leap m ≤ length_of true m
length_of-leap leap m = ground arith

-- Every date of the calendar from 1990 to 2029 is legal for `chk_stk_date_legal`.
chk_stk_date_legal-IsDate :
    (d : Date) → IsDate d → 1990 ≤ d.year → d.year < 2030 → chk_stk_date_legal (pos (pack d)) ≡ true
unfolding chk_stk_date_legal
chk_stk_date_legal-IsDate d v lo hi =
    let fields =
      pack-fields d.year d.month d.day (omega (arith, v.month_hi))
        (omega (arith, v.day_hi, length_of-small (is_leap d.year) d.month)) in
    let days =
      pack-day d.year d.month d.day (omega (arith, v.month_hi))
        (omega (arith, v.day_hi, length_of-small (is_leap d.year) d.month)) in
    let most : d.day ≤ day_at (d.month - 1) mon_days_leap = omega (
      arith,
      v.day_hi,
      v.month_lo,
      length_of-leap (is_leap d.year) d.month,
      day_at-IsTable (d.month - 1) mon_days_leap true 0 leap-IsTable
          (omega (arith, v.month_lo, v.month_hi)),
      same_length true (0 + (d.month - 1) + 1) d.month (omega (arith, v.month_lo)),
    ) in
    rw (fields.0, days.0, days.1) (ground (arith, most, lo, hi, v.month_lo, v.month_hi, v.day_lo))
