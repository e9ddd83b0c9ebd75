-- ===== src/Time/Calendar.antt =====
-- The calendar from 1981 to 2099, in which every fourth year is a leap year, as a specification: the
-- dates, and the day that follows each.
use s4_lib_lite.Prelude.{ℕ, ◌+◌, ◌*◌, ◌%◌, ◌≤◌, ◌==◌, Bool, if◌then◌else◌, suc, zero}

pub record Date : Type 0 where
  pub year : ℕ
  pub month : ℕ
  pub day : ℕ

abbrev pub is_leap : ℕ → Bool
is_leap y = y % 4 == 0

abbrev pub length_of : Bool → ℕ → ℕ
length_of leap m =
    if m == 2
    then if leap then 29 else 28
    else if m == 4
    then 30
    else if m == 6
    then 30
    else if m == 9
    then 30
    else if m == 11
    then 30
    else 31

abbrev pub month_length : ℕ → ℕ → ℕ
month_length y m = length_of (is_leap y) m

pub record IsDate (d : Date) : Type 0 where
  pub year_lo : 1981 ≤ d.year
  pub year_hi : d.year ≤ 2099
  pub month_lo : 1 ≤ d.month
  pub month_hi : d.month ≤ 12
  pub day_lo : 1 ≤ d.day
  pub day_hi : d.day ≤ month_length d.year d.month

-- YYYYMMDD
abbrev pub pack : Date → ℕ
pack d = d.year * 10000 + d.month * 100 + d.day

-- HHMMSS
abbrev pub pack_time : ℕ → ℕ → ℕ → ℕ
pack_time h m s = h * 10000 + m * 100 + s

unfoldable pub next_day : Date → Date
next_day d =
    if d.day == month_length d.year d.month
    then if d.month == 12
      then record { year = d.year + 1; month = 1; day = 1 }
      else record { year = d.year; month = d.month + 1; day = 1 }
    else record { year = d.year; month = d.month; day = d.day + 1 }

unfoldable pub days_later : ℕ → Date → Date
unfolding next_day
days_later zero d = d
days_later (suc n) d = next_day (days_later n d)
