-- ===== src/Time/DayNumber.antt =====
-- How the formula of `date_to_utc` grows from day to day of the calendar.
use s4_lib_lite.Prelude.{
  ℕ, zero, suc, ◌+◌, ◌-◌, ◌*◌, ◌≤◌, ◌≡◌, refl, ap, ◌∙◌, Bool, true, false, ◌==◌, if◌then◌else◌,
  arith, inl, inr, Bool-cases, ==_iff,
}
use s4_lib_lite.Prelude.Int.{pos}
use s4_lib_lite.Time.Dates.{ok, date_to_utc}
use s4_lib_lite.Time.Calendar.{
  Date, IsDate, is_leap, length_of, month_length, pack, next_day, days_later,
}
use s4_lib_lite.Time.Months.{days_of, same_length, days_of-suc, day_number, date_to_utc-day_number}

year_length : (leap : Bool) → days_of leap 0 12 ≡ (if leap then 366 else 365)
year_length true = refl
year_length false = refl

-- The number of the next day, at the end of a year, of a month, and within a month.
day_number-new_year :
    (y : ℕ)
    → 1981 ≤ y
    → day_number (record { year = y + 1; month = 1; day = 1 })
      ≡ suc (day_number (record { year = y; month = 12; day = 31 }))
day_number-new_year y h =
    let whole = year_length (is_leap y) ∙ refl in
    let last = days_of-suc (is_leap y) 0 11 in ground (arith, whole, last)

same_days : (leap : Bool) (a b : ℕ) → a ≡ b → days_of leap 0 a ≡ days_of leap 0 b
same_days leap a b e = ap (days_of leap 0) e

day_number-new_month :
    (y m d : ℕ)
    → 1 ≤ m
    → 1 ≤ d
    → d ≡ month_length y m
    → day_number (record { year = y; month = m + 1; day = 1 })
      ≡ suc (day_number (record { year = y; month = m; day = d }))
day_number-new_month y m d h k e = omega (
  arith,
  e,
  days_of-suc (is_leap y) 0 (m - 1),
  same_days (is_leap y) (m + 1 - 1) (suc (m - 1)) (omega arith),
  same_length (is_leap y) (0 + (m - 1) + 1) m (omega arith),
)

day_number-next_day : (d : Date) → IsDate d → day_number (next_day d) ≡ suc (day_number d)
unfolding next_day
day_number-next_day d v = elim (Bool-cases (d.day == month_length d.year d.month)) [
  | inl e ↦ elim (Bool-cases (d.month == 12)) [
    | inl f ↦
        let last : d.month ≡ 12 = ground arith in
        let full : d.day ≡ 31 = ground arith in
        rw e (
          rw f (
            omega (
              arith,
              v.year_lo,
              last,
              full,
              day_number-new_year d.year v.year_lo,
              same_days (is_leap d.year) (d.month - 1) 11 (omega arith),
            )))
    | inr f ↦ rw e (
        rw f (
          day_number-new_month d.year d.month d.day v.month_lo v.day_lo
            ((==_iff d.day (month_length d.year d.month)).0 e)))
  ]
  | inr e ↦ rw e (omega (arith, v.day_lo))
]

length_of-big : (leap : Bool) (m : ℕ) → 28 ≤ length_of leap m
length_of-big leap m = ground arith

day_left : (a b : ℕ) → (a == b) ≡ false → a ≤ b → a + 1 ≤ b
day_left a b e h = ground arith

next_day-IsDate : (d : Date) → IsDate d → (next_day d).year ≤ 2099 → IsDate (next_day d)
unfolding next_day
next_day-IsDate d v h = elim (Bool-cases (d.day == month_length d.year d.month)) [
  | inl e ↦ elim (Bool-cases (d.month == 12)) [
    | inl f ↦
        let in_year : (d.year + 1) ≤ 2099 = rw (e, f) at h in
        rw (e, f)
          (record {
            year_lo = omega (arith, v.year_lo);
            year_hi = in_year;
            month_lo = omega arith;
            month_hi = omega arith;
            day_lo = omega arith;
            day_hi = omega arith;
          })
    | inr f ↦
        rw (e, f)
          (record {
            year_lo = v.year_lo;
            year_hi = v.year_hi;
            month_lo = omega arith;
            month_hi = ground (arith, v.month_hi);
            day_lo = omega arith;
            day_hi = omega (arith, length_of-big (is_leap d.year) (d.month + 1));
          })
  ]
  | inr e ↦ rw e (record {
    year_lo = v.year_lo;
    year_hi = v.year_hi;
    month_lo = v.month_lo;
    month_hi = v.month_hi;
    day_lo = omega arith;
    day_hi = day_left d.day (month_length d.year d.month) e v.day_hi;
  })
]

next_day-year : (d : Date) → d.year ≤ (next_day d).year
unfolding next_day
next_day-year d = elim (Bool-cases (d.day == month_length d.year d.month)) [
  | inl e ↦ elim (Bool-cases (d.month == 12)) [
    | inl f ↦ rw (e, f) (omega arith)
    | inr f ↦ rw (e, f) (omega arith)
  ]
  | inr e ↦ rw e (omega arith)
]

pub days_later-IsDate :
    (n : ℕ) (d : Date) → IsDate d → (days_later n d).year ≤ 2099 → IsDate (days_later n d)
unfolding days_later
days_later-IsDate zero d v h = v
days_later-IsDate (suc n) d v h =
    next_day-IsDate (days_later n d)
      (days_later-IsDate n d v (omega (arith, h, next_day-year (days_later n d)))) h

pub day_number-days_later :
    (n : ℕ) (d : Date)
    → IsDate d
    → (days_later n d).year ≤ 2099
    → day_number (days_later n d) ≡ day_number d + n
unfolding days_later
day_number-days_later zero d v h = omega arith
day_number-days_later (suc n) d v h =
    let earlier : (days_later n d).year ≤ 2099 = omega (arith, h, next_day-year (days_later n d)) in
    omega (
      arith,
      day_number-next_day (days_later n d) (days_later-IsDate n d v earlier),
      day_number-days_later n d v earlier,
    )

pub date_to_utc-midnight :
    (d : Date) → IsDate d → date_to_utc (pos (pack d)) (pos 0) ≡ ok (day_number d * 86400)
date_to_utc-midnight d v =
    date_to_utc-day_number d 0 0 0 v (omega arith) (omega arith) (omega arith) ∙ ap ok (omega arith)
