-- ===== src/Time/Months.antt =====
-- `tm_to_utc` and `date_to_utc` as a formula: the tables of months summed up.
use s4_lib_lite.Prelude.{
  ℕ, zero, suc, ◌+◌, ◌-◌, ◌*◌, ◌/◌, ◌%◌, ◌≤◌, ◌<◌, ◌≡◌, refl, ap, ◌∙◌, Bool, true, false, List, [],
  ◌∷◌, ◌==◌, if◌then◌else◌, arith, length, inl, inr, Bool-cases, ltb,
}
use s4_lib_lite.Prelude.Int.{pos}
use s4_lib_lite.Time.Dates.{
  ok, ◌>>=◌, sum_first, mon_days, mon_days_leap, tm_to_utc, date_to_utc, minus_one,
}
use s4_lib_lite.Time.Calendar.{Date, IsDate, is_leap, length_of, pack, pack_time}

-- The days of `n` months of a year after the month `i`.
abbrev pub days_of : Bool → ℕ → ℕ → ℕ
days_of leap i zero = 0
days_of leap i (suc n) = length_of leap (i + 1) + days_of leap (i + 1) n

pub same_length : (leap : Bool) (a b : ℕ) → a ≡ b → length_of leap a ≡ length_of leap b
same_length leap a b e = ap (length_of leap) e

pub days_of-suc :
    (leap : Bool) (i n : ℕ) → days_of leap i (suc n) ≡ days_of leap i n + length_of leap (i + n + 1)
days_of-suc leap i zero = omega (arith, same_length leap (i + 0 + 1) (i + 1) (omega arith))
days_of-suc leap i (suc n) = omega (
  arith,
  days_of-suc leap (i + 1) n,
  same_length leap (i + 1 + n + 1) (i + suc n + 1) (omega arith),
)

-- A table of the lengths of the months after the month `i`.
abbrev pub IsTable : Bool → ℕ → List ℕ → Type 0
IsTable leap i [] = Unit {0}
IsTable leap i (d ∷ ds) = (d ≡ length_of leap (i + 1)) × IsTable leap (i + 1) ds

sum_first-days_of :
    (n : ℕ) (ds : List ℕ) (leap : Bool) (i : ℕ)
    → IsTable leap i ds
    → n ≤ length ds
    → sum_first n ds ≡ ok (days_of leap i n)
sum_first-days_of zero ds leap i t h = refl
sum_first-days_of (suc n) [] leap i t h = absurd (omega arith)
sum_first-days_of (suc n) (d ∷ ds) leap i t h =
    ap (λ r. r >>= λ s. ok (d + s)) (sum_first-days_of n ds leap (i + 1) t.1 (omega arith))
    ∙ ap (λ k. ok (k + days_of leap (i + 1) n)) t.0

pub leap-IsTable : IsTable true 0 mon_days_leap
leap-IsTable = (
  refl,
  (refl, (refl, (refl, (refl, (refl, (refl, (refl, (refl, (refl, (refl, (refl, tt))))))))))),
)

plain-IsTable : IsTable false 0 mon_days
plain-IsTable = (
  refl,
  (refl, (refl, (refl, (refl, (refl, (refl, (refl, (refl, (refl, (refl, (refl, tt))))))))))),
)

table_sum :
    (n : ℕ) (leap : Bool)
    → n ≤ 12
    → sum_first n (if leap then mon_days_leap else mon_days) ≡ ok (days_of leap 0 n)
table_sum n true h = sum_first-days_of n mon_days_leap true 0 leap-IsTable h
table_sum n false h = sum_first-days_of n mon_days false 0 plain-IsTable h

-- The days from 1970-01-01 to a date.
abbrev pub day_number : Date → ℕ
day_number d =
    (d.year - 1970) * 365
    + (d.year - 1969) / 4
    + days_of (is_leap d.year) 0 (d.month - 1)
    + d.day
    - 1

tm_to_utc-day_number :
    (y n day h m s : ℕ)
    → 1981 ≤ y
    → n ≤ 12
    → 1 ≤ day
    → tm_to_utc (record {
      tm_sec = s;
      tm_min = m;
      tm_hour = h;
      tm_mday = day;
      tm_mon = pos n;
      tm_year = y - 1900;
    })
      ≡ ok (
          ((y - 1970) * 365 + (y - 1969) / 4 + days_of (is_leap y) 0 n + day - 1) * 86400
          + h * 3600
          + m * 60
          + s)
unfolding tm_to_utc
tm_to_utc-day_number y n day h m s lo k one =
    let rest : (y - 1900 - 70 + 2) % 4 ≡ y % 4 = omega arith in
    rw (rest) (
      rw (table_sum n (y % 4 == 0) k) (elim (Bool-cases (y % 4 == 0)) [
        | inl e ↦ rw e (ap ok (ground arith))
        | inr e ↦ rw e (ap ok (ground arith))
      ]))

pub length_of-small : (leap : Bool) (m : ℕ) → length_of leap m ≤ 31
length_of-small leap m = ground arith

-- The fields of a packed date and of a packed time.
pub pack-fields :
    (y m d : ℕ)
    → m < 100
    → d < 100
    → ((y * 10000 + m * 100 + d) / 10000 ≡ y)
      × ((y * 10000 + m * 100 + d) / 100 % 100 ≡ m)
      × ((y * 10000 + m * 100 + d) % 100 ≡ d)
pack-fields y m d h k = (omega arith, omega arith, omega arith)

minus_one-suc : (m : ℕ) → 1 ≤ m → minus_one m ≡ pos (m - 1)
minus_one-suc zero h = absurd (omega arith)
minus_one-suc (suc n) h = ap pos (omega arith)

pub date_to_utc-day_number :
    (d : Date) (h m s : ℕ)
    → IsDate d
    → h < 24
    → m < 60
    → s < 60
    → date_to_utc (pos (pack d)) (pos (pack_time h m s))
      ≡ ok (day_number d * 86400 + h * 3600 + m * 60 + s)
unfolding date_to_utc
date_to_utc-day_number d h m s v a b c =
    let fields =
      pack-fields d.year d.month d.day (omega (arith, v.month_hi))
        (omega (arith, v.day_hi, length_of-small (is_leap d.year) d.month)) in
    let times = pack-fields h m s (omega arith) (omega arith) in
    let late : ltb 1980 d.year ≡ true = ground (arith, v.year_lo) in
    rw
      (
        fields.0,
        fields.1,
        fields.2,
        late,
        times.0,
        times.1,
        times.2,
        minus_one-suc d.month v.month_lo,
      )
      (tm_to_utc-day_number d.year (d.month - 1) d.day h m s v.year_lo (omega (arith, v.month_hi))
        v.day_lo)
