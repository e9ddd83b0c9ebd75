-- ===== src/Time/MonthLoop.antt =====
-- The months of a year in `__offtime`: its table has the days before each month, and its loop finds
-- the month of a day.
use s4_lib_lite.Prelude.{
  ℕ, zero, suc, ◌+◌, ◌-◌, ◌≤◌, ◌<◌, ◌≡◌, refl, ap, ◌∙◌, Bool, true, false, length, List, [], ◌∷◌,
  leb, if◌then◌else◌, arith, inl, inr, Bool-cases,
}
use s4_lib_lite.Prelude.Int.{pos}
use s4_lib_lite.Time.Dates.{day_at}
use s4_lib_lite.Time.Calendar.{length_of}
use s4_lib_lite.Time.Months.{days_of, days_of-suc, same_length}
use s4_lib_lite.Time.Offtime.{mon_yday, month_loop}

-- A table of the days before each month, from the month `i` on.
abbrev IsSums : Bool → ℕ → List ℕ → Type 0
IsSums leap i [] = Unit {0}
IsSums leap i (d ∷ ds) = (d ≡ days_of leap 0 i) × IsSums leap (suc i) ds

pub days_of_same : (leap : Bool) (a b : ℕ) → a ≡ b → days_of leap 0 a ≡ days_of leap 0 b
days_of_same leap a b e = ap (days_of leap 0) e

days_of_mono : (leap : Bool) (m k : ℕ) → days_of leap 0 m ≤ days_of leap 0 (m + k)
days_of_mono leap m zero = omega (arith, days_of_same leap (m + 0) m (omega arith))
days_of_mono leap m (suc k) = omega (
  arith,
  days_of_mono leap m k,
  days_of-suc leap 0 (m + k),
  days_of_same leap (m + suc k) (suc (m + k)) (omega arith),
)

day_at-days_of :
    (n : ℕ) (leap : Bool) (i : ℕ) (ds : List ℕ)
    → IsSums leap i ds
    → n < length ds
    → day_at n ds ≡ days_of leap 0 (i + n)
day_at-days_of n leap i [] t h = absurd (omega arith)
day_at-days_of zero leap i (d ∷ ds) t h = t.0 ∙ days_of_same leap i (i + 0) (omega arith)
day_at-days_of (suc n) leap i (d ∷ ds) t h =
    day_at-days_of n leap (suc i) ds t.1 (omega arith)
    ∙ days_of_same leap (suc i + n) (i + suc n) (omega arith)

mon_yday-IsSums : (leap : Bool) → IsSums leap 0 (mon_yday leap)
mon_yday-IsSums true = (
  refl,
  (
    refl,
    (refl, (refl, (refl, (refl, (refl, (refl, (refl, (refl, (refl, (refl, (refl, tt))))))))))),
  ),
)
mon_yday-IsSums false = (
  refl,
  (
    refl,
    (refl, (refl, (refl, (refl, (refl, (refl, (refl, (refl, (refl, (refl, (refl, tt))))))))))),
  ),
)

pub day_at-mon_yday : (leap : Bool) (m : ℕ) → m ≤ 11 → day_at m (mon_yday leap) ≡ days_of leap 0 m
day_at-mon_yday true m h =
    day_at-days_of m true 0 (mon_yday true) (mon_yday-IsSums true) (omega arith)
    ∙ days_of_same true (0 + m) m (omega arith)
day_at-mon_yday false m h =
    day_at-days_of m false 0 (mon_yday false) (mon_yday-IsSums false) (omega arith)
    ∙ days_of_same false (0 + m) m (omega arith)

pub month_loop-days_of :
    (leap : Bool) (n m r : ℕ)
    → m ≤ n
    → n ≤ 11
    → days_of leap 0 m ≤ r
    → r < days_of leap 0 (suc m)
    → month_loop n (pos r) (mon_yday leap) ≡ m
unfolding month_loop
month_loop-days_of leap zero m r k h lo hi = omega arith
month_loop-days_of leap (suc n) m r k h lo hi =
    let entry = day_at-mon_yday leap (suc n) h in
    elim (Bool-cases (leb (suc n) m)) [
      | inl e ↦
          let same : suc n ≡ m = ground arith in
          let left : days_of leap 0 (suc n) ≤ r = omega (arith, days_of_same leap (suc n) m same) in
          ground arith
      | inr e ↦
          let below : m ≤ n = ground arith in
          let left : r < days_of leap 0 (suc n) = omega (
            arith,
            days_of_mono leap (suc m) (n - m),
            days_of_same leap (suc m + (n - m)) (suc n) (omega arith),
          ) in
          let rest = month_loop-days_of leap n m r below (omega arith) lo hi in ground arith
    ]

pub days_of-month :
    (leap : Bool) (m : ℕ) → 1 ≤ m → days_of leap 0 m ≡ days_of leap 0 (m - 1) + length_of leap m
days_of-month leap zero h = absurd (omega arith)
days_of-month leap (suc n) h = omega (
  arith,
  days_of-suc leap 0 n,
  days_of_same leap (suc n - 1) n (omega arith),
  same_length leap (0 + n + 1) (suc n) (omega arith),
)

pub days_of-year_length :
    (leap : Bool) (m : ℕ) → m ≤ 12 → days_of leap 0 m ≤ (if leap then 366 else 365)
days_of-year_length true m h =
    omega (arith, days_of_mono true m (12 - m), days_of_same true (m + (12 - m)) 12 (omega arith))
days_of-year_length false m h =
    omega (arith, days_of_mono false m (12 - m), days_of_same false (m + (12 - m)) 12 (omega arith))
