-- ===== src/Time/Dates.antt =====
-- The functions of source/common/s4time.cpp on dates that are numbers YYYYMMDD and times that are
-- numbers HHMMSS, both int32_t, and on seconds since 1970. The logs are left out.
use s4_lib_lite.Prelude.{
  ℕ, zero, suc, ◌+◌, ◌-◌, ◌*◌, ◌/◌, ◌%◌, ◌^◌, Bool, false, ◌&&◌, ◌||◌, List, [], ◌∷◌, leb, ltb,
  ◌==◌, if◌then◌else◌,
}
use s4_lib_lite.Prelude.Int.{ℤ, pos, negsuc}

-- What a call ends with: its value, a failed `assert`, or a read behind the end of a table.
pub data Result {ℓ} (A : Type ℓ) : Type ℓ where
  ok : A → Result A
  assert_failed out_of_bounds : Result A

infixl 5 ◌>>=◌
abbrev pub ◌>>=◌ {ℓ κ} : {A : Type ℓ} {B : Type κ} → Result A → (A → Result B) → Result B
ok a >>= f = f a
assert_failed >>= f = assert_failed
out_of_bounds >>= f = out_of_bounds

-- `struct tm`, as far as it is used.
pub record Tm : Type 0 where
  pub tm_sec : ℕ
  pub tm_min : ℕ
  pub tm_hour : ℕ
  pub tm_mday : ℕ
  pub tm_mon : ℤ
  pub tm_year : ℕ

abbrev pub mon_days : List ℕ
mon_days = 31 ∷ 28 ∷ 31 ∷ 30 ∷ 31 ∷ 30 ∷ 31 ∷ 31 ∷ 30 ∷ 31 ∷ 30 ∷ 31 ∷ []

abbrev pub mon_days_leap : List ℕ
mon_days_leap = 31 ∷ 29 ∷ 31 ∷ 30 ∷ 31 ∷ 30 ∷ 31 ∷ 31 ∷ 30 ∷ 31 ∷ 30 ∷ 31 ∷ []

-- `for (i = 0; i < n; i++) tdays += table[i];`
abbrev pub sum_first : ℕ → List ℕ → Result ℕ
sum_first zero ds = ok 0
sum_first (suc n) [] = out_of_bounds
sum_first (suc n) (d ∷ ds) = sum_first n ds >>= λ s. ok (d + s)

-- The loop with a bound that is an int.
abbrev pub sum_months : ℤ → List ℕ → Result ℕ
sum_months (pos n) ds = sum_first n ds
sum_months (negsuc n) ds = ok 0

-- `tm_to_utc` for a year from 1971 on, with its default `utcdiff` of 0, which is how it is called.
unfoldable pub tm_to_utc : Tm → Result ℕ
tm_to_utc t =
    let tyears = t.tm_year - 70 in
    let leap_this_year = (tyears + 2) % 4 == 0 in
    let leaps = if leap_this_year then (tyears + 2) / 4 - 1 else (tyears + 2) / 4 in
    do
      days ← sum_months t.tm_mon (if leap_this_year then mon_days_leap else mon_days)
      ok (
          (tyears * 365 + leaps + days + t.tm_mday - 1) * 86400
          + t.tm_hour * 3600
          + t.tm_min * 60
          + t.tm_sec)

abbrev pub minus_one : ℕ → ℤ
minus_one zero = negsuc 0
minus_one (suc n) = pos n

-- `date_to_utc`; a time that is out of range is only logged.
unfoldable pub date_to_utc : ℤ → ℤ → Result ℕ
unfolding tm_to_utc
date_to_utc (negsuc n) minu_sec = ok 0
date_to_utc (pos date) (negsuc n) = ok 0
date_to_utc (pos date) (pos minu_sec) =
    if ltb 1980 (date / 10000)
    then tm_to_utc (record {
      tm_sec = minu_sec % 100;
      tm_min = minu_sec / 100 % 100;
      tm_hour = minu_sec / 10000;
      tm_mday = date % 100;
      tm_mon = minus_one (date / 100 % 100);
      tm_year = date / 10000 - 1900;
    })
    else assert_failed

abbrev minus : ℕ → ℤ
minus zero = pos 0
minus (suc n) = negsuc n

-- `(int)x`, divided by the seconds of a day towards 0.
abbrev pub int_days : ℕ → ℤ
int_days x =
    if ltb (x % 2 ^ 32) (2 ^ 31)
    then pos (x % 2 ^ 32 / 86400)
    else minus ((2 ^ 32 - x % 2 ^ 32) / 86400)

-- What `days_in` makes of the seconds of its dates.
abbrev pub days_between : ℕ → ℕ → ℤ
days_between t1 t2 = if ltb t1 t2 then int_days (t2 - t1) else int_days (t1 - t2)

unfoldable pub days_in : ℤ → ℤ → Result ℤ
days_in date1 date2 = do
  t1 ← date_to_utc date1 (pos 0)
  t2 ← date_to_utc date2 (pos 0)
  ok (days_between t1 t2)

-- `mon_days_leap[month - 1]`, for a month from 1 to 12.
abbrev pub day_at : ℕ → List ℕ → ℕ
day_at n [] = 0
day_at zero (d ∷ ds) = d
day_at (suc n) (d ∷ ds) = day_at n ds

unfoldable pub chk_stk_date_legal : ℤ → Bool
chk_stk_date_legal (negsuc n) = false
chk_stk_date_legal (pos date) =
    let month = date % 10000 / 100 in
    let day = date % 10000 % 100 in
    leb 1990 (date / 10000)
    && (ltb (date / 10000) 2030
        && (leb 1 month
            && (leb month 12 && (leb 1 day && leb day (day_at (month - 1) mon_days_leap)))))

-- `isDealTime_stock`, which does not look at its code.
unfoldable pub is_deal_time_stock : ℤ → Bool
is_deal_time_stock (negsuc n) = false
is_deal_time_stock (pos t) =
    (leb 91500 t && leb t 92500)
    || ((leb 93000 t && leb t 113000) || (leb 130000 t && leb t 150000))
