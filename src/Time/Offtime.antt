-- ===== src/Time/Offtime.antt =====
-- `__offtime` of source/common/offtime.cpp, on time_t, which is signed and wide enough.
use s4_lib_lite.Prelude.{
  ℕ, zero, suc, ◌+◌, ◌-◌, ◌^◌, Bool, true, false, not, ◌&&◌, ◌||◌, List, [], ◌∷◌, Option, none,
  some, ◌==◌, if◌then◌else◌,
}
use s4_lib_lite.Prelude.Int.{ℤ, pos, negsuc, leb_ℤ, ◌+ℤ◌, ◌-ℤ◌, scale, quot, rem, is_neg}
use s4_lib_lite.Time.Dates.{day_at}

-- `struct tm`, as far as it is filled.
pub record Filled : Type 0 where
  pub tm_sec : ℤ
  pub tm_min : ℤ
  pub tm_hour : ℤ
  pub tm_mday : ℤ
  pub tm_mon : ℕ
  pub tm_year : ℤ
  pub tm_wday : ℤ
  pub tm_yday : ℤ

-- What a call ends with: 0 with the fields, EOVERFLOW, or no end within the fuel.
pub data Broken : Type 0 where
  filled : Filled → Broken
  overflow stuck : Broken

abbrev pub secs_per_day : ℕ
secs_per_day = 86400

-- `__mon_yday`
abbrev pub mon_yday : Bool → List ℕ
mon_yday false = 0 ∷ 31 ∷ 59 ∷ 90 ∷ 120 ∷ 151 ∷ 181 ∷ 212 ∷ 243 ∷ 273 ∷ 304 ∷ 334 ∷ 365 ∷ []
mon_yday true = 0 ∷ 31 ∷ 60 ∷ 91 ∷ 121 ∷ 152 ∷ 182 ∷ 213 ∷ 244 ∷ 274 ∷ 305 ∷ 335 ∷ 366 ∷ []

abbrev pub is_zero : ℤ → Bool
is_zero (pos n) = n == 0
is_zero (negsuc n) = false

-- `__isleap`
unfoldable pub isleap : ℤ → Bool
isleap y = is_zero (rem y 4) && (not (is_zero (rem y 100)) || is_zero (rem y 400))

-- `DIV`
abbrev pub div_down : ℤ → ℕ → ℤ
div_down a b = quot a b -ℤ (if is_neg (rem a b) then pos 1 else pos 0)

-- `LEAPS_THRU_END_OF`
unfoldable pub leaps_thru_end_of : ℤ → ℤ
leaps_thru_end_of y = div_down y 4 -ℤ div_down y 100 +ℤ div_down y 400

-- The two loops that bring `rem` into a day.
unfoldable pub raise_rem : ℕ → ℤ → ℤ → Option (ℤ × ℤ)
raise_rem zero days r = none
raise_rem (suc fuel) days r = elim (is_neg r) [
  | true ↦ raise_rem fuel (days -ℤ pos 1) (r +ℤ pos secs_per_day)
  | false ↦ some (days, r)
]

unfoldable pub lower_rem : ℕ → ℤ → ℤ → Option (ℤ × ℤ)
lower_rem zero days r = none
lower_rem (suc fuel) days r = elim (leb_ℤ (pos secs_per_day) r) [
  | true ↦ lower_rem fuel (days +ℤ pos 1) (r -ℤ pos secs_per_day)
  | false ↦ some (days, r)
]

-- A round of the loop over the year: the guess, and the days that are left for it.
unfoldable pub guess_year : ℤ → ℤ → ℤ
guess_year y days = y +ℤ quot days 365 -ℤ (if is_neg (rem days 365) then pos 1 else pos 0)

unfoldable pub adjust_days : ℤ → ℤ → ℤ → ℤ
unfolding leaps_thru_end_of
adjust_days y yg days =
    days
    -ℤ (scale 365 (yg -ℤ y) +ℤ leaps_thru_end_of (yg -ℤ pos 1) -ℤ leaps_thru_end_of (y -ℤ pos 1))

unfoldable pub is_outside : ℤ → ℤ → Bool
unfolding isleap
is_outside y days = is_neg days || leb_ℤ (pos (if isleap y then 366 else 365)) days

unfoldable pub year_loop : ℕ → ℤ → ℤ → Option (ℤ × ℤ)
unfolding guess_year adjust_days is_outside
year_loop zero y days = none
year_loop (suc fuel) y days = elim (is_outside y days) [
  | true ↦ year_loop fuel (guess_year y days) (adjust_days y (guess_year y days) days)
  | false ↦ some (y, days)
]

-- `for (y = 11; days < ip[y]; --y)`; the first entry is 0.
unfoldable pub month_loop : ℕ → ℤ → List ℕ → ℕ
month_loop zero days ip = zero
month_loop (suc y) days ip =
    if leb_ℤ (pos (day_at (suc y) ip)) days then suc y else month_loop y days ip

-- `tp->tm_year != y - 1900`: the year is no int.
abbrev pub fits_int : ℤ → Bool
fits_int y = leb_ℤ (negsuc (2 ^ 31 - 1)) y && leb_ℤ y (pos (2 ^ 31 - 1))

abbrev pub weekday : ℤ → ℤ
weekday days = let w = rem (pos 4 +ℤ days) 7 in if is_neg w then w +ℤ pos 7 else w

-- What is filled in, from the day, the rest of its seconds, the year and the day of the year.
unfoldable pub fill : ℤ → ℤ → ℤ × ℤ → Broken
unfolding isleap month_loop
fill days r (y, yday) =
    let ip = mon_yday (isleap y) in
    let mon = month_loop 11 yday ip in
    if fits_int (y -ℤ pos 1900)
    then filled (record {
      tm_sec = rem (rem r 3600) 60;
      tm_min = quot (rem r 3600) 60;
      tm_hour = quot r 3600;
      tm_mday = yday -ℤ pos (day_at mon ip) +ℤ pos 1;
      tm_mon = mon;
      tm_year = y -ℤ pos 1900;
      tm_wday = weekday days;
      tm_yday = yday;
    })
    else overflow

abbrev pub fill_year : ℕ → ℤ × ℤ → Broken
fill_year fuel (days, r) = elim (year_loop fuel (pos 1970) days) [
  | none ↦ stuck
  | some found ↦ fill days r found
]

unfoldable pub offtime : ℕ → ℤ → ℤ → Broken
unfolding raise_rem lower_rem year_loop fill
offtime fuel t offset = elim (raise_rem fuel (quot t secs_per_day) (rem t secs_per_day +ℤ offset)) [
  | none ↦ stuck
  | some (days, r) ↦ elim (lower_rem fuel days r) [
    | none ↦ stuck
    | some found ↦ fill_year fuel found
  ]
]

-- `utc_to_date` of source/common/s4time.cpp, and what it writes to `*minuSec`, if anything. The date
-- is a number, where the source's is the int32_t that holds it.
unfoldable pub date_of : Broken → Option (ℤ × Option ℤ)
date_of (filled f) = some (
  scale 10000 (f.tm_year +ℤ pos 1900) +ℤ scale 100 (pos (f.tm_mon + 1)) +ℤ f.tm_mday,
  some (scale 10000 f.tm_hour +ℤ scale 100 f.tm_min +ℤ f.tm_sec),
)
date_of overflow = some (pos 19700101, none)
date_of stuck = none

-- Each round leaves less than a thousandth of the years to correct; up to 2099 three are enough
-- (`Time.YearLoop`).
unfoldable pub utc_to_date : ℤ → Option (ℤ × Option ℤ)
unfolding offtime date_of
utc_to_date utc = date_of (offtime 12 utc (pos 0))
