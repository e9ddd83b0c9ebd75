-- ===== src/Time/YearRounds.antt =====
-- One round of the loop over the year in `__offtime`: the guess, and the days that are left for it.
use s4_lib_lite.Prelude.{
  ℕ, suc, ◌+◌, ◌-◌, ◌*◌, ◌/◌, ◌≤◌, ◌<◌, ◌≡◌, refl, ap, ◌∙◌, true, false, some, if◌then◌else◌, arith,
}
use s4_lib_lite.Prelude.Int.{ℤ, pos, negsuc, ◌+ℤ◌, ◌-ℤ◌, scale, difference-pos, difference-neg}
use s4_lib_lite.Time.Calendar.{is_leap}
use s4_lib_lite.Time.Offtime.{
  isleap, leaps_thru_end_of, guess_year, adjust_days, is_outside, year_loop,
}

-- The leap years up to the end of a year, of the years from 1 on.
abbrev pub leaps : ℕ → ℕ
leaps y = y / 4 - y / 100 + y / 400

leaps_thru_end_of-pos : (y : ℕ) → leaps_thru_end_of (pos y) ≡ pos (leaps y)
unfolding leaps_thru_end_of
leaps_thru_end_of-pos y = ground arith

pub isleap-pos : (y : ℕ) → 1901 ≤ y → y ≤ 2099 → isleap (pos y) ≡ is_leap y
unfolding isleap
isleap-pos y lo hi = ground arith

pub guess_year-pos : (y d : ℕ) → guess_year (pos y) (pos d) ≡ pos (y + d / 365)
unfolding guess_year
guess_year-pos y d = ground arith

pub guess_year-neg : (y k : ℕ) → 1 ≤ y → k < 364 → guess_year (pos y) (negsuc k) ≡ pos (y - 1)
unfolding guess_year
guess_year-neg y k h l = ground arith

-- The parts of a round.
adjust_days-parts :
    (y yg d g a b : ℤ)
    → yg -ℤ y ≡ g
    → leaps_thru_end_of (yg -ℤ pos 1) ≡ a
    → leaps_thru_end_of (y -ℤ pos 1) ≡ b
    → adjust_days y yg d ≡ d -ℤ (scale 365 g +ℤ a -ℤ b)
unfolding adjust_days
adjust_days-parts y yg d g a b e f h = rw (e, f, h) refl

leaps_thru-before : (y : ℕ) → 1 ≤ y → leaps_thru_end_of (pos y -ℤ pos 1) ≡ pos (leaps (y - 1))
leaps_thru-before y h =
    ap leaps_thru_end_of (difference-pos (y + 0) (0 + 1) (y - 1) (omega arith))
    ∙ leaps_thru_end_of-pos (y - 1)

sum-pos :
    (d q a b r : ℕ)
    → d + b ≡ 365 * q + a + r
    → pos d -ℤ (scale 365 (pos q) +ℤ pos a -ℤ pos b) ≡ pos r
sum-pos d q a b r e = ground arith

sum-neg :
    (d q a b k : ℕ)
    → d + b + suc k ≡ 365 * q + a
    → pos d -ℤ (scale 365 (pos q) +ℤ pos a -ℤ pos b) ≡ negsuc k
sum-neg d q a b k e = ground arith

sum-back :
    (k a b r : ℕ)
    → 365 + b ≡ suc k + a + r
    → negsuc k -ℤ (scale 365 (negsuc 0) +ℤ pos a -ℤ pos b) ≡ pos r
sum-back k a b r e = ground arith

pub adjust_days-pos :
    (y q d r : ℕ)
    → 1 ≤ y
    → d + leaps (y - 1) ≡ 365 * q + leaps (y + q - 1) + r
    → adjust_days (pos y) (pos (y + q)) (pos d) ≡ pos r
unfolding adjust_days
adjust_days-pos y q d r h e =
    adjust_days-parts (pos y) (pos (y + q)) (pos d) (pos q) _ _
      (difference-pos (y + q + 0) (0 + y) q (omega arith)) (leaps_thru-before (y + q) (omega arith))
      (leaps_thru-before y h)
    ∙ sum-pos d q (leaps (y + q - 1)) (leaps (y - 1)) r e

pub adjust_days-neg :
    (y q d k : ℕ)
    → 1 ≤ y
    → d + leaps (y - 1) + suc k ≡ 365 * q + leaps (y + q - 1)
    → adjust_days (pos y) (pos (y + q)) (pos d) ≡ negsuc k
unfolding adjust_days
adjust_days-neg y q d k h e =
    adjust_days-parts (pos y) (pos (y + q)) (pos d) (pos q) _ _
      (difference-pos (y + q + 0) (0 + y) q (omega arith)) (leaps_thru-before (y + q) (omega arith))
      (leaps_thru-before y h)
    ∙ sum-neg d q (leaps (y + q - 1)) (leaps (y - 1)) k e

pub adjust_days-back :
    (y k r : ℕ)
    → 2 ≤ y
    → 365 + leaps (y - 1) ≡ suc k + leaps (y - 1 - 1) + r
    → adjust_days (pos y) (pos (y - 1)) (negsuc k) ≡ pos r
unfolding adjust_days
adjust_days-back y k r h e =
    adjust_days-parts (pos y) (pos (y - 1)) (negsuc k) (negsuc 0) _ _
      (difference-neg (y - 1 + 0) (0 + y) 0 (omega arith)) (leaps_thru-before (y - 1) (omega arith))
      (leaps_thru-before y (omega arith))
    ∙ sum-back k (leaps (y - 1 - 1)) (leaps (y - 1)) r e

pub year_loop-stop :
    (fuel y r : ℕ)
    → 1901 ≤ y
    → y ≤ 2099
    → r < (if is_leap y then 366 else 365)
    → year_loop (suc fuel) (pos y) (pos r) ≡ some (pos y, pos r)
unfolding year_loop is_outside
year_loop-stop fuel y r lo hi h =
    let within : is_outside (pos y) (pos r) ≡ false = rw (isleap-pos y lo hi) (ground arith) in
    rw (within, year_loop) refl

pub year_loop-round :
    (fuel : ℕ) (y d yg d' : ℤ)
    → is_outside y d ≡ true
    → guess_year y d ≡ yg
    → adjust_days y yg d ≡ d'
    → year_loop (suc fuel) y d ≡ year_loop fuel yg d'
unfolding year_loop
year_loop-round fuel y d yg d' o e f = rw (o, year_loop) (rw e (rw f refl))
