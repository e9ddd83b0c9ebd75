-- ===== src/Time/YearLoop.antt =====
-- The loop over the year in `__offtime`, for the days from 1970 to 2099: it ends, with the year and
-- the day of the year that the calendar has.
use s4_lib_lite.Prelude.{
  ℕ, suc, ◌+◌, ◌-◌, ◌*◌, ◌/◌, ◌%◌, ◌≤◌, ◌<◌, ◌≡◌, refl, ap, ◌∙◌, some, leb, ltb, if◌then◌else◌,
  arith, inl, inr, Bool-cases,
}
use s4_lib_lite.Prelude.Int.{pos, negsuc}
use s4_lib_lite.Time.Calendar.{is_leap}
use s4_lib_lite.Time.Offtime.{adjust_days, is_outside, year_loop}
use s4_lib_lite.Time.YearRounds.{
  leaps, adjust_days-pos, adjust_days-neg, adjust_days-back, year_loop-stop, year_loop-round,
  guess_year-pos, guess_year-neg,
}

-- The year and the day of the year that make up a day number.
pub record IsYearOf (d y r : ℕ) : Type 0 where
  pub year_lo : 1970 ≤ y
  pub year_hi : y ≤ 2099
  pub in_year : r < (if is_leap y then 366 else 365)
  pub total : d ≡ (y - 1970) * 365 + (y - 1969) / 4 + r

leaps-1969 : (q : ℕ) → q ≤ 130 → leaps (1970 + q - 1) ≡ 477 + (q + 1) / 4
leaps-1969 q h = ground arith

leaps-1968 : (q : ℕ) → q ≤ 130 → leaps (1970 + q - 1 - 1) ≡ 477 + q / 4
leaps-1968 q h = ground arith

-- The guess is right, or one year too late.
guessed-right :
    (fuel d q : ℕ)
    → d ≡ 365 * q + d % 365
    → q ≤ 129
    → (q + 1) / 4 ≤ d % 365
    → (y : ℕ) × (r : ℕ) × IsYearOf d y r
      × (year_loop
            (suc (suc fuel))
            (pos (1970 + q))
            (adjust_days (pos 1970) (pos (1970 + q)) (pos d))
          ≡ some (pos y, pos r))
guessed-right fuel d q e h le =
    let r = d % 365 - (q + 1) / 4 in
    let small : r < 365 = omega arith in
    let in_year : r < (if is_leap (1970 + q) then 366 else 365) = ground arith in
    let v : IsYearOf d (1970 + q) r = record {
      year_lo = omega arith;
      year_hi = omega arith;
      in_year = in_year;
      total = omega arith;
    } in
    (
      1970 + q,
      r,
      v,
      ap (year_loop (suc (suc fuel)) (pos (1970 + q)))
            (adjust_days-pos 1970 q d r (omega arith) (omega (arith, leaps-1969 q (omega arith))))
          ∙ year_loop-stop (suc fuel) (1970 + q) r (omega arith) (omega arith) in_year,
    )

guessed-late :
    (fuel d q : ℕ)
    → d ≡ 365 * q + d % 365
    → q ≤ 130
    → d % 365 < (q + 1) / 4
    → (y : ℕ) × (r : ℕ) × IsYearOf d y r
      × (year_loop
            (suc (suc fuel))
            (pos (1970 + q))
            (adjust_days (pos 1970) (pos (1970 + q)) (pos d))
          ≡ some (pos y, pos r))
unfolding is_outside
guessed-late fuel d q e h late =
    let k = (q + 1) / 4 - d % 365 - 1 in
    let r = 365 + (q + 1) / 4 - q / 4 - (k + 1) in
    let in_year : r < (if is_leap (1969 + q) then 366 else 365) = ground arith in
    let v : IsYearOf d (1969 + q) r = record {
      year_lo = omega arith;
      year_hi = omega arith;
      in_year = in_year;
      total = omega arith;
    } in
    (
      1969 + q,
      r,
      v,
      ap (year_loop (suc (suc fuel)) (pos (1970 + q)))
            (adjust_days-neg 1970 q d k (omega arith) (omega (arith, leaps-1969 q (omega arith))))
          ∙ year_loop-round (suc fuel) (pos (1970 + q)) (negsuc k) (pos (1969 + q)) (pos r) refl
              (guess_year-neg (1970 + q) k (omega arith) (omega arith) ∙ ap pos (omega arith))
              (ap (λ b. adjust_days (pos (1970 + q)) (pos b) (negsuc k)) (omega arith)
                ∙ adjust_days-back (1970 + q) k r (omega arith)
                    (omega (arith, leaps-1969 q h, leaps-1968 q h)))
          ∙ year_loop-stop fuel (1969 + q) r (omega arith) (omega arith) in_year,
    )

pub year_loop-IsYearOf :
    (fuel d : ℕ)
    → d < 47482
    → (y : ℕ) × (r : ℕ) × IsYearOf d y r
      × (year_loop (suc (suc (suc fuel))) (pos 1970) (pos d) ≡ some (pos y, pos r))
unfolding is_outside
year_loop-IsYearOf fuel d h = elim (Bool-cases (ltb d 365)) [
  | inl e ↦
      let small : d < 365 = ground arith in
      (
        1970,
        d,
        record {
          year_lo = omega arith;
          year_hi = omega arith;
          in_year = small;
          total = omega arith;
        },
        year_loop-stop (suc (suc fuel)) 1970 d (omega arith) (omega arith) small,
      )
  | inr e ↦
      let large : 365 ≤ d = ground arith in
      let first =
        year_loop-round (suc (suc fuel)) (pos 1970) (pos d) (pos (1970 + d / 365)) _ (ground arith)
          (guess_year-pos 1970 d) refl in
      elim (Bool-cases (leb ((d / 365 + 1) / 4) (d % 365))) [
        | inl g ↦
            let le : (d / 365 + 1) / 4 ≤ d % 365 = ground arith in
            let found = guessed-right fuel d (d / 365) (omega arith) (omega arith) le in
            (found.0, found.1, found.2, first ∙ found.3)
        | inr g ↦
            let lt : d % 365 < (d / 365 + 1) / 4 = ground arith in
            let found = guessed-late fuel d (d / 365) (omega arith) (omega arith) lt in
            (found.0, found.1, found.2, first ∙ found.3)
      ]
]
