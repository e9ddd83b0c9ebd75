-- ===== src/Time/TextLaws.antt =====
-- A date that is printed and read again.
use s4_lib_lite.Prelude.{
  ℕ, zero, suc, ◌+◌, ◌-◌, ◌*◌, ◌/◌, ◌%◌, ◌^◌, ◌≤◌, ◌<◌, ◌≡◌, refl, ap, sym, ◌∙◌, true, false, [],
  ◌∷◌, ◌++◌, Bytes, codes, ◌==◌, if◌then◌else◌, arith, max,
}
use mathlib.Core.List.{append_assoc, append-nil}
use s4_lib_lite.Prelude.Int.{ℤ, pos, ◌+ℤ◌, scale}
use s4_lib_lite.Prelude.Decimal.{
  digits, print_padded, num_digits, num_digits_fits, num_digits-le, print_padded-eq-digits,
  tenth-lt_pow,
}
use s4_lib_lite.Prelude.Atoi.{is_digit-digit, is_space, is_digit}
use s4_lib_lite.Time.Calendar.{Date, IsDate, pack, is_leap}
use s4_lib_lite.Time.Months.{length_of-small, pack-fields}
use s4_lib_lite.Time.Dates.{ok}
use s4_lib_lite.Time.RoundTrip.{packed}
use s4_lib_lite.Time.Texts.{
  date_to_str, long_digits, clamp_long, starts_digit, signed_long, long_sign, skip_spaces, strtol,
  to_digit, read_three, to_int32, str_to_date,
}

long_digits-digits :
    (w n : ℕ) (t : Bytes) → n < 10 ^ w → long_digits 0 (digits w n ++ t) ≡ long_digits n t
unfolding digits long_digits
long_digits-digits zero n t h = ap (λ m. long_digits m t) (omega arith)
long_digits-digits (suc w) n t h =
    let d = b'0' + n % 10 in
    let digit : is_digit (b'0' + n % 10) ≡ true = is_digit-digit (n % 10) (omega arith) in
    let value : n / 10 * 10 + (b'0' + n % 10 - b'0') ≡ n = omega arith in
    ap (long_digits 0) (append_assoc (digits w (n / 10)) (d ∷ []) t)
    ∙ long_digits-digits w (n / 10) (d ∷ t) (tenth-lt_pow w n h)
    ∙ rw (long_digits, digit) (ap (λ m. long_digits m t) value)

-- The first byte of a printed number is a digit.
digits-head :
    (w n : ℕ) (t : Bytes)
    → (c : ℕ) × (s : Bytes) × (digits (suc w) n ++ t ≡ c ∷ s) × (is_digit c ≡ true)
unfolding digits
digits-head zero n t = (b'0' + n % 10, t, refl, is_digit-digit (n % 10) (omega arith))
digits-head (suc w) n t =
    let head = digits-head w (n / 10) ((b'0' + n % 10) ∷ t) in
    (
      head.0,
      head.1,
      append_assoc (digits (suc w) (n / 10)) ((b'0' + n % 10) ∷ []) t ∙ head.2,
      head.3,
    )

long_digits-stop : (n : ℕ) (t : Bytes) → starts_digit t ≡ false → long_digits n t ≡ (n, t)
unfolding long_digits
long_digits-stop n [] e = refl
long_digits-stop n (c ∷ t) e = rw (e, long_digits) refl

clamp_long-small : (n : ℕ) → n < 2 ^ 63 → clamp_long false n ≡ pos n
clamp_long-small n h = ground arith

signed_long-number :
    (n c : ℕ) (s t whole : Bytes)
    → is_digit c ≡ true
    → long_digits 0 (c ∷ s) ≡ (n, t)
    → n < 2 ^ 63
    → signed_long false whole (c ∷ s) ≡ (pos n, t)
signed_long-number n c s t whole e read h =
    ap
      (λ b.
        if b
        then (clamp_long false (long_digits 0 (c ∷ s)).0, (long_digits 0 (c ∷ s)).1)
        else (pos 0, whole))
      e
    ∙ ap (λ r. (clamp_long false r.0, r.1)) read
    ∙ ap (λ z. (z, t)) (clamp_long-small n h)

strtol-number :
    (n c : ℕ) (s t : Bytes)
    → is_digit c ≡ true
    → long_digits 0 (c ∷ s) ≡ (n, t)
    → n < 2 ^ 63
    → strtol (c ∷ s) ≡ (pos n, t)
unfolding strtol
strtol-number n c s t e read h =
    let no_space : is_space c ≡ false = ground arith in
    let no_minus : (c == b'-') ≡ false = ground arith in
    let no_plus : (c == b'+') ≡ false = ground arith in
    ap (λ b. long_sign (c ∷ s) (if b then skip_spaces s else c ∷ s)) no_space
    ∙ ap
        (λ b.
          if b
          then signed_long true (c ∷ s) s
          else if c == b'+'
          then signed_long false (c ∷ s) s
          else signed_long false (c ∷ s) (c ∷ s))
        no_minus
    ∙ ap (λ b. if b then signed_long false (c ∷ s) s else signed_long false (c ∷ s) (c ∷ s)) no_plus
    ∙ signed_long-number n c s t (c ∷ s) e read h

strtol-digits :
    (w n : ℕ) (t : Bytes)
    → n < 10 ^ suc w
    → n < 2 ^ 63
    → starts_digit t ≡ false
    → strtol (digits (suc w) n ++ t) ≡ (pos n, t)
unfolding strtol
strtol-digits w n t h small e =
    let head = digits-head w n t in
    let read = long_digits-digits (suc w) n t h ∙ long_digits-stop n t e in
    ap strtol head.2
    ∙ strtol-number n head.0 head.1 t head.3 (ap (long_digits 0) (sym head.2) ∙ read) small

to_digit-digit : (c : ℕ) (s : Bytes) → is_digit c ≡ true → to_digit (c ∷ s) ≡ ok (c ∷ s)
unfolding to_digit
to_digit-digit c s e = rw (e, to_digit) refl

-- Behind one byte between the numbers the next one starts.
to_digit-between :
    (w n : ℕ) (t : Bytes) → to_digit (b'_' ∷ (digits (suc w) n ++ t)) ≡ ok (digits (suc w) n ++ t)
unfolding to_digit
to_digit-between w n t =
    let head = digits-head w n t in
    ap to_digit head.2 ∙ to_digit-digit head.0 head.1 head.3 ∙ ap ok (sym head.2)

read_three-steps :
    (s p q t u v : Bytes) (a b c : ℤ)
    → strtol s ≡ (a, t)
    → to_digit t ≡ ok p
    → strtol p ≡ (b, u)
    → to_digit u ≡ ok q
    → strtol q ≡ (c, v)
    → read_three s ≡ ok (a, b, c)
unfolding read_three
read_three-steps s p q t u v a b c e f g h k = rw (read_three, e, f) (rw (g, h) (rw k refl))

read_three-digits :
    (w x z a b c : ℕ)
    → a < 10 ^ suc w
    → b < 10 ^ suc x
    → c < 10 ^ suc z
    → a < 2 ^ 63
    → b < 2 ^ 63
    → c < 2 ^ 63
    → read_three
        (digits (suc w) a ++ (codes "_" ++ (digits (suc x) b ++ (codes "_" ++ digits (suc z) c))))
      ≡ ok (pos a, pos b, pos c)
read_three-digits w x z a b c e f g h k l =
    read_three-steps _ _ _ _ _ [] (pos a) (pos b) (pos c) (strtol-digits w a _ e h refl)
      (to_digit-between x b _) (strtol-digits x b _ f k refl)
      (ap (λ t. to_digit (b'_' ∷ t)) (sym (append-nil (digits (suc z) c)))
        ∙ to_digit-between z c [])
      (strtol-digits z c [] g l refl)

to_int32-small : (n : ℕ) → n < 2 ^ 31 → to_int32 (pos n) ≡ pos n
to_int32-small n h = ground arith

four_digits : (k n : ℕ) → 1000 ≤ n → n < 10 ^ k → k ≤ 4 → k ≡ 4
four_digits zero n lo h f = absurd (omega arith)
four_digits (suc zero) n lo h f = absurd (omega arith)
four_digits (suc (suc zero)) n lo h f = absurd (omega arith)
four_digits (suc (suc (suc zero))) n lo h f = absurd (omega arith)
four_digits (suc (suc (suc (suc k)))) n lo h f = omega arith

print_padded-year : (y : ℕ) → 1000 ≤ y → y < 10000 → print_padded 0 y ≡ digits 4 y
unfolding print_padded
print_padded-year y lo hi =
    let k : num_digits 19 y ≡ 4 =
      four_digits (num_digits 19 y) y lo (num_digits_fits 19 y (omega arith))
        (num_digits-le 19 3 y (omega arith)) in
    let width : max 0 (num_digits 19 y) ≡ 4 = omega (arith, k) in ap (λ m. digits m y) width

date_to_str-digits :
    (y m d : ℕ)
    → 1000 ≤ y
    → y < 10000
    → m < 100
    → d < 100
    → date_to_str (pos (y * 10000 + m * 100 + d))
      ≡ digits 4 y ++ (codes "_" ++ (digits 2 m ++ (codes "_" ++ digits 2 d)))
unfolding date_to_str
date_to_str-digits y m d lo hi h k =
    let fields = pack-fields y m d h k in
    let day : (y * 10000 + m * 100 + d) % 10000 % 100 ≡ d = omega arith in
    let month : (y * 10000 + m * 100 + d) % 10000 / 100 ≡ m = omega arith in
    rw (fields.0, day, month)
      (rw (print_padded-year y lo hi) (
        rw (print_padded-eq-digits 1 m (omega arith), print_padded-eq-digits 1 d (omega arith))
          refl))

sum_pos :
    (a b c : ℕ)
    → a * 10000 + b * 100 + c < 2 ^ 31
    → to_int32 (scale 10000 (pos a) +ℤ scale 100 (pos b) +ℤ pos c) ≡ pos (a * 10000 + b * 100 + c)
sum_pos a b c h = ap to_int32 (packed a b c) ∙ to_int32-small (a * 10000 + b * 100 + c) h

str_to_date-three :
    (s : Bytes) (a b c : ℕ)
    → read_three s ≡ ok (pos a, pos b, pos c)
    → a * 10000 + b * 100 + c < 2 ^ 31
    → str_to_date s ≡ ok (pos (a * 10000 + b * 100 + c))
unfolding str_to_date
str_to_date-three s a b c e h = rw (str_to_date, e) (ap ok (sum_pos a b c h))

-- For every date of the calendar from 1981 to 2099, str_to_date reads from the text of date_to_str
-- the date that was printed.
pub str_to_date-date_to_str :
    (d : Date) → IsDate d → str_to_date (date_to_str (pos (pack d))) ≡ ok (pos (pack d))
str_to_date-date_to_str d v =
    let small : d.day < 100 = omega (arith, v.day_hi, length_of-small (is_leap d.year) d.month) in
    ap str_to_date (
      date_to_str-digits d.year d.month d.day (omega (arith, v.year_lo)) (omega (arith, v.year_hi))
        (omega (arith, v.month_hi)) small)
    ∙ str_to_date-three _ d.year d.month d.day
        (read_three-digits 3 1 1 d.year d.month d.day (omega (arith, v.year_hi))
          (omega (arith, v.month_hi)) (omega (arith, small)) (omega (arith, v.year_hi))
          (omega (arith, v.month_hi)) (omega (arith, small)))
        (omega (arith, v.year_hi, v.month_hi, small))
