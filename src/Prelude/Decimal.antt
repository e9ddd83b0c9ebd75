-- ===== src/Prelude/Decimal.antt =====
-- Decimal text as the C library prints and reads it: the conversions %d and %0wd of `snprintf` and
-- `std::to_string` at a number that is not negative, and the loop `c = c * 10 + ch - '0'`.
use s4_lib_lite.Prelude.{
  ℕ, zero, suc, ◌+◌, ◌-◌, ◌*◌, ◌/◌, ◌%◌, ◌^◌, ◌≤◌, ◌<◌, max, ◌≡◌, refl, [], ◌∷◌, ◌++◌, Bytes, ap,
  length, length-append, arith, ltb, ltb→lt, lt→ltb, Bool-cases, inl, inr, if◌then◌else◌,
}
use native.Mathlib.Nat.{pow-suc, pow-le-pow_right, le_trans}

abbrev pub u32_mod : ℕ
u32_mod = 2 ^ 32

-- The last `w` decimal digits of `n`, most significant first.
unfoldable pub digits : ℕ → ℕ → Bytes
digits zero n = []
digits (suc w) n = digits w (n / 10) ++ (b'0' + n % 10) ∷ []

-- How many digits `n` has, at most `f` + 1.
unfoldable pub num_digits : ℕ → ℕ → ℕ
num_digits zero n = 1
num_digits (suc f) n = if ltb n 10 then 1 else suc (num_digits f (n / 10))

-- No number of 64 bits has more than twenty digits.
unfoldable pub print_padded : ℕ → ℕ → Bytes
unfolding digits num_digits
print_padded w n = digits (max w (num_digits 19 n)) n

unfoldable pub print : ℕ → Bytes
unfolding print_padded
print n = print_padded 0 n

-- A `char` is signed: the byte `b` is widened to a 32-bit pattern.
unfoldable pub widen_char : ℕ → ℕ
widen_char b = if ltb b 128 then b else b + u32_mod - 256

-- `c * 10 + ch - '0'` in 32 bits.
unfoldable pub push_digit : ℕ → ℕ → ℕ
unfolding widen_char
push_digit c b = (c * 10 + widen_char b + u32_mod - b'0') % u32_mod

unfoldable pub read_digits : ℕ → Bytes → ℕ
unfolding push_digit
read_digits c [] = c
read_digits c (b ∷ s) = read_digits (push_digit c b) s

pub length-digits : (w n : ℕ) → length (digits w n) ≡ w
unfolding digits
length-digits zero n = refl
length-digits (suc w) n =
    omega
      (arith, length-append (digits w (n / 10)) ((b'0' + n % 10) ∷ []), length-digits w (n / 10))

read_digits-append :
    (c : ℕ) (xs ys : Bytes) → read_digits c (xs ++ ys) ≡ read_digits (read_digits c xs) ys
unfolding read_digits
read_digits-append c [] ys = refl
read_digits-append c (x ∷ xs) ys = read_digits-append (push_digit c x) xs ys

push_digit-digit : (n : ℕ) → n < u32_mod → push_digit (n / 10) (b'0' + n % 10) ≡ n
unfolding push_digit
push_digit-digit n h = ground arith

pub tenth-lt_pow : (w n : ℕ) → n < 10 ^ suc w → n / 10 < 10 ^ w
tenth-lt_pow w n h = omega (arith, pow-suc 10 w)

lt_pow-of_tenth : (w n : ℕ) → n / 10 < 10 ^ w → n < 10 ^ suc w
lt_pow-of_tenth w n h = omega (arith, pow-suc 10 w)

-- Reading gives back what was printed, where the number fits.
pub read_digits-digits : (w n : ℕ) → n < u32_mod → n < 10 ^ w → read_digits 0 (digits w n) ≡ n
unfolding read_digits digits
read_digits-digits zero n h k = omega arith
read_digits-digits (suc w) n h k =
    rw (read_digits-append 0 (digits w (n / 10)) ((b'0' + n % 10) ∷ []))
      (rw (read_digits-digits w (n / 10) (omega arith) (tenth-lt_pow w n k)) (push_digit-digit n h))

pub num_digits_fits : (f n : ℕ) → n < 10 ^ suc f → n < 10 ^ num_digits f n
unfolding num_digits
num_digits_fits zero n h = h
num_digits_fits (suc f) n h = elim (Bool-cases (ltb n 10)) [
  | inl few ↦ rw few (ltb→lt n 10 few)
  | inr more ↦ rw more (lt_pow-of_tenth _ n (num_digits_fits f (n / 10) (tenth-lt_pow (suc f) n h)))
]

pub num_digits-le : (f k n : ℕ) → n < 10 ^ suc k → num_digits f n ≤ suc k
unfolding num_digits
num_digits-le zero k n h = omega arith
num_digits-le (suc f) zero n h = rw (lt→ltb n 10 (omega (arith, pow-suc 10 0))) (omega arith)
num_digits-le (suc f) (suc k) n h =
    ground (arith, num_digits-le f k (n / 10) (tenth-lt_pow (suc k) n h))

-- A number of up to `w` digits is printed on exactly `w` digits.
pub print_padded-eq-digits : (k n : ℕ) → n < 10 ^ suc k → print_padded (suc k) n ≡ digits (suc k) n
unfolding print_padded
print_padded-eq-digits k n h =
    let width : max (suc k) (num_digits 19 n) ≡ suc k = omega (arith, num_digits-le 19 k n h) in
    ap (λ m. digits m n) width

u32-lt_pow : (n : ℕ) → n < u32_mod → n < 10 ^ 20
u32-lt_pow n h = omega arith

-- What is printed with any padding is read back, for a number of 32 bits.
pub read_digits-print_padded : (w n : ℕ) → n < u32_mod → read_digits 0 (print_padded w n) ≡ n
unfolding print_padded
read_digits-print_padded w n h = read_digits-digits (max w (num_digits 19 n)) n h (
    le_trans (num_digits_fits 19 n (u32-lt_pow n h)) (pow-le-pow_right (omega arith) (omega arith)))

pub length-print_padded : (w n : ℕ) → length (print_padded w n) ≡ max w (num_digits 19 n)
unfolding print_padded
length-print_padded w n = length-digits (max w (num_digits 19 n)) n
