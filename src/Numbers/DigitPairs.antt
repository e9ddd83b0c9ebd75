-- ===== src/Numbers/DigitPairs.antt =====
-- The table of pairs of digits and the rounds of `integer_to_string`.
use s4_lib_lite.Prelude.{
  both_true, ℕ, zero, suc, ◌+◌, ◌-◌, ◌*◌, ◌/◌, ◌%◌, ◌≤◌, ◌<◌, ◌≡◌, refl, ap, ◌∙◌, Bool, true, false,
  ◌&&◌, ◌∷◌, some, Bytes, leb, ltb, ==_iff, ◌==◌, arith, inl, inr, Bool-cases,
}
use s4_lib_lite.Prelude.Atoi.{is_digit-digit}
use s4_lib_lite.Numbers.Integers.{
  u64_mod, digit_pairs, byte_at, put_pair, pairs_loop, last_digits, write_number, last_tenth,
  digit_loop,
}

-- The table has the two digits of every number below its bound.
unfoldable is_pair : ℕ → Bool
unfolding digit_pairs
is_pair n =
    (byte_at (2 * n) digit_pairs == b'0' + n / 10)
    && (byte_at (2 * n + 1) digit_pairs == b'0' + n % 10)

unfoldable all_pairs : ℕ → Bool
unfolding is_pair
all_pairs zero = true
all_pairs (suc n) = is_pair n && all_pairs n

hundred_pairs : all_pairs 100 ≡ true
unfolding all_pairs
hundred_pairs = refl

all_pairs-below : (k n : ℕ) → all_pairs k ≡ true → n < k → is_pair n ≡ true
unfolding all_pairs
all_pairs-below zero n e h = absurd (omega arith)
all_pairs-below (suc k) n e h = elim (Bool-cases (leb k n)) [
  | inl g ↦
      let same : n ≡ k = ground arith in ap is_pair same ∙ (both_true (is_pair k) (all_pairs k) e).0
  | inr g ↦
      let below : n < k = ground arith in
      all_pairs-below k n (both_true (is_pair k) (all_pairs k) e).1 below
]

is_pair-bytes :
    (n : ℕ)
    → is_pair n ≡ true
    → (byte_at (2 * n) digit_pairs ≡ b'0' + n / 10)
      × (byte_at (2 * n + 1) digit_pairs ≡ b'0' + n % 10)
unfolding is_pair
is_pair-bytes n e = let parts = both_true _ _ e in ((==_iff _ _).0 parts.0, (==_iff _ _).0 parts.1)

pub put_pair-digits :
    (n : ℕ) (out : Bytes) → n < 100 → put_pair n out ≡ (b'0' + n / 10) ∷ (b'0' + n % 10) ∷ out
unfolding put_pair
put_pair-digits n out h =
    let found = is_pair-bytes n (all_pairs-below 100 n hundred_pairs h) in
    ap (λ c. c ∷ byte_at (2 * n + 1) digit_pairs ∷ out) found.0
    ∙ ap (λ c. (b'0' + n / 10) ∷ c ∷ out) found.1

pub digit_loop-digit :
    (x d : ℕ) (s : Bytes)
    → d < 10
    → x ≤ last_tenth
    → digit_loop x ((b'0' + d) ∷ s) ≡ digit_loop (10 * x + d) s
unfolding digit_loop
digit_loop-digit x d s h k =
    let small : ltb last_tenth x ≡ false = ground arith in
    let value : (10 * x + (b'0' + d - b'0')) % u64_mod ≡ 10 * x + d = omega arith in
    rw (is_digit-digit d h, digit_loop, small, value) refl

pub write_number-more :
    (fuel n : ℕ) (out : Bytes)
    → 99 < n
    → write_number (suc fuel) n out
      ≡ write_number fuel (n / 100) ((b'0' + n % 100 / 10) ∷ (b'0' + n % 100 % 10) ∷ out)
unfolding write_number pairs_loop
write_number-more fuel n out h =
    let more : ltb 99 n ≡ true = ground arith in
    let pair = put_pair-digits (n % 100) out (omega arith) in
    rw (write_number, pairs_loop, more) (rw pair refl)

pub write_number-last :
    (fuel n : ℕ) (out : Bytes)
    → n ≤ 99
    → write_number (suc fuel) n out ≡ some (last_digits (n, out))
unfolding write_number pairs_loop
write_number-last fuel n out h =
    let less : ltb 99 n ≡ false = ground arith in rw (write_number, pairs_loop, less) refl
