-- ===== src/Numbers/IntegerLaws.antt =====
-- `IntConvertor` reads back what it writes, and does not write outside of its buffer.
use s4_lib_lite.Prelude.{ℕ, ◌+◌, ◌≤◌, ◌≡◌, Bool, true, false, [], ◌∷◌, Bytes, length}
use s4_lib_lite.Prelude.Atoi.{is_digit}
use s4_lib_lite.Numbers.Integers.{digit_loop}

abbrev first_digit : Bytes → Bool
first_digit [] = false
first_digit (c ∷ s) = is_digit c

-- What writing a number owes to the reader: a digit at its start, few bytes, and the value.
record IsText (k n : ℕ) (out text : Bytes) : Type 0 where
  starts : first_digit text ≡ true
  few : length text ≤ k + length out
  value : digit_loop 0 text ≡ digit_loop n out
