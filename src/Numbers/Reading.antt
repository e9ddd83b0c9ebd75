-- ===== src/Numbers/Reading.antt =====
-- What `IntConvertor` makes of any text, against the value of its digits.
use s4_lib_lite.Prelude.{
  ℕ, ◌+◌, ◌-◌, ◌*◌, ◌/◌, Bool, false, [], ◌∷◌, Bytes, ◌==◌, ltb, if◌then◌else◌,
}
use s4_lib_lite.Prelude.Atoi.{all_digits, is_digit}
use s4_lib_lite.Numbers.Integers.{Conversion, converted, refused, overflow, last_tenth, negated}

-- The value of the digits at the start of a text, which is not bounded, behind those of the value `x`.
unfoldable value_from : ℕ → Bytes → ℕ
value_from x [] = x
value_from x (c ∷ s) =
    let more = value_from (10 * x + (c - b'0')) s in if is_digit c then more else x

abbrev is_numeral : Bytes → Bool
is_numeral [] = false
is_numeral (c ∷ s) = all_digits (c ∷ s)

-- A text without a sign, by the value of the digits at its start: all of them but the last must have a
-- value of which the tenfold is an int64_t.
abbrev pub numeral : Bytes → Conversion
unfolding value_from
numeral s =
    if ltb last_tenth (value_from 0 s / 10)
    then overflow
    else if is_numeral s
    then converted (value_from 0 s)
    else refused

abbrev pub signed_numeral : Bytes → Conversion
signed_numeral [] = refused
signed_numeral (c ∷ s) = if c == b'-' then negated (numeral s) else numeral (c ∷ s)

-- The digits that are left, behind those of a value that did not overflow.
abbrev outcome : ℕ → Bytes → Conversion
outcome v s =
    if ltb last_tenth (v / 10) then overflow else if all_digits s then converted v else refused
