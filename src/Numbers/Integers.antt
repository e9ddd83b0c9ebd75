-- ===== src/Numbers/Integers.antt =====
-- `integer_to_string`, IntConvertor and BoolConvertor of include/types/s4convertors.h. An int64_t is
-- its bit pattern, a number below 2 ^ 64.
use s4_lib_lite.Prelude.{
  ℕ, zero, suc, ◌+◌, ◌-◌, ◌*◌, ◌/◌, ◌%◌, ◌^◌, Bool, true, false, [], ◌∷◌, Option, none, some, Bytes,
  codes, leb, ltb, ◌==◌, if◌then◌else◌, length,
}
use s4_lib_lite.Prelude.Atoi.{is_digit}

abbrev pub u64_mod : ℕ
u64_mod = 2 ^ 64

abbrev pub is_negative : ℕ → Bool
is_negative t = leb (2 ^ 63) t

-- `-x` on a bit pattern.
abbrev pub negate : ℕ → ℕ
negate t = (u64_mod - t) % u64_mod

-- `UNSIGNED_VALUE_OF`
abbrev pub unsigned_value_of : ℕ → ℕ
unsigned_value_of t = if is_negative t then negate t else t

unfoldable pub digit_pairs : Bytes
digit_pairs =
    codes
      "00010203040506070809101112131415161718192021222324252627282930313233343536373839404142434445464748495051525354555657585960616263646566676869707172737475767778798081828384858687888990919293949596979899"

abbrev pub byte_at : ℕ → Bytes → ℕ
byte_at i [] = 0
byte_at zero (c ∷ s) = c
byte_at (suc i) (c ∷ s) = byte_at i s

-- `*--p = digit_pairs[2 * pos + 1]; *--p = digit_pairs[2 * pos];`
unfoldable pub put_pair : ℕ → Bytes → Bytes
unfolding digit_pairs
put_pair n out = byte_at (2 * n) digit_pairs ∷ byte_at (2 * n + 1) digit_pairs ∷ out

-- `while (number > 99)`; `out` is what stands from `p` on.
unfoldable pub pairs_loop : ℕ → ℕ → Bytes → Option (ℕ × Bytes)
unfolding put_pair
pairs_loop zero number out = none
pairs_loop (suc fuel) number out = elim (ltb 99 number) [
  | true ↦ pairs_loop fuel (number / 100) (put_pair (number % 100) out)
  | false ↦ some (number, out)
]

abbrev pub last_digits : ℕ × Bytes → Bytes
last_digits (number, out) = if ltb 9 number then put_pair number out else (b'0' + number) ∷ out

unfoldable pub write_number : ℕ → ℕ → Bytes → Option Bytes
unfolding pairs_loop
write_number fuel number out = elim (pairs_loop fuel number out) [
  | none ↦ none
  | some left ↦ some (last_digits left)
]

abbrev pub sign_if : Bool → Bytes → Bytes
sign_if negative s = if negative then b'-' ∷ s else s

-- What fits into a buffer that is filled from its end; otherwise it is written in front of it.
abbrev pub fitting : ℕ → Option Bytes → Option Bytes
fitting len none = none
fitting len (some s) = if leb (length s) len then some s else none

unfoldable pub integer_to_string : ℕ → ℕ → Option Bytes
unfolding write_number
integer_to_string len t = fitting len (elim (write_number 10 (unsigned_value_of t) []) [
  | none ↦ none
  | some s ↦ some (sign_if (is_negative t) s)
])

-- `IntConvertor::convert` of a number: `digits10` of an int64_t is 18.
unfoldable pub string_of_int : ℕ → Option Bytes
unfolding integer_to_string
string_of_int value = integer_to_string (18 + 2) value

-- What `IntConvertor::convert` makes of a text: the number; false, or a FieldConvertError where it
-- throws; or nothing that C++ defines, since `10 * x` overflows an int64_t.
pub data Conversion : Type 0 where
  converted : ℕ → Conversion
  refused overflow : Conversion

-- The largest int64_t that can be multiplied by 10.
abbrev pub last_tenth : ℕ
last_tenth = 922337203685477580

-- The loop over the digits. `10 * x` is signed; the sum is unsigned and comes back as a bit pattern.
unfoldable pub digit_loop : ℕ → Bytes → Conversion
digit_loop x [] = converted x
digit_loop x (c ∷ s) =
    let rest = digit_loop ((10 * x + (c - b'0')) % u64_mod) s in
    if is_digit c then (if ltb last_tenth x then overflow else rest) else refused

unfoldable pub read_number : Bytes → Conversion
unfolding digit_loop
read_number [] = refused
read_number (c ∷ s) = digit_loop 0 (c ∷ s)

-- `x = -x`, which is taken to wrap around at the least number.
abbrev pub negated : Conversion → Conversion
negated (converted x) = converted (negate x)
negated refused = refused
negated overflow = overflow

unfoldable pub int_of_string : Bytes → Conversion
unfolding read_number
int_of_string [] = refused
int_of_string (c ∷ s) = if c == b'-' then negated (read_number s) else read_number (c ∷ s)

-- BoolConvertor
unfoldable pub string_of_bool : Bool → Bytes
string_of_bool value = (if value then b'Y' else b'N') ∷ []

unfoldable pub bool_of_string : Bytes → Option Bool
bool_of_string [] = none
bool_of_string (c ∷ []) = if c == b'Y' then some true else if c == b'N' then some false else none
bool_of_string (c ∷ d ∷ s) = none
