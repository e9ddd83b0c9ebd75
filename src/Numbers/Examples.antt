-- ===== src/Numbers/Examples.antt =====
-- Numbers and texts that the conversions are tried on.
use s4_lib_lite.Prelude.{
  ℕ, zero, suc, ◌^◌, ◌≡◌, ◌↔◌, refl, ap, true, false, ◌&&◌, [], ◌∷◌, none, some, Bytes, codes, ◌==◌,
  if◌then◌else◌, length, arith,
}
use mathlib.Core.List.{append-nil}
use s4_lib_lite.Numbers.Integers.{
  overflow, string_of_int, int_of_string, string_of_bool, bool_of_string,
}
use s4_lib_lite.Numbers.Doubles.{
  Doubles, zeros, is_empty_text, strip_text, string_of_double, double_of_string, is_double_text,
  at_end,
}
use s4_lib_lite.Numbers.DoubleTexts.{Decimal, IsDecimal, spell}
use s4_lib_lite.Numbers.DoubleGrammar.{is_double_text_iff}
use s4_lib_lite.Numbers.DoubleRoundTrip.{IsWritten, double_of_string-string_of_double}

smallest : string_of_int (2 ^ 63) ≡ some (codes "-9223372036854775808")
unfolding string_of_int
smallest = refl

-- One more than an uint64_t holds.
too_large : int_of_string (codes "18446744073709551616") ≡ overflow
unfolding int_of_string
too_large = refl

yes_no : (bool_of_string (string_of_bool true) ≡ some true) × (bool_of_string (codes "y") ≡ none)
unfolding string_of_bool bool_of_string
yes_no = (refl, refl)

-- A value that is 0 on fifteen digits is left with its point.
bare_point : strip_text 0 (codes "0.000000000000000") ≡ some (codes "0.")
unfolding strip_text
bare_point = refl

three_digits : strip_text 3 (codes "0.000050000000000") ≡ some (codes "0.00005")
unfolding strip_text
three_digits = refl

trailing_point : is_double_text (codes "-12.") ≡ true
unfolding is_double_text
trailing_point = refl

-- Doubles that are texts without zeros at their ends.
unfoldable without_zeros : Bytes → Bytes
without_zeros [] = []
without_zeros (c ∷ s) =
    let rest = without_zeros s in if c == b'0' && is_empty_text rest then [] else c ∷ rest

abbrev text_doubles : Doubles Bytes
text_doubles = record {
  is_coarse = λ v. true;
  fast_dtoa = λ v. v;
  fast_fixed_dtoa = λ v. v;
  fast_strtod = λ s. (without_zeros s, length s);
  is_nan = λ v. false;
}

abbrev one_and_half : Decimal
one_and_half = record { negative = false; whole = codes "1"; fraction = some (codes "5") }

without_zeros-zeros : (n : ℕ) → without_zeros (zeros n) ≡ []
unfolding without_zeros
without_zeros-zeros zero = refl
without_zeros-zeros (suc n) = rw (without_zeros-zeros n) refl

one_and_half-IsWritten : IsWritten text_doubles (codes "1.5") one_and_half
unfolding without_zeros
one_and_half-IsWritten = record {
  coarse = refl;
  printed = refl;
  decimal = record { whole_digits = refl; fraction_digits = refl; some_digit = refl };
  number = refl;
  read = refl;
  read_zeros = λ n.
      rw (append-nil (zeros n))
        (ap (λ s. (49 ∷ 46 ∷ 53 ∷ s, suc (suc (suc (length (zeros n)))))) (without_zeros-zeros n));
}

is_double_text_iff_example : (is_double_text (codes "-1.5") ≡ true) ↔ (
    (d : Decimal) × (rest : Bytes) × IsDecimal d
    × (at_end rest ≡ true)
    × (codes "-1.5" ≡ spell d rest))
is_double_text_iff_example = is_double_text_iff (codes "-1.5")

double_of_string-string_of_double_example :
    (s : Bytes) × (string_of_double text_doubles 4 (codes "1.5") ≡ some s)
    × (double_of_string text_doubles s ≡ some (codes "1.5"))
double_of_string-string_of_double_example =
    double_of_string-string_of_double text_doubles 4 (codes "1.5") one_and_half
      one_and_half-IsWritten (omega arith)
