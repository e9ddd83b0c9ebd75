-- ===== src/Numbers/Doubles.antt =====
-- DoubleConvertor of include/types/s4convertors.h, which puts double-conversion to use.
use s4_lib_lite.Prelude.{
  ℕ, zero, suc, ◌-◌, Bool, true, false, not, ◌&&◌, ◌||◌, [], ◌∷◌, ◌++◌, Option, none, some, Bytes,
  leb, ◌==◌, if◌then◌else◌, length,
}
use s4_lib_lite.Prelude.Atoi.{is_digit}
use s4_lib_lite.Strings.Edit.{before_dot, from_dot, rev_onto}

-- The doubles, and what double-conversion makes of them: `fast_dtoa` and `fast_fixed_dtoa` are empty
-- where they fail; `fast_strtod` comes with the number of bytes it has processed. `is_coarse` is
-- `value == 0 || value > 0.0001 || value < -0.0001`.
pub record Doubles {ℓ} (D : Type ℓ) : Type ℓ where
  pub is_coarse : D → Bool
  pub fast_dtoa : D → Bytes
  pub fast_fixed_dtoa : D → Bytes
  pub fast_strtod : Bytes → D × ℕ
  pub is_nan : D → Bool

abbrev pub buffer_size : ℕ
buffer_size = 32

abbrev pub significant_digits : ℕ
significant_digits = 15

abbrev pub zeros : ℕ → Bytes
zeros zero = []
zeros (suc n) = b'0' ∷ zeros n

-- The point and what is behind it; the point is written where there is none.
abbrev pub with_point : Bytes → Bytes
with_point [] = b'.' ∷ []
with_point (c ∷ s) = c ∷ s

abbrev pub behind_point : Bytes → ℕ
behind_point s = length s - 1

-- The text with `padding` digits behind its point, if it has fewer.
unfoldable pub pad_text : ℕ → Bytes → Bytes
pad_text padding text =
    let fraction = with_point (from_dot text) in
    before_dot text ++ (fraction ++ zeros (padding - behind_point fraction))

-- `while ((*end == '0') && (discard-- > 0))`, on the bytes from the last to the first; `none` is a
-- read in front of the buffer.
unfoldable pub discard_zeros : ℕ → Bytes → Option Bytes
discard_zeros discard [] = none
discard_zeros zero (c ∷ s) = some (c ∷ s)
discard_zeros (suc discard) (c ∷ s) = if c == b'0' then discard_zeros discard s else some (c ∷ s)

-- `while (*end == '0')`
unfoldable pub strip_zeros : Bytes → Option Bytes
strip_zeros [] = none
strip_zeros (c ∷ s) = if c == b'0' then strip_zeros s else some (c ∷ s)

abbrev pub reversed : Option Bytes → Option Bytes
reversed none = none
reversed (some s) = some (rev_onto s [])

unfoldable pub strip_text : ℕ → Bytes → Option Bytes
unfolding discard_zeros strip_zeros
strip_text zero text = reversed (strip_zeros (rev_onto text []))
strip_text (suc padding) text =
    reversed (discard_zeros (significant_digits - suc padding) (rev_onto text []))

abbrev pub is_empty_text : Bytes → Bool
is_empty_text [] = true
is_empty_text (c ∷ s) = false

-- What is padded has to fit into the buffer; otherwise it is written behind it.
abbrev pub padded : ℕ → Bytes → Option Bytes
padded zero text = some text
padded (suc padding) text =
    let out = pad_text (suc padding) text in if leb (length out) buffer_size then some out else none

-- `DoubleConvertor::convert` of a double; a negative padding does what 0 does.
unfoldable pub string_of_double {ℓ} : {D : Type ℓ} → Doubles D → ℕ → D → Option Bytes
unfolding pad_text strip_text
string_of_double lib padding value =
    if lib.is_coarse value
    then (if is_empty_text (lib.fast_dtoa value)
        then some []
        else padded padding (lib.fast_dtoa value))
    else if is_empty_text (lib.fast_fixed_dtoa value)
    then some []
    else strip_text padding (lib.fast_fixed_dtoa value)

-- The text that `c_str()` gives ends at its first NUL.
abbrev pub at_end : Bytes → Bool
at_end [] = true
at_end (c ∷ s) = c == 0

abbrev pub at_digit : Bytes → Bool
at_digit [] = false
at_digit (c ∷ s) = is_digit c

-- `while (IS_DIGIT(*++i));`
abbrev pub skip_digits : Bytes → Bytes
skip_digits [] = []
skip_digits (c ∷ s) = if is_digit c then skip_digits s else c ∷ s

-- `if (*i == '.' && IS_DIGIT(*++i))`, and the test behind it.
abbrev pub accepts_fraction : Bool → Bytes → Bool
accepts_fraction have_digit [] = have_digit
accepts_fraction have_digit (c ∷ s) =
    if c == b'.' then at_end (skip_digits s) && (at_digit s || have_digit) else c == 0 && have_digit

abbrev pub after_sign : Bytes → Bytes
after_sign [] = []
after_sign (c ∷ s) = if c == b'-' then s else c ∷ s

-- The tests on the text before it is converted.
unfoldable pub is_double_text : Bytes → Bool
is_double_text value =
    not (at_end value)
    && (not (at_end (after_sign value))
        && accepts_fraction (at_digit (after_sign value)) (skip_digits (after_sign value)))

-- `DoubleConvertor::convert` of a text; `none` is false, or a FieldConvertError where it throws.
unfoldable pub double_of_string {ℓ} : {D : Type ℓ} → Doubles D → Bytes → Option D
unfolding is_double_text
double_of_string lib value =
    let result = lib.fast_strtod value in
    if is_double_text value && (result.1 == length value && not (lib.is_nan result.0))
    then some result.0
    else none
