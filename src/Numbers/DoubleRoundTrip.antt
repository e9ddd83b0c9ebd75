-- ===== src/Numbers/DoubleRoundTrip.antt =====
-- A double that DoubleConvertor writes and reads back, with zeros added or not.
use s4_lib_lite.Prelude.{
  both_true, ℕ, zero, suc, ◌+◌, ◌-◌, ◌≤◌, ◌≡◌, refl, ap, sym, ◌∙◌, Bool, true, false, ◌||◌, [], ◌∷◌,
  ◌++◌, Option, none, some, Bytes, le→leb, ==_refl, length, ◌==◌, if◌then◌else◌, arith, Bool-cases,
  inl, inr, length-append,
}
use mathlib.Core.List.{append-nil}
use s4_lib_lite.Prelude.Atoi.{all_digits, is_digit}
use s4_lib_lite.Strings.Edit.{before_dot, from_dot}
use s4_lib_lite.Numbers.Doubles.{
  Doubles, at_digit, zeros, pad_text, padded, is_empty_text, string_of_double, double_of_string,
  with_point, behind_point,
}
use s4_lib_lite.Numbers.DoubleTexts.{
  Decimal, IsDecimal, spell_fraction, spell_plain, spell, digits_behind, is_double_text-spell,
}

-- The decimal with `n` zeros more behind its point.
abbrev pub with_zeros : ℕ → Decimal → Decimal
with_zeros n d = record {
  negative = d.negative;
  whole = d.whole;
  fraction = some (digits_behind d.fraction ++ zeros n);
}

-- What is wanted of double-conversion at a value: it is written as a decimal, and read back from it,
-- whatever zeros follow.
pub record IsWritten {ℓ} {D : Type ℓ} (lib : Doubles D) (v : D) (d : Decimal) : Type ℓ where
  pub coarse : lib.is_coarse v ≡ true
  pub printed : lib.fast_dtoa v ≡ spell d []
  pub decimal : IsDecimal d
  pub number : lib.is_nan v ≡ false
  pub read : lib.fast_strtod (spell d []) ≡ (v, length (spell d []))
  pub read_zeros :
      (n : ℕ)
      → lib.fast_strtod (spell (with_zeros n d) []) ≡ (v, length (spell (with_zeros n d) []))

dot-digits :
    (w : Bytes) (f : Option Bytes)
    → all_digits w ≡ true
    → (before_dot (w ++ (spell_fraction f ++ [])) ≡ w)
      × (from_dot (w ++ (spell_fraction f ++ [])) ≡ spell_fraction f ++ [])
dot-digits [] none e = (refl, refl)
dot-digits [] (some g) e = (refl, refl)
dot-digits (c ∷ w) f e =
    let parts = both_true (is_digit c) (all_digits w) e in
    let plain : (c == b'.') ≡ false = ground (arith, parts.0) in
    let rest = dot-digits w f parts.1 in (rw plain (ap (λ t. c ∷ t) rest.0), rw plain rest.1)

all_digits-zeros : (g : Bytes) (n : ℕ) → all_digits g ≡ true → all_digits (g ++ zeros n) ≡ true
all_digits-zeros [] zero e = refl
all_digits-zeros [] (suc n) e = all_digits-zeros [] n e
all_digits-zeros (c ∷ g) n e =
    let parts = both_true (is_digit c) (all_digits g) e in
    rw (parts.0) (all_digits-zeros g n parts.1)

at_digit-zeros :
    (a : Bool) (g : Bytes) (n : ℕ) → a || at_digit g ≡ true → a || at_digit (g ++ zeros n) ≡ true
at_digit-zeros true g n e = refl
at_digit-zeros false [] n e = let no : false ≡ true = e in absurd (ground arith)
at_digit-zeros false (c ∷ g) n e = e

with_zeros-IsDecimal : (n : ℕ) (d : Decimal) → IsDecimal d → IsDecimal (with_zeros n d)
with_zeros-IsDecimal n d v = record {
  whole_digits = v.whole_digits;
  fraction_digits = all_digits-zeros (digits_behind d.fraction) n v.fraction_digits;
  some_digit = at_digit-zeros (at_digit d.whole) (digits_behind d.fraction) n v.some_digit;
}

-- The zeros that are missing.
abbrev missing : ℕ → Decimal → ℕ
missing padding d = padding - length (digits_behind d.fraction)

with_point-fraction :
    (f : Option Bytes) (n : ℕ)
    → with_point (spell_fraction f ++ [])
        ++ zeros (n - behind_point (with_point (spell_fraction f ++ [])))
      ≡ b'.' ∷ ((digits_behind f ++ zeros (n - length (digits_behind f))) ++ [])
with_point-fraction none n = ap (λ t. b'.' ∷ t) (sym (append-nil (zeros (n - 0))))
with_point-fraction (some g) n = rw (append-nil g) (
    ap (λ k. b'.' ∷ (g ++ zeros (n - k))) (omega arith)
    ∙ ap (λ t. b'.' ∷ t) (sym (append-nil (g ++ zeros (n - length g)))))

pad_text-plain :
    (padding : ℕ) (d : Decimal)
    → IsDecimal d
    → before_dot (spell_plain d.whole d.fraction [])
        ++ (with_point (from_dot (spell_plain d.whole d.fraction []))
            ++ zeros (
                padding - behind_point (with_point (from_dot (spell_plain d.whole d.fraction [])))))
      ≡ spell_plain d.whole (some (digits_behind d.fraction ++ zeros (missing padding d))) []
pad_text-plain padding d v =
    let dot = dot-digits d.whole d.fraction v.whole_digits in
    ap
      (λ t.
        t
        ++ (with_point (from_dot (spell_plain d.whole d.fraction []))
            ++ zeros (
                padding
                - behind_point (with_point (from_dot (spell_plain d.whole d.fraction []))))))
      dot.0
    ∙ ap (λ t. d.whole ++ (with_point t ++ zeros (padding - behind_point (with_point t)))) dot.1
    ∙ ap (λ t. d.whole ++ t) (with_point-fraction d.fraction padding)

pad_text-spell :
    (padding : ℕ) (d : Decimal)
    → IsDecimal d
    → pad_text padding (spell d []) ≡ spell (with_zeros (missing padding d) d) []
unfolding pad_text
pad_text-spell padding d v = elim (Bool-cases d.negative) [
  | inl e ↦ rw e (ap (λ t. b'-' ∷ t) (pad_text-plain padding d v))
  | inr e ↦ rw e (pad_text-plain padding d v)
]

double_of_string-spell {ℓ} :
    {D : Type ℓ} (lib : Doubles D) (v : D) (d : Decimal)
    → IsDecimal d
    → lib.is_nan v ≡ false
    → lib.fast_strtod (spell d []) ≡ (v, length (spell d []))
    → double_of_string lib (spell d []) ≡ some v
unfolding double_of_string
double_of_string-spell lib v d w number read =
    rw (is_double_text-spell d [] w refl)
      (rw (read) (rw (number, ==_refl (length (spell d []))) refl))

string_of_double-coarse {ℓ} :
    {D : Type ℓ} (lib : Doubles D) (padding : ℕ) (v : D) (text : Bytes)
    → lib.is_coarse v ≡ true
    → lib.fast_dtoa v ≡ text
    → is_empty_text text ≡ false
    → string_of_double lib padding v ≡ padded padding text
unfolding string_of_double
string_of_double-coarse lib padding v text e f g = rw (string_of_double, e) (rw f (rw g refl))

length-zeros : (n : ℕ) → length (zeros n) ≡ n
length-zeros zero = refl
length-zeros (suc n) = omega (arith, length-zeros n)

length-spell_plain :
    (w : Bytes) (f : Option Bytes) (n : ℕ)
    → length (spell_plain w (some (digits_behind f ++ zeros n)) [])
      ≤ length (spell_plain w f []) + 1 + n
length-spell_plain w none n = omega (
  arith,
  length-append w (b'.' ∷ (zeros n ++ [])),
  length-append w [],
  length-append (zeros n) [],
  length-zeros n,
)
length-spell_plain w (some g) n = omega (
  arith,
  length-append w (b'.' ∷ ((g ++ zeros n) ++ [])),
  length-append w (b'.' ∷ (g ++ [])),
  length-append (g ++ zeros n) [],
  length-append g (zeros n),
  length-append g [],
  length-zeros n,
)

length-spell :
    (d : Decimal) (n : ℕ) → length (spell (with_zeros n d) []) ≤ length (spell d []) + 1 + n
length-spell d n = elim (Bool-cases d.negative) [
  | inl e ↦ rw e (omega (arith, length-spell_plain d.whole d.fraction n))
  | inr e ↦ rw e (length-spell_plain d.whole d.fraction n)
]

spell_plain-some :
    (w : Bytes) (f : Option Bytes)
    → at_digit w || at_digit (digits_behind f) ≡ true
    → is_empty_text (spell_plain w f []) ≡ false
spell_plain-some [] none e = let no : false ≡ true = e in absurd (ground arith)
spell_plain-some [] (some g) e = refl
spell_plain-some (c ∷ w) f e = refl

spell-some : (d : Decimal) → IsDecimal d → is_empty_text (spell d []) ≡ false
spell-some d v = elim (Bool-cases d.negative) [
  | inl e ↦ rw e refl
  | inr e ↦ rw e (spell_plain-some d.whole d.fraction v.some_digit)
]

-- If double-conversion writes a value above 0.0001, below -0.0001 or equal to 0 as a decimal and reads
-- it back, whatever zeros follow, then DoubleConvertor writes it with any padding that surely fits
-- into its 32 bytes, and reads the same value back.
pub double_of_string-string_of_double {ℓ} :
    {D : Type ℓ} (lib : Doubles D) (padding : ℕ) (v : D) (d : Decimal)
    → IsWritten lib v d
    → length (spell d []) + 1 + padding ≤ 32
    → (s : Bytes) × (string_of_double lib padding v ≡ some s) × (double_of_string lib s ≡ some v)
double_of_string-string_of_double lib zero v d w h = (
  spell d [],
  string_of_double-coarse lib zero v (spell d []) w.coarse w.printed (spell-some d w.decimal),
  double_of_string-spell lib v d w.decimal w.number w.read,
)
double_of_string-string_of_double lib (suc padding) v d w h =
    let more = missing (suc padding) d in
    let text = pad_text-spell (suc padding) d w.decimal in
    let fits : length (pad_text (suc padding) (spell d [])) ≤ 32 =
      omega (arith, ap length text, length-spell d more) in
    (
      spell (with_zeros more d) [],
      string_of_double-coarse lib (suc padding) v (spell d []) w.coarse w.printed
            (spell-some d w.decimal)
          ∙ ap (λ b. if b then some (pad_text (suc padding) (spell d [])) else none)
              (le→leb _ _ fits)
          ∙ ap some text,
      double_of_string-spell lib v (with_zeros more d) (with_zeros-IsDecimal more d w.decimal)
          w.number (w.read_zeros more),
    )
