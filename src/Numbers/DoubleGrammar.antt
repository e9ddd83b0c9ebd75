-- ===== src/Numbers/DoubleGrammar.antt =====
-- The tests of DoubleConvertor on a text, both ways against the grammar of Numbers.DoubleTexts.
use s4_lib_lite.Prelude.{
  both_true, ◌≡◌, refl, ap, ◌∙◌, ◌↔◌, inl, inr, Bool, true, false, ◌||◌, [], ◌∷◌, ◌++◌, Option,
  none, some, Bytes, ◌==◌, ==_iff, if◌then◌else◌, Bool-cases,
}
use s4_lib_lite.Prelude.Atoi.{all_digits, is_digit}
use s4_lib_lite.Numbers.Doubles.{
  at_end, at_digit, skip_digits, accepts_fraction, after_sign, is_double_text,
}
use s4_lib_lite.Numbers.DoubleTexts.{
  Decimal, IsDecimal, spell_fraction, spell_plain, spell, digits_behind, or_left, or_swap,
  is_double_text-spell,
}

-- The digits at the start of a text.
abbrev leading : Bytes → Bytes
leading [] = []
leading (c ∷ s) = if is_digit c then c ∷ leading s else []

leading-all_digits : (s : Bytes) → all_digits (leading s) ≡ true
leading-all_digits [] = refl
leading-all_digits (c ∷ s) = elim (Bool-cases (is_digit c)) [
  | inl e ↦ rw e (rw e (leading-all_digits s))
  | inr e ↦ rw e refl
]

leading-skip_digits : (s : Bytes) → s ≡ leading s ++ skip_digits s
leading-skip_digits [] = refl
leading-skip_digits (c ∷ s) = elim (Bool-cases (is_digit c)) [
  | inl e ↦ rw e (ap (λ t. c ∷ t) (leading-skip_digits s))
  | inr e ↦ rw e refl
]

at_digit-leading : (s : Bytes) → at_digit (leading s) ≡ at_digit s
at_digit-leading [] = refl
at_digit-leading (c ∷ s) = elim (Bool-cases (is_digit c)) [ inl e ↦ rw e e | inr e ↦ rw e refl ]

-- What passes behind the digits is a fraction and the end.
accepts_fraction-spelled :
    (have : Bool) (q : Bytes)
    → accepts_fraction have q ≡ true
    → (f : Option Bytes) × (rest : Bytes) × (q ≡ spell_fraction f ++ rest)
      × (at_end rest ≡ true)
      × (all_digits (digits_behind f) ≡ true)
      × (have || at_digit (digits_behind f) ≡ true)
accepts_fraction-spelled have [] e = (none, [], refl, refl, refl, or_left have false e)
accepts_fraction-spelled have (c ∷ q) e = elim (Bool-cases (c == b'.')) [
  | inl point ↦
      let parts = both_true (at_end (skip_digits q)) (at_digit q || have) (rw point at e) in
      (
        some (leading q),
        skip_digits q,
        ap (λ d. d ∷ q) ((==_iff c b'.').0 point) ∙ ap (λ t. b'.' ∷ t) (leading-skip_digits q),
        parts.0,
        leading-all_digits q,
        rw (at_digit-leading q) (or_swap (at_digit q) have parts.1),
      )
  | inr other ↦
      let parts = both_true (c == 0) have (rw other at e) in
      (none, c ∷ q, refl, parts.0, refl, or_left have false parts.1)
]

double_text-plain :
    (p : Bytes)
    → accepts_fraction (at_digit p) (skip_digits p) ≡ true
    → (f : Option Bytes) × (rest : Bytes) × (p ≡ spell_plain (leading p) f rest)
      × (at_end rest ≡ true)
      × (all_digits (digits_behind f) ≡ true)
      × (at_digit (leading p) || at_digit (digits_behind f) ≡ true)
double_text-plain p e =
    let q = accepts_fraction-spelled (at_digit p) (skip_digits p) e in
    (
      q.0,
      q.1,
      leading-skip_digits p ∙ ap (λ t. leading p ++ t) q.2,
      q.3,
      q.4,
      ap (λ b. b || at_digit (digits_behind q.0)) (at_digit-leading p) ∙ q.5,
    )

-- A text with its sign.
after_sign-sign :
    (s : Bytes) → (negative : Bool) × (s ≡ (if negative then b'-' ∷ after_sign s else after_sign s))
after_sign-sign [] = (false, refl)
after_sign-sign (c ∷ s) = elim (Bool-cases (c == b'-')) [
  | inl e ↦ (true, rw e (ap (λ d. d ∷ s) ((==_iff c b'-').0 e)))
  | inr e ↦ (false, rw e refl)
]

is_double_text-decimal :
    (s : Bytes)
    → is_double_text s ≡ true
    → (d : Decimal) × (rest : Bytes) × IsDecimal d × (at_end rest ≡ true) × (s ≡ spell d rest)
unfolding is_double_text
is_double_text-decimal s e =
    let accepted = (both_true _ _ (both_true _ _ e).1).1 in
    let sign = after_sign-sign s in
    let p = double_text-plain (after_sign s) accepted in
    (
      record { negative = sign.0; whole = leading (after_sign s); fraction = p.0 },
      p.1,
      record {
        whole_digits = leading-all_digits (after_sign s);
        fraction_digits = p.4;
        some_digit = p.5;
      },
      p.3,
      sign.1 ∙ ap (λ t. if sign.0 then b'-' ∷ t else t) p.2,
    )

-- For every text, the tests of DoubleConvertor let exactly those pass that are, up to their end or
-- their first NUL, a decimal number: perhaps a minus, digits, and perhaps a point with digits, with at
-- least one digit on one side of the point.
pub is_double_text_iff :
    (s : Bytes)
    → (is_double_text s ≡ true)
      ↔ ((d : Decimal) × (rest : Bytes) × IsDecimal d × (at_end rest ≡ true) × (s ≡ spell d rest))
is_double_text_iff s = (
  is_double_text-decimal s,
  λ (d, rest, v, h, e). ap is_double_text e ∙ is_double_text-spell d rest v h,
)
