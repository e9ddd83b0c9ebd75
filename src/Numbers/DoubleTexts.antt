-- ===== src/Numbers/DoubleTexts.antt =====
-- The texts that DoubleConvertor lets pass, against a grammar.
use s4_lib_lite.Prelude.{
  both_true, ℕ, ◌≡◌, refl, inl, inr, Bool, true, false, ◌||◌, [], ◌∷◌, ◌++◌, Option, none, some,
  Bytes, ◌==◌, if◌then◌else◌, arith, Bool-cases,
}
use s4_lib_lite.Prelude.Atoi.{all_digits, is_digit}
use s4_lib_lite.Numbers.Doubles.{
  at_end, at_digit, skip_digits, accepts_fraction, after_sign, is_double_text,
}

-- A sign, digits, and a fraction, if there is a point.
pub record Decimal : Type 0 where
  pub negative : Bool
  pub whole : Bytes
  pub fraction : Option Bytes

abbrev pub spell_fraction : Option Bytes → Bytes
spell_fraction none = []
spell_fraction (some f) = b'.' ∷ f

abbrev pub spell_plain : Bytes → Option Bytes → Bytes → Bytes
spell_plain whole fraction rest = whole ++ (spell_fraction fraction ++ rest)

abbrev pub spell : Decimal → Bytes → Bytes
spell d rest =
    if d.negative
    then b'-' ∷ spell_plain d.whole d.fraction rest
    else spell_plain d.whole d.fraction rest

abbrev pub digits_behind : Option Bytes → Bytes
digits_behind none = []
digits_behind (some f) = f

pub record IsDecimal (d : Decimal) : Type 0 where
  pub whole_digits : all_digits d.whole ≡ true
  pub fraction_digits : all_digits (digits_behind d.fraction) ≡ true
  pub some_digit : at_digit d.whole || at_digit (digits_behind d.fraction) ≡ true

skip_digits-digits :
    (w r : Bytes) → all_digits w ≡ true → at_digit r ≡ false → skip_digits (w ++ r) ≡ r
skip_digits-digits [] [] e f = refl
skip_digits-digits [] (c ∷ r) e f = rw f refl
skip_digits-digits (c ∷ w) r e f =
    let parts = both_true (is_digit c) (all_digits w) e in
    rw parts.0 (skip_digits-digits w r parts.1 f)

at_end-no_digit : (r : Bytes) → at_end r ≡ true → at_digit r ≡ false
at_end-no_digit [] e = refl
at_end-no_digit (c ∷ r) e = ground arith

accepts-end : (r : Bytes) → at_end r ≡ true → accepts_fraction true r ≡ true
accepts-end [] e = refl
accepts-end (c ∷ r) e = ground arith

at_digit-append : (w r : Bytes) → at_digit w ≡ true → at_digit (w ++ r) ≡ true
at_digit-append [] r e = let no : false ≡ true = e in absurd (ground arith)
at_digit-append (c ∷ w) r e = e

-- After the point.
accepts-point :
    (have : Bool) (g rest : Bytes)
    → all_digits g ≡ true
    → at_end rest ≡ true
    → at_digit (g ++ rest) || have ≡ true
    → accepts_fraction have (b'.' ∷ (g ++ rest)) ≡ true
accepts-point have g rest e h k =
    rw (skip_digits-digits g rest e (at_end-no_digit rest h)) (rw (h) k)

pub or_left : (a b : Bool) → a ≡ true → a || b ≡ true
or_left a b e = ground arith

or_true : (a : Bool) → a || true ≡ true
or_true true = refl
or_true false = refl

pub or_swap : (a b : Bool) → a || b ≡ true → b || a ≡ true
or_swap true b e = or_true b
or_swap false b e = or_left b false e

after_sign-digit : (c : ℕ) (s : Bytes) → is_digit c ≡ true → after_sign (c ∷ s) ≡ c ∷ s
after_sign-digit c s e = let plain : (c == b'-') ≡ false = ground arith in rw plain refl

-- What the tests want of a text without a sign.
record IsPlain (p : Bytes) : Type 0 where
  more : at_end p ≡ false
  unsigned : after_sign p ≡ p
  accepted : accepts_fraction (at_digit p) (skip_digits p) ≡ true

spell_plain-IsPlain :
    (whole : Bytes) (fraction : Option Bytes) (rest : Bytes)
    → all_digits whole ≡ true
    → all_digits (digits_behind fraction) ≡ true
    → at_digit whole || at_digit (digits_behind fraction) ≡ true
    → at_end rest ≡ true
    → IsPlain (spell_plain whole fraction rest)
spell_plain-IsPlain [] none rest e f g h = let no : false ≡ true = g in absurd (ground arith)
spell_plain-IsPlain [] (some x) rest e f g h = record {
  more = refl;
  unsigned = refl;
  accepted =
      accepts-point false x rest f h
        (or_left (at_digit (x ++ rest)) false (at_digit-append x rest g));
}
spell_plain-IsPlain (c ∷ w) none rest e f g h =
    let parts = both_true (is_digit c) (all_digits w) e in
    record {
      more = ground arith;
      unsigned = after_sign-digit c (w ++ rest) parts.0;
      accepted =
          rw (parts.0)
            (rw (skip_digits-digits w rest parts.1 (at_end-no_digit rest h)) (accepts-end rest h));
    }
spell_plain-IsPlain (c ∷ w) (some x) rest e f g h =
    let parts = both_true (is_digit c) (all_digits w) e in
    record {
      more = ground arith;
      unsigned = after_sign-digit c (w ++ b'.' ∷ (x ++ rest)) parts.0;
      accepted = rw (parts.0) (
          rw (skip_digits-digits w (b'.' ∷ (x ++ rest)) parts.1 refl)
            (accepts-point true x rest f h (or_true (at_digit (x ++ rest)))));
    }

pub is_double_text-spell :
    (d : Decimal) (rest : Bytes)
    → IsDecimal d
    → at_end rest ≡ true
    → is_double_text (spell d rest) ≡ true
unfolding is_double_text
is_double_text-spell d rest v h =
    let p =
      spell_plain-IsPlain d.whole d.fraction rest v.whole_digits v.fraction_digits v.some_digit h in
    elim (Bool-cases d.negative) [
      | inl e ↦ rw e (rw (p.more, p.accepted) refl)
      | inr e ↦ rw e (rw (p.more) (rw (p.unsigned) (rw (p.more, p.accepted) refl)))
    ]
