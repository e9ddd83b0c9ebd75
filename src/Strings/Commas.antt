-- ===== src/Strings/Commas.antt =====
-- `string_format_number_comma`, from the front.
use mathlib.Core.List.{append-nil}
use s4_lib_lite.Prelude.{
  ℕ, ◌+◌, ◌-◌, ◌/◌, ◌≤◌, ◌<◌, ◌≡◌, refl, ap, sym, ◌∙◌, [], ◌∷◌, ◌++◌, Option, none, some, Bytes,
  length, length-append, arith, ◌==◌, ltb, if◌then◌else◌, Bool, true, not, ◌&&◌, Bool-cases, inl,
  inr,
}
use s4_lib_lite.Prelude.Atoi.{is_digit}
use s4_lib_lite.Strings.Edit.{
  before_dot, from_dot, up_to_nul, comma_source, rev_onto, comma_if, comma_loop,
  string_format_number_comma,
}

unfoldable pub count_digits : Bytes → ℕ
count_digits [] = 0
count_digits (c ∷ s) = if is_digit c then count_digits s + 1 else count_digits s

-- A comma behind every digit with a multiple of three digits, but not none, to its right.
unfoldable pub with_commas : Bytes → Bytes
unfolding count_digits
with_commas [] = []
with_commas (c ∷ s) =
    if is_digit c then c ∷ comma_if (count_digits s) (with_commas s) else c ∷ with_commas s

unfoldable pub without_commas : Bytes → Bytes
without_commas [] = []
without_commas (c ∷ s) = if c == b',' then without_commas s else c ∷ without_commas s

comma_if-append : (n : ℕ) (s f : Bytes) → comma_if n (s ++ f) ≡ comma_if n s ++ f
comma_if-append n s f = ground arith

comma_loop-with_commas :
    (l t f : Bytes)
    → comma_loop (count_digits t) l (with_commas t ++ f) ≡ with_commas (rev_onto l t) ++ f
unfolding comma_loop with_commas count_digits
comma_loop-with_commas [] t f = refl
comma_loop-with_commas (c ∷ l) t f =
    ground (
      arith,
      comma_loop-with_commas l (c ∷ t) f,
      comma_if-append (count_digits t) (with_commas t) f,
    )

rev_onto-rev_onto : (s a t : Bytes) → rev_onto (rev_onto s a) t ≡ rev_onto a (s ++ t)
rev_onto-rev_onto [] a t = refl
rev_onto-rev_onto (c ∷ s) a t = rev_onto-rev_onto s (c ∷ a) t

dot-parts : (s : Bytes) → before_dot s ++ from_dot s ≡ s
dot-parts [] = refl
dot-parts (c ∷ s) = ground (arith, dot-parts s)

count_digits-le : (s : Bytes) → count_digits s ≤ length s
unfolding count_digits
count_digits-le [] = omega arith
count_digits-le (c ∷ s) = ground (arith, count_digits-le s)

with_commas-short : (s : Bytes) → length s ≤ 3 → with_commas s ≡ s
unfolding with_commas
with_commas-short [] h = refl
with_commas-short (c ∷ s) h = ground (arith, with_commas-short s (omega arith), count_digits-le s)

with_commas-length : (s : Bytes) → length (with_commas s) ≤ length s + (count_digits s - 1) / 3
unfolding with_commas count_digits
with_commas-length [] = omega arith
with_commas-length (c ∷ s) = ground (arith, with_commas-length s)

without-with_commas : (s : Bytes) → without_commas (with_commas s) ≡ without_commas s
unfolding with_commas without_commas
without-with_commas [] = refl
without-with_commas (c ∷ s) = ground (arith, without-with_commas s)

-- No byte of a text is a NUL.
abbrev pub is_c_string : Bytes → Bool
is_c_string [] = true
is_c_string (c ∷ s) = not (c == 0) && is_c_string s

up_to_nul-same : (s : Bytes) → is_c_string s ≡ true → up_to_nul s ≡ s
up_to_nul-same [] h = refl
up_to_nul-same (c ∷ s) h = ground (arith, up_to_nul-same s)

is_c_string-with_commas : (s f : Bytes) → is_c_string (with_commas s ++ f) ≡ is_c_string (s ++ f)
unfolding with_commas
is_c_string-with_commas [] f = refl
is_c_string-with_commas (c ∷ s) f = ground (arith, is_c_string-with_commas s f)

longer :
    (c : ℕ) (s : Bytes)
    → before_dot (c ∷ s) ≡ c ∷ before_dot s
    → (dot : Bytes) → comma_source s dot ≡ before_dot s
    → comma_source (c ∷ s) dot ≡ before_dot (c ∷ s)
longer c s e [] h = ap (λ t. c ∷ t) h ∙ sym e
longer c s e (d ∷ dot) h = refl

comma_source-before_dot : (s : Bytes) → comma_source s (from_dot s) ≡ before_dot s
comma_source-before_dot [] = refl
comma_source-before_dot (c ∷ s) = elim (Bool-cases (c == b'.')) [
  | inl e ↦ let dot : from_dot (c ∷ s) ≡ c ∷ s = rw e refl in ap (comma_source (c ∷ s)) dot
  | inr e ↦
      let dot : from_dot (c ∷ s) ≡ from_dot s = rw e refl in
      let before : before_dot (c ∷ s) ≡ c ∷ before_dot s = rw e refl in
      ap (comma_source (c ∷ s)) dot ∙ longer c s before (from_dot s) (comma_source-before_dot s)
]

-- The branches of the function, when the number is short and when it is not.
choose :
    (n : ℕ) (num out : Bytes)
    → n ≡ length num
    → (length num < 3 → num ≡ out)
    → length out < 50
    → up_to_nul out ≡ out
    → ◌≡◌ {A = Option Bytes}
        (if ltb (length num) 3
          then some num
          else if n == length num && ltb (length out) 50
          then some (up_to_nul out)
          else none)
        (some out)
choose n num out same short fits whole = rw whole (ground (arith, same, short, fits))

out_fits : (m f num : Bytes) → m ++ f ≡ num → length num ≤ 37 → length (with_commas m ++ f) < 50
out_fits m f num e h = omega (
  arith,
  ap length e,
  length-append m f,
  length-append (with_commas m) f,
  with_commas-length m,
  count_digits-le m,
)

out_short : (m f num : Bytes) → m ++ f ≡ num → length num < 3 → num ≡ with_commas m ++ f
out_short m f num e h =
    sym e
    ∙ ap (λ t. t ++ f) (sym (with_commas-short m (omega (arith, ap length e, length-append m f))))

-- For every text of at most 37 bytes without a NUL, `string_format_number_comma` stays within its buffer
-- and gives the part before the point with a comma behind every digit that has a positive multiple of
-- three digits to its right in that part, and the rest as it is; that part has not changed otherwise.
pub string_format_number_comma-with_commas :
    (num : Bytes)
    → is_c_string num ≡ true
    → length num ≤ 37
    → (string_format_number_comma num ≡ some (with_commas (before_dot num) ++ from_dot num))
      × (without_commas (with_commas (before_dot num)) ≡ without_commas (before_dot num))
unfolding string_format_number_comma with_commas count_digits
string_format_number_comma-with_commas num no_nul h =
    let m = before_dot num in
    let f = from_dot num in
    let parts = dot-parts num in
    let whole = up_to_nul-same num no_nul in
    let goal : Bytes → Bytes → Option Bytes = λ src dot.
      let out = comma_loop 0 (rev_onto src []) dot in
      if ltb (length num) 3
      then some num
      else if length src + length dot == length num && ltb (length out) 50
      then some (up_to_nul out)
      else none in
    let out : comma_loop 0 (rev_onto m []) f ≡ with_commas m ++ f =
      comma_loop-with_commas (rev_onto m []) [] f
      ∙ ap (λ t. with_commas t ++ f) (rev_onto-rev_onto m [] [] ∙ append-nil m) in
    (
      ap (λ t. goal (comma_source num (from_dot t)) (from_dot t)) whole
          ∙ (ap (λ t. goal t f) (comma_source-before_dot num)
              ∙ (ap
                    (λ (o : Bytes).
                      if ltb (length num) 3
                      then some num
                      else if length m + length f == length num && ltb (length o) 50
                      then some (up_to_nul o)
                      else none)
                    out
                  ∙ choose (length m + length f) num _
                      (omega (arith, ap length parts, length-append m f)) (out_short m f num parts)
                      (out_fits m f num parts h)
                      (up_to_nul-same _
                        (is_c_string-with_commas m f ∙ (ap is_c_string parts ∙ no_nul))))),
      without-with_commas m,
    )
