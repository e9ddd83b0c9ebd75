-- ===== src/L2/Codes.antt =====
-- The code by which `liveTrans` looks a message up is the market code of `MktCode`.
use s4_lib_lite.Prelude.{
  ℕ, zero, suc, ◌+◌, ◌-◌, ◌*◌, ◌/◌, ◌%◌, ◌^◌, ◌≤◌, ◌<◌, ◌≡◌, refl, ap, ◌∙◌, sym, ◌++◌, [], ◌∷◌,
  Bytes, true, arith, ◌⊎◌,
}
use mathlib.Core.List.{append_assoc}
use native.Mathlib.Nat.{pow-suc}
use s4_lib_lite.Prelude.Decimal.{
  u32_mod, digits, print_padded, tenth-lt_pow, print_padded-eq-digits,
}
use s4_lib_lite.Prelude.Atoi.{atoi, atoi_digits, is_digit}
use s4_lib_lite.MktCode.Convert.{ok, pure_code_int_to_mkt_code_int}
use s4_lib_lite.L2.Layout.{source_ssh, source_ssz}
use s4_lib_lite.L2.Wire.{live_code}

atoi_digits-digits :
    (w m n : ℕ) (s : Bytes)
    → m < 10 ^ w
    → atoi_digits n (digits w m ++ s) ≡ atoi_digits (n * 10 ^ w + m) s
unfolding atoi_digits digits
atoi_digits-digits zero m n s h = ap (λ x. atoi_digits x s) (omega arith)
atoi_digits-digits (suc w) m n s h =
    let d = b'0' + m % 10 in
    let digit : is_digit d ≡ true = ground arith in
    let value : (n * 10 ^ w + m / 10) * 10 + (d - b'0') ≡ n * 10 ^ suc w + m =
      omega (arith, ap (λ (t : ℕ). n * t) (pow-suc 10 w)) in
    ap (atoi_digits n) (append_assoc (digits w (m / 10)) (d ∷ []) s)
    ∙ atoi_digits-digits w (m / 10) n (d ∷ s) (tenth-lt_pow w m h)
    ∙ rw (digit, atoi_digits) (ap (λ x. atoi_digits x s) value)

-- A printed number begins with a digit.
digits-head : (w m : ℕ) → (d : ℕ) × (s : Bytes) × (digits (suc w) m ≡ (b'0' + d) ∷ s) × (d < 10)
unfolding digits
digits-head zero m = (m % 10, [], refl, omega arith)
digits-head (suc w) m =
    let (d, s, e, l) = digits-head w (m / 10) in
    (d, s ++ (b'0' + m % 10) ∷ [], ap (λ x. x ++ (b'0' + m % 10) ∷ []) e, l)

atoi-digit :
    (d : ℕ) (s : Bytes) → d < 10 → atoi ((b'0' + d) ∷ s) ≡ atoi_digits 0 ((b'0' + d) ∷ s) % u32_mod
unfolding atoi
atoi-digit d s h = ground arith

atoi-digits :
    (w m : ℕ) (r : Bytes) → m < 10 ^ suc w → m < u32_mod → atoi (digits (suc w) m ++ 0 ∷ r) ≡ m
unfolding atoi_digits
atoi-digits w m r h k =
    let (d, s, e, l) = digits-head w m in
    let whole = ap (λ x. x ++ 0 ∷ r) e in
    ap atoi whole
    ∙ atoi-digit d (s ++ 0 ∷ r) l
    ∙ ap (λ x. atoi_digits 0 x % u32_mod) (sym whole)
    ∙ ap (λ x. x % u32_mod) (atoi_digits-digits (suc w) m 0 (0 ∷ r) h)
    ∙ omega arith

-- The exchange that lists a pure code: its source number in the feed.
abbrev pub Lists : ℕ → ℕ → Type 0
Lists src c = ((src ≡ source_ssh) × (600000 ≤ c)) ⊎ ((src ≡ source_ssz) × (c < 600000))

-- A message whose security is a pure code with six digits, from the exchange that lists the code, is
-- looked up by the market code that `pureCodeInt_to_mktCodeInt` gives, where it gives one.
pub live_code-mkt_code :
    (src c m : ℕ)
    → Lists src c
    → pure_code_int_to_mkt_code_int c ≡ ok m
    → live_code src (print_padded 6 c ++ 0 ∷ []) ≡ m
unfolding live_code pure_code_int_to_mkt_code_int
live_code-mkt_code src c m l e =
    let small : c < 1000000 = ground arith in
    rw (print_padded-eq-digits 5 c small)
      (rw (atoi-digits 5 c [] small (omega arith)) (ground arith))
