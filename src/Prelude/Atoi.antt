-- ===== src/Prelude/Atoi.antt =====
-- `atoi` of the C library, on the bytes from its argument on: white space, a sign, digits up to the
-- first other byte. The result is the pattern of an `int`; C leaves the result undefined where the
-- number is none.
use s4_lib_lite.Prelude.{
  ℕ, ◌+◌, ◌-◌, ◌*◌, ◌%◌, ◌≡◌, ◌<◌, arith, refl, Bool, true, ◌&&◌, ◌||◌, [], ◌∷◌, ◌++◌, Bytes, leb,
  ◌==◌, if◌then◌else◌,
}
use s4_lib_lite.Prelude.Decimal.{u32_mod}

abbrev pub is_space : ℕ → Bool
is_space c = c == 32 || (leb 9 c && leb c 13)

abbrev pub is_digit : ℕ → Bool
is_digit c = leb b'0' c && leb c b'9'

pub is_digit-digit : (d : ℕ) → d < 10 → is_digit (b'0' + d) ≡ true
is_digit-digit d h = ground arith

abbrev pub all_digits : Bytes → Bool
all_digits [] = true
all_digits (c ∷ s) = is_digit c && all_digits s

unfoldable pub atoi_digits : ℕ → Bytes → ℕ
atoi_digits n [] = n
atoi_digits n (c ∷ s) = if is_digit c then atoi_digits (n * 10 + (c - b'0')) s else n

unfoldable pub atoi_sign : Bytes → ℕ
unfolding atoi_digits
atoi_sign [] = 0
atoi_sign (c ∷ s) =
    if c == b'-'
    then (u32_mod - atoi_digits 0 s % u32_mod) % u32_mod
    else if c == b'+'
    then atoi_digits 0 s % u32_mod
    else atoi_digits 0 (c ∷ s) % u32_mod

unfoldable pub atoi : Bytes → ℕ
unfolding atoi_sign
atoi [] = 0
atoi (c ∷ s) = if is_space c then atoi s else atoi_sign (c ∷ s)

-- Nothing behind a NUL is read.
atoi_digits-nul : (n : ℕ) (s r : Bytes) → atoi_digits n (s ++ 0 ∷ r) ≡ atoi_digits n (s ++ 0 ∷ [])
unfolding atoi_digits
atoi_digits-nul n [] r = refl
atoi_digits-nul n (c ∷ s) r = rw (atoi_digits-nul (n * 10 + (c - b'0')) s r)

atoi_sign-nul : (s r : Bytes) → atoi_sign (s ++ 0 ∷ r) ≡ atoi_sign (s ++ 0 ∷ [])
unfolding atoi_sign
atoi_sign-nul [] r = refl
atoi_sign-nul (c ∷ s) r = rw (atoi_digits-nul 0 s r, atoi_digits-nul (0 * 10 + (c - b'0')) s r)

pub atoi-nul : (s r : Bytes) → atoi (s ++ 0 ∷ r) ≡ atoi (s ++ 0 ∷ [])
unfolding atoi
atoi-nul [] r = refl
atoi-nul (c ∷ s) r = rw (atoi-nul s r, atoi_sign-nul (c ∷ s) r)
