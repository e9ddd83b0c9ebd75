-- ===== src/MktCode/Convert.antt =====
-- The conversions of source/common/s4mktCode.cpp, in the build without _MSC_VER.
use s4_lib_lite.Prelude.{
  ℕ, zero, suc, ◌+◌, ◌-◌, ◌%◌, Bool, false, ◌&&◌, ◌||◌, [], ◌∷◌, ◌++◌, Bytes, codes, length, drop,
  ltb, leb, ◌==◌, if◌then◌else◌,
}
use s4_lib_lite.Prelude.Int.{ℤ, pos, pos_part, leb_ℤ}
use s4_lib_lite.Prelude.Decimal.{u32_mod, print_padded, read_digits}

abbrev pub prb_mk : ℕ
prb_mk = 99999999

abbrev pub sh_prb : ℕ
sh_prb = 1700000000

abbrev pub sz_prb : ℕ
sz_prb = 3300000000

abbrev pub sh_code_min : ℕ
sh_code_min = 600000

abbrev pub sh_code_max : ℕ
sh_code_max = 699999

abbrev pub sz_code_min : ℕ
sz_code_min = 0

abbrev pub sz_code_max : ℕ
sz_code_max = 399999

pub data CodeError : Type 0 where
  unknown_market unknown_code sh_code_error sz_code_error : CodeError

pub data Result {ℓ} (A : Type ℓ) : Type ℓ where
  ok : A → Result A
  err : CodeError → Result A
  out_of_bounds : Result A

infixl 5 ◌>>=◌
abbrev pub ◌>>=◌ {ℓ κ} : {A : Type ℓ} {B : Type κ} → Result A → (A → Result B) → Result B
ok a >>= f = f a
err e >>= f = err e
out_of_bounds >>= f = out_of_bounds

-- `s.c_str()[i]`: the byte, the terminating NUL, or nothing that may be read.
abbrev pub c_str : Bytes → ℕ → Result ℕ
c_str [] zero = ok 0
c_str [] (suc i) = out_of_bounds
c_str (b ∷ s) zero = ok b
c_str (b ∷ s) (suc i) = c_str s i

-- `s.c_str()[0] == 's' && s.c_str()[1] == m`
unfoldable pub has_market : Bytes → ℕ → Result Bool
has_market s m = do a ← c_str s 0; if a == b's' then (do b ← c_str s 1; ok (b == m)) else ok false

-- The tests of a pure code that is an `int`, or a uint32_t.
abbrev pub is_sh_code : ℕ → Bool
is_sh_code c = leb sh_code_min c && leb c sh_code_max

abbrev pub is_sz_code : ℕ → Bool
is_sz_code c = leb sz_code_min c && leb c sz_code_max

abbrev pub is_sh_int : ℤ → Bool
is_sh_int c = leb_ℤ (pos sh_code_min) c && leb_ℤ c (pos sh_code_max)

abbrev pub is_sz_int : ℤ → Bool
is_sz_int c = leb_ℤ (pos sz_code_min) c && leb_ℤ c (pos sz_code_max)

-- The tests `mktCode >= SH_PRB && mktCode <= SH_PRB + PRB_MK` and its like for SZ_PRB.
abbrev pub in_sh : ℕ → Bool
in_sh m = leb sh_prb m && leb m (sh_prb + prb_mk)

abbrev pub in_sz : ℕ → Bool
in_sz m = leb sz_prb m && leb m (sz_prb + prb_mk)

unfoldable pub pure_code_int_to_mkt_code_int : ℕ → Result ℕ
pure_code_int_to_mkt_code_int c =
    if is_sh_code c
    then ok ((sh_prb + c) % u32_mod)
    else if is_sz_code c
    then ok ((sz_prb + c) % u32_mod)
    else err unknown_market

-- The `int` that the loop computes is taken as a uint32_t, so it is kept as its bit pattern.
unfoldable pub pure_code_str_to_mkt_code : Bytes → Result ℕ
pure_code_str_to_mkt_code s = pure_code_int_to_mkt_code_int (read_digits 0 s)

unfoldable pub mkt_code_int_to_mkt_code_str : ℕ → Result Bytes
mkt_code_int_to_mkt_code_str m =
    if in_sh m
    then ok (codes "sh" ++ print_padded 6 (m - sh_prb))
    else if in_sz m
    then ok (codes "sz" ++ print_padded 8 (m - sz_prb))
    else err unknown_code

unfoldable pub pure_code_str_to_mkt_code_str : Bytes → Result Bytes
pure_code_str_to_mkt_code_str s =
    if length s == 6
    then (do b ← c_str s 0; if b == b'6' then ok (codes "sh" ++ s) else ok (codes "sz" ++ s))
    else (do m ← pure_code_str_to_mkt_code s; mkt_code_int_to_mkt_code_str m)

unfoldable pub pure_code_int_to_mkt_code_str : ℤ → Result Bytes
pure_code_int_to_mkt_code_str c =
    if is_sh_int c
    then ok (codes "sh" ++ print_padded 6 (pos_part c))
    else if is_sz_int c
    then ok (codes "sz" ++ print_padded 6 (pos_part c))
    else err unknown_market

unfoldable pub pure_code_int_to_pure_code_str : ℤ → Result Bytes
pure_code_int_to_pure_code_str c =
    if is_sh_int c || is_sz_int c then ok (print_padded 6 (pos_part c)) else err unknown_market

unfoldable pub mkt_code_str_to_mkt_code_int : Bytes → Result ℕ
unfolding has_market
mkt_code_str_to_mkt_code_int s = do
  let c = read_digits 0 (drop 2 s)
  is_sh ← has_market s b'h'
  is_sz ← has_market s b'z'
  if is_sh
      then ok ((sh_prb + c) % u32_mod)
      else if is_sz
      then ok ((sz_prb + c) % u32_mod)
      else err unknown_code

-- The byte that is tested stands at index 3, so it is the second digit.
unfoldable pub mkt_code_str_to_pure_code_str : Bytes → Result Bytes
unfolding has_market
mkt_code_str_to_pure_code_str s = do
  is_sh ← has_market s b'h'
  is_sz ← has_market s b'z'
  if is_sh
      then (do b ← c_str s 3; if b == b'6' then ok (drop 2 s) else err sh_code_error)
      else if is_sz
      then (do b ← c_str s 3; if b == b'0' || b == b'3' then ok (drop 2 s) else err sz_code_error)
      else err unknown_code

unfoldable pub mkt_code_str_to_pure_code_int : Bytes → Result ℕ
unfolding has_market
mkt_code_str_to_pure_code_int s = do
  let c = read_digits 0 (drop 2 s)
  is_sh ← has_market s b'h'
  is_sz ← has_market s b'z'
  if is_sh
      then (if leb sh_code_min c then ok c else err sh_code_error)
      else if is_sz
      then (if ltb c sh_code_min then ok c else err sz_code_error)
      else err unknown_code

unfoldable pub mkt_code_int_to_pure_code_str : ℕ → Result Bytes
mkt_code_int_to_pure_code_str m =
    if in_sh m
    then (if leb sh_code_min (m - sh_prb)
        then ok (print_padded 6 (m - sh_prb))
        else err sh_code_error)
    else if in_sz m
    then (if ltb (m - sz_prb) sh_code_min
        then ok (print_padded 6 (m - sz_prb))
        else err sz_code_error)
    else err unknown_code

unfoldable pub mkt_code_int_to_pure_code_int : ℕ → Result ℕ
mkt_code_int_to_pure_code_int m =
    if in_sh m
    then (if ltb (m - sh_prb) sh_code_min then err sh_code_error else ok (m - sh_prb))
    else if in_sz m
    then (if leb sh_code_min (m - sz_prb) then err sz_code_error else ok (m - sz_prb))
    else err unknown_code
