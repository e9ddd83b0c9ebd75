-- ===== src/MktCode/StringLaws.antt =====
-- The spelling of a market code as a string: reading it back, and the way over the pure code.
use s4_lib_lite.Prelude.{
  ℕ, ◌+◌, ◌-◌, ◌≤◌, ◌<◌, ◌%◌, ◌≡◌, ◌==◌, refl, false, arith, Bytes, codes, ◌++◌, length,
}
use s4_lib_lite.Prelude.Int.{pos}
use s4_lib_lite.Prelude.Decimal.{
  u32_mod, digits, print_padded, print_padded-eq-digits, read_digits-print_padded,
  length-print_padded,
}
use s4_lib_lite.MktCode.Convert.{
  ok, err, sh_code_error, sh_prb, sz_prb, mkt_code_int_to_mkt_code_str,
  mkt_code_str_to_mkt_code_int, mkt_code_str_to_pure_code_str, mkt_code_str_to_pure_code_int,
  pure_code_int_to_mkt_code_str, pure_code_str_to_mkt_code_str,
}
use s4_lib_lite.MktCode.Classify.{is_stk_str, is_idx_str, is_fund_str}
use s4_lib_lite.MktCode.ConvertLaws.{IsPureCode}

read_sh :
    (w n : ℕ)
    → n < u32_mod
    → mkt_code_str_to_mkt_code_int (codes "sh" ++ print_padded w n) ≡ ok ((sh_prb + n) % u32_mod)
unfolding mkt_code_str_to_mkt_code_int
read_sh w n h = rw (read_digits-print_padded w n h)

read_sz :
    (w n : ℕ)
    → n < u32_mod
    → mkt_code_str_to_mkt_code_int (codes "sz" ++ print_padded w n) ≡ ok ((sz_prb + n) % u32_mod)
unfolding mkt_code_str_to_mkt_code_int
read_sz w n h = rw (read_digits-print_padded w n h)

-- Whenever a market code has a spelling, that is read back as the code.
pub str-int_round_trip :
    (m : ℕ) (s : Bytes)
    → mkt_code_int_to_mkt_code_str m ≡ ok s
    → mkt_code_str_to_mkt_code_int s ≡ ok m
unfolding mkt_code_int_to_mkt_code_str
str-int_round_trip m s h = ground (arith, read_sh 6 (m - sh_prb), read_sz 8 (m - sz_prb))

sz_spelling-long :
    (m : ℕ) (s : Bytes) → sz_prb ≤ m → mkt_code_int_to_mkt_code_str m ≡ ok s → 10 ≤ length s
unfolding mkt_code_int_to_mkt_code_str
sz_spelling-long m s h e = ground (arith, length-print_padded 8 (m - sz_prb))

long_unclassified :
    (s : Bytes)
    → 10 ≤ length s
    → (is_stk_str s ≡ false) × (is_idx_str s ≡ false) × (is_fund_str s ≡ false)
unfolding is_stk_str is_idx_str is_fund_str
long_unclassified s h =
    let other : (length s == 8) ≡ false = ground arith in rw other (refl, refl, refl)

-- The spelling of every number of Shenzhen that has one is at least ten bytes long, and none of the
-- three classifications of strings holds of it.
sz_spelling_unclassified :
    (m : ℕ) (s : Bytes)
    → sz_prb ≤ m
    → mkt_code_int_to_mkt_code_str m ≡ ok s
    → (10 ≤ length s) × ((is_stk_str s ≡ false) × (is_idx_str s ≡ false) × (is_fund_str s ≡ false))
sz_spelling_unclassified m s h e =
    (sz_spelling-long m s h e, long_unclassified s (sz_spelling-long m s h e))

-- The spelling of every Shanghai code from 600000 to 659999 is refused by
-- `mktCodeStr_to_pureCodeStr` with `sh_code_error`, though `mktCodeStr_to_pureCodeInt` reads it as
-- that code.
sh_str_refused :
    (c : ℕ)
    → 600000 ≤ c
    → c < 660000
    → (s : Bytes) × (mkt_code_int_to_mkt_code_str (sh_prb + c) ≡ ok s)
      × (mkt_code_str_to_pure_code_str s ≡ err sh_code_error)
      × (mkt_code_str_to_pure_code_int s ≡ ok c)
unfolding mkt_code_int_to_mkt_code_str mkt_code_str_to_pure_code_str mkt_code_str_to_pure_code_int
    digits
sh_str_refused c lo hi = (
  codes "sh" ++ print_padded 6 c,
  ground arith,
  rw (print_padded-eq-digits 5 c (omega arith)) (ground arith),
  rw (read_digits-print_padded 6 c (omega arith)) (ground arith),
)

-- For every pure code of a market, its spelling with six digits and its number lead to the same
-- market code string.
pub pure_str_to_mkt_str :
    (c : ℕ)
    → IsPureCode c
    → pure_code_str_to_mkt_code_str (print_padded 6 c) ≡ pure_code_int_to_mkt_code_str (pos c)
unfolding pure_code_str_to_mkt_code_str pure_code_int_to_mkt_code_str digits
pure_str_to_mkt_str c h = rw (print_padded-eq-digits 5 c (omega arith)) (ground arith)
