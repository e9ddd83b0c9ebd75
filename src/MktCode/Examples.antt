-- ===== src/MktCode/Examples.antt =====
-- Tests of the conversions and classifications on the codes that the source's comments name, and
-- the theorems at concrete codes.
use s4_lib_lite.Prelude.{ℕ, ◌+◌, ◌≡◌, ◌⊎◌, ◌↔◌, refl, inr, arith, codes}
use s4_lib_lite.Prelude.Decimal.{read_digits, print_padded}
use s4_lib_lite.MktCode.Convert.{
  ok, out_of_bounds, sh_prb, sz_prb, pure_code_int_to_mkt_code_int, mkt_code_int_to_pure_code_int,
  mkt_code_int_to_mkt_code_str, mkt_code_str_to_mkt_code_int, mkt_code_str_to_pure_code_str,
  pure_code_str_to_mkt_code_str, pure_code_str_to_mkt_code,
}
use s4_lib_lite.MktCode.Classify.{is_stk_str, is_fund_str, is_stk_int, is_fund_int}
use s4_lib_lite.MktCode.ConvertLaws.{mkt-pure_round_trip}
use s4_lib_lite.MktCode.StringLaws.{str-int_round_trip}
use s4_lib_lite.MktCode.ClassifyLaws.{
  is_stk_agree, is_fund_agree, out_of_bounds_iff, sh_str, sz_str,
}

sh_spelled : mkt_code_int_to_mkt_code_str 1700600997 ≡ ok (codes "sh600997")
unfolding mkt_code_int_to_mkt_code_str print_padded
sh_spelled = refl

sz_spelled : mkt_code_int_to_mkt_code_str 3300000001 ≡ ok (codes "sz00000001")
unfolding mkt_code_int_to_mkt_code_str print_padded
sz_spelled = refl

pure_spelled : pure_code_str_to_mkt_code_str (codes "000001") ≡ ok (codes "sz000001")
unfolding pure_code_str_to_mkt_code_str
pure_spelled = refl

pure_number : pure_code_str_to_mkt_code (codes "600997") ≡ ok 1700600997
unfolding pure_code_str_to_mkt_code pure_code_int_to_mkt_code_int read_digits
pure_number = refl

mkt-pure_round_trip_example :
    (m : ℕ) × (pure_code_int_to_mkt_code_int 600997 ≡ ok m)
    × (mkt_code_int_to_pure_code_int m ≡ ok 600997)
mkt-pure_round_trip_example = mkt-pure_round_trip 600997 (inr (omega arith, omega arith))

str-int_round_trip_example : mkt_code_str_to_mkt_code_int (codes "sz00000001") ≡ ok 3300000001
str-int_round_trip_example = str-int_round_trip 3300000001 (codes "sz00000001") sz_spelled

is_stk_agree_example :
    (is_stk_str (sh_str 600997) ≡ is_stk_int (sh_prb + 600997))
    × (is_stk_str (sz_str 600997) ≡ is_stk_int (sz_prb + 600997))
is_stk_agree_example = is_stk_agree 600997 (omega arith) (omega arith)

is_fund_agree_example :
    (is_fund_str (sh_str 510300) ≡ is_fund_int (sh_prb + 510300))
    × (is_fund_str (sz_str 510300) ≡ is_fund_int (sz_prb + 510300))
is_fund_agree_example =
    is_fund_agree 510300 (omega arith) (omega arith) (omega arith) (inr (omega arith))

out_of_bounds_iff_example :
    (mkt_code_str_to_pure_code_str (codes "sh") ≡ out_of_bounds)
    ↔ ((codes "sh" ≡ codes "sh") ⊎ (codes "sh" ≡ codes "sz"))
out_of_bounds_iff_example = out_of_bounds_iff (codes "sh")
