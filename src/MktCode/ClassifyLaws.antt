-- ===== src/MktCode/ClassifyLaws.antt =====
-- The classifications by spelling and by number agree, where they do, on the same security.
use s4_lib_lite.Prelude.{
  same_bytes, ℕ, ◌+◌, ◌/◌, ◌%◌, ◌≤◌, ◌<◌, ◌≡◌, ◌≢◌, ◌==◌, ◌↔◌, ◌⊎◌, Bool, true, false, ◌||◌, refl,
  sym, ◌∙◌, if◌then◌else◌, List, arith, Bytes, [], ◌∷◌, codes, take, ◌++◌,
}
use s4_lib_lite.Prelude.Decimal.{digits, length-digits}
use s4_lib_lite.Prelude.Int.{pos}
use s4_lib_lite.MktCode.Convert.{
  sh_prb, sz_prb, ok, out_of_bounds, mkt_code_str_to_pure_code_str, pure_code_int_to_mkt_code_int,
}
use s4_lib_lite.MktCode.Classify.{
  is_stk_str, is_fund_str, is_stk_int, is_idx_int, is_fund_int, is_fund_sh, is_sh_mkt, is_sz_mkt,
  is_kc_mkt, pure_code_is_stk, is_cy_mkt, is_one_of, fund_prefixes,
}

-- A security of Shanghai and one of Shenzhen, spelled with six digits.
abbrev pub sh_str : ℕ → Bytes
sh_str c = codes "sh" ++ digits 6 c

abbrev pub sz_str : ℕ → Bytes
sz_str c = codes "sz" ++ digits 6 c

-- The text of a number of three digits.
abbrev three : ℕ → Bytes
three k = (b'0' + k / 100) ∷ (b'0' + k / 10 % 10) ∷ (b'0' + k % 10) ∷ []

abbrev two : ℕ → Bytes
two k = (b'0' + k / 10) ∷ (b'0' + k % 10) ∷ []

-- The first digits of six are those of `k` exactly if the number begins with `k`.
leading_three :
    (c k : ℕ)
    → c < 1000000
    → k < 1000
    → same_bytes (take 3 (digits 6 c)) (three k) ≡ (c / 1000 == k)
unfolding digits
leading_three c k h hk = ground arith

leading_two :
    (c k : ℕ) → c < 1000000 → k < 100 → same_bytes (take 2 (digits 6 c)) (two k) ≡ (c / 10000 == k)
unfolding digits
leading_two c k h hk = ground arith

-- For every code from 1 to 999999, in either market, `isStk` of the spelling with six digits and
-- `isStk` of the number agree.
pub is_stk_agree :
    (c : ℕ)
    → c < 1000000
    → 0 < c
    → (is_stk_str (sh_str c) ≡ is_stk_int (sh_prb + c))
      × (is_stk_str (sz_str c) ≡ is_stk_int (sz_prb + c))
unfolding is_stk_str is_stk_int
is_stk_agree c h k =
    rw (length-digits 6 c)
      (ground (arith, leading_two c 60 h, leading_two c 0 h, leading_two c 30 h))

abbrev is_number_of : ℕ → List ℕ → Bool
is_number_of n [] = false
is_number_of n (k ∷ ks) = n == k || is_number_of n ks

-- The thousands that the fund prefixes of Shanghai name.
abbrev fund_thousand : ℕ → Bool
fund_thousand p =
    is_number_of p
      (501 ∷ 502 ∷ 510 ∷ 511 ∷ 512 ∷ 513 ∷ 515 ∷ 516 ∷ 518 ∷ 560 ∷ 561 ∷ 562 ∷ 563 ∷ 588 ∷ [])

fund_prefix :
    (c : ℕ) → c < 1000000 → is_one_of (take 5 (sh_str c)) fund_prefixes ≡ fund_thousand (c / 1000)
fund_prefix c h =
    simp
      (
        leading_three c 501 h (omega arith),
        leading_three c 502 h (omega arith),
        leading_three c 510 h (omega arith),
        leading_three c 511 h (omega arith),
        leading_three c 512 h (omega arith),
        leading_three c 513 h (omega arith),
        leading_three c 515 h (omega arith),
        leading_three c 516 h (omega arith),
        leading_three c 518 h (omega arith),
        leading_three c 560 h (omega arith),
        leading_three c 561 h (omega arith),
        leading_three c 562 h (omega arith),
        leading_three c 563 h (omega arith),
        leading_three c 588 h (omega arith),
      )
      refl

fund_thousand-range :
    (c : ℕ) → c / 100 ≢ 5060 → c / 500 ≢ 1177 → fund_thousand (c / 1000) ≡ is_fund_sh c
unfolding is_fund_sh
fund_thousand-range c k l = ground arith

is_fund_int-sh : (c : ℕ) → c < 1000000 → is_fund_int (sh_prb + c) ≡ is_fund_sh c
unfolding is_fund_int
is_fund_int-sh c h = ground arith

is_fund_str-sh : (c : ℕ) → c < 1000000 → is_fund_str (sh_str c) ≡ fund_thousand (c / 1000)
unfolding is_fund_str
is_fund_str-sh c h =
    rw (length-digits 6 c, fund_prefix c h)
      (elim (fund_thousand (c / 1000)) as (λ b. (if b then true else false) ≡ b) [
        | true ↦ refl
        | false ↦ refl
      ])

is_fund_sz_agree :
    (c : ℕ)
    → c < 1000000
    → (c < 150000) ⊎ (159000 ≤ c)
    → is_fund_str (sz_str c) ≡ is_fund_int (sz_prb + c)
unfolding is_fund_str is_fund_int
is_fund_sz_agree c h k =
    rw (length-digits 6 c) (ground (arith, leading_two c 16 h, leading_two c 15 h))

-- For every code below 1000000 but 506000 to 506099, 588500 to 588999 and 150000 to 158999, in
-- either market, `isFund` of the spelling with six digits and `isFund` of the number agree.
pub is_fund_agree :
    (c : ℕ)
    → c < 1000000
    → c / 100 ≢ 5060
    → c / 500 ≢ 1177
    → (c < 150000) ⊎ (159000 ≤ c)
    → (is_fund_str (sh_str c) ≡ is_fund_int (sh_prb + c))
      × (is_fund_str (sz_str c) ≡ is_fund_int (sz_prb + c))
is_fund_agree c h k l z = (
  is_fund_str-sh c h ∙ fund_thousand-range c k l ∙ sym (is_fund_int-sh c h),
  is_fund_sz_agree c h z,
)

-- Every number of the board 688 is one of Shanghai, and `isStk` does not hold of it.
pub kc_is_stk : (m : ℕ) → is_kc_mkt m ≡ true → (is_sh_mkt m ≡ true) × (is_stk_int m ≡ false)
unfolding is_kc_mkt is_stk_int
kc_is_stk m h = ground arith

-- Every number of the boards 300 to 309 is one of Shenzhen, and `isStk` holds of it.
pub cy_is_stk : (m : ℕ) → is_cy_mkt m ≡ true → (is_sz_mkt m ≡ true) × (is_stk_int m ≡ true)
unfolding is_cy_mkt is_stk_int
cy_is_stk m h = ground arith

-- For a pure code above 0 that has a market code, `pureCodeIsStk` of the one and `isStk` of the
-- other agree.
pub pure_code_is_stk_agree :
    (c m : ℕ)
    → 0 < c
    → pure_code_int_to_mkt_code_int c ≡ ok m
    → pure_code_is_stk (pos c) ≡ is_stk_int m
unfolding pure_code_is_stk is_stk_int pure_code_int_to_mkt_code_int
pure_code_is_stk_agree c m h e = ground arith

-- `isIdx` holds exactly of the numbers of Shanghai from 1 to 999, and so of none of Shenzhen.
is_idx_int_sh : (m : ℕ) → (is_idx_int m ≡ true) ↔ ((sh_prb < m) × (m ≤ sh_prb + 999))
unfolding is_idx_int
is_idx_int_sh m = ground arith

-- `mktCodeStr_to_pureCodeStr` reads behind the end of its string exactly if that is one of the two
-- markets with nothing after it.
pub out_of_bounds_iff :
    (s : Bytes)
    → (mkt_code_str_to_pure_code_str s ≡ out_of_bounds) ↔ ((s ≡ codes "sh") ⊎ (s ≡ codes "sz"))
unfolding mkt_code_str_to_pure_code_str
out_of_bounds_iff [] = ground arith
out_of_bounds_iff (a ∷ []) = ground arith
out_of_bounds_iff (a ∷ b ∷ []) = ground arith
out_of_bounds_iff (a ∷ b ∷ c ∷ []) = ground arith
out_of_bounds_iff (a ∷ b ∷ c ∷ d ∷ s) = ground arith
