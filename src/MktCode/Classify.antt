-- ===== src/MktCode/Classify.antt =====
-- The classifications of source/common/s4mktCode.cpp: market and kind of a security, by its
-- spelling (`_str`) or by its number (`_int`; the two overloads of `isStk`, `isIdx` and `isFund`).
use s4_lib_lite.Prelude.{
  same_bytes, ℕ, ◌+◌, ◌-◌, Bool, true, false, not, ◌&&◌, ◌||◌, [], ◌∷◌, List, Bytes, codes, length,
  take, ltb, leb, ◌==◌, if◌then◌else◌,
}
use s4_lib_lite.Prelude.Int.{ℤ, pos, leb_ℤ}
use s4_lib_lite.MktCode.Convert.{prb_mk, sh_prb, sz_prb}

abbrev pub kc_prb : ℕ
kc_prb = 1700688000

abbrev pub kc_prb_mk : ℕ
kc_prb_mk = 1000

abbrev pub cy_prb : ℕ
cy_prb = 3300300000

abbrev pub cy_prb_mk : ℕ
cy_prb_mk = 10000

-- `leading == a || leading == b || …`
abbrev pub is_one_of : Bytes → List Bytes → Bool
is_one_of s [] = false
is_one_of s (t ∷ ts) = same_bytes s t || is_one_of s ts

unfoldable pub is_stk_str : Bytes → Bool
is_stk_str s =
    if not (length s == 8)
    then false
    else is_one_of (take 4 s) (codes "sz00" ∷ codes "sz30" ∷ codes "sh60" ∷ [])

unfoldable pub is_idx_str : Bytes → Bool
is_idx_str s =
    if not (length s == 8)
    then false
    else if is_one_of (take 5 s) (codes "sz399" ∷ codes "sh000" ∷ [])
    then true
    else same_bytes (take 4 s) (codes "sz98")

abbrev pub fund_prefixes : List Bytes
fund_prefixes =
    codes "sh501"
    ∷ codes "sh502"
    ∷ codes "sh510"
    ∷ codes "sh511"
    ∷ codes "sh512"
    ∷ codes "sh513"
    ∷ codes "sh515"
    ∷ codes "sh516"
    ∷ codes "sh518"
    ∷ codes "sh560"
    ∷ codes "sh561"
    ∷ codes "sh562"
    ∷ codes "sh563"
    ∷ codes "sh588"
    ∷ []

unfoldable pub is_fund_str : Bytes → Bool
is_fund_str s =
    if not (length s == 8)
    then false
    else if is_one_of (take 5 s) fund_prefixes
    then true
    else is_one_of (take 4 s) (codes "sz16" ∷ codes "sz15" ∷ [])

unfoldable pub is_sz_mkt : ℕ → Bool
is_sz_mkt m = ltb sz_prb m && ltb m (sz_prb + prb_mk)

unfoldable pub is_sh_mkt : ℕ → Bool
is_sh_mkt m = ltb sh_prb m && ltb m (sh_prb + prb_mk)

unfoldable pub is_cy_mkt : ℕ → Bool
is_cy_mkt m = ltb cy_prb m && ltb m (cy_prb + cy_prb_mk)

unfoldable pub is_kc_mkt : ℕ → Bool
is_kc_mkt m = ltb kc_prb m && ltb m (kc_prb + kc_prb_mk)

-- `x >= lo && x <= hi`
abbrev pub within : ℕ → ℕ → ℕ → Bool
within lo hi x = leb lo x && leb x hi

unfoldable pub is_stk_int : ℕ → Bool
unfolding is_sh_mkt is_sz_mkt
is_stk_int m =
    if is_sh_mkt m
    then within (sh_prb + 600000) (sh_prb + 609999) m
    else if is_sz_mkt m
    then within sz_prb (sz_prb + 9999) m || within (sz_prb + 300000) (sz_prb + 309999) m
    else false

-- The last bound is the source's: it adds to SH_PRB.
unfoldable pub is_idx_int : ℕ → Bool
unfolding is_sh_mkt is_sz_mkt
is_idx_int m =
    if is_sh_mkt m
    then within sh_prb (sh_prb + 999) m
    else if is_sz_mkt m
    then within (sz_prb + 390000) (sh_prb + 399999) m
    else false

unfoldable pub is_fund_sh : ℕ → Bool
is_fund_sh c =
    within 501000 502999 c
    || within 506000 506099 c
    || within 510000 513999 c
    || within 515000 516999 c
    || within 518000 518999 c
    || within 560000 563999 c
    || within 588000 588499 c

unfoldable pub is_fund_int : ℕ → Bool
unfolding is_sh_mkt is_sz_mkt is_fund_sh
is_fund_int m =
    if is_sh_mkt m
    then is_fund_sh (m - sh_prb)
    else if is_sz_mkt m
    then within 160000 169999 (m - sz_prb) || within 159000 159999 (m - sz_prb)
    else false

abbrev pub within_ℤ : ℕ → ℕ → ℤ → Bool
within_ℤ lo hi x = leb_ℤ (pos lo) x && leb_ℤ x (pos hi)

unfoldable pub pure_code_is_stk : ℤ → Bool
pure_code_is_stk c = within_ℤ 600000 609999 c || within_ℤ 0 9999 c || within_ℤ 300000 309999 c
