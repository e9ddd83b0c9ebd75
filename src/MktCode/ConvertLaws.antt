-- ===== src/MktCode/ConvertLaws.antt =====
-- How the conversions between numbers fit together.
use s4_lib_lite.Prelude.{ℕ, ◌+◌, ◌≤◌, ◌<◌, ◌≡◌, ◌⊎◌, ◌↔◌, inl, inr, arith}
use s4_lib_lite.Prelude.Decimal.{print_padded}
use s4_lib_lite.MktCode.Convert.{
  ok, err, unknown_market, prb_mk, sh_prb, sz_prb, sh_code_min, sh_code_max, sz_code_max,
  pure_code_int_to_mkt_code_int, mkt_code_int_to_pure_code_int, mkt_code_int_to_pure_code_str,
}

-- The pure codes that have a market.
abbrev pub IsPureCode : ℕ → Type 0
IsPureCode c = (c ≤ sz_code_max) ⊎ ((sh_code_min ≤ c) × (c ≤ sh_code_max))

-- The market codes that stand for a pure code: those of Shanghai from 600000 on, and those of
-- Shenzhen below.
abbrev pub IsSplit : ℕ → ℕ → Type 0
IsSplit m c =
    ((m ≡ sh_prb + c) × (sh_code_min ≤ c) × (c ≤ prb_mk)) ⊎ ((m ≡ sz_prb + c) × (c < sh_code_min))

-- Every pure code of a market has a market code, and the way back from that gives the pure code.
pub mkt-pure_round_trip :
    (c : ℕ)
    → IsPureCode c
    → (m : ℕ) × (pure_code_int_to_mkt_code_int c ≡ ok m) × (mkt_code_int_to_pure_code_int m ≡ ok c)
unfolding pure_code_int_to_mkt_code_int mkt_code_int_to_pure_code_int
mkt-pure_round_trip c (inl h) = (sz_prb + c, ground arith, ground arith)
mkt-pure_round_trip c (inr h) = (sh_prb + c, ground arith, ground arith)

-- A pure code is refused, with `unknown_market`, exactly if it lies in the range of no market.
pub pure_code_refused :
    (c : ℕ)
    → ((pure_code_int_to_mkt_code_int c ≡ err unknown_market)
        ↔ ((sz_code_max < c) × ((c < sh_code_min) ⊎ (sh_code_max < c))))
unfolding pure_code_int_to_mkt_code_int
pure_code_refused c = ground arith

-- A number converts to the pure code `c` exactly if it is `c` above the start of Shanghai, with `c`
-- from 600000 to 99999999, or `c` above the start of Shenzhen, with `c` below 600000.
pub mkt_code_accepted : (m c : ℕ) → (mkt_code_int_to_pure_code_int m ≡ ok c) ↔ IsSplit m c
unfolding mkt_code_int_to_pure_code_int
mkt_code_accepted m c = ground arith

-- Whenever a number converts to a pure code, it converts to that code's spelling with six digits.
pub pure_code_str-of_int :
    (m c : ℕ)
    → mkt_code_int_to_pure_code_int m ≡ ok c
    → mkt_code_int_to_pure_code_str m ≡ ok (print_padded 6 c)
unfolding mkt_code_int_to_pure_code_int mkt_code_int_to_pure_code_str
pure_code_str-of_int m c h = ground arith
