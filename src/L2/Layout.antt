-- ===== src/L2/Layout.antt =====
-- include/sbe_ssh.h, include/sbe_ssz.h and include/sbe_stock.h: the packed structures of the feed,
-- each as the widths of its fields in bytes, in their order.
use s4_lib_lite.Prelude.{ℕ, zero, suc, ◌+◌, List, [], ◌∷◌, ◌++◌}

abbrev pub size_of : List ℕ → ℕ
size_of [] = 0
size_of (w ∷ ws) = w + size_of ws

abbrev pub replicate : ℕ → ℕ → List ℕ
replicate zero w = []
replicate (suc n) w = w ∷ replicate n w

-- `__SecurityIDSource_SSH_` and `__SecurityIDSource_SSZ_`
abbrev pub source_ssh : ℕ
source_ssh = 101

abbrev pub source_ssz : ℕ
source_ssz = 102

-- `price_level_t`: price and quantity.
abbrev pub price_level : List ℕ
price_level = 4 ∷ 8 ∷ []

-- `TradingPhaseCodePack_t` and `SSZ_TradingPhaseCodePack_t`: unions over one byte.
abbrev pub phase_code_pack : ℕ
phase_code_pack = 1

-- Source, type, length, security, channel, sequence number, phase.
abbrev pub ssh_header : List ℕ
ssh_header = 1 ∷ 1 ∷ 2 ∷ 9 ∷ 2 ∷ 8 ∷ 1 ∷ []

abbrev pub ssz_header : List ℕ
ssz_header = 1 ∷ 1 ∷ 2 ∷ 9 ∷ 2 ∷ 8 ∷ phase_code_pack ∷ []

abbrev pub levels : ℕ → List ℕ
levels n = replicate n (size_of price_level)

unfoldable pub ssh_instrument_snap : List ℕ
ssh_instrument_snap =
    size_of ssh_header
    ∷ 4
    ∷ 8
    ∷ 8
    ∷ 4
    ∷ 4
    ∷ 4
    ∷ 4
    ∷ 4
    ∷ 4
    ∷ 8
    ∷ 4
    ∷ 8
    ∷ 4
    ∷ (levels 10 ++ (levels 10 ++ (phase_code_pack ∷ replicate 3 1)))

unfoldable pub ssh_index_snap : List ℕ
ssh_index_snap = size_of ssh_header ∷ 8 ∷ 8 ∷ 8 ∷ 8 ∷ 8 ∷ 8 ∷ 8 ∷ 4 ∷ replicate 4 1

unfoldable pub ssh_ord : List ℕ
ssh_ord = size_of ssh_header ∷ 8 ∷ 4 ∷ 8 ∷ 1 ∷ 1 ∷ 4 ∷ replicate 6 1

unfoldable pub ssh_exe : List ℕ
ssh_exe = size_of ssh_header ∷ 8 ∷ 8 ∷ 4 ∷ 8 ∷ 1 ∷ 4 ∷ replicate 7 1

unfoldable pub ssh_instrument_snapx5 : List ℕ
ssh_instrument_snapx5 =
    size_of ssh_header
    ∷ 8
    ∷ 8
    ∷ 8
    ∷ 4
    ∷ 8
    ∷ 4
    ∷ 4
    ∷ 4
    ∷ (levels 5 ++ (levels 5 ++ (4 ∷ phase_code_pack ∷ replicate 3 1)))

unfoldable pub ssh_fund_snapx5 : List ℕ
ssh_fund_snapx5 =
    size_of ssh_header
    ∷ 8
    ∷ 8
    ∷ 8
    ∷ 4
    ∷ 8
    ∷ 4
    ∷ 4
    ∷ 4
    ∷ 8
    ∷ (levels 5 ++ (levels 5 ++ (4 ∷ phase_code_pack ∷ replicate 3 1)))

unfoldable pub ssh_index_snapx5 : List ℕ
ssh_index_snapx5 = size_of ssh_header ∷ 8 ∷ 8 ∷ 8 ∷ 8 ∷ 8 ∷ 8 ∷ 4 ∷ replicate 4 1

unfoldable pub ssh_option_snapx5 : List ℕ
ssh_option_snapx5 =
    size_of ssh_header
    ∷ 8
    ∷ 8
    ∷ 8
    ∷ 4
    ∷ 8
    ∷ 4
    ∷ 4
    ∷ 4
    ∷ 4
    ∷ 8
    ∷ 4
    ∷ 8
    ∷ (levels 5 ++ (levels 5 ++ (4 ∷ phase_code_pack ∷ replicate 3 1)))

unfoldable pub ssz_instrument_snap : List ℕ
ssz_instrument_snap =
    size_of ssz_header
    ∷ 8
    ∷ 8
    ∷ 8
    ∷ 4
    ∷ 4
    ∷ 4
    ∷ 4
    ∷ 4
    ∷ 4
    ∷ 8
    ∷ 4
    ∷ 8
    ∷ 4
    ∷ 4
    ∷ (levels 10 ++ (levels 10 ++ (8 ∷ replicate 4 1)))

unfoldable pub ssz_index_snap : List ℕ
ssz_index_snap = size_of ssz_header ∷ 8 ∷ 8 ∷ 8 ∷ 8 ∷ 8 ∷ 8 ∷ 8 ∷ 8 ∷ 8 ∷ []

unfoldable pub ssz_ord : List ℕ
ssz_ord = size_of ssz_header ∷ 4 ∷ 8 ∷ 1 ∷ 1 ∷ 8 ∷ replicate 2 1

unfoldable pub ssz_exe : List ℕ
ssz_exe = size_of ssz_header ∷ 8 ∷ 8 ∷ 4 ∷ 8 ∷ 1 ∷ 8 ∷ replicate 3 1

unfoldable pub ssz_option_snap : List ℕ
ssz_option_snap =
    size_of ssz_header
    ∷ 8
    ∷ 8
    ∷ 8
    ∷ 4
    ∷ 4
    ∷ 4
    ∷ 4
    ∷ 4
    ∷ 4
    ∷ 8
    ∷ 4
    ∷ 8
    ∷ 4
    ∷ 4
    ∷ 8
    ∷ 4
    ∷ (levels 10 ++ (levels 10 ++ (8 ∷ [])))

unfoldable pub ssz_fund_snap : List ℕ
ssz_fund_snap =
    size_of ssz_header
    ∷ 8
    ∷ 8
    ∷ 8
    ∷ 4
    ∷ 4
    ∷ 4
    ∷ 4
    ∷ 4
    ∷ 4
    ∷ 8
    ∷ 4
    ∷ 8
    ∷ 4
    ∷ 4
    ∷ (levels 10 ++ (levels 10 ++ (8 ∷ 4 ∷ [])))
