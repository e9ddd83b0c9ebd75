-- ===== src/L2/Bonds.antt =====
-- include/sbe_ssz.h: the structures of the bonds of Shenzhen, which `recv_thread` does not know.
use s4_lib_lite.Prelude.{ℕ, ◌≡◌, refl, List, ◌∷◌, ◌++◌}
use s4_lib_lite.L2.Layout.{size_of, replicate, levels, ssz_header, ssz_ord, ssz_exe}

unfoldable pub ssz_bond_snap : List ℕ
ssz_bond_snap =
    size_of ssz_header
    ∷ 8
    ∷ 8
    ∷ 8
    ∷ 4
    ∷ 4
    ∷ 4
    ∷ 4
    ∷ 4
    ∷ 4
    ∷ 8
    ∷ 4
    ∷ 8
    ∷ 4
    ∷ 4
    ∷ 8
    ∷ 8
    ∷ (levels 10 ++ (levels 10 ++ (8 ∷ replicate 4 1)))

unfoldable pub ssz_bond_ord : List ℕ
ssz_bond_ord = size_of ssz_header ∷ 4 ∷ 8 ∷ 1 ∷ 1 ∷ 8 ∷ replicate 2 1

unfoldable pub ssz_bond_exe : List ℕ
ssz_bond_exe = size_of ssz_header ∷ 8 ∷ 8 ∷ 4 ∷ 8 ∷ 1 ∷ 8 ∷ replicate 3 1

-- The orders and executions of bonds are as long as those of stocks.
same_sizes :
    (size_of ssz_bond_ord ≡ size_of ssz_ord)
    × (size_of ssz_bond_exe ≡ size_of ssz_exe)
    × (size_of ssz_bond_snap ≡ 368)
unfolding ssz_bond_snap ssz_bond_ord ssz_bond_exe ssz_ord ssz_exe
same_sizes = (refl, refl, refl)
