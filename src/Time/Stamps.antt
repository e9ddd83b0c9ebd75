-- ===== src/Time/Stamps.antt =====
-- The times of the feed as text: the `…_timeString` functions of source/common/s4time.cpp.
use s4_lib_lite.Prelude.{ℕ, ◌+◌, ◌*◌, ◌/◌, ◌%◌, ◌<◌, ◌≡◌, refl, ◌++◌, Bytes, codes, arith}
use s4_lib_lite.Prelude.Decimal.{print, print_padded}

-- `"%02d:%02d:%02d.%d"`
abbrev pub time_text : ℕ → ℕ → ℕ → ℕ → Bytes
time_text hh mm ss part =
    print_padded 2 hh
    ++ (codes ":"
        ++ (print_padded 2 mm ++ (codes ":" ++ (print_padded 2 ss ++ (codes "." ++ print part)))))

unfoldable pub ssz_l2_time_string : ℕ → Bytes
ssz_l2_time_string t =
    time_text (t % (1000 * 100 * 100 * 100) / (1000 * 100 * 100))
      (t % (1000 * 100 * 100) / (1000 * 100)) (t % (1000 * 100) / 1000) (t % 1000)

unfoldable pub ssh_l2_time_string : ℕ → Bytes
ssh_l2_time_string t =
    time_text (t % (100 * 100 * 100 * 100) / (100 * 100 * 100))
      (t % (100 * 100 * 100) / (100 * 100)) (t % (100 * 100) / 100) (t % 100)

unfoldable pub ssh_l1_bin_time_string : ℕ → Bytes
ssh_l1_bin_time_string t =
    time_text (t % (100 * 100 * 100 * 1000) / (100 * 100 * 1000))
      (t % (100 * 100 * 1000) / (100 * 1000)) (t % (100 * 1000) / 1000) (t % 1000)

same_text :
    (a b c d a' b' c' d' : ℕ)
    → a ≡ a'
    → b ≡ b'
    → c ≡ c'
    → d ≡ d'
    → time_text a b c d ≡ time_text a' b' c' d'
same_text a b c d a' b' c' d' e f g h = rw (e, f, g, h) refl

-- Behind any date, the digits of an hour, a minute and a second and three of a fraction are printed
-- as these four numbers by the functions for Shenzhen and for Shanghai's binary level 1.
time_strings-thousandths :
    (date hh mm ss part : ℕ)
    → hh < 100
    → mm < 100
    → ss < 100
    → part < 1000
    → (ssz_l2_time_string ((((date * 100 + hh) * 100 + mm) * 100 + ss) * 1000 + part)
        ≡ time_text hh mm ss part)
      × (ssh_l1_bin_time_string ((((date * 100 + hh) * 100 + mm) * 100 + ss) * 1000 + part)
          ≡ time_text hh mm ss part)
unfolding ssz_l2_time_string ssh_l1_bin_time_string
time_strings-thousandths date hh mm ss part a b c d = (
  same_text _ _ _ _ hh mm ss part (omega arith) (omega arith) (omega arith) (omega arith),
  same_text _ _ _ _ hh mm ss part (omega arith) (omega arith) (omega arith) (omega arith),
)

-- Behind any date, the digits of an hour, a minute and a second and two of a fraction are printed as
-- these four numbers by the function for Shanghai's level 2.
pub time_strings-hundredths :
    (date hh mm ss part : ℕ)
    → hh < 100
    → mm < 100
    → ss < 100
    → part < 100
    → ssh_l2_time_string ((((date * 100 + hh) * 100 + mm) * 100 + ss) * 100 + part)
      ≡ time_text hh mm ss part
unfolding ssh_l2_time_string
time_strings-hundredths date hh mm ss part a b c d =
    same_text _ _ _ _ hh mm ss part (omega arith) (omega arith) (omega arith) (omega arith)
