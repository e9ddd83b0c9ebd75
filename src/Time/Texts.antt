-- ===== src/Time/Texts.antt =====
-- Dates and times as text: the printers and the readers of source/common/s4time.cpp.
use s4_lib_lite.Prelude.{
  ℕ, suc, ◌+◌, ◌-◌, ◌*◌, ◌/◌, ◌%◌, ◌^◌, Bool, true, false, [], ◌∷◌, ◌++◌, Option, none, some, Bytes,
  codes, ltb, leb, ◌==◌, if◌then◌else◌,
}
use s4_lib_lite.Prelude.Int.{
  ℤ, pos, negsuc, difference, pos_part, neg_part, ◌+ℤ◌, ◌-ℤ◌, scale, quot, rem,
}
use s4_lib_lite.Prelude.Decimal.{print_padded}
use s4_lib_lite.Prelude.Atoi.{is_space, is_digit}
use s4_lib_lite.Time.Dates.{Result, ok, out_of_bounds, ◌>>=◌}
use s4_lib_lite.Time.Offtime.{Filled, Broken, filled, overflow, stuck, offtime, utc_to_date}

-- `%d`, and `%0wd` for a width `w`.
abbrev pub print_int : ℕ → ℤ → Bytes
print_int w (pos n) = print_padded w n
print_int w (negsuc n) = b'-' ∷ print_padded (w - 1) (suc n)

-- Three numbers with something between them, the last two of two digits at least.
abbrev pub three_parts : ℕ → Bytes → ℤ → ℤ → ℤ → Bytes
three_parts w between a b c =
    print_int w a ++ (between ++ (print_int 2 b ++ (between ++ print_int 2 c)))

-- `strftime` for "%Y_%m_%d__%H_%M_%S", and for the time with something between its parts; a
-- year has four digits.
abbrev pub clock : Bytes → Filled → Bytes
clock between f = three_parts 2 between f.tm_hour f.tm_min f.tm_sec

abbrev pub stamp : Filled → Bytes
stamp f =
    three_parts 0 (codes "_") (f.tm_year +ℤ pos 1900) (pos (f.tm_mon + 1)) f.tm_mday
    ++ (codes "__" ++ clock (codes "_") f)

-- The text of the fields, or the one for the overflow; `none` is no end within the fuel.
abbrev pub text_of : (Filled → Bytes) → Bytes → Broken → Option Bytes
text_of format failed (filled f) = some (format f)
text_of format failed overflow = some failed
text_of format failed stuck = none

unfoldable pub utc_to_str : ℤ → Option Bytes
unfolding offtime
utc_to_str utc = text_of stamp (codes "1970_01_01_00_00_00") (offtime 12 utc (pos 0))

unfoldable pub utc_to_str_minu : ℤ → Option Bytes
unfolding offtime
utc_to_str_minu utc = text_of (clock (codes ":")) (codes "00:00:00") (offtime 12 utc (pos 0))

-- The present time, from what `time` gives, as that of Shanghai.
abbrev pub in_shanghai : ℤ → ℤ
in_shanghai clk = clk +ℤ pos (3600 * 8)

-- `nowMinuSec`, whose variable is 0 at first.
abbrev pub minu_sec_of : Option (ℤ × Option ℤ) → Option ℤ
minu_sec_of none = none
minu_sec_of (some (date, none)) = some (pos 0)
minu_sec_of (some (date, some minu)) = some minu

unfoldable pub now_minu_sec : ℤ → Option ℤ
unfolding utc_to_date
now_minu_sec clk = minu_sec_of (utc_to_date (in_shanghai clk))

abbrev pub date_only : Option (ℤ × Option ℤ) → Option ℤ
date_only none = none
date_only (some (date, minu)) = some date

unfoldable pub now_date : ℤ → Option ℤ
unfolding utc_to_date
now_date clk = date_only (utc_to_date (in_shanghai clk))

unfoldable pub utc_str_now : ℤ → Option Bytes
unfolding utc_to_str
utc_str_now clk = utc_to_str (in_shanghai clk)

unfoldable pub date_to_str : ℤ → Bytes
date_to_str date =
    three_parts 0 (codes "_") (quot date 10000) (quot (rem date 10000) 100)
      (rem (rem date 10000) 100)

-- The time of day in Shanghai.
unfoldable pub ms_to_str : ℕ → Option Bytes
unfolding offtime
ms_to_str ms =
    text_of (λ f. clock (codes "_") f ++ (codes "'" ++ print_padded 0 (ms % 1000)))
      (codes "00_00_00.0") (offtime 12 (pos (ms / 1000 + 3600 * 8)) (pos 0))

unfoldable pub ms_to_str_r : ℕ → Option Bytes
unfolding offtime
ms_to_str_r ms =
    text_of (λ f. clock (codes ":") f ++ (codes "." ++ print_padded 0 (ms % 1000)))
      (codes "00:00:00.0") (offtime 12 (pos (ms / 1000 + 3600 * 8)) (pos 0))

-- `strtol` in base ten: the number, which is kept within a long, and what follows it.
unfoldable pub long_digits : ℕ → Bytes → ℕ × Bytes
long_digits n [] = (n, [])
long_digits n (c ∷ s) = if is_digit c then long_digits (n * 10 + (c - b'0')) s else (n, c ∷ s)

abbrev pub clamp_long : Bool → ℕ → ℤ
clamp_long false n = pos (if ltb n (2 ^ 63) then n else 2 ^ 63 - 1)
clamp_long true n = difference 0 (if leb n (2 ^ 63) then n else 2 ^ 63)

abbrev pub starts_digit : Bytes → Bool
starts_digit [] = false
starts_digit (c ∷ s) = is_digit c

abbrev pub signed_long : Bool → Bytes → Bytes → ℤ × Bytes
signed_long negative whole s =
    let read = long_digits 0 s in
    if starts_digit s then (clamp_long negative read.0, read.1) else (pos 0, whole)

abbrev pub long_sign : Bytes → Bytes → ℤ × Bytes
long_sign whole [] = (pos 0, whole)
long_sign whole (c ∷ s) =
    if c == b'-'
    then signed_long true whole s
    else if c == b'+'
    then signed_long false whole s
    else signed_long false whole (c ∷ s)

abbrev pub skip_spaces : Bytes → Bytes
skip_spaces [] = []
skip_spaces (c ∷ s) = if is_space c then skip_spaces s else c ∷ s

unfoldable pub strtol : Bytes → ℤ × Bytes
unfolding long_digits
strtol s = long_sign s (skip_spaces s)

-- `while (!isdigit(*pstr)) ++pstr;`, which does not stop at the end of the text.
unfoldable pub to_digit : Bytes → Result Bytes
to_digit [] = out_of_bounds
to_digit (c ∷ s) = if is_digit c then ok (c ∷ s) else to_digit s

unfoldable pub read_three : Bytes → Result (ℤ × ℤ × ℤ)
unfolding strtol to_digit
read_three s = do
  p ← to_digit (strtol s).1
  q ← to_digit (strtol p).1
  ok ((strtol s).0, (strtol p).0, (strtol q).0)

-- A long as an int32_t.
abbrev pub to_int32 : ℤ → ℤ
to_int32 z =
    let bits = (pos_part z + (2 ^ 32 - neg_part z % 2 ^ 32)) % 2 ^ 32 in
    if ltb bits (2 ^ 31) then pos bits else difference bits (2 ^ 32)

-- `str_to_date` and `str_to_minuSec`, which are the same; the sums stay within a long.
unfoldable pub str_to_date : Bytes → Result ℤ
unfolding read_three
str_to_date s = do (a, b, c) ← read_three s; ok (to_int32 (scale 10000 a +ℤ scale 100 b +ℤ c))

-- `str_to_tm`: the year from 1900, the month from 0, the day, and the time.
unfoldable pub str_to_tm : Bytes → Bytes → Result ((ℤ × ℤ × ℤ) × (ℤ × ℤ × ℤ))
unfolding read_three
str_to_tm mdate mtime = do
  (year, month, day) ← read_three mdate
  (hour, minu, sec) ← read_three mtime
  ok (
    (to_int32 (year -ℤ pos 1900), to_int32 (month -ℤ pos 1), to_int32 day),
    (to_int32 hour, to_int32 minu, to_int32 sec),
  )
