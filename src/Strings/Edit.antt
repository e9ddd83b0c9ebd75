-- ===== src/Strings/Edit.antt =====
-- The functions of source/common/s4string.cpp, in the order of the source. A loop that has used its
-- fuel up is `none`.
use s4_lib_lite.Prelude.{
  ℕ, zero, suc, ◌+◌, ◌-◌, ◌%◌, not, ◌&&◌, List, [], ◌∷◌, ◌++◌, map, Option, none, some, Bytes, leb,
  ltb, ◌==◌, if◌then◌else◌, length, take, drop,
}
use s4_lib_lite.Prelude.Atoi.{is_digit}
use s4_lib_lite.Strings.Find.{find, find_first_not_of, find_last_not_of}

abbrev pub prepend {ℓ} : {A : Type ℓ} → A → Option (List A) → Option (List A)
prepend x none = none
prepend x (some xs) = some (x ∷ xs)

-- `string_replace` from `pos` on: what is before is `done`, and the rest is searched.
unfoldable pub replace_loop : ℕ → Bytes → Bytes → Bytes → Bytes → Option Bytes
unfolding find
replace_loop zero old new done rest = none
replace_loop (suc fuel) old new done rest = elim (find old rest) [
  | none ↦ some (done ++ rest)
  | some n ↦ replace_loop fuel old new (done ++ (take n rest ++ new)) (drop (n + length old) rest)
]

unfoldable pub string_replace : Bytes → Bytes → Bytes → Option Bytes
unfolding replace_loop
string_replace old new str = replace_loop (suc (length str)) old new [] str

-- `toupper` and `tolower` in the C locale.
abbrev pub upper : ℕ → ℕ
upper c = if leb b'a' c && leb c b'z' then c - 32 else c

abbrev pub lower : ℕ → ℕ
lower c = if leb b'A' c && leb c b'Z' then c + 32 else c

unfoldable pub string_to_upper : Bytes → Bytes
string_to_upper = map upper

unfoldable pub string_to_lower : Bytes → Bytes
string_to_lower = map lower

-- " \\t\\r\\n"
abbrev pub blanks : Bytes
blanks = 32 ∷ 9 ∷ 13 ∷ 10 ∷ []

-- `std::string(value, start, end - start + 1)`
abbrev pub between : Option ℕ → Option ℕ → Bytes → Bytes
between none end value = value
between (some start) none value = value
between (some start) (some end) value = take (end - start + 1) (drop start value)

unfoldable pub string_strip : Bytes → Bytes
unfolding find_first_not_of find_last_not_of
string_strip [] = []
string_strip (c ∷ s) =
    between (find_first_not_of blanks (c ∷ s)) (find_last_not_of blanks (c ∷ s)) (c ∷ s)

abbrev pub up_to : Option ℕ → Bytes → Bytes
up_to none value = value
up_to (some end) value = take (end + 1) value

unfoldable pub string_strip_at_tail : Bytes → Bytes → Bytes
unfolding find_last_not_of
string_strip_at_tail [] drop_chars = []
string_strip_at_tail (c ∷ s) drop_chars = up_to (find_last_not_of drop_chars (c ∷ s)) (c ∷ s)

-- What is pushed after the loop, unless `pos1` is the length.
abbrev pub last_piece : Bytes → List Bytes
last_piece [] = []
last_piece (c ∷ s) = (c ∷ s) ∷ []

-- The loop of `string_split`; `rest` is the source from `pos1` on.
unfoldable pub split_loop : ℕ → Bytes → Bytes → Option (List Bytes)
unfolding find
split_loop zero splitor rest = none
split_loop (suc fuel) splitor rest = elim (find splitor rest) [
  | none ↦ some (last_piece rest)
  | some n ↦ prepend (take n rest) (split_loop fuel splitor (drop (n + length splitor) rest))
]

unfoldable pub string_split : Bytes → Bytes → Option (List Bytes)
unfolding split_loop
string_split src splitor = split_loop (suc (length src)) splitor src

-- `strchr(num, '.')`: what is before it, and from there on.
abbrev pub before_dot : Bytes → Bytes
before_dot [] = []
before_dot (c ∷ s) = if c == b'.' then [] else c ∷ before_dot s

abbrev pub from_dot : Bytes → Bytes
from_dot [] = []
from_dot (c ∷ s) = if c == b'.' then c ∷ s else from_dot s

abbrev pub rev_onto : Bytes → Bytes → Bytes
rev_onto [] out = out
rev_onto (c ∷ s) out = rev_onto s (c ∷ out)

abbrev pub comma_if : ℕ → Bytes → Bytes
comma_if cnt out = if not (cnt == 0) && cnt % 3 == 0 then b',' ∷ out else out

-- The loop over the bytes before the point, from the last on; `out` is what stands from `dst` on.
unfoldable pub comma_loop : ℕ → Bytes → Bytes → Bytes
comma_loop cnt [] out = out
comma_loop cnt (c ∷ left) out =
    if is_digit c
    then comma_loop (cnt + 1) left (c ∷ comma_if cnt out)
    else comma_loop cnt left (c ∷ out)

-- A text as a C string.
abbrev pub up_to_nul : Bytes → Bytes
up_to_nul [] = []
up_to_nul (c ∷ s) = if c == 0 then [] else c ∷ up_to_nul s

-- The bytes that the loop starts from: those before the point, or all where `strchr` finds none.
abbrev pub comma_source : Bytes → Bytes → Bytes
comma_source num [] = num
comma_source num (c ∷ dot) = before_dot num

-- The buffer has 50 bytes, the last one for the NUL; `none` is a write in front of it, or a loop that
-- reads in front of the text, since the bytes that `strlen` does not count are counted before the point.
unfoldable pub string_format_number_comma : Bytes → Option Bytes
unfolding comma_loop
string_format_number_comma num =
    let dot = from_dot (up_to_nul num) in
    let src = comma_source num dot in
    let out = comma_loop 0 (rev_onto src []) dot in
    if ltb (length num) 3
    then some num
    else if length src + length dot == length num && ltb (length out) 50
    then some (up_to_nul out)
    else none
