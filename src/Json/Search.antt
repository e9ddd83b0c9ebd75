-- ===== src/Json/Search.antt =====
-- `searchJson` of source/common/s4json_util.cpp: where the first JSON object of a text begins and
-- ends. The text is its bytes; behind them `c_str()` has a NUL.
use s4_lib_lite.Prelude.{
  ℕ, ◌+◌, ◌-◌, Bool, true, false, not, ◌&&◌, List, [], ◌∷◌, Option, none, some, Bytes, ◌==◌,
  if◌then◌else◌,
}

-- JSON_NO_START, JSON_WAITING_STOP and JSON_ILLEGAL_STOP.
pub data Fault : Type 0 where
  no_start waiting_stop illegal_stop : Fault

-- What the call ends with: true with `start` and `stop`, false with `*ec`, or a read outside of the
-- text.
pub data Found : Type 0 where
  found : ℕ → ℕ → Found
  failed : Fault → Found
  out_of_bounds : Found

-- The local variables of the loop: `jsonstr`, the newest first, `isObject`, `isArray`, `stop` and
-- `endChar`.
pub record Search : Type 0 where
  pub stack : List ℕ
  pub is_object : Bool
  pub is_array : Bool
  pub stop : ℕ
  pub end_char : ℕ

-- What a round of the switch leads to: `return false`, `json_end`, or the next round.
pub data Round : Type 0 where
  illegal : Round
  ended again : Search → Round

abbrev pub is_empty : List ℕ → Bool
is_empty [] = true
is_empty (x ∷ xs) = false

-- `!jsonstr.empty() && jsonstr.top() == c`
abbrev pub is_top : ℕ → List ℕ → Bool
is_top c [] = false
is_top c (x ∷ xs) = x == c

abbrev pub push : ℕ → Search → Search
push c s = record s { stack = c ∷ s.stack }

abbrev pub pop : List ℕ → List ℕ
pop [] = []
pop (x ∷ xs) = xs

-- The bracket `c` was opened: the loop ends if it was the last one that was open.
abbrev pub close : ℕ → Search → Round
close c s =
    if not (is_top c s.stack)
    then illegal
    else (let t : Search = record s { stack = pop s.stack } in
        if is_empty t.stack then ended t else again t)

abbrev pub open_object : Search → Round
open_object s =
    if not s.is_object
    then again (push b'{' (record s { is_object = true }))
    else if is_empty s.stack
    then ended (record s { stop = s.stop - 1 })
    else again (push b'{' s)

abbrev pub open_array : Search → Round
open_array s =
    if not s.is_array
    then again (push b'[' (record s { is_array = true }))
    else if is_empty s.stack
    then illegal
    else again (push b'[' s)

abbrev pub quote : Search → Round
quote s = again (if is_top b'"' s.stack then record s { stack = pop s.stack } else push b'"' s)

-- The switch, for another byte than a backslash.
unfoldable pub switch : ℕ → Search → Round
switch c s =
    if c == b'{'
    then open_object s
    else if c == b'"'
    then quote s
    else if c == b'['
    then open_array s
    else if c == b']'
    then close b'[' s
    else if c == b'}'
    then close b'{' s
    else again s

-- What follows the loop; `first` is `startChar`.
unfoldable pub finish : ℕ → ℕ → Search → Found
finish first start s =
    if is_empty s.stack
    then if first == b'{' && s.end_char == b'}' then found start s.stop else failed illegal_stop
    else failed waiting_stop

-- The loop over the bytes from `p` on. A backslash has the next byte skipped, even a NUL.
unfoldable pub scan : ℕ → ℕ → Bytes → Search → Found
unfolding switch finish
scan first start [] s = finish first start s
scan first start (c ∷ []) s =
    if c == 0
    then finish first start s
    else if c == b'\\'
    then out_of_bounds
    else elim (switch c (record s { end_char = c })) [
      | illegal ↦ failed illegal_stop
      | ended t ↦ finish first start t
      | again t ↦ finish first start (record t { stop = t.stop + 1 })
    ]
scan first start (c ∷ d ∷ rest) s =
    let skipped = scan first start rest (record s { end_char = c; stop = s.stop + 2 }) in
    if c == 0
    then finish first start s
    else if c == b'\\'
    then skipped
    else elim (switch c (record s { end_char = c })) [
      | illegal ↦ failed illegal_stop
      | ended t ↦ finish first start t
      | again t ↦ scan first start (d ∷ rest) (record t { stop = t.stop + 1 })
    ]

-- `str.find('{')` as an int, which -1 stands for nothing in, with the bytes from there on.
unfoldable pub find_brace : ℕ → Bytes → Option (ℕ × Bytes)
find_brace i [] = none
find_brace i (c ∷ s) = if c == b'{' then some (i, c ∷ s) else find_brace (i + 1) s

-- From `startChar` on.
unfoldable pub search_from : ℕ × Bytes → Found
unfolding scan
search_from (start, []) = out_of_bounds
search_from (start, c ∷ s) =
    scan c start (c ∷ s)
      (record { stack = []; is_object = false; is_array = false; stop = start; end_char = 0 })

-- `searchJson`. Without a brace `start` is -1, which is not greater than the size, so the byte before
-- the text is read.
unfoldable pub search_json : Bytes → Found
unfolding find_brace search_from
search_json str = elim (find_brace 0 str) [ none ↦ out_of_bounds | some at ↦ search_from at ]
