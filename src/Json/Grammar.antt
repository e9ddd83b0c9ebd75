-- ===== src/Json/Grammar.antt =====
-- What `searchJson` takes for an object, as a grammar: quotes are brackets like the others, and what
-- stands in them is no text of its own.
use mathlib.Core.List.{append_assoc}
use s4_lib_lite.Prelude.{
  ℕ, ◌+◌, ◌≡◌, refl, ap, ◌∙◌, Bool, true, false, not, ◌||◌, List, [], ◌∷◌, ◌++◌, none, some, Bytes,
  ◌==◌, length, length-append, arith,
}
use s4_lib_lite.Json.Search.{
  found, out_of_bounds, Search, scan, find_brace, search_from, search_json,
}

-- A byte that the switch passes over.
abbrev pub is_plain : ℕ → Bool
is_plain c = not (
    c == 0 || (c == b'{' || (c == b'"' || (c == b'[' || (c == b']' || (c == b'}' || c == b'\\'))))))

-- What may stand between two brackets, directly within quotes or not.
pub data Items : Bool → Bytes → Type 0 where
  nil : {q : Bool} → Items q []
  plain : {q : Bool} {s : Bytes} (c : ℕ) → is_plain c ≡ true → Items q s → Items q (c ∷ s)
  escape : {q : Bool} {s : Bytes} (c : ℕ) → Items q s → Items q (b'\\' ∷ c ∷ s)
  object : {q : Bool} {i s : Bytes} → Items false i → Items q s → Items q (b'{' ∷ (i ++ b'}' ∷ s))
  array : {q : Bool} {i s : Bytes} → Items false i → Items q s → Items q (b'[' ∷ (i ++ b']' ∷ s))
  quoted : {i s : Bytes} → Items true i → Items false s → Items false (b'"' ∷ (i ++ b'"' ∷ s))

-- The variables of the loop from the first brace on.
abbrev mid : List ℕ → Bool → ℕ → ℕ → Search
mid stack is_array stop end_char = record {
  stack = stack;
  is_object = true;
  is_array = is_array;
  stop = stop;
  end_char = end_char;
}

module _ (f st : ℕ) where
  scan-plain :
      (c : ℕ) (rest : Bytes) (xs : List ℕ) (a : Bool) (n e : ℕ)
      → is_plain c ≡ true
      → scan f st (c ∷ rest) (mid xs a n e) ≡ scan f st rest (mid xs a (n + 1) c)
  unfolding scan
  scan-plain c [] xs a n e h = ground arith
  scan-plain c (d ∷ rest) xs a n e h = ground arith

  scan-escape :
      (c : ℕ) (rest : Bytes) (xs : List ℕ) (a : Bool) (n e : ℕ)
      → scan f st (b'\\' ∷ c ∷ rest) (mid xs a n e) ≡ scan f st rest (mid xs a (n + 2) b'\\')
  unfolding scan
  scan-escape c rest xs a n e = refl

  scan-object :
      (x : ℕ) (rest : Bytes) (xs : List ℕ) (a : Bool) (n e : ℕ)
      → scan f st (b'{' ∷ rest) (mid (x ∷ xs) a n e)
        ≡ scan f st rest (mid (b'{' ∷ x ∷ xs) a (n + 1) b'{')
  unfolding scan
  scan-object x [] xs a n e = refl
  scan-object x (d ∷ rest) xs a n e = refl

  scan-object_end :
      (x : ℕ) (rest : Bytes) (xs : List ℕ) (a : Bool) (n e : ℕ)
      → scan f st (b'}' ∷ rest) (mid (b'{' ∷ x ∷ xs) a n e)
        ≡ scan f st rest (mid (x ∷ xs) a (n + 1) b'}')
  unfolding scan
  scan-object_end x [] xs a n e = refl
  scan-object_end x (d ∷ rest) xs a n e = refl

  scan-array :
      (x : ℕ) (rest : Bytes) (xs : List ℕ) (a : Bool) (n e : ℕ)
      → scan f st (b'[' ∷ rest) (mid (x ∷ xs) a n e)
        ≡ scan f st rest (mid (b'[' ∷ x ∷ xs) true (n + 1) b'[')
  unfolding scan
  scan-array x [] xs true n e = refl
  scan-array x [] xs false n e = refl
  scan-array x (d ∷ rest) xs true n e = refl
  scan-array x (d ∷ rest) xs false n e = refl

  scan-array_end :
      (x : ℕ) (rest : Bytes) (xs : List ℕ) (a : Bool) (n e : ℕ)
      → scan f st (b']' ∷ rest) (mid (b'[' ∷ x ∷ xs) a n e)
        ≡ scan f st rest (mid (x ∷ xs) a (n + 1) b']')
  unfolding scan
  scan-array_end x [] xs a n e = refl
  scan-array_end x (d ∷ rest) xs a n e = refl

  scan-quote :
      (x : ℕ) (rest : Bytes) (xs : List ℕ) (a : Bool) (n e : ℕ)
      → (x == b'"') ≡ false
      → scan f st (b'"' ∷ rest) (mid (x ∷ xs) a n e)
        ≡ scan f st rest (mid (b'"' ∷ x ∷ xs) a (n + 1) b'"')
  unfolding scan
  scan-quote x [] xs a n e h = rw h refl
  scan-quote x (d ∷ rest) xs a n e h = rw h refl

  scan-quote_end :
      (rest : Bytes) (xs : List ℕ) (a : Bool) (n e : ℕ)
      → scan f st (b'"' ∷ rest) (mid (b'"' ∷ xs) a n e) ≡ scan f st rest (mid xs a (n + 1) b'"')
  unfolding scan
  scan-quote_end [] xs a n e = refl
  scan-quote_end (d ∷ rest) xs a n e = refl

  -- The loop comes through items, with the same stack, to what follows them.
  abbrev Passes : ℕ → List ℕ → Bool → ℕ → ℕ → Bytes → Bytes → Type 0
  Passes x xs a n e i rest =
      (b : Bool) × (e' : ℕ) × (scan f st (i ++ rest) (mid (x ∷ xs) a n e)
        ≡ scan f st rest (mid (x ∷ xs) b (n + length i) e'))

  -- One byte before, and a longer count of what is passed.
  Passes-cons :
      (x : ℕ) (xs : List ℕ) (a a' : Bool) (n m e e' : ℕ) (i j rest : Bytes)
      → scan f st (j ++ rest) (mid (x ∷ xs) a n e) ≡ scan f st (i ++ rest) (mid (x ∷ xs) a' m e')
      → m + length i ≡ n + length j
      → Passes x xs a' m e' i rest
      → Passes x xs a n e j rest
  Passes-cons x xs a a' n m e e' i j rest step len (b, e'', p) =
      (b, e'', step ∙ p ∙ ap (λ k. scan f st rest (mid (x ∷ xs) b k e'')) len)

  -- Brackets around items, before items: `o` and `c` are the bytes, `y` is what is pushed.
  Passes-around :
      (o c y x : ℕ) (xs : List ℕ) (a a1 : Bool) (n e : ℕ) (i s rest : Bytes)
      → (scan f st (o ∷ (i ++ c ∷ (s ++ rest))) (mid (x ∷ xs) a n e)
          ≡ scan f st (i ++ c ∷ (s ++ rest)) (mid (y ∷ x ∷ xs) a1 (n + 1) o))
      → ((b : Bool) (k e' : ℕ)
          → scan f st (c ∷ (s ++ rest)) (mid (y ∷ x ∷ xs) b k e')
            ≡ scan f st (s ++ rest) (mid (x ∷ xs) b (k + 1) c))
      → Passes y (x ∷ xs) a1 (n + 1) o i (c ∷ (s ++ rest))
      → ((b : Bool) (k : ℕ) → Passes x xs b k c s rest)
      → Passes x xs a n e (o ∷ (i ++ c ∷ s)) rest
  Passes-around o c y x xs a a1 n e i s rest opens closes (b, e', p) later =
      let flat : (o ∷ (i ++ c ∷ s)) ++ rest ≡ o ∷ (i ++ c ∷ (s ++ rest)) =
        ap (λ t. o ∷ t) (append_assoc i (c ∷ s) rest) in
      let len = length-append i (c ∷ s) in
      Passes-cons x xs a b n (n + 1 + length i + 1) e c s (o ∷ (i ++ c ∷ s)) rest
        (ap (λ t. scan f st t (mid (x ∷ xs) a n e)) flat
          ∙ opens
          ∙ p
          ∙ closes b (n + 1 + length i) e')
        (omega (arith, len)) (later b (n + 1 + length i + 1))

  scan-Items :
      {q : Bool} {i : Bytes}
      → Items q i
      → (x : ℕ) (xs : List ℕ) (a : Bool) (n e : ℕ) (rest : Bytes) → (x == b'"') ≡ q
      → Passes x xs a n e i rest
  scan-Items nil x xs a n e rest h =
      (a, e, ap (λ k. scan f st rest (mid (x ∷ xs) a k e)) (omega arith))
  scan-Items (plain {s = s} c p v) x xs a n e rest h =
      Passes-cons x xs a a n (n + 1) e c s (c ∷ s) rest (scan-plain c (s ++ rest) (x ∷ xs) a n e p)
        (omega arith) (scan-Items v x xs a (n + 1) c rest h)
  scan-Items (escape {s = s} c v) x xs a n e rest h =
      Passes-cons x xs a a n (n + 2) e b'\\' s (b'\\' ∷ c ∷ s) rest
        (scan-escape c (s ++ rest) (x ∷ xs) a n e) (omega arith)
        (scan-Items v x xs a (n + 2) b'\\' rest h)
  scan-Items (object {i = i} {s = s} v w) x xs a n e rest h =
      Passes-around b'{' b'}' b'{' x xs a a n e i s rest (scan-object x _ xs a n e)
        (λ b k e'. scan-object_end x (s ++ rest) xs b k e')
        (scan-Items v b'{' (x ∷ xs) a (n + 1) b'{' _ refl)
        (λ b k. scan-Items w x xs b k b'}' rest h)
  scan-Items (array {i = i} {s = s} v w) x xs a n e rest h =
      Passes-around b'[' b']' b'[' x xs a true n e i s rest (scan-array x _ xs a n e)
        (λ b k e'. scan-array_end x (s ++ rest) xs b k e')
        (scan-Items v b'[' (x ∷ xs) true (n + 1) b'[' _ refl)
        (λ b k. scan-Items w x xs b k b']' rest h)
  scan-Items (quoted {i = i} {s = s} v w) x xs a n e rest h =
      Passes-around b'"' b'"' b'"' x xs a a n e i s rest (scan-quote x _ xs a n e h)
        (λ b k e'. scan-quote_end (s ++ rest) (x ∷ xs) b k e')
        (scan-Items v b'"' (x ∷ xs) a (n + 1) b'"' _ refl)
        (λ b k. scan-Items w x xs b k b'"' rest h)

-- No byte opens an object.
abbrev pub NoBrace : Bytes → Type 0
NoBrace [] = Unit {0}
NoBrace (c ∷ s) = ((c == b'{') ≡ false) × NoBrace s

zero-add : (n : ℕ) → 0 + n ≡ n
zero-add n = omega arith

find_brace-found :
    (before rest : Bytes) (i : ℕ)
    → NoBrace before
    → find_brace i (before ++ b'{' ∷ rest) ≡ some (i + length before, b'{' ∷ rest)
unfolding find_brace
find_brace-found [] rest i h = ap (λ k. some (k, b'{' ∷ rest)) (omega arith)
find_brace-found (c ∷ s) rest i h =
    rw h.0 (find_brace-found s rest (i + 1) h.1 ∙ ap (λ k. some (k, b'{' ∷ rest)) (omega arith))

find_brace-none : (s : Bytes) (i : ℕ) → NoBrace s → find_brace i s ≡ none
unfolding find_brace
find_brace-none [] i h = refl
find_brace-none (c ∷ s) i h = rw h.0 (find_brace-none s (i + 1) h.1)

module _ (st : ℕ) where
  scan-first :
      (rest : Bytes)
      → search_from (st, b'{' ∷ rest) ≡ scan b'{' st rest (mid (b'{' ∷ []) false (st + 1) b'{')
  unfolding search_from scan
  scan-first [] = refl
  scan-first (d ∷ rest) = refl

  scan-last :
      (rest : Bytes) (a : Bool) (n e : ℕ)
      → scan b'{' st (b'}' ∷ rest) (mid (b'{' ∷ []) a n e) ≡ found st n
  unfolding scan
  scan-last [] a n e = refl
  scan-last (d ∷ rest) a n e = refl

  -- The whole object, from its first brace to its last.
  search_from-object :
      (i after : Bytes)
      → Items false i
      → search_from (st, b'{' ∷ (i ++ b'}' ∷ after)) ≡ found st (st + 1 + length i)
  search_from-object i after v =
      let (b, e, p) = scan-Items b'{' st v b'{' [] false (st + 1) b'{' (b'}' ∷ after) refl in
      scan-first (i ++ b'}' ∷ after) ∙ p ∙ scan-last after b (st + 1 + length i) e

-- For every text of bytes that are no brace, an object of the grammar and anything after it,
-- `searchJson` returns true with the positions of the object's first and last brace.
pub search_json-object :
    (before i after : Bytes)
    → NoBrace before
    → Items false i
    → search_json (before ++ b'{' ∷ (i ++ b'}' ∷ after))
      ≡ found (length before) (length before + 1 + length i)
unfolding search_json
search_json-object before i after h v =
    rw (find_brace-found before (i ++ b'}' ∷ after) 0 h, search_json)
      (search_from-object (0 + length before) i after v
        ∙ ap (λ k. found k (k + 1 + length i)) (zero-add (length before)))

-- For every text without an opening brace `searchJson` reads in front of the text.
search_json-NoBrace : (s : Bytes) → NoBrace s → search_json s ≡ out_of_bounds
unfolding search_json
search_json-NoBrace s h = rw (find_brace-none s 0 h, search_json) refl
