-- ===== src/SimpleQ/ListPlatform.antt =====
-- A platform whose queues are lists, which shows that the laws
-- of a platform can hold.
use s4_lib_lite.Prelude.{
  ℕ, zero, suc, ◌+◌, ◌*◌, ◌≡◌, refl, sym, ap, ◌∙◌, List, [], ◌∷◌, ◌++◌, Option, none, some, length,
  arith, take, drop, leb, if◌then◌else◌, ◌≤◌, inl,
}
use s4_lib_lite.SimpleQ.Platform.{Platform, IsLawful, IsQuiet, one_if, count}
use s4_lib_lite.SimpleQ.Making.{count-append}
use s4_lib_lite.SimpleQ.Keeping.{IsRoomy}
use s4_lib_lite.SimpleQ.Single.{Tokens}
use s4_lib_lite.SimpleQ.Blocks.{IsAllocator}
use s4_lib_lite.SimpleQ.Tokens.{InOrder, start, put, take_first, take_bulk, IsOrdered}

abbrev pop : List ℕ → Option (ℕ × List ℕ)
pop [] = none
pop (x ∷ xs) = some (x, xs)

-- Blocks of memory stand one after the other, each in a page of 4096 bytes; there are no larger ones.
abbrev pub lists : Platform
lists = record {
  Queue = List ℕ;
  empty = [];
  enqueue = λ q x. some (q ++ x ∷ []);
  enqueue_bulk = λ q xs. some (q ++ xs);
  dequeue = pop;
  dequeue_bulk = λ q n. (take n q, drop n q);
  size_approx = length;
  alloc = λ size n. if leb size 4096 then some ((n + 1) * 4096) else none;
}

pop-count : (a x : ℕ) (q r : List ℕ) → pop q ≡ some (x, r) → count a q ≡ count a r + one_if a x
pop-count a x [] r e = cc
pop-count a x (y ∷ q) r e = ground arith

pop-none : (a : ℕ) (q : List ℕ) → pop q ≡ none → count a q ≡ 0
pop-none a [] e = refl
pop-none a (y ∷ q) e = cc

take-drop-count : (a n : ℕ) (q : List ℕ) → count a q ≡ count a (drop n q) + count a (take n q)
take-drop-count a zero q = omega arith
take-drop-count a (suc n) [] = refl
take-drop-count a (suc n) (x ∷ q) = omega (arith, take-drop-count a n q)

append-count :
    (a : ℕ) (xs q r : List ℕ)
    → ◌≡◌ {A = Option (List ℕ)} (some (q ++ xs)) (some r)
    → count a r ≡ count a q + count a xs
append-count a xs q r e = ground (arith, count-append a q xs)

pub lists-IsLawful : IsLawful lists
lists-IsLawful = record {
  holds = count;
  holds-empty = λ a. refl;
  holds-enqueue = λ a x q r e. omega (arith, append-count a (x ∷ []) q r e);
  holds-enqueue_bulk = append-count;
  holds-dequeue = pop-count;
  holds-dequeue_bulk = take-drop-count;
}

lists-IsQuiet : IsQuiet lists count
lists-IsQuiet = record { dequeue-none = pop-none }

pub lists-IsRoomy : IsRoomy lists
lists-IsRoomy = record { takes = λ q x. (q ++ x ∷ [], refl); takes_bulk = λ q xs. (q ++ xs, refl) }

-- The tokens of these queues do what the calls without a token do.
abbrev pub list_tokens : Tokens lists
list_tokens = record { enqueue_by = λ q x. some (q ++ x ∷ []); dequeue_by = pop }

pop-same : (q r : List ℕ) (x : ℕ) → pop q ≡ some (x, r) → q ≡ x ∷ r
pop-same [] r x e = cc
pop-same (y ∷ q) r x e = cc

taken : (n : ℕ) (q : List ℕ) → q ≡ take n q ++ drop n q
taken zero q = refl
taken (suc n) [] = refl
taken (suc n) (x ∷ q) = ap (λ l. x ∷ l) (taken n q)

dropped : (n : ℕ) (q xs : List ℕ) → q ≡ take n q ++ xs → drop n q ≡ xs
dropped zero q xs e = e
dropped (suc n) [] xs e = e
dropped (suc n) (x ∷ q) xs e = let tail : q ≡ take n q ++ xs = cc in dropped n q xs tail

InOrder-same : {q xs : List ℕ} → InOrder list_tokens q xs → q ≡ xs
InOrder-same start = refl
InOrder-same (put x e v) = let longer = ap (λ l. l ++ x ∷ []) (InOrder-same v) in cc
InOrder-same (take_first {q} {r} {xs} x e v) =
    let whole = InOrder-same v in let parts = pop-same q r x e in cc
InOrder-same (take_bulk {q} {xs} n v) = dropped n q xs (InOrder-same v)

pub list_tokens-IsOrdered : IsOrdered list_tokens
list_tokens-IsOrdered = record {
  first = λ q r x xs v e. (r, sym (InOrder-same v) ∙ pop-same q r x e);
  first_bulk = λ q n xs v. (drop n q, sym (InOrder-same v) ∙ taken n q);
}

alloc_place : (size n a : ℕ) → lists.alloc size n ≡ some a → (a ≡ (n + 1) * 4096) × (size ≤ 4096)
alloc_place size n a e = ground arith

pub lists-IsAllocator : IsAllocator lists
lists-IsAllocator = record {
  apart = λ n m i j {a} {b} h e f. inl (omega (arith, alloc_place n i a e, alloc_place m j b f));
}
