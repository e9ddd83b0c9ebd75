-- ===== src/SimpleQ/Platform.antt =====
-- What the queue takes from elsewhere: moodycamel's concurrent queue of shared pointers, and
-- `posix_memalign`. A shared pointer to a frame is the frame's number.
use s4_lib_lite.Prelude.{ℕ, ◌+◌, ◌≡◌, List, [], ◌∷◌, Option, none, some, ◌==◌, if◌then◌else◌}

-- `enqueue` and `enqueue_bulk` fail when their own allocation fails; a dequeue fails when the
-- queue appears empty (at once, or after the time given). `alloc size n` is the n-th allocation:
-- the address of the block, or nothing.
pub record Platform : Type 1 where
  pub Queue : Type 0
  pub empty : Queue
  pub enqueue : Queue → ℕ → Option Queue
  pub enqueue_bulk : Queue → List ℕ → Option Queue
  pub dequeue : Queue → Option (ℕ × Queue)
  pub dequeue_bulk : Queue → ℕ → List ℕ × Queue
  pub size_approx : Queue → ℕ
  pub alloc : ℕ → ℕ → Option ℕ

-- One if the numbers are the same.
abbrev pub one_if : ℕ → ℕ → ℕ
one_if a b = if a == b then 1 else 0

-- How often `a` stands in a list.
abbrev pub count : ℕ → List ℕ → ℕ
count a [] = 0
count a (x ∷ xs) = one_if a x + count a xs

-- What the code relies on: a queue holds what was put in and not yet taken out. The order is not
-- promised: elements of one producer keep theirs, and the queue has many.
pub record IsLawful (p : Platform) : Type 0 where
  pub holds : ℕ → p.Queue → ℕ
  pub holds-empty : (a : ℕ) → holds a p.empty ≡ 0
  pub holds-enqueue :
      (a x : ℕ) (q r : p.Queue) → p.enqueue q x ≡ some r → holds a r ≡ holds a q + one_if a x
  pub holds-enqueue_bulk :
      (a : ℕ) (xs : List ℕ) (q r : p.Queue)
      → p.enqueue_bulk q xs ≡ some r
      → holds a r ≡ holds a q + count a xs
  pub holds-dequeue :
      (a x : ℕ) (q r : p.Queue) → p.dequeue q ≡ some (x, r) → holds a q ≡ holds a r + one_if a x
  pub holds-dequeue_bulk :
      (a n : ℕ) (q : p.Queue)
      → holds a q ≡ holds a (p.dequeue_bulk q n).1 + count a (p.dequeue_bulk q n).0

-- A dequeue looks into every part of the queue, so that one from a queue that holds something succeeds.
-- This needs that nobody else uses the queue meanwhile.
pub record IsQuiet (p : Platform) (holds : ℕ → p.Queue → ℕ) : Type 0 where
  pub dequeue-none : (a : ℕ) (q : p.Queue) → p.dequeue q ≡ none → holds a q ≡ 0
