-- ===== src/Semaphore/Calls.antt =====
-- What any sequence of calls leaves in a semaphore.
use s4_lib_lite.Prelude.{
  ℕ, suc, ◌+◌, ◌≡◌, refl, List, [], ◌∷◌, Option, none, some, arith, ap, ◌∙◌, Option-cases, inl, inr,
}
use s4_lib_lite.Prelude.Int.{ℤ, pos, pos_part, neg_part, ◌+ℤ◌}
use s4_lib_lite.Semaphore.Counter.{Semaphore, set_ready, clr_ready, notify, wait}

pub data Call : Type 0 where
  notifies : ℤ → Call
  waits sets_ready clears_ready : Call

-- The calls in the order in which they end. No result: a thread waits for ever in one of them.
unfoldable pub run : List Call → Semaphore → Option Semaphore
run [] s = some s
run (notifies n ∷ cs) s = run cs (notify n s)
run (waits ∷ cs) s = elim (wait s) [ none ↦ none | some (r, t) ↦ run cs t ]
run (sets_ready ∷ cs) s = run cs (set_ready s)
run (clears_ready ∷ cs) s = run cs (clr_ready s)

-- The permits that the calls give.
abbrev pub given : List Call → ℤ
given [] = pos 0
given (notifies n ∷ cs) = n +ℤ given cs
given (c ∷ cs) = given cs

-- How many of them wait.
abbrev pub waited : List Call → ℕ
waited [] = 0
waited (waits ∷ cs) = suc (waited cs)
waited (c ∷ cs) = waited cs

-- The marks since the last reset, where `n` were there before.
abbrev pub marked : ℕ → List Call → ℕ
marked n [] = n
marked n (sets_ready ∷ cs) = marked (n + 1) cs
marked n (clears_ready ∷ cs) = marked 0 cs
marked n (c ∷ cs) = marked n cs

+ℤ_parts :
    (a b : ℤ)
    → pos_part (a +ℤ b) + neg_part a + neg_part b ≡ neg_part (a +ℤ b) + pos_part a + pos_part b
+ℤ_parts a b = ground arith

notify_parts :
    (n : ℤ) (s : Semaphore)
    → pos_part (notify n s).count + neg_part s.count + neg_part n
      ≡ neg_part (notify n s).count + pos_part s.count + pos_part n
unfolding notify
notify_parts n s = +ℤ_parts s.count n

-- One permit is taken where there is one.
wait_lem :
    (s t : Semaphore) (r : ℤ)
    → wait s ≡ some (r, t)
    → (t.ready ≡ s.ready)
      × (pos_part s.count ≡ suc (pos_part t.count))
      × (neg_part s.count ≡ 0)
      × (neg_part t.count ≡ 0)
      × (r ≡ t.count)
unfolding wait
wait_lem s t r e = ground arith

eq_of_parts : (a b : ℤ) → pos_part a + neg_part b ≡ pos_part b + neg_part a → a ≡ b
eq_of_parts a b h = ground arith

run-parts :
    (cs : List Call) (s t : Semaphore)
    → run cs s ≡ some t
    → pos_part t.count + waited cs + neg_part s.count + neg_part (given cs)
      ≡ neg_part t.count + pos_part s.count + pos_part (given cs)
unfolding run set_ready clr_ready
run-parts [] s t e = let same : s ≡ t = cc in rw same (omega arith)
run-parts (notifies n ∷ cs) s t e =
    omega (arith, run-parts cs (notify n s) t e, notify_parts n s, +ℤ_parts n (given cs))
run-parts (waits ∷ cs) s t e = elim (Option-cases (wait s)) [
  | inl h ↦ let stuck : ◌≡◌ {A = Option Semaphore} none (some t) = rw (h, run) at e in cc
  | inr ((r, u), h) ↦ omega (arith, wait_lem s u r h, run-parts cs u t (rw (h, run) at e))
]
run-parts (sets_ready ∷ cs) s t e = run-parts cs (set_ready s) t e
run-parts (clears_ready ∷ cs) s t e = run-parts cs (clr_ready s) t e

run-ready : (cs : List Call) (s t : Semaphore) → run cs s ≡ some t → t.ready ≡ marked s.ready cs
unfolding run set_ready clr_ready notify
run-ready [] s t e = let same : s ≡ t = cc in rw same refl
run-ready (notifies n ∷ cs) s t e = run-ready cs (notify n s) t e
run-ready (waits ∷ cs) s t e = elim (Option-cases (wait s)) [
  | inl h ↦ let stuck : ◌≡◌ {A = Option Semaphore} none (some t) = rw (h, run) at e in cc
  | inr ((r, u), h) ↦
      run-ready cs u t (rw (h, run) at e) ∙ ap (λ n. marked n cs) (wait_lem s u r h).0
]
run-ready (sets_ready ∷ cs) s t e = run-ready cs (set_ready s) t e
run-ready (clears_ready ∷ cs) s t e = run-ready cs (clr_ready s) t e

-- When the calls have ended, the permits that are left and those taken by `wait` are the permits
-- that were there and those given; and the marks are the marks since the last reset.
pub run-count :
    (cs : List Call) (s t : Semaphore)
    → run cs s ≡ some t
    → (t.count +ℤ pos (waited cs) ≡ s.count +ℤ given cs) × (t.ready ≡ marked s.ready cs)
run-count cs s t e = (
  eq_of_parts _ _ (
      omega (
        arith,
        run-parts cs s t e,
        +ℤ_parts t.count (pos (waited cs)),
        +ℤ_parts s.count (given cs),
      )),
  run-ready cs s t e,
)
