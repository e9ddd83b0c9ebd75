-- ===== src/Semaphore/Examples.antt =====
-- A run of one worker thread, one vector to fill and one round.
use s4_lib_lite.Prelude.{ℕ, ◌+◌, ◌*◌, ◌≤◌, ◌≡◌, ◌⊎◌, refl, [], ◌∷◌, some, get_elem?, false}
use s4_lib_lite.Prelude.Int.{pos, ◌+ℤ◌}
use s4_lib_lite.Semaphore.Counter.{new_semaphore, set_ready, clr_ready, get_ready, notify, wait}
use s4_lib_lite.Semaphore.Calls.{notifies, waits, sets_ready, run, given, marked, run-count}
use s4_lib_lite.Semaphore.Workers
use s4_lib_lite.Semaphore.Workers.{
  Worker, World, Run, Step, main_start, produce, tally, is_stopped, here, next, waiting, woken,
  fetching, filling, storing, notifying, spinning, over, after_spin, after_wait, after_fetch,
}
use s4_lib_lite.Semaphore.Barrier.{is_waiting}
use s4_lib_lite.Semaphore.Safety.{run-all_wait}
use s4_lib_lite.Semaphore.Ending.{run-ends}
use s4_lib_lite.Semaphore.Slots.{fills_slot, run-fills_once}

-- Two permits are given; one is taken.
two_calls :
    run (notifies (pos 2) ∷ sets_ready ∷ waits ∷ []) new_semaphore
    ≡ some (record { ready = 1; count = pos 1 })
unfolding run notify set_ready wait
two_calls = refl

run-count_example :
    (pos 1 +ℤ pos 1 ≡ pos 0 +ℤ given (notifies (pos 2) ∷ sets_ready ∷ waits ∷ []))
    × (1 ≡ marked 0 (notifies (pos 2) ∷ sets_ready ∷ waits ∷ []))
run-count_example =
    run-count (notifies (pos 2) ∷ sets_ready ∷ waits ∷ []) new_semaphore
      (record { ready = 1; count = pos 1 }) two_calls

-- The worker waits, and the main thread is behind its spinning loop.
abbrev waits_first : World
waits_first = record {
  sema = record { ready = 1; count = pos 0 };
  seq = 0;
  stop = false;
  slots = λ k. [];
  workers = waiting ∷ [];
  producer = storing 0;
}

run_waits : Run 1 15 (main_start 1 1) 2 waits_first
unfolding main_start set_ready get_ready after_spin
run_waits = next (next here (Workers.sets_ready [] [] refl)) (Workers.passes 1 refl refl)

run-all_wait_example :
    (pos 0 ≡ pos 0)
    × (tally is_waiting (waiting ∷ []) ≡ 1)
    × ((i : ℕ) (w : Worker) → get_elem? (waiting ∷ []) i ≡ some w → w ≡ waiting)
run-all_wait_example = run-all_wait 1 2 waits_first run_waits tt

-- The round has begun, and the worker fills the vector 10.
abbrev fills_ten : World
fills_ten = record {
  sema = record { ready = 0; count = pos 0 };
  seq = 10;
  stop = false;
  slots = λ k. [];
  workers = filling 10 ∷ [];
  producer = spinning 0;
}

run_fills : Run 1 15 (main_start 1 1) 8 fills_ten
unfolding produce clr_ready notify wait after_wait after_fetch
run_fills =
    next
      (next
        (next
          (next (next (next run_waits (Workers.produces _ refl)) (Workers.produces _ refl))
            (Workers.produces _ refl))
          (Workers.wakes [] [] (pos 0) (record { ready = 0; count = pos 0 }) refl refl))
        (Workers.tests_stop [] [] refl))
      (Workers.fetches [] [] refl)

run-fills_once_example : tally (fills_slot 10) (filling 10 ∷ []) ≤ 1
run-fills_once_example = run-fills_once 1 8 fills_ten run_fills 10

run-ends_example :
    (8 ≤ 1 * (15 + 4 * 1 + 4) + 2 * 15 + 9 * 1 + 7)
    × (((u : World) × Step 1 15 fills_ten u)
        ⊎ ((fills_ten.producer ≡ over) × (tally is_stopped fills_ten.workers ≡ 1)))
run-ends_example = run-ends 1 15 1 8 fills_ten run_fills
