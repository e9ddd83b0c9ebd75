-- ===== src/Semaphore/Measure.antt =====
-- Every step of every thread makes a number smaller.
use native.Mathlib.Nat.{suc-mul}
use s4_lib_lite.Prelude.{
  ℕ, zero, suc, ◌+◌, ◌-◌, ◌*◌, ◌≤◌, ◌<◌, ◌≡◌, refl, ap, subst, Bool, true, false, Option, some,
  arith,
}
use s4_lib_lite.Prelude.Int.{ℤ, pos, pos_part}
use s4_lib_lite.Semaphore.Counter.{Semaphore, set_ready, clr_ready, notify, wait}
use s4_lib_lite.Semaphore.Workers.{
  Worker, entering, waiting, woken, fetching, stopped, filling, Producer, spinning, storing,
  clearing, notifying, stopping, waking, last_storing, last_clearing, last_notifying, joining, over,
  World, after_wait, after_fetch, after_spin, produce, tally, Step, sets_ready, wakes, tests_stop,
  fetches, fills, passes, produces, joins, Run, here, next, main_start,
}
use s4_lib_lite.Semaphore.WorkerSteps.{tally_move}
use s4_lib_lite.Semaphore.Safety.{tally-replicate}

-- How many steps a worker may take before its next `wait`, where the vectors are counted apart.
abbrev pub weight : Worker → ℕ
weight entering = 1
weight waiting = 0
weight woken = 3
weight fetching = 2
weight stopped = 0
weight (filling k) = 3

module _ (threads size : ℕ) where
  -- What one round costs.
  abbrev pub round_cost : ℕ
  round_cost = size + 4 * threads + 4

  abbrev pub end_cost : ℕ
  end_cost = size + 8 * threads + 7

  -- What is left for the main thread, with what it will let the workers do.
  abbrev pub place_cost : Producer → ℕ
  place_cost (spinning n) = n * round_cost + end_cost
  place_cost (storing n) = n * round_cost + end_cost + size + 4 * threads + 3
  place_cost (clearing n) = n * round_cost + end_cost + 4 * threads + 2
  place_cost (notifying n) = n * round_cost + end_cost + 4 * threads + 1
  place_cost stopping = size + 8 * threads + 6
  place_cost waking = size + 8 * threads + 5
  place_cost last_storing = size + 4 * threads + 4
  place_cost last_clearing = 4 * threads + 3
  place_cost last_notifying = 4 * threads + 2
  place_cost joining = 1
  place_cost over = 0

  abbrev pub measure : World → ℕ
  measure s =
      place_cost s.producer + (size - s.seq) + 4 * pos_part s.sema.count + tally weight s.workers

  wait-count :
      (s q : Semaphore) (r : ℤ) → wait s ≡ some (r, q) → pos_part q.count + 1 ≡ pos_part s.count
  unfolding wait
  wait-count s q r e = ground arith

  notify_more : (s : Semaphore) (n : ℕ) → pos_part (notify (pos n) s).count ≤ pos_part s.count + n
  unfolding notify
  notify_more s n = ground arith

  fetched_less :
      (seq : ℕ) → (size - (seq + 10)) + weight (after_fetch size (seq + 10)) < (size - seq) + 2
  unfolding after_fetch
  fetched_less seq = ground arith

  after_wait_less : (b : Bool) → weight (after_wait b) < 3
  unfolding after_wait
  after_wait_less true = omega arith
  after_wait_less false = omega arith

  after_spin_less : (n : ℕ) → place_cost (after_spin n) < place_cost (spinning n)
  unfolding after_spin
  after_spin_less zero = omega arith
  after_spin_less (suc n) = omega (arith, suc-mul n round_cost)

  through :
      (u t : World) (m : ℕ)
      → ◌≡◌ {A = Option World} (some u) (some t)
      → measure u < m
      → measure t < m
  through u t m e h = let same : u ≡ t = cc in subst (λ x. measure x < m) same h

  produce_less :
      (p : Producer) (s t : World)
      → s.producer ≡ p
      → produce threads p s ≡ some t
      → measure t < measure s
  unfolding produce clr_ready
  produce_less (spinning n) s t e made = cc
  produce_less (storing n) s t e made = through _ t _ made (omega (arith, ap place_cost e))
  produce_less (clearing n) s t e made = through _ t _ made (omega (arith, ap place_cost e))
  produce_less (notifying n) s t e made =
      through _ t _ made (omega (arith, ap place_cost e, notify_more s.sema threads))
  produce_less stopping s t e made = through _ t _ made (omega (arith, ap place_cost e))
  produce_less waking s t e made =
      through _ t _ made (omega (arith, ap place_cost e, notify_more s.sema threads))
  produce_less last_storing s t e made = through _ t _ made (omega (arith, ap place_cost e))
  produce_less last_clearing s t e made = through _ t _ made (omega (arith, ap place_cost e))
  produce_less last_notifying s t e made =
      through _ t _ made (omega (arith, ap place_cost e, notify_more s.sema threads))
  produce_less joining s t e made = cc
  produce_less over s t e made = cc

  pub Step-measure : {s t : World} → Step threads size s t → measure t < measure s
  unfolding set_ready
  Step-measure {s} (sets_ready pre post e) =
      omega (arith, tally_move weight pre post s.workers entering waiting e)
  Step-measure {s} (wakes pre post r q e got) =
      omega (arith, tally_move weight pre post s.workers waiting woken e, wait-count s.sema q r got)
  Step-measure {s} (tests_stop pre post e) = omega (
    arith,
    tally_move weight pre post s.workers woken (after_wait s.stop) e,
    after_wait_less s.stop,
  )
  Step-measure {s} (fetches pre post e) = omega (
    arith,
    tally_move weight pre post s.workers fetching (after_fetch size (s.seq + 10)) e,
    fetched_less s.seq,
  )
  Step-measure {s} (fills pre post k e) =
      omega (arith, tally_move weight pre post s.workers (filling k) fetching e)
  Step-measure {s} (passes n e full) = omega (arith, after_spin_less n, ap place_cost e)
  Step-measure {s} (produces t e) = produce_less s.producer s t refl e
  Step-measure {s} (joins e all) = omega (arith, ap place_cost e)

-- A run has no more steps than the measure has room for.
pub Run-measure :
    {threads size : ℕ} {s : World} {n : ℕ} {t : World}
    → Run threads size s n t
    → n + measure threads size t ≤ measure threads size s
Run-measure here = omega arith
Run-measure {threads} {size} (next r st) =
    omega (arith, Run-measure r, Step-measure threads size st)

pub start_measure :
    (threads size rounds : ℕ)
    → measure threads size (main_start threads rounds)
      ≡ rounds * (size + 4 * threads + 4) + 2 * size + 9 * threads + 7
unfolding main_start
start_measure threads size rounds = omega (arith, tally-replicate weight threads)
