-- ===== src/Semaphore/Ending.antt =====
-- The program ends: whatever the order in which the threads move, some thread can move until the
-- main thread has joined every worker.
use s4_lib_lite.Prelude.{
  ℕ, suc, ◌+◌, ◌-◌, ◌*◌, ◌≤◌, ◌<◌, ◌≡◌, ◌≢◌, refl, ap, sym, ◌∙◌, if◌then◌else◌, subst, ◌⊎◌, inl,
  inr, List, [], ◌∷◌, ◌++◌, some, arith, ◌==◌, Bool-cases,
}
use s4_lib_lite.Prelude.Int.{pos}
use s4_lib_lite.Semaphore.Counter.{Semaphore, get_ready, wait}
use s4_lib_lite.Semaphore.Workers.{
  Worker, entering, waiting, woken, fetching, stopped, filling, Producer, spinning, joining, over,
  World, produce, tally, is_stopped, Step, sets_ready, wakes, tests_stop, fetches, fills, passes,
  produces, joins, Run, main_start,
}
use s4_lib_lite.Semaphore.Barrier.{is_waiting, is_woken, is_active, PhaseOk, figures, IsBarrier}
use s4_lib_lite.Semaphore.Safety.{reached-IsBarrier}
use s4_lib_lite.Semaphore.Measure.{Run-measure, start_measure}

-- A worker that a test finds.
record Found (f : Worker → ℕ) (ws : List Worker) : Type 0 where
  pre : List Worker
  who : Worker
  post : List Worker
  there : ws ≡ pre ++ who ∷ post
  fits : 0 < f who

find : (f : Worker → ℕ) (ws : List Worker) → 0 < tally f ws → Found f ws
find f [] h = absurd (omega arith)
find f (w ∷ ws) h = elim (Bool-cases (f w == 0)) [
  | inl elsewhere ↦
      let more = find f ws (ground arith) in
      record {
        pre = w ∷ more.pre;
        who = more.who;
        post = more.post;
        there = ap (◌∷◌ w) more.there;
        fits = more.fits;
      }
  | inr here_it_is ↦ record { pre = []; who = w; post = ws; there = refl; fits = ground arith }
]

wait-some :
    (s : Semaphore) (n : ℕ)
    → s.count ≡ pos (suc n)
    → wait s ≡ some (pos n, record s { count = pos n })
unfolding wait
wait-some s n c = ground arith

module _ (threads size : ℕ) where
  abbrev CanMove : World → Type 0
  CanMove s = (t : World) × Step threads size s t

  move_active :
      (s : World) (pre : List Worker) (w : Worker) (post : List Worker)
      → s.workers ≡ pre ++ w ∷ post
      → 0 < is_active w
      → CanMove s
  move_active s pre entering post e h = (_, sets_ready pre post e)
  move_active s pre fetching post e h = (_, fetches pre post e)
  move_active s pre (filling k) post e h = (_, fills pre post k e)
  move_active s pre waiting post e h = absurd (omega arith)
  move_active s pre woken post e h = absurd (omega arith)
  move_active s pre stopped post e h = absurd (omega arith)

  move_woken :
      (s : World) (pre : List Worker) (w : Worker) (post : List Worker)
      → s.workers ≡ pre ++ w ∷ post
      → 0 < is_woken w
      → CanMove s
  move_woken s pre woken post e h = (_, tests_stop pre post e)
  move_woken s pre w post e h = absurd (omega arith)

  move_waiting :
      (s : World) (n : ℕ) (pre : List Worker) (w : Worker) (post : List Worker)
      → s.sema.count ≡ pos (suc n)
      → s.workers ≡ pre ++ w ∷ post
      → 0 < is_waiting w
      → CanMove s
  move_waiting s n pre waiting post c e h =
      (_, wakes pre post (pos n) (record s.sema { count = pos n }) e (wait-some s.sema n c))
  move_waiting s n pre w post c e h = absurd (omega arith)

  -- Some worker can move if one is in the loop or woken, or if one waits and there is a permit.
  move_worker :
      (s : World) (n : ℕ)
      → s.sema.count ≡ pos n
      → 0
        < tally is_active s.workers
          + tally is_woken s.workers
          + (if n == 0 then 0 else tally is_waiting s.workers)
      → CanMove s
  move_worker s n c h = elim (Bool-cases (tally is_active s.workers == 0)) [
    | inr busy ↦
        let w = find is_active s.workers (ground arith) in
        move_active s w.pre w.who w.post w.there w.fits
    | inl idle ↦ elim (Bool-cases (tally is_woken s.workers == 0)) [
      | inr awake ↦
          let w = find is_woken s.workers (ground arith) in
          move_woken s w.pre w.who w.post w.there w.fits
      | inl asleep ↦
          let w = find is_waiting s.workers (ground arith) in
          move_waiting s (n - 1) w.pre w.who w.post (c ∙ ap pos (ground arith)) w.there w.fits
    ]
  ]

  move_main :
      (s : World) (p : Producer) (t : World)
      → s.producer ≡ p
      → produce threads p s ≡ some t
      → CanMove s
  move_main s p t e made = (t, produces t (subst (λ x. produce threads x s ≡ some t) (sym e) made))

  progress :
      (p : Producer) (s : World) (v : IsBarrier threads s)
      → s.producer ≡ p
      → p ≢ over
      → PhaseOk threads p s.stop (figures v.permits s)
      → CanMove s
  unfolding produce get_ready
  progress (spinning n) s v e o h = elim (Bool-cases (s.sema.ready == threads)) [
    | inl full ↦ (_, passes n e (ground arith))
    | inr some_left ↦ move_worker s v.permits v.counted (ground (arith, v.staffed))
  ]
  progress joining s v e o h = elim (Bool-cases (tally is_stopped s.workers == threads)) [
    | inl all ↦ (_, joins e (ground arith))
    | inr some_left ↦ move_worker s v.permits v.counted (ground (arith, v.staffed))
  ]
  progress over s v e o h = absurd (o refl)
  progress p s v e o h = move_main s p _ e refl

ended :
    (threads size : ℕ) (p : Producer) (t : World) (v : IsBarrier threads t)
    → t.producer ≡ p
    → PhaseOk threads p t.stop (figures v.permits t)
    → ((u : World) × Step threads size t u)
      ⊎ ((t.producer ≡ over) × (tally is_stopped t.workers ≡ threads))
ended threads size over t v e h = inr (e, h.1)
ended threads size p t v e h = inl (progress threads size p t v e (λ o. cc) h)

-- Every run of the threads comes to the end of the program, in whatever order they move: it has at
-- most so many steps, and where no thread can move any more, the main thread has joined the workers
-- and every worker has ended.
pub run-ends :
    (threads size rounds n : ℕ) (t : World)
    → Run threads size (main_start threads rounds) n t
    → (n ≤ rounds * (size + 4 * threads + 4) + 2 * size + 9 * threads + 7)
      × (((u : World) × Step threads size t u)
          ⊎ ((t.producer ≡ over) × (tally is_stopped t.workers ≡ threads)))
run-ends threads size rounds n t r =
    let v = reached-IsBarrier rounds r in
    (
      omega (arith, Run-measure r, start_measure threads size rounds),
      ended threads size t.producer t v refl v.phase,
    )
