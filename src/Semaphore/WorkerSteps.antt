-- ===== src/Semaphore/WorkerSteps.antt =====
-- The workers' steps keep the barrier.
use s4_lib_lite.Prelude.{ℕ, ◌+◌, ◌-◌, ◌≤◌, ◌≡◌, ap, Bool, true, false, List, ◌∷◌, ◌++◌, some, arith}
use s4_lib_lite.Prelude.Int.{ℤ, pos}
use s4_lib_lite.Semaphore.Counter.{Semaphore, set_ready, wait}
use s4_lib_lite.Semaphore.Workers.{
  Worker, entering, waiting, woken, World, after_wait, after_fetch, tally, is_stopped,
}
use s4_lib_lite.Semaphore.Barrier.{
  is_waiting, is_woken, is_active, tally-append, figures, IsBarrier, marks_Phase, wakes_Phase,
  tests_Phase, stays_Phase,
}

-- One worker moves from `w` to `x`.
pub tally_move :
    (f : Worker → ℕ) (pre post ws : List Worker) (w x : Worker)
    → ws ≡ pre ++ w ∷ post
    → tally f (pre ++ x ∷ post) + f w ≡ tally f ws + f x
tally_move f pre post ws w x e =
    omega (arith, ap (tally f) e, tally-append f pre (w ∷ post), tally-append f pre (x ∷ post))

wait-pos :
    (s q : Semaphore) (r : ℤ) (n : ℕ)
    → s.count ≡ pos n
    → wait s ≡ some (r, q)
    → (q.ready ≡ s.ready) × (1 ≤ n) × (q.count ≡ pos (n - 1))
unfolding wait
wait-pos s q r n c e = ground arith

pub after_fetch-active :
    (size k : ℕ)
    → (is_active (after_fetch size k) ≡ 1)
      × (is_waiting (after_fetch size k)
            + is_woken (after_fetch size k)
            + is_stopped (after_fetch size k)
          ≡ 0)
unfolding after_fetch
after_fetch-active size k = ground arith

after_wait-kinds :
    (b : Bool)
    → (is_waiting (after_wait b) + is_woken (after_wait b) ≡ 0)
      × (is_active (after_wait b) + is_stopped (after_wait b) ≡ 1)
unfolding after_wait
after_wait-kinds true = omega arith
after_wait-kinds false = omega arith

module _ (threads : ℕ) where
  pub sets_ready-IsBarrier :
      (s : World) (pre post : List Worker)
      → s.workers ≡ pre ++ entering ∷ post
      → IsBarrier threads s
      → IsBarrier threads (record s { sema = set_ready s.sema; workers = pre ++ waiting ∷ post })
  unfolding set_ready
  sets_ready-IsBarrier s pre post e v =
      let t : World = record s { sema = set_ready s.sema; workers = pre ++ waiting ∷ post } in
      let moved = λ (f : Worker → ℕ). tally_move f pre post s.workers entering waiting e in
      record {
        permits = v.permits;
        counted = v.counted;
        staffed =
            omega (
              arith,
              v.staffed,
              moved is_waiting,
              moved is_woken,
              moved is_active,
              moved is_stopped,
            );
        phase =
            marks_Phase threads s.producer s.stop (figures v.permits s) (figures v.permits t)
              (omega (arith, moved is_woken, moved is_active, moved is_stopped)) v.phase;
      }

  pub wakes-IsBarrier :
      (s : World) (pre post : List Worker) (r : ℤ) (q : Semaphore)
      → s.workers ≡ pre ++ waiting ∷ post
      → wait s.sema ≡ some (r, q)
      → IsBarrier threads s
      → IsBarrier threads (record s { sema = q; workers = pre ++ woken ∷ post })
  wakes-IsBarrier s pre post r q e got v =
      let t : World = record s { sema = q; workers = pre ++ woken ∷ post } in
      let moved = λ (f : Worker → ℕ). tally_move f pre post s.workers waiting woken e in
      let taken = wait-pos s.sema q r v.permits v.counted got in
      record {
        permits = v.permits - 1;
        counted = taken.2;
        staffed =
            omega (
              arith,
              v.staffed,
              moved is_waiting,
              moved is_woken,
              moved is_active,
              moved is_stopped,
            );
        phase =
            wakes_Phase threads s.producer s.stop (figures v.permits s) (figures (v.permits - 1) t)
              (omega (arith, taken.0, taken.1, moved is_woken, moved is_active, moved is_stopped))
              (omega (arith, v.staffed, moved is_waiting)) v.phase;
      }

  pub tests_stop-IsBarrier :
      (s : World) (pre post : List Worker)
      → s.workers ≡ pre ++ woken ∷ post
      → IsBarrier threads s
      → IsBarrier threads (record s { workers = pre ++ after_wait s.stop ∷ post })
  tests_stop-IsBarrier s pre post e v =
      let t : World = record s { workers = pre ++ after_wait s.stop ∷ post } in
      let moved = λ (f : Worker → ℕ). tally_move f pre post s.workers woken (after_wait s.stop) e in
      let kinds = after_wait-kinds s.stop in
      record {
        permits = v.permits;
        counted = v.counted;
        staffed = omega (
          arith,
          v.staffed,
          kinds,
          moved is_waiting,
          moved is_woken,
          moved is_active,
          moved is_stopped,
        );
        phase =
            tests_Phase threads s.producer s.stop (figures v.permits s) (figures v.permits t)
              (omega (arith, kinds, moved is_woken, moved is_active, moved is_stopped))
              (omega (arith, v.staffed)) v.phase;
      }

  -- A worker in the loop that stays there.
  pub stays-IsBarrier :
      (s : World) (seq : ℕ) (slots : ℕ → List ℕ) (pre post : List Worker) (w x : Worker)
      → s.workers ≡ pre ++ w ∷ post
      → (is_active w ≡ 1) × (is_waiting w + is_woken w + is_stopped w ≡ 0)
      → (is_active x ≡ 1) × (is_waiting x + is_woken x + is_stopped x ≡ 0)
      → IsBarrier threads s
      → IsBarrier threads (record s { seq = seq; slots = slots; workers = pre ++ x ∷ post })
  stays-IsBarrier s seq slots pre post w x e old new v =
      let t : World = record s { seq = seq; slots = slots; workers = pre ++ x ∷ post } in
      let moved = λ (f : Worker → ℕ). tally_move f pre post s.workers w x e in
      record {
        permits = v.permits;
        counted = v.counted;
        staffed =
            omega (
              arith,
              v.staffed,
              moved is_waiting,
              moved is_woken,
              moved is_active,
              moved is_stopped,
            );
        phase =
            stays_Phase threads s.producer s.stop (figures v.permits s) (figures v.permits t)
              (omega (arith, moved is_woken, moved is_active, moved is_stopped)) v.phase;
      }
