-- ===== src/Semaphore/Safety.antt =====
-- Every step of every thread keeps the barrier.
use s4_lib_lite.Prelude.{
  ℕ, zero, suc, ◌+◌, ◌*◌, ◌≡◌, refl, ap, ◌∙◌, Bool, List, [], ◌∷◌, some, arith, get_elem?,
}
use s4_lib_lite.Prelude.Int.{pos}
use s4_lib_lite.Semaphore.Workers.{
  Worker, entering, waiting, fetching, filling, Producer, storing, clearing, notifying, stopping,
  waking, World, after_fetch, replicate, main_start, tally, is_stopped, fill_vector, Step,
  sets_ready, wakes, tests_stop, fetches, fills, passes, produces, joins, Run, here, next,
}
use s4_lib_lite.Semaphore.Barrier.{
  is_waiting, is_woken, is_active, Figures, PhaseOk, figures, IsBarrier,
}
use s4_lib_lite.Semaphore.WorkerSteps.{
  after_fetch-active, sets_ready-IsBarrier, wakes-IsBarrier, tests_stop-IsBarrier, stays-IsBarrier,
}
use s4_lib_lite.Semaphore.MainSteps.{passes-IsBarrier, produce-IsBarrier, joins-IsBarrier}

module _ (threads size : ℕ) where
  pub Step-IsBarrier :
      {s t : World} → Step threads size s t → IsBarrier threads s → IsBarrier threads t
  Step-IsBarrier {s} (sets_ready pre post e) v = sets_ready-IsBarrier threads s pre post e v
  Step-IsBarrier {s} (wakes pre post r q e got) v = wakes-IsBarrier threads s pre post r q e got v
  Step-IsBarrier {s} (tests_stop pre post e) v = tests_stop-IsBarrier threads s pre post e v
  Step-IsBarrier {s} (fetches pre post e) v =
      stays-IsBarrier threads s (s.seq + 10) s.slots pre post fetching
        (after_fetch size (s.seq + 10)) e (omega arith) (after_fetch-active size (s.seq + 10)) v
  Step-IsBarrier {s} (fills pre post k e) v =
      stays-IsBarrier threads s s.seq (fill_vector k s.slots) pre post (filling k) fetching e
        (omega arith) (omega arith) v
  Step-IsBarrier {s} (passes n e full) v = passes-IsBarrier threads s n e full v
  Step-IsBarrier {s} (produces t e) v = produce-IsBarrier threads s.producer s t refl e v
  Step-IsBarrier {s} (joins e all) v = joins-IsBarrier threads s e all v

pub tally-replicate : (f : Worker → ℕ) (n : ℕ) → tally f (replicate n entering) ≡ n * f entering
tally-replicate f zero = omega arith
tally-replicate f (suc n) = grind (arith, tally-replicate f n)

pub main_start-IsBarrier : (threads rounds : ℕ) → IsBarrier threads (main_start threads rounds)
unfolding main_start
main_start-IsBarrier threads rounds =
    let all = λ (f : Worker → ℕ). tally-replicate f threads in
    record {
      permits = 0;
      counted = refl;
      staffed = omega (arith, all is_waiting, all is_woken, all is_active, all is_stopped);
      phase = (refl, omega (arith, all is_woken, all is_active), omega (arith, all is_stopped));
    }

pub Run-IsBarrier :
    {threads size : ℕ} {s : World} {n : ℕ} {t : World}
    → Run threads size s n t
    → IsBarrier threads s
    → IsBarrier threads t
Run-IsBarrier here v = v
Run-IsBarrier {threads} {size} (next r st) v = Step-IsBarrier threads size st (Run-IsBarrier r v)

pub reached-IsBarrier :
    {threads size : ℕ} (rounds : ℕ) {n : ℕ} {t : World}
    → Run threads size (main_start threads rounds) n t
    → IsBarrier threads t
reached-IsBarrier {threads} rounds r = Run-IsBarrier r (main_start-IsBarrier threads rounds)

-- Behind the spinning loop of `productor`, before the next write that lets a worker move.
abbrev pub BehindSpin : Producer → Type 0
BehindSpin (storing n) = Unit {0}
BehindSpin (clearing n) = Unit {0}
BehindSpin (notifying n) = Unit {0}
BehindSpin stopping = Unit {0}
BehindSpin waking = Unit {0}
BehindSpin p = ⊥

pub all_idle :
    (threads : ℕ) (p : Producer) (b : Bool) (f : Figures)
    → BehindSpin p
    → PhaseOk threads p b f
    → f.permits + f.wakes + f.acts + f.stops ≡ 0
all_idle threads (storing n) b f i h = h.1
all_idle threads (notifying n) b f i h = omega arith
all_idle threads p b f i h = ground arith

-- Who is not woken, in the loop or at its end waits.
idle_waits : (w : Worker) → is_woken w + is_active w + is_stopped w ≡ 0 → w ≡ waiting
idle_waits waiting e = refl
idle_waits w e = absurd (omega arith)

all_wait :
    (ws : List Worker) (i : ℕ) {w : Worker}
    → tally is_woken ws + tally is_active ws + tally is_stopped ws ≡ 0
    → get_elem? ws i ≡ some w
    → w ≡ waiting
all_wait [] i e g = cc
all_wait (x ∷ ws) zero e g = let same : x ≡ waiting = idle_waits x (omega arith) in cc
all_wait (x ∷ ws) (suc i) e g = all_wait ws i (omega arith) g

-- After any run of the threads: where the main thread is behind the spinning loop of `productor` and
-- has not yet notified, every worker waits in the semaphore and there is no permit.
pub run-all_wait :
    {threads size : ℕ} (rounds n : ℕ) (t : World)
    → Run threads size (main_start threads rounds) n t
    → BehindSpin t.producer
    → (t.sema.count ≡ pos 0)
      × (tally is_waiting t.workers ≡ threads)
      × ((i : ℕ) (w : Worker) → get_elem? t.workers i ≡ some w → w ≡ waiting)
run-all_wait {threads} rounds n t r behind =
    let v = reached-IsBarrier rounds r in
    let idle = all_idle threads t.producer t.stop (figures v.permits t) behind v.phase in
    let none_left : v.permits ≡ 0 = omega arith in
    (
      v.counted ∙ ap pos none_left,
      omega (arith, v.staffed),
      λ i w g. all_wait t.workers i (omega arith) g,
    )
