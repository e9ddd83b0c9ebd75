-- ===== src/Semaphore/Slots.antt =====
-- No two workers fill the same vector at once: `workingspace[seq]` is written without a lock.
use s4_lib_lite.Prelude.{
  ℕ, ◌+◌, ◌≤◌, ◌<◌, ◌≡◌, ◌⊎◌, inl, inr, refl, Bool, true, false, List, [], ◌∷◌, ◌++◌, some, arith,
  ◌==◌, if◌then◌else◌,
}
use s4_lib_lite.Semaphore.Workers.{
  Worker, entering, waiting, woken, fetching, filling, Producer, spinning, storing, clearing,
  notifying, stopping, waking, last_storing, last_clearing, last_notifying, joining, over, World,
  after_wait, after_fetch, produce, tally, Step, sets_ready, wakes, tests_stop, fetches, fills,
  passes, produces, joins, Run, here, next, main_start,
}
use s4_lib_lite.Semaphore.Barrier.{is_active, IsBarrier}
use s4_lib_lite.Semaphore.WorkerSteps.{tally_move}
use s4_lib_lite.Semaphore.MainSteps.{at_place}
use s4_lib_lite.Semaphore.Safety.{tally-replicate, reached-IsBarrier}

abbrev pub fills_slot : ℕ → Worker → ℕ
fills_slot k (filling j) = if j == k then 1 else 0
fills_slot k w = 0

-- Each vector has at most one worker, and those behind the counter have none.
record IsExclusive (s : World) : Type 0 where
  once : (k : ℕ) → tally (fills_slot k) s.workers ≤ 1
  behind : (k : ℕ) → s.seq < k → tally (fills_slot k) s.workers ≡ 0

fills-active : (k : ℕ) (ws : List Worker) → tally (fills_slot k) ws ≤ tally is_active ws
fills-active k [] = omega arith
fills-active k (filling j ∷ ws) = ground (arith, fills-active k ws)
fills-active k (entering ∷ ws) = omega (arith, fills-active k ws)
fills-active k (w ∷ ws) = omega (arith, fills-active k ws)

after_fetch-fills :
    (size seq k : ℕ) → fills_slot k (after_fetch size seq) ≤ (if seq == k then 1 else 0)
unfolding after_fetch
after_fetch-fills size seq k = ground arith

after_wait-fills : (b : Bool) (k : ℕ) → fills_slot k (after_wait b) ≡ 0
unfolding after_wait
after_wait-fills true k = refl
after_wait-fills false k = refl

module _ (threads size : ℕ) where
  -- A worker moves and takes no vector.
  moves-IsExclusive :
      (s t : World) (pre post : List Worker) (w x : Worker)
      → s.workers ≡ pre ++ w ∷ post
      → t.workers ≡ pre ++ x ∷ post
      → s.seq ≤ t.seq
      → ((k : ℕ) → fills_slot k x ≡ 0)
      → IsExclusive s
      → IsExclusive t
  moves-IsExclusive s t pre post w x e f le free v =
      let moved : (k : ℕ)
          → tally (fills_slot k) t.workers + fills_slot k w
            ≡ tally (fills_slot k) s.workers + fills_slot k x =
        λ k. rw f (tally_move (fills_slot k) pre post s.workers w x e) in
      record {
        once = λ k. omega (arith, moved k, free k, v.once k);
        behind = λ k h. omega (arith, moved k, free k, v.behind k (omega arith));
      }

  -- The main thread moves, and resets the counter only where no worker is in the loop.
  main-IsExclusive :
      (s t : World)
      → t.workers ≡ s.workers
      → (t.seq ≡ s.seq) ⊎ (tally is_active s.workers ≡ 0)
      → IsExclusive s
      → IsExclusive t
  main-IsExclusive s t e (inl same) v = record {
    once = λ k. rw e (v.once k);
    behind = λ k h. rw e (v.behind k (rw same at h));
  }
  main-IsExclusive s t e (inr idle) v = record {
    once = λ k. rw e (omega (arith, fills-active k s.workers));
    behind = λ k h. rw e (omega (arith, fills-active k s.workers));
  }

  produce-IsExclusive :
      (p : Producer) (s t : World) (b : IsBarrier threads s)
      → s.producer ≡ p
      → produce threads p s ≡ some t
      → (t.workers ≡ s.workers) × ((t.seq ≡ s.seq) ⊎ (tally is_active s.workers ≡ 0))
  unfolding produce
  produce-IsExclusive (storing n) s t b e made =
      let h = at_place threads (storing n) s b e in (cc, inr (omega arith))
  produce-IsExclusive last_storing s t b e made =
      let h = at_place threads last_storing s b e in (cc, inr h.2)
  produce-IsExclusive (spinning n) s t b e made = cc
  produce-IsExclusive (clearing n) s t b e made = (cc, inl cc)
  produce-IsExclusive (notifying n) s t b e made = (cc, inl cc)
  produce-IsExclusive stopping s t b e made = (cc, inl cc)
  produce-IsExclusive waking s t b e made = (cc, inl cc)
  produce-IsExclusive last_clearing s t b e made = (cc, inl cc)
  produce-IsExclusive last_notifying s t b e made = (cc, inl cc)
  produce-IsExclusive joining s t b e made = cc
  produce-IsExclusive over s t b e made = cc

  fetches-IsExclusive :
      (s : World) (pre post : List Worker)
      → s.workers ≡ pre ++ fetching ∷ post
      → IsExclusive s
      → IsExclusive
          (record s { seq = s.seq + 10; workers = pre ++ after_fetch size (s.seq + 10) ∷ post })
  fetches-IsExclusive s pre post e v =
      let moved = λ (k : ℕ).
        tally_move (fills_slot k) pre post s.workers fetching (after_fetch size (s.seq + 10)) e in
      record {
        once = λ k.
            ground (arith, moved k, after_fetch-fills size (s.seq + 10) k, v.once k, v.behind k);
        behind = λ k h.
            ground
              (arith, moved k, after_fetch-fills size (s.seq + 10) k, v.behind k (omega arith));
      }

  Step-IsExclusive :
      {s t : World} → Step threads size s t → IsBarrier threads s → IsExclusive s → IsExclusive t
  Step-IsExclusive {s} {t} (sets_ready pre post e) b v =
      moves-IsExclusive s t pre post entering waiting e refl (omega arith) (λ k. refl) v
  Step-IsExclusive {s} {t} (wakes pre post r q e got) b v =
      moves-IsExclusive s t pre post waiting woken e refl (omega arith) (λ k. refl) v
  Step-IsExclusive {s} {t} (tests_stop pre post e) b v =
      moves-IsExclusive s t pre post woken (after_wait s.stop) e refl (omega arith)
        (after_wait-fills s.stop) v
  Step-IsExclusive {s} (fetches pre post e) b v = fetches-IsExclusive s pre post e v
  Step-IsExclusive {s} {t} (fills pre post k e) b v =
      moves-IsExclusive s t pre post (filling k) fetching e refl (omega arith) (λ j. refl) v
  Step-IsExclusive {s} {t} (passes n e full) b v = main-IsExclusive s t refl (inl refl) v
  Step-IsExclusive {s} {t} (produces u e) b v =
      let same = produce-IsExclusive s.producer s t b refl e in main-IsExclusive s t same.0 same.1 v
  Step-IsExclusive {s} {t} (joins e all) b v = main-IsExclusive s t refl (inl refl) v

main_start-IsExclusive : (threads rounds : ℕ) → IsExclusive (main_start threads rounds)
unfolding main_start
main_start-IsExclusive threads rounds = record {
  once = λ k. omega (arith, tally-replicate (fills_slot k) threads);
  behind = λ k h. omega (arith, tally-replicate (fills_slot k) threads);
}

Run-IsExclusive :
    {threads size : ℕ} (rounds : ℕ) {n : ℕ} {t : World}
    → Run threads size (main_start threads rounds) n t
    → IsExclusive t
Run-IsExclusive {threads} rounds here = main_start-IsExclusive threads rounds
Run-IsExclusive {threads} {size} rounds (next r st) =
    Step-IsExclusive threads size st (reached-IsBarrier rounds r) (Run-IsExclusive rounds r)

-- After any run of the threads, of all workers at most one fills a given vector.
pub run-fills_once :
    {threads size : ℕ} (rounds n : ℕ) (t : World)
    → Run threads size (main_start threads rounds) n t
    → (k : ℕ) → tally (fills_slot k) t.workers ≤ 1
run-fills_once rounds n t r = (Run-IsExclusive rounds r).once
