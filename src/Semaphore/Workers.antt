-- ===== src/Semaphore/Workers.antt =====
-- application/test_semaphore.cpp: `comsumor` in each of the worker threads, and `main` with
-- `productor`. Every atomic access and every call of the semaphore is a step; between two steps of
-- one thread, any other thread may move.
use s4_lib_lite.Prelude.{
  ℕ, zero, suc, ◌+◌, ◌*◌, ◌≡◌, Bool, true, false, List, [], ◌∷◌, ◌++◌, Option, none, some, leb,
  ◌==◌, if◌then◌else◌,
}
use s4_lib_lite.Prelude.Int.{ℤ, pos}
use s4_lib_lite.Semaphore.Counter.{
  Semaphore, new_semaphore, set_ready, clr_ready, get_ready, notify, wait,
}

-- Where a worker stands: before `setReady`, in `wait`, before the test of `g_stop`, before
-- `workingSeq += 10`, before the loop that fills one vector, or at its end.
pub data Worker : Type 0 where
  entering waiting woken fetching stopped : Worker
  filling : ℕ → Worker

-- Where the main thread stands. With `spinning n`, `productor()` will be called `n` times more, this
-- call included, before `productor(true)`.
pub data Producer : Type 0 where
  spinning storing clearing notifying : ℕ → Producer
  stopping waking last_storing last_clearing last_notifying joining over : Producer

pub record World : Type 0 where
  pub sema : Semaphore
  pub seq : ℕ
  pub stop : Bool
  pub slots : ℕ → List ℕ
  pub workers : List Worker
  pub producer : Producer

-- What the loop appends: `i * seq` for the first `left` values of `i` from `i` on.
unfoldable pub multiples : ℕ → ℕ → ℕ → List ℕ
multiples zero i seq = []
multiples (suc left) i seq = i * seq ∷ multiples left (i + 1) seq

unfoldable pub fill_vector : ℕ → (ℕ → List ℕ) → ℕ → List ℕ
unfolding multiples
fill_vector k slots j = if k == j then slots j ++ multiples (1000 + 1000 * k) 0 k else slots j

-- `if (g_stop) break;`
unfoldable pub after_wait : Bool → Worker
after_wait true = stopped
after_wait false = fetching

-- `if (seq >= (int)workingspace.size()) break;`
unfoldable pub after_fetch : ℕ → ℕ → Worker
after_fetch size seq = if leb size seq then entering else filling seq

-- The call of `productor` that the main thread is in goes on behind its spinning loop.
unfoldable pub after_spin : ℕ → Producer
after_spin zero = stopping
after_spin (suc n) = storing n

-- The steps of the main thread that wait for nothing.
unfoldable pub produce : ℕ → Producer → World → Option World
produce threads (storing n) s = some (record s { seq = 0; producer = clearing n })
produce threads (clearing n) s = some (record s { sema = clr_ready s.sema; producer = notifying n })
produce threads (notifying n) s =
    some (record s { sema = notify (pos threads) s.sema; producer = spinning n })
produce threads stopping s = some (record s { stop = true; producer = waking })
produce threads waking s =
    some (record s { sema = notify (pos threads) s.sema; producer = last_storing })
produce threads last_storing s = some (record s { seq = 0; producer = last_clearing })
produce threads last_clearing s =
    some (record s { sema = clr_ready s.sema; producer = last_notifying })
produce threads last_notifying s =
    some (record s { sema = notify (pos threads) s.sema; producer = joining })
produce threads (spinning n) s = none
produce threads joining s = none
produce threads over s = none

-- The threads that `main` starts.
abbrev pub replicate : ℕ → Worker → List Worker
replicate zero w = []
replicate (suc n) w = w ∷ replicate n w

unfoldable pub main_start : ℕ → ℕ → World
main_start threads rounds = record {
  sema = new_semaphore;
  seq = 0;
  stop = false;
  slots = λ k. [];
  workers = replicate threads entering;
  producer = spinning rounds;
}

-- How many of the workers a test finds.
abbrev pub tally : (Worker → ℕ) → List Worker → ℕ
tally f [] = 0
tally f (w ∷ ws) = f w + tally f ws

abbrev pub is_stopped : Worker → ℕ
is_stopped stopped = 1
is_stopped w = 0

-- One step of one thread, where `threads` and `size` are `THREAD_NUM` and `WORKSPACE_NUM`.
pub data Step (threads size : ℕ) (s : World) : World → Type 0 where
  sets_ready :
      (pre post : List Worker)
      → s.workers ≡ pre ++ entering ∷ post
      → Step threads size s (record s { sema = set_ready s.sema; workers = pre ++ waiting ∷ post })
  wakes :
      (pre post : List Worker) (r : ℤ) (q : Semaphore)
      → s.workers ≡ pre ++ waiting ∷ post
      → wait s.sema ≡ some (r, q)
      → Step threads size s (record s { sema = q; workers = pre ++ woken ∷ post })
  tests_stop :
      (pre post : List Worker)
      → s.workers ≡ pre ++ woken ∷ post
      → Step threads size s (record s { workers = pre ++ after_wait s.stop ∷ post })
  fetches :
      (pre post : List Worker)
      → s.workers ≡ pre ++ fetching ∷ post
      → Step threads size s
          (record s { seq = s.seq + 10; workers = pre ++ after_fetch size (s.seq + 10) ∷ post })
  fills :
      (pre post : List Worker) (k : ℕ)
      → s.workers ≡ pre ++ filling k ∷ post
      → Step threads size s
          (record s { slots = fill_vector k s.slots; workers = pre ++ fetching ∷ post })
  -- `while (g_sema_p2c.getReady() != THREAD_NUM);` comes to its end.
  passes :
      (n : ℕ)
      → s.producer ≡ spinning n
      → get_ready s.sema ≡ threads
      → Step threads size s (record s { producer = after_spin n })
  produces : (t : World) → produce threads s.producer s ≡ some t → Step threads size s t
  -- Every `join` has returned.
  joins :
      s.producer ≡ joining
      → tally is_stopped s.workers ≡ threads
      → Step threads size s (record s { producer = over })

-- A run of some number of steps.
pub data Run (threads size : ℕ) (s : World) : ℕ → World → Type 0 where
  here : Run threads size s 0 s
  next :
      {n : ℕ} {t u : World}
      → Run threads size s n t
      → Step threads size t u
      → Run threads size s (suc n) u
