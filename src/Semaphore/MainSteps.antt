-- ===== src/Semaphore/MainSteps.antt =====
-- The main thread's steps keep the barrier.
use s4_lib_lite.Prelude.{ℕ, zero, suc, ◌+◌, ◌≡◌, refl, subst, Bool, true, Option, some, arith}
use s4_lib_lite.Prelude.Int.{pos}
use s4_lib_lite.Semaphore.Counter.{Semaphore, clr_ready, get_ready, notify}
use s4_lib_lite.Semaphore.Workers.{
  Producer, spinning, storing, clearing, notifying, stopping, waking, last_storing, last_clearing,
  last_notifying, joining, over, World, after_spin, produce, tally, is_stopped,
}
use s4_lib_lite.Semaphore.Barrier.{Figures, PhaseOk, figures, IsBarrier}

notify-pos : (s : Semaphore) (n m : ℕ) → s.count ≡ pos n → (notify (pos m) s).count ≡ pos (n + m)
unfolding notify
notify-pos s n m c = rw c (ground arith)

module _ (threads : ℕ) where
  after_spin_Phase :
      (n : ℕ) (b : Bool) (f : Figures)
      → f.ready ≡ threads
      → PhaseOk threads (spinning n) b f
      → PhaseOk threads (after_spin n) b f
  unfolding after_spin
  after_spin_Phase zero b f full h = (h.0, omega arith)
  after_spin_Phase (suc n) b f full h = (h.0, omega arith)

  -- The spinning loop ends only when every mark is there.
  pub passes-IsBarrier :
      (s : World) (n : ℕ)
      → s.producer ≡ spinning n
      → get_ready s.sema ≡ threads
      → IsBarrier threads s
      → IsBarrier threads (record s { producer = after_spin n })
  unfolding get_ready
  passes-IsBarrier s n e full v =
      let phase : PhaseOk threads (spinning n) s.stop (figures v.permits s) =
        subst (λ p. PhaseOk threads p s.stop (figures v.permits s)) e v.phase in
      record {
        permits = v.permits;
        counted = v.counted;
        staffed = v.staffed;
        phase = after_spin_Phase n s.stop (figures v.permits s) full phase;
      }

  through :
      (u t : World)
      → ◌≡◌ {A = Option World} (some u) (some t)
      → IsBarrier threads u
      → IsBarrier threads t
  through u t e v = let same : u ≡ t = cc in subst (IsBarrier threads) same v

  -- What the place of the main thread says.
  pub at_place :
      (p : Producer) (s : World) (v : IsBarrier threads s)
      → s.producer ≡ p
      → PhaseOk threads p s.stop (figures v.permits s)
  at_place p s v e = subst (λ x. PhaseOk threads x s.stop (figures v.permits s)) e v.phase

  notified :
      (s : World) (p : Producer) (v : IsBarrier threads s)
      → PhaseOk threads p s.stop (figures (v.permits + threads) s)
      → IsBarrier threads (record s { sema = notify (pos threads) s.sema; producer = p })
  unfolding notify
  notified s p v h = record {
    permits = v.permits + threads;
    counted = notify-pos s.sema v.permits threads v.counted;
    staffed = v.staffed;
    phase = h;
  }

  cleared :
      (s : World) (p : Producer) (v : IsBarrier threads s)
      → PhaseOk threads p s.stop (record (figures v.permits s) { ready = 0 })
      → IsBarrier threads (record s { sema = clr_ready s.sema; producer = p })
  unfolding clr_ready
  cleared s p v h = record {
    permits = v.permits;
    counted = v.counted;
    staffed = v.staffed;
    phase = h;
  }

  placed :
      (s : World) (seq : ℕ) (b : Bool) (p : Producer) (v : IsBarrier threads s)
      → PhaseOk threads p b (figures v.permits s)
      → IsBarrier threads (record s { seq = seq; stop = b; producer = p })
  placed s seq b p v h = record {
    permits = v.permits;
    counted = v.counted;
    staffed = v.staffed;
    phase = h;
  }

  -- A step of the main thread.
  pub produce-IsBarrier :
      (p : Producer) (s t : World)
      → s.producer ≡ p
      → produce threads p s ≡ some t
      → IsBarrier threads s
      → IsBarrier threads t
  unfolding produce
  produce-IsBarrier (spinning n) s t e made v = cc
  produce-IsBarrier (storing n) s t e made v =
      through _ t made (placed s 0 s.stop (clearing n) v (at_place (storing n) s v e))
  produce-IsBarrier (clearing n) s t e made v =
      let h = at_place (clearing n) s v e in
      through _ t made (cleared s (notifying n) v (h.0, omega arith))
  produce-IsBarrier (notifying n) s t e made v =
      let h = at_place (notifying n) s v e in
      through _ t made (notified s (spinning n) v (h.0, omega arith, omega arith))
  produce-IsBarrier stopping s t e made v =
      let h = at_place stopping s v e in through _ t made (placed s s.seq true waking v (refl, h.1))
  produce-IsBarrier waking s t e made v =
      let h = at_place waking s v e in
      through _ t made (notified s last_storing v (h.0, omega arith, omega arith))
  produce-IsBarrier last_storing s t e made v =
      through _ t made (placed s 0 s.stop last_clearing v (at_place last_storing s v e))
  produce-IsBarrier last_clearing s t e made v =
      through _ t made (cleared s last_notifying v (at_place last_clearing s v e))
  produce-IsBarrier last_notifying s t e made v =
      let h = at_place last_notifying s v e in
      through _ t made (notified s joining v (h.0, omega arith, h.2))
  produce-IsBarrier joining s t e made v = cc
  produce-IsBarrier over s t e made v = cc

  pub joins-IsBarrier :
      (s : World)
      → s.producer ≡ joining
      → tally is_stopped s.workers ≡ threads
      → IsBarrier threads s
      → IsBarrier threads (record s { producer = over })
  joins-IsBarrier s e all v =
      let h = at_place joining s v e in placed s s.seq s.stop over v (h.0, all, h.2)
