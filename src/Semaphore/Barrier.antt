-- ===== src/Semaphore/Barrier.antt =====
-- The semaphore as a barrier: what the main thread knows when its spinning loop ends.
use s4_lib_lite.Prelude.{ℕ, ◌+◌, ◌*◌, ◌≤◌, ◌≡◌, Bool, true, false, List, [], ◌∷◌, ◌++◌, arith}
use s4_lib_lite.Prelude.Int.{pos}
use s4_lib_lite.Semaphore.Workers.{
  Worker, entering, waiting, woken, fetching, filling, Producer, spinning, storing, clearing,
  notifying, stopping, waking, last_storing, last_clearing, last_notifying, joining, over, World,
  after_wait, tally, is_stopped,
}

abbrev pub is_waiting : Worker → ℕ
is_waiting waiting = 1
is_waiting w = 0

abbrev pub is_woken : Worker → ℕ
is_woken woken = 1
is_woken w = 0

-- In the loop, and not in `wait`.
abbrev pub is_active : Worker → ℕ
is_active entering = 1
is_active fetching = 1
is_active (filling k) = 1
is_active w = 0

pub tally-append :
    (f : Worker → ℕ) (xs ys : List Worker) → tally f (xs ++ ys) ≡ tally f xs + tally f ys
tally-append f [] ys = omega arith
tally-append f (w ∷ xs) ys = omega (arith, tally-append f xs ys)

-- The numbers on which the protocol turns: the marks, the permits, and how many workers are where.
pub record Figures : Type 0 where
  pub ready : ℕ
  pub permits : ℕ
  pub waits : ℕ
  pub wakes : ℕ
  pub acts : ℕ
  pub stops : ℕ

-- What holds of them at each place of the main thread.
abbrev pub PhaseOk : ℕ → Producer → Bool → Figures → Type 0
PhaseOk threads (spinning n) b f =
    (b ≡ false) × (f.ready + f.permits + f.wakes + f.acts ≡ threads) × (f.stops ≡ 0)
PhaseOk threads (storing n) b f = (b ≡ false) × (f.permits + f.wakes + f.acts + f.stops ≡ 0)
PhaseOk threads (clearing n) b f = (b ≡ false) × (f.permits + f.wakes + f.acts + f.stops ≡ 0)
PhaseOk threads (notifying n) b f =
    (b ≡ false) × (f.ready + f.permits + f.wakes + f.acts + f.stops ≡ 0)
PhaseOk threads stopping b f = (b ≡ false) × (f.permits + f.wakes + f.acts + f.stops ≡ 0)
PhaseOk threads waking b f = (b ≡ true) × (f.permits + f.wakes + f.acts + f.stops ≡ 0)
PhaseOk threads last_storing b f =
    (b ≡ true) × (f.permits + f.wakes + f.stops ≡ threads) × (f.acts ≡ 0)
PhaseOk threads last_clearing b f =
    (b ≡ true) × (f.permits + f.wakes + f.stops ≡ threads) × (f.acts ≡ 0)
PhaseOk threads last_notifying b f =
    (b ≡ true) × (f.permits + f.wakes + f.stops ≡ threads) × (f.acts ≡ 0)
PhaseOk threads joining b f =
    (b ≡ true) × (f.permits + f.wakes + f.stops ≡ 2 * threads) × (f.acts ≡ 0)
PhaseOk threads over b f = (b ≡ true) × (f.stops ≡ threads) × (f.acts ≡ 0)

abbrev pub figures : ℕ → World → Figures
figures permits s = record {
  ready = s.sema.ready;
  permits = permits;
  waits = tally is_waiting s.workers;
  wakes = tally is_woken s.workers;
  acts = tally is_active s.workers;
  stops = tally is_stopped s.workers;
}

abbrev pub staff : Figures → ℕ
staff f = f.waits + f.wakes + f.acts + f.stops

pub record IsBarrier (threads : ℕ) (s : World) : Type 0 where
  pub permits : ℕ
  pub counted : s.sema.count ≡ pos permits
  pub staffed : staff (figures permits s) ≡ threads
  pub phase : PhaseOk threads s.producer s.stop (figures permits s)

module _ (threads : ℕ) where
  -- `setReady`: one worker less in the loop, one mark and one waiting worker more.
  pub marks_Phase :
      (p : Producer) (b : Bool) (f g : Figures)
      → (g.ready ≡ f.ready + 1)
        × (g.permits ≡ f.permits)
        × (g.wakes ≡ f.wakes)
        × (f.acts ≡ g.acts + 1)
        × (g.stops ≡ f.stops)
      → PhaseOk threads p b f
      → PhaseOk threads p b g
  marks_Phase (spinning n) b f g e h = (h.0, omega arith, omega arith)
  marks_Phase p b f g e h = ground arith

  -- `wait` returns: one permit less, one woken worker more.
  pub wakes_Phase :
      (p : Producer) (b : Bool) (f g : Figures)
      → (g.ready ≡ f.ready)
        × (f.permits ≡ g.permits + 1)
        × (g.wakes ≡ f.wakes + 1)
        × (g.acts ≡ f.acts)
        × (g.stops ≡ f.stops)
      → f.stops + 1 ≤ threads
      → PhaseOk threads p b f
      → PhaseOk threads p b g
  wakes_Phase (spinning n) b f g e o h = (h.0, omega arith, omega arith)
  wakes_Phase over b f g e o h = absurd (omega arith)
  wakes_Phase p b f g e o h = ground arith

  -- A woken worker goes into the loop, or to its end.
  pub tests_Phase :
      (p : Producer) (b : Bool) (f g : Figures)
      → (g.ready ≡ f.ready)
        × (g.permits ≡ f.permits)
        × (f.wakes ≡ g.wakes + 1)
        × (g.acts ≡ f.acts + is_active (after_wait b))
        × (g.stops ≡ f.stops + is_stopped (after_wait b))
      → f.wakes + f.stops ≤ threads
      → PhaseOk threads p b f
      → PhaseOk threads p b g
  unfolding after_wait
  tests_Phase (spinning n) true f g e o h = absurd (ground arith)
  tests_Phase p true f g e o h = ground arith
  tests_Phase (spinning n) false f g e o h = (h.0, omega arith, omega arith)
  tests_Phase p false f g e o h = ground arith

  -- A worker in the loop stays in it.
  pub stays_Phase :
      (p : Producer) (b : Bool) (f g : Figures)
      → (g.ready ≡ f.ready)
        × (g.permits ≡ f.permits)
        × (g.wakes ≡ f.wakes)
        × (g.acts ≡ f.acts)
        × (g.stops ≡ f.stops)
      → PhaseOk threads p b f
      → PhaseOk threads p b g
  stays_Phase (spinning n) b f g e h = (h.0, omega arith, omega arith)
  stays_Phase p b f g e h = ground arith
