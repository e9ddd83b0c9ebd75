-- ===== src/SimpleQ/Client.antt =====
-- The clients of one queue: threads that get, write, send, receive and return frames. A step is one
-- single operation on the platform's queues. `P_get_tryBest` is a step where no other thread moves within
-- it, and otherwise steps of its parts: attempts to dequeue, which are those of `P_get`, the making of
-- frames, and for each of them the `enqueue` into the pool.
use s4_lib_lite.Prelude.{ℕ, ◌≡◌, ◌≢◌, List, [], ◌∷◌, ◌++◌, map, Option, some}
use s4_lib_lite.SimpleQ.Platform.{Platform}
use s4_lib_lite.SimpleQ.Pool.{
  Handle, handle, to_pool, Outcome, done, thrown, stuck, Pool, malloc_particle, P_get,
  P_get_try_best, C_recv, C_get_bulk, destroy, P_send_bulk, write_frame,
}

-- The vector of `init_dataPool`: the frames that `malloc_particle` has made for a thread. They are yet to
-- be put into the pool, so they stand among the handles that will do so.
abbrev pub unpooled : Outcome (List ℕ) → List Handle
unpooled (done ps) = map (λ a. handle a to_pool) ps
unpooled thrown = []
unpooled stuck = []

-- `Split held given rest`: some of the handles are given away, in their order.
pub data Split : List Handle → List Handle → List Handle → Type 0 where
  nil : Split [] [] []
  give :
      {held given rest : List Handle} (h : Handle)
      → Split held given rest
      → Split (h ∷ held) (h ∷ given) rest
  keep :
      {held given rest : List Handle} (h : Handle)
      → Split held given rest
      → Split (h ∷ held) given (h ∷ rest)

module _ (p : Platform) (A : Type 0) where
  -- The queue, and the handles that clients hold.
  pub record System : Type 0 where
    pub pool : Pool p A
    pub held : List Handle

module _ {p : Platform} {A : Type 0} where
  abbrev pub system : Pool p A → List Handle → System p A
  system pool held = record { pool = pool; held = held }

  pub data Step (s : System p A) : System p A → Type 0 where
    gets : (h : Handle) (q : Pool p A) → P_get s.pool ≡ (some h, q) → Step s (system q (h ∷ s.held))
    tries_best :
        (fuel : ℕ) (h : Handle) (q : Pool p A)
        → P_get_try_best fuel s.pool ≡ (done (some h), q)
        → Step s (system q (h ∷ s.held))
    -- Nothing was got: it returned false or threw.
    tried_best :
        (fuel : ℕ) (r : Outcome (Option Handle)) (q : Pool p A)
        → P_get_try_best fuel s.pool ≡ (r, q)
        → ((h : Handle) → r ≢ done (some h))
        → Step s (system q s.held)
    -- `malloc_particle` within a `P_get_tryBest`.
    makes :
        Step s
          (system (malloc_particle 64 s.pool).1 (unpooled (malloc_particle 64 s.pool).0 ++ s.held))
    receives :
        (h : Handle) (q : Pool p A) → C_recv s.pool ≡ (some h, q) → Step s (system q (h ∷ s.held))
    receives_bulk :
        (n : ℕ) → Step s (system (C_get_bulk n s.pool).1 ((C_get_bulk n s.pool).0 ++ s.held))
    ends :
        (h : Handle) (rest : List Handle)
        → Split s.held (h ∷ []) rest
        → Step s (system (destroy h s.pool) rest)
    sends_bulk :
        (given rest : List Handle)
        → Split s.held given rest
        → Step s (system (P_send_bulk given s.pool) rest)
    writes :
        (h : Handle) (rest : List Handle) (v : A)
        → Split s.held (h ∷ []) rest
        → Step s (system (write_frame h.frame v s.pool) s.held)

  pub data Reach (s : System p A) : System p A → Type 0 where
    here : Reach s s
    next : {t u : System p A} → Reach s t → Step t u → Reach s u
