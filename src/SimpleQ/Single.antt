-- ===== src/SimpleQ/Single.antt =====
-- include/queue/simpleQ_spmc_ar.h: `simpleQ_spmc_ar_t`, which has one producer and takes its calls to
-- the platform's queues by tokens. What it does not override is that of SimpleQ.Pool.
use s4_lib_lite.Prelude.{
  ℕ, zero, suc, ◌≡◌, Bool, true, false, List, [], ◌∷◌, ◌++◌, map, Option, none, some,
}
use s4_lib_lite.SimpleQ.Platform.{Platform}
use s4_lib_lite.SimpleQ.Pool.{
  Handle, handle, to_pool, to_ptoc, Outcome, done, thrown, stuck, Pool, frames_of, init_data_pool,
  malloc_particle, C_recv, C_get_bulk,
}

-- The calls by `ptok_dataPtoC` and by `ctok_dataPool`; a token belongs to its queue.
pub record Tokens (p : Platform) : Type 0 where
  pub enqueue_by : p.Queue → ℕ → Option p.Queue
  pub dequeue_by : p.Queue → Option (ℕ × p.Queue)

-- `queParticle_ar_t` with its `_pPtok`: the token of the producer, or none.
pub record TokenHandle : Type 0 where
  pub inner : Handle
  pub has_token : Bool

-- The constructor with a token, and the one without.
abbrev pub with_token : Handle → TokenHandle
with_token h = record { inner = h; has_token = true }

abbrev pub without_token : Handle → TokenHandle
without_token h = record { inner = h; has_token = false }

module _ (p : Platform) (A : Type 0) where
  -- A queue, the handles that its producer and consumers hold, and what has been sent to it and
  -- received from it, each in its order.
  pub record Run : Type 0 where
    pub pool : Pool p A
    pub held : List TokenHandle
    pub sent : List ℕ
    pub received : List ℕ

abbrev pub run :
    {p : Platform} {A : Type 0} → Pool p A → List TokenHandle → List ℕ → List ℕ → Run p A
run pool held sent received = record { pool = pool; held = held; sent = sent; received = received }

-- A call that got a handle or none.
abbrev pub hold : Option TokenHandle → List TokenHandle → List TokenHandle
hold none held = held
hold (some h) held = h ∷ held

abbrev pub got : Outcome (Option TokenHandle) → Option TokenHandle
got (done o) = o
got thrown = none
got stuck = none

-- A handle that ends sends its frame, if it was the producer's.
abbrev pub sent_by : Handle → List ℕ → List ℕ
sent_by h sent = elim h.host [ to_ptoc ↦ sent ++ h.frame ∷ [] | to_pool ↦ sent ]

module _ {p : Platform} {A : Type 0} (k : Tokens p) where
  -- `P_get` and `P_get_timeout`
  unfoldable pub single_get : Pool p A → Option TokenHandle × Pool p A
  single_get s = elim (k.dequeue_by s.data_pool) [
    | none ↦ (none, s)
    | some (a, q) ↦ (some (with_token (handle a to_ptoc)), record s { data_pool = q })
  ]

  -- What `P_get_tryBest` does after `init_dataPool`.
  unfoldable pub single_after_init :
      (Pool p A → Outcome (Option TokenHandle) × Pool p A)
      → Outcome Bool × Pool p A
      → Outcome (Option TokenHandle) × Pool p A
  single_after_init again (done true, s) = again s
  single_after_init again (done false, s) = (done none, s)
  single_after_init again (thrown, s) = (thrown, s)
  single_after_init again (stuck, s) = (stuck, s)

  -- `P_get_tryBest`; `fuel` bounds the calls of itself.
  unfoldable pub single_try_best : ℕ → Pool p A → Outcome (Option TokenHandle) × Pool p A
  unfolding init_data_pool single_after_init
  single_try_best zero s = (stuck, s)
  single_try_best (suc fuel) s = elim (k.dequeue_by s.data_pool) [
    | some (a, q) ↦ (done (some (with_token (handle a to_ptoc))), record s { data_pool = q })
    | none ↦ single_after_init (λ t. single_try_best fuel t) (init_data_pool 64 s)
  ]

  -- `enqueue` without a token, to the queue of the handle.
  unfoldable pub plain_destroy : Handle → Pool p A → Option (Pool p A)
  plain_destroy h s = elim h.host [
    | to_ptoc ↦ elim (p.enqueue s.data_ptoc h.frame) [
      | none ↦ none
      | some q ↦ some (record s { data_ptoc = q })
    ]
    | to_pool ↦ elim (p.enqueue s.data_pool h.frame) [
      | none ↦ none
      | some q ↦ some (record s { data_pool = q })
    ]
  ]

  -- `enqueue` with the token, which is one of the queue to the consumers; for another queue it is
  -- undefined.
  unfoldable pub token_destroy : Handle → Pool p A → Option (Pool p A)
  token_destroy h s = elim h.host [
    | to_ptoc ↦ elim (k.enqueue_by s.data_ptoc h.frame) [
      | none ↦ none
      | some q ↦ some (record s { data_ptoc = q })
    ]
    | to_pool ↦ none
  ]

  -- `~queParticle_ar_t`: by the token, if the handle has it. Nothing: the queue did not take the frame.
  unfoldable pub single_destroy : TokenHandle → Pool p A → Option (Pool p A)
  unfolding plain_destroy token_destroy
  single_destroy h s = elim h.has_token [
    | true ↦ token_destroy h.inner s
    | false ↦ plain_destroy h.inner s
  ]

  -- The calls of the producer and of the consumers, who may do theirs between the parts of
  -- `P_get_tryBest`: `gets`, `allocates` and `pools`.
  pub data SingleStep (s : Run p A) : Run p A → Type 0 where
    gets :
        SingleStep s
          (run (single_get s.pool).1 (hold (single_get s.pool).0 s.held) s.sent s.received)
    tries_best :
        (fuel : ℕ)
        → SingleStep s (
            run
              (single_try_best fuel s.pool).1
              (hold (got (single_try_best fuel s.pool).0) s.held)
              s.sent
              s.received)
    allocates :
        (num : ℕ) → SingleStep s (run (malloc_particle num s.pool).1 s.held s.sent s.received)
    pools :
        (a : ℕ) (q : p.Queue)
        → p.enqueue s.pool.data_pool a ≡ some q
        → SingleStep s (run (record s.pool { data_pool = q }) s.held s.sent s.received)
    ends :
        (xs ys : List TokenHandle) (h : TokenHandle) (q : Pool p A)
        → s.held ≡ xs ++ h ∷ ys
        → single_destroy h s.pool ≡ some q
        → SingleStep s (run q (xs ++ ys) (sent_by h.inner s.sent) s.received)
    loses :
        (xs ys : List TokenHandle) (h : TokenHandle)
        → s.held ≡ xs ++ h ∷ ys
        → single_destroy h s.pool ≡ none
        → SingleStep s (run s.pool (xs ++ ys) s.sent s.received)
    receives :
        (h : Handle) (q : Pool p A)
        → C_recv s.pool ≡ (some h, q)
        → SingleStep s (run q (without_token h ∷ s.held) s.sent (s.received ++ h.frame ∷ []))
    receives_bulk :
        (n : ℕ)
        → SingleStep s (
            run
              (C_get_bulk n s.pool).1
              (map without_token (C_get_bulk n s.pool).0 ++ s.held)
              s.sent
              (s.received ++ frames_of (C_get_bulk n s.pool).0))

  pub data SingleReach (s : Run p A) : Run p A → Type 0 where
    here : SingleReach s s
    next : {t u : Run p A} → SingleReach s t → SingleStep t u → SingleReach s u
