-- ===== src/SimpleQ/Pool.antt =====
-- include/queue/simpleQ_mpmc_ar.h: `simpleQ_mpmc_ar_t`, one function to a method. A frame
-- (`queParticle_t`) is a number; `frames` gives what it holds, its `extInfo` and buffer, and
-- `buffers` the address of its buffer, the newest first.
use s4_lib_lite.Prelude.{
  ℕ, zero, suc, ◌+◌, ◌*◌, ◌%◌, ◌^◌, Bool, true, false, not, List, [], ◌∷◌, ◌++◌, map, Option, none,
  some, length, ◌==◌, if◌then◌else◌,
}
use s4_lib_lite.Prelude.Decimal.{u32_mod}
use s4_lib_lite.SimpleQ.Platform.{Platform}

-- The queue that a handle gives its frame back to (`pHostQ`).
pub data Host : Type 0 where
  to_pool to_ptoc : Host

-- `queParticle_ar_t`: a frame in the hands of a client. Only `P_send_bulk` takes the frame and
-- the queue away from a handle, and it ends that handle.
pub record Handle : Type 0 where
  pub frame : ℕ
  pub host : Host

abbrev pub handle : ℕ → Host → Handle
handle a h = record { frame = a; host = h }

-- What a method returns: its value, an exception, or no end within the fuel.
pub data Outcome {ℓ} (A : Type ℓ) : Type ℓ where
  done : A → Outcome A
  thrown stuck : Outcome A

-- How many frames the loop of `init_dataPool` puts into the pool, up to the first failure.
unfoldable pub enqueue_each : (p : Platform) → List ℕ → ℕ → p.Queue → ℕ × p.Queue
enqueue_each p [] i q = (i, q)
enqueue_each p (a ∷ rest) i q = elim (p.enqueue q a) [
  | none ↦ (i, q)
  | some r ↦ enqueue_each p rest (i + 1) r
]

abbrev pub frames_of : List Handle → List ℕ
frames_of = map (λ h. h.frame)

module _ (p : Platform) (A : Type 0) where
  pub record Pool : Type 0 where
    pub page_size : ℕ
    pub all_memalign : Bool
    pub depth : ℕ
    pub data_pool : p.Queue
    pub data_ptoc : p.Queue
    pub buffers : List ℕ
    pub frames : ℕ → A
    pub mem_hoster : List (ℕ × ℕ)

module _ {p : Platform} {A : Type 0} where
  -- `shared_array(len)` throws when there is no memory.
  unfoldable pub new_array : ℕ → Pool p A → Option (ℕ × Pool p A)
  new_array size s = elim (p.alloc size (length s.mem_hoster)) [
    | none ↦ none
    | some base ↦ some (base, record s { mem_hoster = (base, size) ∷ s.mem_hoster })
  ]

  -- `std::make_shared<queParticle_t>(buffer)`
  unfoldable pub new_particle : ℕ → Pool p A → ℕ × Pool p A
  new_particle buffer s = (length s.buffers, record s { buffers = buffer ∷ s.buffers })

  abbrev pub grow_depth : ℕ → Pool p A → Pool p A
  grow_depth n s = record s { depth = (s.depth + n) % u32_mod }

  -- The loop of `malloc_particle` that gives every frame a block of its own; the frames made so
  -- far are `made`.
  unfoldable pub make_aligned : ℕ → List ℕ → Pool p A → Outcome (List ℕ) × Pool p A
  unfolding new_array new_particle
  make_aligned zero made s = (done made, s)
  make_aligned (suc n) made s = elim (new_array s.page_size s) [
    | none ↦ (thrown, s)
    | some (base, t) ↦
        let made_one = new_particle base t in
        make_aligned n (made ++ made_one.0 ∷ []) (grow_depth 1 made_one.1)
  ]

  -- The loop that cuts one block into frames, from the frame `n` of the block on.
  unfoldable pub make_carved : ℕ → ℕ → ℕ → List ℕ → Pool p A → List ℕ × Pool p A
  unfolding new_particle
  make_carved zero n base made s = (made, s)
  make_carved (suc left) n base made s =
      let made_one = new_particle (base + n * s.page_size) s in
      make_carved left (n + 1) base (made ++ made_one.0 ∷ []) made_one.1

  -- One block for all frames: the other branch of `malloc_particle`.
  unfoldable pub malloc_carved : ℕ → Pool p A → Outcome (List ℕ) × Pool p A
  unfolding make_carved new_array
  malloc_carved num s = elim (new_array ((s.page_size * num) % 2 ^ 64) s) [
    | none ↦ (thrown, s)
    | some (base, t) ↦
        let made = make_carved num 0 base [] t in (done made.0, grow_depth num made.1)
  ]

  -- The `_depth += num` that both branches come to.
  unfoldable pub count_depth : ℕ → Outcome (List ℕ) × Pool p A → Outcome (List ℕ) × Pool p A
  count_depth num (done ps, s) = (done ps, grow_depth num s)
  count_depth num (thrown, s) = (thrown, s)
  count_depth num (stuck, s) = (stuck, s)

  -- The frames made, which is the vector that `malloc_particle` fills; where it returns, it
  -- returns true.
  unfoldable pub malloc_particle : ℕ → Pool p A → Outcome (List ℕ) × Pool p A
  unfolding make_aligned malloc_carved count_depth
  malloc_particle num s =
      if num == 0
      then (done [], s)
      else count_depth num (if s.all_memalign then make_aligned num [] s else malloc_carved num s)

  -- The part of `init_dataPool` that follows `malloc_particle`.
  unfoldable pub fill_pool : Outcome (List ℕ) × Pool p A → Outcome Bool × Pool p A
  unfolding enqueue_each
  fill_pool (done ps, s) =
      let put = enqueue_each p ps 0 s.data_pool in
      (done (not (put.0 == 0)), record s { data_pool = put.1 })
  fill_pool (thrown, s) = (thrown, s)
  fill_pool (stuck, s) = (stuck, s)

  unfoldable pub init_data_pool : ℕ → Pool p A → Outcome Bool × Pool p A
  unfolding malloc_particle fill_pool
  init_data_pool num s = fill_pool (malloc_particle num s)

  abbrev pub fresh : ℕ → Bool → (ℕ → A) → Pool p A
  fresh page_size all_memalign frames = record {
    page_size = page_size;
    all_memalign = all_memalign;
    depth = 0;
    data_pool = p.empty;
    data_ptoc = p.empty;
    buffers = [];
    frames = frames;
    mem_hoster = [];
  }

  -- The end of the constructor: it throws if nothing was put into the pool.
  unfoldable pub started : Outcome Bool × Pool p A → Outcome (Pool p A)
  started (done true, s) = done s
  started (done false, s) = thrown
  started (thrown, s) = thrown
  started (stuck, s) = stuck

  -- The constructor; `frames` is what the memory holds.
  unfoldable pub construct : ℕ → ℕ → Bool → (ℕ → A) → Outcome (Pool p A)
  unfolding init_data_pool started
  construct init_depth page_size all_memalign frames =
      started (init_data_pool init_depth (fresh page_size all_memalign frames))

  -- `P_get` and `P_get_timeout`: no handle means that the one still waits, and that the other
  -- returns false.
  unfoldable pub P_get : Pool p A → Option Handle × Pool p A
  P_get s = elim (p.dequeue s.data_pool) [
    | none ↦ (none, s)
    | some (a, q) ↦ (some (handle a to_ptoc), record s { data_pool = q })
  ]

  -- What `P_get_tryBest` does after `init_dataPool`: it calls itself again or returns false.
  unfoldable pub after_init :
      (Pool p A → Outcome (Option Handle) × Pool p A)
      → Outcome Bool × Pool p A
      → Outcome (Option Handle) × Pool p A
  after_init again (done true, s) = again s
  after_init again (done false, s) = (done none, s)
  after_init again (thrown, s) = (thrown, s)
  after_init again (stuck, s) = (stuck, s)

  -- No handle means that it returns false; `fuel` bounds the calls of itself. Other threads do
  -- nothing between its parts; SimpleQ.Client has those as steps too.
  unfoldable pub P_get_try_best : ℕ → Pool p A → Outcome (Option Handle) × Pool p A
  unfolding init_data_pool after_init
  P_get_try_best zero s = (stuck, s)
  P_get_try_best (suc fuel) s = elim (p.dequeue s.data_pool) [
    | some (a, q) ↦ (done (some (handle a to_ptoc)), record s { data_pool = q })
    | none ↦ after_init (λ t. P_get_try_best fuel t) (init_data_pool 64 s)
  ]

  -- `C_recv`, `C_recv_try` and `C_recv_timeout`.
  unfoldable pub C_recv : Pool p A → Option Handle × Pool p A
  C_recv s = elim (p.dequeue s.data_ptoc) [
    | none ↦ (none, s)
    | some (a, q) ↦ (some (handle a to_pool), record s { data_ptoc = q })
  ]

  -- No handles mean that it returns false.
  unfoldable pub C_get_bulk : ℕ → Pool p A → List Handle × Pool p A
  C_get_bulk max_nb s =
      let got = p.dequeue_bulk s.data_ptoc max_nb in
      (map (λ a. handle a to_pool) got.0, record s { data_ptoc = got.1 })

  unfoldable pub give_back : Host → ℕ → Pool p A → Pool p A
  give_back to_pool a s = elim (p.enqueue s.data_pool a) [
    | none ↦ s
    | some q ↦ record s { data_pool = q }
  ]
  give_back to_ptoc a s = elim (p.enqueue s.data_ptoc a) [
    | none ↦ s
    | some q ↦ record s { data_ptoc = q }
  ]

  -- `~queParticle_ar_t`, which `P_send` and `C_return` bring about. The frame is lost if the queue
  -- cannot take it.
  unfoldable pub destroy : Handle → Pool p A → Pool p A
  unfolding give_back
  destroy h s = give_back h.host h.frame s

  -- The handles keep neither frame nor queue, so their destructors do nothing.
  unfoldable pub P_send_bulk : List Handle → Pool p A → Pool p A
  P_send_bulk hs s = elim (p.enqueue_bulk s.data_ptoc (frames_of hs)) [
    | none ↦ s
    | some q ↦ record s { data_ptoc = q }
  ]

  -- A client writes to the frame of its handle.
  unfoldable pub write_frame : ℕ → A → Pool p A → Pool p A
  write_frame a v s = record s { frames = λ b. if a == b then v else s.frames b }
