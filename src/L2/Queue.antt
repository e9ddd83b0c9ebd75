-- ===== src/L2/Queue.antt =====
-- The queue of `SimpleQ` as the receiver uses it: get a frame, write it, and let the handle end.
use s4_lib_lite.Prelude.{
  ℕ, zero, suc, ◌+◌, ◌≡◌, ◌≢◌, refl, ap, sym, ◌∙◌, List, Option, none, some, Bool, true, false,
  ==_refl, arith, inl, inr, Option-cases, ◌≤◌, leb, if◌then◌else◌, Bool-cases,
}
use s4_lib_lite.SimpleQ.Platform.{Platform, IsLawful, one_if}
use s4_lib_lite.SimpleQ.Pool.{
  Handle, to_ptoc, Outcome, done, thrown, stuck, Pool, P_get_try_best, init_data_pool, fill_pool,
  after_init, malloc_particle, destroy, give_back, write_frame,
}
use s4_lib_lite.SimpleQ.Making.{malloc_particle-Makes}
use s4_lib_lite.L2.Wire.{Info, Payload}
use s4_lib_lite.L2.Receiver.{Sink}

-- What a frame of the queue of the receiver holds.
pub record Frame : Type 0 where
  pub info : Info
  pub payload : Payload

module _ {p : Platform} where
  -- The frame that is written and sent, if `memcpy` stays in its buffer; otherwise the null pointer, the
  -- exception, or `data_len` bytes that are copied into a buffer of fewer.
  unfoldable pub publish : Frame → Outcome (Option Handle) × Pool p Frame → Option (Pool p Frame)
  publish f (done (some h), s) =
      if leb f.info.data_len s.page_size then some (destroy h (write_frame h.frame f s)) else none
  publish f (done none, s) = none
  publish f (thrown, s) = none
  publish f (stuck, s) = none

-- Two calls of `P_get_tryBest` are enough (`SimpleQ.Growth`).
unfoldable pub send_frame : (p : Platform) → Info → Payload → Pool p Frame → Option (Pool p Frame)
unfolding publish
send_frame p i v s = publish (record { info = i; payload = v }) (P_get_try_best 2 s)

abbrev pub pool_sink : Platform → Sink
pool_sink p = record { Queue = Pool p Frame; send = send_frame p }

module _ {p : Platform} {A : Type 0} where
  -- What getting a frame leaves alone, and where the frame will go.
  record Fetches (s : Pool p A) (r : Outcome (Option Handle) × Pool p A) : Type 0 where
    ptoc_same : r.1.data_ptoc ≡ s.data_ptoc
    size_same : r.1.page_size ≡ s.page_size
    to_consumer : (h : Handle) → r.0 ≡ done (some h) → h.host ≡ to_ptoc

  fill_pool-ptoc : (r : Outcome (List ℕ) × Pool p A) → (fill_pool r).1.data_ptoc ≡ r.1.data_ptoc
  unfolding fill_pool
  fill_pool-ptoc (done ps, s) = refl
  fill_pool-ptoc (thrown, s) = refl
  fill_pool-ptoc (stuck, s) = refl

  init_data_pool-ptoc : (n : ℕ) (s : Pool p A) → (init_data_pool n s).1.data_ptoc ≡ s.data_ptoc
  unfolding init_data_pool
  init_data_pool-ptoc n s =
      fill_pool-ptoc (malloc_particle n s) ∙ (malloc_particle-Makes n s).ptoc_same

  fill_pool-size : (r : Outcome (List ℕ) × Pool p A) → (fill_pool r).1.page_size ≡ r.1.page_size
  unfolding fill_pool
  fill_pool-size (done ps, s) = refl
  fill_pool-size (thrown, s) = refl
  fill_pool-size (stuck, s) = refl

  init_data_pool-size : (n : ℕ) (s : Pool p A) → (init_data_pool n s).1.page_size ≡ s.page_size
  unfolding init_data_pool
  init_data_pool-size n s =
      fill_pool-size (malloc_particle n s) ∙ (malloc_particle-Makes n s).size_same

  after_init-Fetches :
      (s : Pool p A) (again : Pool p A → Outcome (Option Handle) × Pool p A)
      (r : Outcome Bool × Pool p A)
      → ((t : Pool p A) → Fetches t (again t))
      → r.1.data_ptoc ≡ s.data_ptoc
      → r.1.page_size ≡ s.page_size
      → Fetches s (after_init again r)
  unfolding after_init
  after_init-Fetches s again (done true, t) f e z = record {
    ptoc_same = (f t).ptoc_same ∙ e;
    size_same = (f t).size_same ∙ z;
    to_consumer = (f t).to_consumer;
  }
  after_init-Fetches s again (done false, t) f e z = record {
    ptoc_same = e;
    size_same = z;
    to_consumer = λ h x. cc;
  }
  after_init-Fetches s again (thrown, t) f e z = record {
    ptoc_same = e;
    size_same = z;
    to_consumer = λ h x. cc;
  }
  after_init-Fetches s again (stuck, t) f e z = record {
    ptoc_same = e;
    size_same = z;
    to_consumer = λ h x. cc;
  }

  P_get_try_best-Fetches : (fuel : ℕ) (s : Pool p A) → Fetches s (P_get_try_best fuel s)
  unfolding P_get_try_best
  P_get_try_best-Fetches zero s = record {
    ptoc_same = refl;
    size_same = refl;
    to_consumer = λ h x. cc;
  }
  P_get_try_best-Fetches (suc fuel) s = elim (Option-cases (p.dequeue s.data_pool)) [
    | inl e ↦
        rw (e, P_get_try_best)
          (after_init-Fetches s (λ t. P_get_try_best fuel t) _ (λ t. P_get_try_best-Fetches fuel t)
            (init_data_pool-ptoc 64 s) (init_data_pool-size 64 s))
    | inr ((a, q), e) ↦
        rw (e, P_get_try_best)
          (record { ptoc_same = refl; size_same = refl; to_consumer = λ h x. ground arith })
  ]

destroy_to_ptoc :
    {p : Platform} {A : Type 0} (h : Handle) (u : Pool p A) (d : p.Queue)
    → h.host ≡ to_ptoc
    → p.enqueue u.data_ptoc h.frame ≡ some d
    → destroy h u ≡ record u { data_ptoc = d }
unfolding destroy
destroy_to_ptoc h u d e room = ap (λ x. give_back x h.frame u) e ∙ rw (room, give_back)

publish-succeeds :
    {p : Platform} (f : Frame) (h : Handle) (r : Outcome (Option Handle) × Pool p Frame)
    → r.0 ≡ done (some h)
    → f.info.data_len ≤ r.1.page_size
    → (q : Pool p Frame) × (publish f r ≡ some q)
unfolding publish
publish-succeeds f h (done (some x), t) e fits =
    let small : leb f.info.data_len t.page_size ≡ true = ground arith in
    (destroy x (write_frame x.frame f t), rw small refl)
publish-succeeds f h (done none, t) e fits = cc
publish-succeeds f h (thrown, t) e fits = cc
publish-succeeds f h (stuck, t) e fits = cc

module _ {p : Platform} (laws : IsLawful p) where
  -- Whenever sending succeeds and the queue takes what it is given, one frame more is in the queue
  -- to the consumers, no other has come or gone, and the frame holds what was sent.
  publish_lem :
      (f : Frame) (s q : Pool p Frame) (r : Outcome (Option Handle) × Pool p Frame)
      → ((x : ℕ) (c : p.Queue) → p.enqueue c x ≢ none)
      → Fetches s r
      → publish f r ≡ some q
      → (a : ℕ) × (q.frames a ≡ f)
        × ((b : ℕ) → laws.holds b q.data_ptoc ≡ laws.holds b s.data_ptoc + one_if b a)
  unfolding publish destroy write_frame
  publish_lem f s q (done (some h), t) total g e =
      elim (Bool-cases (leb f.info.data_len t.page_size)) [
        | inr large ↦ cc (rw (large, publish) at e)
        | inl fits ↦ elim (Option-cases (p.enqueue t.data_ptoc h.frame)) [
          | inl full ↦ absurd (total h.frame t.data_ptoc full)
          | inr (d, room) ↦
              let u = write_frame h.frame f t in
              let end : destroy h u ≡ record u { data_ptoc = d } =
                destroy_to_ptoc h u d (g.to_consumer h refl) room in
              let sent : ◌≡◌ {A = Option (Pool p Frame)} (some (destroy h u)) (some q) =
                rw (fits, publish) at e in
              let same : record u { data_ptoc = d } ≡ q = cc in
              (
                h.frame,
                ap (λ x. x.frames h.frame) (sym same) ∙ rw (==_refl h.frame),
                λ b. omega (
                  arith,
                  ap (λ x. laws.holds b x.data_ptoc) same,
                  laws.holds-enqueue b h.frame t.data_ptoc d room,
                  ap (laws.holds b) g.ptoc_same,
                ),
              )
        ]
      ]
  publish_lem f s q (done none, t) total g e = cc
  publish_lem f s q (thrown, t) total g e = cc
  publish_lem f s q (stuck, t) total g e = cc

  -- On a lawful platform whose queues take whatever they are given: where `P_get_tryBest` gets a frame,
  -- from the pool or a new one, and the `data_len` bytes fit into a page, `send_frame` succeeds,
  -- exactly one frame is added to the queue to the consumers, and it holds what was sent. The call is
  -- taken alone, without steps of other threads within it.
  pub send_frame_lem :
      (i : Info) (v : Payload) (s : Pool p Frame) (h : Handle)
      → ((x : ℕ) (c : p.Queue) → p.enqueue c x ≢ none)
      → (P_get_try_best 2 s).0 ≡ done (some h)
      → i.data_len ≤ s.page_size
      → (q : Pool p Frame) × (send_frame p i v s ≡ some q)
        × (a : ℕ) × (q.frames a ≡ record { info = i; payload = v })
        × ((b : ℕ) → laws.holds b q.data_ptoc ≡ laws.holds b s.data_ptoc + one_if b a)
  unfolding send_frame
  send_frame_lem i v s h total got fits =
      let f : Frame = record { info = i; payload = v } in
      let r = P_get_try_best 2 s in
      let fetched = P_get_try_best-Fetches 2 s in
      let (q, e) = publish-succeeds f h r got (omega (arith, fetched.size_same)) in
      let sent = publish_lem f s q r total fetched e in (q, e, sent.0, sent.1, sent.2)
