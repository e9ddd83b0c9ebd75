-- ===== src/SimpleQ/Ownership.antt =====
-- Every frame has at most one owner: the pool, the queue of sent frames, or one client.
use s4_lib_lite.Prelude.{
  ℕ, ◌+◌, ◌≤◌, ◌≡◌, refl, ◌≢◌, subst, List, [], ◌∷◌, ◌++◌, Option, none, some, Bool, true, false,
  length, arith, Option-cases, ap, inl, inr,
}
use s4_lib_lite.SimpleQ.Platform.{Platform, IsLawful, one_if, count}
use s4_lib_lite.SimpleQ.Pool.{
  Handle, Host, to_pool, to_ptoc, Outcome, done, thrown, stuck, Pool, init_data_pool, started,
  fresh, construct, malloc_particle, P_get_try_best, C_get_bulk, destroy, give_back, frames_of,
  P_send_bulk, write_frame,
}
use s4_lib_lite.SimpleQ.Client.{
  system, Split, nil, give, keep, System, Step, gets, tries_best, tried_best, unpooled, makes,
  receives, receives_bulk, ends, sends_bulk, writes, Reach, here, next,
}
use s4_lib_lite.SimpleQ.Making.{count-append}
use s4_lib_lite.SimpleQ.Hands.{
  Hands, spread, to_list, handed, P_get-Hands, init_data_pool-Hands, C_recv-Hands, C_get_bulk-Hands,
  malloc_particle-Hands, P_get_try_best-Hands,
}

pub Split-count :
    {held given rest : List Handle} (a : ℕ)
    → Split held given rest
    → count a (frames_of held) ≡ count a (frames_of given) + count a (frames_of rest)
Split-count a nil = refl
Split-count a (give h sp) = omega (arith, Split-count a sp)
Split-count a (keep h sp) = omega (arith, Split-count a sp)

pub frames_of-append : (xs ys : List Handle) → frames_of (xs ++ ys) ≡ frames_of xs ++ frames_of ys
frames_of-append [] ys = refl
frames_of-append (x ∷ xs) ys = ap (◌∷◌ x.frame) (frames_of-append xs ys)

pub none_handed : (r : Outcome (Option Handle)) → ((h : Handle) → r ≢ done (some h)) → handed r ≡ []
none_handed (done none) n = refl
none_handed (done (some h)) n = absurd (n h refl)
none_handed thrown n = refl
none_handed stuck n = refl

pub started-eq :
    {p : Platform} {A : Type 0} (r : Outcome Bool × Pool p A) (q : Pool p A)
    → started r ≡ done q
    → r.1 ≡ q
unfolding started
started-eq (done true, s) q e = cc
started-eq (done false, s) q e = cc
started-eq (thrown, s) q e = cc
started-eq (stuck, s) q e = cc

module _ {p : Platform} {A : Type 0} (laws : IsLawful p) where
  open laws use {holds, holds-enqueue, holds-enqueue_bulk}

  -- How many owners a frame has: places in a queue, and handles of clients.
  abbrev pub owners : ℕ → System p A → ℕ
  owners a s = spread laws a s.pool + count a (frames_of s.held)

  -- No frame has two owners, and a number that is no frame's yet has none.
  pub record IsOwned (s : System p A) : Type 0 where
    pub once : (a : ℕ) → owners a s ≤ 1
    pub made_first : (a : ℕ) → length s.pool.buffers ≤ a → owners a s ≡ 0

  -- A call whose handles go to its client.
  Hands-IsOwned :
      (s : System p A) (q : Pool p A) (hs : List Handle)
      → Hands laws s.pool q hs
      → IsOwned s
      → IsOwned (system q (hs ++ s.held))
  Hands-IsOwned s q hs m v = record {
    once = λ a. ground (
      arith,
      m.frugal a,
      m.grown,
      v.once a,
      v.made_first a,
      frames_of-append hs s.held,
      count-append a (frames_of hs) (frames_of s.held),
    );
    made_first = λ a h. ground (
      arith,
      m.frugal a,
      m.grown,
      v.made_first a,
      frames_of-append hs s.held,
      count-append a (frames_of hs) (frames_of s.held),
    );
  }

  -- A call to which the client gives handles up.
  takes-IsOwned :
      (s : System p A) (q : Pool p A) (given rest : List Handle)
      → length q.buffers ≡ length s.pool.buffers
      → ((a : ℕ) → spread laws a q ≤ spread laws a s.pool + count a (frames_of given))
      → Split s.held given rest
      → IsOwned s
      → IsOwned (system q rest)
  takes-IsOwned s q given rest same m sp v = record {
    once = λ a. omega (arith, m a, Split-count a sp, v.once a);
    made_first = λ a h. omega (arith, m a, Split-count a sp, v.made_first a (omega arith));
  }

  give_back_lem :
      (h : Host) (x : ℕ) (s : Pool p A)
      → (length (give_back h x s).buffers ≡ length s.buffers)
        × ((a : ℕ) → spread laws a (give_back h x s) ≤ spread laws a s + one_if a x)
  unfolding give_back
  give_back_lem to_pool x s = elim (Option-cases (p.enqueue s.data_pool x)) [
    | inl e ↦ rw (e, give_back) (refl, λ a. omega arith)
    | inr (q, e) ↦ rw (e, give_back) (refl, λ a. omega (arith, holds-enqueue a x s.data_pool q e))
  ]
  give_back_lem to_ptoc x s = elim (Option-cases (p.enqueue s.data_ptoc x)) [
    | inl e ↦ rw (e, give_back) (refl, λ a. omega arith)
    | inr (q, e) ↦ rw (e, give_back) (refl, λ a. omega (arith, holds-enqueue a x s.data_ptoc q e))
  ]

  destroy_lem :
      (h : Handle) (s : Pool p A)
      → (length (destroy h s).buffers ≡ length s.buffers)
        × ((a : ℕ) → spread laws a (destroy h s) ≤ spread laws a s + one_if a h.frame)
  unfolding destroy
  destroy_lem h s = give_back_lem h.host h.frame s

  P_send_bulk_lem :
      (hs : List Handle) (s : Pool p A)
      → (length (P_send_bulk hs s).buffers ≡ length s.buffers)
        × ((a : ℕ) → spread laws a (P_send_bulk hs s) ≤ spread laws a s + count a (frames_of hs))
  unfolding P_send_bulk
  P_send_bulk_lem hs s = elim (Option-cases (p.enqueue_bulk s.data_ptoc (frames_of hs))) [
    | inl e ↦ rw (e, P_send_bulk) (refl, λ a. omega arith)
    | inr (q, e) ↦
        rw (e, P_send_bulk)
          (refl, λ a. omega (arith, holds-enqueue_bulk a (frames_of hs) s.data_ptoc q e))
  ]

  writes-IsOwned :
      (s : System p A) (a : ℕ) (x : A)
      → IsOwned s
      → IsOwned (system (write_frame a x s.pool) s.held)
  unfolding write_frame
  writes-IsOwned s a x v = record { once = v.once; made_first = v.made_first }

  -- What a call of known outcome hands out.
  of_outcome :
      (s : System p A) (fuel : ℕ) (r : Outcome (Option Handle)) (q : Pool p A)
      → P_get_try_best fuel s.pool ≡ (r, q)
      → Hands laws s.pool q (handed r)
  of_outcome s fuel r q e =
      subst (λ x. Hands laws s.pool x.1 (handed x.0)) e (P_get_try_best-Hands laws fuel s.pool)

  -- No call of a client, whatever its outcome, gives a frame a second owner.
  pub Step-IsOwned : {s t : System p A} → Step s t → IsOwned s → IsOwned t
  Step-IsOwned {s} (gets h q e) v =
      Hands-IsOwned s q (h ∷ [])
        (subst (λ x. Hands laws s.pool x.1 (to_list x.0)) e (P_get-Hands laws s.pool)) v
  Step-IsOwned {s} (tries_best fuel h q e) v =
      Hands-IsOwned s q (h ∷ []) (of_outcome s fuel _ q e) v
  Step-IsOwned {s} (tried_best fuel r q e n) v =
      Hands-IsOwned s q [] (rw (none_handed r n) at (of_outcome s fuel r q e)) v
  Step-IsOwned {s} makes v =
      Hands-IsOwned s _ (unpooled (malloc_particle 64 s.pool).0)
        (malloc_particle-Hands laws 64 s.pool) v
  Step-IsOwned {s} (receives h q e) v =
      Hands-IsOwned s q (h ∷ [])
        (subst (λ x. Hands laws s.pool x.1 (to_list x.0)) e (C_recv-Hands laws s.pool)) v
  Step-IsOwned {s} (receives_bulk n) v =
      Hands-IsOwned s _ (C_get_bulk n s.pool).0 (C_get_bulk-Hands laws n s.pool) v
  Step-IsOwned {s} (ends h rest sp) v =
      takes-IsOwned s (destroy h s.pool) (h ∷ []) rest (destroy_lem h s.pool).0
        (λ a. omega (arith, (destroy_lem h s.pool).1 a)) sp v
  Step-IsOwned {s} (sends_bulk given rest sp) v =
      takes-IsOwned s (P_send_bulk given s.pool) given rest (P_send_bulk_lem given s.pool).0
        (P_send_bulk_lem given s.pool).1 sp v
  Step-IsOwned {s} (writes h rest x sp) v = writes-IsOwned s h.frame x v

  Reach-IsOwned : {s t : System p A} → IsOwned s → Reach s t → IsOwned t
  Reach-IsOwned v here = v
  Reach-IsOwned v (next r st) = Step-IsOwned st (Reach-IsOwned v r)

  construct-IsOwned :
      (init_depth page_size : ℕ) (all_memalign : Bool) (frames : ℕ → A) (q : Pool p A)
      → construct init_depth page_size all_memalign frames ≡ done q
      → IsOwned (system q [])
  unfolding construct
  construct-IsOwned n size b frames q e =
      let empty : System p A = system (fresh size b frames) [] in
      subst (λ s. IsOwned (system s [])) (started-eq _ q e)
        (Hands-IsOwned empty (init_data_pool n empty.pool).1 []
          (init_data_pool-Hands laws n empty.pool)
          (record {
            once = λ a. omega (arith, laws.holds-empty a);
            made_first = λ a h. omega (arith, laws.holds-empty a);
          }))

  -- On a lawful platform, after any steps of clients from a newly constructed queue, every frame has
  -- at most one owner: one place in one of the two queues, or one handle of a client; a frame that a
  -- thread has made and not yet put into the pool counts as a handle.
  pub run-IsOwned :
      (init_depth page_size : ℕ) (all_memalign : Bool) (frames : ℕ → A) (q : Pool p A)
      (t : System p A)
      → construct init_depth page_size all_memalign frames ≡ done q
      → Reach (system q []) t
      → (a : ℕ) → owners a t ≤ 1
  run-IsOwned n size b frames q t e r =
      (Reach-IsOwned (construct-IsOwned n size b frames q e) r).once
