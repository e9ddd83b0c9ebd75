-- ===== src/SimpleQ/Lasting.antt =====
-- No frame is lost, where the queues take what they are given.
use s4_lib_lite.Prelude.{
  ℕ, ◌+◌, ◌≤◌, ◌<◌, ◌≡◌, refl, subst, List, [], ◌∷◌, ◌++◌, Option, Bool, length, arith, ap,
}
use s4_lib_lite.SimpleQ.Platform.{Platform, IsLawful, count}
use s4_lib_lite.SimpleQ.Pool.{
  Handle, Host, to_pool, to_ptoc, Outcome, done, thrown, stuck, Pool, fill_pool, init_data_pool,
  started, fresh, construct, malloc_particle, P_get_try_best, C_get_bulk, destroy, give_back,
  frames_of, P_send_bulk, write_frame,
}
use s4_lib_lite.SimpleQ.Client.{
  system, Split, System, Step, gets, tries_best, tried_best, unpooled, makes, receives,
  receives_bulk, ends, sends_bulk, writes, Reach, here, next,
}
use s4_lib_lite.SimpleQ.Making.{count-append, between, Makes, malloc_particle-Makes}
use s4_lib_lite.SimpleQ.Hands.{spread, to_list, handed}
use s4_lib_lite.SimpleQ.Ownership.{
  owners, run-IsOwned, Split-count, none_handed, started-eq, frames_of-append,
}
use s4_lib_lite.SimpleQ.Keeping.{
  IsRoomy, enqueue_each-all, Keeps, P_get-Keeps, C_recv-Keeps, C_get_bulk-Keeps,
  malloc_particle-Keeps, P_get_try_best-Keeps,
}

made_between : (lo hi a : ℕ) → lo ≡ 0 → a < hi → between lo hi a ≡ 1
made_between lo hi a e h = ground arith

module _ {p : Platform} {A : Type 0} (laws : IsLawful p) (roomy : IsRoomy p) where
  open laws use {holds, holds-enqueue, holds-enqueue_bulk}

  hands-kept :
      (s : System p A) (q : Pool p A) (hs : List Handle) (a : ℕ)
      → Keeps laws roomy s.pool q hs
      → owners laws a s ≤ owners laws a (system q (hs ++ s.held))
  hands-kept s q hs a m = omega (
    arith,
    m.kept a,
    ap (count a) (frames_of-append hs s.held),
    count-append a (frames_of hs) (frames_of s.held),
  )

  takes-kept :
      (s : System p A) (q : Pool p A) (given rest : List Handle) (a : ℕ)
      → spread laws a q ≡ spread laws a s.pool + count a (frames_of given)
      → Split s.held given rest
      → owners laws a s ≤ owners laws a (system q rest)
  takes-kept s q given rest a m sp = omega (arith, m, Split-count a sp)

  give_back-takes :
      (o : Host) (x : ℕ) (s : Pool p A) (a : ℕ)
      → spread laws a (give_back o x s) ≡ spread laws a s + count a (x ∷ [])
  unfolding give_back
  give_back-takes to_pool x s a =
      let (r, e) = roomy.takes s.data_pool x in
      rw (e, give_back) (omega (arith, holds-enqueue a x s.data_pool r e))
  give_back-takes to_ptoc x s a =
      let (r, e) = roomy.takes s.data_ptoc x in
      rw (e, give_back) (omega (arith, holds-enqueue a x s.data_ptoc r e))

  destroy-takes :
      (h : Handle) (s : Pool p A) (a : ℕ)
      → spread laws a (destroy h s) ≡ spread laws a s + count a (h.frame ∷ [])
  unfolding destroy
  destroy-takes h s a = give_back-takes h.host h.frame s a

  P_send_bulk-takes :
      (hs : List Handle) (s : Pool p A) (a : ℕ)
      → spread laws a (P_send_bulk hs s) ≡ spread laws a s + count a (frames_of hs)
  unfolding P_send_bulk
  P_send_bulk-takes hs s a =
      let (r, e) = roomy.takes_bulk s.data_ptoc (frames_of hs) in
      rw (e, P_send_bulk) (omega (arith, holds-enqueue_bulk a (frames_of hs) s.data_ptoc r e))

  tried :
      (s : System p A) (fuel : ℕ) (r : Outcome (Option Handle)) (q : Pool p A)
      → P_get_try_best fuel s.pool ≡ (r, q)
      → Keeps laws roomy s.pool q (handed r)
  tried s fuel r q e =
      subst (λ x. Keeps laws roomy s.pool x.1 (handed x.0)) e
        (P_get_try_best-Keeps laws roomy fuel s.pool)

  write_frame-kept :
      (s : System p A) (b : ℕ) (x : A) (a : ℕ)
      → owners laws a s ≤ owners laws a (system (write_frame b x s.pool) s.held)
  unfolding write_frame
  write_frame-kept s b x a = omega arith

  -- No step takes a frame from its owner without another owner.
  Step-kept : {s t : System p A} (a : ℕ) → Step s t → owners laws a s ≤ owners laws a t
  Step-kept {s} a (gets h q e) =
      hands-kept s q (h ∷ []) a
        (subst (λ x. Keeps laws roomy s.pool x.1 (to_list x.0)) e (P_get-Keeps laws roomy s.pool))
  Step-kept {s} a (tries_best fuel h q e) = hands-kept s q (h ∷ []) a (tried s fuel _ q e)
  Step-kept {s} a (tried_best fuel r q e n) =
      hands-kept s q [] a (rw (none_handed r n) at (tried s fuel r q e))
  Step-kept {s} a makes =
      hands-kept s _ (unpooled (malloc_particle 64 s.pool).0) a
        (malloc_particle-Keeps laws roomy 64 s.pool)
  Step-kept {s} a (receives h q e) =
      hands-kept s q (h ∷ []) a
        (subst (λ x. Keeps laws roomy s.pool x.1 (to_list x.0)) e (C_recv-Keeps laws roomy s.pool))
  Step-kept {s} a (receives_bulk n) =
      hands-kept s _ (C_get_bulk n s.pool).0 a (C_get_bulk-Keeps laws roomy n s.pool)
  Step-kept {s} a (ends h rest sp) =
      takes-kept s (destroy h s.pool) (h ∷ []) rest a (destroy-takes h s.pool a) sp
  Step-kept {s} a (sends_bulk given rest sp) =
      takes-kept s (P_send_bulk given s.pool) given rest a (P_send_bulk-takes given s.pool a) sp
  Step-kept {s} a (writes h rest x sp) = write_frame-kept s h.frame x a

  Reach-kept : {s t : System p A} (a : ℕ) → Reach s t → owners laws a s ≤ owners laws a t
  Reach-kept a here = omega arith
  Reach-kept a (next r st) = omega (arith, Reach-kept a r, Step-kept a st)

  -- What the constructor makes is all in the pool.
  fill_pool-all :
      (s : Pool p A) (r : Outcome (List ℕ) × Pool p A) (q : Pool p A) (a : ℕ)
      → Makes [] s r
      → length s.buffers ≡ 0
      → started (fill_pool r) ≡ done q
      → a < length q.buffers
      → 1 ≤ spread laws a q
  unfolding fill_pool started
  fill_pool-all s (done ps, t) q a m fresh_one e h =
      let same = started-eq (fill_pool (done ps, t)) q e in
      omega (
        arith,
        enqueue_each-all laws roomy ps 0 a t.data_pool,
        m.counted ps a refl,
        made_between (length s.buffers) (length t.buffers) a fresh_one
            (omega (arith, ap (λ x. length x.buffers) same)),
        ap (λ x. spread laws a x) same,
      )
  fill_pool-all s (thrown, t) q a m fresh_one e h = cc
  fill_pool-all s (stuck, t) q a m fresh_one e h = cc

  construct-all :
      (init_depth page_size : ℕ) (all_memalign : Bool) (frames : ℕ → A) (q : Pool p A) (a : ℕ)
      → construct init_depth page_size all_memalign frames ≡ done q
      → a < length q.buffers
      → 1 ≤ spread laws a q
  unfolding construct init_data_pool
  construct-all n size b frames q a e h =
      fill_pool-all (fresh size b frames) _ q a (malloc_particle-Makes n (fresh size b frames)) refl
        e h

  -- On a lawful platform whose queues take what they are given, after any steps of clients from a newly
  -- constructed queue, every frame that the constructor made has exactly one owner: none is lost.
  pub run-owned_once :
      (init_depth page_size : ℕ) (all_memalign : Bool) (frames : ℕ → A) (q : Pool p A)
      (t : System p A)
      → construct init_depth page_size all_memalign frames ≡ done q
      → Reach (system q []) t
      → (a : ℕ) → a < length q.buffers
      → owners laws a t ≡ 1
  run-owned_once n size b frames q t e r a h = omega (
    arith,
    run-IsOwned laws n size b frames q t e r a,
    Reach-kept a r,
    construct-all n size b frames q a e h,
  )
