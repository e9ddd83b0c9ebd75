-- ===== src/SimpleQ/Keeping.antt =====
-- What a call leaves of the frames in the queues, where the queues take what they are given.
use s4_lib_lite.Prelude.{
  ℕ, zero, suc, ◌+◌, ◌≤◌, ◌≡◌, List, [], ◌∷◌, Option, some, Bool, true, false, arith, Option-cases,
  ap, inl, inr,
}
use s4_lib_lite.SimpleQ.Platform.{Platform, IsLawful, count}
use s4_lib_lite.SimpleQ.Pool.{
  Handle, to_pool, Outcome, done, thrown, stuck, Pool, enqueue_each, fill_pool, after_init,
  malloc_particle, init_data_pool, P_get, P_get_try_best, C_recv, C_get_bulk, frames_of,
}
use s4_lib_lite.SimpleQ.Client.{unpooled}
use s4_lib_lite.SimpleQ.Making.{Makes, malloc_particle-Makes}
use s4_lib_lite.SimpleQ.Hands.{spread, to_list, handed, frames_of-handles}

-- A platform whose queues have the memory to take what they are given.
pub record IsRoomy (p : Platform) : Type 0 where
  pub takes : (q : p.Queue) (x : ℕ) → (r : p.Queue) × (p.enqueue q x ≡ some r)
  pub takes_bulk : (q : p.Queue) (xs : List ℕ) → (r : p.Queue) × (p.enqueue_bulk q xs ≡ some r)

pub enqueue_each-all :
    {p : Platform} (laws : IsLawful p) (roomy : IsRoomy p) (ps : List ℕ) (i a : ℕ) (q : p.Queue)
    → laws.holds a (enqueue_each p ps i q).1 ≡ laws.holds a q + count a ps
unfolding enqueue_each
enqueue_each-all laws roomy [] i a q = omega arith
enqueue_each-all laws roomy (x ∷ ps) i a q =
    let (r, e) = roomy.takes q x in
    rw (enqueue_each, e)
      (omega (arith, enqueue_each-all laws roomy ps (i + 1) a r, laws.holds-enqueue a x q r e))

module _ {p : Platform} {A : Type 0} (laws : IsLawful p) (roomy : IsRoomy p) where
  open laws use {holds, holds-enqueue, holds-enqueue_bulk, holds-dequeue, holds-dequeue_bulk}

  -- A call after which each frame is where it was, or in the handles that it hands out.
  pub record Keeps (s t : Pool p A) (hs : List Handle) : Type 0 where
    pub kept : (a : ℕ) → spread laws a s ≤ spread laws a t + count a (frames_of hs)

  pub Keeps-same : (s : Pool p A) → Keeps s s []
  Keeps-same s = record { kept = λ a. omega arith }

  fill_pool-Keeps :
      (s : Pool p A) (r : Outcome (List ℕ) × Pool p A) → Makes [] s r → Keeps s (fill_pool r).1 []
  unfolding fill_pool
  fill_pool-Keeps s (done ps, t) m = record {
    kept = λ a. omega (
      arith,
      enqueue_each-all laws roomy ps 0 a t.data_pool,
      ap (holds a) m.pool_same,
      ap (holds a) m.ptoc_same,
    );
  }
  fill_pool-Keeps s (thrown, t) m = record {
    kept = λ a. omega (arith, ap (holds a) m.pool_same, ap (holds a) m.ptoc_same);
  }
  fill_pool-Keeps s (stuck, t) m = record {
    kept = λ a. omega (arith, ap (holds a) m.pool_same, ap (holds a) m.ptoc_same);
  }

  unpooled-Keeps :
      (s : Pool p A) (r : Outcome (List ℕ) × Pool p A) → Makes [] s r → Keeps s r.1 (unpooled r.0)
  unpooled-Keeps s r m = record {
    kept = λ a. omega (arith, ap (holds a) m.pool_same, ap (holds a) m.ptoc_same);
  }

  pub malloc_particle-Keeps :
      (num : ℕ) (s : Pool p A)
      → Keeps s (malloc_particle num s).1 (unpooled (malloc_particle num s).0)
  malloc_particle-Keeps num s = unpooled-Keeps s _ (malloc_particle-Makes num s)

  init_data_pool-Keeps : (num : ℕ) (s : Pool p A) → Keeps s (init_data_pool num s).1 []
  unfolding init_data_pool
  init_data_pool-Keeps num s = fill_pool-Keeps s _ (malloc_particle-Makes num s)

  pub P_get-Keeps : (s : Pool p A) → Keeps s (P_get s).1 (to_list (P_get s).0)
  unfolding P_get
  P_get-Keeps s = elim (Option-cases (p.dequeue s.data_pool)) [
    | inl e ↦ rw (e, P_get) (Keeps-same s)
    | inr ((x, q), e) ↦
        rw (e, P_get) (record { kept = λ a. omega (arith, holds-dequeue a x s.data_pool q e) })
  ]

  pub C_recv-Keeps : (s : Pool p A) → Keeps s (C_recv s).1 (to_list (C_recv s).0)
  unfolding C_recv
  C_recv-Keeps s = elim (Option-cases (p.dequeue s.data_ptoc)) [
    | inl e ↦ rw (e, C_recv) (Keeps-same s)
    | inr ((x, q), e) ↦
        rw (e, C_recv) (record { kept = λ a. omega (arith, holds-dequeue a x s.data_ptoc q e) })
  ]

  pub C_get_bulk-Keeps : (n : ℕ) (s : Pool p A) → Keeps s (C_get_bulk n s).1 (C_get_bulk n s).0
  unfolding C_get_bulk
  C_get_bulk-Keeps n s = record {
    kept = λ a.
        rw (frames_of-handles to_pool (p.dequeue_bulk s.data_ptoc n).0)
          (omega (arith, holds-dequeue_bulk a n s.data_ptoc));
  }

  after_init-Keeps :
      (s : Pool p A) (again : Pool p A → Outcome (Option Handle) × Pool p A)
      (r : Outcome Bool × Pool p A)
      → ((t : Pool p A) → Keeps t (again t).1 (handed (again t).0))
      → Keeps s r.1 []
      → Keeps s (after_init again r).1 (handed (after_init again r).0)
  unfolding after_init
  after_init-Keeps s again (done true, t) ih m = record {
    kept = λ a. omega (arith, m.kept a, (ih t).kept a);
  }
  after_init-Keeps s again (done false, t) ih m = m
  after_init-Keeps s again (thrown, t) ih m = m
  after_init-Keeps s again (stuck, t) ih m = m

  pub P_get_try_best-Keeps :
      (fuel : ℕ) (s : Pool p A)
      → Keeps s (P_get_try_best fuel s).1 (handed (P_get_try_best fuel s).0)
  unfolding P_get_try_best
  P_get_try_best-Keeps zero s = Keeps-same s
  P_get_try_best-Keeps (suc fuel) s = elim (Option-cases (p.dequeue s.data_pool)) [
    | inl e ↦
        rw (e, P_get_try_best)
          (after_init-Keeps s (λ t. P_get_try_best fuel t) _ (λ t. P_get_try_best-Keeps fuel t)
            (init_data_pool-Keeps 64 s))
    | inr ((x, q), e) ↦
        rw (e, P_get_try_best)
          (record { kept = λ a. omega (arith, holds-dequeue a x s.data_pool q e) })
  ]
