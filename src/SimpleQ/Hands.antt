-- ===== src/SimpleQ/Hands.antt =====
-- What each call does to the frames that the two queues hold.
use s4_lib_lite.Prelude.{
  ℕ, zero, suc, ◌+◌, ◌≤◌, ◌≡◌, refl, List, [], ◌∷◌, map, Option, none, some, Bool, true, false,
  length, arith, Option-cases, ap, inl, inr,
}
use s4_lib_lite.SimpleQ.Platform.{Platform, IsLawful, count}
use s4_lib_lite.SimpleQ.Pool.{
  Handle, handle, Host, to_pool, Outcome, done, thrown, stuck, Pool, enqueue_each, fill_pool,
  after_init, malloc_particle, init_data_pool, P_get, P_get_try_best, C_recv, C_get_bulk, frames_of,
}
use s4_lib_lite.SimpleQ.Client.{unpooled}
use s4_lib_lite.SimpleQ.Making.{Makes, malloc_particle-Makes, between}

pub frames_of-handles : (h : Host) (ps : List ℕ) → frames_of (map (λ a. handle a h) ps) ≡ ps
frames_of-handles h [] = refl
frames_of-handles h (x ∷ ps) = ap (◌∷◌ x) (frames_of-handles h ps)

abbrev pub to_list : Option Handle → List Handle
to_list none = []
to_list (some h) = h ∷ []

abbrev pub handed : Outcome (Option Handle) → List Handle
handed (done h) = to_list h
handed thrown = []
handed stuck = []

enqueue_each-holds :
    {p : Platform} (laws : IsLawful p) (ps : List ℕ) (i a : ℕ) (q : p.Queue)
    → laws.holds a (enqueue_each p ps i q).1 ≤ laws.holds a q + count a ps
unfolding enqueue_each
enqueue_each-holds laws [] i a q = omega arith
enqueue_each-holds {p} laws (x ∷ ps) i a q = elim (Option-cases (p.enqueue q x)) [
  | inl e ↦ rw (e, enqueue_each) (omega arith)
  | inr (r, e) ↦
      rw (e, enqueue_each)
        (omega (arith, enqueue_each-holds laws ps (i + 1) a r, laws.holds-enqueue a x q r e))
]

-- How often a frame stands in the two queues.
abbrev pub spread : {p : Platform} {A : Type 0} (laws : IsLawful p) → ℕ → Pool p A → ℕ
spread laws a s = laws.holds a s.data_pool + laws.holds a s.data_ptoc

module _ {p : Platform} {A : Type 0} (laws : IsLawful p) where
  open laws use {holds, holds-enqueue, holds-enqueue_bulk, holds-dequeue, holds-dequeue_bulk}

  -- What a call may do to the frames: those that it hands out were in a queue or are new.
  pub record Hands (s t : Pool p A) (hs : List Handle) : Type 0 where
    pub grown : length s.buffers ≤ length t.buffers
    pub frugal :
        (a : ℕ)
        → spread laws a t + count a (frames_of hs)
          ≤ spread laws a s + between (length s.buffers) (length t.buffers) a

  Hands-none : (s : Pool p A) → Hands s s []
  Hands-none s = record { grown = omega arith; frugal = λ a. omega arith }

  Hands-trans : (s t u : Pool p A) (hs : List Handle) → Hands s t [] → Hands t u hs → Hands s u hs
  Hands-trans s t u hs m n = record {
    grown = omega (arith, m.grown, n.grown);
    frugal = λ a. ground (arith, m.frugal a, n.frugal a, m.grown, n.grown);
  }

  fill_pool-Hands :
      (s : Pool p A) (r : Outcome (List ℕ) × Pool p A) → Makes [] s r → Hands s (fill_pool r).1 []
  unfolding fill_pool
  fill_pool-Hands s (done ps, t) m = record {
    grown = m.grown;
    frugal = λ a. rw (m.ptoc_same) (
        omega (
          arith,
          enqueue_each-holds laws ps 0 a t.data_pool,
          ap (holds a) m.pool_same,
          m.counted ps a refl,
        ));
  }
  fill_pool-Hands s (thrown, t) m = record {
    grown = m.grown;
    frugal = λ a. omega (arith, ap (holds a) m.pool_same, ap (holds a) m.ptoc_same);
  }
  fill_pool-Hands s (stuck, t) m = record {
    grown = m.grown;
    frugal = λ a. omega (arith, ap (holds a) m.pool_same, ap (holds a) m.ptoc_same);
  }

  unpooled-Hands :
      (s : Pool p A) (r : Outcome (List ℕ) × Pool p A) → Makes [] s r → Hands s r.1 (unpooled r.0)
  unpooled-Hands s (done ps, t) m = record {
    grown = m.grown;
    frugal = λ a.
        rw (frames_of-handles to_pool ps, m.ptoc_same)
          (omega (arith, ap (holds a) m.pool_same, m.counted ps a refl));
  }
  unpooled-Hands s (thrown, t) m = record {
    grown = m.grown;
    frugal = λ a. omega (arith, ap (holds a) m.pool_same, ap (holds a) m.ptoc_same);
  }
  unpooled-Hands s (stuck, t) m = record {
    grown = m.grown;
    frugal = λ a. omega (arith, ap (holds a) m.pool_same, ap (holds a) m.ptoc_same);
  }

  pub malloc_particle-Hands :
      (num : ℕ) (s : Pool p A)
      → Hands s (malloc_particle num s).1 (unpooled (malloc_particle num s).0)
  malloc_particle-Hands num s = unpooled-Hands s _ (malloc_particle-Makes num s)

  pub init_data_pool-Hands : (num : ℕ) (s : Pool p A) → Hands s (init_data_pool num s).1 []
  unfolding init_data_pool
  init_data_pool-Hands num s = fill_pool-Hands s _ (malloc_particle-Makes num s)

  pub P_get-Hands : (s : Pool p A) → Hands s (P_get s).1 (to_list (P_get s).0)
  unfolding P_get
  P_get-Hands s = elim (Option-cases (p.dequeue s.data_pool)) [
    | inl e ↦ rw (e, P_get) (Hands-none s)
    | inr ((x, q), e) ↦
        rw (e, P_get)
          (record {
            grown = omega arith;
            frugal = λ a. omega (arith, holds-dequeue a x s.data_pool q e);
          })
  ]

  pub C_recv-Hands : (s : Pool p A) → Hands s (C_recv s).1 (to_list (C_recv s).0)
  unfolding C_recv
  C_recv-Hands s = elim (Option-cases (p.dequeue s.data_ptoc)) [
    | inl e ↦ rw (e, C_recv) (Hands-none s)
    | inr ((x, q), e) ↦
        rw (e, C_recv)
          (record {
            grown = omega arith;
            frugal = λ a. omega (arith, holds-dequeue a x s.data_ptoc q e);
          })
  ]

  pub C_get_bulk-Hands : (n : ℕ) (s : Pool p A) → Hands s (C_get_bulk n s).1 (C_get_bulk n s).0
  unfolding C_get_bulk
  C_get_bulk-Hands n s = record {
    grown = omega arith;
    frugal = λ a.
        rw (frames_of-handles to_pool (p.dequeue_bulk s.data_ptoc n).0)
          (omega (arith, holds-dequeue_bulk a n s.data_ptoc));
  }

  after_init-Hands :
      (s : Pool p A) (again : Pool p A → Outcome (Option Handle) × Pool p A)
      (r : Outcome Bool × Pool p A)
      → ((t : Pool p A) → Hands t (again t).1 (handed (again t).0))
      → Hands s r.1 []
      → Hands s (after_init again r).1 (handed (after_init again r).0)
  unfolding after_init
  after_init-Hands s again (done true, t) ih m = Hands-trans s t _ _ m (ih t)
  after_init-Hands s again (done false, t) ih m = m
  after_init-Hands s again (thrown, t) ih m = m
  after_init-Hands s again (stuck, t) ih m = m

  pub P_get_try_best-Hands :
      (fuel : ℕ) (s : Pool p A)
      → Hands s (P_get_try_best fuel s).1 (handed (P_get_try_best fuel s).0)
  unfolding P_get_try_best
  P_get_try_best-Hands zero s = Hands-none s
  P_get_try_best-Hands (suc fuel) s = elim (Option-cases (p.dequeue s.data_pool)) [
    | inl e ↦
        rw (e, P_get_try_best)
          (after_init-Hands s (λ t. P_get_try_best fuel t) _ (λ t. P_get_try_best-Hands fuel t)
            (init_data_pool-Hands 64 s))
    | inr ((x, q), e) ↦
        rw (e, P_get_try_best)
          (record {
            grown = omega arith;
            frugal = λ a. omega (arith, holds-dequeue a x s.data_pool q e);
          })
  ]
