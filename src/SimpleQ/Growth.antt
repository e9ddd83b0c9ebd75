-- ===== src/SimpleQ/Growth.antt =====
-- How the pool grows: `P_get_tryBest` comes to an end, and what `_depth` counts.
use s4_lib_lite.Prelude.{
  ℕ, zero, suc, ◌+◌, ◌*◌, ◌%◌, ◌^◌, if◌then◌else◌, ◌≤◌, ◌<◌, ◌≡◌, ◌≢◌, refl, ap, ◌∙◌, List, [], ◌∷◌,
  ◌++◌, none, Bool, true, false, ◌==◌, length, arith, Option-cases, Bool-cases, inl, inr, if_both,
}
use s4_lib_lite.Prelude.Decimal.{u32_mod}
use s4_lib_lite.SimpleQ.Platform.{Platform, IsLawful, IsQuiet}
use s4_lib_lite.SimpleQ.Pool.{
  Outcome, done, thrown, stuck, Pool, new_array, make_aligned, make_carved, malloc_carved,
  count_depth, malloc_particle, enqueue_each, fill_pool, init_data_pool, after_init, P_get_try_best,
}

module _ {p : Platform} (laws : IsLawful p) (quiet : IsQuiet p laws.holds) where
  open laws use {holds, holds-enqueue}
  open quiet use {dequeue-none}

  enqueue_each-keeps :
      (ps : List ℕ) (i a : ℕ) (q : p.Queue) → holds a q ≤ holds a (enqueue_each p ps i q).1
  unfolding enqueue_each
  enqueue_each-keeps [] i a q = omega arith
  enqueue_each-keeps (x ∷ ps) i a q = elim (Option-cases (p.enqueue q x)) [
    | inl e ↦ rw (e, enqueue_each) (omega arith)
    | inr (r, e) ↦
        rw (e, enqueue_each)
          (omega (arith, enqueue_each-keeps ps (i + 1) a r, holds-enqueue a x q r e))
  ]

  -- If anything was put in, then a dequeue succeeds.
  enqueue_each-filled :
      (ps : List ℕ) (q : p.Queue)
      → (enqueue_each p ps 0 q).0 ≢ 0
      → p.dequeue (enqueue_each p ps 0 q).1 ≢ none
  unfolding enqueue_each
  enqueue_each-filled [] q n d = n refl
  enqueue_each-filled (x ∷ ps) q n d = elim (Option-cases (p.enqueue q x)) [
    | inl e ↦ absurd (n (rw (e, enqueue_each)))
    | inr (r, e) ↦
        let d' : p.dequeue (enqueue_each p ps 1 r).1 ≡ none = rw (e, enqueue_each) at d in
        absurd (
          ground (arith, dequeue-none x _ d', enqueue_each-keeps ps 1 x r, holds-enqueue x x q r e))
  ]

module _ {p : Platform} {A : Type 0} where
  make_aligned-ends : (n : ℕ) (made : List ℕ) (s : Pool p A) → (make_aligned n made s).0 ≢ stuck
  unfolding make_aligned
  make_aligned-ends zero made s = λ e. cc
  make_aligned-ends (suc n) made s =
      elim (Option-cases (p.alloc s.page_size (length s.mem_hoster))) [
        | inl e ↦ rw (e, make_aligned, new_array) (λ h. cc)
        | inr (base, e) ↦ rw (e, make_aligned, new_array) (make_aligned-ends n _ _)
      ]

  malloc_carved-ends : (n : ℕ) (s : Pool p A) → (malloc_carved n s).0 ≢ stuck
  unfolding malloc_carved new_array
  malloc_carved-ends n s = ground arith

  count_depth-ends :
      (n : ℕ) (r : Outcome (List ℕ) × Pool p A) → r.0 ≢ stuck → (count_depth n r).0 ≢ stuck
  unfolding count_depth
  count_depth-ends n (done ps, s) h e = cc
  count_depth-ends n (thrown, s) h e = cc
  count_depth-ends n (stuck, s) h e = h refl

  malloc_particle-ends : (n : ℕ) (s : Pool p A) → (malloc_particle n s).0 ≢ stuck
  unfolding malloc_particle
  malloc_particle-ends n s =
      let Ends = λ (r : Outcome (List ℕ) × Pool p A). r.0 ≢ stuck in
      if_both Ends (n == 0) (λ e. cc)
        (count_depth-ends n _
          (if_both Ends s.all_memalign (make_aligned-ends n [] s) (malloc_carved-ends n s)))

  -- What `malloc_particle` does to the depth and to the number of frames.
  record Counts (by made : ℕ) (s t : Pool p A) : Type 0 where
    depth_by : t.depth ≡ (s.depth + by) % u32_mod
    frames_by : length t.buffers ≡ length s.buffers + made

  make_aligned-Counts :
      (n : ℕ) (made : List ℕ) (s : Pool p A) (ps : List ℕ)
      → s.depth < u32_mod
      → (make_aligned n made s).0 ≡ done ps
      → Counts n n s (make_aligned n made s).1
  unfolding make_aligned
  make_aligned-Counts zero made s ps d =
      λ e. record { depth_by = omega arith; frames_by = omega arith }
  make_aligned-Counts (suc n) made s ps d =
      elim (Option-cases (p.alloc s.page_size (length s.mem_hoster))) [
        | inl e ↦ rw (e, make_aligned, new_array) (λ h. cc)
        | inr (base, e) ↦
            rw (e, make_aligned, new_array)
              (λ h.
                let c = make_aligned-Counts n _ _ ps (omega arith) h in
                record {
                  depth_by = omega (arith, c.depth_by);
                  frames_by = omega (arith, c.frames_by);
                })
      ]

  make_carved-Counts :
      (left n base : ℕ) (made : List ℕ) (s : Pool p A)
      → ((make_carved left n base made s).1.depth ≡ s.depth)
        × (length (make_carved left n base made s).1.buffers ≡ length s.buffers + left)
  unfolding make_carved
  make_carved-Counts zero n base made s = (refl, omega arith)
  make_carved-Counts (suc left) n base made s =
      let c =
        make_carved-Counts left (n + 1) base (made ++ length s.buffers ∷ [])
          (record s { buffers = (base + n * s.page_size) ∷ s.buffers }) in
      (c.0, omega (arith, c.1))

  malloc_carved-Counts :
      (n : ℕ) (s : Pool p A) (ps : List ℕ)
      → (malloc_carved n s).0 ≡ done ps
      → Counts n n s (malloc_carved n s).1
  unfolding malloc_carved
  malloc_carved-Counts n s ps =
      let size = (s.page_size * n) % 2 ^ 64 in
      elim (Option-cases (p.alloc size (length s.mem_hoster))) [
        | inl e ↦ rw (e, malloc_carved, new_array) (λ h. cc)
        | inr (base, e) ↦
            let t : Pool p A = record s { mem_hoster = (base, size) ∷ s.mem_hoster } in
            let c = make_carved-Counts n 0 base [] t in
            rw (e, malloc_carved, new_array)
              (λ h. record { depth_by = ap (λ d. (d + n) % u32_mod) c.0; frames_by = c.1 })
      ]

  count_depth-Counts :
      (n : ℕ) (s : Pool p A) (r : Outcome (List ℕ) × Pool p A) (ps : List ℕ)
      → ((qs : List ℕ) → r.0 ≡ done qs → Counts n n s r.1)
      → (count_depth n r).0 ≡ done ps
      → Counts (n + n) n s (count_depth n r).1
  unfolding count_depth
  count_depth-Counts n s (done qs, t) ps c e =
      let c' = c qs refl in
      record { depth_by = omega (arith, c'.depth_by); frames_by = c'.frames_by }
  count_depth-Counts n s (thrown, t) ps c e = cc
  count_depth-Counts n s (stuck, t) ps c e = cc

  branch_Counts :
      (n : ℕ) (s : Pool p A)
      → s.depth < u32_mod
      → (qs : List ℕ)
      → (if s.all_memalign then make_aligned n [] s else malloc_carved n s).0 ≡ done qs
      → Counts n n s (if s.all_memalign then make_aligned n [] s else malloc_carved n s).1
  branch_Counts n s d qs =
      if_both (λ (r : Outcome (List ℕ) × Pool p A). r.0 ≡ done qs → Counts n n s r.1) s.all_memalign
        (make_aligned-Counts n [] s qs d) (malloc_carved-Counts n s qs)

  -- Whenever `malloc_particle` returns, from a `_depth` of 32 bits, it has made as many frames as it
  -- was asked for, and `_depth` has grown by twice that number, modulo 2 ^ 32.
  malloc_particle-depth :
      (n : ℕ) (s : Pool p A) (ps : List ℕ)
      → s.depth < u32_mod
      → (malloc_particle n s).0 ≡ done ps
      → ((malloc_particle n s).1.depth ≡ (s.depth + 2 * n) % u32_mod)
        × (length (malloc_particle n s).1.buffers ≡ length s.buffers + n)
  unfolding malloc_particle
  malloc_particle-depth n s ps d = elim (Bool-cases (n == 0)) [
    | inl e ↦ rw e (λ h. (ground arith, ground arith))
    | inr e ↦ rw e λ h.
        let c = count_depth-Counts n s _ ps (branch_Counts n s d) h in
        (omega (arith, c.depth_by), c.frames_by)
  ]

module _ {p : Platform} {A : Type 0} (laws : IsLawful p) (quiet : IsQuiet p laws.holds) where
  fill_pool-filled :
      (r : Outcome (List ℕ) × Pool p A) (t : Pool p A)
      → fill_pool r ≡ (done true, t)
      → p.dequeue t.data_pool ≢ none
  unfolding fill_pool
  fill_pool-filled (done ps, s) t e d =
      enqueue_each-filled laws quiet ps s.data_pool (λ z. ground (arith, ap (λ x. x.0) e))
        (ap (λ (x : Outcome Bool × Pool p A). p.dequeue x.1.data_pool) e ∙ d)
  fill_pool-filled (thrown, s) t e d = cc
  fill_pool-filled (stuck, s) t e d = cc

  fill_pool-ends : (r : Outcome (List ℕ) × Pool p A) → r.0 ≢ stuck → (fill_pool r).0 ≢ stuck
  unfolding fill_pool
  fill_pool-ends (done ps, s) n e = cc
  fill_pool-ends (thrown, s) n e = cc
  fill_pool-ends (stuck, s) n e = n refl

  take_first :
      (fuel : ℕ) (s : Pool p A)
      → p.dequeue s.data_pool ≢ none
      → (P_get_try_best (suc fuel) s).0 ≢ stuck
  unfolding P_get_try_best
  take_first fuel s n = elim (Option-cases (p.dequeue s.data_pool)) [
    | inl e ↦ absurd (n e)
    | inr ((a, q), e) ↦ rw (e, P_get_try_best) (λ h. cc)
  ]

  after_init-ends :
      (fuel : ℕ) (r : Outcome Bool × Pool p A)
      → ((t : Pool p A) → r ≡ (done true, t) → p.dequeue t.data_pool ≢ none)
      → r.0 ≢ stuck
      → (after_init (λ t. P_get_try_best (suc fuel) t) r).0 ≢ stuck
  unfolding after_init
  after_init-ends fuel (done true, t) f n = take_first fuel t (f t refl)
  after_init-ends fuel (done false, t) f n = λ e. cc
  after_init-ends fuel (thrown, t) f n = λ e. cc
  after_init-ends fuel (stuck, t) f n = λ e. n refl

  -- Taken alone, without steps of other threads within it, `P_get_tryBest` ends within two calls of
  -- itself, whatever the allocations do. Other producers may take the new frames before it does.
  P_get_try_best-ends : (fuel : ℕ) (s : Pool p A) → (P_get_try_best (suc (suc fuel)) s).0 ≢ stuck
  unfolding P_get_try_best init_data_pool
  P_get_try_best-ends fuel s = elim (Option-cases (p.dequeue s.data_pool)) [
    | inl e ↦
        rw (e, P_get_try_best)
          (after_init-ends fuel (init_data_pool 64 s) (fill_pool-filled (malloc_particle 64 s))
            (fill_pool-ends _ (malloc_particle-ends 64 s)))
    | inr ((a, q), e) ↦ rw (e, P_get_try_best) (λ h. cc)
  ]
