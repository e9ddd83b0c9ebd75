-- ===== src/SimpleQ/Making.antt =====
-- Making frames: `malloc_particle` and its two loops.
use s4_lib_lite.Prelude.{
  ℕ, zero, suc, ◌+◌, ◌*◌, ◌%◌, ◌^◌, ◌==◌, if_both, ◌∙◌, ◌≤◌, ◌≡◌, refl, List, [], ◌∷◌, ◌++◌, ◌&&◌,
  length, ltb, leb, if◌then◌else◌, arith, Option-cases, inl, inr,
}
use s4_lib_lite.Prelude.Decimal.{u32_mod}
use s4_lib_lite.SimpleQ.Platform.{Platform, count}
use s4_lib_lite.SimpleQ.Pool.{
  Outcome, done, thrown, stuck, Pool, new_array, make_aligned, make_carved, malloc_particle,
  malloc_carved, count_depth,
}

-- One if `lo ≤ a < hi`: the frames made between two moments.
abbrev pub between : ℕ → ℕ → ℕ → ℕ
between lo hi a = if leb lo a && ltb a hi then 1 else 0

pub count-append :
    (a : ℕ) (given more : List ℕ) → count a (given ++ more) ≡ count a given + count a more
count-append a [] more = omega arith
count-append a (b ∷ given) more = omega (arith, count-append a given more)

module _ {p : Platform} {A : Type 0} where
  -- What making frames does: the queues are left alone, and a frame is new exactly if it is among
  -- those returned and not among those `made` before.
  pub record Makes (made : List ℕ) (s : Pool p A) (r : Outcome (List ℕ) × Pool p A) : Type 0 where
    pub pool_same : r.1.data_pool ≡ s.data_pool
    pub ptoc_same : r.1.data_ptoc ≡ s.data_ptoc
    pub size_same : r.1.page_size ≡ s.page_size
    pub grown : length s.buffers ≤ length r.1.buffers
    pub counted :
        (ps : List ℕ) (a : ℕ)
        → r.0 ≡ done ps
        → count a ps ≡ count a made + between (length s.buffers) (length r.1.buffers) a

  -- The state after one frame of its own block.
  abbrev pub aligned_frame : ℕ → Pool p A → Pool p A
  aligned_frame base s = record s {
    depth = (s.depth + 1) % u32_mod;
    buffers = base ∷ s.buffers;
    mem_hoster = (base, s.page_size) ∷ s.mem_hoster;
  }

  Makes-none : (made : List ℕ) (s : Pool p A) → Makes made s (done made, s)
  Makes-none made s = record {
    pool_same = refl;
    ptoc_same = refl;
    size_same = refl;
    grown = omega arith;
    counted = λ ps a e. ground arith;
  }

  Makes-thrown : {made : List ℕ} (s : Pool p A) → Makes made s (thrown, s)
  Makes-thrown s = record {
    pool_same = refl;
    ptoc_same = refl;
    size_same = refl;
    grown = omega arith;
    counted = λ ps a h. cc;
  }

  -- One frame more, and then those of the rest of the loop.
  Makes-cons :
      (made : List ℕ) (s t : Pool p A) (r : Outcome (List ℕ) × Pool p A)
      → t.data_pool ≡ s.data_pool
      → t.data_ptoc ≡ s.data_ptoc
      → t.page_size ≡ s.page_size
      → length t.buffers ≡ suc (length s.buffers)
      → Makes (made ++ length s.buffers ∷ []) t r
      → Makes made s r
  Makes-cons made s t r p q z l m = record {
    pool_same = m.pool_same ∙ p;
    ptoc_same = m.ptoc_same ∙ q;
    size_same = m.size_same ∙ z;
    grown = omega (arith, m.grown);
    counted = λ ps a e.
        ground (arith, m.counted ps a e, m.grown, count-append a made (length s.buffers ∷ []));
  }

  make_aligned-Makes : (n : ℕ) (made : List ℕ) (s : Pool p A) → Makes made s (make_aligned n made s)
  unfolding make_aligned
  make_aligned-Makes zero made s = Makes-none made s
  make_aligned-Makes (suc n) made s =
      elim (Option-cases (p.alloc s.page_size (length s.mem_hoster))) [
        | inl e ↦ rw (e, make_aligned, new_array) (Makes-thrown s)
        | inr (base, e) ↦
            rw (e, make_aligned, new_array)
              (Makes-cons made s (aligned_frame base s) _ refl refl refl refl
                (make_aligned-Makes n (made ++ length s.buffers ∷ []) (aligned_frame base s)))
      ]

  make_carved-Makes :
      (left n base : ℕ) (made : List ℕ) (s : Pool p A)
      → Makes made s (done (make_carved left n base made s).0, (make_carved left n base made s).1)
  unfolding make_carved
  make_carved-Makes zero n base made s = Makes-none made s
  make_carved-Makes (suc left) n base made s =
      let t : Pool p A = record s { buffers = (base + n * s.page_size) ∷ s.buffers } in
      Makes-cons made s t _ refl refl refl refl
        (make_carved-Makes left (n + 1) base (made ++ length s.buffers ∷ []) t)

  malloc_carved-Makes : (num : ℕ) (s : Pool p A) → Makes [] s (malloc_carved num s)
  unfolding malloc_carved
  malloc_carved-Makes num s =
      let size = (s.page_size * num) % 2 ^ 64 in
      elim (Option-cases (p.alloc size (length s.mem_hoster))) [
        | inl e ↦ rw (e, malloc_carved, new_array) (Makes-thrown s)
        | inr (base, e) ↦
            let t : Pool p A = record s { mem_hoster = (base, size) ∷ s.mem_hoster } in
            let m = make_carved-Makes num 0 base [] t in
            rw (e, malloc_carved, new_array)
              (record {
                pool_same = m.pool_same;
                ptoc_same = m.ptoc_same;
                size_same = m.size_same;
                grown = m.grown;
                counted = m.counted;
              })
      ]

  count_depth-Makes :
      (num : ℕ) (s : Pool p A) (r : Outcome (List ℕ) × Pool p A)
      → Makes [] s r
      → Makes [] s (count_depth num r)
  unfolding count_depth
  count_depth-Makes num s (done ps, t) m = record {
    pool_same = m.pool_same;
    ptoc_same = m.ptoc_same;
    size_same = m.size_same;
    grown = m.grown;
    counted = m.counted;
  }
  count_depth-Makes num s (thrown, t) m = m
  count_depth-Makes num s (stuck, t) m = m

  pub malloc_particle-Makes : (num : ℕ) (s : Pool p A) → Makes [] s (malloc_particle num s)
  unfolding malloc_particle
  malloc_particle-Makes num s = if_both (Makes [] s) (num == 0) (Makes-none [] s) (
      count_depth-Makes num s _ (
        if_both (Makes [] s) s.all_memalign (make_aligned-Makes num [] s)
          (malloc_carved-Makes num s)))
