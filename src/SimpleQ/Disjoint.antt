-- ===== src/SimpleQ/Disjoint.antt =====
-- The buffers of the frames do not overlap: `malloc_particle`, `init_dataPool` and the clients' calls.
use s4_lib_lite.Prelude.{
  ℕ, zero, suc, ◌+◌, ◌*◌, ◌%◌, ◌^◌, ◌≤◌, ◌<◌, ◌≡◌, refl, ◌⊎◌, inl, inr, List, [], ◌∷◌, ◌++◌,
  if_both, some, ◌==◌, length, arith, Option-cases,
}
use native.Mathlib.Nat.{mod-eq_of_lt}
use s4_lib_lite.SimpleQ.Platform.{Platform}
use s4_lib_lite.SimpleQ.Pool.{
  Outcome, done, thrown, stuck, Pool, new_array, make_aligned, make_carved, malloc_particle,
  malloc_carved, count_depth, fill_pool, init_data_pool,
}
use s4_lib_lite.SimpleQ.Making.{aligned_frame}
use s4_lib_lite.SimpleQ.Blocks.{
  Apart, All, All-map, IsAllocator, blocks-AllApart, IsLaid, IsLaid-same,
}

-- Each buffer ends before the byte `at` of the newest block, or begins after its end.
abbrev BesideRest : ℕ → ℕ → ℕ → List ℕ → Type 0
BesideRest page at end = All (λ y. (y + page ≤ at) ⊎ (end ≤ y))

room_left :
    (n left page base size at : ℕ)
    → (n + suc left) * page ≤ size
    → at ≡ base + n * page
    → ((n + 1 + left) * page ≤ size)
      × (at + page ≤ base + (n + 1) * page)
      × (at + page ≤ base + size)
room_left n left page base size at fits e = (grind arith, grind arith, grind arith)

-- The product of two `size_t`s that does not wrap.
exact_size :
    (page num given : ℕ)
    → given ≡ page
    → page * num < 2 ^ 64
    → (0 + num) * page ≤ (given * num) % 2 ^ 64
exact_size page num given e small = rw (e, mod-eq_of_lt small) (grind arith)

module _ {p : Platform} {A : Type 0} where
  -- A frame of the newest block, from the byte `at` of it on.
  abbrev carved_frame : ℕ → Pool p A → Pool p A
  carved_frame at s = record s { buffers = at ∷ s.buffers }

  carved_frame-IsLaid :
      {page : ℕ} (at base n : ℕ) (rest : List (ℕ × ℕ)) (s : Pool p A)
      → s.mem_hoster ≡ (base, n) ∷ rest
      → base ≤ at
      → at + page ≤ base + n
      → BesideRest page at (base + n) s.buffers
      → IsLaid page s
      → IsLaid page (carved_frame at s)
  carved_frame-IsLaid {page} at base n rest s e lo hi beside v = record {
    size_kept = v.size_kept;
    blocks = v.blocks;
    inside = (rw e (inl (lo, hi)), v.inside);
    all_apart = (
      All-map {P = λ y. (y + page ≤ at) ⊎ (base + n ≤ y)} {Q = λ y. Apart at page y page}
          (λ y h. elim h [ inl q ↦ inr q | inr q ↦ inl (omega arith) ]) s.buffers beside,
      v.all_apart,
    );
  }

  -- The rest of the loop needs the rest of the block.
  make_carved-IsLaid :
      {page : ℕ} (left n base size : ℕ) (made : List ℕ) (rest : List (ℕ × ℕ)) (s : Pool p A)
      → s.mem_hoster ≡ (base, size) ∷ rest
      → (n + left) * page ≤ size
      → BesideRest page (base + n * page) (base + size) s.buffers
      → IsLaid page s
      → IsLaid page (make_carved left n base made s).1
  unfolding make_carved
  make_carved-IsLaid zero n base size made rest s e fits beside v = v
  make_carved-IsLaid {page} (suc left) n base size made rest s e fits beside v =
      let at : ℕ = base + n * s.page_size in
      let same : at ≡ base + n * page = rw v.size_kept refl in
      let room = room_left n left page base size at fits same in
      make_carved-IsLaid {page = page} left (n + 1) base size (made ++ length s.buffers ∷ []) rest
        (carved_frame at s) e room.0
        (
          inl (omega (arith, room.1)),
          All-map {P = λ y. (y + page ≤ base + n * page) ⊎ (base + size ≤ y)}
              {Q = λ y. (y + page ≤ base + (n + 1) * page) ⊎ (base + size ≤ y)}
              (λ y h. elim h [ inl q ↦ inl (omega (arith, room.1)) | inr q ↦ inr q ]) s.buffers
              beside,
        )
        (carved_frame-IsLaid at base size rest s e (omega arith) room.2 (rw same beside) v)

module _ {p : Platform} {A : Type 0} (fine : IsAllocator p) where
  aligned_frame-IsLaid :
      {page : ℕ} (base : ℕ) (s : Pool p A)
      → p.alloc s.page_size (length s.mem_hoster) ≡ some base
      → IsLaid page s
      → IsLaid page (aligned_frame base s)
  aligned_frame-IsLaid {page} base s e v =
      let beside : All (λ y. Apart y page base page) s.buffers =
        blocks-AllApart fine page page s.mem_hoster s.buffers (rw v.size_kept at e) v.blocks
          v.inside in
      record {
        size_kept = v.size_kept;
        blocks = (e, v.blocks);
        inside = (inl (omega (arith, v.size_kept)), All-map (λ x w. inr w) s.buffers v.inside);
        all_apart = (
          All-map {P = λ y. Apart y page base page} {Q = λ y. Apart base page y page}
              (λ y h. elim h [ inl q ↦ inr q | inr q ↦ inl q ]) s.buffers beside,
          v.all_apart,
        );
      }

  make_aligned-IsLaid :
      {page : ℕ} (n : ℕ) (made : List ℕ) (s : Pool p A)
      → IsLaid page s
      → IsLaid page (make_aligned n made s).1
  unfolding make_aligned
  make_aligned-IsLaid zero made s v = v
  make_aligned-IsLaid (suc n) made s v =
      elim (Option-cases (p.alloc s.page_size (length s.mem_hoster))) [
        | inl e ↦ rw (e, make_aligned, new_array) v
        | inr (base, e) ↦
            rw (e, make_aligned, new_array)
              (make_aligned-IsLaid n (made ++ length s.buffers ∷ []) (aligned_frame base s)
                (aligned_frame-IsLaid base s e v))
      ]

  malloc_carved-IsLaid :
      {page : ℕ} (num : ℕ) (s : Pool p A)
      → page * num < 2 ^ 64
      → IsLaid page s
      → IsLaid page (malloc_carved num s).1
  unfolding malloc_carved
  malloc_carved-IsLaid {page} num s small v =
      let size : ℕ = (s.page_size * num) % 2 ^ 64 in
      let beside : (base : ℕ)
          → p.alloc size (length s.mem_hoster) ≡ some base
          → BesideRest page (base + 0 * page) (base + size) s.buffers =
        λ base e.
          All-map {P = λ y. Apart y page base size}
            {Q = λ y. (y + page ≤ base + 0 * page) ⊎ (base + size ≤ y)}
            (λ y h. elim h [ inl q ↦ inl (omega arith) | inr q ↦ inr q ]) s.buffers
            (blocks-AllApart fine page size s.mem_hoster s.buffers e v.blocks v.inside) in
      elim (Option-cases (p.alloc size (length s.mem_hoster))) [
        | inl e ↦ rw (e, malloc_carved, new_array) v
        | inr (base, e) ↦
            rw (e, malloc_carved, new_array)
              (IsLaid-same
                (make_carved num 0 base []
                  (record s { mem_hoster = (base, size) ∷ s.mem_hoster })).1
                _ refl refl refl
                (make_carved-IsLaid {page = page} num 0 base size [] s.mem_hoster
                  (record s { mem_hoster = (base, size) ∷ s.mem_hoster }) refl
                  (exact_size page num s.page_size v.size_kept small) (beside base e)
                  (record {
                    size_kept = v.size_kept;
                    blocks = (e, v.blocks);
                    inside = All-map (λ x w. inr w) s.buffers v.inside;
                    all_apart = v.all_apart;
                  })))
      ]

  count_depth-IsLaid :
      {page : ℕ} (num : ℕ) (r : Outcome (List ℕ) × Pool p A)
      → IsLaid page r.1
      → IsLaid page (count_depth num r).1
  unfolding count_depth
  count_depth-IsLaid num (done ps, t) v = IsLaid-same t _ refl refl refl v
  count_depth-IsLaid num (thrown, t) v = v
  count_depth-IsLaid num (stuck, t) v = v

  pub malloc_particle-IsLaid :
      {page : ℕ} (num : ℕ) (s : Pool p A)
      → page * num < 2 ^ 64
      → IsLaid page s
      → IsLaid page (malloc_particle num s).1
  unfolding malloc_particle
  malloc_particle-IsLaid {page} num s small v =
      if_both (λ (r : Outcome (List ℕ) × Pool p A). IsLaid page r.1) (num == 0) v
        (count_depth-IsLaid num _ (
          if_both (λ (r : Outcome (List ℕ) × Pool p A). IsLaid page r.1) s.all_memalign
            (make_aligned-IsLaid num [] s v) (malloc_carved-IsLaid num s small v)))

  fill_pool-IsLaid :
      {page : ℕ} (r : Outcome (List ℕ) × Pool p A) → IsLaid page r.1 → IsLaid page (fill_pool r).1
  unfolding fill_pool
  fill_pool-IsLaid (done ps, t) v = IsLaid-same t _ refl refl refl v
  fill_pool-IsLaid (thrown, t) v = v
  fill_pool-IsLaid (stuck, t) v = v

  pub init_data_pool-IsLaid :
      {page : ℕ} (num : ℕ) (s : Pool p A)
      → page * num < 2 ^ 64
      → IsLaid page s
      → IsLaid page (init_data_pool num s).1
  unfolding init_data_pool
  init_data_pool-IsLaid num s small v = fill_pool-IsLaid _ (malloc_particle-IsLaid num s small v)
