-- ===== src/SimpleQ/Frames.antt =====
-- The buffers of the frames do not overlap, whatever the clients do.
use s4_lib_lite.Prelude.{
  ℕ, zero, suc, ◌∷◌, ap, ◌*◌, ◌^◌, ◌<◌, ◌≡◌, ◌≢◌, refl, subst, inl, inr, List, [], Bool, true,
  false, Option, some, get_elem?, Option-cases,
}
use s4_lib_lite.SimpleQ.Platform.{Platform}
use s4_lib_lite.SimpleQ.Pool.{
  Handle, Host, to_pool, to_ptoc, Outcome, done, thrown, stuck, Pool, fresh, construct, after_init,
  P_get, P_get_try_best, C_recv, C_get_bulk, destroy, give_back, frames_of, P_send_bulk,
  write_frame,
}
use s4_lib_lite.SimpleQ.Client.{
  system, System, Step, gets, tries_best, tried_best, makes, receives, receives_bulk, ends,
  sends_bulk, writes, Reach, here, next,
}
use s4_lib_lite.SimpleQ.Ownership.{started-eq}
use s4_lib_lite.SimpleQ.Blocks.{Apart, All, AllApart, Within, IsAllocator, IsLaid, IsLaid-same}
use s4_lib_lite.SimpleQ.Disjoint.{malloc_particle-IsLaid, init_data_pool-IsLaid}

-- Two buffers of a list that are apart all are apart.
All-get : (P : ℕ → Type 0) (xs : List ℕ) (i : ℕ) {x : ℕ} → All P xs → get_elem? xs i ≡ some x → P x
All-get P [] i h e = cc
All-get P (x ∷ xs) zero h e = subst P (cc) h.0
All-get P (x ∷ xs) (suc i) h e = All-get P xs i h.1 e

AllApart-get :
    (page i j : ℕ) (xs : List ℕ) {x y : ℕ}
    → AllApart page xs
    → i ≢ j
    → get_elem? xs i ≡ some x
    → get_elem? xs j ≡ some y
    → Apart x page y page
AllApart-get page i j [] h n e f = cc
AllApart-get page zero zero (z ∷ xs) h n e f = absurd (n refl)
AllApart-get page zero (suc j) (z ∷ xs) {x} {y} h n e f =
    subst (λ a. Apart a page y page) (cc) (All-get (λ b. Apart z page b page) xs j h.0 f)
AllApart-get page (suc i) zero (z ∷ xs) {x} {y} h n e f =
    let apart : Apart y page x page =
      subst (λ a. Apart a page x page) (cc) (All-get (λ b. Apart z page b page) xs i h.0 e) in
    elim apart [ inl q ↦ inr q | inr q ↦ inl q ]
AllApart-get page (suc i) (suc j) (z ∷ xs) h n e f =
    AllApart-get page i j xs h.1 (λ q. n (ap suc q)) e f

module _ {p : Platform} {A : Type 0} {page : ℕ} where
  P_get-IsLaid : (s : Pool p A) → IsLaid page s → IsLaid page (P_get s).1
  unfolding P_get
  P_get-IsLaid s v = elim (Option-cases (p.dequeue s.data_pool)) [
    | inl e ↦ rw (e, P_get) v
    | inr ((x, q), e) ↦ rw (e, P_get) (IsLaid-same s _ refl refl refl v)
  ]

  C_recv-IsLaid : (s : Pool p A) → IsLaid page s → IsLaid page (C_recv s).1
  unfolding C_recv
  C_recv-IsLaid s v = elim (Option-cases (p.dequeue s.data_ptoc)) [
    | inl e ↦ rw (e, C_recv) v
    | inr ((x, q), e) ↦ rw (e, C_recv) (IsLaid-same s _ refl refl refl v)
  ]

  give_back-IsLaid :
      (o : Host) (a : ℕ) (s : Pool p A) → IsLaid page s → IsLaid page (give_back o a s)
  unfolding give_back
  give_back-IsLaid to_pool a s v = elim (Option-cases (p.enqueue s.data_pool a)) [
    | inl e ↦ rw (e, give_back) v
    | inr (q, e) ↦ rw (e, give_back) (IsLaid-same s _ refl refl refl v)
  ]
  give_back-IsLaid to_ptoc a s v = elim (Option-cases (p.enqueue s.data_ptoc a)) [
    | inl e ↦ rw (e, give_back) v
    | inr (q, e) ↦ rw (e, give_back) (IsLaid-same s _ refl refl refl v)
  ]

  P_send_bulk-IsLaid :
      (hs : List Handle) (s : Pool p A) → IsLaid page s → IsLaid page (P_send_bulk hs s)
  unfolding P_send_bulk
  P_send_bulk-IsLaid hs s v = elim (Option-cases (p.enqueue_bulk s.data_ptoc (frames_of hs))) [
    | inl e ↦ rw (e, P_send_bulk) v
    | inr (q, e) ↦ rw (e, P_send_bulk) (IsLaid-same s _ refl refl refl v)
  ]

  C_get_bulk-IsLaid : (n : ℕ) (s : Pool p A) → IsLaid page s → IsLaid page (C_get_bulk n s).1
  unfolding C_get_bulk
  C_get_bulk-IsLaid n s v = IsLaid-same s _ refl refl refl v

  write_frame-IsLaid :
      (a : ℕ) (x : A) (s : Pool p A) → IsLaid page s → IsLaid page (write_frame a x s)
  unfolding write_frame
  write_frame-IsLaid a x s v = IsLaid-same s _ refl refl refl v

  after_init-IsLaid :
      (again : Pool p A → Outcome (Option Handle) × Pool p A) (r : Outcome Bool × Pool p A)
      → ((t : Pool p A) → IsLaid page t → IsLaid page (again t).1)
      → IsLaid page r.1
      → IsLaid page (after_init again r).1
  unfolding after_init
  after_init-IsLaid again (done true, t) ih v = ih t v
  after_init-IsLaid again (done false, t) ih v = v
  after_init-IsLaid again (thrown, t) ih v = v
  after_init-IsLaid again (stuck, t) ih v = v

module _ {p : Platform} {A : Type 0} {page : ℕ} (fine : IsAllocator p)
    (small : page * 64 < 2 ^ 64) where
  P_get_try_best-IsLaid :
      (fuel : ℕ) (s : Pool p A) → IsLaid page s → IsLaid page (P_get_try_best fuel s).1
  unfolding P_get_try_best
  P_get_try_best-IsLaid zero s v = v
  P_get_try_best-IsLaid (suc fuel) s v = elim (Option-cases (p.dequeue s.data_pool)) [
    | inl e ↦
        rw (e, P_get_try_best)
          (after_init-IsLaid (λ t. P_get_try_best fuel t) _ (λ t. P_get_try_best-IsLaid fuel t)
            (init_data_pool-IsLaid fine 64 s small v))
    | inr ((x, q), e) ↦ rw (e, P_get_try_best) (IsLaid-same s _ refl refl refl v)
  ]

  tried-IsLaid :
      (fuel : ℕ) (s q : Pool p A) (r : Outcome (Option Handle))
      → P_get_try_best fuel s ≡ (r, q)
      → IsLaid page s
      → IsLaid page q
  tried-IsLaid fuel s q r e v = subst (λ x. IsLaid page x.1) e (P_get_try_best-IsLaid fuel s v)

  Step-IsLaid : {s t : System p A} → Step s t → IsLaid page s.pool → IsLaid page t.pool
  unfolding destroy
  Step-IsLaid {s} (gets h q e) v = subst (λ x. IsLaid page x.1) e (P_get-IsLaid s.pool v)
  Step-IsLaid {s} (tries_best fuel h q e) v = tried-IsLaid fuel s.pool q _ e v
  Step-IsLaid {s} (tried_best fuel r q e n) v = tried-IsLaid fuel s.pool q r e v
  Step-IsLaid {s} makes v = malloc_particle-IsLaid fine 64 s.pool small v
  Step-IsLaid {s} (receives h q e) v = subst (λ x. IsLaid page x.1) e (C_recv-IsLaid s.pool v)
  Step-IsLaid {s} (receives_bulk n) v = C_get_bulk-IsLaid n s.pool v
  Step-IsLaid {s} (ends h rest sp) v = give_back-IsLaid h.host h.frame s.pool v
  Step-IsLaid {s} (sends_bulk given rest sp) v = P_send_bulk-IsLaid given s.pool v
  Step-IsLaid {s} (writes h rest x sp) v = write_frame-IsLaid h.frame x s.pool v

  Reach-IsLaid : {s t : System p A} → IsLaid page s.pool → Reach s t → IsLaid page t.pool
  Reach-IsLaid v here = v
  Reach-IsLaid v (next r st) = Step-IsLaid st (Reach-IsLaid v r)

construct-IsLaid :
    {p : Platform} {A : Type 0} (fine : IsAllocator p) (init_depth page_size : ℕ)
    (all_memalign : Bool) (frames : ℕ → A) (q : Pool p A)
    → page_size * init_depth < 2 ^ 64
    → construct init_depth page_size all_memalign frames ≡ done q
    → IsLaid page_size q
unfolding construct
construct-IsLaid {p} {A} fine n size b frames q fits e =
    let empty : IsLaid {p = p} {A = A} size (fresh size b frames) = record {
      size_kept = refl;
      blocks = tt;
      inside = tt;
      all_apart = tt;
    } in
    subst (IsLaid size) (started-eq _ q e)
      (init_data_pool-IsLaid fine n (fresh size b frames) fits empty)

-- Where a new block of memory shares no byte with a block still held, and neither the first number
-- of frames nor 64 of them need more bytes than a `size_t` counts: after any steps of clients from a
-- newly constructed queue, the buffers of two different frames share no byte, and each lies inside
-- one block that the queue holds.
pub run-Apart :
    {p : Platform} {A : Type 0} (fine : IsAllocator p) (init_depth page_size : ℕ)
    (all_memalign : Bool) (frames : ℕ → A) (q : Pool p A) (t : System p A)
    → page_size * init_depth < 2 ^ 64
    → page_size * 64 < 2 ^ 64
    → construct init_depth page_size all_memalign frames ≡ done q
    → Reach (system q []) t
    → (i j x y : ℕ) → i ≢ j
    → get_elem? t.pool.buffers i ≡ some x
    → get_elem? t.pool.buffers j ≡ some y
    → Apart x page_size y page_size × Within page_size t.pool.mem_hoster x
run-Apart fine n size b frames q t fits small e r i j x y ne at_i at_j =
    let v = Reach-IsLaid fine small (construct-IsLaid fine n size b frames q fits e) r in
    (
      AllApart-get size i j t.pool.buffers v.all_apart ne at_i at_j,
      All-get (Within size t.pool.mem_hoster) t.pool.buffers i v.inside at_i,
    )
