-- ===== src/SimpleQ/Tokens.antt =====
-- The token of the one producer: the order that it keeps, and the handles that have it.
use s4_lib_lite.Prelude.{
  ℕ, zero, suc, ◌≡◌, refl, ap, ◌∙◌, Bool, true, false, List, [], ◌∷◌, ◌++◌, map, Option, none, some,
  Option-cases, inl, inr,
}
use s4_lib_lite.SimpleQ.Platform.{Platform}
use s4_lib_lite.SimpleQ.Pool.{
  handle, Host, to_pool, to_ptoc, Outcome, done, thrown, stuck, Pool, frames_of, fill_pool,
  init_data_pool,
}
use s4_lib_lite.SimpleQ.Making.{Makes, malloc_particle-Makes}
use s4_lib_lite.SimpleQ.Single.{
  Tokens, TokenHandle, with_token, without_token, hold, got, single_get, single_after_init,
  single_try_best,
}

-- A queue that is filled by the one token alone, with what it holds.
pub data InOrder {p : Platform} (k : Tokens p) : p.Queue → List ℕ → Type 0 where
  start : InOrder k p.empty []
  put :
      {q r : p.Queue} {xs : List ℕ} (x : ℕ)
      → k.enqueue_by q x ≡ some r
      → InOrder k q xs
      → InOrder k r (xs ++ x ∷ [])
  take_first :
      {q r : p.Queue} {xs : List ℕ} (x : ℕ)
      → p.dequeue q ≡ some (x, r)
      → InOrder k q (x ∷ xs)
      → InOrder k r xs
  take_bulk :
      {q : p.Queue} {xs : List ℕ} (n : ℕ)
      → InOrder k q ((p.dequeue_bulk q n).0 ++ xs)
      → InOrder k (p.dequeue_bulk q n).1 xs

-- The documented order: what one producer has put in by its token comes out first in, first out, one
-- by one or in bulk.
pub record IsOrdered {p : Platform} (k : Tokens p) : Type 0 where
  pub first :
      (q r : p.Queue) (x : ℕ) (xs : List ℕ)
      → InOrder k q xs
      → p.dequeue q ≡ some (x, r)
      → (ys : List ℕ) × (xs ≡ x ∷ ys)
  pub first_bulk :
      (q : p.Queue) (n : ℕ) (xs : List ℕ)
      → InOrder k q xs
      → (ys : List ℕ) × (xs ≡ (p.dequeue_bulk q n).0 ++ ys)

-- The handles that send to the consumers have the token, and the others have none.
abbrev pub to_consumers : Host → Bool
to_consumers to_ptoc = true
to_consumers to_pool = false

pub data AreTokened : List TokenHandle → Type 0 where
  no_handle : AreTokened []
  one_more :
      {h : TokenHandle} {hs : List TokenHandle}
      → h.has_token ≡ to_consumers h.inner.host
      → AreTokened hs
      → AreTokened (h ∷ hs)

pub AreTokened-split :
    (xs ys : List TokenHandle) (h : TokenHandle)
    → AreTokened (xs ++ h ∷ ys)
    → (h.has_token ≡ to_consumers h.inner.host) × AreTokened (xs ++ ys)
AreTokened-split [] ys h (one_more e v) = (e, v)
AreTokened-split (x ∷ xs) ys h (one_more e v) =
    let rest = AreTokened-split xs ys h v in (rest.0, one_more e rest.1)

pub AreTokened-bulk :
    (frames : List ℕ) {hs : List TokenHandle}
    → AreTokened hs
    → AreTokened (map without_token (map (λ a. handle a to_pool) frames) ++ hs)
AreTokened-bulk [] v = v
AreTokened-bulk (a ∷ frames) v = one_more refl (AreTokened-bulk frames v)

pub frames_of-handles : (frames : List ℕ) → frames_of (map (λ a. handle a to_pool) frames) ≡ frames
frames_of-handles [] = refl
frames_of-handles (a ∷ frames) = ap (λ l. a ∷ l) (frames_of-handles frames)

pub some-same {ℓ} : {X : Type ℓ} {a b : X} → ◌≡◌ {A = Option X} (some a) (some b) → a ≡ b
some-same e = cc

module _ {p : Platform} {A : Type 0} where
  fill_pool-ptoc :
      (s : Pool p A) (r : Outcome (List ℕ) × Pool p A)
      → Makes [] s r
      → (fill_pool r).1.data_ptoc ≡ s.data_ptoc
  unfolding fill_pool
  fill_pool-ptoc s (done ps, t) m = m.ptoc_same
  fill_pool-ptoc s (thrown, t) m = m.ptoc_same
  fill_pool-ptoc s (stuck, t) m = m.ptoc_same

  pub init_data_pool-ptoc : (n : ℕ) (s : Pool p A) → (init_data_pool n s).1.data_ptoc ≡ s.data_ptoc
  unfolding init_data_pool
  init_data_pool-ptoc n s = fill_pool-ptoc s _ (malloc_particle-Makes n s)

module _ {p : Platform} {A : Type 0} (k : Tokens p) where
  -- What getting a frame leaves alone, and the handle that it makes.
  pub record Gets (s : Pool p A) (o : Option TokenHandle) (t : Pool p A) : Type 0 where
    pub ptoc_same : t.data_ptoc ≡ s.data_ptoc
    pub tokened : (hs : List TokenHandle) → AreTokened hs → AreTokened (hold o hs)

  Gets-none : (s t : Pool p A) → t.data_ptoc ≡ s.data_ptoc → Gets s none t
  Gets-none s t e = record { ptoc_same = e; tokened = λ hs v. v }

  Gets-some :
      (a : ℕ) (s t : Pool p A)
      → t.data_ptoc ≡ s.data_ptoc
      → Gets s (some (with_token (handle a to_ptoc))) t
  Gets-some a s t e = record { ptoc_same = e; tokened = λ hs v. one_more refl v }

  pub single_get-Gets : (s : Pool p A) → Gets s (single_get k s).0 (single_get k s).1
  unfolding single_get
  single_get-Gets s = elim (Option-cases (k.dequeue_by s.data_pool)) [
    | inl e ↦ rw (e, single_get) (Gets-none s s refl)
    | inr ((a, q), e) ↦ rw (e, single_get) (Gets-some a s (record s { data_pool = q }) refl)
  ]

  single_after_init-Gets :
      (s : Pool p A) (again : Pool p A → Outcome (Option TokenHandle) × Pool p A)
      (r : Outcome Bool × Pool p A)
      → ((t : Pool p A) → Gets t (got (again t).0) (again t).1)
      → r.1.data_ptoc ≡ s.data_ptoc
      → Gets s (got (single_after_init k again r).0) (single_after_init k again r).1
  unfolding single_after_init
  single_after_init-Gets s again (done true, t) ih e = record {
    ptoc_same = (ih t).ptoc_same ∙ e;
    tokened = (ih t).tokened;
  }
  single_after_init-Gets s again (done false, t) ih e = Gets-none s t e
  single_after_init-Gets s again (thrown, t) ih e = Gets-none s t e
  single_after_init-Gets s again (stuck, t) ih e = Gets-none s t e

  pub single_try_best-Gets :
      (fuel : ℕ) (s : Pool p A)
      → Gets s (got (single_try_best k fuel s).0) (single_try_best k fuel s).1
  unfolding single_try_best
  single_try_best-Gets zero s = Gets-none s s refl
  single_try_best-Gets (suc fuel) s = elim (Option-cases (k.dequeue_by s.data_pool)) [
    | inl e ↦
        rw (e, single_try_best)
          (single_after_init-Gets s (λ t. single_try_best k fuel t) _
            (λ t. single_try_best-Gets fuel t) (init_data_pool-ptoc 64 s))
    | inr ((a, q), e) ↦ rw (e, single_try_best) (Gets-some a s (record s { data_pool = q }) refl)
  ]
