-- ===== src/SimpleQ/Blocks.antt =====
-- Where the buffers of the frames lie: `malloc_particle` with addresses.
use s4_lib_lite.Prelude.{
  ℕ, ◌+◌, ◌≤◌, ◌<◌, ◌≡◌, ◌∙◌, ◌⊎◌, inl, inr, List, [], ◌∷◌, some, length, arith,
}
use s4_lib_lite.SimpleQ.Platform.{Platform}
use s4_lib_lite.SimpleQ.Pool.{Pool}

-- The `n` bytes from `a` on and the `m` bytes from `b` on have no byte in common.
abbrev pub Apart : ℕ → ℕ → ℕ → ℕ → Type 0
Apart a n b m = (a + n ≤ b) ⊎ (b + m ≤ a)

abbrev pub All {ℓ κ} : {A : Type ℓ} → (A → Type κ) → List A → Type κ
All P [] = Unit
All P (x ∷ xs) = P x × All P xs

pub All-map {ℓ κ} :
    {A : Type ℓ} {P Q : A → Type κ} → ((x : A) → P x → Q x) → (xs : List A) → All P xs → All Q xs
All-map f [] h = h
All-map f (x ∷ xs) h = (f x h.0, All-map f xs h.1)

-- Buffers of `page` bytes, no two of which share a byte.
abbrev pub AllApart : ℕ → List ℕ → Type 0
AllApart page [] = Unit
AllApart page (x ∷ xs) = All (λ y. Apart x page y page) xs × AllApart page xs

-- The buffer at `x` lies inside one of the blocks.
abbrev pub Within : ℕ → List (ℕ × ℕ) → ℕ → Type 0
Within page [] x = ⊥
Within page ((b, n) ∷ rest) x = ((b ≤ x) × (x + page ≤ b + n)) ⊎ Within page rest x

-- The blocks come from the allocator, the newest first.
abbrev pub FromAlloc : Platform → List (ℕ × ℕ) → Type 0
FromAlloc p [] = Unit
FromAlloc p ((b, n) ∷ rest) = (p.alloc n (length rest) ≡ some b) × FromAlloc p rest

-- What the code relies on: a new block shares no byte with one that is still held. The pool holds
-- its blocks until it ends.
pub record IsAllocator (p : Platform) : Type 0 where
  pub apart :
      (n m i j : ℕ) {a b : ℕ} → i < j → p.alloc n i ≡ some a → p.alloc m j ≡ some b → Apart a n b m

-- A buffer inside the blocks held shares no byte with the next block.
Within-Apart :
    {p : Platform} (fine : IsAllocator p) (page n x k : ℕ) {b : ℕ} (hosts : List (ℕ × ℕ))
    → length hosts ≤ k
    → p.alloc n k ≡ some b
    → FromAlloc p hosts
    → Within page hosts x
    → Apart x page b n
Within-Apart fine page n x k [] le e f w = elim w [ ]
Within-Apart fine page n x k ((c, m) ∷ rest) le e f (inl i) =
    elim (fine.apart m n (length rest) k (omega arith) f.0 e) [
      | inl h ↦ inl (omega arith)
      | inr h ↦ inr (omega arith)
    ]
Within-Apart fine page n x k ((c, m) ∷ rest) le e f (inr w) =
    Within-Apart fine page n x k rest (omega arith) e f.1 w

module _ {p : Platform} {A : Type 0} where
  -- Buffers of `page` bytes lie in the blocks that the pool holds, and share no byte.
  pub record IsLaid (page : ℕ) (s : Pool p A) : Type 0 where
    pub size_kept : s.page_size ≡ page
    pub blocks : FromAlloc p s.mem_hoster
    pub inside : All (Within page s.mem_hoster) s.buffers
    pub all_apart : AllApart page s.buffers

  -- A call that makes no frame.
  pub IsLaid-same :
      {page : ℕ} (s t : Pool p A)
      → t.page_size ≡ s.page_size
      → t.mem_hoster ≡ s.mem_hoster
      → t.buffers ≡ s.buffers
      → IsLaid page s
      → IsLaid page t
  IsLaid-same {page} s t e f g v = record {
    size_kept = e ∙ v.size_kept;
    blocks = rw f v.blocks;
    inside = rw (f, g) v.inside;
    all_apart = rw g v.all_apart;
  }

-- No buffer reaches into the next block.
pub blocks-AllApart :
    {p : Platform} (fine : IsAllocator p) (page n : ℕ) {b : ℕ} (hosts : List (ℕ × ℕ)) (xs : List ℕ)
    → p.alloc n (length hosts) ≡ some b
    → FromAlloc p hosts
    → All (Within page hosts) xs
    → All (λ y. Apart y page b n) xs
blocks-AllApart fine page n hosts xs e f v =
    All-map (λ y w. Within-Apart fine page n y (length hosts) hosts (omega arith) e f w) xs v
