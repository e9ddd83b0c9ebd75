-- ===== src/SimpleQ/ClassArray.antt =====
-- include/queue/shared_array.h: `shared_class_array`, an array of a derived class that is read through
-- its base class. The base class stands at the start of the derived one, as in the code that uses it.
use native.Mathlib.Nat.{mul-le-mul_right, suc-mul}
use s4_lib_lite.Prelude.{
  ℕ, suc, ◌+◌, ◌*◌, ◌≤◌, ◌<◌, ◌≡◌, ◌≢◌, refl, inl, inr, Bool, true, ◌&&◌, ◌==◌, Option, none, some,
  ltb, not, if◌then◌else◌, arith, ltb→lt, ap, ◌∙◌, Bool-cases,
}
use s4_lib_lite.SimpleQ.Blocks.{Apart}

-- An address of 0 is the null pointer.
pub record ClassArray : Type 0 where
  pub base : ℕ
  pub entry_nb : ℕ
  pub entry_size : ℕ

abbrev pub no_array : ClassArray
no_array = record { base = 0; entry_nb = 0; entry_size = 0 }

-- A failed `assert`, an exception with the state that it leaves, or the result.
pub data Made : Type 0 where
  aborts : Made
  throws : ClassArray → Made
  makes : Bool → ClassArray → Made

-- `init<T1>(len)`, where `size` is `sizeof(T1)` and `block` what `new T1[len]` comes to: an address, or
-- the exception. It never gives the null pointer.
unfoldable pub init_array : ℕ → ℕ → Option ℕ → ClassArray → Made
init_array size len block s =
    if s.entry_size == 0 && s.entry_nb == 0
    then elim block [
      | none ↦ throws (record s { entry_nb = len; entry_size = size })
      | some b ↦ makes true (record { base = b; entry_nb = len; entry_size = size })
    ]
    else aborts

-- Nothing is a failed `assert`.
unfoldable pub get_base : ℕ → ClassArray → Option ℕ
get_base n s =
    if not (s.entry_size == 0) && not (s.entry_nb == 0)
    then if ltb n s.entry_nb then some (s.base + n * s.entry_size) else none
    else none

-- Two different entries of one size.
entries_apart : (b i j size : ℕ) → i < j → (b + i * size) + size ≤ b + j * size
entries_apart b i j size h =
    let room = mul-le-mul_right {m = suc i} {n = j} size (omega arith) in
    omega (arith, room, suc-mul i size)

get_base_in :
    (b i len size : ℕ)
    → 0 < size
    → i < len
    → get_base i (record { base = b; entry_nb = len; entry_size = size }) ≡ some (b + i * size)
unfolding get_base
get_base_in b i len size h k = ground arith

-- An array of `len` entries that was made at `b`, entries and `len` being more than nothing: `get_base` is
-- defined exactly below `len`; an entry lies in the block, and shares no byte with another; and a
-- second `init` fails its `assert`.
pub get_base-Apart :
    (size len b : ℕ) (again : Option ℕ)
    → 0 < size
    → 0 < len
    → (s : ClassArray) × (init_array size len (some b) no_array ≡ makes true s)
      × (init_array size len again s ≡ aborts)
      × ((i : ℕ) → len ≤ i → get_base i s ≡ none)
      × ((i : ℕ)
          → i < len
          → (get_base i s ≡ some (b + i * size)) × ((b + i * size) + size ≤ b + len * size))
      × ((i j : ℕ) → i ≢ j → Apart (b + i * size) size (b + j * size) size)
unfolding init_array get_base
get_base-Apart size len b again h k = (
  record { base = b; entry_nb = len; entry_size = size },
  refl,
  ground arith,
  λ i out. ground arith,
  λ i below. (get_base_in b i len size h below, entries_apart b i len size below),
  λ i j ne. elim (Bool-cases (ltb i j)) [
    | inl lt ↦ inl (entries_apart b i j size (ltb→lt i j lt))
    | inr ge ↦ inr (entries_apart b j i size (ground arith))
  ],
)

-- Where the allocation of `init` throws, an array that is caught and used answers for every entry all
-- the same, with an address that counts from the null pointer.
get_base-thrown :
    (size len i : ℕ)
    → 0 < size
    → i < len
    → (s : ClassArray) × (init_array size len none no_array ≡ throws s)
      × (get_base i s ≡ some (i * size))
unfolding init_array
get_base-thrown size len i h k = (
  record { base = 0; entry_nb = len; entry_size = size },
  refl,
  get_base_in 0 i len size h k ∙ ap some (omega arith),
)
