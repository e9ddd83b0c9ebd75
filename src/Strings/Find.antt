-- ===== src/Strings/Find.antt =====
-- The searches of std::string that the program uses.
use s4_lib_lite.Prelude.{
  ℕ, zero, suc, ◌+◌, ◌≤◌, ◌≡◌, refl, ap, ◌∙◌, Bool, true, false, ◌&&◌, ◌||◌, [], ◌∷◌, ◌++◌, Option,
  none, some, Bytes, ◌==◌, if◌then◌else◌, length, take, drop, arith, Bool-cases, inl, inr, ◌⊎◌,
}

-- `s` begins with the first argument.
unfoldable pub starts : Bytes → Bytes → Bool
starts [] s = true
starts (c ∷ p) [] = false
starts (c ∷ p) (d ∷ s) = c == d && starts p s

abbrev pub shift : Option ℕ → Option ℕ
shift none = none
shift (some n) = some (suc n)

-- `s.find(p)`
unfoldable pub find : Bytes → Bytes → Option ℕ
unfolding starts
find p [] = if starts p [] then some 0 else none
find p (c ∷ s) = if starts p (c ∷ s) then some 0 else shift (find p s)

unfoldable pub is_in : ℕ → Bytes → Bool
is_in c [] = false
is_in c (d ∷ set) = d == c || is_in c set

-- `s.find_first_not_of(set)` and `s.find_last_not_of(set)`
unfoldable pub find_first_not_of : Bytes → Bytes → Option ℕ
unfolding is_in
find_first_not_of set [] = none
find_first_not_of set (c ∷ s) = if is_in c set then shift (find_first_not_of set s) else some 0

unfoldable pub find_last_not_of : Bytes → Bytes → Option ℕ
unfolding is_in
find_last_not_of set [] = none
find_last_not_of set (c ∷ s) = elim (find_last_not_of set s) [
  | some n ↦ some (suc n)
  | none ↦ if is_in c set then none else some 0
]

starts-split : (p s : Bytes) → starts p s ≡ true → s ≡ p ++ drop (length p) s
unfolding starts
starts-split [] s h = refl
starts-split (c ∷ p) [] h = cc
starts-split (c ∷ p) (d ∷ s) h = ground (arith, starts-split p s)

starts-take : (p s : Bytes) (n : ℕ) → starts p (take n s) ≡ true → starts p s ≡ true
unfolding starts
starts-take [] s n h = refl
starts-take (c ∷ p) [] zero h = cc
starts-take (c ∷ p) (d ∷ s) zero h = cc
starts-take (c ∷ p) [] (suc n) h = cc
starts-take (c ∷ p) (d ∷ s) (suc n) h = ground (arith, starts-take p s n)

zero_add : (n : ℕ) → n ≡ 0 + n
zero_add n = omega arith

suc_add : (m n : ℕ) → suc (m + n) ≡ suc m + n
suc_add m n = omega arith

starts-length : (p s : Bytes) → starts p s ≡ true → length p ≤ length s
unfolding starts
starts-length [] s h = omega arith
starts-length (c ∷ p) [] h = cc
starts-length (c ∷ p) (d ∷ s) h = ground (arith, starts-length p s)

-- The place is the head of the text, or one further than in the tail.
find-cases :
    (p : Bytes) (c : ℕ) (s : Bytes) (n : ℕ)
    → find p (c ∷ s) ≡ some n
    → ((starts p (c ∷ s) ≡ true) × (n ≡ 0))
      ⊎ ((m : ℕ) × (starts p (c ∷ s) ≡ false) × (find p s ≡ some m) × (n ≡ suc m))
unfolding find
find-cases p c s n h = elim (Bool-cases (starts p (c ∷ s))) [
  | inl e ↦ inl (e, ground (arith, e, h))
  | inr e ↦ inr (later e (find p s) refl (rw e at h))
]
  where
    later :
        starts p (c ∷ s) ≡ false
        → (o : Option ℕ) → find p s ≡ o
        → shift o ≡ some n
        → (m : ℕ) × (starts p (c ∷ s) ≡ false) × (find p s ≡ some m) × (n ≡ suc m)
    later e none f g = cc
    later e (some m) f g = (m, e, f, ground arith)

-- What stands around the place that is found, and that it is the first.
pub find-some :
    (p s : Bytes) (n : ℕ)
    → find p s ≡ some n
    → (s ≡ take n s ++ (p ++ drop (n + length p) s)) × (n + length p ≤ length s)
unfolding find starts
find-some [] [] n h = ground arith
find-some (c ∷ p) [] n h = cc
find-some p (c ∷ s) n h = elim (find-cases p c s n h) [
  | inl (e, z) ↦ rw z (
    starts-split p (c ∷ s) e ∙ ap (λ k. p ++ drop k (c ∷ s)) (zero_add (length p)),
    omega (arith, starts-length p (c ∷ s) e),
  )
  | inr (m, e, f, z) ↦
      let (parts, fits) = find-some p s m f in
      rw z (
        ap (λ t. c ∷ t) parts
            ∙ ap (λ k. c ∷ (take m s ++ (p ++ drop k (c ∷ s)))) (suc_add m (length p)),
        omega arith,
      )
]

pub find-take :
    (c : ℕ) (p s : Bytes) (n : ℕ) → find (c ∷ p) s ≡ some n → find (c ∷ p) (take n s) ≡ none
unfolding find starts
find-take c p s zero h = refl
find-take c p [] (suc n) h = refl
find-take c p (d ∷ s) (suc n) h = elim (find-cases (c ∷ p) d s (suc n) h) [
  | inl (e, z) ↦ absurd (omega arith)
  | inr (m, e, f, z) ↦ elim (Bool-cases (starts (c ∷ p) (take (suc n) (d ∷ s)))) [
    | inl g ↦ cc (starts-take (c ∷ p) (d ∷ s) (suc n) g)
    | inr g ↦ rw (g, find) (ap shift (find-take c p s n (f ∙ ap some (omega arith))))
  ]
]
