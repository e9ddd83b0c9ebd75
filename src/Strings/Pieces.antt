-- ===== src/Strings/Pieces.antt =====
-- `string_split` and `string_replace` agree on the pieces of a text.
use mathlib.Core.List.{append_assoc}
use s4_lib_lite.Prelude.{
  ℕ, zero, suc, ◌+◌, ◌≤◌, ◌<◌, ◌≡◌, ◌≢◌, refl, ap, ◌∙◌, List, [], ◌∷◌, ◌++◌, Option, none, some,
  Bytes, length, take, drop, arith, Option-cases, inl, inr, ◌⊎◌,
}
use s4_lib_lite.Strings.Find.{find, starts, find-some, find-take}
use s4_lib_lite.Strings.Edit.{
  prepend, last_piece, split_loop, replace_loop, string_split, string_replace,
}

-- The pieces with the text between each two, and with the text behind each.
abbrev pub join : Bytes → List Bytes → Bytes
join p [] = []
join p (x ∷ []) = x
join p (x ∷ y ∷ ys) = x ++ (p ++ join p (y ∷ ys))

abbrev pub join_closed : Bytes → List Bytes → Bytes
join_closed p [] = []
join_closed p (x ∷ xs) = x ++ (p ++ join_closed p xs)

-- None of the pieces has the text in it.
abbrev pub AllFree : Bytes → List Bytes → Type 0
AllFree p [] = Unit {0}
AllFree p (x ∷ xs) = (find p x ≡ none) × AllFree p xs

-- The text is its pieces, and so is the replaced text. Where the separator stands behind the last
-- piece too, there is no empty piece at the end.
abbrev pub Agree : Bytes → Bytes → Bytes → Bytes → List Bytes → Option Bytes → Type 0
Agree p new done s xs replaced =
    ((s ≡ join p xs) × (replaced ≡ some (done ++ join new xs)) × (xs ≢ []))
    ⊎ ((s ≡ join_closed p xs) × (replaced ≡ some (done ++ join_closed new xs)))

drop-length : (n : ℕ) (s : Bytes) → n ≤ length s → length (drop n s) + n ≡ length s
drop-length zero s h = omega arith
drop-length (suc n) [] h = absurd (omega arith)
drop-length (suc n) (c ∷ s) h = omega (arith, drop-length n s (omega arith))

split_loop-none :
    (fuel : ℕ) (p s : Bytes) → find p s ≡ none → split_loop (suc fuel) p s ≡ some (last_piece s)
unfolding split_loop
split_loop-none fuel p s e = rw (e, split_loop) refl

split_loop-some :
    (fuel : ℕ) (p s : Bytes) (n : ℕ)
    → find p s ≡ some n
    → split_loop (suc fuel) p s ≡ prepend (take n s) (split_loop fuel p (drop (n + length p) s))
unfolding split_loop
split_loop-some fuel p s n e = rw (e, split_loop) refl

replace_loop-none :
    (fuel : ℕ) (p new done s : Bytes)
    → find p s ≡ none
    → replace_loop (suc fuel) p new done s ≡ some (done ++ s)
unfolding replace_loop
replace_loop-none fuel p new done s e = rw (e, replace_loop) refl

replace_loop-some :
    (fuel : ℕ) (p new done s : Bytes) (n : ℕ)
    → find p s ≡ some n
    → replace_loop (suc fuel) p new done s
      ≡ replace_loop fuel p new (done ++ (take n s ++ new)) (drop (n + length p) s)
unfolding replace_loop
replace_loop-some fuel p new done s n e = rw (e, replace_loop) refl

-- The last piece.
Agree-last :
    (c : ℕ) (p new done s : Bytes)
    → find (c ∷ p) s ≡ none
    → AllFree (c ∷ p) (last_piece s) × Agree (c ∷ p) new done s (last_piece s) (some (done ++ s))
Agree-last c p new done [] e = (tt, inr (refl, refl))
Agree-last c p new done (b ∷ s) e = ((e, tt), inl (refl, refl, λ x. cc))

-- A piece before others.
Agree-cons :
    (p new done x s rest : Bytes) (xs : List Bytes) (replaced : Option Bytes)
    → s ≡ x ++ (p ++ rest)
    → Agree p new (done ++ (x ++ new)) rest xs replaced
    → Agree p new done s (x ∷ xs) replaced
Agree-cons p new done x s rest [] replaced e (inl (f, g, h)) = absurd (h refl)
Agree-cons p new done x s rest (y ∷ ys) replaced e (inl (f, g, h)) = inl (
  e ∙ ap (λ t. x ++ (p ++ t)) f,
  g ∙ ap some (append_assoc done (x ++ new) _ ∙ ap (λ t. done ++ t) (append_assoc x new _)),
  λ z. cc,
)
Agree-cons p new done x s rest xs replaced e (inr (f, g)) = inr (
  e ∙ ap (λ t. x ++ (p ++ t)) f,
  g ∙ ap some (append_assoc done (x ++ new) _ ∙ ap (λ t. done ++ t) (append_assoc x new _)),
)

-- The pieces of a text that is gone through with enough fuel.
loops-Agree :
    (fuel : ℕ) (c : ℕ) (p new done s : Bytes)
    → length s < fuel
    → (xs : List Bytes) × (split_loop fuel (c ∷ p) s ≡ some xs)
      × AllFree (c ∷ p) xs
      × Agree (c ∷ p) new done s xs (replace_loop fuel (c ∷ p) new done s)
loops-Agree zero c p new done s h = absurd (omega arith)
loops-Agree (suc fuel) c p new done s h = elim (Option-cases (find (c ∷ p) s)) [
  | inl e ↦
      let last = Agree-last c p new done s e in
      (
        last_piece s,
        split_loop-none fuel (c ∷ p) s e,
        last.0,
        rw (replace_loop-none fuel (c ∷ p) new done s e) last.1,
      )
  | inr (n, e) ↦
      let (parts, fits) = find-some (c ∷ p) s n e in
      let rest = drop (n + length (c ∷ p)) s in
      let shorter = drop-length (n + length (c ∷ p)) s fits in
      let (xs, split, free, agree) =
        loops-Agree fuel c p new (done ++ (take n s ++ new)) rest (omega arith) in
      (
        take n s ∷ xs,
        split_loop-some fuel (c ∷ p) s n e ∙ ap (prepend (take n s)) split,
        (find-take c p s n e, free),
        rw (replace_loop-some fuel (c ∷ p) new done s n e)
            (Agree-cons (c ∷ p) new done (take n s) s rest xs _ parts agree),
      )
]

-- For every separator that is not empty, every text and every replacement, `string_split` and
-- `string_replace` come to their ends, no piece has the separator in it, and either the text is the
-- pieces joined by the separator and the replaced text the pieces joined by the replacement, or both
-- are this with the separator and the replacement behind the last piece too.
pub string_split-string_replace :
    (c : ℕ) (p new s : Bytes)
    → (xs : List Bytes) × (string_split s (c ∷ p) ≡ some xs)
      × AllFree (c ∷ p) xs
      × Agree (c ∷ p) new [] s xs (string_replace (c ∷ p) new s)
unfolding string_split string_replace
string_split-string_replace c p new s = loops-Agree (suc (length s)) c p new [] s (omega arith)

find-empty : (s : Bytes) → find [] s ≡ some 0
unfolding find starts
find-empty [] = refl
find-empty (c ∷ s) = refl

-- With an empty separator or an empty text to replace, neither loop ends, whatever the fuel.
empty_separator-hangs :
    (fuel : ℕ) (new done s : Bytes)
    → (split_loop fuel [] s ≡ none) × (replace_loop fuel [] new done s ≡ none)
unfolding split_loop replace_loop
empty_separator-hangs zero new done s = (refl, refl)
empty_separator-hangs (suc fuel) new done s =
    let later = empty_separator-hangs fuel new (done ++ ([] ++ new)) s in
    (
      split_loop-some fuel [] s 0 (find-empty s) ∙ ap (prepend (take 0 s)) later.0,
      replace_loop-some fuel [] new done s 0 (find-empty s) ∙ later.1,
    )
