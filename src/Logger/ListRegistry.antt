-- ===== src/Logger/ListRegistry.antt =====
-- A registry that is a list of names and files, which shows that the laws of spdlog can hold.
use s4_lib_lite.Prelude.{
  ℕ, ◌≡◌, ◌≢◌, refl, sym, ap, ◌∙◌, List, [], ◌∷◌, Option, none, some, Bool, true, false, Bytes,
  same_bytes, same_bytes_refl, same_bytes-ne, same_bytes-eq, if◌then◌else◌, Option-cases,
  Bool-cases, inl, inr,
}
use s4_lib_lite.Logger.Platform.{Spdlog, IsLawful}
use s4_lib_lite.Logger.Free.{CanCreate}

abbrev pub look : Bytes → List (Bytes × Bytes) → Option Bytes
look n [] = none
look n ((m, f) ∷ r) = if same_bytes m n then some f else look n r

abbrev pub remove : Bytes → List (Bytes × Bytes) → List (Bytes × Bytes)
remove n [] = []
remove n ((m, f) ∷ r) = if same_bytes m n then remove n r else (m, f) ∷ remove n r

abbrev add : Bytes → Bytes → List (Bytes × Bytes) → Option (List (Bytes × Bytes))
add n f r = elim (look n r) [ none ↦ some ((n, f) ∷ r) | some g ↦ none ]

abbrev pub listed : Spdlog
listed = record {
  Registry = List (Bytes × Bytes);
  Level = ℕ;
  info_level = 2;
  err_level = 4;
  create = λ n f size files r. add n f r;
  create_console = λ n r. add n [] r;
  drop = remove;
  file_of = look;
}

look-remove : (n m : Bytes) (r : List (Bytes × Bytes)) → m ≢ n → look m (remove n r) ≡ look m r
look-remove n m [] h = refl
look-remove n m ((x, f) ∷ r) h = elim (Bool-cases (same_bytes x n)) [
  | inl e ↦
      let x_is : x ≡ n = same_bytes-eq x n e in
      rw (e, same_bytes-ne x m (λ q. h (sym q ∙ x_is))) (look-remove n m r h)
  | inr e ↦ elim (Bool-cases (same_bytes x m)) [
    | inl g ↦ rw (e, g) refl
    | inr g ↦ rw (e, g) (look-remove n m r h)
  ]
]

add-is : (n f : Bytes) (r q : List (Bytes × Bytes)) → add n f r ≡ some q → q ≡ (n, f) ∷ r
add-is n f r q e = elim (Option-cases (look n r)) [
  | inl free ↦
      let got : ◌≡◌ {A = Option (List (Bytes × Bytes))} (some ((n, f) ∷ r)) (some q) =
        rw (free, add) at e in
      cc
  | inr (g, taken) ↦
      let got : ◌≡◌ {A = Option (List (Bytes × Bytes))} none (some q) = rw (taken, add) at e in cc
]

look-add :
    (n f m : Bytes) (r q : List (Bytes × Bytes)) → add n f r ≡ some q → m ≢ n → look m q ≡ look m r
look-add n f m r q e h = rw (add-is n f r q e, same_bytes-ne n m (λ x. h (sym x))) refl

look-added : (n f : Bytes) (r q : List (Bytes × Bytes)) → add n f r ≡ some q → look n q ≡ some f
look-added n f r q e = rw (add-is n f r q e, same_bytes_refl n) refl

add-taken : (n f g : Bytes) (r : List (Bytes × Bytes)) → look n r ≡ some g → add n f r ≡ none
add-taken n f g r e = rw (e, add) refl

pub listed-IsLawful : IsLawful listed
listed-IsLawful = record {
  create-file = λ n f size files r q e. look-added n f r q e;
  create-others = λ n f m size files r q e h. look-add n f m r q e h;
  console-others = λ n m r q e h. look-add n [] m r q e h;
  drop-others = λ n m r h. look-remove n m r h;
  create-taken = λ n f g size files r e. add-taken n f g r e;
}

abbrev pub is_some : Option Bytes → Bool
is_some none = false
is_some (some f) = true

abbrev pub in_list : Bytes → List (Bytes × Bytes) → Bool
in_list n r = is_some (look n r)

add-free :
    (n f : Bytes) (r : List (Bytes × Bytes))
    → in_list n r ≡ false
    → (q : List (Bytes × Bytes)) × (add n f r ≡ some q)
add-free n f r e = elim (Option-cases (look n r)) [
  | inl free ↦ ((n, f) ∷ r, rw (free, add) refl)
  | inr (g, taken) ↦ let clash : true ≡ false = sym (ap is_some taken) ∙ e in cc
]

look-remove_self : (n : Bytes) (r : List (Bytes × Bytes)) → look n (remove n r) ≡ none
look-remove_self n [] = refl
look-remove_self n ((x, f) ∷ r) = elim (Bool-cases (same_bytes x n)) [
  | inl e ↦ rw e (look-remove_self n r)
  | inr e ↦ rw (e, look, e) (look-remove_self n r)
]

pub listed-CanCreate : CanCreate listed in_list
listed-CanCreate = record {
  create-free = λ n f size files r e sized few. add-free n f r e;
  console-free = λ n r e. add-free n [] r e;
  create-has = λ n f m size files r q e h. ap is_some (look-add n f m r q e h);
  console-has = λ n m r q e h. ap is_some (look-add n [] m r q e h);
  drop-has = λ n m r h. ap is_some (look-remove n m r h);
  drop-self = λ n r. ap is_some (look-remove_self n r);
}
