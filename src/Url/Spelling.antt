-- ===== src/Url/Spelling.antt =====
-- What a URL is put together from, and the searches in such a text.
use s4_lib_lite.Prelude.{
  both_true, not-true, ℕ, zero, suc, ◌+◌, ◌^◌, ◌≤◌, ◌≡◌, refl, ap, ◌∙◌, Bool, true, false, not,
  ◌&&◌, [], ◌∷◌, ◌++◌, Option, none, some, Bytes, codes, ltb, ◌==◌, length, take, arith,
}
use s4_lib_lite.Prelude.Atoi.{all_digits, is_digit, atoi_digits}
use s4_lib_lite.Strings.Find.{is_in, find_first_not_of, find_last_not_of}
use s4_lib_lite.Strings.Edit.{up_to}
use s4_lib_lite.Url.Parse.{url_blanks, trim, from_place, before, from_first}

pub data Scheme : Type 0 where
  https http ftp : Scheme

abbrev pub name_of : Scheme → Bytes
name_of https = codes "https"
name_of http = codes "http"
name_of ftp = codes "ftp"

abbrev pub spell_port : Option Bytes → Bytes
spell_port none = []
spell_port (some p) = b':' ∷ p

-- The parts of a URL; the path has its slash.
pub record Parts : Type 0 where
  pub scheme : Scheme
  pub host_head : ℕ
  pub host_tail : Bytes
  pub port_digits : Option Bytes
  pub path : Bytes
  pub query : Bytes
  pub fragment : Bytes

abbrev pub host : Parts → Bytes
host p = p.host_head ∷ p.host_tail

abbrev pub spell_path : Parts → Bytes
spell_path p = b'/' ∷ (p.path ++ b'?' ∷ p.query)

-- What is behind the scheme.
abbrev pub spell_rest : Parts → Bytes
spell_rest p = (host p ++ spell_port p.port_digits) ++ (spell_path p ++ b'#' ∷ p.fragment)

abbrev pub spell_url : Parts → Bytes
spell_url p = name_of p.scheme ++ (codes "://" ++ spell_rest p)

-- No byte of the text is `c`.
abbrev pub free : ℕ → Bytes → Bool
free c [] = true
free c (d ∷ s) = not (d == c) && free c s

abbrev pub last_byte : ℕ → Bytes → ℕ
last_byte c [] = c
last_byte c (d ∷ s) = last_byte d s

abbrev pub is_port : Option Bytes → Bool
is_port none = true
is_port (some []) = false
is_port (some (c ∷ s)) = all_digits (c ∷ s) && ltb (atoi_digits 0 (c ∷ s)) (2 ^ 16)

pub record IsUrl (p : Parts) : Type 0 where
  pub host_no_slash : free b'/' p.host_tail ≡ true
  pub host_no_colon : free b':' (host p) ≡ true
  pub port_number : is_port p.port_digits ≡ true
  pub path_no_mark : free b'?' p.path ≡ true
  pub path_no_hash : free b'#' p.path ≡ true
  pub query_no_hash : free b'#' p.query ≡ true
  pub ends_unblank : is_in (last_byte b'#' p.fragment) url_blanks ≡ false

-- Where the first `c` follows a text that has none.
pub first-found :
    (c : ℕ) (s t : Bytes)
    → free c s ≡ true
    → (before c (s ++ c ∷ t) ≡ s) × (from_first c (s ++ c ∷ t) ≡ some (c ∷ t))
first-found c [] t e = let same : (c == c) ≡ true = ground arith in (rw same refl, rw same refl)
first-found c (d ∷ s) t e =
    let parts = both_true (not (d == c)) (free c s) e in
    let other = not-true (d == c) parts.0 in
    let rest = first-found c s t parts.1 in (rw other (ap (λ x. d ∷ x) rest.0), rw other rest.1)

pub none-found : (c : ℕ) (s : Bytes) → free c s ≡ true → (before c s ≡ s) × (from_first c s ≡ none)
none-found c [] e = (refl, refl)
none-found c (d ∷ s) e =
    let parts = both_true (not (d == c)) (free c s) e in
    let other = not-true (d == c) parts.0 in
    let rest = none-found c s parts.1 in (rw other (ap (λ x. d ∷ x) rest.0), rw other rest.1)

pub free-append : (c : ℕ) (s t : Bytes) → free c s ≡ true → free c t ≡ true → free c (s ++ t) ≡ true
free-append c [] t e f = f
free-append c (d ∷ s) t e f =
    let parts = both_true (not (d == c)) (free c s) e in rw (parts.0) (free-append c s t parts.1 f)

-- No digit is a slash.
pub free-all_digits : (s : Bytes) → all_digits s ≡ true → free b'/' s ≡ true
free-all_digits [] e = refl
free-all_digits (c ∷ s) e =
    let parts = both_true (is_digit c) (all_digits s) e in
    let other : (c == b'/') ≡ false = ground (arith, parts.0) in
    rw other (free-all_digits s parts.1)

pub last_byte-append : (c d : ℕ) (s t : Bytes) → last_byte c (s ++ d ∷ t) ≡ last_byte d t
last_byte-append c d [] t = refl
last_byte-append c d (e ∷ s) t = last_byte-append e d s t

find_last_not_of-last :
    (set : Bytes) (c : ℕ) (s : Bytes)
    → is_in (last_byte c s) set ≡ false
    → find_last_not_of set (c ∷ s) ≡ some (length s)
unfolding find_last_not_of is_in
find_last_not_of-last set c [] e = rw e refl
find_last_not_of-last set c (d ∷ s) e = rw (find_last_not_of-last set d s e) refl

take-all : (s : Bytes) (n : ℕ) → length s ≤ n → take n s ≡ s
take-all [] zero h = refl
take-all [] (suc n) h = refl
take-all (c ∷ s) zero h = absurd (omega arith)
take-all (c ∷ s) (suc n) h = ap (λ t. c ∷ t) (take-all s n (omega arith))

pub trim-same :
    (c : ℕ) (s : Bytes)
    → is_in c url_blanks ≡ false
    → is_in (last_byte c s) url_blanks ≡ false
    → trim (c ∷ s) ≡ c ∷ s
unfolding trim find_first_not_of
trim-same c s e f =
    let first : find_first_not_of url_blanks (c ∷ s) ≡ some 0 = rw (find_first_not_of, e) refl in
    ap (λ o. from_place (find_first_not_of url_blanks (up_to o (c ∷ s))) (up_to o (c ∷ s)))
      (find_last_not_of-last url_blanks c s f)
    ∙ ap (λ t. from_place (find_first_not_of url_blanks t) t)
        (take-all (c ∷ s) (length s + 1) (omega arith))
    ∙ ap (λ o. from_place o (c ∷ s)) first
