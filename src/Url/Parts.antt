-- ===== src/Url/Parts.antt =====
-- A URL that is put together from its parts, and taken apart again.
use s4_lib_lite.Prelude.{
  both_true, ℕ, ◌-◌, ◌%◌, ◌^◌, ◌<◌, ◌≡◌, refl, ap, sym, ◌∙◌, true, false, [], ◌∷◌, ◌++◌, Option,
  none, some, Bytes, codes, ltb, ltb→lt, ◌==◌, if◌then◌else◌, arith,
}
use mathlib.Core.List.{append-nil, append_assoc}
use s4_lib_lite.Prelude.Atoi.{all_digits, is_space, is_digit, atoi_digits}
use s4_lib_lite.Strings.Find.{starts, is_in}
use s4_lib_lite.Strings.Edit.{string_to_lower}
use s4_lib_lite.Url.Parse.{
  url_blanks, trim, allowed, match_protocol, before, from_first, behind, url_domain, url_path,
  stream_int, default_port, port_of, http_url, or_slash,
}
use s4_lib_lite.Url.Spelling.{
  Scheme, https, http, ftp, name_of, spell_port, Parts, host, spell_path, spell_rest, spell_url,
  free, last_byte, is_port, IsUrl, first-found, none-found, free-append, free-all_digits,
  last_byte-append, trim-same,
}

http_url-steps :
    (url protocol rest domain whole path name digits before_mark query : Bytes) (port : ℕ)
    → trim url ≡ url
    → match_protocol allowed url ≡ (protocol, rest)
    → url_domain rest ≡ domain
    → url_path rest ≡ whole
    → before b'#' whole ≡ path
    → before b':' domain ≡ name
    → behind (from_first b':' domain) ≡ digits
    → before b'?' path ≡ before_mark
    → behind (from_first b'?' path) ≡ query
    → port_of (default_port protocol) digits ≡ port
    → http_url url ≡ record {
      protocol = protocol;
      domain = string_to_lower name;
      port = port;
      path = before_mark;
      query = query;
    }
unfolding http_url
http_url-steps url protocol rest domain whole path name digits before_mark query port e f g h k a b
      c d n =
    rw (http_url, e) (rw f (rw (g, h) (rw (k, a, b) (rw (c, d, n) refl))))

free-spell_port : (o : Option Bytes) → is_port o ≡ true → free b'/' (spell_port o) ≡ true
free-spell_port none e = refl
free-spell_port (some []) e = refl
free-spell_port (some (c ∷ s)) e = free-all_digits (c ∷ s) (both_true (all_digits (c ∷ s)) _ e).0

-- The domain and the path.
domain-spell :
    (p : Parts) → IsUrl p → url_domain (spell_rest p) ≡ host p ++ spell_port p.port_digits
domain-spell p v =
    ap (λ t. p.host_head ∷ t)
      (first-found b'/' (p.host_tail ++ spell_port p.port_digits)
        ((p.path ++ b'?' ∷ p.query) ++ b'#' ∷ p.fragment)
        (free-append b'/' p.host_tail (spell_port p.port_digits) v.host_no_slash
          (free-spell_port p.port_digits v.port_number))).0

path-spell : (p : Parts) → IsUrl p → url_path (spell_rest p) ≡ spell_path p ++ b'#' ∷ p.fragment
path-spell p v =
    ap or_slash
      (first-found b'/' (p.host_tail ++ spell_port p.port_digits)
        ((p.path ++ b'?' ∷ p.query) ++ b'#' ∷ p.fragment)
        (free-append b'/' p.host_tail (spell_port p.port_digits) v.host_no_slash
          (free-spell_port p.port_digits v.port_number))).1

hash-spell : (p : Parts) → IsUrl p → before b'#' (spell_path p ++ b'#' ∷ p.fragment) ≡ spell_path p
hash-spell p v =
    (first-found b'#' (spell_path p) p.fragment
      (free-append b'#' p.path (b'?' ∷ p.query) v.path_no_hash v.query_no_hash)).0

query-spell :
    (p : Parts)
    → IsUrl p
    → (before b'?' (spell_path p) ≡ b'/' ∷ p.path)
      × (from_first b'?' (spell_path p) ≡ some (b'?' ∷ p.query))
query-spell p v = first-found b'?' (b'/' ∷ p.path) p.query v.path_no_mark

-- The port that is meant.
abbrev pub meant_port : Scheme → Option Bytes → ℕ
meant_port https none = 443
meant_port http none = 80
meant_port ftp none = 80
meant_port scheme (some s) = atoi_digits 0 s

colon-spell :
    (h : Bytes) (o : Option Bytes)
    → free b':' h ≡ true
    → (before b':' (h ++ spell_port o) ≡ h)
      × (behind (from_first b':' (h ++ spell_port o)) ≡ (elim o [ none ↦ [] | some s ↦ s ]))
colon-spell h none e =
    let none_there = none-found b':' h e in
    (
      ap (before b':') (append-nil h) ∙ none_there.0,
      ap (λ t. behind (from_first b':' t)) (append-nil h) ∙ ap behind none_there.1,
    )
colon-spell h (some s) e = let there = first-found b':' h s e in (there.0, ap behind there.1)

small_port : (n : ℕ) → n < 2 ^ 16 → (if ltb n (2 ^ 31) then n else 2 ^ 31 - 1) % 2 ^ 16 ≡ n
small_port n h = ground arith

stream_int-digits :
    (c : ℕ) (s : Bytes)
    → is_digit c ≡ true
    → atoi_digits 0 (c ∷ s) < 2 ^ 16
    → stream_int (c ∷ s) ≡ atoi_digits 0 (c ∷ s)
unfolding stream_int
stream_int-digits c s e h =
    let no_space : is_space c ≡ false = ground arith in
    let no_minus : (c == b'-') ≡ false = ground arith in
    let no_plus : (c == b'+') ≡ false = ground arith in
    rw (stream_int, no_space, no_minus, no_plus) (small_port (atoi_digits 0 (c ∷ s)) h)

digits-meant :
    (c : ℕ) (s : Bytes) → is_port (some (c ∷ s)) ≡ true → stream_int (c ∷ s) ≡ atoi_digits 0 (c ∷ s)
digits-meant c s e =
    let parts = both_true (all_digits (c ∷ s)) (ltb (atoi_digits 0 (c ∷ s)) (2 ^ 16)) e in
    stream_int-digits c s (both_true (is_digit c) (all_digits s) parts.0).0 (ltb→lt _ _ parts.1)

port_of-meant :
    (scheme : Scheme) (o : Option Bytes)
    → is_port o ≡ true
    → port_of (default_port (name_of scheme)) (elim o [ none ↦ [] | some s ↦ s ])
      ≡ meant_port scheme o
unfolding starts
port_of-meant https none e = refl
port_of-meant http none e = refl
port_of-meant ftp none e = refl
port_of-meant k (some []) e = let no : false ≡ true = e in absurd (ground arith)
port_of-meant https (some (c ∷ s)) e = digits-meant c s e
port_of-meant http (some (c ∷ s)) e = digits-meant c s e
port_of-meant ftp (some (c ∷ s)) e = digits-meant c s e

last_byte-spell : (c : ℕ) (p : Parts) → last_byte c (spell_rest p) ≡ last_byte b'#' p.fragment
last_byte-spell c p =
    ap (last_byte c)
      (sym (append_assoc (host p ++ spell_port p.port_digits) (spell_path p) (b'#' ∷ p.fragment)))
    ∙ last_byte-append c b'#' ((host p ++ spell_port p.port_digits) ++ spell_path p) p.fragment

trim-scheme :
    (k : Scheme) (r : Bytes)
    → is_in (last_byte b'/' r) url_blanks ≡ false
    → trim (name_of k ++ (codes "://" ++ r)) ≡ name_of k ++ (codes "://" ++ r)
unfolding is_in
trim-scheme https r e = trim-same b'h' (codes "ttps://" ++ r) refl e
trim-scheme http r e = trim-same b'h' (codes "ttp://" ++ r) refl e
trim-scheme ftp r e = trim-same b'f' (codes "tp://" ++ r) refl e

match_protocol-scheme :
    (k : Scheme) (r : Bytes)
    → match_protocol allowed (name_of k ++ (codes "://" ++ r)) ≡ (name_of k, r)
unfolding match_protocol starts
match_protocol-scheme https r = refl
match_protocol-scheme http r = refl
match_protocol-scheme ftp r = refl

-- For every URL that is put together from a scheme of the three, a host without slash and colon,
-- perhaps a port of digits below 2 ^ 16, a path without question mark and hash, a query without hash
-- and a fragment that does not end in a blank, HTTPURL has the scheme, the host in small letters, the
-- port or else the default of the scheme, the path and the query.
pub http_url-spell_url :
    (p : Parts)
    → IsUrl p
    → http_url (spell_url p) ≡ record {
      protocol = name_of p.scheme;
      domain = string_to_lower (host p);
      port = meant_port p.scheme p.port_digits;
      path = b'/' ∷ p.path;
      query = p.query;
    }
http_url-spell_url p v =
    let colon = colon-spell (host p) p.port_digits v.host_no_colon in
    let mark = query-spell p v in
    let last = ap (λ c. is_in c url_blanks) (last_byte-spell b'/' p) ∙ v.ends_unblank in
    http_url-steps (spell_url p) (name_of p.scheme) (spell_rest p)
      (host p ++ spell_port p.port_digits) (spell_path p ++ b'#' ∷ p.fragment) (spell_path p)
      (host p) _ (b'/' ∷ p.path) p.query (meant_port p.scheme p.port_digits)
      (trim-scheme p.scheme (spell_rest p) last) (match_protocol-scheme p.scheme (spell_rest p))
      (domain-spell p v) (path-spell p v) (hash-spell p v) colon.0 colon.1 mark.0 (ap behind mark.1)
      (port_of-meant p.scheme p.port_digits v.port_number)
