-- ===== src/Url/Parse.antt =====
-- HTTPURL of include/network/parse_url.h: the constructor, and the members that it sets.
use s4_lib_lite.Prelude.{
  ℕ, ◌-◌, ◌%◌, ◌^◌, ◌&&◌, List, [], ◌∷◌, Option, none, some, Bytes, codes, leb, ltb, ◌==◌,
  if◌then◌else◌, length, take, drop,
}
use s4_lib_lite.Prelude.Atoi.{is_space, atoi_digits}
use s4_lib_lite.Strings.Find.{starts, find_first_not_of, find_last_not_of}
use s4_lib_lite.Strings.Edit.{up_to, string_to_lower}

pub record HttpUrl : Type 0 where
  pub protocol : Bytes
  pub domain : Bytes
  pub port : ℕ
  pub path : Bytes
  pub query : Bytes

-- " \\t\\n\\r"
abbrev pub url_blanks : Bytes
url_blanks = 32 ∷ 9 ∷ 10 ∷ 13 ∷ []

abbrev pub from_place : Option ℕ → Bytes → Bytes
from_place none str = str
from_place (some n) str = drop n str

unfoldable pub trim : Bytes → Bytes
unfolding find_first_not_of find_last_not_of
trim input =
    let str = up_to (find_last_not_of url_blanks input) input in
    from_place (find_first_not_of url_blanks str) str

abbrev pub allowed : List Bytes
allowed = codes "https://" ∷ codes "http://" ∷ codes "ftp://" ∷ []

-- The loop over `allowed`, which ends when the protocol is set: the protocol, and what is behind it.
unfoldable pub match_protocol : List Bytes → Bytes → Bytes × Bytes
unfolding starts
match_protocol [] u = ([], u)
match_protocol (c ∷ cs) u =
    if starts c u then (take (length c - 3) c, drop (length c) u) else match_protocol cs u

-- What is before the first `c`, and what is from there on.
abbrev pub before : ℕ → Bytes → Bytes
before c [] = []
before c (d ∷ s) = if d == c then [] else d ∷ before c s

abbrev pub from_first : ℕ → Bytes → Option Bytes
from_first c [] = none
from_first c (d ∷ s) = if d == c then some (d ∷ s) else from_first c s

-- `s.substr(pos + 1)`, or the empty text if nothing was found.
abbrev pub behind : Option Bytes → Bytes
behind none = []
behind (some []) = []
behind (some (c ∷ s)) = s

-- The slash is looked for from the second byte of the domain on.
abbrev pub url_domain : Bytes → Bytes
url_domain [] = []
url_domain (c ∷ s) = c ∷ before b'/' s

abbrev pub or_slash : Option Bytes → Bytes
or_slash none = b'/' ∷ []
or_slash (some s) = s

abbrev pub url_path : Bytes → Bytes
url_path [] = or_slash none
url_path (c ∷ s) = or_slash (from_first b'/' s)

-- `>>` of a stream into an int, as its last 16 bits: a number that is none is the bound on its side.
abbrev pub stream_sign : Bytes → ℕ
stream_sign [] = 0
stream_sign (c ∷ s) =
    let value = atoi_digits 0 s in
    if c == b'-'
    then (2 ^ 16 - (if leb value (2 ^ 31) then value else 2 ^ 31) % 2 ^ 16) % 2 ^ 16
    else (let plain = if c == b'+' then value else atoi_digits 0 (c ∷ s) in
        (if ltb plain (2 ^ 31) then plain else 2 ^ 31 - 1) % 2 ^ 16)

unfoldable pub stream_int : Bytes → ℕ
unfolding atoi_digits
stream_int [] = 0
stream_int (c ∷ s) = if is_space c then stream_int s else stream_sign (c ∷ s)

abbrev pub default_port : Bytes → ℕ
default_port protocol = if starts (codes "https") protocol && length protocol == 5 then 443 else 80

abbrev pub port_of : ℕ → Bytes → ℕ
port_of default [] = default
port_of default (c ∷ s) = stream_int (c ∷ s)

unfoldable pub http_url : Bytes → HttpUrl
unfolding trim match_protocol stream_int string_to_lower
http_url url =
    let (protocol, rest) = match_protocol allowed (trim url) in
    let domain = url_domain rest in
    let path = before b'#' (url_path rest) in
    record {
      protocol = protocol;
      domain = string_to_lower (before b':' domain);
      port = port_of (default_port protocol) (behind (from_first b':' domain));
      path = before b'?' path;
      query = behind (from_first b'?' path);
    }
