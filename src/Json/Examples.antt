-- ===== src/Json/Examples.antt =====
-- Texts in which objects are searched.
use s4_lib_lite.Prelude.{◌≡◌, refl, codes, false}
use s4_lib_lite.Json.Grammar.{Items, nil, plain, object, array, quoted, search_json-object}
use s4_lib_lite.Json.Search.{found, failed, illegal_stop, waiting_stop, out_of_bounds, search_json}

nested : search_json (codes "xx{\"a\":[1,{\"b\":2}]} tail") ≡ found 2 18
unfolding search_json
nested = refl

-- A brace within a string is counted.
brace_in_string : search_json (codes "{\"a\":\"}\"}") ≡ failed illegal_stop
unfolding search_json
brace_in_string = refl

no_brace : search_json (codes "abc") ≡ out_of_bounds
unfolding search_json
no_brace = refl

open_end : search_json (codes "{\"a\":1") ≡ failed waiting_stop
unfolding search_json
open_end = refl

last_backslash : search_json (codes "{\\") ≡ out_of_bounds
unfolding search_json
last_backslash = refl

-- "\"a\":[{}]"
member : Items false (codes "\"a\":[{}]")
member = quoted (plain b'a' refl nil) (plain b':' refl (array (object nil nil) nil))

search_json-object_example : search_json (codes "xy{\"a\":[{}]}z") ≡ found 2 11
search_json-object_example =
    search_json-object (codes "xy") (codes "\"a\":[{}]") (codes "z") (refl, (refl, tt)) member
