-- ===== src/Strings/Examples.antt =====
-- Texts that the functions are tried on.
use s4_lib_lite.Prelude.{◌≡◌, refl, List, [], ◌∷◌, ◌++◌, some, Bytes, codes, arith}
use s4_lib_lite.Strings.Edit.{
  string_replace, string_split, string_strip, string_strip_at_tail, string_to_upper,
  string_to_lower, string_format_number_comma,
}
use s4_lib_lite.Strings.Pieces.{AllFree, Agree, string_split-string_replace}
use s4_lib_lite.Strings.Commas.{with_commas, without_commas, string_format_number_comma-with_commas}

split_three : string_split (codes "a,bc,") (codes ",") ≡ some (codes "a" ∷ codes "bc" ∷ [])
unfolding string_split
split_three = refl

replace_twice : string_replace (codes "ab") (codes "x") (codes "abcab") ≡ some (codes "xcx")
unfolding string_replace
replace_twice = refl

strip_both : string_strip (codes " a b ") ≡ codes "a b"
unfolding string_strip
strip_both = refl

-- Blanks alone are left as they are.
strip_blank : string_strip (codes "  ") ≡ codes "  "
unfolding string_strip
strip_blank = refl

strip_tail_zeros : string_strip_at_tail (codes "1.500") (codes "0") ≡ codes "1.5"
unfolding string_strip_at_tail
strip_tail_zeros = refl

to_upper : string_to_upper (codes "aZ1") ≡ codes "AZ1"
unfolding string_to_upper
to_upper = refl

to_lower : string_to_lower (codes "aZ1") ≡ codes "az1"
unfolding string_to_lower
to_lower = refl

million : string_format_number_comma (codes "-1234567.8901") ≡ some (codes "-1,234,567.8901")
unfolding string_format_number_comma
million = refl

cut_at_nul : string_format_number_comma (b'1' ∷ b'2' ∷ b'3' ∷ b'4' ∷ 0 ∷ []) ≡ some (codes "1,234")
unfolding string_format_number_comma
cut_at_nul = refl

string_split-string_replace_example :
    (xs : List Bytes) × (string_split (codes "a,b,") (codes ",") ≡ some xs)
    × AllFree (codes ",") xs
    × Agree
        (codes ",")
        (codes ";")
        []
        (codes "a,b,")
        xs
        (string_replace (codes ",") (codes ";") (codes "a,b,"))
string_split-string_replace_example = string_split-string_replace b',' [] (codes ";") (codes "a,b,")

string_format_number_comma-with_commas_example :
    (string_format_number_comma (codes "12345.67")
      ≡ some (with_commas (codes "12345") ++ codes ".67"))
    × (without_commas (with_commas (codes "12345")) ≡ without_commas (codes "12345"))
string_format_number_comma-with_commas_example =
    string_format_number_comma-with_commas (codes "12345.67") refl (omega arith)
