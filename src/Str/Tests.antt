-- ===== src/Str/Tests.antt =====
-- The texts of src/hp_str.c at concrete values.
use libhp.Common.{
  ℕ, List, Bytes, none, some, ◌≡◌, refl, true, false, any, [], ◌∷◌, ◌++◌, arith, length, ◌==◌,
  if◌then◌else◌,
}
use libhp.Common.Int.{pos, negsuc, int_eq}
use libhp.Str.{lower_char, myatoi, str_find, strlwr, isblank}
use libhp.Str.Numbers.{Numeral, print_numeral, numeral_value, myatoi-numeral}
use libhp.Str.Find.{print_list, values, str_find-values}
use libhp.Str.Versions.{
  vercmp, compare_parts, compare_ints, int_lt, atoi, atoi_signed, atoi_digits, is_blank, strnrchr,
}
use libhp.Str.Header.{http_modify_header, has_prefix, is_separator}
use libhp.Str.Rewrite.{http_modify_header-value}

-- -12
abbrev minus_twelve : Numeral
minus_twelve = (true, 1, 2 ∷ [])

myatoi-numeral_example :
    myatoi (print_numeral minus_twelve ++ b',' ∷ []) (length (print_numeral minus_twelve))
    ≡ some (numeral_value minus_twelve)
myatoi-numeral_example =
    myatoi-numeral minus_twelve (b',' ∷ [])
      ((omega arith, (omega arith, tt)), omega arith, omega arith)

-- -12 and 7
abbrev seven : Numeral
seven = (false, 7, [])

str_find-values_example :
    str_find (pos 7) (print_list minus_twelve (seven ∷ []))
    ≡ some (any (int_eq (pos 7)) (values minus_twelve (seven ∷ [])))
str_find-values_example =
    str_find-values (pos 7) minus_twelve (seven ∷ [])
      (
        ((omega arith, (omega arith, tt)), omega arith, omega arith),
        ((omega arith, tt), omega arith, omega arith),
      )
      (omega arith)

found_seven : str_find (pos 7) (b'-' ∷ b'1' ∷ b'2' ∷ b',' ∷ b'7' ∷ []) ≡ some true
unfolding str_find
found_seven = refl

lowered : strlwr (b'A' ∷ b'z' ∷ b'9' ∷ []) ≡ b'a' ∷ b'z' ∷ b'9' ∷ []
unfolding strlwr
lowered = refl

blank_line : isblank (b' ' ∷ 9 ∷ []) ≡ true
unfolding isblank
blank_line = refl

abbrev cons_first : ℕ → List Bytes → List Bytes
cons_first c [] = (c ∷ []) ∷ []
cons_first c (xs ∷ xss) = (c ∷ xs) ∷ xss

-- The parts between the dots, and none of the empty string.
abbrev parts : Bytes → List Bytes
parts [] = [] ∷ []
parts (c ∷ cs) = let rest = parts cs in if c == 46 then [] ∷ rest else cons_first c rest

abbrev split_dots : Bytes → List Bytes
split_dots [] = []
split_dots (c ∷ cs) = parts (c ∷ cs)

-- The versions that the test of the program compares.
versions :
    (vercmp split_dots none (some []) ≡ pos 0)
    × (vercmp split_dots (some []) (some (b'1' ∷ [])) ≡ negsuc 0)
    × (vercmp split_dots (some (b'1' ∷ [])) (some (b'1' ∷ b'.' ∷ b'0' ∷ [])) ≡ pos 0)
    × (vercmp split_dots (some (b'1' ∷ b'.' ∷ b'0' ∷ b'.' ∷ b'1' ∷ [])) (some (b'1' ∷ [])) ≡ pos 1)
unfolding vercmp compare_parts compare_ints int_lt atoi atoi_signed atoi_digits is_blank
versions = (refl, refl, refl, refl)

last_dot : strnrchr (b'a' ∷ b'.' ∷ b'b' ∷ b'.' ∷ []) b'.' ≡ some 3
unfolding strnrchr
last_dot = refl

abbrev host : Bytes
host = b'H' ∷ b'o' ∷ b's' ∷ b't' ∷ []

-- "Q\nhost: a\r\n\r\n" with room for two more bytes
abbrev request : Bytes
request = b'Q' ∷ 10 ∷ b'h' ∷ b'o' ∷ b's' ∷ b't' ∷ 58 ∷ 32 ∷ b'a' ∷ 13 ∷ 10 ∷ 13 ∷ 10 ∷ 0 ∷ 0 ∷ []

http_modify_header-value_example :
    http_modify_header request 13 (some host) (some (b'b' ∷ b'c' ∷ [])) (some (b'A' ∷ []))
    ≡ some (
      pos 0,
      14,
      b'Q' ∷ 10 ∷ b'h' ∷ b'o' ∷ b's' ∷ b't' ∷ 58 ∷ 32 ∷ b'b' ∷ b'c' ∷ 13 ∷ 10 ∷ 13 ∷ 10 ∷ 0 ∷ [],
    )
unfolding has_prefix is_separator lower_char
http_modify_header-value_example =
    http_modify_header-value host (b'Q' ∷ 10 ∷ []) (b'h' ∷ b'o' ∷ b's' ∷ b't' ∷ []) (58 ∷ 32 ∷ [])
      (b'a' ∷ []) (13 ∷ 10 ∷ []) (0 ∷ 0 ∷ []) (b'b' ∷ b'c' ∷ []) (some (b'A' ∷ [])) refl refl
      (refl, (refl, tt)) (refl, (refl, tt)) (refl, (refl, refl, tt)) (refl, refl) (omega arith)
      (omega arith) (omega arith)

-- A text that is shorter than the header's name is searched past its end.
short_text : http_modify_header (b'Q' ∷ 13 ∷ []) 2 (some host) none none ≡ none
unfolding http_modify_header
short_text = refl

-- The name is found inside a longer one.
inside_a_name :
    http_modify_header
      (b'X' ∷ b'H' ∷ b'o' ∷ b's' ∷ b't' ∷ 58 ∷ b'a' ∷ 13 ∷ 10 ∷ [])
      9
      (some host)
      (some (b'b' ∷ []))
      none
    ≡ some (pos 0, 9, b'X' ∷ b'H' ∷ b'o' ∷ b's' ∷ b't' ∷ 58 ∷ b'b' ∷ 13 ∷ 10 ∷ [])
unfolding http_modify_header
inside_a_name = refl
