-- ===== src/Str.antt =====
-- src/hp_str.c: case, numbers and lists of numbers in texts. A text is its bytes without the final NUL.
-- A number of more than 64 digits or from 2^31 on, or more than 256 numbers in a list, is `none`: the
-- code has no check, and writes past an array or overflows an `int`.
pub mod Find
pub mod Versions
pub mod Numbers
pub mod Header
pub mod Located
pub mod Replaced
pub mod Rewrite
mod Tests
use libhp.Common.{
  ℕ, zero, suc, ◌+◌, ◌-◌, ◌*◌, ◌^◌, Bool, true, false, ◌&&◌, ◌||◌, Option, none, some, List, [],
  ◌∷◌, ◌++◌, map, leb, ltb, ◌==◌, if◌then◌else◌, length, take, drop, Bytes, not,
}
use libhp.Common.Int.{ℤ, pos, negsuc, neg_ℕ, int_eq}

unfoldable pub lower_char : ℕ → ℕ
lower_char c = if leb 65 c && leb c 90 then c + (97 - 65) else c

unfoldable pub strlwr : Bytes → Bytes
unfolding lower_char
strlwr s = map lower_char s

unfoldable pub upper_char : ℕ → ℕ
upper_char c = if leb 97 c && leb c 122 then c - (97 - 65) else c

unfoldable pub strupr : Bytes → Bytes
unfolding upper_char
strupr s = map upper_char s

unfoldable pub is_digit : ℕ → Bool
is_digit c = leb 48 c && leb c 57

-- `ints`: the values of the digits at the front, of `len` bytes at most.
unfoldable pub digits : Bytes → ℕ → List ℕ
unfolding is_digit
digits [] len = []
digits (c ∷ str) zero = []
digits (c ∷ str) (suc len) = if is_digit c then (c - 48) ∷ digits str len else []

-- The sum of `ints[j] * pow(10, i - j - 1)`.
unfoldable pub weigh : List ℕ → ℕ → ℕ
weigh [] r = r
weigh (d ∷ ints) r = weigh ints (r + d * 10 ^ length ints)

unfoldable pub is_sign : ℕ → Bool
is_sign c = (c == 43) || (c == 45)

-- `int r`, and `int ints[64]`: `none` is an overflow.
unfoldable pub int_of : List ℕ → Option ℕ
unfolding weigh
int_of ints =
    if leb (length ints) 64 && ltb (weigh ints 0) (2 ^ 31) then some (weigh ints 0) else none

unfoldable pub signed : Bool → Option ℕ → Option ℤ
signed f (some r) = some (if f then neg_ℕ r else pos r)
signed f none = none

-- `len` bytes of the text; what follows them in memory is in `str` too.
unfoldable pub myatoi : Bytes → ℕ → Option ℤ
unfolding digits int_of is_sign signed
myatoi [] len = some (pos 0)
myatoi (c ∷ str) zero = some (pos 0)
myatoi (c ∷ str) (suc len) =
    if is_sign c
    then signed (c == 45) (int_of (digits str len))
    else signed false (int_of (digits (c ∷ str) (suc len)))

-- strchr(p, ','), as the number of bytes before it, or all of them.
unfoldable pub to_comma : Bytes → ℕ
to_comma [] = 0
to_comma (c ∷ str) = if c == 44 then 0 else suc (to_comma str)

-- `if(q - p > 0) protos[n++] = myatoi(p, q - p);`
unfoldable pub item_of : Bytes → ℕ → Option (List ℤ)
unfolding myatoi
item_of p zero = some []
item_of p (suc len) = elim (myatoi p (suc len)) [ none ↦ none | some x ↦ some (x ∷ []) ]

unfoldable pub followed_by : Option (List ℤ) → Option (List ℤ) → Option (List ℤ)
followed_by (some xs) (some ys) = some (xs ++ ys)
followed_by (some xs) none = none
followed_by none ys = none

-- The loop of hp_str_find on fuel: the numbers between the commas, until `q == end`.
unfoldable pub protos : ℕ → Bytes → Option (List ℤ)
unfolding item_of to_comma followed_by
protos zero p = none
protos (suc fuel) p =
    let rest = protos fuel (drop (suc (to_comma p)) p) in
    if to_comma p == length p
    then item_of p (to_comma p)
    else followed_by (item_of p (to_comma p)) rest

unfoldable pub among : ℤ → List ℤ → Bool
among val [] = false
among val (x ∷ xs) = if int_eq val x then true else among val xs

-- `int protos[256]`
unfoldable pub among_protos : ℤ → Option (List ℤ) → Option Bool
unfolding among
among_protos val none = none
among_protos val (some xs) = if leb (length xs) 256 then some (among val xs) else none

-- A round passes over a comma.
unfoldable pub str_find : ℤ → Bytes → Option Bool
unfolding protos among_protos
str_find val [] = some false
str_find val (c ∷ str) = among_protos val (protos (length (c ∷ str) + 1) (c ∷ str))

-- isspace in the C locale
unfoldable pub is_space : ℕ → Bool
is_space c = (c == 32) || (leb 9 c && leb c 13)

unfoldable pub isblank : Bytes → Bool
unfolding is_space
isblank [] = true
isblank (c ∷ line) = if not (is_space c) then false else isblank line
