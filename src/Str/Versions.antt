-- ===== src/Str/Versions.antt =====
-- hp_vercmp of src/hp_str.c compares versions by their numbers, and strnrchr finds the last place of a character.
use libhp.Common.{
  ℕ, zero, suc, ◌+◌, ◌-◌, ◌*◌, ◌≡◌, refl, inl, inr, Bool-cases, Bool, true, false, ◌&&◌, ◌||◌,
  Option, none, some, List, [], ◌∷◌, arith, ltb, leb, ◌==◌, if◌then◌else◌, Bytes,
}
use libhp.Common.Int.{ℤ, pos, negsuc, neg_ℕ}

-- isspace
unfoldable pub is_blank : ℕ → Bool
is_blank c = (c == 32) || (leb 9 c && leb c 13)

-- The decimal digits at the front, as `atoi` of the C library reads them.
unfoldable pub atoi_digits : Bytes → ℕ → ℕ
atoi_digits [] n = n
atoi_digits (c ∷ cs) n =
    let more = atoi_digits cs (n * 10 + (c - 48)) in if leb 48 c && leb c 57 then more else n

unfoldable pub atoi_signed : Bytes → ℤ
unfolding atoi_digits
atoi_signed [] = pos 0
atoi_signed (c ∷ cs) =
    if c == 45
    then neg_ℕ (atoi_digits cs 0)
    else if c == 43
    then pos (atoi_digits cs 0)
    else pos (atoi_digits (c ∷ cs) 0)

-- `atoi`, for numbers of an `int`
unfoldable pub atoi : Bytes → ℤ
unfolding atoi_signed is_blank
atoi [] = pos 0
atoi (c ∷ cs) = let rest = atoi cs in if is_blank c then rest else atoi_signed (c ∷ cs)

unfoldable pub int_lt : ℤ → ℤ → Bool
int_lt (pos m) (pos n) = ltb m n
int_lt (pos m) (negsuc n) = false
int_lt (negsuc m) (pos n) = true
int_lt (negsuc m) (negsuc n) = ltb n m

-- One round: 1, -1, or what the next rounds say.
unfoldable pub compare_ints : ℤ → ℤ → ℤ → ℤ
unfolding int_lt
compare_ints i_ver i_cmp rest =
    if int_lt i_cmp i_ver then pos 1 else if int_lt i_ver i_cmp then negsuc 0 else rest

-- The loop: a part that is missing is "0".
unfoldable pub compare_parts : List Bytes → List Bytes → ℤ
unfolding compare_ints atoi
compare_parts [] [] = pos 0
compare_parts [] (y ∷ ys) = compare_ints (pos 0) (atoi y) (compare_parts [] ys)
compare_parts (x ∷ xs) [] = compare_ints (atoi x) (pos 0) (compare_parts xs [])
compare_parts (x ∷ xs) (y ∷ ys) = compare_ints (atoi x) (atoi y) (compare_parts xs ys)

abbrev or_text : Option Bytes → Bytes
or_text (some s) = s
or_text none = []

-- hp_vercmp; `none` is NULL. `split` is sdssplitlen by ".", which is not in the repository.
unfoldable pub vercmp : (Bytes → List Bytes) → Option Bytes → Option Bytes → ℤ
unfolding compare_parts
vercmp split ver cmp = compare_parts (split (or_text ver)) (split (or_text cmp))

abbrev pub opposite : ℤ → ℤ
opposite (pos zero) = pos 0
opposite (pos (suc n)) = negsuc n
opposite (negsuc n) = pos (suc n)

int_lt-asym : (a b : ℤ) → int_lt a b ≡ true → int_lt b a ≡ false
unfolding int_lt
int_lt-asym (pos m) (pos n) h = ground (arith, h)
int_lt-asym (pos m) (negsuc n) h = ground (arith, h)
int_lt-asym (negsuc m) (pos n) h = refl
int_lt-asym (negsuc m) (negsuc n) h = ground (arith, h)

compare_ints-opposite :
    (a b r r' : ℤ) → r ≡ opposite r' → compare_ints a b r ≡ opposite (compare_ints b a r')
unfolding compare_ints
compare_ints-opposite a b r r' e = elim (Bool-cases (int_lt b a)) [
  | inl more ↦ rw (more, int_lt-asym b a more) refl
  | inr not_more ↦ elim (Bool-cases (int_lt a b)) [
    | inl less ↦ rw (not_more, less) refl
    | inr not_less ↦ rw (not_more, not_less) e
  ]
]

compare_parts-opposite : (xs ys : List Bytes) → compare_parts xs ys ≡ opposite (compare_parts ys xs)
unfolding compare_parts
compare_parts-opposite [] [] = refl
compare_parts-opposite [] (y ∷ ys) =
    compare_ints-opposite (pos 0) (atoi y) _ _ (compare_parts-opposite [] ys)
compare_parts-opposite (x ∷ xs) [] =
    compare_ints-opposite (atoi x) (pos 0) _ _ (compare_parts-opposite xs [])
compare_parts-opposite (x ∷ xs) (y ∷ ys) =
    compare_ints-opposite (atoi x) (atoi y) _ _ (compare_parts-opposite xs ys)

-- Exchanging the versions negates the result of hp_vercmp.
vercmp-opposite :
    (split : Bytes → List Bytes) (ver cmp : Option Bytes)
    → vercmp split ver cmp ≡ opposite (vercmp split cmp ver)
unfolding vercmp
vercmp-opposite split ver cmp = compare_parts-opposite (split (or_text ver)) (split (or_text cmp))

-- strnrchr, as the index of the last place of the character; the loop goes down from `sz - 1`.
unfoldable pub strnrchr : Bytes → ℕ → Option ℕ
strnrchr [] ch = none
strnrchr (c ∷ cs) ch = later (strnrchr cs ch) (c == ch)
  where
    later : Option ℕ → Bool → Option ℕ
    later (some i) here = some (suc i)
    later none true = some 0
    later none false = none
