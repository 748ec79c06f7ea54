-- ===== src/Str/Find.antt =====
-- hp_str_find of src/hp_str.c on lists of numbers, and the change of case.
use libhp.Common.{
  ℕ, zero, suc, ◌+◌, ◌≤◌, ◌<◌, ◌≡◌, refl, sym, ap, ap₂, ◌∙◌, true, false, some, List, [], ◌∷◌, ◌++◌,
  append-nil, map, arith, ◌==◌, if◌then◌else◌, length, drop, length-append, drop-append_ge, Bytes,
  any, leb,
}
use libhp.Common.Int.{ℤ, int_eq}
use libhp.Str.{
  lower_char, strlwr, upper_char, strupr, myatoi, to_comma, item_of, followed_by, protos, among,
  among_protos, str_find,
}
use libhp.Str.Numbers.{Numeral, IsInt, digit_char, print_numeral, numeral_value, myatoi-numeral}

-- Numbers with commas between them, and what they stand for.
abbrev pub print_list : Numeral → List Numeral → Bytes
print_list x [] = print_numeral x
print_list x (y ∷ ys) = print_numeral x ++ 44 ∷ print_list y ys

abbrev pub values : Numeral → List Numeral → List ℤ
values x [] = numeral_value x ∷ []
values x (y ∷ ys) = numeral_value x ∷ values y ys

abbrev pub AllNumerals : Numeral → List Numeral → Type 0
AllNumerals x [] = IsInt x
AllNumerals x (y ∷ ys) = IsInt x × AllNumerals y ys

to_comma-digits :
    (ds : List ℕ) (rest : Bytes)
    → to_comma (map digit_char ds ++ rest) ≡ length (map digit_char ds) + to_comma rest
unfolding to_comma
to_comma-digits [] rest = omega arith
to_comma-digits (d ∷ ds) rest =
    let other : (48 + d == 44) ≡ false = ground arith in
    rw other (omega (arith, to_comma-digits ds rest))

to_comma-numeral :
    (x : Numeral) (rest : Bytes)
    → to_comma (print_numeral x ++ rest) ≡ length (print_numeral x) + to_comma rest
unfolding to_comma
to_comma-numeral (true, d, ds) rest = omega (arith, to_comma-digits (d ∷ ds) rest)
to_comma-numeral (false, d, ds) rest = to_comma-digits (d ∷ ds) rest

item_of-some :
    (p : Bytes) (n : ℕ) (x : ℤ) → 0 < n → myatoi p n ≡ some x → item_of p n ≡ some (x ∷ [])
unfolding item_of
item_of-some p zero x h e = absurd (omega arith)
item_of-some p (suc n) x h e = rw (item_of, e) refl

print_numeral-nonempty : (x : Numeral) → 0 < length (print_numeral x)
print_numeral-nonempty (true, d, ds) = omega arith
print_numeral-nonempty (false, d, ds) = omega arith

item_of-numeral :
    (x : Numeral) (rest : Bytes)
    → IsInt x
    → item_of (print_numeral x ++ rest) (length (print_numeral x)) ≡ some (numeral_value x ∷ [])
item_of-numeral x rest h =
    item_of-some (print_numeral x ++ rest) (length (print_numeral x)) (numeral_value x)
      (print_numeral-nonempty x) (myatoi-numeral x rest h)

-- The last number ends the text.
to_comma-last : (x : Numeral) → to_comma (print_numeral x) ≡ length (print_numeral x)
unfolding to_comma
to_comma-last x =
    ap to_comma (sym (append-nil (print_numeral x))) ∙ to_comma-numeral x [] ∙ omega arith

to_comma-inner :
    (x : Numeral) (rest : Bytes)
    → to_comma (print_numeral x ++ 44 ∷ rest) ≡ length (print_numeral x)
unfolding to_comma
to_comma-inner x rest = to_comma-numeral x (44 ∷ rest) ∙ omega arith

drop-inner : (w rest : Bytes) → drop (suc (length w)) (w ++ 44 ∷ rest) ≡ rest
drop-inner w rest =
    let e : suc (length w) ≡ length w + 1 = omega arith in
    ap (λ n. drop n (w ++ 44 ∷ rest)) e ∙ drop-append_ge w (44 ∷ rest) 1

protos-values :
    (x : Numeral) (ys : List Numeral) (fuel : ℕ)
    → AllNumerals x ys
    → length (print_list x ys) < fuel
    → protos fuel (print_list x ys) ≡ some (values x ys)
unfolding protos followed_by
protos-values x ys zero h u = ground arith
protos-values x [] (suc fuel) h u =
    let whole : (to_comma (print_numeral x) == length (print_numeral x)) ≡ true =
      ground (arith, to_comma-last x) in
    rw whole (
      ap (item_of (print_numeral x)) (to_comma-last x)
      ∙ ap (λ p. item_of p (length (print_numeral x))) (sym (append-nil (print_numeral x)))
      ∙ item_of-numeral x [] h)
protos-values x (y ∷ ys) (suc fuel) h u =
    let w = print_numeral x in
    let rest = print_list y ys in
    let len = length-append w (44 ∷ rest) in
    let part : (to_comma (w ++ 44 ∷ rest) == length (w ++ 44 ∷ rest)) ≡ false =
      ground (arith, to_comma-inner x rest, len) in
    rw part (
      ap₂ followed_by
        (ap (item_of (w ++ 44 ∷ rest)) (to_comma-inner x rest) ∙ item_of-numeral x (44 ∷ rest) h.0)
        (ap (λ n. protos fuel (drop (suc n) (w ++ 44 ∷ rest))) (to_comma-inner x rest)
          ∙ ap (protos fuel) (drop-inner w rest)
          ∙ protos-values y ys fuel h.1 (omega (arith, len))))

among-any : (val : ℤ) (xs : List ℤ) → among val xs ≡ any (int_eq val) xs
unfolding among
among-any val [] = refl
among-any val (x ∷ xs) = ap (λ b. if int_eq val x then true else b) (among-any val xs)

str_find-protos :
    (val : ℤ) (str : Bytes)
    → 0 < length str
    → str_find val str ≡ among_protos val (protos (length str + 1) str)
unfolding str_find
str_find-protos val [] u = ground arith
str_find-protos val (c ∷ str) u = refl

print_list-nonempty : (x : Numeral) (ys : List Numeral) → 0 < length (print_list x ys)
print_list-nonempty x [] = print_numeral-nonempty x
print_list-nonempty x (y ∷ ys) =
    omega (arith, print_numeral-nonempty x, length-append (print_numeral x) (44 ∷ print_list y ys))

length-values : (x : Numeral) (ys : List Numeral) → length (values x ys) ≡ length (x ∷ ys)
length-values x [] = refl
length-values x (y ∷ ys) = ap suc (length-values y ys)

-- On up to 256 decimal numbers that fit an `int`, each with a minus sign or without one, and with single commas
-- between them, `hp_str_find` finds exactly the numbers that are written there.
pub str_find-values :
    (val : ℤ) (x : Numeral) (ys : List Numeral)
    → AllNumerals x ys
    → length (x ∷ ys) ≤ 256
    → str_find val (print_list x ys) ≡ some (any (int_eq val) (values x ys))
unfolding among_protos
str_find-values val x ys h few =
    let fits : leb (length (values x ys)) 256 ≡ true = ground (arith, few, length-values x ys) in
    str_find-protos val (print_list x ys) (print_list-nonempty x ys)
    ∙ rw (protos-values x ys (length (print_list x ys) + 1) h (omega arith), fits)
        (ap some (among-any val (values x ys)))

lower_char-upper_char : (c : ℕ) → lower_char (upper_char c) ≡ lower_char c
unfolding lower_char upper_char
lower_char-upper_char c = ground arith

upper_char-lower_char : (c : ℕ) → upper_char (lower_char c) ≡ upper_char c
unfolding lower_char upper_char
upper_char-lower_char c = ground arith

-- Of `strlwr` and `strupr`, the one that is applied last decides the case of every letter, and neither
-- changes the length.
pub strlwr-strupr :
    (s : Bytes)
    → (strlwr (strupr s) ≡ strlwr s)
      × (strupr (strlwr s) ≡ strupr s)
      × (length (strlwr s) ≡ length s)
      × (length (strupr s) ≡ length s)
unfolding strlwr strupr
strlwr-strupr [] = (refl, refl, refl, refl)
strlwr-strupr (c ∷ s) =
    let (a, b, m, n) = strlwr-strupr s in
    (
      ap₂ (◌∷◌) (lower_char-upper_char c) a,
      ap₂ (◌∷◌) (upper_char-lower_char c) b,
      ap suc m,
      ap suc n,
    )
