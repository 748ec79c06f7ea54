-- ===== src/Str/Numbers.antt =====
-- The numbers that src/hp_str.c reads, against the digits that they are written with.
use libhp.Common.{
  ℕ, suc, ◌+◌, ◌*◌, ◌^◌, ◌≤◌, ◌<◌, ◌≡◌, refl, sym, ap, ap₂, ◌∙◌, Bool, true, false, some, List, [],
  ◌∷◌, ◌++◌, map, arith, leb, ltb, length, length-map, Bytes,
}
use native.Mathlib.Nat.{add-mul, mul_assoc, pow-succ'}
use libhp.Common.Int.{ℤ, pos, neg_ℕ}
use libhp.Str.{is_digit, digits, weigh, is_sign, int_of, signed, myatoi}

-- A number as it is written: whether there is a minus sign, and its first digit and the others.
abbrev pub Numeral : Type 0
Numeral = Bool × ℕ × List ℕ

abbrev pub numeral_digits : Numeral → List ℕ
numeral_digits (neg, d, ds) = d ∷ ds

abbrev pub AllDigits : List ℕ → Type 0
AllDigits [] = Unit
AllDigits (d ∷ ds) = (d < 10) × AllDigits ds

abbrev pub digit_char : ℕ → ℕ
digit_char d = 48 + d

abbrev pub print_numeral : Numeral → Bytes
print_numeral (true, d, ds) = 45 ∷ map digit_char (d ∷ ds)
print_numeral (false, d, ds) = map digit_char (d ∷ ds)

-- The number that digits stand for, after digits that stand for `a`.
abbrev pub read_digits : ℕ → List ℕ → ℕ
read_digits a [] = a
read_digits a (d ∷ ds) = read_digits (a * 10 + d) ds

abbrev pub numeral_value : Numeral → ℤ
numeral_value (true, d, ds) = neg_ℕ (read_digits 0 (d ∷ ds))
numeral_value (false, d, ds) = pos (read_digits 0 (d ∷ ds))

-- The weights of the code and the reading from the left.
weigh-plus : (ds : List ℕ) (r : ℕ) → weigh ds r ≡ r + weigh ds 0
unfolding weigh
weigh-plus [] r = omega arith
weigh-plus (d ∷ ds) r =
    omega (arith, weigh-plus ds (r + d * 10 ^ length ds), weigh-plus ds (0 + d * 10 ^ length ds))

next_digit : (a d n w : ℕ) → (a * 10 + d) * 10 ^ n + w ≡ a * 10 ^ suc n + ((0 + d * 10 ^ n) + w)
next_digit a d n w =
    omega (
      arith,
      add-mul (a * 10) d (10 ^ n),
      mul_assoc a 10 (10 ^ n),
      ap (λ p. a * p) (pow-succ' 10 n),
    )

read_digits-weigh : (a : ℕ) (ds : List ℕ) → read_digits a ds ≡ a * 10 ^ length ds + weigh ds 0
unfolding weigh
read_digits-weigh a [] = grind arith
read_digits-weigh a (d ∷ ds) =
    read_digits-weigh (a * 10 + d) ds
    ∙ next_digit a d (length ds) (weigh ds 0)
    ∙ ap (λ q. a * 10 ^ suc (length ds) + q) (sym (weigh-plus ds (0 + d * 10 ^ length ds)))

digits-print :
    (ds : List ℕ) (rest : Bytes)
    → AllDigits ds
    → digits (map digit_char ds ++ rest) (length ds) ≡ ds
unfolding digits is_digit
digits-print [] [] h = refl
digits-print [] (c ∷ rest) h = refl
digits-print (d ∷ ds) rest h =
    let low : leb 48 (48 + d) ≡ true = ground arith in
    let high : leb (48 + d) 57 ≡ true = ground (arith, h.0) in
    rw (low, high) (ap₂ (◌∷◌) (omega arith) (digits-print ds rest h.1))

is_sign-digit : (d : ℕ) → d < 10 → is_sign (digit_char d) ≡ false
unfolding is_sign
is_sign-digit d u = ground arith

int_of-digits :
    (ds : List ℕ) (rest : Bytes)
    → AllDigits ds
    → length ds ≤ 64
    → read_digits 0 ds < 2 ^ 31
    → int_of (digits (map digit_char ds ++ rest) (length (map digit_char ds)))
      ≡ some (read_digits 0 ds)
unfolding int_of
int_of-digits ds rest h few small =
    let value : weigh ds 0 ≡ read_digits 0 ds = sym (read_digits-weigh 0 ds ∙ omega arith) in
    let fits : leb (length ds) 64 ≡ true = ground (arith, few) in
    let bounded : ltb (read_digits 0 ds) (2 ^ 31) ≡ true = ground (arith, small) in
    rw (length-map digit_char ds, digits-print ds rest h, value, fits) (rw bounded refl)

-- A numeral of decimal digits, 64 at most, that stands for a number below 2^31, sign apart.
abbrev pub IsInt : Numeral → Type 0
IsInt x =
    AllDigits (numeral_digits x)
    × (length (numeral_digits x) ≤ 64)
    × (read_digits 0 (numeral_digits x) < 2 ^ 31)

-- `myatoi` on a numeral of 64 digits at most that stands for a number between -2^31 and 2^31, both excluded,
-- is that number, whatever follows it in memory.
pub myatoi-numeral :
    (x : Numeral) (rest : Bytes)
    → IsInt x
    → myatoi (print_numeral x ++ rest) (length (print_numeral x)) ≡ some (numeral_value x)
unfolding myatoi signed is_sign
myatoi-numeral (true, d, ds) rest (h, few, small) =
    rw (int_of-digits (d ∷ ds) rest h few small) refl
myatoi-numeral (false, d, ds) rest (h, few, small) =
    rw (is_sign-digit d h.0, int_of-digits (d ∷ ds) rest h few small) refl
