-- ===== src/Stdlib/Lookup.antt =====
-- hp_iv_lfind of src/hp_stdlib.c finds the value of a key.
use libhp.Common.{
  ℕ, suc, ◌-◌, ◌≤◌, ◌≡◌, refl, sym, ap, inl, inr, Bool-cases, true, false, Option, none, some, List,
  [], ◌∷◌, arith, leb, ◌==◌, if◌then◌else◌, get_elem?,
}
use libhp.Common.Int.{pos}
use libhp.Stdlib.{Ivpair, find_by_key, val_in, val_of, iv_lfind}

-- Each pair's key tells its place, counted from its offset.
abbrev pub IsIndexed : List Ivpair → Type 0
IsIndexed m =
    (i : ℕ) (p : Ivpair) → get_elem? m i ≡ some p → (p.offset ≤ p.key) × (p.key - p.offset ≡ i)

-- The value of the first pair of a key, or NULL.
abbrev pub value_of : ℕ → List Ivpair → ℕ
value_of key [] = 0
value_of key (p ∷ m) = if key == p.key then p.val else value_of key m

-- What the search finds is in the array, and its value is the one meant.
pub data Found (key : ℕ) (m : List Ivpair) : Option Ivpair → Type 0 where
  missing : value_of key m ≡ 0 → Found key m none
  there :
      (i : ℕ) (p : Ivpair) → get_elem? m i ≡ some p → value_of key m ≡ p.val → Found key m (some p)

Found-next :
    (key : ℕ) (p : Ivpair) (m : List Ivpair) (o : Option Ivpair)
    → (key == p.key) ≡ false
    → Found key m o
    → Found key (p ∷ m) o
Found-next key p m o e (missing h) = missing (rw e h)
Found-next key p m o e (there i q g h) = there (suc i) q g (rw e h)

find_by_key-Found : (key : ℕ) (m : List Ivpair) → Found key m (find_by_key key m)
unfolding find_by_key
find_by_key-Found key [] = missing refl
find_by_key-Found key (p ∷ m) = elim (Bool-cases (key == p.key)) [
  | inl e ↦ rw e (there 0 p refl (rw e refl))
  | inr e ↦ rw e (Found-next key p m (find_by_key key m) e (find_by_key-Found key m))
]

val_of-Found :
    (key : ℕ) (m : List Ivpair) (o : Option Ivpair)
    → IsIndexed m
    → Found key m o
    → val_of m o ≡ some (value_of key m)
unfolding val_of val_in
val_of-Found key m o indexed (missing h) = ap some (sym h)
val_of-Found key m o indexed (there i p g h) =
    let (low, place) = indexed i p g in
    let inside : leb p.offset p.key ≡ true = ground arith in rw (inside, place, g) (ap some (sym h))

-- In an array where each pair's key less its offset is its index, `hp_iv_lfind` with a key that is not
-- negative reads inside the array, and returns the value of the first pair of the key, or NULL.
iv_lfind-value_of :
    (m : List Ivpair) (key : ℕ) → IsIndexed m → iv_lfind m (pos key) ≡ some (value_of key m)
unfolding iv_lfind
iv_lfind-value_of [] key indexed = refl
iv_lfind-value_of (p ∷ m) key indexed =
    val_of-Found key (p ∷ m) (find_by_key key (p ∷ m)) indexed (find_by_key-Found key (p ∷ m))
