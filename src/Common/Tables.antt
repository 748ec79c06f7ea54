-- ===== src/Common/Tables.antt =====
-- A table as a list of entries, where the first entry that a test finds is the one that is meant; and
-- such a table in an array.
use Prim.Native.Nat.{ℕ, zero, suc, ◌+◌, ◌-◌, ◌≤◌, ◌<◌}
use mathlib.Core.Path.{◌≡◌, refl, sym, ap, ◌∙◌}
use mathlib.Core.Logic.{inl, inr}
use mathlib.Core.Bool.{Bool, true, false}
use mathlib.Core.List.{List, [], ◌∷◌, ◌++◌, append-nil}
use native.Mathlib.Omega.{arith}
use libhp.Common.Tests.{◌==◌, ==_iff, if◌then◌else◌, Bool-cases}
use libhp.Common.Arrays.{slots, slots-split}

module _ {A : Type 0} (p : A → Bool) where
  abbrev pub any : List A → Bool
  any [] = false
  any (x ∷ xs) = if p x then true else any xs

  abbrev pub remove_first : List A → List A
  remove_first [] = []
  remove_first (x ∷ xs) = if p x then xs else x ∷ remove_first xs

  -- An entry that is not there is added at the end.
  abbrev pub replace_first : A → List A → List A
  replace_first y [] = y ∷ []
  replace_first y (x ∷ xs) = if p x then y ∷ xs else x ∷ replace_first y xs

  -- Behind entries that do not match.
  pub any-append : (xs ys : List A) → any xs ≡ false → any (xs ++ ys) ≡ any ys
  any-append [] ys h = refl
  any-append (x ∷ xs) ys h = elim (Bool-cases (p x)) [
    | inl e ↦ ground (arith, e)
    | inr e ↦ rw e (any-append xs ys (rw e at h))
  ]

  pub remove_first-append :
      (xs ys : List A) → any xs ≡ false → remove_first (xs ++ ys) ≡ xs ++ remove_first ys
  remove_first-append [] ys h = refl
  remove_first-append (x ∷ xs) ys h = elim (Bool-cases (p x)) [
    | inl e ↦ ground (arith, e)
    | inr e ↦ rw e (ap (λ zs. x ∷ zs) (remove_first-append xs ys (rw e at h)))
  ]

  pub replace_first-append :
      (y : A) (xs ys : List A)
      → any xs ≡ false
      → replace_first y (xs ++ ys) ≡ xs ++ replace_first y ys
  replace_first-append y [] ys h = refl
  replace_first-append y (x ∷ xs) ys h = elim (Bool-cases (p x)) [
    | inl e ↦ ground (arith, e)
    | inr e ↦ rw e (ap (λ zs. x ∷ zs) (replace_first-append y xs ys (rw e at h)))
  ]

  pub remove_first-absent : (xs : List A) → any xs ≡ false → remove_first xs ≡ xs
  remove_first-absent xs h =
      sym (ap remove_first (append-nil xs)) ∙ remove_first-append xs [] h ∙ append-nil xs

  pub replace_first-absent :
      (y : A) (xs : List A) → any xs ≡ false → replace_first y xs ≡ xs ++ y ∷ []
  replace_first-absent y xs h =
      sym (ap (replace_first y) (append-nil xs)) ∙ replace_first-append y xs [] h

  -- A range in which no entry matches.
  pub any-slots :
      (a : ℕ → A) (i n : ℕ)
      → ((j : ℕ) → i ≤ j → j < i + n → p (a j) ≡ false)
      → any (slots a i n) ≡ false
  any-slots a i zero h = refl
  any-slots a i (suc n) h =
      rw (h i (omega arith) (omega arith))
        (any-slots a (suc i) n (λ j l u. h j (omega arith) (omega arith)))

  -- Cell k of a range is its first match.
  pub record Spot (a : ℕ → A) (i n k : ℕ) : Type 0 where
    pub low : i ≤ k
    pub high : k < i + n
    pub hit : p (a k) ≡ true
    pub misses : any (slots a i (k - i)) ≡ false

  pub hit-Spot :
      (a : ℕ → A) (i n k : ℕ)
      → i ≤ k
      → k < i + n
      → p (a k) ≡ true
      → ((j : ℕ) → i ≤ j → j < k → p (a j) ≡ false)
      → Spot a i n k
  hit-Spot a i n k l u m h = record {
    low = l;
    high = u;
    hit = m;
    misses = any-slots a i (k - i) (λ j lj uj. h j lj (omega arith));
  }

  module _ (a : ℕ → A) (i n k : ℕ) (spot : Spot a i n k) where
    -- The cells before cell k and after it.
    abbrev before : List A
    before = slots a i (k - i)

    abbrev after : List A
    after = slots a (suc k) ((i + n) - suc k)

    pub Spot-any : any (slots a i n) ≡ true
    Spot-any =
        ap any (slots-split a i n k spot.low spot.high)
        ∙ any-append before (a k ∷ after) spot.misses
        ∙ rw spot.hit refl

    pub Spot-remove_first :
        remove_first (slots a i n) ≡ slots a i (k - i) ++ slots a (suc k) ((i + n) - suc k)
    Spot-remove_first =
        ap remove_first (slots-split a i n k spot.low spot.high)
        ∙ remove_first-append before (a k ∷ after) spot.misses
        ∙ rw spot.hit refl

    pub Spot-replace_first :
        (y : A)
        → replace_first y (slots a i n) ≡ slots a i (k - i) ++ y ∷ slots a (suc k) ((i + n) - suc k)
    Spot-replace_first y =
        ap (replace_first y) (slots-split a i n k spot.low spot.high)
        ∙ replace_first-append y before (a k ∷ after) spot.misses
        ∙ rw spot.hit refl

-- A cell that matches is found.
pub any-hit :
    {A : Type 0} (p : A → Bool) (a : ℕ → A) (i n j : ℕ)
    → i ≤ j
    → j < i + n
    → p (a j) ≡ true
    → any p (slots a i n) ≡ true
any-hit p a i zero j l u h = ground arith
any-hit p a i (suc n) j l u h = elim (Bool-cases (p (a i))) [
  | inl e ↦ rw e refl
  | inr e ↦ rw e (any-hit p a (suc i) n j (past e) (omega arith) h)
]
  where
    past : p (a i) ≡ false → suc i ≤ j
    past e = elim (Bool-cases (i == j)) [
      | inl q ↦ ground (arith, ap (λ m. p (a m)) ((==_iff i j).0 q) ∙ h)
      | inr q ↦ ground arith
    ]
