-- ===== src/Common/Arrays.antt =====
-- Arrays in memory, as functions of the index, the C library's calls on them, and what a loop over
-- `n` cells from cell `i` sees.
use Prim.Native.Nat.{ℕ, zero, suc, ◌+◌, ◌-◌, ◌≤◌, ◌<◌}
use mathlib.Core.Path.{◌≡◌, refl, ap, ap₂, ◌∙◌}
use mathlib.Core.Logic.{◌⊎◌, inl, inr, ◌≢◌}
use mathlib.Core.Bool.{Bool, true, false, ◌&&◌}
use mathlib.Core.List.{List, [], ◌∷◌, ◌++◌}
use mathlib.Core.Option.{Option, none, some}
use native.Mathlib.Omega.{arith}
use native.Mathlib.Nat.{zero-add, suc-add}
use libhp.Common.Tests.{ltb, leb, ◌==◌, if◌then◌else◌, Bool-cases, ==_iff}
use libhp.Common.Lists.{length}

module _ {ℓ} {A : Type ℓ} where
  -- a[i] = x
  abbrev pub put : ℕ → A → (ℕ → A) → ℕ → A
  put i x a j = if j == i then x else a j

  -- memmove(a + dst, a + src, n)
  abbrev pub memmove : ℕ → ℕ → ℕ → (ℕ → A) → ℕ → A
  memmove dst src n a j = if leb dst j && ltb j (dst + n) then a ((j - dst) + src) else a j

  -- The n cells from cell i.
  abbrev pub slots : (ℕ → A) → ℕ → ℕ → List A
  slots a i zero = []
  slots a i (suc n) = a i ∷ slots a (suc i) n

  pub slots-ext :
      (a b : ℕ → A) (i n : ℕ)
      → ((j : ℕ) → i ≤ j → j < i + n → a j ≡ b j)
      → slots a i n ≡ slots b i n
  slots-ext a b i zero h = refl
  slots-ext a b i (suc n) h =
      ap₂ (◌∷◌) (h i (omega arith) (omega arith))
        (slots-ext a b (suc i) n (λ j l u. h j (omega arith) (omega arith)))

  -- The same cells, further on in memory.
  pub slots-shift :
      (a b : ℕ → A) (i k n : ℕ)
      → ((j : ℕ) → i ≤ j → j < i + n → a j ≡ b (j + k))
      → slots a i n ≡ slots b (i + k) n
  slots-shift a b i k zero h = refl
  slots-shift a b i k (suc n) h = ap₂ (◌∷◌) (h i (omega arith) (omega arith)) (
      slots-shift a b (suc i) k n (λ j l u. h j (omega arith) (omega arith))
      ∙ ap (λ m. slots b m n) (suc-add i k))

  pub slots-append : (a : ℕ → A) (i m n : ℕ) → slots a i (m + n) ≡ slots a i m ++ slots a (i + m) n
  slots-append a i zero n = ap (slots a i) (zero-add n) ∙ ap (λ k. slots a k n) (omega arith)
  slots-append a i (suc m) n =
      ap (slots a i) (suc-add m n)
      ∙ ap (λ xs. a i ∷ xs)
          (slots-append a (suc i) m n ∙ ap (λ k. slots a (suc i) m ++ slots a k n) (omega arith))

-- lfind over the indices of n cells from cell i: the first match.
abbrev pub lfind : (ℕ → Bool) → ℕ → ℕ → Option ℕ
lfind matches i zero = none
lfind matches i (suc n) = if matches i then some i else lfind matches (suc i) n

-- What lfind found: nothing in the range, or the first match in it.
pub data Search (matches : ℕ → Bool) (i n : ℕ) : Option ℕ → Type 0 where
  absent : ((j : ℕ) → i ≤ j → j < i + n → matches j ≡ false) → Search matches i n none
  found :
      (k : ℕ)
      → i ≤ k
      → k < i + n
      → matches k ≡ true
      → ((j : ℕ) → i ≤ j → j < k → matches j ≡ false)
      → Search matches i n (some k)

le_cases : (i j : ℕ) → i ≤ j → (j ≡ i) ⊎ (suc i ≤ j)
le_cases i j h = elim (Bool-cases (j == i)) [
  | inl e ↦ inl ((==_iff j i).0 e)
  | inr e ↦ inr (ground arith)
]

-- A miss at the first cell.
Search-miss :
    (matches : ℕ → Bool) (i n : ℕ) (o : Option ℕ)
    → matches i ≡ false
    → Search matches (suc i) n o
    → Search matches i (suc n) o
Search-miss matches i n o e (absent h) = absent (λ j l u. elim (le_cases i j l) [
  | inl same ↦ ap matches same ∙ e
  | inr other ↦ h j other (omega arith)
])
Search-miss matches i n o e (found k l u m h) = found k (omega arith) (omega arith) m (λ j lj uj.
    elim (le_cases i j lj) [ inl same ↦ ap matches same ∙ e | inr other ↦ h j other uj ])

pub lfind-Search : (matches : ℕ → Bool) (i n : ℕ) → Search matches i n (lfind matches i n)
lfind-Search matches i zero = absent (λ j l u. ground arith)
lfind-Search matches i (suc n) = elim (Bool-cases (matches i)) [
  | inl hit ↦ rw hit (found i (omega arith) (omega arith) hit (λ j l u. ground arith))
  | inr miss ↦
      rw miss
        (Search-miss matches i n (lfind matches (suc i) n) miss (lfind-Search matches (suc i) n))
]

module _ {ℓ} {A : Type ℓ} where
  pub put-same : (i : ℕ) (x : A) (a : ℕ → A) → put i x a i ≡ x
  put-same i x a = ground arith

  pub put-other : (i j : ℕ) (x : A) (a : ℕ → A) → (j ≡ i → ⊥) → put i x a j ≡ a j
  put-other i j x a ne = ground arith

  pub memmove-inside :
      (dst src n j : ℕ) (a : ℕ → A)
      → dst ≤ j
      → j < dst + n
      → memmove dst src n a j ≡ a ((j - dst) + src)
  memmove-inside dst src n j a l u = ground arith

  pub memmove-below : (dst src n j : ℕ) (a : ℕ → A) → j < dst → memmove dst src n a j ≡ a j
  memmove-below dst src n j a l = ground arith

  pub memmove-above : (dst src n j : ℕ) (a : ℕ → A) → dst + n ≤ j → memmove dst src n a j ≡ a j
  memmove-above dst src n j a l = ground arith

  -- A range with cell k in it.
  pub slots-split :
      (a : ℕ → A) (i n k : ℕ)
      → i ≤ k
      → k < i + n
      → slots a i n ≡ slots a i (k - i) ++ a k ∷ slots a (suc k) ((i + n) - suc k)
  slots-split a i n k l u =
      ap (slots a i) (omega arith)
      ∙ slots-append a i (k - i) (suc ((i + n) - suc k))
      ∙ ap (λ m. slots a i (k - i) ++ slots a m (suc ((i + n) - suc k))) (omega arith)

  pub length-slots : (a : ℕ → A) (i n : ℕ) → length (slots a i n) ≡ n
  length-slots a i zero = refl
  length-slots a i (suc n) = ap suc (length-slots a (suc i) n)

  -- A write into the range, and one at its end.
  pub slots-put :
      (a b : ℕ → A) (i n k : ℕ)
      → i ≤ k
      → k < i + n
      → ((j : ℕ) → i ≤ j → j < i + n → j ≢ k → b j ≡ a j)
      → slots b i n ≡ slots a i (k - i) ++ b k ∷ slots a (suc k) ((i + n) - suc k)
  slots-put a b i n k l u h =
      slots-split b i n k l u
      ∙ ap₂ (λ xs ys. xs ++ b k ∷ ys)
          (slots-ext b a i (k - i) (λ j lj uj. h j lj (omega arith) (omega arith)))
          (slots-ext b a (suc k) ((i + n) - suc k)
            (λ j lj uj. h j (omega arith) (omega arith) (omega arith)))

  pub slots-last :
      (a b : ℕ → A) (i n : ℕ)
      → ((j : ℕ) → i ≤ j → j < i + n → b j ≡ a j)
      → slots b i (n + 1) ≡ slots a i n ++ b (i + n) ∷ []
  slots-last a b i n h =
      slots-append b i n 1 ∙ ap (λ xs. xs ++ b (i + n) ∷ []) (slots-ext b a i n h)

-- lfind passes over cells that do not match.
pub lfind-skip :
    (matches : ℕ → Bool) (i m n : ℕ)
    → ((j : ℕ) → i ≤ j → j < i + m → matches j ≡ false)
    → lfind matches i (m + n) ≡ lfind matches (i + m) n
lfind-skip matches i zero n h =
    ap (lfind matches i) (zero-add n) ∙ ap (λ k. lfind matches k n) (omega arith)
lfind-skip matches i (suc m) n h =
    ap (lfind matches i) (suc-add m n)
    ∙ rw (h i (omega arith) (omega arith)) (
        lfind-skip matches (suc i) m n (λ j l u. h j (omega arith) (omega arith))
        ∙ ap (λ k. lfind matches k n) (omega arith))

-- Cell k is closed up: the cells after it have moved down by one.
pub slots-close_up :
    {A : Type 0} (a b : ℕ → A) (i n k : ℕ)
    → i ≤ k
    → k < i + n
    → ((j : ℕ) → i ≤ j → j < k → b j ≡ a j)
    → ((j : ℕ) → k ≤ j → suc j < i + n → b j ≡ a (j + 1))
    → slots b i (n - 1) ≡ slots a i (k - i) ++ slots a (suc k) ((i + n) - suc k)
slots-close_up a b i n k l u before after =
    let m = (i + n) - suc k in
    ap (slots b i) (omega arith)
    ∙ slots-append b i (k - i) m
    ∙ ap₂ (◌++◌) (slots-ext b a i (k - i) (λ j lj uj. before j lj (omega arith))) (
        slots-shift b a (i + (k - i)) 1 m (λ j lj uj. after j (omega arith) (omega arith))
        ∙ ap (λ q. slots a q m) (omega arith))
