-- ===== src/Iocp/Order.antt =====
-- The ids of the items of src/hp_iocp.c ascend when an item is added behind them, and when one is removed.
use libhp.Common.{
  ℕ, zero, suc, ◌+◌, ◌≤◌, ◌<◌, ◌≡◌, refl, ap, ◌∙◌, inl, inr, Bool-cases, Option, none, some, List,
  [], ◌∷◌, ◌++◌, arith, ltb, length, map, get_elem?, length-append,
}
use libhp.Iocp.Search.{nth, IsAscending}
use libhp.Iocp.Data.{remove_at, update_at}

pub nth-append_below : (xs : List ℕ) (x i : ℕ) → i < length xs → nth (xs ++ x ∷ []) i ≡ nth xs i
unfolding nth
nth-append_below [] x i l = ground (arith, l)
nth-append_below (y ∷ ys) x zero l = refl
nth-append_below (y ∷ ys) x (suc i) l = nth-append_below ys x i (omega arith)

pub nth-append_last : (xs : List ℕ) (x : ℕ) → nth (xs ++ x ∷ []) (length xs) ≡ x
unfolding nth
nth-append_last [] x = refl
nth-append_last (y ∷ ys) x = nth-append_last ys x

pub append-IsAscending :
    (xs : List ℕ) (x : ℕ)
    → IsAscending xs
    → ((i : ℕ) → i < length xs → nth xs i < x)
    → IsAscending (xs ++ x ∷ [])
append-IsAscending xs x asc low i j l h = elim (Bool-cases (ltb j (length xs))) [
  | inl a ↦
      let p = nth-append_below xs x i (ground arith) in
      let q = nth-append_below xs x j (ground arith) in
      omega (arith, p, q, asc i j l (ground arith))
  | inr a ↦
      let e : j ≡ length xs = let n = length-append xs (x ∷ []) in ground (arith, n) in
      let p = nth-append_below xs x i (ground arith) in
      let q = ap (nth (xs ++ x ∷ [])) e ∙ nth-append_last xs x in
      omega (arith, p, q, low i (ground arith))
]

pub append-below :
    (xs : List ℕ) (x : ℕ)
    → ((i : ℕ) → i < length xs → nth xs i < x)
    → (i : ℕ) → i < length (xs ++ x ∷ [])
    → nth (xs ++ x ∷ []) i < x + 1
append-below xs x low i h = elim (Bool-cases (ltb i (length xs))) [
  | inl a ↦ let p = nth-append_below xs x i (ground arith) in omega (arith, p, low i (ground arith))
  | inr a ↦
      let e : i ≡ length xs = let n = length-append xs (x ∷ []) in ground (arith, n) in
      omega (arith, ap (nth (xs ++ x ∷ [])) e ∙ nth-append_last xs x)
]

pub length-remove_at :
    {A : Type 0} (k : ℕ) (xs : List A) → k < length xs → length (remove_at k xs) + 1 ≡ length xs
unfolding remove_at
length-remove_at k [] l = ground (arith, l)
length-remove_at zero (x ∷ xs) l = omega arith
length-remove_at (suc k) (x ∷ xs) l = omega (arith, length-remove_at k xs (omega arith))

nth-remove_at_below : (k : ℕ) (xs : List ℕ) (i : ℕ) → i < k → nth (remove_at k xs) i ≡ nth xs i
unfolding remove_at nth
nth-remove_at_below k [] i l = refl
nth-remove_at_below zero (x ∷ xs) i l = ground (arith, l)
nth-remove_at_below (suc k) (x ∷ xs) zero l = refl
nth-remove_at_below (suc k) (x ∷ xs) (suc i) l = nth-remove_at_below k xs i (omega arith)

nth-remove_at_above :
    (k : ℕ) (xs : List ℕ) (i : ℕ) → k ≤ i → nth (remove_at k xs) i ≡ nth xs (suc i)
unfolding remove_at nth
nth-remove_at_above k [] i l = refl
nth-remove_at_above zero (x ∷ xs) i l = refl
nth-remove_at_above (suc k) (x ∷ xs) zero l = ground (arith, l)
nth-remove_at_above (suc k) (x ∷ xs) (suc i) l = nth-remove_at_above k xs i (omega arith)

-- Where an element was before the removal.
old_at :
    (k : ℕ) (xs : List ℕ) (i : ℕ)
    → k < length xs
    → i < length (remove_at k xs)
    → (j : ℕ) × (nth (remove_at k xs) i ≡ nth xs j)
      × (j < length xs)
      × (i ≤ j)
      × (j ≤ i + 1)
      × ((k ≤ i → j ≡ i + 1) × (i < k → j ≡ i))
old_at k xs i low h = elim (Bool-cases (ltb i k)) [
  | inl a ↦ (
    i,
    nth-remove_at_below k xs i (ground arith),
    omega (arith, length-remove_at k xs low),
    omega arith,
    omega arith,
    ((λ c. ground arith), (λ c. refl)),
  )
  | inr a ↦ (
    suc i,
    nth-remove_at_above k xs i (ground arith),
    omega (arith, length-remove_at k xs low),
    omega arith,
    omega arith,
    ((λ c. omega arith), (λ c. ground arith)),
  )
]

pub remove_at-IsAscending :
    (k : ℕ) (xs : List ℕ) → k < length xs → IsAscending xs → IsAscending (remove_at k xs)
remove_at-IsAscending k xs low asc i j l h =
    let (a, p, pa, ia, aj, side) = old_at k xs i low (omega arith) in
    let (b, q, qb, jb, bj, side') = old_at k xs j low h in
    let less : a < b = elim (Bool-cases (ltb i k)) [
      | inl c ↦ let e = side.1 (ground arith) in omega (arith, e)
      | inr c ↦ let e = side'.0 (ground arith) in omega (arith, e)
    ] in
    omega (arith, p, q, asc a b less qb)

pub remove_at-below :
    (k : ℕ) (xs : List ℕ) (x : ℕ)
    → k < length xs
    → ((i : ℕ) → i < length xs → nth xs i < x)
    → (i : ℕ) → i < length (remove_at k xs)
    → nth (remove_at k xs) i < x
remove_at-below k xs x low below i h =
    let (a, p, pa, ia, aj, side) = old_at k xs i low h in omega (arith, p, below a pa)

abbrev or_else : {A : Type 0} → A → Option A → A
or_else a (some x) = x
or_else a none = a

module _ {A : Type 0} (f : A → ℕ) where
  pub map-remove_at : (k : ℕ) (xs : List A) → map f (remove_at k xs) ≡ remove_at k (map f xs)
  unfolding remove_at
  map-remove_at k [] = refl
  map-remove_at zero (x ∷ xs) = refl
  map-remove_at (suc k) (x ∷ xs) = ap (λ ys. f x ∷ ys) (map-remove_at k xs)

  pub map-update_at :
      (k : ℕ) (g : A → A) (xs : List A)
      → ((x : A) → f (g x) ≡ f x)
      → map f (update_at k g xs) ≡ map f xs
  unfolding update_at
  map-update_at k g [] h = refl
  map-update_at zero g (x ∷ xs) h = ap (λ y. y ∷ map f xs) (h x)
  map-update_at (suc k) g (x ∷ xs) h = ap (λ ys. f x ∷ ys) (map-update_at k g xs h)

  pub map-append_one : (xs : List A) (x : A) → map f (xs ++ x ∷ []) ≡ map f xs ++ f x ∷ []
  map-append_one [] x = refl
  map-append_one (y ∷ ys) x = ap (λ zs. f y ∷ zs) (map-append_one ys x)

  pub nth-map :
      (xs : List A) (i : ℕ) (x : A)
      → get_elem? xs i ≡ some x
      → (nth (map f xs) i ≡ f x) × (i < length (map f xs))
  unfolding nth
  nth-map [] i x e = ground (arith, e)
  nth-map (y ∷ ys) zero x e = (ap (λ o. f (or_else y o)) e, omega arith)
  nth-map (y ∷ ys) (suc i) x e = let (p, q) = nth-map ys i x e in (p, omega arith)
