-- ===== src/Iocp/Search.antt =====
-- `bsearch` of the C library, by which src/hp_iocp.c finds an item or a polled socket by its id: on
-- ascending ids it finds an id that is there, and nothing for an id above all.
use libhp.Common.{
  ℕ, zero, suc, ◌+◌, ◌/◌, ◌≤◌, ◌<◌, ◌≡◌, ◌≢◌, refl, sym, ap, ◌∙◌, inl, inr, Bool-cases, Option,
  none, some, List, [], ◌∷◌, arith, ltb, ◌==◌, if◌then◌else◌, length,
}

-- The i-th id, for an index in range.
unfoldable pub nth : List ℕ → ℕ → ℕ
nth [] i = 0
nth (x ∷ xs) zero = x
nth (x ∷ xs) (suc i) = nth xs i

-- Between the indices `l` and `u`, on fuel: the comparison is `hp_iocp_item_find_by_id2`.
unfoldable pub bsearch_loop : ℕ → List ℕ → ℕ → ℕ → ℕ → Option ℕ
unfolding nth
bsearch_loop zero ids id l u = none
bsearch_loop (suc fuel) ids id l u =
    let m = (l + u) / 2 in
    let below = bsearch_loop fuel ids id l m in
    let above = bsearch_loop fuel ids id (m + 1) u in
    if ltb l u
    then (if ltb id (nth ids m) then below else if id == nth ids m then some m else above)
    else none

-- The interval shrinks in each round.
unfoldable pub bsearch : List ℕ → ℕ → Option ℕ
unfolding bsearch_loop
bsearch ids id = bsearch_loop (length ids + 1) ids id 0 (length ids)

abbrev pub IsAscending : List ℕ → Type 0
IsAscending ids = (i j : ℕ) → i < j → j < length ids → nth ids i < nth ids j

-- What the search between two indices gives.
data Found (ids : List ℕ) (id : ℕ) : Option ℕ → Type 0 where
  missing : ((i : ℕ) → i < length ids → nth ids i ≢ id) → Found ids id none
  hit : (i : ℕ) → i < length ids → nth ids i ≡ id → Found ids id (some i)

nothing_between :
    (ids : List ℕ) (id l u : ℕ)
    → u ≤ l
    → ((i : ℕ) → i < l → nth ids i < id)
    → ((i : ℕ) → u ≤ i → i < length ids → id < nth ids i)
    → Found ids id none
nothing_between ids id l u c low high = missing (λ i h e. elim (Bool-cases (ltb i l)) [
  | inl a ↦ omega (arith, low i (ground arith))
  | inr a ↦ omega (arith, high i (ground arith) h)
])

-- What is below an index has smaller ids, and what is above has larger ones.
ascending_le :
    (ids : List ℕ) (i j : ℕ) → IsAscending ids → i ≤ j → j < length ids → nth ids i ≤ nth ids j
ascending_le ids i j asc l h = elim (Bool-cases (ltb i j)) [
  | inl a ↦ omega (arith, asc i j (ground arith) h)
  | inr a ↦ let e : i ≡ j = ground arith in omega (arith, ap (nth ids) e)
]

loop-Found :
    (fuel : ℕ) (ids : List ℕ) (id l u : ℕ)
    → IsAscending ids
    → u ≤ length ids
    → u < l + fuel
    → ((i : ℕ) → i < l → nth ids i < id)
    → ((i : ℕ) → u ≤ i → i < length ids → id < nth ids i)
    → Found ids id (bsearch_loop fuel ids id l u)
unfolding bsearch_loop
loop-Found zero ids id l u asc in_range enough low high =
    nothing_between ids id l u (omega arith) low high
loop-Found (suc fuel) ids id l u asc in_range enough low high = elim (Bool-cases (ltb l u)) [
  | inr empty ↦ rw empty (nothing_between ids id l u (ground arith) low high)
  | inl more ↦ rw more (
      at_middle (λ l' u'. loop-Found fuel ids id l' u' asc) ((l + u) / 2) (ground (arith, more))
        (ground (arith, more)) refl)
]
  where
    at_middle :
        ((l' u' : ℕ)
          → u' ≤ length ids
          → u' < l' + fuel
          → ((i : ℕ) → i < l' → nth ids i < id)
          → ((i : ℕ) → u' ≤ i → i < length ids → id < nth ids i)
          → Found ids id (bsearch_loop fuel ids id l' u'))
        → (m : ℕ) → l ≤ m
        → m < u
        → m ≡ (l + u) / 2
        → Found ids id (
            if ltb id (nth ids m)
            then bsearch_loop fuel ids id l m
            else if id == nth ids m
            then some m
            else bsearch_loop fuel ids id (m + 1) u)
    at_middle rest m lm mu e = elim (Bool-cases (ltb id (nth ids m))) [
      | inl less ↦ rw less (
          rest l m (omega arith) (omega arith) low
            (λ i h r. let s = ascending_le ids m i asc h r in ground arith))
      | inr not_less ↦ elim (Bool-cases (id == nth ids m)) [
        | inl same ↦ rw (not_less, same) (hit m (omega arith) (ground arith))
        | inr other ↦
            rw (not_less, other)
              (rest (m + 1) u in_range (omega arith)
                (λ i h.
                  let s = ascending_le ids i m asc (omega arith) (omega arith) in ground arith)
                high)
      ]
    ]

unique :
    (ids : List ℕ) (i j : ℕ)
    → IsAscending ids
    → i < length ids
    → j < length ids
    → nth ids i ≡ nth ids j
    → i ≡ j
unique ids i j asc h k e = elim (Bool-cases (ltb i j)) [
  | inl a ↦ omega (arith, asc i j (ground arith) k)
  | inr a ↦ elim (Bool-cases (ltb j i)) [
    | inl b ↦ omega (arith, asc j i (ground arith) h)
    | inr b ↦ ground arith
  ]
]

bsearch-Found : (ids : List ℕ) (id : ℕ) → IsAscending ids → Found ids id (bsearch ids id)
unfolding bsearch
bsearch-Found ids id asc =
    loop-Found (length ids + 1) ids id 0 (length ids) asc (omega arith) (omega arith)
      (λ i h. ground (arith, h)) (λ i h l. ground (arith, h))

-- The index of an id that is there, and none for an id above all.
pub bsearch-nth :
    (ids : List ℕ) (i : ℕ) → IsAscending ids → i < length ids → bsearch ids (nth ids i) ≡ some i
bsearch-nth ids i asc h = at_index (bsearch ids (nth ids i)) (bsearch-Found ids (nth ids i) asc)
  where
    at_index : (o : Option ℕ) → Found ids (nth ids i) o → o ≡ some i
    at_index _ (missing g) = elim (g i h refl) [ ]
    at_index _ (hit j g e) = ap some (unique ids j i asc g h e)

pub bsearch-above :
    (ids : List ℕ) (id : ℕ)
    → IsAscending ids
    → ((i : ℕ) → i < length ids → nth ids i < id)
    → bsearch ids id ≡ none
bsearch-above ids id asc low = at_end (bsearch ids id) (bsearch-Found ids id asc)
  where
    at_end : (o : Option ℕ) → Found ids id o → o ≡ none
    at_end _ (missing g) = refl
    at_end _ (hit i h e) = ground (arith, low i h, e)

-- What is found is there.
pub bsearch-hit :
    (ids : List ℕ) (id i : ℕ)
    → IsAscending ids
    → bsearch ids id ≡ some i
    → (i < length ids) × (nth ids i ≡ id)
bsearch-hit ids id i asc e = at_some (bsearch ids id) (bsearch-Found ids id asc) e
  where
    at_some : (o : Option ℕ) → Found ids id o → o ≡ some i → (i < length ids) × (nth ids i ≡ id)
    at_some _ (missing g) q = ground (arith, q)
    at_some _ (hit j g p) q =
        let s : j ≡ i = ground (arith, q) in (omega (arith, g, s), ap (nth ids) (sym s) ∙ p)
