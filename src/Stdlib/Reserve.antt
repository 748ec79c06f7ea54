-- ===== src/Stdlib/Reserve.antt =====
-- hp_lreserve of src/hp_stdlib.c reserves room and keeps the elements.
use libhp.Common.{
  ℕ, zero, suc, ◌+◌, ◌-◌, ◌%◌, ◌^◌, ◌≤◌, ◌<◌, ◌≡◌, refl, ap, ◌∙◌, inl, inr, Bool-cases, Bool, true,
  false, Option, none, some, List, [], ◌++◌, arith, leb, ltb, if◌then◌else◌, length, take,
  length-append, length-take, take-append_le, take-length_append,
}
use libhp.Stdlib.{
  Cell, cleared, garbage, fresh_cells, Array, allocate, reallocate, reserve_null, reserve_more,
  reserve_in, lreserve,
}

-- An array with `n` elements in use: none in one that is not allocated.
abbrev pub Holds : Option (List Cell) → ℕ → ℕ → Type 0
Holds none nmemb n = n ≡ 0
Holds (some cells) nmemb n = (length cells ≡ nmemb) × (0 < nmemb) × (n ≤ nmemb)

abbrev pub contents : Option (List Cell) → List Cell
contents none = []
contents (some cells) = cells

-- The array is allocated, has room for `nreserve` more elements, and keeps the `n` in use.
record Reserved (base : Option (List Cell)) (n nreserve : ℕ) (a : Array) : Type 0 where
  pub cells : List Cell
  pub base_eq : a.base ≡ some cells
  pub size : length cells ≡ a.nmemb
  pub room : n + nreserve ≤ a.nmemb
  pub kept : take n cells ≡ take n (contents base)

length-fresh_cells : (c : Cell) (n : ℕ) → length (fresh_cells c n) ≡ n
unfolding fresh_cells
length-fresh_cells c zero = refl
length-fresh_cells c (suc n) = ap suc (length-fresh_cells c n)

length-reallocate :
    (clr : Bool) (cells : List Cell) (n nmemb : ℕ)
    → n ≤ length cells
    → length cells ≤ nmemb
    → length (reallocate clr cells n nmemb) ≡ nmemb
unfolding reallocate
length-reallocate true cells n nmemb l u = omega (
  arith,
  length-append (take n cells) (fresh_cells cleared (nmemb - n)),
  length-take n cells,
  length-fresh_cells cleared (nmemb - n),
)
length-reallocate false cells n nmemb l u = omega (
  arith,
  length-append cells (fresh_cells garbage (nmemb - length cells)),
  length-fresh_cells garbage (nmemb - length cells),
)

take-reallocate :
    (clr : Bool) (cells : List Cell) (n nmemb : ℕ)
    → n ≤ length cells
    → take n (reallocate clr cells n nmemb) ≡ take n cells
unfolding reallocate
take-reallocate true cells n nmemb l =
    let e : n ≡ length (take n cells) = omega (arith, length-take n cells) in
    ap (λ k. take k (take n cells ++ fresh_cells cleared (nmemb - n))) e
    ∙ take-length_append (take n cells) (fresh_cells cleared (nmemb - n))
take-reallocate false cells n nmemb l =
    take-append_le n cells (fresh_cells garbage (nmemb - length cells)) l

reserve_null-Reserved :
    (nmemb nreserve : ℕ) (clr : Bool)
    → nmemb + nreserve < 2 ^ 64
    → Reserved none 0 nreserve (reserve_null nmemb nreserve clr)
unfolding reserve_null allocate
reserve_null-Reserved nmemb nreserve clr u = elim (Bool-cases (ltb nmemb nreserve)) [
  | inl less ↦ rw less (record {
    cells = fresh_cells (if clr then cleared else garbage) ((nmemb + nreserve) % 2 ^ 64);
    base_eq = refl;
    size = length-fresh_cells (if clr then cleared else garbage) ((nmemb + nreserve) % 2 ^ 64);
    room = omega arith;
    kept = refl;
  })
  | inr enough ↦ rw enough (record {
    cells = fresh_cells (if clr then cleared else garbage) nmemb;
    base_eq = refl;
    size = length-fresh_cells (if clr then cleared else garbage) nmemb;
    room = ground arith;
    kept = refl;
  })
]

-- A write-up of what is left as it is.
same-Reserved :
    (cells : List Cell) (nmemb n nreserve : ℕ)
    → length cells ≡ nmemb
    → n + nreserve ≤ nmemb
    → Reserved (some cells) n nreserve (record { base = some cells; nmemb = nmemb })
same-Reserved cells nmemb n nreserve l u = record {
  cells = cells;
  base_eq = refl;
  size = l;
  room = u;
  kept = refl;
}

more-Reserved :
    (cells : List Cell) (nmemb n nreserve : ℕ) (clr : Bool)
    → length cells ≡ nmemb
    → n ≤ nmemb
    → nmemb + nreserve < 2 ^ 64
    → Reserved (some cells) n nreserve (record {
      base = some (reallocate clr cells n ((nmemb + nreserve) % 2 ^ 64));
      nmemb = (nmemb + nreserve) % 2 ^ 64;
    })
more-Reserved cells nmemb n nreserve clr l u fits = record {
  cells = reallocate clr cells n ((nmemb + nreserve) % 2 ^ 64);
  base_eq = refl;
  size = length-reallocate clr cells n ((nmemb + nreserve) % 2 ^ 64) (omega arith) (omega arith);
  room = omega arith;
  kept = take-reallocate clr cells n ((nmemb + nreserve) % 2 ^ 64) (omega arith);
}

reserve_more-Reserved :
    (cells : List Cell) (nmemb n nreserve : ℕ) (clr : Bool)
    → length cells ≡ nmemb
    → 0 < nmemb
    → n ≤ nmemb
    → nmemb + nreserve < 2 ^ 64
    → Reserved (some cells) n nreserve (reserve_more cells nmemb n nreserve clr)
unfolding reserve_more
reserve_more-Reserved cells nmemb n nreserve clr l pos_nmemb u fits =
    let some_there : ltb 0 nmemb ≡ true = ground arith in
    let in_use : leb n nmemb ≡ true = ground arith in
    elim (Bool-cases (ltb (nmemb - n) nreserve)) [
      | inl short ↦
          rw (some_there, in_use, short) (more-Reserved cells nmemb n nreserve clr l u fits)
      | inr roomy ↦
          rw (some_there, in_use, roomy) (same-Reserved cells nmemb n nreserve l (ground arith))
    ]

reserve_in-Reserved :
    (base : Option (List Cell)) (nmemb n nreserve : ℕ) (clr : Bool)
    → Holds base nmemb n
    → nmemb + nreserve < 2 ^ 64
    → Reserved base n nreserve (reserve_in base nmemb n nreserve clr)
unfolding reserve_in
reserve_in-Reserved none nmemb n nreserve clr h fits =
    rw h (reserve_null-Reserved nmemb nreserve clr fits)
reserve_in-Reserved (some cells) nmemb n nreserve clr h fits =
    reserve_more-Reserved cells nmemb n nreserve clr h.0 h.1 h.2 fits

-- For an array that is NULL with no element in use, or that has `nmemb` cells, one at least, with the
-- first `n` in use, and for sizes that do not wrap: after `hp_lreserve` the array is allocated with
-- `nmemb` cells, `nreserve` of them at least are behind the `n` in use, and those are kept.
lreserve-Reserved :
    (a : Array) (size n nreserve : ℕ) (clr : Bool)
    → 0 < size
    → 0 < nreserve
    → Holds a.base a.nmemb n
    → a.nmemb + nreserve < 2 ^ 64
    → Reserved a.base n nreserve (lreserve a size n nreserve clr)
unfolding lreserve
lreserve-Reserved a size n nreserve clr s r h fits =
    let sized : ltb 0 size ≡ true = ground arith in
    let asked : ltb 0 nreserve ≡ true = ground arith in
    rw (sized, asked) (reserve_in-Reserved a.base a.nmemb n nreserve clr h fits)
