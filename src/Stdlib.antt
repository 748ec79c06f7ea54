-- ===== src/Stdlib.antt =====
-- src/hp_stdlib.c: room in arrays, and the lookup in an array of pairs. An array in memory is the list
-- of its cells, `base`, or NULL.
pub mod Lookup
pub mod Reserve
use libhp.Common.{
  ℕ, zero, suc, ◌+◌, ◌-◌, ◌*◌, ◌%◌, ◌^◌, Bool, true, false, ◌&&◌, Option, none, some, List, [], ◌∷◌,
  ◌++◌, leb, ltb, ◌==◌, if◌then◌else◌, length, take, get_elem?,
}
use libhp.Common.Int.{ℤ, pos, negsuc}

-- A cell that is 0, one whose content nobody has set, or one with an element.
pub data Cell : Type 0 where
  cleared : Cell
  garbage : Cell
  holds : ℕ → Cell

unfoldable pub fresh_cells : Cell → ℕ → List Cell
fresh_cells c zero = []
fresh_cells c (suc n) = c ∷ fresh_cells c n

-- `*base` and `*nmemb`
pub record Array : Type 0 where
  pub base : Option (List Cell)
  pub nmemb : ℕ

-- calloc or malloc
unfoldable pub allocate : Bool → ℕ → List Cell
unfolding fresh_cells
allocate clr n = fresh_cells (if clr then cleared else garbage) n

-- realloc to `nmemb` cells; with the flag, the cells from `n` on are cleared.
unfoldable pub reallocate : Bool → List Cell → ℕ → ℕ → List Cell
unfolding fresh_cells
reallocate clr cells n nmemb =
    if clr
    then take n cells ++ fresh_cells cleared (nmemb - n)
    else cells ++ fresh_cells garbage (nmemb - length cells)

-- `if(!(*base))`
unfoldable pub reserve_null : ℕ → ℕ → Bool → Array
unfolding allocate
reserve_null nmemb nreserve clr =
    let nmemb' = if ltb nmemb nreserve then (nmemb + nreserve) % 2 ^ 64 else nmemb in
    record { base = some (allocate clr nmemb'); nmemb = nmemb' }

unfoldable pub reserve_more : List Cell → ℕ → ℕ → ℕ → Bool → Array
unfolding reallocate
reserve_more cells nmemb n nreserve clr =
    if ltb 0 nmemb && leb n nmemb
    then (if ltb (nmemb - n) nreserve
        then record {
          base = some (reallocate clr cells n ((nmemb + nreserve) % 2 ^ 64));
          nmemb = (nmemb + nreserve) % 2 ^ 64;
        }
        else record { base = some cells; nmemb = nmemb })
    else record { base = some cells; nmemb = nmemb }

unfoldable pub reserve_in : Option (List Cell) → ℕ → ℕ → ℕ → Bool → Array
unfolding reserve_null reserve_more
reserve_in none nmemb n nreserve clr = reserve_null nmemb nreserve clr
reserve_in (some cells) nmemb n nreserve clr = reserve_more cells nmemb n nreserve clr

-- `clr` is the flag HP_LRESERVE_CLR.
unfoldable pub lreserve : Array → ℕ → ℕ → ℕ → Bool → Array
unfolding reserve_in
lreserve a size n nreserve clr =
    if ltb 0 size && ltb 0 nreserve then reserve_in a.base a.nmemb n nreserve clr else a

pub record Ivpair : Type 0 where
  pub key : ℕ
  pub val : ℕ
  pub offset : ℕ

unfoldable pub find_by_key : ℕ → List Ivpair → Option Ivpair
find_by_key key [] = none
find_by_key key (p ∷ m) = if key == p.key then some p else find_by_key key m

unfoldable pub val_in : Option Ivpair → Option ℕ
val_in none = none
val_in (some p) = some p.val

-- `m[p->key - p->offset].val`; `none` where that is outside the array.
unfoldable pub val_of : List Ivpair → Option Ivpair → Option ℕ
unfolding val_in
val_of m none = some 0
val_of m (some p) = if leb p.offset p.key then val_in (get_elem? m (p.key - p.offset)) else none

unfoldable pub iv_lfind : List Ivpair → ℤ → Option ℕ
unfolding find_by_key val_of
iv_lfind [] key = some 0
iv_lfind (p ∷ m) (negsuc k) = some 0
iv_lfind (p ∷ m) (pos k) = val_of (p ∷ m) (find_by_key k (p ∷ m))
