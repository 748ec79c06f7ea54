-- ===== src/Common/Perm.antt =====
-- Lists in another order, and maps over lists.
use mathlib.Core.Path.{◌≡◌, refl, ap, subst}
use mathlib.Core.List.{List, [], ◌∷◌, ◌++◌, map}
use mathlib.Core.List.Permᴰ.{Permᴰ, nil, cons, swap, trans}

-- A predicate of every element.
abbrev pub Each {ℓ ℓ'} : {A : Type ℓ} → (A → Type ℓ') → List A → Type ℓ'
Each p [] = Unit
Each p (x ∷ xs) = p x × Each p xs

pub Each-perm {ℓ ℓ'} :
    {A : Type ℓ} (p : A → Type ℓ') (xs ys : List A) → Permᴰ xs ys → Each p xs → Each p ys
Each-perm p _ _ nil h = h
Each-perm p (x ∷ xs) (y ∷ ys) (cons e d) h = (subst p e h.0, Each-perm p xs ys d h.1)
Each-perm p (x ∷ y ∷ xs) (y' ∷ x' ∷ _) (swap e f) h = (subst p f h.1.0, (subst p e h.0, h.1.1))
Each-perm p xs ys (trans {l₂ = zs} c d) h = Each-perm p zs ys d (Each-perm p xs zs c h)

pub map-perm {ℓ ℓ'} :
    {A : Type ℓ} {B : Type ℓ'} (f : A → B) (xs ys : List A)
    → Permᴰ xs ys
    → Permᴰ (map f xs) (map f ys)
map-perm f _ _ nil = nil
map-perm f (x ∷ xs) (y ∷ ys) (cons e d) = cons (ap f e) (map-perm f xs ys d)
map-perm f (x ∷ y ∷ xs) (y' ∷ x' ∷ _) (swap a b) = swap (ap f a) (ap f b)
map-perm f xs ys (trans {l₂ = zs} c d) = trans (map-perm f xs zs c) (map-perm f zs ys d)

pub map-append {ℓ ℓ'} :
    {A : Type ℓ} {B : Type ℓ'} (f : A → B) (xs ys : List A)
    → map f (xs ++ ys) ≡ map f xs ++ map f ys
map-append f [] ys = refl
map-append f (x ∷ xs) ys = ap (◌∷◌ (f x)) (map-append f xs ys)
