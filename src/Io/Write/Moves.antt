-- ===== src/Io/Write/Moves.antt =====
-- Taking items off the front of the queue while their bytes go out: the account that every round of
-- hp_wr_write keeps, and that adds up over rounds.
use libhp.Common.{
  ℕ, zero, suc, ◌+◌, ◌≤◌, ◌<◌, ◌≡◌, refl, sym, ap, ap₂, ◌∙◌, ◌⊎◌, inl, inr, Option, none, some,
  List, [], ◌∷◌, ◌++◌, append-nil, append_assoc, arith, map, length, take, drop, concat, get_elem?,
  length-append, length-take, length-map, drop-append_le, drop-drop, take-append-drop,
  take-append-take-drop, map-drop, map-take, Bytes,
}
use libhp.Io.Vec.{Iovec, iovec_total_bytes}
use libhp.Io.Write.{Item, FreeFn, Ptr, Call, vecs, release, releases, set_vec, adjust}

-- The bytes that a queue is to write.
abbrev pub stream : List Item → Bytes
stream items = concat (vecs items)

-- Who frees what: an item without its bytes.
abbrev pub owners : List Item → List (FreeFn × Ptr)
owners = map (λ x. (x.free, x.ptr))

pub length-owners : (items : List Item) → length (owners items) ≡ length items
length-owners [] = refl
length-owners (x ∷ items) = ap suc (length-owners items)

abbrev pub calls : List (FreeFn × Ptr) → List Call
calls [] = []
calls ((f, p) ∷ os) = release f p ++ calls os

pub releases-owners : (items : List Item) → releases items ≡ calls (owners items)
unfolding releases
releases-owners [] = refl
releases-owners (x ∷ items) = ap (◌++◌ (release x.free x.ptr)) (releases-owners items)

pub calls-append : (xs ys : List (FreeFn × Ptr)) → calls (xs ++ ys) ≡ calls xs ++ calls ys
calls-append [] ys = refl
calls-append ((f, p) ∷ xs) ys = rw (calls-append xs ys, append_assoc)

-- What is left of a queue's vectors when `dropped` are off its front: the others as they were, or
-- with the first of them begun and a byte of it unsent.
abbrev pub Front : List Iovec → ℕ → List Iovec → Type 0
Front vec dropped vec' =
    (vec' ≡ drop dropped vec)
    ⊎ ((drop 1 vec' ≡ drop (suc dropped) vec)
        × (length (concat (drop 1 vec')) < length (concat vec')))

-- From the queue `items`, `dropped` items have been taken off and freed, and `sent` has gone out:
-- the bytes that are left are the rest, in order, and no item whose bytes went out is among those left.
pub record Moved (items : List Item) (out : Bytes) (freed : List Call) (items' : List Item)
    (out' : Bytes) (freed' : List Call) (count : ℕ) : Type 0 where
  pub dropped : ℕ
  pub sent : Bytes
  pub out_eq : out' ≡ out ++ sent
  pub count_eq : count ≡ length sent
  pub split : sent ++ stream items' ≡ stream items
  pub owners_eq : owners items' ≡ drop dropped (owners items)
  pub freed_eq : freed' ≡ freed ++ calls (take dropped (owners items))
  pub front : Front (vecs items) dropped (vecs items')

pub Moved-refl :
    (items : List Item) (out : Bytes) (freed : List Call) → Moved items out freed items out freed 0
Moved-refl items out freed = record {
  dropped = 0;
  sent = [];
  out_eq = sym (append-nil out);
  count_eq = refl;
  split = refl;
  owners_eq = refl;
  freed_eq = sym (append-nil freed);
  front = inl refl;
}

Front-tail : (a : List Iovec) (m : ℕ) (b : List Iovec) → Front a m b → drop 1 b ≡ drop (suc m) a
Front-tail a m b (inl e) =
    let s : m + 1 ≡ suc m = omega arith in ap (drop 1) e ∙ drop-drop 1 m a ∙ ap (λ k. drop k a) s
Front-tail a m b (inr t) = t.0

Front-trans :
    (a : List Iovec) (m : ℕ) (b : List Iovec) (n : ℕ) (c : List Iovec)
    → Front a m b
    → Front b n c
    → Front a (m + n) c
Front-trans a m b n c (inl e) (inl f) = inl (f ∙ ap (drop n) e ∙ drop-drop n m a)
Front-trans a m b zero c (inr t) (inl f) =
    let s : m + 0 ≡ m = omega arith in let g : c ≡ b = f in rw (s, g) (inr t)
Front-trans a m b (suc n) c (inr t) (inl f) =
    let s : suc m + n ≡ m + suc n = omega arith in
    let one : 1 + n ≡ suc n = omega arith in
    inl (
      f
      ∙ ap (λ k. drop k b) (sym one)
      ∙ sym (drop-drop n 1 b)
      ∙ ap (drop n) t.0
      ∙ drop-drop n (suc m) a
      ∙ ap (λ k. drop k a) s)
Front-trans a m b n c p (inr u) =
    let s : suc m + n ≡ suc (m + n) = omega arith in
    let one : 1 + n ≡ suc n = omega arith in
    inr (
      u.0
          ∙ ap (λ k. drop k b) (sym one)
          ∙ sym (drop-drop n 1 b)
          ∙ ap (drop n) (Front-tail a m b p)
          ∙ drop-drop n (suc m) a
          ∙ ap (λ k. drop k a) s,
      u.1,
    )

pub Moved-trans :
    {a b c : List Item} {oa ob oc : Bytes} {fa fb fc : List Call} {m n : ℕ}
    → Moved a oa fa b ob fb m
    → Moved b ob fb c oc fc n
    → Moved a oa fa c oc fc (m + n)
Moved-trans {a} {b} {c} {oa} {fa} p q = record {
  dropped = p.dropped + q.dropped;
  sent = p.sent ++ q.sent;
  out_eq = rw (q.out_eq, p.out_eq, append_assoc);
  count_eq = omega (arith, p.count_eq, q.count_eq, length-append p.sent q.sent);
  split = rw (append_assoc, q.split) p.split;
  owners_eq =
      q.owners_eq ∙ ap (drop q.dropped) p.owners_eq ∙ drop-drop q.dropped p.dropped (owners a);
  freed_eq =
      q.freed_eq
      ∙ ap₂ ◌++◌ p.freed_eq (ap (λ xs. calls (take q.dropped xs)) p.owners_eq)
      ∙ append_assoc fa (calls (take p.dropped (owners a)))
          (calls (take q.dropped (drop p.dropped (owners a))))
      ∙ ap (◌++◌ fa) (
          sym
            (calls-append (take p.dropped (owners a)) (take q.dropped (drop p.dropped (owners a))))
          ∙ ap calls (take-append-take-drop p.dropped q.dropped (owners a)));
  front = Front-trans (vecs a) p.dropped (vecs b) q.dropped (vecs c) p.front q.front;
}

-- Writing an item's vector leaves its owner alone.
owners-set_vec : (items : List Item) (n : ℕ) (v : Iovec) → owners (set_vec items n v) ≡ owners items
unfolding set_vec
owners-set_vec [] n v = refl
owners-set_vec (x ∷ items) zero v = refl
owners-set_vec (x ∷ items) (suc n) v = ap (◌∷◌ (x.free, x.ptr)) (owners-set_vec items n v)

pub owners-adjust :
    (items : List Item) (n : ℕ) (vec : List Iovec) → owners (adjust items n vec) ≡ owners items
unfolding adjust
owners-adjust items n vec = go (get_elem? vec n)
  where
    go :
        (o : Option Iovec)
        → owners (elim o [ none ↦ items | some v ↦ set_vec items n v ]) ≡ owners items
    go none = refl
    go (some v) = owners-set_vec items n v

pub iovec_total_bytes_lem : (vec : List Iovec) → iovec_total_bytes vec ≡ length (concat vec)
unfolding iovec_total_bytes
iovec_total_bytes_lem [] = refl
iovec_total_bytes_lem (v ∷ vec) =
    omega (arith, iovec_total_bytes_lem vec, length-append v (concat vec))

-- An element in range, with the list from there on.
get_elem?-drop {ℓ} :
    {A : Type ℓ} (xs : List A) (n : ℕ)
    → n < length xs
    → (v : A) × (get_elem? xs n ≡ some v) × (drop n xs ≡ v ∷ drop (suc n) xs)
get_elem?-drop [] n h = absurd (omega arith)
get_elem?-drop (x ∷ xs) zero h = (x, refl, refl)
get_elem?-drop (x ∷ xs) (suc n) h = get_elem?-drop xs n (omega arith)

drop-set_vec :
    (items : List Item) (n : ℕ) (v : Iovec)
    → n < length items
    → vecs (drop n (set_vec items n v)) ≡ v ∷ drop (suc n) (vecs items)
unfolding set_vec
drop-set_vec [] n v h = absurd (omega arith)
drop-set_vec (x ∷ items) zero v h = refl
drop-set_vec (x ∷ items) (suc n) v h = drop-set_vec items n v (omega arith)

-- The vectors of the first `m` items, and those of the rest.
pub vecs-split :
    (items : List Item) (m : ℕ) → vecs (take m items) ++ vecs (drop m items) ≡ vecs items
vecs-split items m =
    rw (map-take (λ (x : Item). x.vec) m items, map-drop (λ (x : Item). x.vec) m items)
      (take-append-drop m (vecs items))

pub length-vecs-take :
    (items : List Item) (m : ℕ) → m ≤ length items → length (vecs (take m items)) ≡ m
length-vecs-take items m h =
    omega (arith, length-map (λ (x : Item). x.vec) (take m items), length-take m items)

adjust-some :
    (items : List Item) (n : ℕ) (vec : List Iovec) (v : Iovec)
    → get_elem? vec n ≡ some v
    → adjust items n vec ≡ set_vec items n v
unfolding adjust
adjust-some items n vec v q = rw (q, adjust)

-- From the adjusted item on, the queue holds what is left of the first `m` vectors, and the items
-- behind them.
pub drop-adjust :
    (items : List Item) (m n : ℕ) (vec : List Iovec)
    → m ≤ length items
    → n < m
    → length vec ≡ m
    → drop (suc n) vec ≡ drop (suc n) (vecs (take m items))
    → vecs (drop n (adjust items n vec)) ≡ drop n vec ++ vecs (drop m items)
drop-adjust items m n vec h l e t =
    let (v, got, at) = get_elem?-drop vec n (omega arith) in
    rw
      (
        adjust-some items n vec v got,
        at,
        drop-set_vec items n v (omega arith),
        ← vecs-split items m,
        t,
      )
      (ap (◌∷◌ v) (
        drop-append_le (suc n) (vecs (take m items)) (vecs (drop m items))
          (omega (arith, length-vecs-take items m h))))
