-- ===== src/Io/Write/Round.antt =====
-- One round of hp_wr_write: what the items are after a call of hp_uio_write.
use libhp.Common.{
  ℕ, suc, ◌+◌, ◌-◌, ◌≤◌, ◌<◌, ◌≡◌, refl, sym, ap, ◌∙◌, ◌⊎◌, inl, inr, Bool-cases, List, [], ◌∷◌,
  ◌++◌, append-nil, append_assoc, arith, ltb, if◌then◌else◌, length, take, drop, concat, drop_all,
  concat-append, map-drop, map-take, length-drop, length-append, drop-drop, drop-append_le, Bytes,
}
use libhp.Io.Vec.{Iovec, Uio}
use libhp.Io.Vec.Send.{Progress}
use libhp.Io.Write.{Item, Call, vecs, releases, adjust}
use libhp.Io.Write.Moves.{
  Front, owners, calls, releases-owners, Moved, owners-adjust, vecs-split, length-vecs-take,
  drop-adjust,
}

-- The items after a call of `hp_uio_write` on the first `m` vectors.
abbrev pub after_uio : List Item → ℕ → Uio → List Item
after_uio items m u = if ltb u.n m then adjust items u.n u.vec else items

one_more : (n : ℕ) (vec : List Iovec) → drop 1 (drop n vec) ≡ drop (suc n) vec
one_more n vec = let s : n + 1 ≡ suc n = omega arith in drop-drop 1 n vec ∙ ap (λ k. drop k vec) s

module _ (items : List Item) (m : ℕ) {out : Bytes} (u : Uio) (h : m ≤ length items)
    (p : Progress (vecs (take m items)) out u.vec u.n u.nwrite u.os.out) where
  pub vecs-after : vecs (drop u.n (after_uio items m u)) ≡ drop u.n u.vec ++ vecs (drop m items)
  vecs-after = elim (Bool-cases (ltb u.n m)) [
    | inl inside ↦ rw inside (
        drop-adjust items m u.n u.vec h (ground arith) (p.length_eq ∙ length-vecs-take items m h)
          p.tail_eq)
    | inr whole ↦
        let e : u.n ≡ m = ground (arith, p.in_range, length-vecs-take items m h) in
        rw (whole, e, drop_all m u.vec (omega (arith, p.length_eq, length-vecs-take items m h)))
  ]

  pub owners-after : owners (after_uio items m u) ≡ owners items
  owners-after = elim (Bool-cases (ltb u.n m)) [
    | inl inside ↦ rw inside (owners-adjust items u.n u.vec)
    | inr whole ↦ rw whole
  ]

  drop-split :
      (n : ℕ) → n ≤ m → drop n (vecs (take m items)) ++ vecs (drop m items) ≡ drop n (vecs items)
  drop-split n l =
      sym (
        drop-append_le n (vecs (take m items)) (vecs (drop m items))
          (omega (arith, length-vecs-take items m h)))
      ∙ ap (drop n) (vecs-split items m)

  front-after : Front (vecs items) u.n (vecs (drop u.n (after_uio items m u)))
  front-after = rw vecs-after (go p.front)
    where
      n_le : u.n ≤ m
      n_le = omega (arith, p.in_range, length-vecs-take items m h)

      go :
          (drop u.n u.vec ≡ drop u.n (vecs (take m items)))
            ⊎ (length (concat (drop (suc u.n) u.vec)) < length (concat (drop u.n u.vec)))
          → Front (vecs items) u.n (drop u.n u.vec ++ vecs (drop m items))
      go (inl e) = inl (ap (λ xs. xs ++ vecs (drop m items)) e ∙ drop-split u.n n_le)
      go (inr less) = begun (drop u.n u.vec) (one_more u.n u.vec) (length-drop u.n u.vec) less
        where
          begun :
              (vs : List Iovec)
              → drop 1 vs ≡ drop (suc u.n) u.vec
              → length vs ≡ length u.vec - u.n
              → length (concat (drop (suc u.n) u.vec)) < length (concat vs)
              → Front (vecs items) u.n (vs ++ vecs (drop m items))
          begun [] e k l = absurd (omega arith)
          begun (v ∷ vs) e k l = inr (
            ap (λ xs. xs ++ vecs (drop m items)) (e ∙ p.tail_eq)
                ∙ drop-split (suc u.n) (omega (arith, k, p.length_eq, length-vecs-take items m h)),
            omega (
              arith,
              l,
              ap (λ (xs : List Iovec). length (concat xs)) e,
              length-append v (concat vs),
              length-append v (concat (vs ++ vecs (drop m items))),
              ap (length {A = ℕ}) (concat-append vs (vecs (drop m items))),
              length-append (concat vs) (concat (vecs (drop m items))),
            ),
          )

  -- One call of `hp_uio_write`, and the removal of what it has written whole.
  pub Moved-uio :
      (freed : List Call)
      → Moved items out freed
          (drop u.n (after_uio items m u))
          u.os.out
          (freed ++ releases (take u.n (after_uio items m u)))
          u.nwrite
  Moved-uio freed = record {
    dropped = u.n;
    sent = p.sent;
    out_eq = p.out_eq;
    count_eq = p.count;
    split = rw (
      vecs-after,
      concat-append (drop u.n u.vec) (vecs (drop m items)),
      ← append_assoc,
      p.split,
      ← concat-append (vecs (take m items)) (vecs (drop m items)),
      vecs-split items m,
    );
    owners_eq =
        map-drop (λ (x : Item). (x.free, x.ptr)) u.n (after_uio items m u)
        ∙ ap (drop u.n) owners-after;
    freed_eq = ap (◌++◌ freed) (
        releases-owners (take u.n (after_uio items m u))
        ∙ ap calls (
            map-take (λ (x : Item). (x.free, x.ptr)) u.n (after_uio items m u)
            ∙ ap (take u.n) owners-after));
    front = front-after;
  }

-- Vectors without a byte are removed with nothing sent.
pub Moved-empty :
    (items : List Item) (m : ℕ) (out : Bytes) (freed : List Call)
    → length (concat (vecs (take m items))) ≡ 0
    → Moved items out freed (drop m items) out (freed ++ releases (take m items)) 0
Moved-empty items m out freed z = record {
  dropped = m;
  sent = [];
  out_eq = sym (append-nil out);
  count_eq = refl;
  split = empty (concat (vecs (take m items))) z (
      sym (concat-append (vecs (take m items)) (vecs (drop m items)))
      ∙ ap concat (vecs-split items m));
  owners_eq = map-drop (λ (x : Item). (x.free, x.ptr)) m items;
  freed_eq = ap (◌++◌ freed) (
      releases-owners (take m items) ∙ ap calls (map-take (λ (x : Item). (x.free, x.ptr)) m items));
  front = inl (map-drop (λ (x : Item). x.vec) m items);
}
  where
    empty : (xs : Bytes) {ys zs : Bytes} → length xs ≡ 0 → xs ++ ys ≡ zs → ys ≡ zs
    empty [] e q = q
    empty (x ∷ xs) e q = absurd (omega arith)
