-- ===== src/Io/Vec/Cut.antt =====
-- before_writev cuts exactly the written bytes off the vectors.
use libhp.Common.{
  ℕ, suc, ◌+◌, ◌-◌, ◌≤◌, ◌<◌, ◌≡◌, refl, sym, ap, subst, ◌∙◌, inl, inr, Bool-cases, List, [], ◌∷◌,
  ◌++◌, arith, ltb, ltb→lt, le_of_ltb-false, length, take, drop, concat, length-append,
  drop-append_le, drop-append_ge, drop-take_append, length-take_append, length-drop, drop-drop,
  Bytes,
}
use libhp.Io.Vec.{Iovec, before_writev_loop, before_writev}

-- The bytes that a vector is still to write from its n-th element on.
abbrev pub pending : List Iovec → ℕ → Bytes
pending vec n = concat (drop n vec)

-- `vec'` and `n'` are what is left of `vec` from `i` on when `skip` bytes of it are written: only
-- the element at `n'` has changed, and the bytes from there on are the unwritten ones, one of which
-- at least is in that element.
pub record Cut (vec : List Iovec) (skip i : ℕ) (vec' : List Iovec) (n' : ℕ) : Type 0 where
  pub at : ℕ
  pub n_eq : n' ≡ i + at
  pub at_lt : at < length vec
  pub length_eq : length vec' ≡ length vec
  pub tail_eq : drop (suc at) vec' ≡ drop (suc at) vec
  pub bytes_left : pending vec' at ≡ drop skip (concat vec)
  pub unwritten : length (pending vec' (suc at)) < length (pending vec' at)

before_writev_loop-Cut :
    (vec : List Iovec) (i r nwrite n : ℕ)
    → r ≤ nwrite
    → nwrite < r + length (concat vec)
    → Cut vec
        (nwrite - r)
        i
        (before_writev_loop vec i r nwrite n).0
        (before_writev_loop vec i r nwrite n).1
unfolding before_writev_loop
before_writev_loop-Cut [] i r nwrite n h l = absurd (omega arith)
before_writev_loop-Cut (v ∷ vec) i r nwrite n h l = elim (Bool-cases (ltb nwrite (r + length v))) [
  | inl inside ↦ rw inside (record {
    at = 0;
    n_eq = omega arith;
    at_lt = omega arith;
    length_eq = refl;
    tail_eq = refl;
    bytes_left = here (ltb→lt _ _ inside);
    unwritten = cut_left (ltb→lt _ _ inside);
  })
  | inr beyond ↦ rw beyond (
      further (le_of_ltb-false _ _ beyond) (
        before_writev_loop-Cut vec (i + 1) (r + length v) nwrite n (le_of_ltb-false _ _ beyond)
          (omega (arith, length-append v (concat vec)))))
]
  where
    here :
        nwrite < r + length v
        → drop (length v - (r + length v - nwrite)) v ++ concat vec
          ≡ drop (nwrite - r) (v ++ concat vec)
    here lt =
        let e : length v - (r + length v - nwrite) ≡ nwrite - r = omega arith in
        rw e (sym (drop-append_le (nwrite - r) v (concat vec) (omega arith)))

    cut_left :
        nwrite < r + length v
        → length (concat vec) < length (drop (length v - (r + length v - nwrite)) v ++ concat vec)
    cut_left lt =
        let cut = length v - (r + length v - nwrite) in
        omega (arith, length-append (drop cut v) (concat vec), length-drop cut v)

    further :
        {vec' : List Iovec} {n' : ℕ}
        → r + length v ≤ nwrite
        → Cut vec (nwrite - (r + length v)) (i + 1) vec' n'
        → Cut (v ∷ vec) (nwrite - r) i (v ∷ vec') n'
    further ge c = record {
      at = suc c.at;
      n_eq = omega (arith, c.n_eq);
      at_lt = omega (arith, c.at_lt);
      length_eq = ap suc c.length_eq;
      tail_eq = c.tail_eq;
      bytes_left =
          let e : nwrite - r ≡ length v + (nwrite - (r + length v)) = omega arith in
          rw e (c.bytes_left ∙ sym (drop-append_ge v (concat vec) (nwrite - (r + length v))));
      unwritten = c.unwritten;
    }

-- After a `writev` of `w` bytes, fewer than are pending from `n` on, `before_writev` moves `n`
-- forward and trims one element, so that exactly the unwritten bytes are pending.
pub record Advanced (vec : List Iovec) (w n : ℕ) (vec' : List Iovec) (n' : ℕ) : Type 0 where
  pub forward : n ≤ n'
  pub in_range : n' < length vec
  pub length_eq : length vec' ≡ length vec
  pub tail_eq : drop (suc n') vec' ≡ drop (suc n') vec
  pub bytes_left : pending vec' n' ≡ drop w (pending vec n)
  pub unwritten : length (pending vec' (suc n')) < length (pending vec' n')

Advanced-of_Cut :
    (vec vec' : List Iovec) (w n n' : ℕ)
    → n ≤ length vec
    → Cut (drop n vec) w n vec' n'
    → Advanced vec w n (take n vec ++ vec') n'
Advanced-of_Cut vec vec' w n n' h c = record {
  forward = omega (arith, c.n_eq);
  in_range = omega (arith, c.n_eq, c.at_lt, length-drop n vec);
  length_eq = length-take_append n vec vec' h c.length_eq;
  tail_eq =
      let e : suc n' ≡ n + suc c.at = omega (arith, c.n_eq) in
      rw (e, drop-take_append n (suc c.at) vec vec' h) (c.tail_eq ∙ drop-drop (suc c.at) n vec);
  bytes_left = rw (c.n_eq, drop-take_append n c.at vec vec' h) c.bytes_left;
  unwritten =
      let e : suc n' ≡ n + suc c.at = omega (arith, c.n_eq) in
      rw (e, c.n_eq, drop-take_append n c.at vec vec' h, drop-take_append n (suc c.at) vec vec' h)
        c.unwritten;
}

pub before_writev-Advanced :
    (vec : List Iovec) (w n : ℕ)
    → n ≤ length vec
    → w < length (pending vec n)
    → Advanced vec w n (before_writev vec w n).0 (before_writev vec w n).1
unfolding before_writev
before_writev-Advanced vec w n h l =
    let e : w - 0 ≡ w = omega arith in
    Advanced-of_Cut vec (before_writev_loop (drop n vec) n 0 w n).0 w n
      (before_writev_loop (drop n vec) n 0 w n).1 h
      (subst
        (λ k.
          Cut (drop n vec) k n (before_writev_loop (drop n vec) n 0 w n).0
            (before_writev_loop (drop n vec) n 0 w n).1)
        e (before_writev_loop-Cut (drop n vec) n 0 w n (omega arith) (omega arith)))
