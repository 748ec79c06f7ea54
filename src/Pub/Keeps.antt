-- ===== src/Pub/Keeps.antt =====
-- What the steps of src/hp_pub.c on their own keep: a new node, an owed callback, the end of a node.
use libhp.Common.{
  ℕ, ◌+◌, ◌≡◌, ◌≢◌, ◌⊎◌, refl, sym, ap, subst, ◌∙◌, inl, inr, Bool-cases, true, false, Option, none,
  some, List, [], ◌∷◌, ◌++◌, append_assoc, arith, ◌==◌, ==_iff, put,
}
use libhp.Pub.{Sub, Pending}
use libhp.Pub.Links.{
  has, Distinct, privs, Waits, cut_off, listed, Links, has-append, privs-append, Distinct-snoc,
}

-- Two readings of one cell
pub same_sub :
    (subs : ℕ → Option Sub) (d e : ℕ) (x y : Sub)
    → d ≡ e
    → subs d ≡ some x
    → subs e ≡ some y
    → x ≡ y
same_sub subs d e x y h at at' = cc

pub put_cases :
    (subs : ℕ → Option Sub) (d e : ℕ) (y z : Sub)
    → put d (some y) subs e ≡ some z
    → ((e ≡ d) × (y ≡ z)) ⊎ (((e == d) ≡ false) × (subs e ≡ some z))
put_cases subs d e y z h = elim (Bool-cases (e == d)) [
  | inl same ↦ inl ((==_iff e d).0 same, ground arith)
  | inr other ↦ inr (other, ground arith)
]

module _ (run : List ℕ) (subs : ℕ → Option Sub) (asyncs : ℕ → Option (Option ℕ)) (next : ℕ)
    (attached : ℕ → Option ℕ) (pending : List Pending)
    (l : Links run subs asyncs next attached pending) where
  -- What waits is allocated.
  pub Waits-set : (a : ℕ) (o : Option (Option ℕ)) → Waits subs a o → o ≢ none
  Waits-set a _ cut_off h = ground (arith, h)
  Waits-set a _ (listed d x e m) h = ground (arith, h)

  -- The next address is not in use.
  pub next_new : has next (run ++ privs pending) ≡ false
  next_new = elim (Bool-cases (has next (run ++ privs pending))) [
    | inl y ↦
        absurd (Waits-set next (asyncs next) (l.waits next y) (l.fresh_async next (omega arith)))
    | inr z ↦ z
  ]

  -- A node is allocated for a session.
  alloc-Waits :
      (d a : ℕ) (o : Option (Option ℕ))
      → asyncs a ≡ o
      → Waits subs a o
      → Waits subs a (put next (some (some d)) asyncs a)
  alloc-Waits d a o e w =
      let other : put next (some (some d)) asyncs a ≡ o = elim (Bool-cases (a == next)) [
        | inl y ↦ absurd (Waits-set a o w (ground (arith, l.fresh_async a)))
        | inr z ↦ ground (arith, z, e)
      ] in
      subst (Waits subs a) (sym other) w

  pub alloc-Links :
      (d : ℕ) → Links run subs (put next (some (some d)) asyncs) (next + 1) attached pending
  alloc-Links d = record {
    fresh_async = λ a h. ground (arith, l.fresh_async a);
    fresh_sub = λ e h. l.fresh_sub e (omega arith);
    owned = λ e y a h m. ground (arith, l.owned e y a h m, l.fresh_async a);
    waits = λ a h. alloc-Waits d a (asyncs a) refl (l.waits a h);
    distinct = l.distinct;
    alive = l.alive;
    home = l.home;
    single = l.single;
  }

  -- A session's fields change, and its list so that it holds what waits.
  module _ (d : ℕ) (x y : Sub) (at : subs d ≡ some x) (moved : y.subc ≡ x.subc)
      (owns : (a : ℕ) → has a y.async_list ≡ true → asyncs a ≡ some (some d))
      (keeps : (a : ℕ)
        → has a (run ++ privs pending) ≡ true
        → has a x.async_list ≡ true
        → has a y.async_list ≡ true) where
    set-Waits :
        (a : ℕ) (o : Option (Option ℕ))
        → has a (run ++ privs pending) ≡ true
        → Waits subs a o
        → Waits (put d (some y) subs) a o
    set-Waits a _ h cut_off = cut_off
    set-Waits a _ h (listed d' x' e m) = elim (Bool-cases (d' == d)) [
      | inl same ↦ listed d' y (ground arith) (
          keeps a h (
            subst (λ w. has a w.async_list ≡ true)
              (sym (same_sub subs d d' x x' (ground arith) at e)) m))
      | inr z ↦ listed d' x' (ground arith) m
    ]

    set_owned :
        (e : ℕ) (z : Sub) (a : ℕ)
        → has a z.async_list ≡ true
        → ((e ≡ d) × (y ≡ z)) ⊎ (((e == d) ≡ false) × (subs e ≡ some z))
        → asyncs a ≡ some (some e)
    set_owned e z a m (inl (p, q)) =
        subst (λ w. asyncs a ≡ some (some w)) (sym p)
          (owns a (subst (λ w. has a w.async_list ≡ true) (sym q) m))
    set_owned e z a m (inr (other, h)) = l.owned e z a h m

    set_home :
        (e : ℕ) (z : Sub)
        → ((e ≡ d) × (y ≡ z)) ⊎ (((e == d) ≡ false) × (subs e ≡ some z))
        → attached z.subc ≡ some e
    set_home e z (inl (p, q)) =
        subst (λ w. attached w.subc ≡ some e) q
          (ap attached moved ∙ l.home d x at ∙ ap some (sym p))
    set_home e z (inr (other, h)) = l.home e z h

    set_alive :
        (e : ℕ) → (z : Sub) × (subs e ≡ some z) → (z : Sub) × (put d (some y) subs e ≡ some z)
    set_alive e (z, h) = elim (Bool-cases (e == d)) [
      | inl same ↦ (y, ground arith)
      | inr other ↦ (z, ground arith)
    ]

    pub set-Links : Links run (put d (some y) subs) asyncs next attached pending
    set-Links = record {
      fresh_async = l.fresh_async;
      fresh_sub = λ e h. ground (arith, l.fresh_sub e h);
      owned = λ e z a h m. set_owned e z a m (put_cases subs d e y z h);
      waits = λ a h. set-Waits a (asyncs a) h (l.waits a h);
      distinct = l.distinct;
      alive = λ ctx e h. set_alive e (l.alive ctx e h);
      home = λ e z h. set_home e z (put_cases subs d e y z h);
      single = l.single;
    }

  owe-Waits :
      (p : Pending)
      → Waits subs p.privdata (asyncs p.privdata)
      → (a : ℕ) → has a ((run ++ privs pending) ++ p.privdata ∷ []) ≡ true
      → Waits subs a (asyncs a)
  owe-Waits p w a h = elim (Bool-cases (a == p.privdata)) [
    | inl same ↦ subst (λ b. Waits subs b (asyncs b)) (sym ((==_iff a p.privdata).0 same)) w
    | inr other ↦
        l.waits a (ground (arith, h, has-append a (run ++ privs pending) (p.privdata ∷ [])))
  ]

  -- hiredis owes a callback for a node.
  pub owe-Links :
      (p : Pending)
      → Waits subs p.privdata (asyncs p.privdata)
      → has p.privdata (run ++ privs pending) ≡ false
      → Links run subs asyncs next attached (pending ++ p ∷ [])
  owe-Links p w new =
      let more : run ++ privs (pending ++ p ∷ []) ≡ (run ++ privs pending) ++ p.privdata ∷ [] =
        ap (λ ys. run ++ ys) (privs-append pending (p ∷ []))
        ∙ sym (append_assoc run (privs pending) (p.privdata ∷ [])) in
      record {
        fresh_async = l.fresh_async;
        fresh_sub = l.fresh_sub;
        owned = l.owned;
        waits = λ a h. owe-Waits p w a (rw more at h);
        distinct =
            subst Distinct (sym more)
              (Distinct-snoc p.privdata (run ++ privs pending) l.distinct new);
        alive = l.alive;
        home = l.home;
        single = l.single;
      }
