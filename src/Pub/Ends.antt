-- ===== src/Pub/Ends.antt =====
-- In src/hp_pub.c, an owed callback starts and its node ends, and a session ends.
use libhp.Common.{
  ℕ, ◌≡◌, refl, ap, subst, inl, inr, Bool-cases, true, false, Option, none, some, List, [], ◌∷◌,
  ◌++◌, arith, ◌==◌, ==_iff, put,
}
use libhp.Pub.{Sub, Pending, Pub, Env}
use libhp.Pub.Replies.{list_del, end_async}
use libhp.Pub.Links.{
  has, Distinct, privs, Waits, cut_off, listed, Links, Linked, has-list_del, privs-append,
  Distinct-middle, has-middle,
}
use libhp.Pub.Keeps.{put_cases, set-Links}

-- What is in a list differs from what is not.
differ : (xs : List ℕ) (a b : ℕ) → has a xs ≡ false → has b xs ≡ true → (b == a) ≡ false
differ xs a b f t = elim (Bool-cases (b == a)) [
  | inl same ↦ let e : has b xs ≡ has a xs = ap (λ c. has c xs) ((==_iff b a).0 same) in cc
  | inr other ↦ other
]

-- hiredis calls one of the callbacks that it owes.
pub start-Links :
    (subs : ℕ → Option Sub) (asyncs : ℕ → Option (Option ℕ)) (next : ℕ) (attached : ℕ → Option ℕ)
    (before : List Pending) (p : Pending) (after : List Pending)
    → Links [] subs asyncs next attached (before ++ p ∷ after)
    → Links (p.privdata ∷ []) subs asyncs next attached (before ++ after)
start-Links subs asyncs next attached before p after l =
    let old : privs (before ++ p ∷ after) ≡ privs before ++ p.privdata ∷ privs after =
      privs-append before (p ∷ after) in
    let new = privs-append before after in
    record {
      fresh_async = l.fresh_async;
      fresh_sub = l.fresh_sub;
      owned = l.owned;
      waits = λ a h.
          l.waits a (rw (old, ← has-middle a (privs before) p.privdata (privs after), ← new) h);
      distinct =
          rw new (
            Distinct-middle (privs before) p.privdata (privs after)
              (subst Distinct old l.distinct));
      alive = l.alive;
      home = l.home;
      single = l.single;
    }

module _ (subs : ℕ → Option Sub) (asyncs : ℕ → Option (Option ℕ)) (next : ℕ)
    (attached : ℕ → Option ℕ) (pending : List Pending) where
  -- The callback has returned.
  pub returned-Links :
      (a : ℕ)
      → Links (a ∷ []) subs asyncs next attached pending
      → Links [] subs asyncs next attached pending
  returned-Links a l = record {
    fresh_async = l.fresh_async;
    fresh_sub = l.fresh_sub;
    owned = l.owned;
    waits = λ b h. l.waits b (ground (arith, h));
    distinct = l.distinct.1;
    alive = l.alive;
    home = l.home;
    single = l.single;
  }

  free-Waits :
      (a b : ℕ) (o : Option (Option ℕ))
      → (b == a) ≡ false
      → asyncs b ≡ o
      → Waits subs b o
      → Waits subs b (put a none asyncs b)
  free-Waits a b o other e w = subst (Waits subs b) (ground (arith, other, e)) w

  -- A node is freed that is in no list and that no callback is owed for.
  pub free-Links :
      (a : ℕ)
      → Links [] subs asyncs next attached pending
      → ((d : ℕ) (x : Sub) → subs d ≡ some x → has a x.async_list ≡ false)
      → has a (privs pending) ≡ false
      → Links [] subs (put a none asyncs) next attached pending
  free-Links a l unlisted unowed = record {
    fresh_async = λ b h. ground (arith, l.fresh_async b);
    fresh_sub = l.fresh_sub;
    owned = λ d x b h m.
        let other = differ x.async_list a b (unlisted d x h) m in ground (arith, l.owned d x b h m);
    waits = λ b h.
        let other = differ (privs pending) a b unowed h in
        free-Waits a b (asyncs b) other refl (l.waits b h);
    distinct = l.distinct;
    alive = l.alive;
    home = l.home;
    single = l.single;
  }

module _ {W : Type 0} (env : Env W) where
  -- The state after an operation that does not fail.
  abbrev pub Leaves : List ℕ → Option (Pub W) → Type 0
  Leaves run out = (s' : Pub W) × (out ≡ some s') × Linked run s'

  unlisted_node :
      (s : Pub W) (a d : ℕ) (x : Sub)
      → Linked [] s
      → s.subs d ≡ some x
      → s.asyncs a ≡ some (some d)
      → (e : ℕ) (z : Sub)
      → put d (some (record x { async_list = list_del a x.async_list })) s.subs e ≡ some z
      → has a z.async_list ≡ false
  unlisted_node s a d x l at owner e z h = elim (put_cases s.subs d e _ z h) [
    | inl (p, q) ↦
        subst (λ w. has a w.async_list ≡ false) q (ground (arith, has-list_del a a x.async_list))
    | inr (other, there) ↦ elim (Bool-cases (has a z.async_list)) [
      | inl y ↦ absurd (ground (arith, other, owner, l.owned e z a there y))
      | inr z' ↦ z'
    ]
  ]

  end_listed :
      (a : ℕ) (s : Pub W) (o : Option (Option ℕ))
      → Linked (a ∷ []) s
      → s.asyncs a ≡ o
      → Waits s.subs a o
      → Leaves [] (end_async env a o s)
  unfolding end_async
  end_listed a s _ l e cut_off = (
    _,
    refl,
    free-Links s.subs s.asyncs s.next s.attached s.pending a
        (returned-Links s.subs s.asyncs s.next s.attached s.pending a l)
        (λ d x h. elim (Bool-cases (has a x.async_list)) [
          | inl y ↦ absurd (ground (arith, e, l.owned d x a h y))
          | inr z ↦ z
        ])
        l.distinct.0,
  )
  end_listed a s _ l e (listed d x at m) =
      let back = returned-Links s.subs s.asyncs s.next s.attached s.pending a l in
      let y : Sub = record x { async_list = list_del a x.async_list } in
      let set =
        set-Links [] s.subs s.asyncs s.next s.attached s.pending back d x y at refl
          (λ b h. back.owned d x b at (ground (arith, has-list_del a b x.async_list)))
          (λ b h m'.
            ground (
              arith,
              has-list_del a b x.async_list,
              differ (privs s.pending) a b l.distinct.0 h,
            )) in
      rw at (
        _,
        refl,
        free-Links (put d (some y) s.subs) s.asyncs s.next s.attached s.pending a set
            (unlisted_node s a d x back at e) l.distinct.0,
      )

  pub end_async-Linked :
      (a : ℕ) (s : Pub W) → Linked (a ∷ []) s → Leaves [] (end_async env a (s.asyncs a) s)
  end_async-Linked a s l = end_listed a s (s.asyncs a) l refl (l.waits a (ground arith))
