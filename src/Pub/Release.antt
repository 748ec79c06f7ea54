-- ===== src/Pub/Release.antt =====
-- The context of a session of src/hp_pub.c is freed: no node points to the session any more.
use libhp.Common.{
  ℕ, ◌≡◌, refl, sym, ap, subst, ◌∙◌, inl, inr, Bool-cases, true, false, Option, Option-cases, none,
  some, List, [], ◌∷◌, arith, ◌==◌, if◌then◌else◌, put, Bytes,
}
use libhp.Pub.{Sub, Pending, Pub, Env}
use libhp.Pub.Calls.{
  ◌>>=◌, forget, subc_free, disconnected, tell_failure, with_session, free_context,
}
use libhp.Pub.Links.{has, Waits, cut_off, listed, Links, Linked}
use libhp.Pub.Keeps.{same_sub}
use libhp.Pub.Ends.{Leaves}

-- The nodes that are in the list are told that their session is gone.
abbrev pub told : List ℕ → (ℕ → Option (Option ℕ)) → ℕ → Option (Option ℕ)
told xs asyncs a = if has a xs then some none else asyncs a

abbrev HasCell : (ℕ → Option (Option ℕ)) → ℕ → Type 0
HasCell asyncs a = (o : Option ℕ) × (asyncs a ≡ some o)

put-HasCell :
    (x a : ℕ) (asyncs : ℕ → Option (Option ℕ))
    → HasCell asyncs a
    → HasCell (put x (some none) asyncs) a
put-HasCell x a asyncs (o, e) = elim (Bool-cases (a == x)) [
  | inl y ↦ (none, ground arith)
  | inr z ↦ (o, ground arith)
]

forget-told :
    (xs : List ℕ) (asyncs : ℕ → Option (Option ℕ))
    → ((a : ℕ) → has a xs ≡ true → HasCell asyncs a)
    → (asyncs' : ℕ → Option (Option ℕ)) × (forget xs asyncs ≡ some asyncs')
      × ((a : ℕ) → asyncs' a ≡ told xs asyncs a)
unfolding forget
forget-told [] asyncs h = (asyncs, refl, λ a. refl)
forget-told (x ∷ xs) asyncs h =
    let (asyncs', e, same) =
      forget-told xs (put x (some none) asyncs)
        (λ a m. put-HasCell x a asyncs (h a (ground arith))) in
    let (o, there) = h x (ground arith) in
    (asyncs', rw (there, forget) e, λ a. ground (arith, same a))

module _ (run : List ℕ) (subs : ℕ → Option Sub) (asyncs asyncs' : ℕ → Option (Option ℕ)) (next : ℕ)
    (attached : ℕ → Option ℕ) (pending : List Pending)
    (l : Links run subs asyncs next attached pending) (ctx d : ℕ) (x : Sub) (at : subs d ≡ some x)
    (held : attached ctx ≡ some d) (same : (a : ℕ) → asyncs' a ≡ told x.async_list asyncs a) where
  not_told : (a e : ℕ) → asyncs a ≡ some (some e) → (e == d) ≡ false → has a x.async_list ≡ false
  not_told a e h other = elim (Bool-cases (has a x.async_list)) [
    | inl y ↦ absurd (ground (arith, l.owned d x a at y))
    | inr z ↦ z
  ]

  gone_alive :
      (c e : ℕ) → put ctx none attached c ≡ some e → (z : Sub) × (put d none subs e ≡ some z)
  gone_alive c e h =
      let (z, there) = l.alive c e (ground arith) in
      let other : (e == d) ≡ false = elim (Bool-cases (e == d)) [
        | inl y ↦ absurd (ground (arith, l.single c ctx d))
        | inr z' ↦ z'
      ] in
      (z, ground arith)

  gone_home : (e : ℕ) (z : Sub) → put d none subs e ≡ some z → put ctx none attached z.subc ≡ some e
  gone_home e z h =
      let there : subs e ≡ some z = ground arith in
      let other : (e == d) ≡ false = ground arith in ground (arith, l.home e z there)

  gone_owned :
      (e : ℕ) (z : Sub) (a : ℕ)
      → put d none subs e ≡ some z
      → has a z.async_list ≡ true
      → asyncs' a ≡ some (some e)
  gone_owned e z a h m =
      let other : (e == d) ≡ false = ground arith in
      let there : subs e ≡ some z = ground arith in
      let own = l.owned e z a there m in ground (arith, same a, not_told a e own other)

  gone-Waits :
      (a : ℕ) (o : Option (Option ℕ))
      → asyncs a ≡ o
      → Waits subs a o
      → Waits (put d none subs) a (told x.async_list asyncs a)
  gone-Waits a _ e cut_off = subst (Waits (put d none subs) a) (ground arith) cut_off
  gone-Waits a _ e (listed d' x' at' m) = elim (Bool-cases (d' == d)) [
    | inl y ↦
        let q = same_sub subs d d' x x' (ground arith) at at' in
        let m' : has a x.async_list ≡ true = subst (λ w. has a w.async_list ≡ true) (sym q) m in
        subst (Waits (put d none subs) a) (ground (arith, m')) cut_off
    | inr z ↦
        subst (Waits (put d none subs) a) (ground (arith, e, not_told a d' e z))
          (listed d' x' (ground arith) m)
  ]

  pub gone-Links : Links run (put d none subs) asyncs' next (put ctx none attached) pending
  gone-Links = record {
    fresh_async = λ a h. ground (arith, same a, l.fresh_async a, l.owned d x a at);
    fresh_sub = λ e h. ground (arith, l.fresh_sub e);
    owned = gone_owned;
    waits = λ a h.
        subst (Waits (put d none subs) a) (sym (same a))
          (gone-Waits a (asyncs a) refl (l.waits a h));
    distinct = l.distinct;
    alive = gone_alive;
    home = gone_home;
    single = λ c c' e h h'. l.single c c' e (ground arith) (ground arith);
  }

module _ {W : Type 0} (env : Env W) where
  pub tell_failure-Linked :
      (run : List ℕ) (d : ℕ) (cb : Option ℕ) (mid : Bytes) (s : Pub W)
      → Linked run s
      → Linked run (tell_failure env d cb mid s)
  unfolding tell_failure
  tell_failure-Linked run d none mid s l = l
  tell_failure-Linked run d (some f) mid s l = l

  pub tell_failure-subs :
      (d : ℕ) (cb : Option ℕ) (mid : Bytes) (s : Pub W)
      → (tell_failure env d cb mid s).subs ≡ s.subs
  unfolding tell_failure
  tell_failure-subs d none mid s = refl
  tell_failure-subs d (some f) mid s = refl

  tell_failure-attached :
      (d : ℕ) (cb : Option ℕ) (mid : Bytes) (s : Pub W)
      → (tell_failure env d cb mid s).attached ≡ s.attached
  unfolding tell_failure
  tell_failure-attached d none mid s = refl
  tell_failure-attached d (some f) mid s = refl

  -- What is left once disconnectCallback has returned.
  clean_up : ℕ → Pub W → Option (Pub W)
  unfolding with_session subc_free
  clean_up ctx s =
      with_session env (λ d x. subc_free env d x s) (some s) (s.attached ctx) s
      >>= (λ s'. some (record s' { attached = put ctx none s'.attached }))

  clean_up-Linked :
      (run : List ℕ) (ctx d : ℕ) (x : Sub) (s : Pub W)
      → Linked run s
      → s.subs d ≡ some x
      → s.attached ctx ≡ some d
      → Leaves env run (clean_up ctx s)
  unfolding clean_up with_session subc_free
  clean_up-Linked run ctx d x s l at held =
      let (asyncs', e, same) =
        forget-told x.async_list s.asyncs (λ a m. (some d, l.owned d x a at m)) in
      rw (held, at, e)
        (
          _,
          refl,
          gone-Links run s.subs s.asyncs asyncs' s.next s.attached s.pending l ctx d x at held same,
        )

  clean_up-none :
      (run : List ℕ) (ctx : ℕ) (s : Pub W)
      → Linked run s
      → s.attached ctx ≡ none
      → Leaves env run (clean_up ctx s)
  unfolding clean_up with_session
  clean_up-none run ctx s l gone = rw gone (
    _,
    refl,
    record {
      fresh_async = l.fresh_async;
      fresh_sub = l.fresh_sub;
      owned = l.owned;
      waits = l.waits;
      distinct = l.distinct;
      alive = λ c e h. l.alive c e (ground arith);
      home = λ e z h. ground (arith, gone, l.home e z h);
      single = λ c c' e h h'. l.single c c' e (ground arith) (ground arith);
    },
  )

  pub free_context-Linked :
      (run : List ℕ) (ctx : ℕ) (s : Pub W) → Linked run s → Leaves env run (free_context env ctx s)
  unfolding free_context disconnected with_session clean_up
  free_context-Linked run ctx s l = elim (Option-cases (s.attached ctx)) [
    | inl none_there ↦
        let told_none : disconnected env (s.attached ctx) s ≡ some s = rw none_there refl in
        rw told_none (clean_up-none run ctx s l none_there)
    | inr (d, held) ↦
        let (x, at) = l.alive ctx d held in
        let s' = tell_failure env d x.cb [] s in
        let next =
          clean_up-Linked run ctx d x s' (tell_failure-Linked run d x.cb [] s l)
            (ap (λ f. f d) (tell_failure-subs d x.cb [] s) ∙ at)
            (ap (λ f. f ctx) (tell_failure-attached d x.cb [] s) ∙ held) in
        let told_first : disconnected env (s.attached ctx) s ≡ some s' = rw (held, at) refl in
        rw (told_first) next
  ]
