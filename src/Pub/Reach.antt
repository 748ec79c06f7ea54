-- ===== src/Pub/Reach.antt =====
-- Every run of src/hp_pub.c: whatever order the calls, the replies and the messages come in.
use libhp.Common.{
  ℕ, ◌+◌, ◌≡◌, ◌⊎◌, refl, sym, ap, subst, ◌∙◌, inl, inr, Bool-cases, true, false, Option,
  Option-cases, none, some, List, [], ◌∷◌, ◌++◌, arith, ◌==◌, put, Bytes,
}
use libhp.Pub.{Sub, Pending, Pub, Env, Call, call_sub, call_unsub, call_ping, call_pub, release}
use libhp.Pub.Calls.{◌>>=◌, set_session, at_session, subc_arg, run_call}
use libhp.Pub.Replies.{Reply, msg_cb, call_back}
use libhp.Pub.Links.{has, Waits, cut_off, listed, Links, Linked}
use libhp.Pub.Keeps.{set-Links, put_cases}
use libhp.Pub.Ends.{Leaves, start-Links}
use libhp.Pub.Release.{free_context-Linked}
use libhp.Pub.Asks.{Finishes, IsGentle, run_call-Finishes}
use libhp.Pub.Answers.{IsPush, call_back-Linked, msg_cb-Linked}

module _ (subs : ℕ → Option Sub) (asyncs : ℕ → Option (Option ℕ)) (next : ℕ)
    (attached : ℕ → Option ℕ) (pending : List Pending)
    (l : Links [] subs asyncs next attached pending) (y : Sub) (empty : y.async_list ≡ [])
    (unused : attached y.subc ≡ none) where
  opened-Waits :
      (a : ℕ) (o : Option (Option ℕ)) → Waits subs a o → Waits (put next (some y) subs) a o
  opened-Waits a _ cut_off = cut_off
  opened-Waits a _ (listed d x at m) =
      let other : (d == next) ≡ false = elim (Bool-cases (d == next)) [
        | inl same ↦ absurd (ground (arith, l.fresh_sub d))
        | inr z ↦ z
      ] in
      listed d x (ground arith) m

  opened_owned :
      (e : ℕ) (z : Sub) (a : ℕ)
      → has a z.async_list ≡ true
      → ((e ≡ next) × (y ≡ z)) ⊎ (((e == next) ≡ false) × (subs e ≡ some z))
      → asyncs a ≡ some (some e)
  opened_owned e z a m (inl (p, q)) =
      absurd (ground (arith, subst (λ w. has a w.async_list ≡ true) (sym q) m, empty))
  opened_owned e z a m (inr (other, h)) = l.owned e z a h m

  held_old : (c e : ℕ) → attached c ≡ some e → (e == next) ≡ false
  held_old c e h = elim (Bool-cases (e == next)) [
    | inl same ↦ let (x, at) = l.alive c e h in absurd (ground (arith, l.fresh_sub e))
    | inr z ↦ z
  ]

  opened_alive :
      (c e : ℕ)
      → put y.subc (some next) attached c ≡ some e
      → (x : Sub) × (put next (some y) subs e ≡ some x)
  opened_alive c e h = elim (Bool-cases (e == next)) [
    | inl same ↦ (y, ground arith)
    | inr z ↦
        let old : attached c ≡ some e = ground arith in
        let (x, at) = l.alive c e old in (x, ground arith)
  ]

  opened_home :
      (e : ℕ) (z : Sub)
      → ((e ≡ next) × (y ≡ z)) ⊎ (((e == next) ≡ false) × (subs e ≡ some z))
      → put y.subc (some next) attached z.subc ≡ some e
  opened_home e z (inl (p, q)) =
      subst (λ w. put y.subc (some next) attached w.subc ≡ some e) q (ground arith)
  opened_home e z (inr (other, h)) = ground (arith, l.home e z h, unused)

  opened_at : (c : ℕ) → put y.subc (some next) attached c ≡ some next → c ≡ y.subc
  opened_at c h = elim (Bool-cases (c == y.subc)) [
    | inl same ↦ ground arith
    | inr z ↦ absurd (ground (arith, held_old c next))
  ]

  opened_single :
      (c c' e : ℕ)
      → put y.subc (some next) attached c ≡ some e
      → put y.subc (some next) attached c' ≡ some e
      → c ≡ c'
  opened_single c c' e h h' = elim (Bool-cases (e == next)) [
    | inl same ↦
        let p : e ≡ next = ground arith in
        opened_at c (h ∙ ap some p) ∙ sym (opened_at c' (h' ∙ ap some p))
    | inr z ↦ l.single c c' e (ground arith) (ground arith)
  ]

  -- A new session at a context that has none
  pub opened-Links :
      Links [] (put next (some y) subs) asyncs (next + 1) (put y.subc (some next) attached) pending
  opened-Links = record {
    fresh_async = λ a h. l.fresh_async a (omega arith);
    fresh_sub = λ e h. ground (arith, l.fresh_sub e);
    owned = λ e z a h m. opened_owned e z a m (put_cases subs next e y z h);
    waits = λ a h. opened-Waits a (asyncs a) (l.waits a h);
    distinct = l.distinct;
    alive = opened_alive;
    home = λ e z h. opened_home e z (put_cases subs next e y z h);
    single = opened_single;
  }

-- What can happen next: a session is set up, the client calls the library or frees a context, hiredis
-- calls one of the callbacks that it owes, or Redis sends something on a subscribed context.
pub data Event : Type 0 where
  sets_up : ℕ → ℕ → Bytes → Bytes → Bytes → Option ℕ → ℕ → Event
  calls : Call → Event
  answers : List Pending → Pending → List Pending → Option Reply → Event
  pushes : ℕ → Option Reply → Event

module _ {W : Type 0} (env : Env W) where
  abbrev pub handle : Event → Pub W → Option (Pub W)
  handle (sets_up c subc shasub shasup sid cb arg) s =
      subc_arg env (some c) (some subc) (some shasub) (some shasup) (some sid) cb arg s
      >>= (λ r. some r.1)
  handle (calls k) s = run_call env k s
  handle (answers before p after r) s = call_back env p r (record s { pending = before ++ after })
  handle (pushes ctx r) s = msg_cb env ctx r s

  abbrev pub CanHappen : Event → Pub W → Type 0
  CanHappen (sets_up c subc shasub shasup sid cb arg) s = Unit
  CanHappen (calls k) s = Unit
  CanHappen (answers before p after r) s = s.pending ≡ before ++ p ∷ after
  CanHappen (pushes ctx r) s = IsPush r × ((d : ℕ) × (s.attached ctx ≡ some d))

  pub data Reaches (start : Pub W) : Pub W → Type 0 where
    at_first : Reaches start start
    then_next :
        {s s' : Pub W} (e : Event)
        → Reaches start s
        → CanHappen e s
        → handle e s ≡ some s'
        → Reaches start s'

  at_session-Linked :
      (c subc : ℕ) (shasub shasup sid : Bytes) (cb : Option ℕ) (arg : ℕ) (s : Pub W)
      → Linked [] s
      → Leaves env [] (at_session env c subc shasub shasup sid cb arg (s.attached subc) s)
  unfolding at_session set_session
  at_session-Linked c subc shasub shasup sid cb arg s l = elim (Option-cases (s.attached subc)) [
    | inl unused ↦
        rw unused
          (_, refl, opened-Links s.subs s.asyncs s.next s.attached s.pending l _ refl unused)
    | inr (d, held) ↦
        let (x, at) = l.alive subc d held in
        rw (held, at)
          (
            _,
            refl,
            set-Links [] s.subs s.asyncs s.next s.attached s.pending l d x _ at
                (l.single subc x.subc d held (l.home d x at)) (λ a h. l.owned d x a at h)
                (λ a h m. m),
          )
  ]

module _ {W : Type 0} (env : Env W) (gentle : IsGentle env) where
  finish : (s : Pub W) (out : Option (Pub W)) → Finishes env [] s out → Leaves env [] out
  finish s out (s', e, (l, kept)) = (s', e, l)

  call-Linked : (k : Call) (s : Pub W) → Linked [] s → Leaves env [] (run_call env k s)
  unfolding run_call
  call-Linked (release ctx) s l = free_context-Linked env [] ctx s l
  call-Linked (call_sub ctx topics) s l =
      finish s _ (run_call-Finishes env [] (call_sub ctx topics) s tt l)
  call-Linked (call_unsub ctx) s l = finish s _ (run_call-Finishes env [] (call_unsub ctx) s tt l)
  call-Linked (call_ping ctx) s l = finish s _ (run_call-Finishes env [] (call_ping ctx) s tt l)
  call-Linked (call_pub ctx topic msg) s l =
      finish s _ (run_call-Finishes env [] (call_pub ctx topic msg) s tt l)

  handle-Linked :
      (e : Event) (s : Pub W) → CanHappen env e s → Linked [] s → Leaves env [] (handle env e s)
  unfolding subc_arg
  handle-Linked (sets_up c subc shasub shasup sid cb arg) s can l =
      let (s', e, l') = at_session-Linked env c subc shasub shasup sid cb arg s l in
      (s', rw e refl, l')
  handle-Linked (calls k) s can l = call-Linked k s l
  handle-Linked (answers before p after r) s can l =
      call_back-Linked env gentle p r (record s { pending = before ++ after })
        (start-Links s.subs s.asyncs s.next s.attached before p after
          (subst (Links [] s.subs s.asyncs s.next s.attached) can l))
  handle-Linked (pushes ctx r) s (push, (d, held)) l =
      msg_cb-Linked env gentle ctx d r s push held l

  some_eq : (s s' : Pub W) → some s ≡ some s' → s ≡ s'
  some_eq s s' h = cc

  Reaches-Linked : (start s : Pub W) → Reaches env start s → Linked [] start → Linked [] s
  Reaches-Linked start _ at_first l = l
  Reaches-Linked start _ (then_next e r can done) l =
      let (s', same, l') = handle-Linked e _ can (Reaches-Linked start _ r l) in
      subst (Linked []) (some_eq s' _ (sym same ∙ done)) l'

-- Nothing is set up.
abbrev pub empty_pub : {W : Type 0} → W → Pub W
empty_pub w = record {
  subs = λ d. none;
  asyncs = λ a. none;
  next = 0;
  attached = λ ctx. none;
  pending = [];
  sent = [];
  heard = [];
  client = w;
}

empty-Linked : {W : Type 0} (w : W) → Linked [] (empty_pub w)
empty-Linked w = record {
  fresh_async = λ a h. refl;
  fresh_sub = λ d h. refl;
  owned = λ d x a h m. absurd (ground (arith, h));
  waits = λ a h. absurd (ground (arith, h));
  distinct = tt;
  alive = λ ctx d h. absurd (ground (arith, h));
  home = λ d x h. absurd (ground (arith, h));
  single = λ c c' d h h'. absurd (ground (arith, h));
}

-- The client's callbacks free no context. In every run, in whatever order sessions are set up, contexts
-- are freed, replies come for the callbacks that are owed and messages come for subscribed contexts, what
-- happens next touches no memory that is gone: a reply that comes after its session was freed finds NULL,
-- and one that comes before finds its session and is in its list.
pub Reaches-handle :
    {W : Type 0} (env : Env W)
    → IsGentle env
    → (w : W) (s : Pub W) (e : Event) → Reaches env (empty_pub w) s
    → CanHappen env e s
    → Leaves env [] (handle env e s)
Reaches-handle env gentle w s e run can =
    handle-Linked env gentle e s can
      (Reaches-Linked env gentle (empty_pub w) s run (empty-Linked w))
