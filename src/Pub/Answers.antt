-- ===== src/Pub/Answers.antt =====
-- The callbacks of src/hp_pub.c touch no memory that is gone.
use libhp.Common.{
  ℕ, ◌≡◌, refl, subst, inl, inr, Bool-cases, true, false, Option, none, some, List, [], ◌∷◌, arith,
  bytes_eq, Bytes,
}
use libhp.Common.Int.{ℤ, pos, int_eq}
use libhp.Pub.{Sub, Callback, sub_all_cb, sub_session_cb, Pending, Pub, Item, Env}
use libhp.Pub.Calls.{with_session, subscribe_id}
use libhp.Pub.Replies.{
  Reply, reply, nil, cons, text, third, items_of, topics_of, hkeys_id, unsubscribe_id, end_async,
  tell_item, deliver, deliver_all, on_history, session_topics, on_session, on_unsubscribed,
  on_subscribed, on_word, on_push, msg_cb, call_back, comp,
}
use libhp.Pub.Links.{Waits, cut_off, listed, Linked}
use libhp.Pub.Ends.{Leaves, end_async-Linked}
use libhp.Pub.Asks.{Finishes, IsGentle, sub_all-Fine, dosub-Fine, tell_failure-Fine, tell-Finishes}

-- What Redis sends on a subscribed context: an error, or three elements of which the first is a word.
abbrev pub IsPush : Option Reply → Type 0
IsPush none = Unit
IsPush (some (reply true t n rs)) = Unit
IsPush (some (reply false t n nil)) = ⊥
IsPush (some (reply false t n (cons r rs))) =
    (w : Bytes) × (text r ≡ some w) × (k : ℤ) × (third rs ≡ some k)

-- The session of a node that was not cut off
session_of :
    (subs : ℕ → Option Sub) (a d : ℕ) (o : Option (Option ℕ))
    → Waits subs a o
    → o ≡ some (some d)
    → (x : Sub) × (subs d ≡ some x)
session_of subs a d _ cut_off e = absurd (ground (arith, e))
session_of subs a d _ (listed d' x at m) e = (x, ground (arith, at, e))

module _ {W : Type 0} (env : Env W) (gentle : IsGentle env) where
  deliver-Finishes :
      (a d : ℕ) (items : List Item) (s : Pub W)
      → s.asyncs a ≡ some (some d)
      → Linked (a ∷ []) s
      → Finishes env (a ∷ []) s (deliver env a items s)
  unfolding deliver tell_item
  deliver-Finishes a d [] s e l = (s, refl, (l, λ b o h. h))
  deliver-Finishes a d (i ∷ items) s e l =
      let (x, at) = session_of s.subs a d (s.asyncs a) (l.waits a (ground arith)) e in
      let (s', told, (l', kept)) =
        tell-Finishes env (a ∷ []) gentle d x.cb i.topic i.id i.msg s l in
      let (s'', more, (l'', kept')) = deliver-Finishes a d items s' (kept a (some d) e) l' in
      (s'', rw (e, at, told) more, (l'', λ b o h. kept' b o (kept b o h)))

  deliver_all-Linked :
      (a d : ℕ) (items : Option (List Item)) (s : Pub W)
      → s.asyncs a ≡ some (some d)
      → Linked (a ∷ []) s
      → Leaves env [] (deliver_all env a items s)
  unfolding deliver_all
  deliver_all-Linked a d none s e l = end_async-Linked env a s l
  deliver_all-Linked a d (some items) s e l =
      let (s', done, (l', kept)) = deliver-Finishes a d (env.qsort (comp env) items) s e l in
      rw done (end_async-Linked env a s' l')

  session_topics-Finishes :
      (a d : ℕ) (x : Sub) (topics : Option (List Bytes)) (s : Pub W)
      → s.subs d ≡ some x
      → Linked (a ∷ []) s
      → Finishes env (a ∷ []) s (session_topics env a d x topics s)
  unfolding session_topics with_session
  session_topics-Finishes a d x none s at l =
      (_, refl, tell_failure-Fine env (a ∷ []) d x.cb hkeys_id s l)
  session_topics-Finishes a d x (some []) s at l = (s, refl, (l, λ b o h. h))
  session_topics-Finishes a d x (some (t ∷ ts)) s at l =
      rw (l.home d x at, at) (_, refl, dosub-Fine env (a ∷ []) x.subc d x (t ∷ ts) s l)

  on_history-Linked :
      (a : ℕ) (r : Option Reply) (o : Option (Option ℕ)) (s : Pub W)
      → s.asyncs a ≡ o
      → Waits s.subs a o
      → Linked (a ∷ []) s
      → Leaves env [] (on_history env a r o s)
  unfolding on_history
  on_history-Linked a r _ s e cut_off l =
      subst (λ o. Leaves env [] (end_async env a o s)) e (end_async-Linked env a s l)
  on_history-Linked a r _ s e (listed d x at m) l = deliver_all-Linked a d (items_of r) s e l

  on_session-Linked :
      (a : ℕ) (r : Option Reply) (o : Option (Option ℕ)) (s : Pub W)
      → s.asyncs a ≡ o
      → Waits s.subs a o
      → Linked (a ∷ []) s
      → Leaves env [] (on_session env a r o s)
  unfolding on_session
  on_session-Linked a r _ s e cut_off l =
      subst (λ o. Leaves env [] (end_async env a o s)) e (end_async-Linked env a s l)
  on_session-Linked a r _ s e (listed d x at m) l =
      let (s', done, (l', kept)) = session_topics-Finishes a d x (topics_of r) s at l in
      rw (at, done) (end_async-Linked env a s' l')

  -- A callback that is owed, called with any reply or with NULL
  pub call_back-Linked :
      (p : Pending) (r : Option Reply) (s : Pub W)
      → Linked (p.privdata ∷ []) s
      → Leaves env [] (call_back env p r s)
  unfolding call_back
  call_back-Linked p r s l = by_callback p.fn
    where
      by_callback : (fn : Callback) → Leaves env [] (call_back env (record p { fn = fn }) r s)
      by_callback sub_all_cb =
          on_history-Linked p.privdata r (s.asyncs p.privdata) s refl
            (l.waits p.privdata (ground arith)) l
      by_callback sub_session_cb =
          on_session-Linked p.privdata r (s.asyncs p.privdata) s refl
            (l.waits p.privdata (ground arith)) l

  on_subscribed-Finishes :
      (d : ℕ) (x : Sub) (n : ℤ) (s : Pub W)
      → s.subs d ≡ some x
      → Linked [] s
      → Finishes env [] s (on_subscribed env d x (some n) s)
  unfolding on_subscribed
  on_subscribed-Finishes d x n s at l = elim (Bool-cases (int_eq n (pos 1))) [
    | inl y ↦ rw y (_, refl, sub_all-Fine env [] d x s at l)
    | inr z ↦ rw z (s, refl, (l, λ b o h. h))
  ]

  on_unsubscribed-Finishes :
      (d : ℕ) (cb : Option ℕ) (n : ℤ) (s : Pub W)
      → Linked [] s
      → Finishes env [] s (on_unsubscribed env d cb (some n) s)
  unfolding on_unsubscribed
  on_unsubscribed-Finishes d none n s l = (s, refl, (l, λ b o h. h))
  on_unsubscribed-Finishes d (some f) n s l = elim (Bool-cases (int_eq n (pos 0))) [
    | inl y ↦ rw y (tell-Finishes env [] gentle d (some f) (some []) [] [] s l)
    | inr z ↦ rw z (s, refl, (l, λ b o h. h))
  ]

  on_word-Finishes :
      (d : ℕ) (x : Sub) (w : Bytes) (n : ℤ) (s : Pub W)
      → s.subs d ≡ some x
      → Linked [] s
      → Finishes env [] s (on_word env d x (some w) (some n) s)
  unfolding on_word
  on_word-Finishes d x w n s at l = elim (Bool-cases (bytes_eq w subscribe_id)) [
    | inl y ↦ rw y (on_subscribed-Finishes d x n s at l)
    | inr z ↦ elim (Bool-cases (bytes_eq w unsubscribe_id)) [
      | inl y ↦ rw (z, y) (on_unsubscribed-Finishes d x.cb n s l)
      | inr z' ↦ rw (z, z') (_, refl, sub_all-Fine env [] d x s at l)
    ]
  ]

  on_push-Finishes :
      (d : ℕ) (x : Sub) (r : Option Reply) (s : Pub W)
      → IsPush r
      → s.subs d ≡ some x
      → Linked [] s
      → Finishes env [] s (on_push env d x r s)
  unfolding on_push
  on_push-Finishes d x none s push at l = (s, refl, (l, λ b o h. h))
  on_push-Finishes d x (some (reply true t n rs)) s push at l = (s, refl, (l, λ b o h. h))
  on_push-Finishes d x (some (reply false t n nil)) s push at l = absurd push
  on_push-Finishes d x (some (reply false t n (cons r rs))) s (w, first, k, last) at l =
      rw (first, last) (on_word-Finishes d x w k s at l)

  pub msg_cb-Linked :
      (ctx d : ℕ) (r : Option Reply) (s : Pub W)
      → IsPush r
      → s.attached ctx ≡ some d
      → Linked [] s
      → Leaves env [] (msg_cb env ctx r s)
  unfolding msg_cb with_session
  msg_cb-Linked ctx d r s push held l =
      let (x, at) = l.alive ctx d held in
      let (s', e, (l', kept)) = on_push-Finishes d x r s push at l in rw (held, at) (s', e, l')
