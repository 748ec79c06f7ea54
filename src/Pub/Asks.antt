-- ===== src/Pub/Asks.antt =====
-- What the calls of src/hp_pub.c ask Redis for keeps every session and its list in order.
use libhp.Common.{
  ℕ, ◌+◌, ◌≡◌, refl, subst, inl, inr, Bool-cases, Option, Option-cases, none, some, List, [], ◌∷◌,
  ◌++◌, arith, put, length, Bytes,
}
use libhp.Common.Int.{pos, int_eq}
use libhp.Pub.{
  Sub, Callback, sub_all_cb, sub_session_cb, Command, message, subscribe, evalsha_sub, hkeys, Pub,
  Env, Call, call_sub, call_unsub, call_ping, call_pub, release, command, command_with, new_async,
}
use libhp.Pub.Calls.{
  ◌>>=◌, sub_all, dosub, sub_sup, sub_topics, tell_failure, with_session, sub, unsub, sub_ping,
  pub_message, run_call, run_calls, tell, subscribe_id,
}
use libhp.Pub.Links.{Waits, listed, Linked, has-append}
use libhp.Pub.Keeps.{next_new, alloc-Links, set-Links, owe-Links}

-- No node is freed or cut off.
abbrev pub Kept : {W : Type 0} → Pub W → Pub W → Type 0
Kept s s' = (a : ℕ) (o : Option ℕ) → s.asyncs a ≡ some o → s'.asyncs a ≡ some o

-- The state after an operation that frees nothing.
abbrev pub Fine : {W : Type 0} → List ℕ → Pub W → Pub W → Type 0
Fine run s s' = Linked run s' × Kept s s'

module _ {W : Type 0} (env : Env W) where
  new_async-Linked :
      (run : List ℕ) (d : ℕ) (x : Sub) (s : Pub W)
      → s.subs d ≡ some x
      → Linked run s
      → Linked run (new_async d x s)
  new_async-Linked run d x s at l =
      let more = alloc-Links run s.subs s.asyncs s.next s.attached s.pending l d in
      set-Links run s.subs (put s.next (some (some d)) s.asyncs) (s.next + 1) s.attached s.pending
        more d x (record x { async_list = x.async_list ++ s.next ∷ [] }) at refl
        (λ a h. ground (arith, more.owned d x a at, has-append a x.async_list (s.next ∷ [])))
        (λ a h m. ground (arith, has-append a x.async_list (s.next ∷ [])))

  ask-Fine :
      (run : List ℕ) (fn : Callback) (ctx : ℕ) (cmd : Command) (d : ℕ) (x : Sub) (s : Pub W)
      → s.subs d ≡ some x
      → Linked run s
      → Fine run s (command_with env fn s.next ctx cmd (new_async d x s)).1
  ask-Fine run fn ctx cmd d x s at l =
      let l' = new_async-Linked run d x s at l in
      let y : Sub = record x { async_list = x.async_list ++ s.next ∷ [] } in
      let subs' = put d (some y) s.subs in
      let asyncs' = put s.next (some (some d)) s.asyncs in
      let waits : Waits subs' s.next (asyncs' s.next) = subst (Waits subs' s.next) (ground arith) (
        listed d y (ground arith) (ground (arith, has-append s.next x.async_list (s.next ∷ [])))) in
      let owed =
        owe-Links run subs' asyncs' (s.next + 1) s.attached s.pending l'
          (record { fn = fn; privdata = s.next }) waits
          (next_new run s.subs s.asyncs s.next s.attached s.pending l) in
      let both : Linked run (command_with env fn s.next ctx cmd (new_async d x s)).1 =
        elim (Bool-cases (int_eq (env.answer (length s.sent)) (pos 0))) [
          | inl y ↦ rw y owed
          | inr z ↦ rw z l'
        ] in
      (both, λ a o h. ground (arith, l.fresh_async a))

  pub tell_failure-Fine :
      (run : List ℕ) (d : ℕ) (cb : Option ℕ) (mid : Bytes) (s : Pub W)
      → Linked run s
      → Fine run s (tell_failure env d cb mid s)
  unfolding tell_failure
  tell_failure-Fine run d none mid s l = (l, λ a o h. h)
  tell_failure-Fine run d (some f) mid s l = (l, λ a o h. h)

  pub sub_all-Fine :
      (run : List ℕ) (d : ℕ) (x : Sub) (s : Pub W)
      → s.subs d ≡ some x
      → Linked run s
      → Fine run s (sub_all env d x s).1
  unfolding sub_all
  sub_all-Fine run d x s at l = ask-Fine run sub_all_cb x.c (evalsha_sub x.shasub x.sid) d x s at l

  pub dosub-Fine :
      (run : List ℕ) (ctx d : ℕ) (x : Sub) (topics : List Bytes) (s : Pub W)
      → Linked run s
      → Fine run s (dosub env ctx d x topics s).1
  unfolding dosub
  dosub-Fine run ctx d x topics s l =
      elim (Bool-cases (int_eq (env.answer (length s.sent)) (pos 0))) [
        | inl y ↦ rw y (l, λ a o h. h)
        | inr z ↦
            rw z
              (tell_failure-Fine run d x.cb subscribe_id (command env ctx (subscribe topics) s).1 l)
      ]

  pub sub_topics-Fine :
      (run : List ℕ) (ctx d : ℕ) (x : Sub) (topics : List Bytes) (s : Pub W)
      → s.subs d ≡ some x
      → Linked run s
      → Fine run s (sub_topics env ctx d x topics s).1
  unfolding sub_topics sub_sup
  sub_topics-Fine run ctx d x [] s at l = ask-Fine run sub_session_cb x.c (hkeys x.sid) d x s at l
  sub_topics-Fine run ctx d x (t ∷ ts) s at l = dosub-Fine run ctx d x (t ∷ ts) _ l

  abbrev pub Finishes : List ℕ → Pub W → Option (Pub W) → Type 0
  Finishes run s out = (s' : Pub W) × (out ≡ some s') × Fine run s s'

  pub bind-Finishes :
      (run : List ℕ) (s : Pub W) (out : Option (Pub W)) (f : Pub W → Option (Pub W))
      → Finishes run s out
      → ((s' : Pub W) → Linked run s' → Finishes run s' (f s'))
      → Finishes run s (out >>= f)
  bind-Finishes run s out f (s', e, (l, kept)) next =
      let (s'', e', (l', kept')) = next s' l in
      (s'', rw (e) e', (l', λ a o h. kept' a o (kept a o h)))

  sub-Finishes :
      (run : List ℕ) (ctx : ℕ) (topics : List Bytes) (s : Pub W)
      → Linked run s
      → Finishes run s (sub env (some ctx) topics s >>= (λ r. some r.1))
  unfolding sub with_session
  sub-Finishes run ctx topics s l = elim (Option-cases (s.attached ctx)) [
    | inl gone ↦ rw gone (s, refl, (l, λ a o h. h))
    | inr (d, held) ↦
        let (x, at) = l.alive ctx d held in
        rw (held, at) (_, refl, sub_topics-Fine run ctx d x topics s at l)
  ]

  abbrev pub IsCalmCall : Call → Type 0
  IsCalmCall (call_sub ctx topics) = Unit
  IsCalmCall (call_unsub ctx) = Unit
  IsCalmCall (call_ping ctx) = Unit
  IsCalmCall (call_pub ctx topic msg) = Unit
  IsCalmCall (release ctx) = ⊥

  pub run_call-Finishes :
      (run : List ℕ) (k : Call) (s : Pub W)
      → IsCalmCall k
      → Linked run s
      → Finishes run s (run_call env k s)
  unfolding run_call unsub sub_ping pub_message
  run_call-Finishes run (call_sub ctx topics) s calm l = sub-Finishes run ctx topics s l
  run_call-Finishes run (call_unsub ctx) s calm l = (_, refl, (l, λ a o h. h))
  run_call-Finishes run (call_ping ctx) s calm l = (_, refl, (l, λ a o h. h))
  run_call-Finishes run (call_pub ctx topic msg) s calm l = (_, refl, (l, λ a o h. h))
  run_call-Finishes run (release ctx) s calm l = absurd calm

  -- A callback frees no context.
  abbrev pub IsCalm : List Call → Type 0
  IsCalm [] = Unit
  IsCalm (k ∷ ks) = IsCalmCall k × IsCalm ks

  run_calls-Finishes :
      (run : List ℕ) (ks : List Call) (s : Pub W)
      → IsCalm ks
      → Linked run s
      → Finishes run s (run_calls env ks s)
  unfolding run_calls
  run_calls-Finishes run [] s calm l = (s, refl, (l, λ a o h. h))
  run_calls-Finishes run (k ∷ ks) s (calm, more) l =
      bind-Finishes run s (run_call env k s) (run_calls env ks) (run_call-Finishes run k s calm l)
        (λ s' l'. run_calls-Finishes run ks s' more l')

  -- No callback of the client frees a context.
  pub record IsGentle : Type 0 where
    pub calm :
        (f d : ℕ) (topic id msg : Bytes) (w : W) → IsCalm (env.on_message f d topic id msg w).1

  pub tell-Finishes :
      (run : List ℕ) (gentle : IsGentle) (d : ℕ) (cb : Option ℕ) (topic : Option Bytes)
      (id msg : Bytes) (s : Pub W)
      → Linked run s
      → Finishes run s (tell env d cb topic id msg s)
  unfolding tell
  tell-Finishes run gentle d none topic id msg s l = (s, refl, (l, λ a o h. h))
  tell-Finishes run gentle d (some f) none id msg s l =
      (_, refl, tell_failure-Fine run d (some f) id s l)
  tell-Finishes run gentle d (some f) (some topic) id msg s l =
      let (s', e, (l', kept)) =
        run_calls-Finishes run ((env.on_message f d topic id msg s.client).1)
          (record s {
            heard = s.heard ++ message topic id msg ∷ [];
            client = (env.on_message f d topic id msg s.client).0;
          })
          (gentle.calm f d topic id msg s.client) l in
      (s', e, (l', kept))
