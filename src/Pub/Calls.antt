-- ===== src/Pub/Calls.antt =====
-- The calls of src/hp_pub.c that a client makes. `none` is an access to memory that is not allocated,
-- or through NULL.
use libhp.Common.{
  ℕ, ◌+◌, Option, none, some, List, [], ◌∷◌, ◌++◌, if◌then◌else◌, length, put, ◌==◌, take, Bytes,
}
use libhp.Common.Int.{ℤ, pos, negsuc, int_eq}
use libhp.Pub.{
  Sub, evalsha_sub, evalsha_sup, subscribe, unsubscribe, hkeys, ping, zadd, publish, sub_all_cb,
  sub_session_cb, message, failure, Pub, Call, call_sub, call_unsub, call_ping, call_pub, release,
  Env, command, command_with, new_async,
}

infixl 5 ◌>>=◌
abbrev pub ◌>>=◌ {ℓ κ} : {A : Type ℓ} {B : Type κ} → Option A → (A → Option B) → Option B
none >>= f = none
some a >>= f = f a

-- A freshly allocated `hp_sub_t`, cleared
abbrev pub empty_sub : Sub
empty_sub = record {
  c = 0;
  subc = 0;
  shasub = [];
  shasup = [];
  sid = [];
  cb = none;
  arg = 0;
  async_list = [];
}

-- list_del(&node->node); node->s = 0;
unfoldable pub forget : List ℕ → (ℕ → Option (Option ℕ)) → Option (ℕ → Option (Option ℕ))
forget [] asyncs = some asyncs
forget (a ∷ rest) asyncs =
    let more = forget rest (put a (some none) asyncs) in
    elim (asyncs a) [ none ↦ none | some o ↦ more ]

-- strncpy(dst, src, n - 1) into a field of `n` bytes that is cleared
abbrev pub field : ℕ → Bytes → Bytes
field n src = take n src

-- Of a text with a length that is 0 or less, all is sent.
unfoldable pub sent_text : Bytes → ℤ → Bytes
sent_text msg (pos n) = if n == 0 then msg else take n msg
sent_text msg (negsuc n) = msg

abbrev pub subscribe_id : Bytes
subscribe_id = b's' ∷ b'u' ∷ b'b' ∷ b's' ∷ b'c' ∷ b'r' ∷ b'i' ∷ b'b' ∷ b'e' ∷ []

module _ {W : Type 0} (env : Env W) where
  -- `ps->cb(ps, 0, mid, err)` for the session `x` at `d`, if it has a callback
  unfoldable pub tell_failure : ℕ → Option ℕ → Bytes → Pub W → Pub W
  tell_failure d none mid s = s
  tell_failure d (some f) mid s = record s {
    heard = s.heard ++ failure mid ∷ [];
    client = env.on_failure f d mid s.client;
  }

  -- hp_sub_all(ps), for the session `x` at `d`
  unfoldable pub sub_all : ℕ → Sub → Pub W → ℤ × Pub W
  sub_all d x s =
      command_with env sub_all_cb s.next x.c (evalsha_sub x.shasub x.sid) (new_async d x s)

  unfoldable pub dosub : ℕ → ℕ → Sub → List Bytes → Pub W → ℤ × Pub W
  unfolding tell_failure
  dosub ctx d x topics s =
      let (rc, s') = command env ctx (subscribe topics) s in
      if int_eq rc (pos 0) then (rc, s') else (rc, tell_failure d x.cb subscribe_id s')

  unfoldable pub sub_sup : ℕ → Bytes → Bytes → List Bytes → Pub W → ℤ × Pub W
  sub_sup ctx shasup sid topics s =
      command env ctx (evalsha_sup shasup (length topics) topics sid) s

  -- No topics, or a count of 0 or less, stand for the topics of the session.
  unfoldable pub sub_topics : ℕ → ℕ → Sub → List Bytes → Pub W → ℤ × Pub W
  unfolding dosub sub_sup
  sub_topics subc d x [] s =
      command_with env sub_session_cb s.next x.c (hkeys x.sid) (new_async d x s)
  sub_topics subc d x (t ∷ ts) s = dosub subc d x (t ∷ ts) (sub_sup x.c x.shasup x.sid (t ∷ ts) s).1

  -- The session behind a context: `none` where subc->data points to freed memory.
  unfoldable pub with_session :
      {A : Type 0} → (ℕ → Sub → Option A) → Option A → Option ℕ → Pub W → Option A
  with_session k otherwise none s = otherwise
  with_session k otherwise (some d) s = s.subs d >>= k d

  unfoldable pub sub : Option ℕ → List Bytes → Pub W → Option (ℤ × Pub W)
  unfolding with_session sub_topics
  sub none topics s = some (negsuc 0, s)
  sub (some subc) topics s =
      with_session (λ d x. some (sub_topics subc d x topics s)) (some (negsuc 0, s))
        (s.attached subc) s

  unfoldable pub unsub : Option ℕ → Pub W → ℤ × Pub W
  unsub none s = (negsuc 0, s)
  unsub (some subc) s = command env subc unsubscribe s

  unfoldable pub sub_ping : Option ℕ → Pub W → ℤ × Pub W
  sub_ping none s = (negsuc 0, s)
  sub_ping (some subc) s = command env subc ping s

  -- hp_pub: the message goes into the history, and its id to the subscribers.
  unfoldable pub pub_message : Option ℕ → Option Bytes → Option Bytes → ℤ → Pub W → ℤ × Pub W
  unfolding sent_text
  pub_message none topic msg len s = (negsuc 0, s)
  pub_message (some c) none msg len s = (negsuc 0, s)
  pub_message (some c) (some topic) none len s = (negsuc 0, s)
  pub_message (some c) (some topic) (some msg) len s =
      let id = env.now (length s.sent) in
      command env c (publish topic id) (command env c (zadd topic id (sent_text msg len)) s).1

  -- disconnectCallback, which hiredis calls before it frees a context
  unfoldable pub disconnected : Option ℕ → Pub W → Option (Pub W)
  unfolding tell_failure
  disconnected none s = some s
  disconnected (some d) s = s.subs d >>= (λ x. some (tell_failure d x.cb [] s))

  -- hp_subc_free
  unfoldable pub subc_free : ℕ → Sub → Pub W → Option (Pub W)
  unfolding forget
  subc_free d x s =
      forget x.async_list s.asyncs
      >>= (λ asyncs. some (record s { asyncs = asyncs; subs = put d none s.subs }))

  -- hp_subc_arg: a session at the context `subc`, which keeps the list of one that is there.
  unfoldable pub set_session :
      ℕ → ℕ → ℕ → Sub → Bytes → Bytes → Bytes → Option ℕ → ℕ → Pub W → Pub W
  set_session d c subc x shasub shasup sid cb arg s = record s {
    subs =
        put d
          (some (record x {
            c = c;
            subc = subc;
            shasub = field 63 shasub;
            shasup = field 63 shasup;
            sid = field 127 sid;
            cb = cb;
            arg = arg;
          }))
          s.subs;
  }

  unfoldable pub at_session :
      ℕ → ℕ → Bytes → Bytes → Bytes → Option ℕ → ℕ → Option ℕ → Pub W → Option (Pub W)
  unfolding set_session
  at_session c subc shasub shasup sid cb arg none s = some (
      set_session s.next c subc empty_sub shasub shasup sid cb arg
        (record s { next = s.next + 1; attached = put subc (some s.next) s.attached }))
  at_session c subc shasub shasup sid cb arg (some d) s =
      s.subs d >>= (λ x. some (set_session d c subc x shasub shasup sid cb arg s))

  -- The result is `subc`, or `none` for NULL.
  unfoldable pub subc_arg :
      Option ℕ
      → Option ℕ
      → Option Bytes
      → Option Bytes
      → Option Bytes
      → Option ℕ
      → ℕ
      → Pub W
      → Option (Option ℕ × Pub W)
  unfolding at_session
  subc_arg (some c) (some subc) (some shasub) (some shasup) (some sid) cb arg s =
      at_session c subc shasub shasup sid cb arg (s.attached subc) s
      >>= (λ s'. some (some subc, s'))
  subc_arg c subc shasub shasup sid cb arg s = some (none, s)

  -- redisAsyncFree of a connected context, as hiredis documents it: disconnectCallback is called, then
  -- hp_subc_free for subc->data, and the context is gone.
  unfoldable pub free_context : ℕ → Pub W → Option (Pub W)
  unfolding disconnected subc_free with_session
  free_context ctx s =
      disconnected (s.attached ctx) s
      >>= (λ s'. with_session (λ d x. subc_free d x s') (some s') (s'.attached ctx) s')
      >>= (λ s'. some (record s' { attached = put ctx none s'.attached }))

  unfoldable pub run_call : Call → Pub W → Option (Pub W)
  unfolding sub unsub sub_ping pub_message free_context
  run_call (call_sub ctx topics) s = sub (some ctx) topics s >>= (λ r. some r.1)
  run_call (call_unsub ctx) s = some (unsub (some ctx) s).1
  run_call (call_ping ctx) s = some (sub_ping (some ctx) s).1
  run_call (call_pub ctx topic msg) s =
      some (pub_message (some ctx) (some topic) (some msg) (pos 0) s).1
  run_call (release ctx) s = free_context ctx s

  unfoldable pub run_calls : List Call → Pub W → Option (Pub W)
  unfolding run_call
  run_calls [] s = some s
  run_calls (k ∷ ks) s = run_call k s >>= run_calls ks

  -- `s->cb(s, topic, id, msg)` for the session at `d`; a NULL topic is a failure.
  unfoldable pub tell : ℕ → Option ℕ → Option Bytes → Bytes → Bytes → Pub W → Option (Pub W)
  unfolding tell_failure run_calls
  tell d none topic id msg s = some s
  tell d (some f) none id msg s = some (tell_failure d (some f) id s)
  tell d (some f) (some topic) id msg s =
      let (w, calls) = env.on_message f d topic id msg s.client in
      run_calls calls (record s { heard = s.heard ++ message topic id msg ∷ []; client = w })
