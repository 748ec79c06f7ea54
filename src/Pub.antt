-- ===== src/Pub.antt =====
-- src/hp_pub.c: messages that are published over Redis, and sessions that subscribe to topics. What
-- hiredis returns, the clock, qsort and the client's callbacks are parameters. A redisAsyncContext is a
-- number; the one for commands is not the one that subscribes, and outlives the sessions that use it.
pub mod Calls
pub mod Replies
pub mod Links
pub mod Keeps
pub mod Ends
pub mod Release
pub mod Asks
pub mod Answers
pub mod Reach
pub mod Missed
pub mod History
mod Tests
use libhp.Common.{
  ℕ, ◌+◌, Bool, true, false, Option, none, some, List, [], ◌∷◌, ◌++◌, if◌then◌else◌, length, put,
  Bytes,
}
use libhp.Common.Int.{ℤ, pos, int_eq}

-- `struct hp_sub_t` without its list's links: `async_list` is the list of the nodes' addresses. The
-- callback is `none` if it is NULL.
pub record Sub : Type 0 where
  pub c : ℕ
  pub subc : ℕ
  pub shasub : Bytes
  pub shasup : Bytes
  pub sid : Bytes
  pub cb : Option ℕ
  pub arg : ℕ
  pub async_list : List ℕ

-- What Redis is asked for.
pub data Command : Type 0 where
  evalsha_sub : Bytes → Bytes → Command
  evalsha_sup : Bytes → ℕ → List Bytes → Bytes → Command
  subscribe : List Bytes → Command
  unsubscribe : Command
  hkeys : Bytes → Command
  ping : Command
  zadd : Bytes → Bytes → Bytes → Command
  publish : Bytes → Bytes → Command

-- The callbacks of this file whose `privdata` is a `hp_sub_async_t`.
pub data Callback : Type 0 where
  sub_all_cb : Callback
  sub_session_cb : Callback

pub record Pending : Type 0 where
  pub fn : Callback
  pub privdata : ℕ

-- What the callback of a session is told: a message, or a failure, for which the topic is NULL.
pub data Heard : Type 0 where
  message : Bytes → Bytes → Bytes → Heard
  failure : Bytes → Heard

-- The memory and Redis. `subs` and `asyncs` are the heap, `none` where nothing is allocated; of a
-- `hp_sub_async_t` it holds `s`, `none` for NULL. `attached` is `subc->data`. `pending` are the calls
-- of callbacks that hiredis owes; `sent` are the commands so far, with their contexts.
pub record Pub (W : Type 0) : Type 0 where
  pub subs : ℕ → Option Sub
  pub asyncs : ℕ → Option (Option ℕ)
  pub next : ℕ
  pub attached : ℕ → Option ℕ
  pub pending : List Pending
  pub sent : List (ℕ × Command)
  pub heard : List Heard
  pub client : W

-- A message of the history: its id, its text and its topic.
pub record Item : Type 0 where
  pub id : Bytes
  pub msg : Bytes
  pub topic : Option Bytes

-- A call of the library that a callback makes; `release` is redisAsyncFree.
pub data Call : Type 0 where
  call_sub : ℕ → List Bytes → Call
  call_unsub : ℕ → Call
  call_ping : ℕ → Call
  call_pub : ℕ → Bytes → Bytes → Call
  release : ℕ → Call

-- What the n-th redisAsyncCommand returns, the text of the time then, sdscmp, qsort, and the client's
-- callback: on a failure it calls nothing of the library.
pub record Env (W : Type 0) : Type 0 where
  pub answer : ℕ → ℤ
  pub now : ℕ → Bytes
  pub sdscmp : Bytes → Bytes → ℤ
  pub qsort : (Item → Item → ℤ) → List Item → List Item
  pub on_message : ℕ → ℕ → Bytes → Bytes → Bytes → W → W × List Call
  pub on_failure : ℕ → ℕ → Bytes → W → W

-- free(as)
abbrev pub free_async : {W : Type 0} → ℕ → Pub W → Pub W
free_async a s = record s { asyncs = put a none s.asyncs }

-- A new `hp_sub_async_t` of the session `x` at `d`, at the end of its list.
abbrev pub new_async : {W : Type 0} → ℕ → Sub → Pub W → Pub W
new_async d x s = record s {
  asyncs = put s.next (some (some d)) s.asyncs;
  subs = put d (some (record x { async_list = x.async_list ++ s.next ∷ [] })) s.subs;
  next = s.next + 1;
}

module _ {W : Type 0} (env : Env W) where
  -- redisAsyncCommand with a callback that keeps no memory, or none
  abbrev pub command : ℕ → Command → Pub W → ℤ × Pub W
  command ctx cmd s = (env.answer (length s.sent), record s { sent = s.sent ++ (ctx, cmd) ∷ [] })

  -- redisAsyncCommand with `privdata`: the callback is owed if it returned 0.
  abbrev pub command_with : Callback → ℕ → ℕ → Command → Pub W → ℤ × Pub W
  command_with fn a ctx cmd s = (
    env.answer (length s.sent),
    record s {
      sent = s.sent ++ (ctx, cmd) ∷ [];
      pending =
          if int_eq (env.answer (length s.sent)) (pos 0)
          then s.pending ++ record { fn = fn; privdata = a } ∷ []
          else s.pending;
    },
  )
