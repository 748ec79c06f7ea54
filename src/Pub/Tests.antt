-- ===== src/Pub/Tests.antt =====
-- Sessions of src/hp_pub.c with a Redis that takes every command.
use libhp.Common.{
  ℕ, suc, ◌≡◌, refl, false, none, some, List, [], ◌∷◌, put, ltb, if◌then◌else◌, Bytes,
}
use libhp.Common.Int.{ℤ, pos, negsuc}
use libhp.Pub.{Item, Env, Pub, Call, call_sub, release}
use libhp.Pub.Calls.{at_session, set_session, subc_arg}
use libhp.Pub.Replies.{
  Reply, reply, nil, cons, history, topic_items, text, elements, text_or_empty, items_of,
  on_history,
}
use libhp.Pub.Asks.{IsGentle}
use libhp.Pub.Ends.{Leaves}
use libhp.Pub.Reach.{
  Event, sets_up, calls, Reaches, at_first, then_next, handle, empty_pub, Reaches-handle,
}
use libhp.Pub.Missed.{Topic}
use mathlib.Core.List.Permᴰ.{Permᴰ}

-- The callback does what `k` says, and qsort leaves two messages in the other order.
abbrev redis : List Call → Env ℕ
redis k = record {
  answer = λ n. pos 0;
  now = λ n. b'1' ∷ [];
  sdscmp = compare_first;
  qsort = swap_two;
  on_message = λ f d topic id msg w. (suc w, k);
  on_failure = λ f d mid w. w;
}
  where
    swap_two : (Item → Item → ℤ) → List Item → List Item
    swap_two cmp (i ∷ j ∷ []) = j ∷ i ∷ []
    swap_two cmp items = items

    compare_first : Bytes → Bytes → ℤ
    compare_first (x ∷ xs) (y ∷ ys) = if ltb y x then pos 1 else negsuc 0
    compare_first xs ys = pos 0

redis-IsGentle : IsGentle (redis [])
redis-IsGentle = record { calm = λ f d topic id msg w. tt }

abbrev set_up_one : Event
set_up_one = sets_up 1 2 [] [] (b's' ∷ []) (some 7) 0

abbrev one_session : Pub ℕ
one_session = record (empty_pub 0) {
  subs =
      put 0
        (some (record {
          c = 1;
          subc = 2;
          shasub = [];
          shasup = [];
          sid = b's' ∷ [];
          cb = some 7;
          arg = 0;
          async_list = [];
        }))
        (λ d. none);
  next = 1;
  attached = put 2 (some 0) (λ ctx. none);
}

is_set_up : Reaches (redis []) (empty_pub 0) one_session
unfolding at_session set_session subc_arg
is_set_up = then_next set_up_one at_first tt refl

Reaches-handle_example :
    Leaves (redis []) [] (handle (redis []) (calls (call_sub 2 [])) one_session)
Reaches-handle_example =
    Reaches-handle (redis []) redis-IsGentle 0 one_session (calls (call_sub 2 [])) is_set_up tt

abbrev str : ℕ → Reply
str c = reply false (some (c ∷ [])) (pos 0) nil

-- Two messages of the topic t
abbrev two_messages : Reply
two_messages = reply false none (pos 0) (
    cons (str b't') (
      cons
        (reply false none (pos 0)
          (cons (str b'm') (cons (str b'2') (cons (str b'n') (cons (str b'1') nil)))))
        nil))

-- The query for the history is under way.
abbrev asked : Pub ℕ
asked = record one_session {
  asyncs = put 1 (some (some 0)) (λ a. none);
  subs =
      put 0
        (some (record {
          c = 1;
          subc = 2;
          shasub = [];
          shasup = [];
          sid = b's' ∷ [];
          cb = some 7;
          arg = 0;
          async_list = 1 ∷ [];
        }))
        (λ d. none);
  next = 2;
}

-- The same reply, as the topics that it stands for.
abbrev one_topic : Topic
one_topic = (b't' ∷ [], (b'm' ∷ [], b'2' ∷ []) ∷ (b'n' ∷ [], b'1' ∷ []) ∷ [])

-- The callback frees the context at the first message: the second finds `as->s` to be NULL.
freed_in_callback :
    on_history (redis (release 2 ∷ [])) 1 (some two_messages) (asked.asyncs 1) asked ≡ none
unfolding on_history items_of history topic_items text elements text_or_empty
freed_in_callback = refl
