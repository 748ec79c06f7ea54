-- ===== src/Pub/Replies.antt =====
-- The callbacks of src/hp_pub.c that hiredis calls with a reply. `none` is an access to memory that is
-- not allocated, or through NULL.
use libhp.Common.{
  ℕ, Bool, true, false, Option, none, some, List, [], ◌∷◌, ◌++◌, if◌then◌else◌, ◌==◌, put, bytes_eq,
  Bytes,
}
use libhp.Common.Int.{ℤ, pos, int_eq}
use libhp.Pub.{Sub, sub_all_cb, sub_session_cb, Pending, Pub, Item, Env, free_async}
use libhp.Pub.Calls.{◌>>=◌, sub_all, dosub, tell_failure, tell, with_session, subscribe_id}

-- `redisReply`: whether the type is an error, the text, `none` for NULL, the number and the elements.
mutual
  pub data Reply : Type 0 where
    reply : Bool → Option Bytes → ℤ → Replies → Reply

  pub data Replies : Type 0 where
    nil : Replies
    cons : Reply → Replies → Replies

unfoldable pub elements : Reply → Replies
elements (reply e t n rs) = rs

unfoldable pub text : Reply → Option Bytes
text (reply e t n rs) = t

unfoldable pub integer : Reply → ℤ
integer (reply e t n rs) = n

-- sdsnewlen(r->str, r->len)
unfoldable pub text_or_empty : Reply → Bytes
text_or_empty (reply e none n rs) = []
text_or_empty (reply e (some t) n rs) = t

-- The messages of a topic: the elements in pairs, of a text and its id.
unfoldable pub topic_items : Option Bytes → Replies → List Item
unfolding text_or_empty
topic_items t nil = []
topic_items t (cons m nil) = []
topic_items t (cons m (cons i rest)) =
    record { id = text_or_empty i; msg = text_or_empty m; topic = t } ∷ topic_items t rest

-- The elements in pairs, of a topic and its messages.
unfoldable pub history : Replies → List Item
unfolding topic_items text elements
history nil = []
history (cons t nil) = []
history (cons t (cons d rest)) = topic_items (text t) (elements d) ++ history rest

-- What hp_sub_all_cb reads: `none` for no reply, an error or no elements.
unfoldable pub items_of : Option Reply → Option (List Item)
unfolding history
items_of none = none
items_of (some (reply true t n rs)) = none
items_of (some (reply false t n nil)) = none
items_of (some (reply false t n (cons r rs))) = some (history (cons r rs))

-- The topics of a session: `none` for no reply or an error.
unfoldable pub texts : Replies → List Bytes
unfolding text_or_empty
texts nil = []
texts (cons r rs) = text_or_empty r ∷ texts rs

unfoldable pub topics_of : Option Reply → Option (List Bytes)
unfolding texts
topics_of none = none
topics_of (some (reply true t n rs)) = none
topics_of (some (reply false t n rs)) = some (texts rs)

-- list_del
unfoldable pub list_del : ℕ → List ℕ → List ℕ
list_del a [] = []
list_del a (b ∷ bs) = let rest = list_del a bs in if a == b then rest else b ∷ rest

abbrev pub hkeys_id : Bytes
hkeys_id = b'H' ∷ b'K' ∷ b'E' ∷ b'Y' ∷ b'S' ∷ []

abbrev pub unsubscribe_id : Bytes
unsubscribe_id = b'u' ∷ b'n' ∷ subscribe_id

-- The third element of a reply whose first is taken off
unfoldable pub third : Replies → Option ℤ
unfolding integer
third nil = none
third (cons r nil) = none
third (cons r (cons q rs)) = some (integer q)

module _ {W : Type 0} (env : Env W) where
  -- `if(as->s) list_del(&as->node); free(as);`
  unfoldable pub end_async : ℕ → Option (Option ℕ) → Pub W → Option (Pub W)
  unfolding list_del
  end_async a none s = none
  end_async a (some none) s = some (free_async a s)
  end_async a (some (some d)) s = s.subs d >>= (λ x. some (
      free_async a (record s {
        subs = put d (some (record x { async_list = list_del a x.async_list })) s.subs;
      })))

  unfoldable pub tell_item : Item → Option (Option ℕ) → Pub W → Option (Pub W)
  unfolding tell
  tell_item i none s = none
  tell_item i (some none) s = none
  tell_item i (some (some d)) s = s.subs d >>= (λ x. tell env d x.cb i.topic i.id i.msg s)

  unfoldable pub deliver : ℕ → List Item → Pub W → Option (Pub W)
  unfolding tell_item
  deliver a [] s = some s
  deliver a (i ∷ is) s = tell_item i (s.asyncs a) s >>= deliver a is

  -- By their ids
  unfoldable pub comp : Item → Item → ℤ
  comp i j = env.sdscmp i.id j.id

  unfoldable pub deliver_all : ℕ → Option (List Item) → Pub W → Option (Pub W)
  unfolding deliver end_async comp
  deliver_all a none s = end_async a (s.asyncs a) s
  deliver_all a (some items) s =
      deliver a (env.qsort comp items) s >>= (λ s'. end_async a (s'.asyncs a) s')

  -- hp_sub_all_cb
  unfoldable pub on_history : ℕ → Option Reply → Option (Option ℕ) → Pub W → Option (Pub W)
  unfolding deliver_all items_of
  on_history a r none s = none
  on_history a r (some none) s = end_async a (some none) s
  on_history a r (some (some d)) s = deliver_all a (items_of r) s

  unfoldable pub session_topics : ℕ → ℕ → Sub → Option (List Bytes) → Pub W → Option (Pub W)
  unfolding dosub with_session tell_failure
  session_topics a d x none s = some (tell_failure env d x.cb hkeys_id s)
  session_topics a d x (some []) s = some s
  session_topics a d x (some (t ∷ ts)) s =
      with_session env (λ d' x'. some (dosub env x.subc d' x' (t ∷ ts) s).1) none
        (s.attached x.subc) s

  -- hp_sub_session_cb
  unfoldable pub on_session : ℕ → Option Reply → Option (Option ℕ) → Pub W → Option (Pub W)
  unfolding session_topics topics_of end_async
  on_session a r none s = none
  on_session a r (some none) s = end_async a (some none) s
  on_session a r (some (some d)) s =
      s.subs d
      >>= (λ x. session_topics a d x (topics_of r) s)
      >>= (λ s'. end_async a (s'.asyncs a) s')

  unfoldable pub on_unsubscribed : ℕ → Option ℕ → Option ℤ → Pub W → Option (Pub W)
  unfolding tell
  on_unsubscribed d none n s = some s
  on_unsubscribed d (some f) none s = none
  on_unsubscribed d (some f) (some n) s =
      if int_eq n (pos 0) then tell env d (some f) (some []) [] [] s else some s

  unfoldable pub on_subscribed : ℕ → Sub → Option ℤ → Pub W → Option (Pub W)
  unfolding sub_all
  on_subscribed d x none s = none
  on_subscribed d x (some n) s = if int_eq n (pos 1) then some (sub_all env d x s).1 else some s

  -- What Redis says on a subscribed context: its first element says what it is.
  unfoldable pub on_word : ℕ → Sub → Option Bytes → Option ℤ → Pub W → Option (Pub W)
  unfolding on_subscribed on_unsubscribed bytes_eq
  on_word d x none n s = none
  on_word d x (some w) n s =
      if bytes_eq w subscribe_id
      then on_subscribed d x n s
      else if bytes_eq w unsubscribe_id
      then on_unsubscribed d x.cb n s
      else some (sub_all env d x s).1

  unfoldable pub on_push : ℕ → Sub → Option Reply → Pub W → Option (Pub W)
  unfolding on_word third text
  on_push d x none s = some s
  on_push d x (some (reply true t n rs)) s = some s
  on_push d x (some (reply false t n nil)) s = none
  on_push d x (some (reply false t n (cons r rs))) s = on_word d x (text r) (third rs) s

  unfoldable pub msg_cb : ℕ → Option Reply → Pub W → Option (Pub W)
  unfolding on_push with_session
  msg_cb ctx r s = with_session env (λ d x. on_push d x r s) none (s.attached ctx) s

  -- hiredis calls an owed callback with a reply, or with NULL.
  unfoldable pub call_back : Pending → Option Reply → Pub W → Option (Pub W)
  unfolding on_history on_session
  call_back p r s = elim p.fn [
    | sub_all_cb ↦ on_history p.privdata r (s.asyncs p.privdata) s
    | sub_session_cb ↦ on_session p.privdata r (s.asyncs p.privdata) s
  ]
