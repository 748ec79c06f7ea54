-- ===== src/Pub/Missed.antt =====
-- The replies of Redis that hp_sub_all_cb of src/hp_pub.c reads, and the messages that they stand for.
use libhp.Common.{
  refl, ap, ap₂, ◌≡◌, ◌∙◌, false, Option, none, some, List, [], ◌∷◌, ◌++◌, map, Bytes,
}
use libhp.Common.Int.{pos}
use libhp.Common.Perm.{map-append}
use libhp.Pub.{Heard, message, failure, Item}
use libhp.Pub.Replies.{
  Reply, reply, Replies, nil, cons, text, elements, text_or_empty, topic_items, history,
}

-- A topic that a session missed messages of: its name, and their texts and ids.
abbrev pub Topic : Type 0
Topic = Bytes × List (Bytes × Bytes)

-- What Redis answers to the query for the history: a list of topics and lists of texts and ids, in turn.
abbrev pub text_reply : Bytes → Reply
text_reply b = reply false (some b) (pos 0) nil

abbrev pub print_messages : List (Bytes × Bytes) → Replies
print_messages [] = nil
print_messages ((m, i) ∷ ms) = cons (text_reply m) (cons (text_reply i) (print_messages ms))

abbrev pub print_topics : List Topic → Replies
print_topics [] = nil
print_topics ((t, ms) ∷ ts) =
    cons (text_reply t) (cons (reply false none (pos 0) (print_messages ms)) (print_topics ts))

-- The messages that were missed, in the order of the reply.
abbrev pub items_in : Bytes → List (Bytes × Bytes) → List Item
items_in t [] = []
items_in t ((m, i) ∷ ms) = record { id = i; msg = m; topic = some t } ∷ items_in t ms

abbrev pub all_items : List Topic → List Item
all_items [] = []
all_items ((t, ms) ∷ ts) = items_in t ms ++ all_items ts

abbrev pub missed_of : Bytes → List (Bytes × Bytes) → List Heard
missed_of t [] = []
missed_of t ((m, i) ∷ ms) = message t i m ∷ missed_of t ms

abbrev pub missed : List Topic → List Heard
missed [] = []
missed ((t, ms) ∷ ts) = missed_of t ms ++ missed ts

abbrev pub heard_id : Heard → Bytes
heard_id (message topic i m) = i
heard_id (failure i) = i

topic_items-print :
    (t : Bytes) (ms : List (Bytes × Bytes))
    → topic_items (some t) (print_messages ms) ≡ items_in t ms
unfolding topic_items text_or_empty
topic_items-print t [] = refl
topic_items-print t ((m, i) ∷ ms) =
    ap (◌∷◌ (record { id = i; msg = m; topic = some t })) (topic_items-print t ms)

pub history-print : (ts : List Topic) → history (print_topics ts) ≡ all_items ts
unfolding history text elements
history-print [] = refl
history-print ((t, ms) ∷ ts) = ap₂ (◌++◌) (topic_items-print t ms) (history-print ts)

unfoldable pub as_heard : Item → Heard
as_heard i = elim i.topic [ none ↦ failure i.id | some t ↦ message t i.id i.msg ]

heard-items_in :
    (t : Bytes) (ms : List (Bytes × Bytes)) → map as_heard (items_in t ms) ≡ missed_of t ms
unfolding as_heard
heard-items_in t [] = refl
heard-items_in t ((m, i) ∷ ms) = ap (◌∷◌ (message t i m)) (heard-items_in t ms)

pub heard-all_items : (ts : List Topic) → map as_heard (all_items ts) ≡ missed ts
heard-all_items [] = refl
heard-all_items ((t, ms) ∷ ts) =
    map-append as_heard (items_in t ms) (all_items ts)
    ∙ ap₂ (◌++◌) (heard-items_in t ms) (heard-all_items ts)

heard_id-as_heard : (i : Item) → heard_id (as_heard i) ≡ i.id
unfolding as_heard
heard_id-as_heard i = go i.topic
  where
    go :
        (o : Option Bytes)
        → heard_id (elim o [ none ↦ failure i.id | some t ↦ message t i.id i.msg ]) ≡ i.id
    go none = refl
    go (some t) = refl

pub heard_ids : (is : List Item) → map heard_id (map as_heard is) ≡ map (λ i. i.id) is
heard_ids [] = refl
heard_ids (i ∷ is) = ap₂ (◌∷◌) (heard_id-as_heard i) (heard_ids is)
