-- ===== src/Iocp/Tests.antt =====
-- src/hp_iocp.c at a concrete client.
use libhp.Common.{ℕ, ◌+◌, ◌≡◌, refl, true, none, some, [], ◌∷◌, map}
use libhp.Common.Int.{pos}
use libhp.Iocp.Search.{IsAscending, bsearch}
use libhp.Iocp.Data.{
  user, sys, Ol, Item, Iocp, ids, update_at, item_find, set_item, post, call_free, ol_del,
}
use libhp.Iocp.Items.{Adding, is_set, iocp_add, iocp_write}
use libhp.Iocp.Messages.{
  Env, item_on_error, handle_io, io_at, write_done, read_done, on_first, store, call_on_data,
  then_del, call_on_error,
}
use libhp.Iocp.Run.{Config, empty_iocp}
use libhp.Iocp.Poller.{on_msgs, on_msg, on_rm, pd_find}
use libhp.Iocp.Handling.{IsOrderly, returns}
use libhp.Iocp.Reach.{start, further, adds, posted_in_step}
use libhp.Iocp.Own.{Owned, iocp_write-Owned}

-- A client that keeps all its bytes in the buffer and counts errors.
abbrev env : Env ℕ
env = record {
  on_accept = λ f arg s. s;
  on_data = λ f arg buf s. (pos 1, buf, s);
  on_error = λ f arg err s. record s { client = s.client + 1 };
  on_loop = λ f arg s. (pos 0, s);
  sends = λ i. none;
}

env-IsOrderly : IsOrderly env
env-IsOrderly = record {
  on_error = λ f arg err s. record { same_ids = refl; same_posted = refl; same_ioid = refl };
  on_data = λ f arg buf s. returns;
}

abbrev config : Config
config = record { maxfd = 2; hwnd = 0; n_threads = 1; wmuser = 3045; ctid = 7 }

abbrev a_connection : Adding
a_connection = record {
  nibuf = 4;
  room = 4;
  fd = some 30;
  on_accept = none;
  on_data = some (user 5);
  on_error = some (user 6);
  on_loop = none;
  arg = 90;
}

abbrev nothing_yet : Iocp ℕ
nothing_yet = empty_iocp config 0

abbrev one : Iocp ℕ
one = (iocp_add true a_connection nothing_yet).1

abbrev written : Iocp ℕ
written = (iocp_write 0 400 (1 ∷ 2 ∷ 3 ∷ []) (some 8) 0 one).1

one-IsAscending : IsAscending (ids one)
unfolding is_set
one-IsAscending =
    (posted_in_step env config 0 one env-IsOrderly
      (further start (adds true a_connection nothing_yet refl refl))).0

iocp_write-Owned_example :
    Owned 0 400 (1 ∷ 2 ∷ 3 ∷ []) (some 8) 0 one (iocp_write 0 400 (1 ∷ 2 ∷ 3 ∷ []) (some 8) 0 one)
iocp_write-Owned_example = iocp_write-Owned 0 400 (1 ∷ 2 ∷ 3 ∷ []) (some 8) 0 one one-IsAscending

-- An item with nothing buffered.
abbrev item : Item
item = record {
  id = 0;
  fd = 30;
  obuf = [];
  ibuf = [];
  ibuf_cap = 4;
  ibytes = 0;
  obytes = 0;
  on_accept = none;
  on_data = some (user 5);
  on_error = some (user 6);
  on_loop = none;
  err = sys 0;
  arg = 90;
}

abbrev with_item : Iocp ℕ
with_item = record nothing_yet { items = item ∷ []; ioid = 1 }

abbrev a_write : Ol
a_write = record { addr = 1; id = 0; ptr = 400; free = some 8; buf = 1 ∷ 2 ∷ 3 ∷ [] }

-- A write that is done in part is queued again, and then freed.
partial_write_freed :
    (s : Iocp ℕ) × (handle_io env 1 a_write 2 [] 0 with_item ≡ some s)
    × (s.deleted ≡ 1 ∷ [])
    × (map (λ x. map (λ o. o.addr) x.obuf) s.items ≡ (1 ∷ []) ∷ [])
unfolding handle_io io_at write_done then_del item_find bsearch set_item update_at post ol_del
    call_free
partial_write_freed = (_, refl, refl, refl)

abbrev a_read : Ol
a_read = record { addr = 2; id = 0; ptr = 0; free = none; buf = [] }

-- A first read of more bytes than the buffer's room, which the callback leaves, is stored past its end.
first_read_overruns : handle_io env 1 a_read 5 (1 ∷ 2 ∷ 3 ∷ 4 ∷ 5 ∷ []) 0 with_item ≡ none
unfolding handle_io io_at read_done on_first store call_on_data then_del item_find bsearch set_item
    update_at
first_read_overruns = refl

-- A listening socket is taken out at the polling thread, which it was never announced to.
abbrev a_listener : Adding
a_listener = record a_connection { on_accept = some (user 4); on_data = none }

listener_fails :
    on_msgs
      (item_on_error env 0
        (record item { on_accept = some (user 4) })
        (iocp_add true a_listener nothing_yet).1).posted
      []
    ≡ none
unfolding iocp_add item_on_error on_msgs on_msg on_rm pd_find bsearch post call_on_error
listener_fails = refl
