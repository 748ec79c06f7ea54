-- ===== src/Iocp/Items.antt =====
-- The table of src/hp_iocp.c: adding, removing, finding and writing to an item.
use libhp.Common.{
  ℕ, suc, ◌+◌, ◌*◌, Bool, true, false, not, ◌||◌, ◌==◌, ltb, Option, none, some, List, [], ◌∷◌,
  ◌++◌, if◌then◌else◌, get_elem?, Bytes, length, lfind,
}
use libhp.Common.Int.{ℤ, pos, negsuc, int_eq}
use libhp.Iocp.Data.{
  Fn, user, default, in_out, sys, Item, wm_add, wm_rm, Iocp, item_find, set_item, post, call_free,
  ol_newo,
}

abbrev is_default : Option Fn → Bool
is_default (some default) = true
is_default (some (user f)) = false
is_default none = false

-- hp_iocp_item_is_removed
unfoldable pub is_removed : Item → Bool
is_removed x = is_default x.on_accept || is_default x.on_data

-- `item->on_data? hp_iocp_def_on_data : 0`
unfoldable pub to_default : Option Fn → Option Fn
to_default (some f) = some default
to_default none = none

-- HP_IOCP_RBUF
abbrev pub rbuf : ℕ
rbuf = 1024 * 4

-- The arguments of hp_iocp_add; an invalid socket is `none`. `room` is what sdsMakeRoomFor, which is
-- asked for `nibuf` bytes, or for HP_IOCP_RBUF if that is 0, makes of the buffer.
pub record Adding : Type 0 where
  pub nibuf : ℕ
  pub room : ℕ
  pub fd : Option ℕ
  pub on_accept : Option Fn
  pub on_data : Option Fn
  pub on_error : Option Fn
  pub on_loop : Option Fn
  pub arg : ℕ

unfoldable pub is_set : Option Fn → Bool
is_set (some f) = true
is_set none = false

abbrev pub room_of : ℕ → ℕ
room_of nibuf = if nibuf == 0 then rbuf else nibuf

-- The room of `ibuf` after sdsMakeRoomFor.
abbrev pub more_room : Adding → Item → ℕ
more_room a x = if ltb (length x.ibuf) (room_of a.nibuf) then a.room else x.ibuf_cap

-- The callbacks and the argument of an item are replaced.
unfoldable pub renew : Adding → Item → Item
renew a x = record x {
  on_accept = a.on_accept;
  on_data = a.on_data;
  on_error = a.on_error;
  on_loop = a.on_loop;
  arg = a.arg;
  ibuf_cap = more_room a x;
}

abbrev pub fresh_item : ℕ → ℕ → Adding → Item
fresh_item id fd a = record {
  id = id;
  fd = fd;
  obuf = [];
  ibuf = [];
  ibuf_cap = a.room;
  ibytes = 0;
  obytes = 0;
  on_accept = a.on_accept;
  on_data = a.on_data;
  on_error = a.on_error;
  on_loop = a.on_loop;
  err = sys 0;
  arg = a.arg;
}

-- INT_MAX - 1
abbrev pub last_id : ℕ
last_id = 2147483646

-- find_by_fd
unfoldable pub has_fd : ℕ → Option Item → Bool
has_fd fd (some x) = x.fd == fd
has_fd fd none = false

unfoldable pub id_of : Option Item → ℤ
id_of (some x) = pos x.id
id_of none = negsuc 1

-- hp_iocp_do_find: the client's comparison is not 0
unfoldable pub found_by : (ℕ → ℕ → ℤ) → ℕ → Option Item → Bool
found_by on_cmp key (some x) = not (int_eq (on_cmp key x.arg) (pos 0))
found_by on_cmp key none = false

-- The item's `arg`, unless it was removed.
unfoldable pub arg_of : Option Item → ℕ
unfolding is_removed
arg_of (some x) = if is_removed x then 0 else x.arg
arg_of none = 0

unfoldable pub reset : Item → Item
unfolding to_default
reset x = record x {
  on_accept = to_default x.on_accept;
  on_data = to_default x.on_data;
  on_loop = to_default x.on_loop;
  on_error = to_default x.on_error;
}

unfoldable pub count_items : List Item → ℕ
unfolding is_removed
count_items [] = 0
count_items (x ∷ xs) = if is_removed x then count_items xs else suc (count_items xs)

module _ {W : Type 0} where
  abbrev pub item_at : Iocp W → Option ℕ → Option Item
  item_at s (some i) = get_elem? s.items i
  item_at s none = none

  unfoldable pub find_fd : Iocp W → ℕ → Option ℕ
  unfolding has_fd
  find_fd s fd = lfind (λ i. has_fd fd (get_elem? s.items i)) 0 (length s.items)

  -- hp_iocp_do_socket: a connection is announced to the polling thread.
  unfoldable pub announce : Item → Iocp W → Iocp W
  unfolding post is_set
  announce x s = if is_set x.on_accept then s else post (wm_add x.id x.fd) s

  -- A socket that has no item; `bound` tells if CreateIoCompletionPort succeeds.
  unfoldable pub append_item : Bool → Item → Iocp W → ℤ × Iocp W
  unfolding announce
  append_item false x s = (negsuc 2, s)
  append_item true x s =
      (pos x.id, record (announce x s) { items = s.items ++ x ∷ []; ioid = s.ioid + 1 })

  abbrev pub wrap_id : Iocp W → Iocp W
  wrap_id s = if s.ioid == last_id then record s { ioid = 0 } else s

  unfoldable pub add_new : Bool → ℕ → Adding → Iocp W → ℤ × Iocp W
  unfolding append_item
  add_new bound fd a s =
      if length s.items == s.cap
      then (negsuc 1, s)
      else append_item bound (fresh_item (wrap_id s).ioid fd a) (wrap_id s)

  unfoldable pub add_at : Option ℕ → Bool → ℕ → Adding → Iocp W → ℤ × Iocp W
  unfolding add_new renew id_of set_item
  add_at none bound fd a s = add_new bound fd a s
  add_at (some i) bound fd a s = (id_of (get_elem? s.items i), set_item i (renew a) s)

  unfoldable pub add_socket : Option ℕ → Bool → Adding → Iocp W → ℤ × Iocp W
  unfolding add_at find_fd
  add_socket none bound a s = (negsuc 0, s)
  add_socket (some fd) bound a s = add_at (find_fd s fd) bound fd a s

  -- hp_iocp_add
  unfoldable pub iocp_add : Bool → Adding → Iocp W → ℤ × Iocp W
  unfolding add_socket is_set
  iocp_add bound a s =
      if is_set a.on_data || is_set a.on_accept then add_socket a.fd bound a s else (negsuc 0, s)

  unfoldable pub rm_at : Option ℕ → Iocp W → ℤ × Iocp W
  unfolding reset set_item
  rm_at (some i) s = (pos 0, set_item i reset s)
  rm_at none s = (negsuc 1, s)

  -- hp_iocp_rm only resets the callbacks.
  unfoldable pub iocp_rm : ℤ → Iocp W → ℤ × Iocp W
  unfolding rm_at item_find
  iocp_rm (pos id) s = rm_at (item_find s id) s
  iocp_rm (negsuc n) s = (negsuc 0, s)

  -- hp_iocp_size
  unfoldable pub iocp_size : Iocp W → ℕ
  unfolding count_items
  iocp_size s = count_items s.items

  -- hp_iocp_find with a comparison, or by the id that `key` points to; `none` is NULL.
  unfoldable pub iocp_find : Iocp W → ℕ → Option ℕ → Option (ℕ → ℕ → ℤ) → ℕ
  unfolding arg_of found_by item_find
  iocp_find s key id (some on_cmp) =
      arg_of (item_at s (lfind (λ i. found_by on_cmp key (get_elem? s.items i)) 0 (length s.items)))
  iocp_find s key (some id) none = arg_of (item_at s (item_find s id))
  iocp_find s key none none = 0

  -- The buffer that was not queued is freed.
  unfoldable pub write_failed : ℤ → ℕ → Option ℕ → ℕ → Iocp W → ℤ × Iocp W
  unfolding call_free
  write_failed rc data_ freecb ptr s = (rc, call_free freecb (if ptr == 0 then data_ else ptr) s)

  -- The buffer is queued, and the polling thread is asked for POLLOUT.
  unfoldable pub enqueue : ℕ → ℕ → ℕ → Bytes → Option ℕ → ℕ → Iocp W → ℤ × Iocp W
  unfolding ol_newo set_item post
  enqueue i id data_ bytes freecb ptr s =
      let ol = ol_newo id data_ bytes freecb ptr s in
      (
        pos 0,
        post (wm_rm id in_out) (
            set_item i (λ x. record x { obuf = x.obuf ++ ol ∷ [] })
              (record s { next = s.next + 1 })),
      )

  unfoldable pub write_to :
      Option ℕ → Option Item → ℕ → ℕ → Bytes → Option ℕ → ℕ → Iocp W → ℤ × Iocp W
  unfolding is_removed enqueue write_failed
  write_to (some i) (some x) id data_ bytes freecb ptr s =
      if is_removed x
      then write_failed (negsuc 1) data_ freecb ptr s
      else enqueue i id data_ bytes freecb ptr s
  write_to (some i) none id data_ bytes freecb ptr s = write_failed (negsuc 1) data_ freecb ptr s
  write_to none x id data_ bytes freecb ptr s = write_failed (negsuc 1) data_ freecb ptr s

  -- hp_iocp_write
  unfoldable pub iocp_write : ℕ → ℕ → Bytes → Option ℕ → ℕ → Iocp W → ℤ × Iocp W
  unfolding write_to write_failed item_find
  iocp_write id data_ bytes freecb ptr s =
      if (data_ == 0) || (length bytes == 0)
      then write_failed (negsuc 0) data_ freecb ptr s
      else write_to (item_find s id) (item_at s (item_find s id)) id data_ bytes freecb ptr s
