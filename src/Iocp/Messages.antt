-- ===== src/Iocp/Messages.antt =====
-- The messages to the user's thread in src/hp_iocp.c: a socket is ready, or an overlapped read or write
-- is done. `none` is where the code writes past a buffer, or does not end.
use libhp.Common.{
  ℕ, zero, suc, ◌+◌, ◌-◌, Bool, true, false, not, ◌||◌, ◌==◌, leb, Option, none, some, List, [],
  ◌∷◌, ◌++◌, if◌then◌else◌, get_elem?, Bytes, length, drop,
}
use libhp.Common.Int.{ℤ, pos, negsuc, is_neg}
use libhp.Iocp.Data.{
  Fn, user, default, Flags, no_flags, in_out, Err, sys, flagged, is_err, Ol, Item, wm_rm, Iocp,
  remove_at, item_find, set_item, post, ol_del,
}
use libhp.Iocp.Items.{item_at}

-- The client's callbacks, by their addresses, and how `WSASend` answers: `none` if the write is done or
-- pending, or the error.
pub record Env (W : Type 0) : Type 0 where
  pub on_accept : ℕ → ℕ → Iocp W → Iocp W
  pub on_data : ℕ → ℕ → Bytes → Iocp W → ℤ × Bytes × Iocp W
  pub on_error : ℕ → ℕ → Err → Iocp W → Iocp W
  pub on_loop : ℕ → ℕ → Iocp W → ℤ × Iocp W
  pub sends : ℕ → Option ℕ

module _ {W : Type 0} (env : Env W) where
  unfoldable pub call_on_error : Option Fn → ℕ → Err → Iocp W → Iocp W
  call_on_error (some (user f)) arg err s = env.on_error f arg err s
  call_on_error (some default) arg err s = s
  call_on_error none arg err s = s

  -- `item->on_data`, which is not NULL where there are reads
  unfoldable pub call_on_data : Option Fn → ℕ → Bytes → Iocp W → ℤ × Bytes × Iocp W
  call_on_data (some (user f)) arg buf s = env.on_data f arg buf s
  call_on_data (some default) arg buf s = (negsuc 0, buf, s)
  call_on_data none arg buf s = (negsuc 0, buf, s)

  -- hp_iocp_item_on_error on item i; its queue is dropped with it.
  unfoldable pub item_on_error : ℕ → Item → Iocp W → Iocp W
  unfolding post call_on_error remove_at
  item_on_error i x s =
      let s' = call_on_error x.on_error x.arg x.err (post (wm_rm x.id no_flags) s) in
      record s' { items = remove_at i s'.items }

  -- What `WSASend` returned.
  unfoldable pub on_sent : Option ℕ → ℕ → Ol → Iocp W → Bool × Iocp W
  unfolding ol_del set_item
  on_sent none i ol s = (
    true,
    record (set_item i (λ x. record x { err = sys 0 }) s) { sending = s.sending ++ ol ∷ [] },
  )
  on_sent (some e) i ol s = (false, set_item i (λ x. record x { err = sys e }) (ol_del ol s))

  -- hp_iocp_do_write: the first of the queue is given to the system.
  unfoldable pub do_write : ℕ → List Ol → Iocp W → Bool × Iocp W
  unfolding on_sent set_item
  do_write i [] s = (true, s)
  do_write i (ol ∷ ols) s =
      on_sent (env.sends s.sends) i ol
        (record (set_item i (λ x. record x { obuf = ols }) s) { sends = s.sends + 1 })

  -- `if(rc != 0 || item->err)`
  unfoldable pub if_failed : Bool → ℕ → Option Item → Iocp W → Iocp W
  unfolding item_on_error
  if_failed ok i (some x) s = if not ok || is_err x.err then item_on_error i x s else s
  if_failed ok i none s = s

  unfoldable pub on_flags : ℕ → Item → Flags → Iocp W → Iocp W
  unfolding do_write if_failed set_item
  on_flags i x flags s =
      let failed = set_item i (λ y. record y { err = flagged flags }) s in
      let (ok, sent) = do_write i x.obuf s in
      if flags.pollerr || flags.pollhup
      then if_failed true i (get_elem? failed.items i) failed
      else if flags.pollout
      then if_failed ok i (get_elem? sent.items i) sent
      else if_failed true i (get_elem? s.items i) s

  unfoldable pub fd_at : Option ℕ → Option Item → Flags → Iocp W → Iocp W
  unfolding on_flags
  fd_at (some i) (some x) flags s = on_flags i x flags s
  fd_at (some i) none flags s = record s { n_dmsg0 = s.n_dmsg0 + 1 }
  fd_at none x flags s = record s { n_dmsg0 = s.n_dmsg0 + 1 }

  -- HP_IOCP_WM_FD
  unfoldable pub handle_fd : ℕ → Flags → Iocp W → Iocp W
  unfolding fd_at item_find
  handle_fd id flags s = fd_at (item_find s id) (item_at s (item_find s id)) flags s

  -- `memcpy(item->ibuf + sdslen(item->ibuf), buf, nbuf)`, in the room that there is
  unfoldable pub store : ℕ → Option Item → Bytes → Iocp W → Option (Iocp W)
  unfolding set_item
  store i (some x) buf s =
      if leb (length x.ibuf + length buf) x.ibuf_cap
      then some (set_item i (λ y. record y { ibuf = y.ibuf ++ buf }) s)
      else none
  store i none buf s = none

  -- After a callback, a negative code ends the item.
  unfoldable pub if_negative : ℤ → ℕ → Option Item → Iocp W → Iocp W
  unfolding item_on_error
  if_negative (negsuc n) i (some x) s = item_on_error i x s
  if_negative (negsuc n) i none s = s
  if_negative (pos n) i x s = s

  -- Nothing is buffered: the callback sees the bytes that were read, and what it leaves is stored.
  unfoldable pub on_first : ℕ → ℤ × Bytes × Iocp W → Option (Iocp W)
  unfolding store if_negative
  on_first i (pos n, [], s) = some s
  on_first i (pos n, b ∷ bs, s) = store i (get_elem? s.items i) (b ∷ bs) s
  on_first i (negsuc n, buf, s) = some (if_negative (negsuc n) i (get_elem? s.items i) s)

  -- `sdsIncrLen(item->ibuf, -(sdslen(item->ibuf) - len))` after the callback
  unfoldable pub on_buffered : ℕ → ℤ × Bytes × Iocp W → ℤ × Iocp W
  unfolding set_item
  on_buffered i (rc, buf, s) = (rc, set_item i (λ y. record y { ibuf = buf }) s)

  unfoldable pub parse_ibuf : ℕ → Option Item → Iocp W → ℤ × Iocp W
  unfolding on_buffered call_on_data
  parse_ibuf i (some x) s = on_buffered i (call_on_data x.on_data x.arg x.ibuf s)
  parse_ibuf i none s = (negsuc 0, s)

  -- Whether the bytes fit behind what is buffered.
  unfoldable pub fits : Option Item → ℕ → Bool
  fits (some x) n = leb n (x.ibuf_cap - length x.ibuf)
  fits none n = true

  -- "to make sure that there is room for the new data", on fuel
  unfoldable pub make_room : ℕ → ℕ → ℕ → Iocp W → Option (ℤ × Iocp W)
  unfolding parse_ibuf fits
  make_room zero i n s = none
  make_room (suc fuel) i n s =
      let (rc, s') = parse_ibuf i (get_elem? s.items i) s in
      let rest = make_room fuel i n s' in
      if fits (get_elem? s.items i) n
      then some (pos 0, s)
      else if is_neg rc
      then some (rc, s')
      else rest

  unfoldable pub then_parse : ℕ → Option (Iocp W) → Option (Iocp W)
  unfolding parse_ibuf if_negative
  then_parse i none = none
  then_parse i (some s) =
      let (rc, s') = parse_ibuf i (get_elem? s.items i) s in
      some (if_negative rc i (get_elem? s'.items i) s')

  unfoldable pub on_room : ℕ → Bytes → Option (ℤ × Iocp W) → Option (Iocp W)
  unfolding store then_parse if_negative
  on_room i buf none = none
  on_room i buf (some (negsuc n, s)) = some (if_negative (negsuc n) i (get_elem? s.items i) s)
  on_room i buf (some (pos n, s)) = then_parse i (store i (get_elem? s.items i) buf s)

  -- A read is done.
  unfoldable pub read_done : ℕ → ℕ → Item → Bytes → Iocp W → Option (Iocp W)
  unfolding on_first on_room make_room call_on_data set_item
  read_done fuel i x buf s =
      let s' = set_item i (λ y. record y { ibytes = y.ibytes + length buf }) s in
      let first = on_first i (call_on_data x.on_data x.arg buf s') in
      let more = on_room i buf (make_room fuel i (length buf) s') in
      if length x.ibuf == 0 then first else more

  -- A write is done: what was not written is queued again.
  unfoldable pub write_done : ℕ → Item → Ol → ℕ → Iocp W → Iocp W
  unfolding set_item post
  write_done i x ol n s =
      if n == length ol.buf
      then s
      else post (wm_rm x.id in_out) (
          set_item i
            (λ y. record y {
              obytes = y.obytes + n;
              obuf = y.obuf ++ record ol { buf = drop n ol.buf } ∷ [];
            })
            s)

  -- An overlapped operation of item i: `buf` holds what was read, and `n` counts what was transferred.
  unfoldable pub io_at : ℕ → Option ℕ → Option Item → Ol → ℕ → Bytes → ℕ → Iocp W → Option (Iocp W)
  unfolding read_done write_done item_on_error set_item
  io_at fuel (some i) (some x) ol n buf err s =
      let x' : Item = record x { err = sys err } in
      let read = read_done fuel i x buf s in
      if n == 0
      then some (item_on_error i x' (set_item i (λ y. record y { err = sys err }) s))
      else if ol.ptr == 0
      then read
      else some (write_done i x ol n s)
  io_at fuel (some i) none ol n buf err s = some (record s { n_dmsg1 = s.n_dmsg1 + 1 })
  io_at fuel none x ol n buf err s = some (record s { n_dmsg1 = s.n_dmsg1 + 1 })

  unfoldable pub then_del : Ol → Option (Iocp W) → Option (Iocp W)
  unfolding ol_del
  then_del ol (some s) = some (ol_del ol s)
  then_del ol none = none

  -- HP_IOCP_WM_IO: the hp_iocp_ol is freed at the end, whatever was done with it.
  unfoldable pub handle_io : ℕ → Ol → ℕ → Bytes → ℕ → Iocp W → Option (Iocp W)
  unfolding io_at then_del item_find
  handle_io fuel ol n buf err s =
      then_del ol (io_at fuel (item_find s ol.id) (item_at s (item_find s ol.id)) ol n buf err s)
