-- ===== src/Iocp/Transfers.antt =====
-- Finished reads and writes in src/hp_iocp.c keep the polling thread in step with the table.
use libhp.Common.{
  ℕ, zero, suc, ◌+◌, ◌<◌, ◌≡◌, refl, sym, ap, ◌∙◌, inl, inr, Bool-cases, Option, none, some, List,
  [], ◌∷◌, ◌++◌, leb, ◌==◌, length, get_elem?, subst, Bytes,
}
use libhp.Common.Int.{ℤ, pos, negsuc, is_neg}
use libhp.Iocp.Search.{nth}
use libhp.Iocp.Data.{Fn, user, default, sys, Ol, Item, Iocp, ids, set_item}
use libhp.Iocp.Items.{item_at}
use libhp.Iocp.Messages.{
  Env, call_on_data, store, if_negative, on_first, on_buffered, parse_ibuf, fits, make_room,
  then_parse, on_room, read_done, write_done, io_at, then_del, handle_io,
}
use libhp.Iocp.Poller.{Polld}
use libhp.Iocp.Order.{nth-map}
use libhp.Iocp.Same.{Same-Synced, set_item-Same, ol_del-Same}
use libhp.Iocp.Sync.{Synced}
use libhp.Iocp.Protocol.{ask_after-Synced}
use libhp.Iocp.Handling.{IsOrderly, Calls-Synced, item_on_error-Synced, error_at-Synced}

module _ {W : Type 0} (pds : List Polld) (env : Env W) (orderly : IsOrderly env) where
  -- Where the code returns, the threads are in step.
  abbrev pub SyncedIf : Option (Iocp W) → Type 0
  SyncedIf none = Unit
  SyncedIf (some s) = Synced pds s

  abbrev SyncedPair : Option (ℤ × Iocp W) → Type 0
  SyncedPair none = Unit
  SyncedPair (some (rc, s)) = Synced pds s

  call_on_data-Synced :
      (f : Option Fn) (arg : ℕ) (buf : Bytes) (s : Iocp W)
      → Synced pds s
      → Synced pds (call_on_data env f arg buf s).2
  unfolding call_on_data
  call_on_data-Synced (some (user f)) arg buf s h =
      Calls-Synced pds s _ (orderly.on_data f arg buf s) h
  call_on_data-Synced (some default) arg buf s h = h
  call_on_data-Synced none arg buf s h = h

  store-Synced :
      (i : ℕ) (o : Option Item) (buf : Bytes) (s : Iocp W)
      → Synced pds s
      → SyncedIf (store env i o buf s)
  unfolding store
  store-Synced i none buf s h = tt
  store-Synced i (some x) buf s h =
      elim (Bool-cases (leb (length x.ibuf + length buf) x.ibuf_cap)) [
        | inl fit ↦ rw fit (
            Same-Synced pds s _
              (set_item-Same i (λ y. record y { ibuf = y.ibuf ++ buf }) s (λ y. refl)) h)
        | inr past ↦ rw past tt
      ]

  if_negative-Synced :
      (rc : ℤ) (i : ℕ) (o : Option Item) (s : Iocp W)
      → get_elem? s.items i ≡ o
      → Synced pds s
      → Synced pds (if_negative env rc i o s)
  unfolding if_negative
  if_negative-Synced (negsuc n) i (some x) s e h = error_at-Synced pds env orderly i x s e h
  if_negative-Synced (negsuc n) i none s e h = h
  if_negative-Synced (pos n) i o s e h = h

  on_first-Synced : (i : ℕ) (r : ℤ × Bytes × Iocp W) → Synced pds r.2 → SyncedIf (on_first env i r)
  unfolding on_first
  on_first-Synced i (pos n, [], s) h = h
  on_first-Synced i (pos n, b ∷ bs, s) h = store-Synced i _ (b ∷ bs) s h
  on_first-Synced i (negsuc n, buf, s) h = if_negative-Synced (negsuc n) i _ s refl h

  parse_ibuf-Synced :
      (i : ℕ) (o : Option Item) (s : Iocp W) → Synced pds s → Synced pds (parse_ibuf env i o s).1
  unfolding parse_ibuf on_buffered
  parse_ibuf-Synced i none s h = h
  parse_ibuf-Synced i (some x) s h =
      let (rc, buf, s') = call_on_data env x.on_data x.arg x.ibuf s in
      Same-Synced pds s' _ (set_item-Same i (λ y. record y { ibuf = buf }) s' (λ y. refl))
        (call_on_data-Synced x.on_data x.arg x.ibuf s h)

  make_room-Synced :
      (fuel i n : ℕ) (s : Iocp W) → Synced pds s → SyncedPair (make_room env fuel i n s)
  unfolding make_room
  make_room-Synced zero i n s h = tt
  make_room-Synced (suc fuel) i n s h = elim (Bool-cases (fits env (get_elem? s.items i) n)) [
    | inl fit ↦ rw fit h
    | inr tight ↦ elim (Bool-cases (is_neg (parse_ibuf env i (get_elem? s.items i) s).0)) [
      | inl bad ↦ rw (tight, bad) parsed
      | inr fine ↦ rw (tight, fine) (make_room-Synced fuel i n _ parsed)
    ]
  ]
    where
      parsed : Synced pds (parse_ibuf env i (get_elem? s.items i) s).1
      parsed = parse_ibuf-Synced i (get_elem? s.items i) s h

  then_parse-Synced : (i : ℕ) (o : Option (Iocp W)) → SyncedIf o → SyncedIf (then_parse env i o)
  unfolding then_parse
  then_parse-Synced i none h = tt
  then_parse-Synced i (some s) h =
      if_negative-Synced _ i _ (parse_ibuf env i (get_elem? s.items i) s).1 refl
        (parse_ibuf-Synced i (get_elem? s.items i) s h)

  on_room-Synced :
      (i : ℕ) (buf : Bytes) (o : Option (ℤ × Iocp W))
      → SyncedPair o
      → SyncedIf (on_room env i buf o)
  unfolding on_room
  on_room-Synced i buf none h = tt
  on_room-Synced i buf (some (negsuc n, s)) h = if_negative-Synced (negsuc n) i _ s refl h
  on_room-Synced i buf (some (pos n, s)) h =
      then_parse-Synced i (store env i (get_elem? s.items i) buf s) (store-Synced i _ buf s h)

  read_done-Synced :
      (fuel i : ℕ) (x : Item) (buf : Bytes) (s : Iocp W)
      → Synced pds s
      → SyncedIf (read_done env fuel i x buf s)
  unfolding read_done
  read_done-Synced fuel i x buf s h = elim (Bool-cases (length x.ibuf == 0)) [
    | inl first ↦ rw first (on_first-Synced i _ (call_on_data-Synced x.on_data x.arg buf _ counted))
    | inr more ↦ rw more (on_room-Synced i buf _ (make_room-Synced fuel i (length buf) _ counted))
  ]
    where
      counted : Synced pds (set_item i (λ y. record y { ibytes = y.ibytes + length buf }) s)
      counted =
          Same-Synced pds s _
            (set_item-Same i (λ y. record y { ibytes = y.ibytes + length buf }) s (λ y. refl)) h

  write_done-Synced :
      (i n : ℕ) (x : Item) (ol : Ol) (s : Iocp W)
      → i < length (ids s)
      → nth (ids s) i ≡ x.id
      → Synced pds s
      → Synced pds (write_done env i x ol n s)
  unfolding write_done
  write_done-Synced i n x ol s l at h = elim (Bool-cases (n == length ol.buf)) [
    | inl all ↦ rw all h
    | inr part ↦ rw part (ask_after-Synced pds i x.id s _ (set_item-Same i _ s (λ y. refl)) l at h)
  ]

  io_at-Synced :
      (fuel n err : ℕ) (o : Option ℕ) (x : Option Item) (ol : Ol) (buf : Bytes) (s : Iocp W)
      → item_at s o ≡ x
      → Synced pds s
      → SyncedIf (io_at env fuel o x ol n buf err s)
  unfolding io_at
  io_at-Synced fuel n err none x ol buf s e h =
      Same-Synced pds s _ (record { same_ids = refl; same_posted = refl; same_ioid = refl }) h
  io_at-Synced fuel n err (some i) none ol buf s e h =
      Same-Synced pds s _ (record { same_ids = refl; same_posted = refl; same_ioid = refl }) h
  io_at-Synced fuel n err (some i) (some x) ol buf s e h =
      let (at, l) = nth-map (λ y. y.id) s.items i x e in
      let same = set_item-Same i (λ y. record y { err = sys err }) s (λ y. refl) in
      elim (Bool-cases (n == 0)) [
        | inl failed ↦ rw failed (
            item_on_error-Synced pds env orderly i (record x { err = sys err }) _
              (subst (λ xs. i < length xs) (sym same.same_ids) l)
              (ap (λ xs. nth xs i) same.same_ids ∙ at) (Same-Synced pds s _ same h))
        | inr some_bytes ↦ elim (Bool-cases (ol.ptr == 0)) [
          | inl read ↦ rw (some_bytes, read) (read_done-Synced fuel i x buf s h)
          | inr write ↦ rw (some_bytes, write) (write_done-Synced i n x ol s l at h)
        ]
      ]

  then_del-Synced : (ol : Ol) (o : Option (Iocp W)) → SyncedIf o → SyncedIf (then_del env ol o)
  unfolding then_del
  then_del-Synced ol none h = tt
  then_del-Synced ol (some s) h = Same-Synced pds s _ (ol_del-Same ol s) h

  pub handle_io-Synced :
      (fuel n err : ℕ) (ol : Ol) (buf : Bytes) (s : Iocp W)
      → Synced pds s
      → SyncedIf (handle_io env fuel ol n buf err s)
  unfolding handle_io
  handle_io-Synced fuel n err ol buf s h =
      then_del-Synced ol _ (io_at-Synced fuel n err _ _ ol buf s refl h)
