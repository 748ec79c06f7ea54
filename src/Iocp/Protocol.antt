-- ===== src/Iocp/Protocol.antt =====
-- The operations of src/hp_iocp.c on connections keep the polling thread in step with the table.
use libhp.Common.{
  ℕ, ◌+◌, ◌<◌, ◌≡◌, refl, sym, ap, ◌∙◌, inl, inr, Bool-cases, Bool, true, false, ◌||◌, Option, none,
  some, List, [], ◌∷◌, ◌++◌, arith, ◌==◌, length, subst, Bytes,
}
use libhp.Common.Int.{ℤ, pos, negsuc}
use libhp.Iocp.Search.{nth, IsAscending, bsearch, bsearch-hit}
use libhp.Iocp.Data.{in_out, Item, wm_add, wm_rm, Iocp, ids, item_find, post, ol_newo}
use libhp.Iocp.Items.{
  Adding, is_set, last_id, fresh_item, announce, append_item, add_new, renew, add_at, add_socket,
  iocp_add, rm_at, iocp_rm, reset, is_removed, write_failed, enqueue, write_to, iocp_write,
}
use libhp.Iocp.Poller.{Polld}
use libhp.Iocp.Order.{append-IsAscending, append-below, map-append_one}
use libhp.Iocp.Same.{Same, Same-Synced, set_item-Same, call_free-Same}
use libhp.Iocp.Sync.{Follows, Synced, follow_add, follow_flags}

module _ {W : Type 0} (pds : List Polld) where
  append-Synced :
      (x : Item) (s : Iocp W)
      → is_set x.on_accept ≡ false
      → x.id ≡ s.ioid
      → Synced pds s
      → Synced pds (append_item true x s).1
  unfolding append_item announce post
  append-Synced x s conn e h =
      let low : (i : ℕ) → i < length (ids s) → nth (ids s) i < x.id =
        λ i l. omega (arith, h.below i l, e) in
      let grown : ids (append_item true x s).1 ≡ ids s ++ x.id ∷ [] =
        map-append_one (λ y. y.id) s.items x in
      simp (conn) (record {
        ascending = subst IsAscending (sym grown) (append-IsAscending (ids s) x.id h.ascending low);
        below =
            subst (λ xs. (i : ℕ) → i < length xs → nth xs i < s.ioid + 1) (sym grown)
              (λ i l. omega (arith, append-below (ids s) x.id low i l, e));
        follows =
            subst (Follows (s.posted ++ wm_add x.id x.fd ∷ []) pds) (sym grown)
              (follow_add s.posted x.id x.fd pds (ids s) h.ascending low h.follows);
      })

  bound_or_not :
      (bound : Bool) (x : Item) (s : Iocp W)
      → is_set x.on_accept ≡ false
      → x.id ≡ s.ioid
      → Synced pds s
      → Synced pds (append_item bound x s).1
  unfolding append_item
  bound_or_not true x s conn e h = append-Synced x s conn e h
  bound_or_not false x s conn e h = h

  add_new-Synced :
      (bound : Bool) (fd : ℕ) (a : Adding) (s : Iocp W)
      → is_set a.on_accept ≡ false
      → (s.ioid == last_id) ≡ false
      → Synced pds s
      → Synced pds (add_new bound fd a s).1
  unfolding add_new
  add_new-Synced bound fd a s conn e h = elim (Bool-cases (length s.items == s.cap)) [
    | inl full ↦ rw full h
    | inr room ↦ rw (room, e) (bound_or_not bound (fresh_item s.ioid fd a) s conn refl h)
  ]

  add_at-Synced :
      (o : Option ℕ) (bound : Bool) (fd : ℕ) (a : Adding) (s : Iocp W)
      → is_set a.on_accept ≡ false
      → (s.ioid == last_id) ≡ false
      → Synced pds s
      → Synced pds (add_at o bound fd a s).1
  unfolding add_at renew
  add_at-Synced none bound fd a s conn e h = add_new-Synced bound fd a s conn e h
  add_at-Synced (some i) bound fd a s conn e h =
      Same-Synced pds s _ (set_item-Same i (renew a) s (λ x. refl)) h

  add_socket-Synced :
      (o : Option ℕ) (bound : Bool) (a : Adding) (s : Iocp W)
      → is_set a.on_accept ≡ false
      → (s.ioid == last_id) ≡ false
      → Synced pds s
      → Synced pds (add_socket o bound a s).1
  unfolding add_socket
  add_socket-Synced none bound a s conn e h = h
  add_socket-Synced (some fd) bound a s conn e h = add_at-Synced _ bound fd a s conn e h

  pub iocp_add-Synced :
      (bound : Bool) (a : Adding) (s : Iocp W)
      → is_set a.on_accept ≡ false
      → (s.ioid == last_id) ≡ false
      → Synced pds s
      → Synced pds (iocp_add bound a s).1
  unfolding iocp_add
  iocp_add-Synced bound a s conn e h = elim (Bool-cases (is_set a.on_data || is_set a.on_accept)) [
    | inl c ↦ rw c (add_socket-Synced a.fd bound a s conn e h)
    | inr c ↦ rw c h
  ]

  rm_at-Synced : (o : Option ℕ) (s : Iocp W) → Synced pds s → Synced pds (rm_at o s).1
  unfolding rm_at reset
  rm_at-Synced (some i) s h = Same-Synced pds s _ (set_item-Same i reset s (λ x. refl)) h
  rm_at-Synced none s h = h

  pub iocp_rm-Synced : (id : ℤ) (s : Iocp W) → Synced pds s → Synced pds (iocp_rm id s).1
  unfolding iocp_rm
  iocp_rm-Synced (pos id) s h = rm_at-Synced _ s h
  iocp_rm-Synced (negsuc n) s h = h

  -- Events are asked for, for an item that is there.
  ask-Synced :
      (i id : ℕ) (s : Iocp W)
      → i < length (ids s)
      → nth (ids s) i ≡ id
      → Synced pds s
      → Synced pds (post (wm_rm id in_out) s)
  unfolding post
  ask-Synced i id s l e h = record {
    ascending = h.ascending;
    below = h.below;
    follows =
        subst (λ a. Follows (s.posted ++ wm_rm a in_out ∷ []) pds (ids s)) e
          (follow_flags s.posted in_out pds (ids s) i refl h.ascending l h.follows);
  }

  pub ask_after-Synced :
      (i id : ℕ) (s s' : Iocp W)
      → Same s s'
      → i < length (ids s)
      → nth (ids s) i ≡ id
      → Synced pds s
      → Synced pds (post (wm_rm id in_out) s')
  ask_after-Synced i id s s' same l e h =
      ask-Synced i id s' (subst (λ xs. i < length xs) (sym same.same_ids) l)
        (ap (λ xs. nth xs i) same.same_ids ∙ e) (Same-Synced pds s s' same h)

  failed-Synced :
      (rc : ℤ) (data_ ptr : ℕ) (freecb : Option ℕ) (s : Iocp W)
      → Synced pds s
      → Synced pds (write_failed rc data_ freecb ptr s).1
  unfolding write_failed
  failed-Synced rc data_ ptr freecb s h = Same-Synced pds s _ (call_free-Same freecb _ s) h

  write_to-Synced :
      (o : Option ℕ) (x : Option Item) (id data_ ptr : ℕ) (bytes : Bytes) (freecb : Option ℕ)
      (s : Iocp W)
      → bsearch (ids s) id ≡ o
      → Synced pds s
      → Synced pds (write_to o x id data_ bytes freecb ptr s).1
  unfolding write_to enqueue
  write_to-Synced none x id data_ ptr bytes freecb s e h =
      failed-Synced (negsuc 1) data_ ptr freecb s h
  write_to-Synced (some i) none id data_ ptr bytes freecb s e h =
      failed-Synced (negsuc 1) data_ ptr freecb s h
  write_to-Synced (some i) (some x) id data_ ptr bytes freecb s e h =
      let (l, at) = bsearch-hit (ids s) id i h.ascending e in
      let queued =
        set_item-Same i
          (λ y. record y { obuf = y.obuf ++ ol_newo id data_ bytes freecb ptr s ∷ [] })
          (record s { next = s.next + 1 }) (λ y. refl) in
      elim (Bool-cases (is_removed x)) [
        | inl r ↦ rw r (failed-Synced (negsuc 1) data_ ptr freecb s h)
        | inr r ↦ rw r (
            ask_after-Synced i id s _
              (record {
                same_ids = queued.same_ids;
                same_posted = queued.same_posted;
                same_ioid = queued.same_ioid;
              })
              l at h)
      ]

  pub iocp_write-Synced :
      (id data_ ptr : ℕ) (bytes : Bytes) (freecb : Option ℕ) (s : Iocp W)
      → Synced pds s
      → Synced pds (iocp_write id data_ bytes freecb ptr s).1
  unfolding iocp_write item_find
  iocp_write-Synced id data_ ptr bytes freecb s h =
      elim (Bool-cases ((data_ == 0) || (length bytes == 0))) [
        | inl c ↦ rw c (failed-Synced (negsuc 0) data_ ptr freecb s h)
        | inr c ↦ rw c (write_to-Synced _ _ id data_ ptr bytes freecb s refl h)
      ]
