-- ===== src/Iocp/Handling.antt =====
-- The messages to the user's thread in src/hp_iocp.c keep the polling thread in step with the table.
use libhp.Common.{
  ℕ, ◌+◌, ◌<◌, ◌≡◌, refl, sym, ap, ◌∙◌, inl, inr, Bool-cases, Bool, true, ◌||◌, not, Option, none,
  some, List, [], ◌∷◌, ◌++◌, arith, length, map, get_elem?, subst, Bytes,
}
use libhp.Iocp.Search.{nth, IsAscending}
use libhp.Iocp.Data.{
  Fn, user, default, Flags, no_flags, Err, sys, flagged, is_err, Ol, Item, wm_rm, Iocp, remove_at,
  ids, set_item, post, ol_del,
}
use libhp.Iocp.Messages.{
  Env, call_on_error, item_on_error, on_sent, do_write, if_failed, on_flags, fd_at, handle_fd,
}
use libhp.Iocp.Poller.{Polld}
use libhp.Iocp.Order.{remove_at-IsAscending, remove_at-below, map-remove_at, nth-map}
use libhp.Iocp.Same.{Same, Same-Synced, same_refl, same_trans, set_item-Same, ol_del-Same}
use libhp.Common.Int.{ℤ}
use libhp.Iocp.Items.{iocp_rm, iocp_write}
use libhp.Iocp.Protocol.{iocp_rm-Synced, iocp_write-Synced}
use libhp.Iocp.Sync.{Follows, Synced, follow_removal}

-- What a callback may do: change the client's own state, write to items, and have items removed, in any order.
pub data Calls {W : Type 0} (s : Iocp W) : Iocp W → Type 0 where
  returns : Calls s s
  changes : (w : W) {s' : Iocp W} → Calls s s' → Calls s (record s' { client = w })
  writes :
      (id data_ ptr : ℕ) (bytes : Bytes) (freecb : Option ℕ) {s' : Iocp W}
      → Calls s s'
      → Calls s (iocp_write id data_ bytes freecb ptr s').1
  removes : (id : ℤ) {s' : Iocp W} → Calls s s' → Calls s (iocp_rm id s').1

-- Clients whose `on_data` does only that, and whose `on_error` neither adds nor takes out items nor posts
-- messages.
pub record IsOrderly {W : Type 0} (env : Env W) : Type 0 where
  pub on_error : (f arg : ℕ) (err : Err) (s : Iocp W) → Same s (env.on_error f arg err s)
  pub on_data : (f arg : ℕ) (buf : Bytes) (s : Iocp W) → Calls s (env.on_data f arg buf s).2

pub Calls-Synced :
    {W : Type 0} (pds : List Polld) (s s' : Iocp W) → Calls s s' → Synced pds s → Synced pds s'
Calls-Synced pds s _ returns h = h
Calls-Synced pds s _ (changes w {s'} c) h =
    Same-Synced pds s' _ (record { same_ids = refl; same_posted = refl; same_ioid = refl })
      (Calls-Synced pds s s' c h)
Calls-Synced pds s _ (writes id data_ ptr bytes freecb {s'} c) h =
    iocp_write-Synced pds id data_ ptr bytes freecb s' (Calls-Synced pds s s' c h)
Calls-Synced pds s _ (removes id {s'} c) h = iocp_rm-Synced pds id s' (Calls-Synced pds s s' c h)

module _ {W : Type 0} (pds : List Polld) (env : Env W) (orderly : IsOrderly env) where
  call_on_error-Same :
      (f : Option Fn) (arg : ℕ) (err : Err) (s : Iocp W) → Same s (call_on_error env f arg err s)
  unfolding call_on_error
  call_on_error-Same (some (user f)) arg err s = orderly.on_error f arg err s
  call_on_error-Same (some default) arg err s = same_refl s
  call_on_error-Same none arg err s = same_refl s

  -- The item at index i, whose id `x` has.
  pub item_on_error-Synced :
      (i : ℕ) (x : Item) (s : Iocp W)
      → i < length (ids s)
      → nth (ids s) i ≡ x.id
      → Synced pds s
      → Synced pds (item_on_error env i x s)
  unfolding item_on_error post
  item_on_error-Synced i x s l at h =
      let s' = call_on_error env x.on_error x.arg x.err (post (wm_rm x.id no_flags) s) in
      let e = call_on_error-Same x.on_error x.arg x.err (post (wm_rm x.id no_flags) s) in
      let shrunk : map (λ y. y.id) (remove_at i s'.items) ≡ remove_at i (ids s) =
        map-remove_at (λ y. y.id) i s'.items ∙ ap (remove_at i) e.same_ids in
      record {
        ascending = subst IsAscending (sym shrunk) (remove_at-IsAscending i (ids s) l h.ascending);
        below =
            subst (λ xs. (j : ℕ) → j < length xs → nth xs j < s'.ioid) (sym shrunk)
              (λ j u. omega (arith, remove_at-below i (ids s) s.ioid l h.below j u, e.same_ioid));
        follows =
            subst (λ ms. Follows ms pds (map (λ y. y.id) (remove_at i s'.items)))
              (sym e.same_posted)
              (subst (Follows (s.posted ++ wm_rm x.id no_flags ∷ []) pds) (sym shrunk) (
                subst (λ a. Follows (s.posted ++ wm_rm a no_flags ∷ []) pds (remove_at i (ids s)))
                  at (follow_removal s.posted pds (ids s) i h.ascending l h.follows)));
      }

  pub error_at-Synced :
      (i : ℕ) (x : Item) (s : Iocp W)
      → get_elem? s.items i ≡ some x
      → Synced pds s
      → Synced pds (item_on_error env i x s)
  error_at-Synced i x s e h =
      let (at, l) = nth-map (λ y. y.id) s.items i x e in item_on_error-Synced i x s l at h

  on_sent-Same : (o : Option ℕ) (i : ℕ) (ol : Ol) (s : Iocp W) → Same s (on_sent env o i ol s).1
  unfolding on_sent
  on_sent-Same none i ol s =
      let e = set_item-Same i (λ x. record x { err = sys 0 }) s (λ x. refl) in
      record { same_ids = e.same_ids; same_posted = e.same_posted; same_ioid = e.same_ioid }
  on_sent-Same (some err) i ol s =
      same_trans s (ol_del ol s) _ (ol_del-Same ol s)
        (set_item-Same i (λ x. record x { err = sys err }) (ol_del ol s) (λ x. refl))

  do_write-Same : (i : ℕ) (ols : List Ol) (s : Iocp W) → Same s (do_write env i ols s).1
  unfolding do_write
  do_write-Same i [] s = same_refl s
  do_write-Same i (ol ∷ ols) s =
      let s' = set_item i (λ x. record x { obuf = ols }) s in
      let e = set_item-Same i (λ x. record x { obuf = ols }) s (λ x. refl) in
      same_trans s (record s' { sends = s.sends + 1 }) _
        (record { same_ids = e.same_ids; same_posted = e.same_posted; same_ioid = e.same_ioid })
        (on_sent-Same (env.sends s.sends) i ol (record s' { sends = s.sends + 1 }))

  if_failed-Synced :
      (ok : Bool) (i : ℕ) (o : Option Item) (s : Iocp W)
      → get_elem? s.items i ≡ o
      → Synced pds s
      → Synced pds (if_failed env ok i o s)
  unfolding if_failed
  if_failed-Synced ok i none s e h = h
  if_failed-Synced ok i (some x) s e h = elim (Bool-cases (not ok || is_err x.err)) [
    | inl c ↦ rw c (error_at-Synced i x s e h)
    | inr c ↦ rw c h
  ]

  on_flags-Synced :
      (i : ℕ) (x : Item) (flags : Flags) (s : Iocp W)
      → Synced pds s
      → Synced pds (on_flags env i x flags s)
  unfolding on_flags
  on_flags-Synced i x flags s h = elim (Bool-cases (flags.pollerr || flags.pollhup)) [
    | inl bad ↦ rw bad (
        if_failed-Synced true i _ _ refl (
          Same-Synced pds s _
            (set_item-Same i (λ y. record y { err = flagged flags }) s (λ y. refl)) h))
    | inr fine ↦ elim (Bool-cases flags.pollout) [
      | inl out ↦
          simp (fine, out)
            (if_failed-Synced (do_write env i x.obuf s).0 i _ _ refl
              (Same-Synced pds s _ (do_write-Same i x.obuf s) h))
      | inr no_out ↦ simp (fine, no_out) (if_failed-Synced true i _ s refl h)
    ]
  ]

  fd_at-Synced :
      (o : Option ℕ) (x : Option Item) (flags : Flags) (s : Iocp W)
      → Synced pds s
      → Synced pds (fd_at env o x flags s)
  unfolding fd_at
  fd_at-Synced (some i) (some x) flags s h = on_flags-Synced i x flags s h
  fd_at-Synced (some i) none flags s h =
      Same-Synced pds s _ (record { same_ids = refl; same_posted = refl; same_ioid = refl }) h
  fd_at-Synced none x flags s h =
      Same-Synced pds s _ (record { same_ids = refl; same_posted = refl; same_ioid = refl }) h

  pub handle_fd-Synced :
      (id : ℕ) (flags : Flags) (s : Iocp W) → Synced pds s → Synced pds (handle_fd env id flags s)
  unfolding handle_fd
  handle_fd-Synced id flags s h = fd_at-Synced _ _ flags s h
