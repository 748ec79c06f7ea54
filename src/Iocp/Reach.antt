-- ===== src/Iocp/Reach.antt =====
-- Every run of src/hp_iocp.c on connections: whatever order the operations come in, the polling thread is in
-- step with the table.
use libhp.Common.{
  ℕ, ◌≡◌, refl, subst, Bool, false, ◌==◌, Option, some, List, [], get_elem?, Bytes, arith,
}
use libhp.Common.Int.{ℤ}
use libhp.Iocp.Search.{nth, IsAscending}
use libhp.Iocp.Data.{Flags, Ol, Item, Iocp, ids}
use libhp.Iocp.Items.{Adding, is_set, last_id, iocp_add, iocp_rm, iocp_write}
use libhp.Iocp.Messages.{Env, item_on_error, handle_fd, handle_io}
use libhp.Iocp.Run.{Config, empty_iocp}
use libhp.Iocp.Poller.{Polld, poll_ids, on_msgs}
use libhp.Iocp.Sync.{Synced}
use libhp.Iocp.Protocol.{iocp_add-Synced, iocp_rm-Synced, iocp_write-Synced}
use libhp.Iocp.Handling.{IsOrderly, error_at-Synced, handle_fd-Synced}
use libhp.Iocp.Transfers.{SyncedIf, handle_io-Synced}

module _ {W : Type 0} (env : Env W) where
  -- An operation of the user's thread. An item that is added is a connection, and the ids have not come to
  -- their end.
  pub data Step : Iocp W → Iocp W → Type 0 where
    adds :
        (bound : Bool) (a : Adding) (s : Iocp W)
        → is_set a.on_accept ≡ false
        → (s.ioid == last_id) ≡ false
        → Step s (iocp_add bound a s).1
    removes : (id : ℤ) (s : Iocp W) → Step s (iocp_rm id s).1
    writes :
        (id data_ ptr : ℕ) (bytes : Bytes) (freecb : Option ℕ) (s : Iocp W)
        → Step s (iocp_write id data_ bytes freecb ptr s).1
    readies : (id : ℕ) (flags : Flags) (s : Iocp W) → Step s (handle_fd env id flags s)
    transfers :
        (fuel n err : ℕ) (ol : Ol) (buf : Bytes) (s s' : Iocp W)
        → handle_io env fuel ol n buf err s ≡ some s'
        → Step s s'
    ends :
        (i : ℕ) (x : Item) (s : Iocp W)
        → get_elem? s.items i ≡ some x
        → Step s (item_on_error env i x s)

  pub data Reaches (s : Iocp W) : Iocp W → Type 0 where
    start : Reaches s s
    further : {s' s'' : Iocp W} → Reaches s s' → Step s' s'' → Reaches s s''

module _ {W : Type 0} (env : Env W) (orderly : IsOrderly env) where
  at_some :
      (o : Option (Iocp W)) (s : Iocp W) → o ≡ some s → SyncedIf [] env orderly o → Synced [] s
  at_some o s e h = subst (SyncedIf [] env orderly) e h

  step-Synced : (s s' : Iocp W) → Step env s s' → Synced [] s → Synced [] s'
  step-Synced _ _ (adds bound a s conn room) h = iocp_add-Synced [] bound a s conn room h
  step-Synced _ _ (removes id s) h = iocp_rm-Synced [] id s h
  step-Synced _ _ (writes id data_ ptr bytes freecb s) h =
      iocp_write-Synced [] id data_ ptr bytes freecb s h
  step-Synced _ _ (readies id flags s) h = handle_fd-Synced [] env orderly id flags s h
  step-Synced _ _ (transfers fuel n err ol buf s s' e) h =
      at_some _ s' e (handle_io-Synced [] env orderly fuel n err ol buf s h)
  step-Synced _ _ (ends i x s e) h = error_at-Synced [] env orderly i x s e h

  Reaches-Synced : (s s' : Iocp W) → Reaches env s s' → Synced [] s → Synced [] s'
  Reaches-Synced s _ start h = h
  Reaches-Synced s _ (further {s'} {s''} r t) h = step-Synced s' s'' t (Reaches-Synced s s' r h)

empty-Synced : {W : Type 0} (c : Config) (w : W) → Synced [] (empty_iocp c w)
unfolding on_msgs nth
empty-Synced c w = record {
  ascending = λ i j l h. ground (arith, h);
  below = λ i h. ground (arith, h);
  follows = record { pds' = []; applied = refl; same = refl };
}

pub posted_in_step :
    {W : Type 0} (env : Env W) (c : Config) (w : W) (s : Iocp W)
    → IsOrderly env
    → Reaches env (empty_iocp c w) s
    → IsAscending (ids s)
      × ((pds : List Polld) × (on_msgs s.posted [] ≡ some pds) × (poll_ids pds ≡ ids s))
posted_in_step env c w s orderly r =
    let h = Reaches-Synced env orderly (empty_iocp c w) s r (empty-Synced c w) in
    (h.ascending, (h.follows.pds', h.follows.applied, h.follows.same))
