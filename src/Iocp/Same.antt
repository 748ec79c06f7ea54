-- ===== src/Iocp/Same.antt =====
-- Operations of src/hp_iocp.c that leave the ids, the messages and the next id as they are.
use libhp.Common.{ℕ, ◌<◌, ◌≡◌, refl, sym, ◌∙◌, Option, none, some, List, length, subst}
use libhp.Iocp.Search.{nth, IsAscending}
use libhp.Iocp.Data.{Ol, Item, Iocp, ids, set_item, call_free, ol_del}
use libhp.Iocp.Poller.{Polld}
use libhp.Iocp.Order.{map-update_at}
use libhp.Iocp.Sync.{Follows, Synced}

module _ {W : Type 0} where
  -- The ids, the messages and the next id are as before.
  pub record Same (s s' : Iocp W) : Type 0 where
    pub same_ids : ids s' ≡ ids s
    pub same_posted : s'.posted ≡ s.posted
    pub same_ioid : s'.ioid ≡ s.ioid

  pub Same-Synced : (pds : List Polld) (s s' : Iocp W) → Same s s' → Synced pds s → Synced pds s'
  Same-Synced pds s s' e h = record {
    ascending = subst IsAscending (sym e.same_ids) h.ascending;
    below =
        subst (λ n. (i : ℕ) → i < length (ids s') → nth (ids s') i < n) (sym e.same_ioid)
          (subst (λ xs. (i : ℕ) → i < length xs → nth xs i < s.ioid) (sym e.same_ids) h.below);
    follows =
        subst (λ ms. Follows ms pds (ids s')) (sym e.same_posted)
          (subst (Follows s.posted pds) (sym e.same_ids) h.follows);
  }

  pub same_refl : (s : Iocp W) → Same s s
  same_refl s = record { same_ids = refl; same_posted = refl; same_ioid = refl }

  pub same_trans : (s s' s'' : Iocp W) → Same s s' → Same s' s'' → Same s s''
  same_trans s s' s'' a b = record {
    same_ids = b.same_ids ∙ a.same_ids;
    same_posted = b.same_posted ∙ a.same_posted;
    same_ioid = b.same_ioid ∙ a.same_ioid;
  }

  pub set_item-Same :
      (i : ℕ) (f : Item → Item) (s : Iocp W)
      → ((x : Item) → (f x).id ≡ x.id)
      → Same s (set_item i f s)
  unfolding set_item
  set_item-Same i f s h = record {
    same_ids = map-update_at (λ x. x.id) i f s.items h;
    same_posted = refl;
    same_ioid = refl;
  }

  pub call_free-Same : (f : Option ℕ) (ptr : ℕ) (s : Iocp W) → Same s (call_free f ptr s)
  unfolding call_free
  call_free-Same (some f) ptr s = record { same_ids = refl; same_posted = refl; same_ioid = refl }
  call_free-Same none ptr s = same_refl s

  pub ol_del-Same : (ol : Ol) (s : Iocp W) → Same s (ol_del ol s)
  unfolding ol_del
  ol_del-Same ol s =
      let e = call_free-Same ol.free ol.ptr s in
      record { same_ids = e.same_ids; same_posted = e.same_posted; same_ioid = e.same_ioid }
