-- ===== src/Iocp/Own.antt =====
-- hp_iocp_write of src/hp_iocp.c takes the buffer: it is queued, or freed at once.
use libhp.Common.{
  ℕ, ◌+◌, ◌≡◌, refl, sym, ◌∙◌, inl, inr, Bool-cases, true, false, ◌||◌, Option, none, some, [], ◌∷◌,
  ◌++◌, ◌==◌, if◌then◌else◌, get_elem?, length, Bytes,
}
use libhp.Common.Int.{ℤ, pos, negsuc, is_neg}
use libhp.Iocp.Search.{IsAscending, bsearch, bsearch-hit}
use libhp.Iocp.Data.{
  Item, wm_rm, in_out, Iocp, update_at, ids, item_find, set_item, post, call_free, ol_newo,
}
use libhp.Iocp.Items.{is_removed, item_at, write_failed, enqueue, write_to, iocp_write}
use libhp.Iocp.Order.{nth-map}

-- How a call ends.
pub data Owned {W : Type 0} (id data_ : ℕ) (bytes : Bytes) (freecb : Option ℕ) (ptr : ℕ)
    (s : Iocp W) : ℤ × Iocp W → Type 0 where
  freed_at_once :
      (rc : ℤ)
      → is_neg rc ≡ true
      → Owned id data_ bytes freecb ptr s (rc, call_free freecb (if ptr == 0 then data_ else ptr) s)
  queued :
      (i : ℕ) (x : Item)
      → get_elem? s.items i ≡ some x
      → x.id ≡ id
      → is_removed x ≡ false
      → Owned id data_ bytes freecb ptr s (
        pos 0,
        record s {
          items =
              update_at i
                (λ y. record y { obuf = y.obuf ++ ol_newo id data_ bytes freecb ptr s ∷ [] })
                s.items;
          posted = s.posted ++ wm_rm id in_out ∷ [];
          next = s.next + 1;
        },
      )

module _ {W : Type 0} (id data_ : ℕ) (bytes : Bytes) (freecb : Option ℕ) (ptr : ℕ)
    (s : Iocp W) where
  write_to-Owned :
      (o : Option ℕ) (x : Option Item)
      → item_at s o ≡ x
      → IsAscending (ids s)
      → bsearch (ids s) id ≡ o
      → Owned id data_ bytes freecb ptr s (write_to o x id data_ bytes freecb ptr s)
  unfolding write_to enqueue set_item post write_failed
  write_to-Owned none x e asc f = freed_at_once (negsuc 1) refl
  write_to-Owned (some i) none e asc f = freed_at_once (negsuc 1) refl
  write_to-Owned (some i) (some x) e asc f = elim (Bool-cases (is_removed x)) [
    | inl r ↦ rw r (freed_at_once (negsuc 1) refl)
    | inr r ↦ rw r (
        queued i x e
          (sym (nth-map (λ y. y.id) s.items i x e).0 ∙ (bsearch-hit (ids s) id i asc f).1) r)
  ]

  -- On ascending ids: hp_iocp_write returns a code below 0 and calls `free`, if it is given, on `ptr`, or on the data if
  -- that is NULL, and changes nothing else; or it returns 0, and the buffer is the last in the queue of the item
  -- of the id, which was not removed, and the polling thread is asked for POLLOUT.
  pub iocp_write-Owned :
      IsAscending (ids s)
      → Owned id data_ bytes freecb ptr s (iocp_write id data_ bytes freecb ptr s)
  unfolding iocp_write write_failed item_find
  iocp_write-Owned asc = elim (Bool-cases ((data_ == 0) || (length bytes == 0))) [
    | inl c ↦ rw c (freed_at_once (negsuc 0) refl)
    | inr c ↦ rw c (write_to-Owned (bsearch (ids s) id) _ refl asc refl)
  ]
