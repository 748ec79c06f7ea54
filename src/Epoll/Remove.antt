-- ===== src/Epoll/Remove.antt =====
-- hp_epoll_rm of src/hp_epoll.c frees and takes out one entry, and leaves the kernel no dangling pointer.
use libhp.Common.{
  ℕ, suc, ◌+◌, ◌-◌, ◌≤◌, ◌<◌, ◌≡◌, ◌≢◌, refl, sym, ap, ◌∙◌, inl, inr, Bool-cases, true, false,
  Option, none, some, arith, ltb, if◌then◌else◌, slots, lfind, Search, absent, found, lfind-Search,
  slots-close_up, any, remove_first, Spot-remove_first, Spot-any, remove_first-absent,
}
use libhp.Common.Int.{ℤ, pos, negsuc, int_eq, int_eq_refl, int_eq_sound}
use libhp.Epoll.{
  Epoll, ctl_del, Ctl, node_has_fd, has_fd, find_fd, close_up, rm_at, epoll_rm, in_out,
}
use libhp.Epoll.Table.{
  cell, entries, IsValid, IsEpoll, InTable, NoDangling, FirstOf, search-FirstOf, any-absent,
  close_up-ed_before, close_up-ed_after, close_up-node, close_up-sizes, node_has_fd-same,
}

module _ (epo : Epoll) (k : ℕ) (v : IsValid epo) (u : k < epo.ev_len) where
  -- The cell that an entry has after the removal, by its old index.
  abbrev new_index : ℕ → ℕ
  new_index i = if ltb i k then i else i - 1

  ed-before : (j : ℕ) → j < k → cell (close_up k epo) j ≡ cell epo j
  ed-before j l =
      ap (close_up k epo).nodes (close_up-ed_before epo k j l)
      ∙ close_up-node epo k (epo.ed j) (λ e. omega (arith, v.apart j k (omega arith) u e))

  ed-after : (j : ℕ) → k ≤ j → suc j < epo.ev_len → cell (close_up k epo) j ≡ cell epo (j + 1)
  ed-after j l h =
      ap (close_up k epo).nodes (close_up-ed_after epo k j l h)
      ∙ close_up-node epo k (epo.ed (j + 1))
          (λ e. omega (arith, v.apart (j + 1) k (omega arith) u e))

  -- Each entry after the removal is an entry before it.
  old_index :
      (j : ℕ)
      → suc j < epo.ev_len
      → (i : ℕ) × (i < epo.ev_len)
        × ((close_up k epo).ed j ≡ epo.ed i)
        × (cell (close_up k epo) j ≡ cell epo i)
        × (i ≡ (if ltb j k then j else j + 1))
  old_index j h = elim (Bool-cases (ltb j k)) [
    | inl l ↦ (
      j,
      omega arith,
      close_up-ed_before epo k j (ground arith),
      ed-before j (ground arith),
      rw l refl,
    )
    | inr l ↦ (
      j + 1,
      omega arith,
      close_up-ed_after epo k j (ground arith) h,
      ed-after j (ground arith) h,
      rw l refl,
    )
  ]

  -- Where an entry other than entry k is after the removal.
  kept :
      (i : ℕ)
      → i < epo.ev_len
      → i ≢ k
      → (new_index i < epo.ev_len - 1)
        × ((close_up k epo).ed (new_index i) ≡ epo.ed i)
        × (cell (close_up k epo) (new_index i) ≡ cell epo i)
  kept i l ne = elim (Bool-cases (ltb i k)) [
    | inl b ↦
        rw b (omega (arith, le_of b), close_up-ed_before epo k i (le_of b), ed-before i (le_of b))
    | inr b ↦ rw b (
      omega arith,
      close_up-ed_after epo k (i - 1) (ground arith) (ground arith) ∙ ap epo.ed (ground arith),
      ed-after (i - 1) (ground arith) (ground arith) ∙ ap (cell epo) (ground arith),
    )
  ]
    where
      le_of : ltb i k ≡ true → i < k
      le_of b = ground arith

  close_up-IsValid : IsValid (close_up k epo)
  close_up-IsValid = record {
    allocated = (close_up-sizes epo k).2 ∙ v.allocated;
    fits = omega (arith, close_up-sizes epo k, v.fits);
    live = λ j l.
        let (i, il, ie, ic, iq) = old_index j (omega (arith, close_up-sizes epo k)) in
        ((v.live i il).0, ic ∙ (v.live i il).1);
    old = λ j l.
        let (i, il, ie, ic, iq) = old_index j (omega (arith, close_up-sizes epo k)) in
        omega (arith, ie, v.old i il, close_up-sizes epo k);
    apart = λ j j' l l' e.
        let (i, il, ie, ic, iq) = old_index j (omega (arith, close_up-sizes epo k)) in
        let (i', il', ie', ic', iq') = old_index j' (omega (arith, close_up-sizes epo k)) in
        let same : i ≡ i' = v.apart i i' il il' (sym ie ∙ e ∙ ie') in
        index_inj j j' (sym iq ∙ same ∙ iq');
  }
    where
      index_inj :
          (j j' : ℕ) → (if ltb j k then j else j + 1) ≡ (if ltb j' k then j' else j' + 1) → j ≡ j'
      index_inj j j' e = ground arith

  close_up-entries :
      (fd : ℤ)
      → FirstOf epo fd k
      → entries (close_up k epo) ≡ remove_first (node_has_fd fd) (entries epo)
  close_up-entries fd spot =
      ap (slots (cell (close_up k epo)) 0) (close_up-sizes epo k).0
      ∙ slots-close_up (cell epo) (cell (close_up k epo)) 0 epo.ev_len k spot.low spot.high
          (λ j l h. ed-before j h) (λ j l h. ed-after j l (omega arith))
      ∙ sym (Spot-remove_first (node_has_fd fd) (cell epo) 0 epo.ev_len k spot)

close_up-InTable :
    (epo : Epoll) (k : ℕ) (fd fd' : ℤ) (ptr : ℕ)
    → IsValid epo
    → FirstOf epo fd k
    → int_eq fd' fd ≡ false
    → InTable epo fd' ptr
    → InTable (close_up k epo) fd' ptr
close_up-InTable epo k fd fd' ptr v spot ne t =
    let cell_is : cell epo t.index ≡ epo.nodes ptr = ap epo.nodes t.points in
    let other : t.index ≢ k = λ e. other_fd (
      node_has_fd-same fd' fd (cell epo k)
        (ap (node_has_fd fd') (ap (cell epo) (sym e) ∙ cell_is) ∙ t.matches) spot.hit) in
    let (l, p, c) = kept epo k v (omega (arith, spot.high)) t.index t.low other in
    record {
      index = new_index epo k v (omega (arith, spot.high)) t.index;
      low = omega (arith, l, close_up-sizes epo k);
      points = p ∙ t.points;
      matches =
          ap (node_has_fd fd') (ap (close_up k epo).nodes (sym (p ∙ t.points)) ∙ c ∙ cell_is)
          ∙ t.matches;
    }
  where
    other_fd : fd' ≢ fd
    other_fd e = ground (arith, int_eq_refl fd, ap (λ a. int_eq a fd) e ∙ int_eq_refl fd)

module _ {K : Type 0} (ctl : Ctl K) (registered : K → ℤ → Option ℕ) where
  -- What hp_epoll_rm returns and leaves; the kernel holds no dangling pointer, and none for `fd`.
  pub record Removed (epo : Epoll) (fd : ℤ) (r : ℤ × Epoll × K) : Type 0 where
    pub code : r.0 ≡ (if any (node_has_fd fd) (entries epo) then pos 0 else negsuc 1)
    pub entries_eq : entries r.1 ≡ remove_first (node_has_fd fd) (entries epo)
    pub valid : IsValid r.1
    pub no_dangling : NoDangling registered r.1 r.2
    pub unregistered : registered r.2 fd ≡ none

  module _ (law : IsEpoll ctl registered) where
    -- After EPOLL_CTL_DEL a registered descriptor is another one, and was registered before.
    del-registered :
        (fd fd' : ℤ) (events ptr' ptr : ℕ) (k : K)
        → registered (ctl ctl_del fd events ptr' k).1 fd' ≡ some ptr
        → (int_eq fd' fd ≡ false) × (registered k fd' ≡ some ptr)
    del-registered fd fd' events ptr' ptr k h = elim (Bool-cases (int_eq fd' fd)) [
      | inl e ↦ ground (
        arith,
        sym h
            ∙ ap (registered (ctl ctl_del fd events ptr' k).1) (int_eq_sound fd' fd e)
            ∙ law.dels fd events ptr' k,
      )
      | inr e ↦ (e, sym (law.others ctl_del fd fd' events ptr' k e) ∙ h)
    ]

    rm_at-Removed :
        (epo : Epoll) (fd : ℤ) (k : K) (o : Option ℕ)
        → IsValid epo
        → NoDangling registered epo k
        → Search (has_fd epo fd) 0 epo.ev_len o
        → Removed epo fd (rm_at ctl o fd epo k)
    unfolding rm_at
    rm_at-Removed epo fd k o v nd (absent h) =
        let not_any = any-absent epo fd h in
        record {
          code = rw not_any refl;
          entries_eq = sym (remove_first-absent (node_has_fd fd) (entries epo) not_any);
          valid = v;
          no_dangling = λ fd' ptr r. nd fd' ptr (del-registered fd fd' in_out 0 ptr k r).1;
          unregistered = law.dels fd in_out 0 k;
        }
    rm_at-Removed epo fd k o v nd (found i l u m h) =
        let spot : FirstOf epo fd i = search-FirstOf epo fd i u m h in
        record {
          code = rw (Spot-any (node_has_fd fd) (cell epo) 0 epo.ev_len i spot) refl;
          entries_eq = close_up-entries epo i v (omega arith) fd spot;
          valid = close_up-IsValid epo i v (omega arith);
          no_dangling = λ fd' ptr r.
              let (ne, before) = del-registered fd fd' in_out (epo.ed i) ptr k r in
              close_up-InTable epo i fd fd' ptr v spot ne (nd fd' ptr before);
          unregistered = law.dels fd in_out (epo.ed i) k;
        }

-- On a valid table, over an `epoll_ctl` that behaves as documented: `hp_epoll_rm` returns 0 if the
-- descriptor has an entry and -2 if not, whatever `epoll_ctl` returns; it takes the first entry of the
-- descriptor out and keeps the others in order; the table stays valid. If the kernel held only pointers
-- to allocated entries of their descriptors, then it still does, and it holds none for `fd`.
pub epoll_rm-Removed :
    {K : Type 0} (ctl : Ctl K) (registered : K → ℤ → Option ℕ) (epo : Epoll) (fd : ℤ) (k : K)
    → IsEpoll ctl registered
    → IsValid epo
    → NoDangling registered epo k
    → Removed ctl registered epo fd (epoll_rm ctl epo fd k)
unfolding epoll_rm find_fd
epoll_rm-Removed ctl registered epo fd k law v nd =
    rm_at-Removed ctl registered law epo fd k (lfind (has_fd epo fd) 0 epo.ev_len) v nd
      (lfind-Search (has_fd epo fd) 0 epo.ev_len)
