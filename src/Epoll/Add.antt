-- ===== src/Epoll/Add.antt =====
-- hp_epoll_add of src/hp_epoll.c changes or adds one entry; its assertion never fails.
use libhp.Common.{
  ℕ, ◌<◌, ◌≡◌, refl, sym, ap, ◌∙◌, inl, inr, Bool-cases, true, false, Option, none, some, arith,
  leb, ◌==◌, ==_iff, subst, lfind, Search, absent, found, lfind-Search, any, any-hit,
}
use libhp.Common.Int.{ℤ, pos, negsuc, int_eq, int_eq_sound}
use libhp.Poll.{sock_is_valid}
use libhp.Epoll.{
  Epolld, Epoll, ctl_add, ctl_mod, Ctl, Outcome, eexist, node_has_fd, has_fd, find_fd, set_node,
  new_node, on_added, add_new, on_mod, add_at, epoll_add,
}
use libhp.Epoll.Table.{
  cell, entries, IsValid, IsEpoll, InTable, NoDangling, FirstOf, search-FirstOf, any-absent,
}
use libhp.Epoll.Branch.{
  Branch, refused, changed, mod_failed, full, add_failed, appended, modded, added,
}
use libhp.Epoll.Append.{
  new_node-IsValid, new_node-entries, new_node-InTable, appended_to, push-entries, push-IsValid,
  push-InTable, push-InTable_last,
}
use libhp.Epoll.Change.{
  changed_at, changed_at-IsValid, changed_at-entries, changed_at-InTable, changed_at-InTable_own,
}

module _ {K : Type 0} (ctl : Ctl K) (registered : K → ℤ → Option ℕ) where
  -- The call returns, in one of these ways, with a valid table and no dangling pointer in the kernel.
  pub record Added (epo : Epoll) (d : Epolld) (events : ℕ) (k : K) (r : Outcome K) : Type 0 where
    pub code : ℤ
    pub epo' : Epoll
    pub k' : K
    pub returns : r ≡ some (code, epo', k')
    pub branch :
        Branch epo d
          (modded ctl d events k)
          (added ctl epo d events k)
          (registered k' d.fd)
          code
          (entries epo')
    pub valid : IsValid epo'
    pub no_dangling : NoDangling registered epo' k'

  module _ (law : IsEpoll ctl registered) (epo : Epoll) (d : Epolld) (events : ℕ) (k : K)
      (v : IsValid epo) (nd : NoDangling registered epo k) where
    -- What is registered after EPOLL_CTL_ADD: the new pointer, or what was there.
    add-registered :
        (fd : ℤ) (ptr : ℕ)
        → (ctl ctl_add d.fd events epo.next k).0 ≡ none
        → registered (ctl ctl_add d.fd events epo.next k).1 fd ≡ some ptr
        → InTable (appended_to epo d v) fd ptr
    add-registered fd ptr fine h = elim (Bool-cases (int_eq fd d.fd)) [
      | inl e ↦ own (int_eq_sound fd d.fd e)
      | inr e ↦
          push-InTable epo d v fd ptr
            (nd fd ptr (sym (law.others ctl_add d.fd fd events epo.next k e) ∙ h))
    ]
      where
        some_inj : (a b : ℕ) → some a ≡ some b → a ≡ b
        some_inj a b q = ground arith

        own : fd ≡ d.fd → InTable (appended_to epo d v) fd ptr
        own e =
            let is_next : epo.next ≡ ptr = some_inj epo.next ptr (
              sym (law.adds d.fd events epo.next k fine)
              ∙ ap (registered (ctl ctl_add d.fd events epo.next k).1) (sym e)
              ∙ h) in
            subst (λ q. InTable (appended_to epo d v) q ptr) (sym e)
              (subst (InTable (appended_to epo d v) d.fd) is_next (push-InTable_last epo d v))

    fail-registered :
        (fd : ℤ) (e : ℕ)
        → (ctl ctl_add d.fd events epo.next k).0 ≡ some e
        → registered (ctl ctl_add d.fd events epo.next k).1 fd ≡ registered k fd
    fail-registered fd e bad = elim (Bool-cases (int_eq fd d.fd)) [
      | inl q ↦
          ap (registered (ctl ctl_add d.fd events epo.next k).1) (int_eq_sound fd d.fd q)
          ∙ law.fails d.fd events epo.next e k bad
          ∙ ap (registered k) (sym (int_eq_sound fd d.fd q))
      | inr q ↦ law.others ctl_add d.fd fd events epo.next k q
    ]

    mod-registered :
        (i : ℕ) (spot : FirstOf epo d.fd i) (fd : ℤ) (ptr : ℕ)
        → registered (ctl ctl_mod d.fd events (epo.ed i) k).1 fd ≡ some ptr
        → InTable (changed_at epo d i v spot) fd ptr
    mod-registered i spot fd ptr h = elim (Bool-cases (int_eq fd d.fd)) [
      | inl e ↦ own (int_eq_sound fd d.fd e)
      | inr e ↦
          changed_at-InTable epo d i v spot fd ptr
            (nd fd ptr (sym (law.others ctl_mod d.fd fd events (epo.ed i) k e) ∙ h))
    ]
      where
        some_inj : (a b : ℕ) → some a ≡ some b → a ≡ b
        some_inj a b q = ground arith

        own : fd ≡ d.fd → InTable (changed_at epo d i v spot) fd ptr
        own e =
            let h' = ap (registered (ctl ctl_mod d.fd events (epo.ed i) k).1) (sym e) ∙ h in
            elim (law.mods d.fd events (epo.ed i) k) [
              | inl q ↦
                  subst (λ a. InTable (changed_at epo d i v spot) a ptr) (sym e)
                    (subst (InTable (changed_at epo d i v spot) d.fd)
                      (some_inj (epo.ed i) ptr (sym q ∙ h'))
                      (changed_at-InTable_own epo d i v spot))
              | inr q ↦
                  changed_at-InTable epo d i v spot fd ptr
                    (nd fd ptr (ap (registered k) e ∙ sym q ∙ h'))
            ]

    -- EEXIST does not happen: what is registered is in the table.
    no_eexist :
        (e : ℕ)
        → any (node_has_fd d.fd) (entries epo) ≡ false
        → (ctl ctl_add d.fd events epo.next k).0 ≡ some e
        → (e == eexist) ≡ false
    no_eexist e gone h = elim (Bool-cases (e == eexist)) [
      | inl q ↦ ground (arith, gone, there (ap some ((==_iff e eexist).0 q)))
      | inr q ↦ q
    ]
      where
        there : some e ≡ some eexist → any (node_has_fd d.fd) (entries epo) ≡ true
        there q =
            let (p, reg) = law.exists d.fd events epo.next k (h ∙ q) in
            let t = nd d.fd p reg in
            any-hit (node_has_fd d.fd) (cell epo) 0 epo.ev_len t.index (omega arith)
              (omega (arith, t.low)) (ap (λ a. node_has_fd d.fd (epo.nodes a)) t.points ∙ t.matches)

    on_added-Added :
        (a : Option ℕ × K)
        → any (node_has_fd d.fd) (entries epo) ≡ false
        → epo.ev_len < epo.max_ev_len
        → ctl ctl_add d.fd events epo.next k ≡ a
        → Added epo d events k (on_added ctl a epo.next (new_node d epo))
    unfolding on_added
    on_added-Added (none, k') gone room e =
        let kernel : (ctl ctl_add d.fd events epo.next k).1 ≡ k' = ap (λ r. r.1) e in
        let fine : (ctl ctl_add d.fd events epo.next k).0 ≡ none = ap (λ r. r.0) e in
        record {
          code = pos 0;
          epo' = appended_to epo d v;
          k' = k';
          returns = refl;
          branch =
              subst
                (Branch epo d (modded ctl d events k) (added ctl epo d events k)
                  (registered k' d.fd) (pos 0))
                (sym (push-entries epo d v))
                (appended gone room fine (
                  ap (λ q. registered q d.fd) (sym kernel) ∙ law.adds d.fd events epo.next k fine));
          valid = push-IsValid epo d v room;
          no_dangling =
              λ fd ptr h. add-registered fd ptr fine (ap (λ q. registered q fd) kernel ∙ h);
        }
    on_added-Added (some err, k') gone room e =
        let kernel : (ctl ctl_add d.fd events epo.next k).1 ≡ k' = ap (λ r. r.1) e in
        let bad : (ctl ctl_add d.fd events epo.next k).0 ≡ some err = ap (λ r. r.0) e in
        rw (no_eexist err gone bad) (record {
          code = negsuc 1;
          epo' = new_node d epo;
          k' = k';
          returns = refl;
          branch =
              subst
                (Branch epo d (modded ctl d events k) (added ctl epo d events k)
                  (registered k' d.fd) (negsuc 1))
                (sym (new_node-entries epo d v)) (add_failed err gone room bad);
          valid = new_node-IsValid epo d v;
          no_dangling = λ fd ptr h.
              new_node-InTable epo d v fd ptr (
                nd fd ptr
                  (sym (fail-registered fd err bad) ∙ ap (λ q. registered q fd) kernel ∙ h));
        })

    on_mod-Added :
        (i : ℕ) (spot : FirstOf epo d.fd i) (a : Option ℕ × K)
        → ctl ctl_mod d.fd events (epo.ed i) k ≡ a
        → Added epo d events k (on_mod ctl a (set_node (epo.ed i) d epo))
    unfolding on_mod
    on_mod-Added i spot (none, k') e = record {
      code = pos 0;
      epo' = changed_at epo d i v spot;
      k' = k';
      returns = refl;
      branch =
          subst
            (Branch epo d (modded ctl d events k) (added ctl epo d events k) (registered k' d.fd)
              (pos 0))
            (sym (changed_at-entries epo d i v spot)) (changed i spot (ap (λ r. r.0) e));
      valid = changed_at-IsValid epo d i v spot;
      no_dangling = λ fd ptr h. mod-registered i spot fd ptr (ap (λ r. registered r.1 fd) e ∙ h);
    }
    on_mod-Added i spot (some err, k') e = record {
      code = negsuc 2;
      epo' = changed_at epo d i v spot;
      k' = k';
      returns = refl;
      branch =
          subst
            (Branch epo d (modded ctl d events k) (added ctl epo d events k) (registered k' d.fd)
              (negsuc 2))
            (sym (changed_at-entries epo d i v spot)) (mod_failed i err spot (ap (λ r. r.0) e));
      valid = changed_at-IsValid epo d i v spot;
      no_dangling = λ fd ptr h. mod-registered i spot fd ptr (ap (λ r. registered r.1 fd) e ∙ h);
    }

    add_at-Added :
        (o : Option ℕ)
        → Search (has_fd epo d.fd) 0 epo.ev_len o
        → Added epo d events k (add_at ctl o d events epo k)
    unfolding add_at add_new
    add_at-Added o (absent h) =
        let gone = any-absent epo d.fd h in
        elim (Bool-cases (leb epo.max_ev_len epo.ev_len)) [
          | inl cap ↦ rw cap (record {
            code = negsuc 1;
            epo' = epo;
            k' = k;
            returns = refl;
            branch = full gone (ground arith);
            valid = v;
            no_dangling = nd;
          })
          | inr room ↦
              rw room (on_added-Added (ctl ctl_add d.fd events epo.next k) gone (ground arith) refl)
        ]
    add_at-Added o (found i l u m h) =
        on_mod-Added i (search-FirstOf epo d.fd i u m h) (ctl ctl_mod d.fd events (epo.ed i) k) refl

-- On a valid table whose kernel, behaving as documented, holds no dangling pointer: `hp_epoll_add`
-- returns, without the assertion on EEXIST failing. It refuses a negative descriptor with -1; it changes
-- the first entry of a descriptor that has one and returns 0, or -3 exactly if EPOLL_CTL_MOD fails; else it
-- returns -2 if the table is full or EPOLL_CTL_ADD fails, or adds an entry at the end, which the kernel
-- then points to, and returns 0. The table stays valid and the kernel holds no dangling pointer.
pub epoll_add-Added :
    {K : Type 0} (ctl : Ctl K) (registered : K → ℤ → Option ℕ) (epo : Epoll) (d : Epolld)
    (events : ℕ) (k : K)
    → IsEpoll ctl registered
    → IsValid epo
    → NoDangling registered epo k
    → Added ctl registered epo d events k (epoll_add ctl epo d.fd events d.fn d.on_loop d.arg k)
unfolding epoll_add find_fd
epoll_add-Added ctl registered epo d events k law v nd = elim (Bool-cases (sock_is_valid d.fd)) [
  | inl s ↦
      simp (v.allocated, s)
        (add_at-Added ctl registered law epo d events k v nd (lfind (has_fd epo d.fd) 0 epo.ev_len)
          (lfind-Search (has_fd epo d.fd) 0 epo.ev_len))
  | inr s ↦
      simp (v.allocated, s)
        (record {
          code = negsuc 0;
          epo' = epo;
          k' = k;
          returns = refl;
          branch = refused s;
          valid = v;
          no_dangling = nd;
        })
]
