-- ===== src/Epoll/Change.antt =====
-- An entry of the table of src/hp_epoll.c that is set in place.
use libhp.Common.{
  ℕ, suc, ◌+◌, ◌-◌, ◌<◌, ◌≡◌, ◌≢◌, refl, sym, ap, ◌∙◌, inl, inr, Bool-cases, true, some, ◌∷◌, ◌++◌,
  arith, ◌==◌, ==_iff, slots, slots-put, put-same, put-other, replace_first, Spot-replace_first,
}
use libhp.Common.Int.{ℤ, int_eq_refl}
use libhp.Epoll.{Epolld, Epoll, node_has_fd, set_node}
use libhp.Epoll.Table.{cell, entries, IsValid, InTable, FirstOf, node_has_fd-same}

module _ (epo : Epoll) (d : Epolld) (k : ℕ) (v : IsValid epo) (spot : FirstOf epo d.fd k) where
  abbrev pub changed_at : Epoll
  changed_at = set_node (epo.ed k) d epo

  changed_at-here : changed_at.nodes (epo.ed k) ≡ some d
  unfolding set_node
  changed_at-here = put-same (epo.ed k) (some d) epo.nodes

  changed_at-other : (ptr : ℕ) → ptr ≢ epo.ed k → changed_at.nodes ptr ≡ epo.nodes ptr
  unfolding set_node
  changed_at-other ptr ne = put-other (epo.ed k) ptr (some d) epo.nodes ne

  changed_at-cell : (j : ℕ) → j < epo.ev_len → j ≢ k → cell changed_at j ≡ cell epo j
  unfolding set_node
  changed_at-cell j l ne =
      changed_at-other (epo.ed j)
        (λ e. omega (arith, v.apart j k l (omega (arith, spot.high)) e, ne))

  changed_at-live : (j : ℕ) → j < epo.ev_len → (c : Epolld) × (cell changed_at j ≡ some c)
  unfolding set_node
  changed_at-live j l = elim (Bool-cases (j == k)) [
    | inl e ↦ (d, ap (cell changed_at) ((==_iff j k).0 e) ∙ changed_at-here)
    | inr e ↦ ((v.live j l).0, changed_at-cell j l (ground arith) ∙ (v.live j l).1)
  ]

  pub changed_at-IsValid : IsValid changed_at
  unfolding set_node
  changed_at-IsValid = record {
    allocated = v.allocated;
    fits = v.fits;
    live = changed_at-live;
    old = v.old;
    apart = v.apart;
  }

  pub changed_at-entries :
      entries changed_at ≡ replace_first (node_has_fd d.fd) (some d) (entries epo)
  unfolding set_node
  changed_at-entries =
      slots-put (cell epo) (cell changed_at) 0 epo.ev_len k spot.low spot.high
        (λ j l u ne. changed_at-cell j (omega arith) ne)
      ∙ ap
          (λ x.
            slots (cell epo) 0 (k - 0) ++ x ∷ slots (cell epo) (suc k) ((0 + epo.ev_len) - suc k))
          changed_at-here
      ∙ sym (Spot-replace_first (node_has_fd d.fd) (cell epo) 0 epo.ev_len k spot (some d))

  node_is-d : node_has_fd d.fd (changed_at.nodes (epo.ed k)) ≡ true
  unfolding node_has_fd
  node_is-d = ap (node_has_fd d.fd) changed_at-here ∙ int_eq_refl d.fd

  -- The entry is still of its descriptor, so what the kernel holds is still right.
  changed_at-matches :
      (fd : ℤ) (ptr : ℕ)
      → node_has_fd fd (epo.nodes ptr) ≡ true
      → node_has_fd fd (changed_at.nodes ptr) ≡ true
  changed_at-matches fd ptr h = elim (Bool-cases (ptr == epo.ed k)) [
    | inl e ↦ here ((==_iff ptr (epo.ed k)).0 e)
    | inr e ↦ ap (node_has_fd fd) (changed_at-other ptr (ground arith)) ∙ h
  ]
    where
      here : ptr ≡ epo.ed k → node_has_fd fd (changed_at.nodes ptr) ≡ true
      here e =
          let same : fd ≡ d.fd =
            node_has_fd-same fd d.fd (cell epo k)
              (ap (λ p. node_has_fd fd (epo.nodes p)) (sym e) ∙ h) spot.hit in
          ap (λ p. node_has_fd fd (changed_at.nodes p)) e
          ∙ ap (λ a. node_has_fd a (changed_at.nodes (epo.ed k))) same
          ∙ node_is-d

  pub changed_at-InTable : (fd : ℤ) (ptr : ℕ) → InTable epo fd ptr → InTable changed_at fd ptr
  unfolding set_node
  changed_at-InTable fd ptr t = record {
    index = t.index;
    low = t.low;
    points = t.points;
    matches = changed_at-matches fd ptr t.matches;
  }

  pub changed_at-InTable_own : InTable changed_at d.fd (epo.ed k)
  unfolding set_node
  changed_at-InTable_own = record {
    index = k;
    low = omega (arith, spot.high);
    points = refl;
    matches = node_is-d;
  }
