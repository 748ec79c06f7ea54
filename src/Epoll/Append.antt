-- ===== src/Epoll/Append.antt =====
-- A new entry at the end of the table of src/hp_epoll.c.
use libhp.Common.{
  ℕ, ◌+◌, ◌<◌, ◌≡◌, refl, sym, ap, ◌∙◌, ◌⊎◌, inl, inr, Bool-cases, some, [], ◌∷◌, ◌++◌, arith, ltb,
  slots-ext, slots-last, put-same, put-other,
}
use libhp.Common.Int.{ℤ, int_eq_refl}
use libhp.Epoll.{Epolld, Epoll, node_has_fd, set_node, new_node, push}
use libhp.Epoll.Table.{cell, entries, IsValid, InTable}

-- A node that no entry points to yet.
module _ (epo : Epoll) (d : Epolld) (v : IsValid epo) where
  new_node-cell : (j : ℕ) → j < epo.ev_len → cell (new_node d epo) j ≡ cell epo j
  unfolding new_node set_node
  new_node-cell j l = put-other epo.next (epo.ed j) (some d) epo.nodes (omega (arith, v.old j l))

  pub new_node-IsValid : IsValid (new_node d epo)
  unfolding new_node set_node
  new_node-IsValid = record {
    allocated = v.allocated;
    fits = v.fits;
    live = λ i l. ((v.live i l).0, new_node-cell i l ∙ (v.live i l).1);
    old = λ i l. omega (arith, v.old i l);
    apart = v.apart;
  }

  pub new_node-entries : entries (new_node d epo) ≡ entries epo
  unfolding new_node set_node
  new_node-entries =
      slots-ext (cell (new_node d epo)) (cell epo) 0 epo.ev_len
        (λ j l u. new_node-cell j (omega arith))

  pub new_node-InTable : (fd : ℤ) (ptr : ℕ) → InTable epo fd ptr → InTable (new_node d epo) fd ptr
  unfolding new_node set_node
  new_node-InTable fd ptr t = record {
    index = t.index;
    low = t.low;
    points = t.points;
    matches =
        ap (node_has_fd fd)
          (put-other epo.next ptr (some d) epo.nodes (omega (arith, v.old t.index t.low, t.points)))
        ∙ t.matches;
  }

  -- It becomes the last entry.
  abbrev pub appended_to : Epoll
  appended_to = push epo.next (new_node d epo)

  push-cell : (j : ℕ) → j < epo.ev_len → cell appended_to j ≡ cell epo j
  unfolding push new_node set_node
  push-cell j l =
      ap appended_to.nodes (put-other epo.ev_len j epo.next epo.ed (omega arith))
      ∙ new_node-cell j l

  push-last : cell appended_to epo.ev_len ≡ some d
  unfolding push new_node set_node
  push-last =
      ap appended_to.nodes (put-same epo.ev_len epo.next epo.ed)
      ∙ put-same epo.next (some d) epo.nodes

  pub push-entries : entries appended_to ≡ entries epo ++ some d ∷ []
  unfolding push new_node
  push-entries =
      slots-last (cell epo) (cell appended_to) 0 epo.ev_len (λ j l u. push-cell j (omega arith))
      ∙ ap (λ x. entries epo ++ x ∷ []) (ap (cell appended_to) (omega arith) ∙ push-last)

  -- The pointers of the longer table.
  push-ed :
      (j : ℕ)
      → j < epo.ev_len + 1
      → ((j < epo.ev_len) × (appended_to.ed j ≡ epo.ed j))
        ⊎ ((j ≡ epo.ev_len) × (appended_to.ed j ≡ epo.next))
  unfolding push new_node set_node
  push-ed j l = elim (Bool-cases (ltb j epo.ev_len)) [
    | inl b ↦ inl (ground arith, put-other epo.ev_len j epo.next epo.ed (ground arith))
    | inr b ↦
        inr (ground arith, ap appended_to.ed (ground arith) ∙ put-same epo.ev_len epo.next epo.ed)
  ]

  push-live : (j : ℕ) → j < epo.ev_len + 1 → (c : Epolld) × (cell appended_to j ≡ some c)
  push-live j l = elim (push-ed j l) [
    | inl b ↦ ((v.live j b.0).0, push-cell j b.0 ∙ (v.live j b.0).1)
    | inr b ↦ (d, ap (cell appended_to) b.0 ∙ push-last)
  ]

  push-apart :
      (i j : ℕ)
      → i < epo.ev_len + 1
      → j < epo.ev_len + 1
      → appended_to.ed i ≡ appended_to.ed j
      → i ≡ j
  push-apart i j l u e = elim (push-ed i l) [
    | inl a ↦ elim (push-ed j u) [
      | inl b ↦ v.apart i j a.0 b.0 (sym a.1 ∙ e ∙ b.1)
      | inr b ↦ omega (arith, v.old i a.0, sym a.1 ∙ e ∙ b.1)
    ]
    | inr a ↦ elim (push-ed j u) [
      | inl b ↦ omega (arith, v.old j b.0, sym b.1 ∙ sym e ∙ a.1)
      | inr b ↦ a.0 ∙ sym b.0
    ]
  ]

  push-old : (j : ℕ) → j < epo.ev_len + 1 → appended_to.ed j < epo.next + 1
  push-old j l = elim (push-ed j l) [
    | inl b ↦ omega (arith, v.old j b.0, b.1)
    | inr b ↦ omega (arith, b.1)
  ]

  push-sizes :
      (appended_to.ev_len ≡ epo.ev_len + 1)
      × (appended_to.max_ev_len ≡ epo.max_ev_len)
      × (appended_to.allocated ≡ epo.allocated)
      × (appended_to.next ≡ epo.next + 1)
  unfolding push new_node set_node
  push-sizes = (refl, refl, refl, refl)

  pub push-IsValid : epo.ev_len < epo.max_ev_len → IsValid appended_to
  push-IsValid room = record {
    allocated = push-sizes.2 ∙ v.allocated;
    fits = omega (arith, push-sizes);
    live = λ i l. push-live i (omega (arith, push-sizes));
    old = λ i l. omega (arith, push-sizes, push-old i (omega (arith, push-sizes)));
    apart = λ i j l u e. push-apart i j (omega (arith, push-sizes)) (omega (arith, push-sizes)) e;
  }

  pub push-InTable : (fd : ℤ) (ptr : ℕ) → InTable epo fd ptr → InTable appended_to fd ptr
  unfolding push new_node set_node
  push-InTable fd ptr t = record {
    index = t.index;
    low = omega (arith, t.low);
    points = put-other epo.ev_len t.index epo.next epo.ed (omega (arith, t.low)) ∙ t.points;
    matches = (new_node-InTable fd ptr t).matches;
  }

  pub push-InTable_last : InTable appended_to d.fd epo.next
  unfolding push new_node set_node node_has_fd
  push-InTable_last = record {
    index = epo.ev_len;
    low = omega arith;
    points = put-same epo.ev_len epo.next epo.ed;
    matches = ap (node_has_fd d.fd) (put-same epo.next (some d) epo.nodes) ∙ int_eq_refl d.fd;
  }
