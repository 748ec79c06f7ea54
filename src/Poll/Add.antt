-- ===== src/Poll/Add.antt =====
-- hp_poll_add of src/hp_poll.c changes the entry of the descriptor, or adds one at the end.
use libhp.Common.{
  ℕ, suc, ◌+◌, ◌-◌, ◌≤◌, ◌<◌, ◌≡◌, ◌≢◌, refl, sym, ap, ap₂, ◌∙◌, inl, inr, true, false, Option,
  List, [], ◌∷◌, ◌++◌, arith, Bool-cases, leb, if◌then◌else◌, length, subst, slots, lfind, Search,
  absent, found, lfind-Search, length-slots, Spot-any, Spot-replace_first, replace_first-absent,
  slots-put, slots-last, put-same, put-other,
}
use libhp.Common.Int.{ℤ, pos, negsuc, int_eq_sound}
use libhp.Poll.{Poll, below, polld, has_fd, fill_in, next_entry, add_at, poll_add, sock_is_valid}
use libhp.Poll.Table.{
  Entry, entry, entries, same_fd, has, replace, FirstOf, search-FirstOf, has-absent,
}
use libhp.Poll.Refine.{IsValid, Distinct, replace-Distinct}

abbrev pub new_entry : ℤ → ℕ → Option ℕ → Option ℕ → ℕ → Entry
new_entry fd events fn on_loop arg = (
  record { fd = fd; events = events; revents = 0 },
  record { fn = fn; arg = arg; on_loop = on_loop },
)

-- What adding does to the abstract table, and the code that it returns.
abbrev pub table_add : ℤ → Entry → ℕ → List Entry → ℤ × List Entry
table_add fd x max_fd es =
    if sock_is_valid fd
    then (if has fd es
        then (pos 0, replace fd x es)
        else (if leb max_fd (length es) then (negsuc 1, es) else (pos 0, es ++ x ∷ [])))
    else (negsuc 0, es)

module _ (events : ℕ) (fn on_loop : Option ℕ) (arg : ℕ) where
  fill_in-same :
      (po : Poll) (k : ℕ)
      → entry (fill_in po k events fn on_loop arg) k ≡ new_entry (po.fds k).fd events fn on_loop arg
  unfolding fill_in polld below
  fill_in-same po k =
      ap₂ (λ x y. (x, y)) (put-same k (record (po.fds k) { events = events; revents = 0 }) po.fds)
        (put-same ((po.max_fd + 1) - k) (record { fn = fn; arg = arg; on_loop = on_loop }) po.cells)

  fill_in-other :
      (po : Poll) (k j : ℕ)
      → k ≤ po.max_fd
      → j ≤ po.max_fd
      → j ≢ k
      → entry (fill_in po k events fn on_loop arg) j ≡ entry po j
  unfolding fill_in polld below
  fill_in-other po k j u v ne =
      ap₂ (λ x y. (x, y))
        (put-other k j (record (po.fds k) { events = events; revents = 0 }) po.fds
          (omega (arith, ne)))
        (put-other ((po.max_fd + 1) - k) ((po.max_fd + 1) - j)
          (record { fn = fn; arg = arg; on_loop = on_loop }) po.cells (omega (arith, ne)))

  fill_in-nfds : (po : Poll) (k : ℕ) → (fill_in po k events fn on_loop arg).nfds ≡ po.nfds
  unfolding fill_in
  fill_in-nfds po k = refl

  fill_in-entries :
      (po : Poll) (fd : ℤ) (k : ℕ)
      → po.nfds ≤ po.max_fd
      → FirstOf po fd k
      → entries (fill_in po k events fn on_loop arg)
        ≡ replace fd (new_entry fd events fn on_loop arg) (entries po)
  fill_in-entries po fd k fits spot =
      let po' = fill_in po k events fn on_loop arg in
      ap (slots (entry po') 1) (fill_in-nfds po k)
      ∙ slots-put (entry po) (entry po') 1 po.nfds k spot.low spot.high
          (λ j l u ne. fill_in-other po k j (omega (arith, spot.high)) (omega arith) ne)
      ∙ ap (λ x. slots (entry po) 1 (k - 1) ++ x ∷ slots (entry po) (suc k) ((1 + po.nfds) - suc k))
          (fill_in-same po k
            ∙ ap (λ a. new_entry a events fn on_loop arg) (int_eq_sound (po.fds k).fd fd spot.hit))
      ∙ sym (
          Spot-replace_first (same_fd fd) (entry po) 1 po.nfds k spot
            (new_entry fd events fn on_loop arg))

  -- The table with an entry of the descriptor at its end.
  abbrev grown : Poll → ℤ → Poll
  grown po fd = fill_in (next_entry po fd) (po.nfds + 1) events fn on_loop arg

  grown-before :
      (po : Poll) (fd : ℤ) (j : ℕ)
      → po.nfds < po.max_fd
      → j < 1 + po.nfds
      → entry (grown po fd) j ≡ entry po j
  unfolding next_entry polld below fill_in
  grown-before po fd j fits u =
      ap₂ (λ x y. (x, y))
        (put-other (po.nfds + 1) j
            (record ((next_entry po fd).fds (po.nfds + 1)) { events = events; revents = 0 })
            (next_entry po fd).fds (omega arith)
          ∙ put-other (po.nfds + 1) j (record (po.fds (po.nfds + 1)) { fd = fd }) po.fds
              (omega arith))
        (put-other ((po.max_fd + 1) - (po.nfds + 1)) ((po.max_fd + 1) - j)
          (record { fn = fn; arg = arg; on_loop = on_loop }) po.cells (omega arith))

  grown-last :
      (po : Poll) (fd : ℤ) → entry (grown po fd) (1 + po.nfds) ≡ new_entry fd events fn on_loop arg
  unfolding next_entry
  grown-last po fd =
      ap (entry (grown po fd)) (omega arith)
      ∙ fill_in-same (next_entry po fd) (po.nfds + 1)
      ∙ ap (λ a. new_entry a events fn on_loop arg)
          (ap (λ p. p.fd)
            (put-same (po.nfds + 1) (record (po.fds (po.nfds + 1)) { fd = fd }) po.fds))

  grown-nfds : (po : Poll) (fd : ℤ) → (grown po fd).nfds ≡ po.nfds + 1
  unfolding next_entry fill_in
  grown-nfds po fd = refl

  grown-entries :
      (po : Poll) (fd : ℤ)
      → po.nfds < po.max_fd
      → entries (grown po fd) ≡ entries po ++ new_entry fd events fn on_loop arg ∷ []
  grown-entries po fd fits =
      ap (slots (entry (grown po fd)) 1) (grown-nfds po fd)
      ∙ slots-last (entry po) (entry (grown po fd)) 1 po.nfds (λ j l u. grown-before po fd j fits u)
      ∙ ap (λ x. entries po ++ x ∷ []) (grown-last po fd)

  -- The code and the entries are those of the abstract table, and the table is valid.
  pub record Added (po : Poll) (fd : ℤ) (r : ℤ × Poll) : Type 0 where
    pub code : r.0 ≡ (table_add fd (new_entry fd events fn on_loop arg) po.max_fd (entries po)).0
    pub entries_eq :
        entries r.1 ≡ (table_add fd (new_entry fd events fn on_loop arg) po.max_fd (entries po)).1
    pub valid : IsValid r.1

  fill_in-IsValid :
      (po : Poll) (fd : ℤ) (k : ℕ)
      → IsValid po
      → FirstOf po fd k
      → IsValid (fill_in po k events fn on_loop arg)
  unfolding fill_in
  fill_in-IsValid po fd k v spot = record {
    allocated = v.allocated;
    fits = v.fits;
    distinct =
        subst Distinct (sym (fill_in-entries po fd k v.fits spot))
          (replace-Distinct fd (new_entry fd events fn on_loop arg) (entries po) refl v.distinct);
  }

  grown-IsValid :
      (po : Poll) (fd : ℤ)
      → IsValid po
      → po.nfds < po.max_fd
      → has fd (entries po) ≡ false
      → IsValid (grown po fd)
  unfolding fill_in next_entry
  grown-IsValid po fd v fits fresh = record {
    allocated = v.allocated;
    fits = omega arith;
    distinct =
        subst Distinct
          (replace_first-absent (same_fd fd) (new_entry fd events fn on_loop arg) (entries po) fresh
            ∙ sym (grown-entries po fd fits))
          (replace-Distinct fd (new_entry fd events fn on_loop arg) (entries po) refl v.distinct);
  }

  add_at-Added :
      (po : Poll) (fd : ℤ) (o : Option ℕ)
      → IsValid po
      → sock_is_valid fd ≡ true
      → Search (has_fd po fd) 1 po.nfds o
      → Added po fd (add_at o po fd events fn on_loop arg)
  unfolding add_at
  add_at-Added po fd o v s (absent h) =
      let no : has fd (entries po) ≡ false = has-absent po fd h in
      elim (Bool-cases (leb po.max_fd po.nfds)) [
        | inl full ↦ rw full (record {
          code = rw (s, no, length-slots (entry po) 1 po.nfds, full) refl;
          entries_eq = rw (s, no, length-slots (entry po) 1 po.nfds, full) refl;
          valid = v;
        })
        | inr room ↦ rw room (record {
          code = rw (s, no, length-slots (entry po) 1 po.nfds, room) refl;
          entries_eq =
              rw (s, no, length-slots (entry po) 1 po.nfds, room)
                (grown-entries po fd (ground arith));
          valid = grown-IsValid po fd v (ground arith) no;
        })
      ]
  add_at-Added po fd o v s (found k l u m h) =
      let spot : FirstOf po fd k = search-FirstOf po fd k l u m h in
      record {
        code = rw (s, Spot-any (same_fd fd) (entry po) 1 po.nfds k spot) refl;
        entries_eq =
            rw (s, Spot-any (same_fd fd) (entry po) 1 po.nfds k spot)
              (fill_in-entries po fd k v.fits spot);
        valid = fill_in-IsValid po fd k v spot;
      }

-- On a valid table, `hp_poll_add` refuses a negative descriptor with -1; it replaces the entry of a
-- descriptor that has one; else it adds an entry at the end, or returns -2 if `max_fd` entries are in
-- use. No other entry changes, and the table stays valid.
pub poll_add-Added :
    (po : Poll) (fd : ℤ) (events : ℕ) (fn on_loop : Option ℕ) (arg : ℕ)
    → IsValid po
    → Added events fn on_loop arg po fd (poll_add po fd events fn on_loop arg)
unfolding poll_add
poll_add-Added po fd events fn on_loop arg v = elim (Bool-cases (sock_is_valid fd)) [
  | inl s ↦
      simp (v.allocated, s)
        (add_at-Added events fn on_loop arg po fd (lfind (has_fd po fd) 1 po.nfds) v s
          (lfind-Search (has_fd po fd) 1 po.nfds))
  | inr s ↦ simp (v.allocated, s) (record { code = rw s refl; entries_eq = rw s refl; valid = v })
]
