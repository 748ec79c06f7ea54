-- ===== src/Epoll/Table.antt =====
-- The table of src/hp_epoll.c as a list of entries, and what the kernel may hold of it.
use libhp.Common.{
  ℕ, suc, ◌+◌, ◌-◌, ◌≤◌, ◌<◌, ◌≡◌, ◌≢◌, refl, sym, ap, ◌∙◌, ◌⊎◌, inl, inr, Bool-cases, true, false,
  Option, none, some, List, arith, ltb, slots, put-other, memmove-inside, memmove-below, any,
  any-slots, Spot, hit-Spot,
}
use libhp.Common.Int.{ℤ, int_eq, int_eq_sound}
use libhp.Epoll.{
  Epolld, Epoll, Op, ctl_add, ctl_mod, ctl_del, Ctl, eexist, node_has_fd, has_fd, close_up,
}

abbrev pub cell : Epoll → ℕ → Option Epolld
cell epo i = epo.nodes (epo.ed i)

-- The entries that are in use.
abbrev pub entries : Epoll → List (Option Epolld)
entries epo = slots (cell epo) 0 epo.ev_len

-- Every entry points to an `hp_epolld` of its own that is allocated.
pub record IsValid (epo : Epoll) : Type 0 where
  pub allocated : epo.allocated ≡ true
  pub fits : epo.ev_len ≤ epo.max_ev_len
  pub live : (i : ℕ) → i < epo.ev_len → (d : Epolld) × (cell epo i ≡ some d)
  pub old : (i : ℕ) → i < epo.ev_len → epo.ed i < epo.next
  pub apart : (i j : ℕ) → i < epo.ev_len → j < epo.ev_len → epo.ed i ≡ epo.ed j → i ≡ j

-- The documented behaviour of `epoll_ctl`, where `registered k fd` is the pointer that the kernel
-- holds for `fd`: a call is about one descriptor; adding and modifying set the pointer or change
-- nothing; EEXIST is for a descriptor that is registered; after a removal, failed or not, the
-- descriptor is not registered.
pub record IsEpoll {K : Type 0} (ctl : Ctl K) (registered : K → ℤ → Option ℕ) : Type 0 where
  pub others :
      (op : Op) (fd fd' : ℤ) (events ptr : ℕ) (k : K)
      → int_eq fd' fd ≡ false
      → registered (ctl op fd events ptr k).1 fd' ≡ registered k fd'
  pub adds :
      (fd : ℤ) (events ptr : ℕ) (k : K)
      → (ctl ctl_add fd events ptr k).0 ≡ none
      → registered (ctl ctl_add fd events ptr k).1 fd ≡ some ptr
  pub fails :
      (fd : ℤ) (events ptr e : ℕ) (k : K)
      → (ctl ctl_add fd events ptr k).0 ≡ some e
      → registered (ctl ctl_add fd events ptr k).1 fd ≡ registered k fd
  pub mods :
      (fd : ℤ) (events ptr : ℕ) (k : K)
      → (registered (ctl ctl_mod fd events ptr k).1 fd ≡ some ptr)
        ⊎ (registered (ctl ctl_mod fd events ptr k).1 fd ≡ registered k fd)
  pub exists :
      (fd : ℤ) (events ptr : ℕ) (k : K)
      → (ctl ctl_add fd events ptr k).0 ≡ some eexist
      → (p : ℕ) × (registered k fd ≡ some p)
  pub dels :
      (fd : ℤ) (events ptr : ℕ) (k : K) → registered (ctl ctl_del fd events ptr k).1 fd ≡ none

-- A pointer that is in the table, to an allocated `hp_epolld` of the descriptor.
pub record InTable (epo : Epoll) (fd : ℤ) (ptr : ℕ) : Type 0 where
  pub index : ℕ
  pub low : index < epo.ev_len
  pub points : epo.ed index ≡ ptr
  pub matches : node_has_fd fd (epo.nodes ptr) ≡ true

-- The kernel holds no dangling pointer.
abbrev pub NoDangling : {K : Type 0} → (K → ℤ → Option ℕ) → Epoll → K → Type 0
NoDangling registered epo k = (fd : ℤ) (ptr : ℕ) → registered k fd ≡ some ptr → InTable epo fd ptr

-- What a search for the descriptor found.
abbrev pub FirstOf : Epoll → ℤ → ℕ → Type 0
FirstOf epo fd = Spot (node_has_fd fd) (cell epo) 0 epo.ev_len

pub search-FirstOf :
    (epo : Epoll) (fd : ℤ) (k : ℕ)
    → k < 0 + epo.ev_len
    → has_fd epo fd k ≡ true
    → ((j : ℕ) → 0 ≤ j → j < k → has_fd epo fd j ≡ false)
    → FirstOf epo fd k
unfolding has_fd
search-FirstOf epo fd k u m h =
    hit-Spot (node_has_fd fd) (cell epo) 0 epo.ev_len k (omega arith) u m h

pub any-absent :
    (epo : Epoll) (fd : ℤ)
    → ((j : ℕ) → 0 ≤ j → j < 0 + epo.ev_len → has_fd epo fd j ≡ false)
    → any (node_has_fd fd) (entries epo) ≡ false
unfolding has_fd
any-absent epo fd h = any-slots (node_has_fd fd) (cell epo) 0 epo.ev_len h

-- The pointers after entry k is closed up.
pub close_up-ed_before : (epo : Epoll) (k j : ℕ) → j < k → (close_up k epo).ed j ≡ epo.ed j
unfolding close_up
close_up-ed_before epo k j l = elim (Bool-cases (ltb (k + 1) epo.ev_len)) [
  | inl inner ↦ rw inner (memmove-below k (k + 1) (epo.ev_len - (k + 1)) j epo.ed l)
  | inr last ↦ rw last refl
]

pub close_up-ed_after :
    (epo : Epoll) (k j : ℕ) → k ≤ j → suc j < epo.ev_len → (close_up k epo).ed j ≡ epo.ed (j + 1)
unfolding close_up
close_up-ed_after epo k j l u =
    let inner : ltb (k + 1) epo.ev_len ≡ true = ground arith in
    rw inner (
      memmove-inside k (k + 1) (epo.ev_len - (k + 1)) j epo.ed l (omega arith)
      ∙ ap epo.ed (omega arith))

-- Only entry k's node is freed.
pub close_up-node :
    (epo : Epoll) (k ptr : ℕ) → ptr ≢ epo.ed k → (close_up k epo).nodes ptr ≡ epo.nodes ptr
unfolding close_up
close_up-node epo k ptr ne = put-other (epo.ed k) ptr none epo.nodes ne

pub close_up-sizes :
    (epo : Epoll) (k : ℕ)
    → ((close_up k epo).ev_len ≡ epo.ev_len - 1)
      × ((close_up k epo).max_ev_len ≡ epo.max_ev_len)
      × ((close_up k epo).allocated ≡ epo.allocated)
      × ((close_up k epo).next ≡ epo.next)
unfolding close_up
close_up-sizes epo k = (refl, refl, refl, refl)

-- A node is of one descriptor.
pub node_has_fd-same :
    (fd fd' : ℤ) (o : Option Epolld) → node_has_fd fd o ≡ true → node_has_fd fd' o ≡ true → fd ≡ fd'
unfolding node_has_fd
node_has_fd-same fd fd' (some d) h h' = sym (int_eq_sound d.fd fd h) ∙ int_eq_sound d.fd fd' h'
node_has_fd-same fd fd' none h h' = ground arith
