-- ===== src/Epoll/Kernel.antt =====
-- A kernel for src/hp_epoll.c whose `epoll_ctl` behaves as documented: the tests run on it.
use libhp.Common.{ℕ, ◌≡◌, ◌⊎◌, inl, inr, refl, false, Option, none, some, arith, if◌then◌else◌}
use libhp.Common.Int.{ℤ, int_eq, int_eq_refl}
use libhp.Epoll.{Op, ctl_add, ctl_mod, ctl_del, Ctl, eexist}
use libhp.Epoll.Table.{IsEpoll}

-- The kernel's interest list, as the pointer of each descriptor.
abbrev pub Interest : Type 0
Interest = ℤ → Option ℕ

abbrev pub upd : ℤ → Option ℕ → Interest → Interest
upd fd o k a = if int_eq a fd then o else k a

-- Adding fails on what is registered, the other operations on what is not.
abbrev ctl_as : Op → Option ℕ → ℤ → ℕ → Interest → Option ℕ × Interest
ctl_as ctl_add none fd ptr k = (none, upd fd (some ptr) k)
ctl_as ctl_add (some p) fd ptr k = (some eexist, k)
ctl_as ctl_mod none fd ptr k = (some 2, k)
ctl_as ctl_mod (some p) fd ptr k = (none, upd fd (some ptr) k)
ctl_as ctl_del none fd ptr k = (some 2, k)
ctl_as ctl_del (some p) fd ptr k = (none, upd fd none k)

abbrev pub linux : Ctl Interest
linux op fd events ptr k = ctl_as op (k fd) fd ptr k

abbrev pub registered : Interest → ℤ → Option ℕ
registered k fd = k fd

upd-same : (fd : ℤ) (o : Option ℕ) (k : Interest) → upd fd o k fd ≡ o
upd-same fd o k = rw (int_eq_refl fd) refl

ctl_as-others :
    (op : Op) (o : Option ℕ) (fd fd' : ℤ) (ptr : ℕ) (k : Interest)
    → int_eq fd' fd ≡ false
    → (ctl_as op o fd ptr k).1 fd' ≡ k fd'
ctl_as-others ctl_add none fd fd' ptr k ne = rw ne refl
ctl_as-others ctl_add (some p) fd fd' ptr k ne = refl
ctl_as-others ctl_mod none fd fd' ptr k ne = refl
ctl_as-others ctl_mod (some p) fd fd' ptr k ne = rw ne refl
ctl_as-others ctl_del none fd fd' ptr k ne = refl
ctl_as-others ctl_del (some p) fd fd' ptr k ne = rw ne refl

ctl_as-adds :
    (o : Option ℕ) (fd : ℤ) (ptr : ℕ) (k : Interest)
    → (ctl_as ctl_add o fd ptr k).0 ≡ none
    → (ctl_as ctl_add o fd ptr k).1 fd ≡ some ptr
ctl_as-adds none fd ptr k h = upd-same fd (some ptr) k
ctl_as-adds (some p) fd ptr k h = ground arith

ctl_as-fails :
    (o : Option ℕ) (fd : ℤ) (ptr e : ℕ) (k : Interest)
    → (ctl_as ctl_add o fd ptr k).0 ≡ some e
    → (ctl_as ctl_add o fd ptr k).1 fd ≡ k fd
ctl_as-fails none fd ptr e k h = ground arith
ctl_as-fails (some p) fd ptr e k h = refl

ctl_as-mods :
    (o : Option ℕ) (fd : ℤ) (ptr : ℕ) (k : Interest)
    → ((ctl_as ctl_mod o fd ptr k).1 fd ≡ some ptr) ⊎ ((ctl_as ctl_mod o fd ptr k).1 fd ≡ k fd)
ctl_as-mods none fd ptr k = inr refl
ctl_as-mods (some p) fd ptr k = inl (upd-same fd (some ptr) k)

ctl_as-exists :
    (o : Option ℕ) (fd : ℤ) (ptr : ℕ) (k : Interest)
    → k fd ≡ o
    → (ctl_as ctl_add o fd ptr k).0 ≡ some eexist
    → (p : ℕ) × (k fd ≡ some p)
ctl_as-exists none fd ptr k e h = ground arith
ctl_as-exists (some p) fd ptr k e h = (p, e)

ctl_as-dels :
    (o : Option ℕ) (fd : ℤ) (ptr : ℕ) (k : Interest)
    → k fd ≡ o
    → (ctl_as ctl_del o fd ptr k).1 fd ≡ none
ctl_as-dels none fd ptr k e = e
ctl_as-dels (some p) fd ptr k e = upd-same fd none k

pub linux-IsEpoll : IsEpoll linux registered
linux-IsEpoll = record {
  others = λ op fd fd' events ptr k ne. ctl_as-others op (k fd) fd fd' ptr k ne;
  adds = λ fd events ptr k h. ctl_as-adds (k fd) fd ptr k h;
  fails = λ fd events ptr e k h. ctl_as-fails (k fd) fd ptr e k h;
  mods = λ fd events ptr k. ctl_as-mods (k fd) fd ptr k;
  exists = λ fd events ptr k h. ctl_as-exists (k fd) fd ptr k refl h;
  dels = λ fd events ptr k. ctl_as-dels (k fd) fd ptr k refl;
}
