-- ===== src/Poll/Refine.antt =====
-- hp_poll_add, hp_poll_rm and hp_poll_find of src/hp_poll.c against the abstract table.
use libhp.Common.{
  ◌≤◌, ◌≡◌, refl, sym, ap, ◌∙◌, inl, inr, Bool-cases, true, false, List, [], ◌∷◌, arith,
}
use libhp.Common.Int.{ℤ, int_eq, int_eq_sound, int_eq_comm}
use libhp.Poll.{Poll}
use libhp.Poll.Table.{Entry, entries, same_fd, has, remove, replace}

-- No descriptor has two entries.
abbrev pub Distinct : List Entry → Type 0
Distinct [] = Unit
Distinct (e ∷ es) = (has e.0.fd es ≡ false) × Distinct es

pub record IsValid (po : Poll) : Type 0 where
  pub allocated : po.allocated ≡ true
  pub fits : po.nfds ≤ po.max_fd
  pub distinct : Distinct (entries po)

-- Removing an entry adds no descriptor.
has-remove_other : (a fd : ℤ) (es : List Entry) → has a es ≡ false → has a (remove fd es) ≡ false
has-remove_other a fd [] h = refl
has-remove_other a fd (e ∷ es) h = elim (Bool-cases (same_fd fd e)) [
  | inl q ↦ rw q (ground (arith, h))
  | inr q ↦ rw q (elim (Bool-cases (same_fd a e)) [
    | inl r ↦ ground (arith, h, r)
    | inr r ↦ rw r (has-remove_other a fd es (rw r at h))
  ])
]

pub remove-Distinct : (fd : ℤ) (es : List Entry) → Distinct es → Distinct (remove fd es)
remove-Distinct fd [] d = tt
remove-Distinct fd (e ∷ es) d = elim (Bool-cases (same_fd fd e)) [
  | inl q ↦ rw q d.1
  | inr q ↦ rw q (has-remove_other e.0.fd fd es d.0, remove-Distinct fd es d.1)
]

-- With no duplicates, the descriptor is gone.
pub has-remove : (fd : ℤ) (es : List Entry) → Distinct es → has fd (remove fd es) ≡ false
has-remove fd [] d = refl
has-remove fd (e ∷ es) d = elim (Bool-cases (same_fd fd e)) [
  | inl q ↦ rw q (ap (λ a. has a es) (sym (int_eq_sound e.0.fd fd q)) ∙ d.0)
  | inr q ↦ rw (q, q) (has-remove fd es d.1)
]

has-replace_other :
    (a fd : ℤ) (x : Entry) (es : List Entry)
    → same_fd a x ≡ false
    → has a es ≡ false
    → has a (replace fd x es) ≡ false
has-replace_other a fd x [] n h = rw n refl
has-replace_other a fd x (e ∷ es) n h = elim (Bool-cases (same_fd fd e)) [
  | inl q ↦ elim (Bool-cases (same_fd a e)) [
    | inl r ↦ ground (arith, h, r)
    | inr r ↦ rw (q, n) (rw r at h)
  ]
  | inr q ↦ elim (Bool-cases (same_fd a e)) [
    | inl r ↦ ground (arith, h, r)
    | inr r ↦ rw (q, r) (has-replace_other a fd x es n (rw r at h))
  ]
]

pub replace-Distinct :
    (fd : ℤ) (x : Entry) (es : List Entry) → x.0.fd ≡ fd → Distinct es → Distinct (replace fd x es)
replace-Distinct fd x [] own d = (refl, tt)
replace-Distinct fd x (e ∷ es) own d = elim (Bool-cases (same_fd fd e)) [
  | inl q ↦ rw q (ap (λ a. has a es) (own ∙ sym (int_eq_sound e.0.fd fd q)) ∙ d.0, d.1)
  | inr q ↦ rw q (
    has-replace_other e.0.fd fd x es (ap (λ a. int_eq a e.0.fd) own ∙ int_eq_comm fd e.0.fd ∙ q)
        d.0,
    replace-Distinct fd x es own d.1,
  )
]
