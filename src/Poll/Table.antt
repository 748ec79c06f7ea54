-- ===== src/Poll/Table.antt =====
-- The table of src/hp_poll.c as a list of entries: what adding, removing and finding do to it.
use libhp.Common.{
  ℕ, ◌+◌, ◌-◌, ◌≤◌, ◌<◌, ◌≡◌, refl, sym, ap, ap₂, ◌∙◌, inl, inr, Bool-cases, Bool, true, false,
  List, arith, ltb, slots, slots-close_up, any, remove_first, replace_first, any-slots, Spot,
  hit-Spot, Spot-remove_first, memmove-inside, memmove-below, memmove-above,
}
use libhp.Common.Int.{ℤ, int_eq}
use libhp.Poll.{Pollfd, Polld, Poll, below, polld, close_up, has_fd}

abbrev pub Entry : Type 0
Entry = Pollfd × Polld

abbrev pub entry : Poll → ℕ → Entry
entry po i = (po.fds i, polld po i)

-- The entries that are in use.
abbrev pub entries : Poll → List Entry
entries po = slots (entry po) 1 po.nfds

abbrev pub same_fd : ℤ → Entry → Bool
same_fd fd e = int_eq e.0.fd fd

-- The abstract table: the first entry of a descriptor is the one that is meant.
abbrev pub has : ℤ → List Entry → Bool
has fd = any (same_fd fd)

abbrev pub remove : ℤ → List Entry → List Entry
remove fd = remove_first (same_fd fd)

abbrev pub replace : ℤ → Entry → List Entry → List Entry
replace fd = replace_first (same_fd fd)

-- What a search for the descriptor found.
abbrev pub FirstOf : Poll → ℤ → ℕ → Type 0
FirstOf po fd = Spot (same_fd fd) (entry po) 1 po.nfds

pub search-FirstOf :
    (po : Poll) (fd : ℤ) (k : ℕ)
    → 1 ≤ k
    → k < 1 + po.nfds
    → has_fd po fd k ≡ true
    → ((j : ℕ) → 1 ≤ j → j < k → has_fd po fd j ≡ false)
    → FirstOf po fd k
unfolding has_fd
search-FirstOf po fd k l u m h = hit-Spot (same_fd fd) (entry po) 1 po.nfds k l u m h

pub has-absent :
    (po : Poll) (fd : ℤ)
    → ((j : ℕ) → 1 ≤ j → j < 1 + po.nfds → has_fd po fd j ≡ false)
    → has fd (entries po) ≡ false
unfolding has_fd
has-absent po fd h = any-slots (same_fd fd) (entry po) 1 po.nfds h

-- Closing up takes entry k out, on both sides of `fds`.
close_up-before :
    (po : Poll) (k j : ℕ)
    → po.nfds ≤ po.max_fd
    → j < k
    → k ≤ po.nfds
    → entry (close_up po k) j ≡ entry po j
unfolding close_up polld below
close_up-before po k j fits l u = elim (Bool-cases (ltb k po.nfds)) [
  | inl inner ↦ rw inner (
      ap₂ (λ x y. (x, y)) (memmove-below k (k + 1) (po.nfds - k) j po.fds l)
        (memmove-above (((po.max_fd + 1) - po.nfds) + 1) ((po.max_fd + 1) - po.nfds) (po.nfds - k)
          ((po.max_fd + 1) - j) po.cells (omega arith)))
  | inr last ↦ rw last refl
]

close_up-after :
    (po : Poll) (k j : ℕ)
    → po.nfds ≤ po.max_fd
    → k ≤ j
    → j < po.nfds
    → entry (close_up po k) j ≡ entry po (j + 1)
unfolding close_up polld below
close_up-after po k j fits l u =
    let inner : ltb k po.nfds ≡ true = ground arith in
    rw inner (
      ap₂ (λ x y. (x, y))
        (memmove-inside k (k + 1) (po.nfds - k) j po.fds l (omega arith) ∙ ap po.fds (omega arith))
        (memmove-inside (((po.max_fd + 1) - po.nfds) + 1) ((po.max_fd + 1) - po.nfds) (po.nfds - k)
            ((po.max_fd + 1) - j) po.cells (omega arith) (omega arith)
          ∙ ap po.cells (omega arith)))

pub close_up-nfds : (po : Poll) (k : ℕ) → (close_up po k).nfds ≡ po.nfds - 1
unfolding close_up
close_up-nfds po k = refl

pub close_up-entries :
    (po : Poll) (fd : ℤ) (k : ℕ)
    → po.nfds ≤ po.max_fd
    → FirstOf po fd k
    → entries (close_up po k) ≡ remove fd (entries po)
close_up-entries po fd k fits spot =
    ap (slots (entry (close_up po k)) 1) (close_up-nfds po k)
    ∙ slots-close_up (entry po) (entry (close_up po k)) 1 po.nfds k spot.low spot.high
        (λ j l u. close_up-before po k j fits u (omega (arith, spot.high)))
        (λ j l u. close_up-after po k j fits l (omega arith))
    ∙ sym (Spot-remove_first (same_fd fd) (entry po) 1 po.nfds k spot)
