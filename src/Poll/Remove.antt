-- ===== src/Poll/Remove.antt =====
-- hp_poll_rm of src/hp_poll.c takes the entry of the descriptor out of the table.
use libhp.Common.{
  ℕ, ◌≤◌, ◌≡◌, refl, sym, ap, ◌∙◌, true, false, Option, arith, leb, if◌then◌else◌, subst, lfind,
  Spot-any, remove_first-absent, Search, absent, found, lfind-Search,
}
use libhp.Common.Int.{ℤ, pos, negsuc}
use libhp.Poll.{Poll, close_up, poll_rm_at, has_fd, rm_found, poll_rm}
use libhp.Poll.Table.{
  entry, entries, same_fd, has, remove, FirstOf, search-FirstOf, has-absent, close_up-entries,
}
use libhp.Poll.Refine.{IsValid, Distinct, remove-Distinct, has-remove}

rm_at-close_up : (po : Poll) (k : ℕ) → 1 ≤ k → k ≤ po.nfds → (poll_rm_at po k).1 ≡ close_up po k
unfolding poll_rm_at
rm_at-close_up po k l u =
    let a : leb 1 k ≡ true = ground arith in
    let b : leb k po.nfds ≡ true = ground arith in rw (a, b) refl

close_up-IsValid :
    (po : Poll) (fd : ℤ) (k : ℕ) → IsValid po → FirstOf po fd k → IsValid (close_up po k)
unfolding close_up
close_up-IsValid po fd k v spot = record {
  allocated = v.allocated;
  fits = omega (arith, v.fits);
  distinct =
      subst Distinct (sym (close_up-entries po fd k v.fits spot))
        (remove-Distinct fd (entries po) v.distinct);
}

-- The code, the entries and the validity after the removal.
pub record Removed (po : Poll) (fd : ℤ) (r : ℤ × Poll) : Type 0 where
  pub code : r.0 ≡ (if has fd (entries po) then pos 0 else negsuc 0)
  pub entries_eq : entries r.1 ≡ remove fd (entries po)
  pub valid : IsValid r.1
  pub gone : has fd (entries r.1) ≡ false

rm_found-Removed :
    (po : Poll) (fd : ℤ) (o : Option ℕ)
    → IsValid po
    → Search (has_fd po fd) 1 po.nfds o
    → Removed po fd (rm_found o po)
unfolding rm_found
rm_found-Removed po fd o v (absent h) =
    let no : has fd (entries po) ≡ false = has-absent po fd h in
    record {
      code = rw no refl;
      entries_eq = sym (remove_first-absent (same_fd fd) (entries po) no);
      valid = v;
      gone = no;
    }
rm_found-Removed po fd o v (found k l u m h) =
    let spot : FirstOf po fd k = search-FirstOf po fd k l u m h in
    let same : (poll_rm_at po k).1 ≡ close_up po k = rm_at-close_up po k l (omega arith) in
    let es : entries (poll_rm_at po k).1 ≡ remove fd (entries po) =
      ap entries same ∙ close_up-entries po fd k v.fits spot in
    record {
      code = rw (Spot-any (same_fd fd) (entry po) 1 po.nfds k spot) refl;
      entries_eq = es;
      valid = subst IsValid (sym same) (close_up-IsValid po fd k v spot);
      gone = ap (has fd) es ∙ has-remove fd (entries po) v.distinct;
    }

-- On a valid table, `hp_poll_rm` returns 0 if the descriptor has an entry and -1 if not; it takes that
-- entry out, keeps the others in order, on both sides of `fds`, and leaves a valid table in which the
-- descriptor has no entry.
pub poll_rm-Removed : (po : Poll) (fd : ℤ) → IsValid po → Removed po fd (poll_rm po fd)
unfolding poll_rm
poll_rm-Removed po fd v =
    rm_found-Removed po fd (lfind (has_fd po fd) 1 po.nfds) v
      (lfind-Search (has_fd po fd) 1 po.nfds)
