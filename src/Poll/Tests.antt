-- ===== src/Poll/Tests.antt =====
-- The poll table of src/hp_poll.c at concrete tables and clients.
use libhp.Common.{
  ℕ, ◌-◌, ◌<◌, ◌≡◌, refl, ap, ◌∙◌, true, none, some, List, [], ◌∷◌, ◌++◌, arith, put, put-same,
  put-other, ◌==◌, not,
}
use libhp.Common.Int.{pos, negsuc}
use libhp.Poll.{
  Pollfd, Polld, Poll, polld, below, poll_add, poll_rm, poll_find, has_fd, rm_found, poll_rm_at,
  close_up, arg_at, do_find,
}
use libhp.Poll.Refine.{IsValid}
use libhp.Poll.Add.{Added, poll_add-Added}
use libhp.Poll.Remove.{Removed, poll_rm-Removed}
use libhp.Poll.Run.{Client, ready, polled, run_once, call_before}
use libhp.Poll.Run.Visit.{IsPrompt, HasFns, once, run_once-once}

abbrev no_fd : ℕ → Pollfd
no_fd i = record { fd = negsuc 0; events = 0; revents = 0 }

abbrev data_of : ℕ → Polld
data_of a = record { fn = some 7; arg = 5 - a; on_loop = none }

-- Two descriptors, 10 and 11, in a table of four.
abbrev two : Poll
two = record {
  fds =
      put 1 (record { fd = pos 10; events = 1; revents = 0 })
        (put 2 (record { fd = pos 11; events = 1; revents = 4 }) no_fd);
  cells = data_of;
  allocated = true;
  nfds = 2;
  max_fd = 4;
  timeout = pos 1000;
  before_wait = none;
  arg = 0;
}

two-IsValid : IsValid two
unfolding polld below
two-IsValid = record { allocated = refl; fits = omega arith; distinct = (refl, (refl, tt)) }

poll_add-Added_example :
    Added 3 (some 8) none 9 two (pos 12) (poll_add two (pos 12) 3 (some 8) none 9)
poll_add-Added_example = poll_add-Added two (pos 12) 3 (some 8) none 9 two-IsValid

poll_rm-Removed_example : Removed two (pos 10) (poll_rm two (pos 10))
poll_rm-Removed_example = poll_rm-Removed two (pos 10) two-IsValid

-- The `arg` of descriptor 11 moves with it.
find_after_rm : poll_find (poll_rm two (pos 10)).1 2 none ≡ 2
unfolding poll_find poll_rm arg_at do_find polld below rm_found poll_rm_at close_up has_fd
find_after_rm = refl

-- A client that notes the index and the `arg` of each call, and clears the entry.
abbrev noting : Client (List (ℕ × ℕ))
noting = record {
  before_wait = λ f po w. (pos 0, po, w);
  fn = λ f i arg po w.
      (record po { fds = put i (record (po.fds i) { revents = 0 }) po.fds }, w ++ (i, arg) ∷ []);
  on_loop = λ f arg po w. (po, w);
}

noting-IsPrompt : IsPrompt noting
unfolding polled polld below
noting-IsPrompt = record {
  clears = λ f i arg po w.
      ap (λ p. not (p.revents == 0)) (put-same i (record (po.fds i) { revents = 0 }) po.fds);
  sets_none = λ f i arg j po w l h.
      ap (λ p. not (p.revents == 0))
        (put-other i j (record (po.fds i) { revents = 0 }) po.fds (omega arith))
      ∙ h;
  keeps_nfds = λ f i arg po w. refl;
  keeps_polld = λ f i arg j po w. refl;
  loop_nfds = λ f arg po w. refl;
}

two-HasFns : HasFns (call_before noting none two []).1
unfolding call_before polld below
two-HasFns i l u = (7, refl)

two-size : (call_before noting none two []).1.nfds < 3
unfolding call_before
two-size = omega arith

run_once-once_example :
    run_once noting 3 (ready 2 (λ i. i)) two []
    ≡ some (once noting (λ i. i) (call_before noting none two []))
run_once-once_example = run_once-once noting 3 1 (λ i. i) two [] noting-IsPrompt two-HasFns two-size
