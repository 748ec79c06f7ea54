-- ===== src/Epoll/Tests.antt =====
-- The epoll table of src/hp_epoll.c over a concrete kernel and client.
use libhp.Common.{ℕ, zero, suc, ◌+◌, ◌<◌, ◌≡◌, refl, true, none, some, List, [], ◌∷◌, arith, put}
use libhp.Common.Int.{ℤ, pos, negsuc}
use libhp.Epoll.{Epolld, Epoll, node_has_fd, epoll_add, epoll_rm}
use libhp.Epoll.Table.{IsValid, NoDangling}
use libhp.Epoll.Kernel.{Interest, upd, linux, registered, linux-IsEpoll}
use libhp.Epoll.Remove.{Removed, epoll_rm-Removed}
use libhp.Epoll.Add.{Added, epoll_add-Added}
use libhp.Epoll.Run.{Event, Client, ready, run_once, call_before}
use libhp.Epoll.Run.Pass.{IsStable, AllLive, once, epoll_run_once-once}

abbrev node : ℤ → Epolld
node fd = record { fd = fd; fn = some 7; arg = 3; on_loop = some 8 }

-- One descriptor, 10, at pointer 1.
abbrev one : Epoll
one = record {
  fd = 4;
  allocated = true;
  ed = λ i. i + 1;
  ev_len = 1;
  max_ev_len = 2;
  timeout = pos 1000;
  before_wait = none;
  arg = 0;
  nodes = put 1 (some (node (pos 10))) (λ p. none);
  next = 2;
}

abbrev one_interest : Interest
one_interest = upd (pos 10) (some 1) (λ fd. none)

one_live : (i : ℕ) → i < 1 → one.nodes (one.ed i) ≡ some (node (pos 10))
one_live zero l = refl
one_live (suc i) l = ground arith

one-IsValid : IsValid one
one-IsValid = record {
  allocated = refl;
  fits = omega arith;
  live = λ i l. (node (pos 10), one_live i l);
  old = λ i l. omega arith;
  apart = λ i j l u e. omega arith;
}

one-NoDangling : NoDangling registered one one_interest
unfolding node_has_fd
one-NoDangling (pos n) ptr h = record {
  index = 0;
  low = omega arith;
  points = ground arith;
  matches = ground arith;
}
one-NoDangling (negsuc n) ptr h = ground arith

epoll_rm-Removed_example :
    Removed linux registered one (pos 10) (epoll_rm linux one (pos 10) one_interest)
epoll_rm-Removed_example =
    epoll_rm-Removed linux registered one (pos 10) one_interest linux-IsEpoll one-IsValid
      one-NoDangling

epoll_add-Added_example :
    Added linux registered one
      (node (pos 11))
      1
      one_interest
      (epoll_add linux one (pos 11) 1 (some 7) (some 8) 3 one_interest)
epoll_add-Added_example =
    epoll_add-Added linux registered one (node (pos 11)) 1 one_interest linux-IsEpoll one-IsValid
      one-NoDangling

-- A client that counts the calls.
abbrev counting : Client ℕ
counting = record {
  before_wait = λ f epo w. (pos 0, epo, w);
  fn = λ f ev arg epo w. (epo, w + 1);
  on_loop = λ f arg epo w. (epo, w + 100);
}

counting-IsStable : IsStable counting
counting-IsStable = record { fn_keeps = λ f ev arg epo w. refl; loop_keeps = λ f arg epo w. refl }

abbrev one_event : List Event
one_event = record { events = 1; ptr = 1 } ∷ []

one-IsValid_before : IsValid (call_before counting none one 0).1
unfolding call_before
one-IsValid_before = one-IsValid

one-AllLive : AllLive (call_before counting none one 0).1 one_event
unfolding call_before
one-AllLive = (λ ne. (node (pos 10), refl), tt)

one-size : (call_before counting none one 0).1.ev_len < 2
unfolding call_before
one-size = omega arith

epoll_run_once-once_example :
    run_once counting 2 (ready one_event) one 0
    ≡ some (once counting one_event (call_before counting none one 0))
epoll_run_once-once_example =
    epoll_run_once-once counting 2 one_event one 0 counting-IsStable one-IsValid_before one-AllLive
      one-size
