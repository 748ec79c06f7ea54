-- ===== src/Timerfd/Tests.antt =====
-- The timer of src/hp_timerfd.c on an epoll instance without entries.
use libhp.Common.{refl, true, false, none, some, arith}
use libhp.Common.Int.{pos}
use libhp.Epoll.{Epoll}
use libhp.Epoll.Table.{entries, IsValid}
use libhp.Epoll.Kernel.{Interest, linux, registered, linux-IsEpoll}
use libhp.Timerfd.{Timerfd, Settime, timerfd_init}
use libhp.Timerfd.Lifetime.{Lifetime, timerfd_init-Lifetime}

abbrev empty : Epoll
empty = record {
  fd = 4;
  allocated = true;
  ed = λ i. 0;
  ev_len = 0;
  max_ev_len = 2;
  timeout = pos 1000;
  before_wait = none;
  arg = 0;
  nodes = λ p. none;
  next = 1;
}

abbrev nothing : Interest
nothing fd = none

empty-IsValid : IsValid empty
empty-IsValid = record {
  allocated = refl;
  fits = omega arith;
  live = λ i l. ground arith;
  old = λ i l. omega arith;
  apart = λ i j l u e. omega arith;
}

abbrev unset : Timerfd
unset = record { fd = 0; handle = 0; has_efds = false; arg = 0; n = 0 }

abbrev settime_works : Settime
settime_works fd spec = false

timerfd_init-Lifetime_example :
    Lifetime linux registered settime_works
      (some (record { tv_sec = 5; tv_nsec = 0 }))
      (entries empty)
      (timerfd_init linux settime_works
        (some (record { tv_sec = 5; tv_nsec = 0 }))
        (some 9)
        40
        unset
        6
        (pos 1500)
        7
        empty
        nothing)
timerfd_init-Lifetime_example =
    timerfd_init-Lifetime linux registered settime_works (some (record { tv_sec = 5; tv_nsec = 0 }))
      9 40 unset 6 (pos 1500) 7 empty nothing linux-IsEpoll empty-IsValid
      (λ fd ptr h. ground (arith, h)) refl
