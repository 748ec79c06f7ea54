-- ===== src/Timerfd.antt =====
-- src/hp_timerfd.c: a timer as a descriptor of an epoll instance. `timerfd_create`, the clock and
-- `timerfd_settime` are parameters.
pub mod Lifetime
mod Tests
use libhp.Common.{
  ℕ, zero, suc, ◌+◌, ◌*◌, ◌/◌, ◌%◌, ◌^◌, Bool, true, false, Option, none, some, ◌==◌, if◌then◌else◌,
  not,
}
use libhp.Common.Int.{ℤ, pos, negsuc, int_eq}
use libhp.Epoll.{Epolld, Epoll, Ctl, Outcome, epoll_add, epoll_rm}

pub record Timerfd : Type 0 where
  pub fd : ℕ
  pub handle : ℕ
  pub has_efds : Bool
  pub arg : ℕ
  pub n : ℕ

pub record Timespec : Type 0 where
  pub tv_sec : ℕ
  pub tv_nsec : ℕ

pub record Itimerspec : Type 0 where
  pub it_value : Timespec
  pub it_interval : Timespec

abbrev stopped : Itimerspec
stopped = record {
  it_value = record { tv_sec = 0; tv_nsec = 0 };
  it_interval = record { tv_sec = 0; tv_nsec = 0 };
}

-- An interval in milliseconds.
unfoldable pub interval_spec : ℕ → Timespec
interval_spec interval = record {
  tv_sec = interval / 1000;
  tv_nsec = (interval * 1000000) % 2 ^ 64 % 1000000000;
}

-- What hp_timerfd_reset sets, given what `clock_gettime` returned, `none` if it failed: a first
-- expiry at that time, that is at once, and then one every `interval`; or none.
unfoldable pub new_value : ℤ → Option Timespec → Option Itimerspec
unfolding interval_spec
new_value (pos zero) now = some stopped
new_value (negsuc n) now = some stopped
new_value (pos (suc n)) (some now) =
    some (record { it_value = now; it_interval = interval_spec (suc n) })
new_value (pos (suc n)) none = none

-- `settime fd spec` tells if `timerfd_settime` fails.
abbrev pub Settime : Type 0
Settime = ℕ → Itimerspec → Bool

unfoldable pub set_timer : Settime → ℕ → Option Itimerspec → ℤ
set_timer settime fd none = negsuc 0
set_timer settime fd (some spec) = if settime fd spec then negsuc 0 else pos 0

unfoldable pub timerfd_reset : Settime → Option Timespec → Timerfd → ℤ → ℤ
unfolding set_timer new_value
timerfd_reset settime now timerfd interval = set_timer settime timerfd.fd (new_value interval now)

-- EPOLLIN | EPOLLET
abbrev pub in_et : ℕ
in_et = 1 + 2 ^ 31

-- The address of hp_timerfd_handle_tfd, as a callback of the epoll instance.
abbrev pub handle_tfd_address : ℕ
handle_tfd_address = 1

-- hp_timerfd_handle_tfd: the expiry count is read, the timer's own count goes up, and `handle` is
-- called with the timer; its result is the callback's.
unfoldable pub handle_tfd :
    {W : Type 0} → (ℕ → Timerfd → W → ℤ × Timerfd × W) → Timerfd → W → ℤ × Timerfd × W
handle_tfd handles timerfd w = handles timerfd.handle (record timerfd { n = timerfd.n + 1 }) w

-- What an initialisation returns and leaves; `none` where an assertion failed.
abbrev pub Ready : Type 0 → Type 0
Ready K = Option (ℤ × Timerfd × Epoll × K)

module _ {K : Type 0} (ctl : Ctl K) (settime : Settime) (now : Option Timespec) where
  unfoldable pub after_reset : ℤ → Timerfd → Epoll → K → Ready K
  after_reset rc timerfd epo k =
      if int_eq rc (pos 0) then some (pos 0, timerfd, epo, k) else some (negsuc 0, timerfd, epo, k)

  -- After hp_epoll_add.
  unfoldable pub after_add : Outcome K → Timerfd → ℤ → Ready K
  unfolding after_reset timerfd_reset
  after_add none timerfd interval = none
  after_add (some (rc, epo, k)) timerfd interval =
      if int_eq rc (pos 0)
      then after_reset (timerfd_reset settime now timerfd interval) timerfd epo k
      else some (negsuc 2, timerfd, epo, k)

  -- The descriptor joins the epoll instance; `self` is the address of the timer.
  unfoldable pub join : ℕ → Timerfd → ℤ → Epoll → K → Ready K
  unfolding after_add epoll_add
  join self timerfd interval epo k =
      after_add (epoll_add ctl epo (pos timerfd.fd) in_et (some handle_tfd_address) none self k)
        timerfd interval

  -- `created` is what `timerfd_create` returns, `none` for -1; `old` is what the timer held before.
  unfoldable pub timerfd_init : Option ℕ → ℕ → Timerfd → ℕ → ℤ → ℕ → Epoll → K → Ready K
  unfolding join
  timerfd_init none self old handle interval arg epo k = some (negsuc 0, old, epo, k)
  timerfd_init (some fd) self old handle interval arg epo k =
      join self (record { fd = fd; handle = handle; has_efds = true; arg = arg; n = 0 }) interval
        epo k

  -- With a descriptor of the caller's; the timer does not keep the epoll instance.
  unfoldable pub timerfd_init2 : Bool → ℕ → ℕ → ℕ → ℤ → ℕ → Epoll → K → Ready K
  unfolding join after_reset timerfd_reset
  timerfd_init2 true fd self handle interval arg epo k =
      join self (record { fd = fd; handle = handle; has_efds = false; arg = arg; n = 0 }) interval
        epo k
  timerfd_init2 false fd self handle interval arg epo k =
      let timerfd : Timerfd = record {
        fd = fd;
        handle = handle;
        has_efds = false;
        arg = arg;
        n = 0;
      } in
      after_reset (timerfd_reset settime now timerfd interval) timerfd epo k

  unfoldable pub after_rm : ℤ × Epoll × K → Option (Epoll × K)
  after_rm (rc, epo, k) = if int_eq rc (pos 0) then some (epo, k) else none

  -- The descriptor is removed and closed, if the timer has the epoll instance.
  unfoldable pub timerfd_uninit : Timerfd → Epoll → K → Option (Epoll × K)
  unfolding after_rm epoll_rm
  timerfd_uninit timerfd epo k =
      if timerfd.has_efds then after_rm (epoll_rm ctl epo (pos timerfd.fd) k) else some (epo, k)
