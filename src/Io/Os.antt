-- ===== src/Io/Os.antt =====
-- What src/hp_io.c uses of the system: `writev`, `read` and `errno`. The kernel answers the n-th call
-- as a parameter says; the rest is what POSIX documents.
use libhp.Common.{ℕ, ◌+◌, Bool, ◌++◌, ◌||◌, ◌==◌, length, take, min, Bytes}

abbrev pub eintr : ℕ
eintr = 4

abbrev pub eio : ℕ
eio = 5

abbrev pub eagain : ℕ
eagain = 11

-- How the kernel answers a `writev`: it takes up to `n` bytes, or fails with an `errno`.
pub data Answer : Type 0 where
  takes : ℕ → Answer
  fails : ℕ → Answer

-- The n-th answer of the kernel.
abbrev pub Kernel : Type 0
Kernel = ℕ → Answer

-- A descriptor that is written to: how often, the last `errno`, and the bytes that went out.
pub record Os : Type 0 where
  pub calls : ℕ
  pub errno : ℕ
  pub out : Bytes

-- A return value of `writev`: a count, or -1.
pub data Written : Type 0 where
  wrote : ℕ → Written
  minus_one : Written

-- `writev` takes no more bytes than there are, and leaves `errno` alone when it succeeds.
unfoldable pub writev_as : Answer → Os → Bytes → Written × Os
writev_as (takes n) os bytes = (
  wrote (min n (length bytes)),
  record os { calls = os.calls + 1; out = os.out ++ take (min n (length bytes)) bytes },
)
writev_as (fails e) os bytes = (minus_one, record os { calls = os.calls + 1; errno = e })

unfoldable pub writev : Kernel → Os → Bytes → Written × Os
unfolding writev_as
writev kernel os bytes = writev_as (kernel os.calls) os bytes

-- `errno == EINTR || errno == EAGAIN`
unfoldable pub is_again : ℕ → Bool
is_again e = (e == eintr) || (e == eagain)
