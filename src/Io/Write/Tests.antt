-- ===== src/Io/Write/Tests.antt =====
-- The write queue of src/hp_io.c at concrete queues and kernels.
use libhp.Common.{ℕ, zero, suc, ◌+◌, ◌<◌, ◌≡◌, ◌≢◌, refl, true, some, List, [], ◌∷◌, ◌++◌, arith}
use libhp.Io.Os.{Os, Kernel, takes, fails, eagain, is_again, writev}
use libhp.Io.Vec.{Uio, uio_write, before_writev, iovec_total_bytes, write_err}
use libhp.Io.Vec.Send.{IsPosix, Sent, uio_write-Sent}
use libhp.Io.Write.{
  Item, fn, copy_fn, Wr, Flushed, wr_init, wr_add, new_item, wr_bytes, wr_write, reserve,
}
use libhp.Io.Write.Capacity.{IsValid, wr_init-IsValid, wr_add-IsValid}
use libhp.Io.Write.Totals.{wr_bytes-wr_write}

-- A kernel that takes three bytes, and then has no room.
abbrev slow : Kernel
slow zero = takes 3
slow (suc i) = fails eagain

slow-IsPosix : IsPosix slow
slow-IsPosix = record { takes_some = some_taken; sets_errno = errno_set }
  where
    some_taken : (i n : ℕ) → slow i ≡ takes n → n ≢ 0
    some_taken zero n e = ground arith
    some_taken (suc i) n e = ground arith

    errno_set : (i e : ℕ) → slow i ≡ fails e → e ≢ 0
    errno_set zero e q = ground arith
    errno_set (suc i) e q = ground arith

abbrev quiet : Os
quiet = record { calls = 0; errno = 0; out = [] }

abbrev two_items : List Item
two_items =
    record { ptr = 7; free = fn 1; vec = b'a' ∷ b'b' ∷ [] }
    ∷ record { ptr = 9; free = copy_fn; vec = b'c' ∷ b'd' ∷ b'e' ∷ [] }
    ∷ []

abbrev queue : Wr
queue = record {
  o_items = two_items;
  init_len = 2;
  items_cap = 8;
  allocated = true;
  o_bytes = 0;
  has_write_error = true;
  err = 0;
  freed = [];
  reported = [];
}

queue-IsValid : IsValid queue
queue-IsValid = record {
  power = record { doublings = 2; cap_eq = refl; init_pos = omega arith };
  fits = omega arith;
}

abbrev flushed_queue : Flushed
flushed_queue = record {
  bytes = 3;
  wr = record queue {
    o_items = record { ptr = 9; free = copy_fn; vec = b'd' ∷ b'e' ∷ [] } ∷ [];
    o_bytes = 3;
    freed = (fn 1, 7) ∷ [];
  };
  os = record { calls = 2; errno = eagain; out = b'a' ∷ b'b' ∷ b'c' ∷ [] };
}

slow_write : wr_write slow 1024 queue quiet ≡ some flushed_queue
unfolding wr_write uio_write writev before_writev is_again iovec_total_bytes write_err
slow_write = refl

-- The capacities that the test of the program expects: six items in an array of eight places.
capacity_grows : (reserve 8 8 4 ≡ 8) × (reserve 8 8 5 ≡ 16) × (reserve 8 16 0 ≡ 8)
unfolding reserve
capacity_grows = (refl, refl, refl)

uio_write-Sent_example :
    (u : Uio) × (uio_write slow quiet ((b'a' ∷ []) ∷ (b'b' ∷ b'c' ∷ b'd' ∷ []) ∷ []) 4 ≡ some u)
    × Sent ((b'a' ∷ []) ∷ (b'b' ∷ b'c' ∷ b'd' ∷ []) ∷ []) [] u
uio_write-Sent_example =
    uio_write-Sent slow slow-IsPosix quiet ((b'a' ∷ []) ∷ (b'b' ∷ b'c' ∷ b'd' ∷ []) ∷ [])
      (omega arith)

wr_init-IsValid_example : IsValid (wr_init 5 true)
wr_init-IsValid_example = wr_init-IsValid 5 true

wr_add-IsValid_example :
    (wr : Wr) × (wr_add queue 64 (b'f' ∷ []) copy_fn 0 96 ≡ some wr)
    × (2 < wr.items_cap)
    × (wr.o_items ≡ two_items ++ new_item 64 (b'f' ∷ []) copy_fn 0 96 ∷ [])
    × IsValid wr
wr_add-IsValid_example =
    wr_add-IsValid queue queue-IsValid 64 (b'f' ∷ []) copy_fn 0 96 (omega arith)

wr_bytes-wr_write_example :
    (r : Flushed) × (wr_write slow 1024 queue quiet ≡ some r)
    × (r.bytes + wr_bytes r.wr ≡ wr_bytes queue)
wr_bytes-wr_write_example =
    wr_bytes-wr_write slow slow-IsPosix 1024 queue quiet (omega arith) (omega arith)
