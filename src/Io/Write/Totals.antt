-- ===== src/Io/Write/Totals.antt =====
-- What a caller sees of hp_wr_write through hp_wr_bytes and hp_wr_clear.
use libhp.Common.{
  ℕ, ◌+◌, ◌%◌, ◌^◌, ◌<◌, ◌≡◌, ap, some, List, [], ◌∷◌, arith, length, length-append, length-drop,
}
use libhp.Io.Os.{Os, Kernel}
use libhp.Io.Vec.Send.{IsPosix}
use libhp.Io.Write.{Item, FreeFn, Ptr, Wr, Flushed, wr_bytes, bytes_loop, wr_write}
use libhp.Io.Write.Capacity.{IsValid}
use libhp.Io.Write.Moves.{stream, owners, length-owners}
use libhp.Io.Write.Flush.{wr_write-Result}

bytes_loop_lem :
    (items : List Item) (n : ℕ)
    → n + length (stream items) < 2 ^ 32
    → bytes_loop items n ≡ n + length (stream items)
unfolding bytes_loop
bytes_loop_lem [] n h = omega arith
bytes_loop_lem (x ∷ items) n h =
    omega (
      arith,
      bytes_loop_lem items ((n + length x.vec) % 2 ^ 32),
      length-append x.vec (stream items),
    )

-- With fewer than 2^31 bytes queued, `hp_wr_bytes` does not overflow: it counts them.
pub wr_bytes_lem :
    (wr : Wr) → length (stream wr.o_items) < 2 ^ 31 → wr_bytes wr ≡ length (stream wr.o_items)
unfolding wr_bytes
wr_bytes_lem wr h = omega (arith, bytes_loop_lem wr.o_items 0)

-- With fewer than 2^31 bytes queued, what `hp_wr_write` returns and what `hp_wr_bytes` counts
-- afterwards make up what `hp_wr_bytes` counted before.
pub wr_bytes-wr_write :
    (kernel : Kernel)
    → IsPosix kernel
    → (sysconf : ℕ) (wr : Wr) (os : Os) → wr.o_bytes < 2 ^ 64
    → length (stream wr.o_items) < 2 ^ 31
    → (r : Flushed) × (wr_write kernel sysconf wr os ≡ some r)
      × (r.bytes + wr_bytes r.wr ≡ wr_bytes wr)
wr_bytes-wr_write kernel posix sysconf wr os h small =
    let (r, e, t) = wr_write-Result kernel posix sysconf wr os h in
    let m = t.moved in
    let total : length m.sent + length (stream r.wr.o_items) ≡ length (stream wr.o_items) =
      omega (arith, length-append m.sent (stream r.wr.o_items), ap (length {A = ℕ}) m.split) in
    (r, e, omega (arith, t.bytes_eq, m.count_eq, total, wr_bytes_lem r.wr, wr_bytes_lem wr))

-- `hp_wr_write` keeps a valid queue valid: no item is added, and the array keeps its length.
wr_write-IsValid :
    (kernel : Kernel)
    → IsPosix kernel
    → (sysconf : ℕ) (wr : Wr) (os : Os) → wr.o_bytes < 2 ^ 64
    → IsValid wr
    → (r : Flushed) × (wr_write kernel sysconf wr os ≡ some r) × IsValid r.wr
wr_write-IsValid kernel posix sysconf wr os h v =
    let (r, e, t) = wr_write-Result kernel posix sysconf wr os h in
    let m = t.moved in
    (
      r,
      e,
      record {
        power = rw (t.init_eq, t.cap_eq) v.power;
        fits = omega (
          arith,
          v.fits,
          t.cap_eq,
          length-owners r.wr.o_items,
          length-owners wr.o_items,
          length-drop m.dropped (owners wr.o_items),
          ap (length {A = FreeFn × Ptr}) m.owners_eq,
        );
      },
    )
