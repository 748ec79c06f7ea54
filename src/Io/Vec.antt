-- ===== src/Io/Vec.antt =====
-- The vectors of `writev`: iovec_total_bytes, before_writev and hp_uio_write of src/hp_io.c. An
-- iovec is the bytes that it spans: `iov_len` is their number.
pub mod Cut
pub mod Send
use libhp.Common.{
  ℕ, zero, suc, ◌+◌, ◌-◌, ◌≤◌, ◌<◌, ◌≡◌, Bool, true, false, Option, none, some, List, [], ◌∷◌, ◌++◌,
  ltb, ◌==◌, if◌then◌else◌, length, take, drop, concat, Bytes,
}
use libhp.Io.Os.{Os, Kernel, Written, wrote, minus_one, writev, is_again, eagain, eio}

abbrev pub Iovec : Type 0
Iovec = Bytes

unfoldable pub iovec_total_bytes : List Iovec → ℕ
iovec_total_bytes [] = 0
iovec_total_bytes (v ∷ vec) = length v + iovec_total_bytes vec

-- The loop of `before_writev` over `vec[i..count)`: `r` counts the bytes up to `vec[i]`, and `n` is
-- `*vec_n`. The first vector that was not written whole keeps its unwritten bytes.
unfoldable pub before_writev_loop : List Iovec → ℕ → ℕ → ℕ → ℕ → List Iovec × ℕ
before_writev_loop [] i r nwrite n = ([], n)
before_writev_loop (v ∷ vec) i r nwrite n =
    let rest = before_writev_loop vec (i + 1) (r + length v) nwrite n in
    if ltb nwrite (r + length v)
    then (drop (length v - (r + length v - nwrite)) v ∷ vec, i)
    else (v ∷ rest.0, rest.1)

unfoldable pub before_writev : List Iovec → ℕ → ℕ → List Iovec × ℕ
unfolding before_writev_loop
before_writev vec nwrite n =
    let (vec', n') = before_writev_loop (drop n vec) n 0 nwrite n in (take n vec ++ vec', n')

-- What `hp_uio_write` returns and stores: the count of bytes, `*err`, the vectors, `*n`, and the
-- descriptor after it.
pub record Uio : Type 0 where
  pub nwrite : ℕ
  pub err : ℕ
  pub vec : List Iovec
  pub n : ℕ
  pub os : Os

-- `*err` after a `writev` that returned 0 or less.
unfoldable pub write_err : Bool → ℕ → ℕ
write_err failed errno = if is_again errno then (if failed then eagain else eio) else errno

-- One round of the loop, on what `writev` returned; `again` is the next round.
unfoldable pub uio_round :
    (Os → List Iovec → ℕ → ℕ → Option Uio) → Written × Os → List Iovec → ℕ → ℕ → ℕ → Option Uio
uio_round again (minus_one, os) vec n bytes nwrite =
    some (record { nwrite = nwrite; err = write_err true os.errno; vec = vec; n = n; os = os })
uio_round again (wrote w, os) vec n bytes nwrite =
    if w == 0
    then some
        (record { nwrite = nwrite; err = write_err false os.errno; vec = vec; n = n; os = os })
    else if nwrite + w == bytes
    then some (record { nwrite = nwrite + w; err = 0; vec = vec; n = length vec; os = os })
    else again os (before_writev vec w n).0 (before_writev vec w n).1 (nwrite + w)

-- The loop of `hp_uio_write` on fuel; `none` means that the fuel ran out.
unfoldable pub uio_write_loop : ℕ → Kernel → ℕ → Os → List Iovec → ℕ → ℕ → Option Uio
uio_write_loop zero kernel bytes os vec n nwrite = none
uio_write_loop (suc fuel) kernel bytes os vec n nwrite =
    uio_round (uio_write_loop fuel kernel bytes) (writev kernel os (concat (drop n vec))) vec n
      bytes nwrite

-- Each round but the last writes a byte at least.
unfoldable pub uio_write : Kernel → Os → List Iovec → ℕ → Option Uio
unfolding uio_write_loop uio_round
uio_write kernel os vec bytes = uio_write_loop (bytes + 1) kernel bytes os vec 0 0
