-- ===== src/Io/Write/Flush.antt =====
-- hp_wr_write sends the queue in order, frees what it has sent, and stops for one of three reasons.
use libhp.Common.{
  ℕ, zero, suc, ◌+◌, ◌-◌, ◌^◌, ◌≤◌, ◌<◌, ◌≡◌, ◌≢◌, refl, ap, ◌∙◌, inl, inr, ◌⊎◌, Bool-cases, true,
  false, Option, some, List, [], ◌∷◌, arith, min, ◌==◌, length, take, drop, concat, length-append,
  length-drop, concat-append, Bytes,
}
use libhp.Io.Os.{Os, Kernel, eagain}
use libhp.Io.Vec.{Iovec, Uio, iovec_total_bytes}
use libhp.Io.Vec.Send.{IsPosix, Progress, Sent, uio_write-Sent}
use libhp.Io.Write.{
  Item, FreeFn, Ptr, Wr, Flushed, vecs, del_n, add_size, check_result, written, wr_write_loop,
  wr_write, iov_limit,
}
use libhp.Io.Write.Moves.{
  stream, length-owners, Moved-refl, vecs-split, length-vecs-take, iovec_total_bytes_lem,
}
use libhp.Io.Write.Round.{Moved-empty, Moved-uio, after_uio, owners-after}
use libhp.Io.Write.Account.{Reason, drained, again, failed, Result, Step, Step-Result, Returns}

-- The queue after a call of `hp_uio_write` on its first `m` vectors.
abbrev after_round : Wr → ℕ → Uio → Wr
after_round wr m u =
    del_n (record wr { o_items = after_uio wr.o_items m u; o_bytes = add_size wr.o_bytes u.nwrite })
      u.n

module _ (wr : Wr) (os : Os) (start m : ℕ) (u : Uio) (h : m ≤ length wr.o_items)
    (s : Sent (vecs (take m wr.o_items)) os.out u) where
  Step-uio : Step wr os start (after_round wr m u) u.os (add_size start u.nwrite)
  unfolding del_n
  Step-uio = record {
    count = u.nwrite;
    moved = Moved-uio wr.o_items m u h s.progress wr.freed;
    bytes_eq = refl;
    total_eq = refl;
    same = record {
      init_eq = refl;
      cap_eq = refl;
      write_error_eq = refl;
      err_eq = refl;
      reported_eq = refl;
    };
  }

  -- Where not all vectors were written, the queue still has bytes.
  left_over :
      u.nwrite < length (concat (vecs (take m wr.o_items)))
      → 0 < length (stream (after_round wr m u).o_items)
  unfolding del_n
  left_over l =
      let q = Moved-uio wr.o_items m u h s.progress wr.freed in
      omega (
        arith,
        l,
        q.count_eq,
        length-append q.sent (stream (after_round wr m u).o_items),
        ap (length {A = ℕ}) q.split,
        length-append (concat (vecs (take m wr.o_items))) (concat (vecs (drop m wr.o_items))),
        ap (length {A = ℕ}) (concat-append (vecs (take m wr.o_items)) (vecs (drop m wr.o_items))),
        ap (λ (v : List Iovec). length (concat v)) (vecs-split wr.o_items m),
      )

  written-Returns :
      (next : Wr → Os → ℕ → Option Flushed)
      → (u.n ≡ m
          → Returns
              (after_round wr m u)
              u.os
              (add_size start u.nwrite)
              (next (after_round wr m u) u.os (add_size start u.nwrite)))
      → Returns wr os start (written next wr m start (some u))
  unfolding written check_result
  written-Returns next ih = go s.status
    where
      -- A round that stops has moved all that the call moves.
      stop :
          (err : ℕ) (reported : List ℕ)
          → let w = after_round wr m u in
            let r : Flushed = record {
              bytes = add_size start u.nwrite;
              wr = record w { err = err; reported = reported };
              os = u.os;
            } in
            Reason w r → Result w u.os (add_size start u.nwrite) r
      stop err reported r = record {
        count = 0;
        moved = Moved-refl _ _ _;
        bytes_eq = omega arith;
        total_eq = omega arith;
        cap_eq = refl;
        init_eq = refl;
        reason = r;
      }

      go :
          ((u.err ≡ 0) × (u.n ≡ length (vecs (take m wr.o_items))))
            ⊎ ((u.err ≢ 0) × (u.nwrite < length (concat (vecs (take m wr.o_items)))))
          → Returns wr os start
              (check_result next u.err (after_round wr m u) u.os (add_size start u.nwrite))
      go (inl (ok, all)) =
          let z : (u.err == 0) ≡ true = ground arith in
          let (r, e, t) = ih (all ∙ length-vecs-take wr.o_items m h) in
          rw z (r, e, Step-Result Step-uio t)
      go (inr (bad, part)) =
          let z : (u.err == 0) ≡ false = ground arith in
          rw z (elim (Bool-cases (u.err == eagain)) [
            | inl wait ↦
                rw wait
                  (_, refl, Step-Result Step-uio (stop _ _ (again (left_over part) refl refl)))
            | inr broken ↦ rw broken (
              _,
              refl,
              Step-Result Step-uio
                  (stop _ _ (failed u.err bad (ground arith) (left_over part) refl refl)),
            )
          ])

-- An item that holds no byte is taken off the queue without a call of `writev`.
Step-empty :
    (wr : Wr) (os : Os) (start m : ℕ)
    → start < 2 ^ 64
    → wr.o_bytes < 2 ^ 64
    → length (concat (vecs (take m wr.o_items))) ≡ 0
    → Step wr os start (del_n wr m) os start
unfolding del_n
Step-empty wr os start m b c z = record {
  count = 0;
  moved = Moved-empty wr.o_items m os.out wr.freed z;
  bytes_eq = omega arith;
  total_eq = omega arith;
  same = record {
    init_eq = refl;
    cap_eq = refl;
    write_error_eq = refl;
    err_eq = refl;
    reported_eq = refl;
  };
}

length-del_n : (wr : Wr) (m : ℕ) → length (del_n wr m).o_items ≡ length wr.o_items - m
unfolding del_n
length-del_n wr m = length-drop m wr.o_items

length-after_round :
    (wr : Wr) (m : ℕ) (u : Uio) (h : m ≤ length wr.o_items) {out : Bytes}
    → Progress (vecs (take m wr.o_items)) out u.vec u.n u.nwrite u.os.out
    → length (after_round wr m u).o_items ≡ length wr.o_items - u.n
unfolding del_n
length-after_round wr m u h p = omega (
  arith,
  length-drop u.n (after_uio wr.o_items m u),
  length-owners (after_uio wr.o_items m u),
  length-owners wr.o_items,
  ap (length {A = FreeFn × Ptr}) (owners-after wr.o_items m u h p),
)

nil_of_length : (items : List Item) → length items ≡ 0 → items ≡ []
nil_of_length [] e = refl
nil_of_length (x ∷ items) e = absurd (omega arith)

small-del_n : (wr : Wr) (m : ℕ) → (del_n wr m).o_bytes ≡ wr.o_bytes
unfolding del_n
small-del_n wr m = refl

module _ (kernel : Kernel) (posix : IsPosix kernel) (iov_max : ℕ) (room : 0 < iov_max) where
  wr_write_loop-Result :
      (fuel : ℕ) (wr : Wr) (os : Os) (start : ℕ)
      → start < 2 ^ 64
      → wr.o_bytes < 2 ^ 64
      → length wr.o_items < fuel
      → Returns wr os start (wr_write_loop fuel kernel iov_max wr os start)
  unfolding wr_write_loop
  wr_write_loop-Result zero wr os start b c f = absurd (omega arith)
  wr_write_loop-Result (suc fuel) wr os start b c f = elim (Bool-cases (length wr.o_items == 0)) [
    | inl none_left ↦ rw none_left (
      _,
      refl,
      record {
        count = 0;
        moved = Moved-refl wr.o_items os.out wr.freed;
        bytes_eq = omega arith;
        total_eq = omega arith;
        cap_eq = refl;
        init_eq = refl;
        reason = drained (nil_of_length wr.o_items (ground arith)) refl refl;
      },
    )
    | inr items_left ↦ rw items_left (elim (Bool-cases (iovec_total_bytes vec == 0)) [
      | inl no_bytes ↦
          let (r, q, t) =
            wr_write_loop-Result fuel (del_n wr m) os start b (rw small-del_n c)
              (ground (arith, length-del_n wr m)) in
          rw no_bytes (
            r,
            q,
            Step-Result (Step-empty wr os start m b c (ground (arith, iovec_total_bytes_lem vec)))
                t,
          )
      | inr bytes_left ↦
          let (u, q, s) =
            uio_write-Sent kernel posix os vec (ground (arith, iovec_total_bytes_lem vec)) in
          rw (bytes_left, iovec_total_bytes_lem vec, q)
            (written-Returns wr os start m u (omega arith) s (wr_write_loop fuel kernel iov_max)
              λ all.
                wr_write_loop-Result fuel (after_round wr m u) u.os (add_size start u.nwrite)
                  (omega arith) (rw small-del_n (omega arith))
                  (ground (arith, length-after_round wr m u (omega arith) s.progress)))
    ])
  ]
    where
      m : ℕ
      m = min iov_max (length wr.o_items)

      vec : List Iovec
      vec = vecs (take m wr.o_items)

iov_limit_pos : (sysconf : ℕ) → 0 < iov_limit sysconf
unfolding iov_limit
iov_limit_pos sysconf = ground arith

pub wr_write-Result :
    (kernel : Kernel)
    → IsPosix kernel
    → (sysconf : ℕ) (wr : Wr) (os : Os) → wr.o_bytes < 2 ^ 64
    → (r : Flushed) × (wr_write kernel sysconf wr os ≡ some r) × Result wr os 0 r
unfolding wr_write
wr_write-Result kernel posix sysconf wr os h =
    wr_write_loop-Result kernel posix (iov_limit sysconf) (iov_limit_pos sysconf)
      (length wr.o_items + 1) wr os 0 (omega arith) h (omega arith)
