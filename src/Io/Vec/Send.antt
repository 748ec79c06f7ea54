-- ===== src/Io/Vec/Send.antt =====
-- hp_uio_write: what has gone out, what is pending, and why it stopped.
use libhp.Common.{
  ℕ, zero, suc, ◌+◌, ◌≤◌, ◌<◌, ◌≡◌, ◌≢◌, refl, sym, ap, ◌∙◌, inl, inr, ◌⊎◌, Bool-cases, Bool, true,
  false, Option, some, List, [], ◌++◌, arith, append-nil, append_assoc, ◌==◌, ==_iff, length, take,
  drop, concat, length-append, length-take, drop_all, drop_further, take-append-drop, Bytes, min,
}
use libhp.Io.Os.{Os, Kernel, Answer, takes, fails, wrote, minus_one, writev, is_again}
use libhp.Io.Vec.{Iovec, Uio, write_err, uio_round, uio_write_loop, uio_write}
use libhp.Io.Vec.Cut.{pending, Advanced, before_writev-Advanced}

-- What POSIX promises of `writev` on a vector that is not empty: it writes a byte at least or fails,
-- and a failure sets `errno` to a number that is not 0.
pub record IsPosix (kernel : Kernel) : Type 0 where
  pub takes_some : (i n : ℕ) → kernel i ≡ takes n → n ≢ 0
  pub sets_errno : (i e : ℕ) → kernel i ≡ fails e → e ≢ 0

-- `vec` and `n` are what is left of `vec₀` when `nwrite` bytes of it have gone out behind `out₀`:
-- no byte is lost, doubled or reordered, and only the element at `n` has changed from there on, and
-- still has an unwritten byte if it has.
pub record Progress (vec₀ : List Iovec) (out₀ : Bytes) (vec : List Iovec) (n nwrite : ℕ)
    (out : Bytes) : Type 0 where
  pub sent : Bytes
  pub out_eq : out ≡ out₀ ++ sent
  pub count : nwrite ≡ length sent
  pub split : sent ++ pending vec n ≡ concat vec₀
  pub length_eq : length vec ≡ length vec₀
  pub in_range : n ≤ length vec₀
  pub tail_eq : drop (suc n) vec ≡ drop (suc n) vec₀
  pub front : (drop n vec ≡ drop n vec₀) ⊎ (length (pending vec (suc n)) < length (pending vec n))

module _ {vec₀ : List Iovec} {out₀ : Bytes} {vec : List Iovec} {n nwrite : ℕ} {out : Bytes}
    (p : Progress vec₀ out₀ vec n nwrite out) where
  pub length-pending : nwrite + length (pending vec n) ≡ length (concat vec₀)
  length-pending =
      omega (arith, p.count, length-append p.sent (pending vec n), ap (length {A = ℕ}) p.split)

  split-take :
      (w : ℕ) (rest : Bytes)
      → rest ≡ drop w (pending vec n)
      → (p.sent ++ take w (pending vec n)) ++ rest ≡ concat vec₀
  split-take w rest e = rw (e, append_assoc, take-append-drop w (pending vec n)) p.split

  count-take :
      (w : ℕ) → w ≤ length (pending vec n) → nwrite + w ≡ length (p.sent ++ take w (pending vec n))
  count-take w h =
      omega (
        arith,
        p.count,
        length-append p.sent (take w (pending vec n)),
        length-take w (pending vec n),
      )

  out-take : (w : ℕ) → out ++ take w (pending vec n) ≡ out₀ ++ (p.sent ++ take w (pending vec n))
  out-take w = rw (p.out_eq, append_assoc)

  -- A partial write, after `before_writev`.
  Progress-advance :
      (w : ℕ) {vec' : List Iovec} {n' : ℕ}
      → w < length (pending vec n)
      → Advanced vec w n vec' n'
      → Progress vec₀ out₀ vec' n' (nwrite + w) (out ++ take w (pending vec n))
  Progress-advance w {vec'} {n'} h a = record {
    sent = p.sent ++ take w (pending vec n);
    out_eq = out-take w;
    count = count-take w (omega arith);
    split = split-take w (pending vec' n') a.bytes_left;
    length_eq = a.length_eq ∙ p.length_eq;
    in_range = omega (arith, a.in_range, p.length_eq);
    tail_eq =
        a.tail_eq ∙ drop_further (suc n) (suc n') vec vec₀ (omega (arith, a.forward)) p.tail_eq;
    front = inr a.unwritten;
  }

  -- A write of all that was pending.
  Progress-finish :
      Progress vec₀ out₀ vec
        (length vec)
        (nwrite + length (pending vec n))
        (out ++ take (length (pending vec n)) (pending vec n))
  Progress-finish = record {
    sent = p.sent ++ take (length (pending vec n)) (pending vec n);
    out_eq = out-take (length (pending vec n));
    count = count-take (length (pending vec n)) (omega arith);
    split = split-take (length (pending vec n)) (pending vec (length vec)) (
        rw (
          drop_all (length vec) vec (omega arith),
          drop_all (length (pending vec n)) (pending vec n) (omega arith),
        ));
    length_eq = p.length_eq;
    in_range = omega (arith, p.length_eq);
    tail_eq = rw (
      drop_all (suc (length vec)) vec (omega arith),
      drop_all (suc (length vec)) vec₀ (omega (arith, p.length_eq)),
    );
    front = inl (
        rw (
          drop_all (length vec) vec (omega arith),
          drop_all (length vec) vec₀ (omega (arith, p.length_eq)),
        ));
  }

-- What a call of `hp_uio_write` on the vectors `vec₀` leaves: an error or, with `*err` 0, nothing
-- pending.
pub record Sent (vec₀ : List Iovec) (out₀ : Bytes) (u : Uio) : Type 0 where
  pub progress : Progress vec₀ out₀ u.vec u.n u.nwrite u.os.out
  pub status :
      ((u.err ≡ 0) × (u.n ≡ length vec₀)) ⊎ ((u.err ≢ 0) × (u.nwrite < length (concat vec₀)))

write_err-ne-zero : (failed : Bool) (e : ℕ) → e ≢ 0 → write_err failed e ≢ 0
unfolding write_err is_again
write_err-ne-zero failed e h = ground arith

-- The two ways in which `writev` answers.
writev-fails :
    (kernel : Kernel) (os : Os) (bytes : Bytes) (e : ℕ)
    → kernel os.calls ≡ fails e
    → writev kernel os bytes ≡ (minus_one, record os { calls = os.calls + 1; errno = e })
unfolding writev
writev-fails kernel os bytes e q = rw q

writev-takes :
    (kernel : Kernel) (os : Os) (bytes : Bytes) (k : ℕ)
    → kernel os.calls ≡ takes k
    → writev kernel os bytes ≡ (
      wrote (min k (length bytes)),
      record os { calls = os.calls + 1; out = os.out ++ take (min k (length bytes)) bytes },
    )
unfolding writev
writev-takes kernel os bytes k q = rw q

-- The call returns, with `Sent`.
abbrev Returns : List Iovec → Bytes → Option Uio → Type 0
Returns vec₀ out₀ r = (u : Uio) × (r ≡ some u) × Sent vec₀ out₀ u

-- A round in which `w` bytes were written, given that the next round returns.
uio_round-wrote :
    {vec₀ : List Iovec} {out₀ : Bytes} (again : Os → List Iovec → ℕ → ℕ → Option Uio) (os : Os)
    (out : Bytes) (vec : List Iovec) (n nwrite w : ℕ)
    → Progress vec₀ out₀ vec n nwrite out
    → os.out ≡ out ++ take w (pending vec n)
    → w ≢ 0
    → w ≤ length (pending vec n)
    → ((vec' : List Iovec) (n' : ℕ)
        → Progress vec₀ out₀ vec' n' (nwrite + w) os.out
        → nwrite + w < length (concat vec₀)
        → Returns vec₀ out₀ (again os vec' n' (nwrite + w)))
    → Returns vec₀ out₀ (uio_round again (wrote w, os) vec n (length (concat vec₀)) nwrite)
unfolding uio_round
uio_round-wrote {vec₀} {out₀} again os out vec n nwrite w p o some_written le next =
    elim (Bool-cases (nwrite + w == length (concat vec₀))) [
      | inl all ↦
          rw (not_zero, all)
            (
              _,
              refl,
              record {
                progress = rw o (rw (whole ((==_iff _ _).0 all)) (Progress-finish p));
                status = inl (refl, p.length_eq);
              },
            )
      | inr more ↦
          rw (not_zero, more)
            (next _ _
              (rw o (
                Progress-advance p w (part more) (
                  before_writev-Advanced vec w n (omega (arith, p.in_range, p.length_eq))
                    (part more))))
              (omega (arith, part more, length-pending p)))
    ]
  where
    not_zero : (w == 0) ≡ false
    not_zero = ground arith

    whole : nwrite + w ≡ length (concat vec₀) → w ≡ length (pending vec n)
    whole e = omega (arith, length-pending p)

    part : (nwrite + w == length (concat vec₀)) ≡ false → w < length (pending vec n)
    part ne = ground (arith, length-pending p)

module _ (kernel : Kernel) (posix : IsPosix kernel) {vec₀ : List Iovec} {out₀ : Bytes} where
  uio_write_loop-Sent :
      (fuel : ℕ) (os : Os) (vec : List Iovec) (n nwrite : ℕ)
      → Progress vec₀ out₀ vec n nwrite os.out
      → nwrite < length (concat vec₀)
      → length (concat vec₀) < fuel + nwrite
      → Returns vec₀ out₀ (uio_write_loop fuel kernel (length (concat vec₀)) os vec n nwrite)
  unfolding uio_write_loop
  uio_write_loop-Sent zero os vec n nwrite p some_left enough = absurd (omega arith)
  uio_write_loop-Sent (suc fuel) os vec n nwrite p some_left enough =
      go (kernel os.calls) refl (uio_write_loop-Sent fuel)
    where
      go :
          (a : Answer)
          → kernel os.calls ≡ a
          → ((os : Os) (vec : List Iovec) (n nwrite : ℕ)
              → Progress vec₀ out₀ vec n nwrite os.out
              → nwrite < length (concat vec₀)
              → length (concat vec₀) < fuel + nwrite
              → Returns vec₀ out₀
                  (uio_write_loop fuel kernel (length (concat vec₀)) os vec n nwrite))
          → Returns vec₀ out₀ (
              uio_round
                (uio_write_loop fuel kernel (length (concat vec₀)))
                (writev kernel os (pending vec n))
                vec
                n
                (length (concat vec₀))
                nwrite)
      go (fails e) q ih = rw (writev-fails kernel os (pending vec n) e q) (
          unfold uio_round in
          (
            _,
            refl,
            record {
              progress = p;
              status = inr (write_err-ne-zero true e (posix.sets_errno os.calls e q), some_left);
            },
          ))
      go (takes k) q ih = rw (writev-takes kernel os (pending vec n) k q) (
          uio_round-wrote _ _ os.out vec n nwrite _ p refl
            (ground (arith, posix.takes_some os.calls k q, length-pending p)) (omega arith)
            λ vec' n' p' left.
              ih _ vec' n' _ p' left
                (ground (arith, posix.takes_some os.calls k q, length-pending p)))

-- `hp_uio_write` on vectors that hold a byte at least returns, and gives an account of every byte:
-- what went out is a prefix of the vectors, `nwrite` its length, and what is pending from `*n` on
-- is the rest; behind `*n` no vector has changed. `*err` is 0 exactly if all was written.
pub uio_write-Sent :
    (kernel : Kernel)
    → IsPosix kernel
    → (os : Os) (vec : List Iovec) → 0 < length (concat vec)
    → (u : Uio) × (uio_write kernel os vec (length (concat vec)) ≡ some u) × Sent vec os.out u
unfolding uio_write
uio_write-Sent kernel posix os vec h =
    uio_write_loop-Sent kernel posix (length (concat vec) + 1) os vec 0 0
      (record {
        sent = [];
        out_eq = sym (append-nil os.out);
        count = refl;
        split = refl;
        length_eq = refl;
        in_range = omega arith;
        tail_eq = refl;
        front = inl refl;
      })
      h (omega arith)
