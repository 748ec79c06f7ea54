-- ===== src/Net/Receive.antt =====
-- read_a of src/hp_net.c, in the build for Unix, which fills a buffer from a descriptor that does
-- not block. The kernel's answers to `read` are a parameter.
use libhp.Common.{
  ℕ, zero, suc, ◌+◌, ◌-◌, ◌≤◌, ◌<◌, ◌≡◌, refl, sym, ap, ◌∙◌, inl, inr, Bool-cases, Bool, true,
  false, ◌&&◌, Option, none, some, List, [], ◌∷◌, ◌++◌, append-nil, arith, ltb, lt→ltb, ◌==◌,
  if◌then◌else◌, length, length-append, length-take, take, take-nil, Bytes,
}
use native.Mathlib.Nat.{suc-sub-suc}
use libhp.Common.Int.{ℤ, pos, negsuc}
use libhp.Io.Os.{is_again, eagain}
use libhp.Io.Read.{Answer, gives, fails, Kernel, Got, got, eof, minus_one, read_as}

-- What a call of read_a leaves: the bytes that it put in `buf`, `*err`, and how often it called
-- `read`. Its result is the length of `received`.
pub record Reading : Type 0 where
  pub received : Bytes
  pub err : ℤ
  pub calls : ℕ

-- The `errno` of a failure.
abbrev pub errno_of : Answer → ℕ
errno_of (gives bs) = 0
errno_of (fails e) = e

-- What `read` returned; `again` is the next round.
unfoldable pub on_read_a : (Bytes → Option Reading) → Got → ℕ → Bytes → ℕ → ℕ → Option Reading
on_read_a again minus_one errno buf bytes calls =
    let e = if is_again errno then eagain else errno in
    some (record { received = buf; err = pos e; calls = calls })
on_read_a again eof errno buf bytes calls =
    some (record { received = buf; err = negsuc 0; calls = calls })
on_read_a again (got b bs) errno buf bytes calls =
    let buf' = buf ++ b ∷ bs in
    let rest = again buf' in
    if length buf' == bytes
    then some (record { received = buf'; err = pos 0; calls = calls })
    else rest

-- The loop on fuel; `none` means that the fuel ran out.
unfoldable pub read_a_loop : ℕ → Kernel → ℕ → Bytes → ℕ → ℕ → Option Reading
unfolding on_read_a
read_a_loop zero kernel calls buf len bytes = none
read_a_loop (suc fuel) kernel calls buf len bytes =
    on_read_a (λ buf'. read_a_loop fuel kernel (calls + 1) buf' len bytes)
      (read_as (kernel calls) (len - length buf)) (errno_of (kernel calls)) buf bytes (calls + 1)

unfoldable pub is_nonneg : ℤ → Bool
is_nonneg (pos n) = true
is_nonneg (negsuc n) = false

-- Whether `err` and `buf` are given, and the value of `*err` before.
unfoldable pub read_a : Kernel → ℤ → Bool → ℤ → Bool → ℕ → ℕ → Option Reading
unfolding read_a_loop is_nonneg
read_a kernel fd has_err err has_buf len bytes =
    if is_nonneg fd && (has_err && (has_buf && ltb 0 len))
    then read_a_loop (len + 1) kernel 0 [] len bytes
    else some (record { received = []; err = err; calls = 0 })

-- The bytes of one answer, and of the first `n`.
abbrev pub given : Answer → Bytes
given (gives bs) = bs
given (fails e) = []

abbrev pub incoming : Kernel → ℕ → Bytes
incoming kernel zero = []
incoming kernel (suc n) = incoming kernel n ++ given (kernel n)

-- Why a call ended: `bytes` have come, the input is at its end, the buffer is full, or a failure.
pub data Ended (kernel : Kernel) (len bytes n : ℕ) (buf : Bytes) : ℤ → Type 0 where
  whole : length buf ≡ bytes → Ended kernel len bytes n buf (pos 0)
  at_end : kernel n ≡ gives [] → Ended kernel len bytes n buf (negsuc 0)
  full : length buf ≡ len → Ended kernel len bytes n buf (negsuc 0)
  later :
      (e : ℕ) → kernel n ≡ fails e → is_again e ≡ true → Ended kernel len bytes n buf (pos eagain)
  broken : (e : ℕ) → kernel n ≡ fails e → is_again e ≡ false → Ended kernel len bytes n buf (pos e)

-- A call that ends with its `suc n`-th `read`.
pub record EndsAt (kernel : Kernel) (len bytes : ℕ) (out : Option Reading) (n : ℕ) (r : Reading)
    : Type 0 where
  pub result : out ≡ some r
  pub count : r.calls ≡ suc n
  pub bound : n ≤ len
  pub filled : r.received ≡ take len (incoming kernel (suc n))
  pub reason : Ended kernel len bytes n r.received r.err

abbrev pub Ends : Kernel → ℕ → ℕ → Option Reading → Type 0
Ends kernel len bytes out = (n : ℕ) × (r : Reading) × EndsAt kernel len bytes out n r

take-append :
    {A : Type 0} (n : ℕ) (xs ys : List A)
    → take n (xs ++ ys) ≡ take n xs ++ take (n - length (take n xs)) ys
take-append zero xs ys = refl
take-append (suc n) [] ys = let all : suc n ≡ suc n - 0 = omega arith in ap (λ m. take m ys) all
take-append (suc n) (x ∷ xs) ys = rw suc-sub-suc (ap (◌∷◌ x) (take-append n xs ys))

incoming-suc :
    (kernel : Kernel) (len n : ℕ) (buf : Bytes)
    → buf ≡ take len (incoming kernel n)
    → buf ++ take (len - length buf) (given (kernel n)) ≡ take len (incoming kernel (suc n))
incoming-suc kernel len n buf h = rw (h, ← take-append len (incoming kernel n) (given (kernel n)))

append-take-nil : (room : ℕ) (buf : Bytes) → buf ++ take room [] ≡ buf
append-take-nil room buf = rw take-nil (append-nil buf)

-- A round whose answer is `a` and whose room is `room`, where the rounds after it end.
on_read_a-Ends :
    (kernel : Kernel) (len bytes n : ℕ) (buf : Bytes) (again : Bytes → Option Reading)
    → (a : Answer) (room : ℕ) → n ≤ len
    → kernel n ≡ a
    → len ≡ length buf + room
    → buf ++ take room (given a) ≡ take len (incoming kernel (suc n))
    → ((b : ℕ) (bs : Bytes)
        → length bs < room
        → buf ++ b ∷ bs ≡ take len (incoming kernel (suc n))
        → Ends kernel len bytes (again (buf ++ b ∷ bs)))
    → Ends kernel len bytes (on_read_a again (read_as a room) (errno_of a) buf bytes (n + 1))
unfolding on_read_a read_as
on_read_a-Ends kernel len bytes n buf again (fails e) room low k h fill more =
    elim (Bool-cases (is_again e)) [
      | inl y ↦ rw y (
        n,
        _,
        record {
          result = refl;
          count = omega arith;
          bound = low;
          filled = sym (append-take-nil room buf) ∙ fill;
          reason = later e k y;
        },
      )
      | inr z ↦ rw z (
        n,
        _,
        record {
          result = refl;
          count = omega arith;
          bound = low;
          filled = sym (append-take-nil room buf) ∙ fill;
          reason = broken e k z;
        },
      )
    ]
on_read_a-Ends kernel len bytes n buf again (gives []) room low k h fill more = (
  n,
  _,
  record {
    result = refl;
    count = omega arith;
    bound = low;
    filled = sym (append-take-nil room buf) ∙ fill;
    reason = at_end k;
  },
)
on_read_a-Ends kernel len bytes n buf again (gives (b ∷ bs)) zero low k h fill more = (
  n,
  _,
  record {
    result = refl;
    count = omega arith;
    bound = low;
    filled = sym (append-nil buf) ∙ fill;
    reason = full (omega arith);
  },
)
on_read_a-Ends kernel len bytes n buf again (gives (b ∷ bs)) (suc room) low k h fill more =
    elim (Bool-cases (length (buf ++ b ∷ take room bs) == bytes)) [
      | inl y ↦ rw y (
        n,
        _,
        record {
          result = refl;
          count = omega arith;
          bound = low;
          filled = fill;
          reason = whole (ground arith);
        },
      )
      | inr z ↦ rw z (more b (take room bs) (omega (arith, length-take room bs)) fill)
    ]

read_a_loop-Ends :
    (fuel : ℕ) (kernel : Kernel) (len bytes n : ℕ) (buf : Bytes)
    → n ≤ length buf
    → length buf ≤ len
    → len - length buf < fuel
    → buf ≡ take len (incoming kernel n)
    → Ends kernel len bytes (read_a_loop fuel kernel n buf len bytes)
unfolding read_a_loop
read_a_loop-Ends zero kernel len bytes n buf low h f e = absurd (omega arith)
read_a_loop-Ends (suc fuel) kernel len bytes n buf low h f e =
    on_read_a-Ends kernel len bytes n buf (λ buf'. read_a_loop fuel kernel (n + 1) buf' len bytes)
      (kernel n) (len - length buf) (omega arith) refl (omega arith)
      (incoming-suc kernel len n buf e)
      (λ b bs less fill.
        let more : length (buf ++ b ∷ bs) ≡ length buf + suc (length bs) =
          length-append buf (b ∷ bs) in
        let one : n + 1 ≡ suc n = omega arith in
        read_a_loop-Ends fuel kernel len bytes (n + 1) (buf ++ b ∷ bs) (omega (arith, more))
          (omega (arith, more)) (omega (arith, more)) (rw one fill))

-- For a descriptor, a buffer with room and a place for the error, read_a returns, after at most one
-- `read` more than there is room, with the first bytes of what the kernel gave in the buffer, and
-- says why: 0 only with exactly `bytes` of them, -1 only at the end of the input or with a full
-- buffer, EAGAIN where `read` would block or was interrupted, and else the `errno` of the failure.
pub read_a-Ends :
    (kernel : Kernel) (fd len bytes : ℕ) (err : ℤ)
    → 0 < len
    → Ends kernel len bytes (read_a kernel (pos fd) true err true len bytes)
unfolding read_a is_nonneg
read_a-Ends kernel fd len bytes err h = rw (lt→ltb 0 len h) (
    read_a_loop-Ends (len + 1) kernel len bytes 0 [] (omega arith) (omega arith) (omega arith)
      (sym (take-nil len)))
