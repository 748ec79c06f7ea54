-- ===== src/Io/Write/Account.antt =====
-- What a call of hp_wr_write leaves, and how the accounts of its rounds are put together.
use libhp.Common.{
  ℕ, ◌+◌, ◌%◌, ◌^◌, ◌<◌, ◌≡◌, ◌≢◌, ◌∙◌, Option, some, [], ◌∷◌, ◌++◌, arith, if◌then◌else◌, length,
}
use libhp.Io.Os.{Os, eagain}
use libhp.Io.Write.{Wr, Flushed}
use libhp.Io.Write.Moves.{stream, Moved, Moved-trans}

-- What no round but a failing one changes.
pub record SameRest (wr wr' : Wr) : Type 0 where
  pub init_eq : wr'.init_len ≡ wr.init_len
  pub cap_eq : wr'.items_cap ≡ wr.items_cap
  pub write_error_eq : wr'.has_write_error ≡ wr.has_write_error
  pub err_eq : wr'.err ≡ wr.err
  pub reported_eq : wr'.reported ≡ wr.reported

-- Why `hp_wr_write` stops: the queue is empty; or bytes are left, and the descriptor is to be tried
-- again or has failed with `e`, which is kept in `err` and reported to `write_error` if it is set.
pub data Reason (wr : Wr) (r : Flushed) : Type 0 where
  drained : r.wr.o_items ≡ [] → r.wr.err ≡ wr.err → r.wr.reported ≡ wr.reported → Reason wr r
  again :
      0 < length (stream r.wr.o_items)
      → r.wr.err ≡ wr.err
      → r.wr.reported ≡ wr.reported
      → Reason wr r
  failed :
      (e : ℕ)
      → e ≢ 0
      → e ≢ eagain
      → 0 < length (stream r.wr.o_items)
      → r.wr.err ≡ e
      → r.wr.reported ≡ (if wr.has_write_error then wr.reported ++ e ∷ [] else wr.reported)
      → Reason wr r

-- The account of a call that was entered with `start` bytes counted.
pub record Result (wr : Wr) (os : Os) (start : ℕ) (r : Flushed) : Type 0 where
  pub count : ℕ
  pub moved : Moved wr.o_items os.out wr.freed r.wr.o_items r.os.out r.wr.freed count
  pub bytes_eq : r.bytes ≡ (start + count) % 2 ^ 64
  pub total_eq : r.wr.o_bytes ≡ (wr.o_bytes + count) % 2 ^ 64
  pub cap_eq : r.wr.items_cap ≡ wr.items_cap
  pub init_eq : r.wr.init_len ≡ wr.init_len
  pub reason : Reason wr r

-- A round that does not stop, from one queue to the next.
pub record Step (wr : Wr) (os : Os) (start : ℕ) (wr' : Wr) (os' : Os) (start' : ℕ) : Type 0 where
  pub count : ℕ
  pub moved : Moved wr.o_items os.out wr.freed wr'.o_items os'.out wr'.freed count
  pub bytes_eq : start' ≡ (start + count) % 2 ^ 64
  pub total_eq : wr'.o_bytes ≡ (wr.o_bytes + count) % 2 ^ 64
  pub same : SameRest wr wr'

pub Reason-SameRest : {wr wr' : Wr} {r : Flushed} → SameRest wr wr' → Reason wr' r → Reason wr r
Reason-SameRest s (drained e a b) = drained e (a ∙ s.err_eq) (b ∙ s.reported_eq)
Reason-SameRest s (again l a b) = again l (a ∙ s.err_eq) (b ∙ s.reported_eq)
Reason-SameRest s (failed e n k l a b) =
    failed e n k l a (rw (← s.write_error_eq, ← s.reported_eq) b)

pub Step-Result :
    {wr wr' : Wr} {os os' : Os} {start start' : ℕ} {r : Flushed}
    → Step wr os start wr' os' start'
    → Result wr' os' start' r
    → Result wr os start r
Step-Result s t = record {
  count = s.count + t.count;
  moved = Moved-trans s.moved t.moved;
  bytes_eq = omega (arith, s.bytes_eq, t.bytes_eq);
  total_eq = omega (arith, s.total_eq, t.total_eq);
  cap_eq = t.cap_eq ∙ s.same.cap_eq;
  init_eq = t.init_eq ∙ s.same.init_eq;
  reason = Reason-SameRest s.same t.reason;
}

abbrev pub Returns : Wr → Os → ℕ → Option Flushed → Type 0
Returns wr os start r = (f : Flushed) × (r ≡ some f) × Result wr os start f
