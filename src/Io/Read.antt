-- ===== src/Io/Read.antt =====
-- `struct hp_rd` of src/hp_io.c: the buffered reader. The first `i_buflen` bytes of the buffer are
-- `i_buf`. The kernel's answers and the `data` callback are parameters; the calls of `read_error`
-- and of hp_iostat_update are written to logs.
pub mod Bounds
pub mod Stream
mod Tests
use libhp.Common.{
  ℕ, zero, suc, ◌+◌, ◌-◌, ◌*◌, ◌%◌, ◌^◌, Bool, true, false, Option, none, some, List, [], ◌∷◌, ◌++◌,
  ltb, ◌==◌, if◌then◌else◌, length, take, Bytes, not,
}
use libhp.Common.Int.{ℤ, pos, negsuc, int_nonpos}
use libhp.Io.Os.{is_again, eio}

-- How the kernel answers a `read`: with bytes (none at the end of the input), or with an `errno`.
pub data Answer : Type 0 where
  gives : Bytes → Answer
  fails : ℕ → Answer

abbrev pub Kernel : Type 0
Kernel = ℕ → Answer

-- A call of `read`: the offset into the buffer, and the room that it was given.
pub record Request : Type 0 where
  pub offset : ℕ
  pub room : ℕ
  pub buf_max : ℕ

-- A descriptor that is read: how often, the last `errno`, the bytes that came in, and the requests.
pub record Os : Type 0 where
  pub calls : ℕ
  pub errno : ℕ
  pub taken : Bytes
  pub requests : List Request

-- The callback `data(buf, &len, arg)`: its return value, the bytes that it leaves in the buffer, and
-- the state behind `arg`.
abbrev pub OnData : Type 0 → Type 0
OnData S = Bytes → S → ℤ × Bytes × S

pub record Rd : Type 0 where
  pub i_buf : Bytes
  pub buf_max : ℕ
  pub allocated : Bool
  pub i_bytes : ℕ
  pub has_stat : Bool
  pub stat : List ℕ
  pub has_read_error : Bool
  pub reported : List ℕ
  pub err : ℤ

unfoldable pub rd_init : ℕ → Bool → Rd
rd_init bufrlen has_read_error = record {
  i_buf = [];
  buf_max = if int_nonpos bufrlen then 1024 * 8 else bufrlen;
  allocated = false;
  i_bytes = 0;
  has_stat = false;
  stat = [];
  has_read_error = has_read_error;
  reported = [];
  err = pos 0;
}

-- The buffer is freed.
unfoldable pub rd_uninit : Rd → Rd
rd_uninit rd = record rd { allocated = false }

-- What a call of `hp_rd_read` returns, and the reader, the descriptor and the client after it.
pub record Done (S : Type 0) : Type 0 where
  pub bytes : ℕ
  pub rd : Rd
  pub os : Os
  pub client : S

-- The result of `read`: bytes, the end of the input, or -1.
pub data Got : Type 0 where
  got : ℕ → Bytes → Got
  eof : Got
  minus_one : Got

unfoldable pub read_as : Answer → ℕ → Got
read_as (gives []) room = eof
read_as (gives (b ∷ bs)) zero = eof
read_as (gives (b ∷ bs)) (suc room) = got b (take room bs)
read_as (fails e) room = minus_one

unfoldable pub os_after : Answer → ℕ → Request → Os → Os
os_after (gives bs) room q os = record os {
  calls = os.calls + 1;
  taken = os.taken ++ take room bs;
  requests = os.requests ++ q ∷ [];
}
os_after (fails e) room q os = record os {
  calls = os.calls + 1;
  errno = e;
  requests = os.requests ++ q ∷ [];
}

-- `if(!(rd->i_buflen < rd->I_BUF_MAX)) rd->I_BUF_MAX *= 2;`
unfoldable pub grow : Rd → Rd
grow rd = if ltb (length rd.i_buf) rd.buf_max then rd else record rd { buf_max = rd.buf_max * 2 }

module _ {S : Type 0} (on_data : OnData S) where
  -- `if(rd->i_buflen > 0) rd->data(...)`
  unfoldable pub hand_over : Rd → S → ℤ × Bytes × S
  hand_over rd s = if length rd.i_buf == 0 then (pos 0, rd.i_buf, s) else on_data rd.i_buf s

  -- The end of the input, or an error that is not EINTR or EAGAIN.
  unfoldable pub stop_reading : Rd → Os → S → ℕ → Done S
  unfolding hand_over
  stop_reading rd os s count =
      let e = if os.errno == 0 then eio else os.errno in
      record {
        bytes = count;
        rd = record rd {
          i_buf = (hand_over rd s).1;
          err = pos e;
          reported = if rd.has_read_error then rd.reported ++ e ∷ [] else rd.reported;
        };
        os = os;
        client = (hand_over rd s).2;
      }

  -- What `read` returned; `again` is the next round.
  unfoldable pub on_read :
      (Rd → Os → S → ℕ → Option (Done S)) → Got → Rd → Os → S → ℕ → Option (Done S)
  unfolding stop_reading
  on_read again (got b bs) rd os s count =
      let n = length (b ∷ bs) in
      again
        (record rd {
          i_buf = rd.i_buf ++ b ∷ bs;
          i_bytes = (rd.i_bytes + n) % 2 ^ 64;
          stat = if rd.has_stat then rd.stat ++ n ∷ [] else rd.stat;
        })
        os s ((count + n) % 2 ^ 64)
  on_read again eof rd os s count = some (stop_reading rd os s count)
  on_read again minus_one rd os s count =
      if is_again os.errno
      then some (record { bytes = count; rd = rd; os = os; client = s })
      else some (stop_reading rd os s count)

  -- Room is made, and `read` is called.
  unfoldable pub fill :
      (Rd → Os → S → ℕ → Option (Done S)) → Kernel → Rd → Os → S → ℕ → Option (Done S)
  unfolding on_read grow
  fill again kernel rd os s count =
      let rd' = grow rd in
      let room = rd'.buf_max - length rd'.i_buf in
      let q : Request = record { offset = length rd'.i_buf; room = room; buf_max = rd'.buf_max } in
      on_read again (read_as (kernel os.calls) room) rd' (os_after (kernel os.calls) room q os) s
        count

  -- What the callback returned: a negative code ends the call.
  unfoldable pub on_parsed :
      (Rd → Os → S → ℕ → Option (Done S)) → ℤ → Rd → Os → S → ℕ → Option (Done S)
  on_parsed next (pos n) rd os s count = next rd os s count
  on_parsed next (negsuc n) rd os s count =
      some (record { bytes = count; rd = record rd { err = negsuc n }; os = os; client = s })

  -- The bytes that are buffered go to the callback.
  unfoldable pub parse_round :
      (Rd → Os → S → ℕ → Option (Done S)) → Rd → Os → S → ℕ → Option (Done S)
  unfolding on_parsed hand_over
  parse_round next rd os s count =
      on_parsed next (hand_over rd s).0 (record rd { i_buf = (hand_over rd s).1 }) os
        (hand_over rd s).2 count

  -- The loop of `hp_rd_read` on fuel; `none` means that the fuel ran out.
  unfoldable pub rd_read_loop : ℕ → Kernel → Rd → Os → S → ℕ → Option (Done S)
  unfolding parse_round fill
  rd_read_loop zero kernel rd os s count = none
  rd_read_loop (suc fuel) kernel rd os s count =
      parse_round (fill (rd_read_loop fuel kernel) kernel) rd os s count

  -- A call reads until the kernel has no more bytes: `fuel` bounds the rounds.
  unfoldable pub rd_read : ℕ → Kernel → Rd → Os → S → Option (Done S)
  unfolding rd_read_loop
  rd_read fuel kernel rd os s = rd_read_loop fuel kernel (record rd { allocated = true }) os s 0
