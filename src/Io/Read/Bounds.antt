-- ===== src/Io/Read/Bounds.antt =====
-- hp_rd_read always asks for a byte at least, inside its buffer.
use libhp.Common.{◌+◌, ◌-◌, ◌≤◌, ◌<◌, ◌≡◌, List, [], ◌∷◌, ◌++◌, arith, length}
use libhp.Io.Read.{Rd, Request, grow}

pub record IsValid (rd : Rd) : Type 0 where
  pub max_pos : 0 < rd.buf_max
  pub fits : length rd.i_buf ≤ rd.buf_max

-- A request that leaves room, so that a result of 0 means the end of the input, and stays inside
-- the buffer.
pub record InBuffer (q : Request) : Type 0 where
  pub room_pos : 0 < q.room
  pub inside : q.offset + q.room ≤ q.buf_max

abbrev pub AllIn : List Request → Type 0
AllIn [] = Unit
AllIn (q ∷ qs) = InBuffer q × AllIn qs

pub AllIn-append : (qs : List Request) (q : Request) → AllIn qs → InBuffer q → AllIn (qs ++ q ∷ [])
AllIn-append [] q a b = (b, tt)
AllIn-append (x ∷ qs) q a b = (a.0, AllIn-append qs q a.1 b)

-- After the growth there is room.
pub grow-room : (rd : Rd) → IsValid rd → length (grow rd).i_buf < (grow rd).buf_max
unfolding grow
grow-room rd v = ground arith

pub grow-request :
    (rd : Rd)
    → IsValid rd
    → InBuffer (record {
      offset = length (grow rd).i_buf;
      room = (grow rd).buf_max - length (grow rd).i_buf;
      buf_max = (grow rd).buf_max;
    })
grow-request rd v = omega (arith, grow-room rd v)

-- Growing keeps the bytes and the counts.
pub grow-same : (rd : Rd) → ((grow rd).i_buf ≡ rd.i_buf) × ((grow rd).i_bytes ≡ rd.i_bytes)
unfolding grow
grow-same rd = ground arith
