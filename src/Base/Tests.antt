-- ===== src/Base/Tests.antt =====
-- Connections and listening sockets of src/hp_io_t.cpp over a concrete kernel and client.
use libhp.Common.{
  ℕ, zero, suc, ◌+◌, ◌<◌, ◌≡◌, refl, true, false, Option, none, some, [], ◌∷◌, ◌++◌, arith, put,
  Bytes, length,
}
use libhp.Common.Int.{ℤ, pos, negsuc}
use libhp.Io.Os
use libhp.Io.Read
use libhp.Io.Read.{rd_init}
use libhp.Io.Write.{wr_init}
use libhp.Epoll.{Epolld, Epoll, node_has_fd}
use libhp.Epoll.Table.{IsValid, NoDangling}
use libhp.Epoll.Kernel.{Interest, upd, linux, registered, linux-IsEpoll}
use libhp.Base.Data.{Hdl, on_data, internal_on_data}
use libhp.Base.Conn.{
  Side, Conn, Answers, call_delete, on_error, io_cb, has_event, epollin, epollerr, on_read_done,
  with_side, unless_code, on_errors,
}
use libhp.Base.Accept
use libhp.Base.Accept.{Listener, Accepted, on_accept}
use libhp.Base.Register.{Io, io_add}
use libhp.Base.Drain.{Consumes, Drained, on_data-Drained}
use libhp.Base.Share.{FailsAfter, Served, nothing, on_accept-Served}
use libhp.Base.Release.{IsSound, Released, on_error-Released}
use libhp.Base.Returns.{Shortens}
use libhp.Base.Events.{Unwritten, io_cb-Unwritten}
use libhp.Base.Closing.{at_end}
use libhp.Base.Lost.{Lost, io_cb-Lost}
use libhp.Base.Refuse.{Refused, io_cb-Refused}
use libhp.Base.Pending.{Waits, rd_read-Pending}
use libhp.Base.Entry.{Entered, io_add-Entered}

-- Messages of one byte, where 0 is a bad one; the client collects them.
abbrev World : Type 0
World = Side Interest Bytes

abbrev parse_byte : {W : Type 0} → Bytes → W → ℤ × Bytes × ℕ × W
parse_byte [] w = (pos 0, [], 0, w)
parse_byte (zero ∷ bs) w = (negsuc 4, bs, 0, w)
parse_byte (suc b ∷ bs) w = (pos 1, bs, suc b, w)

abbrev collect : ℕ → World → ℤ × World
collect m s = (pos 0, record s { client = s.client ++ m ∷ [] })

abbrev handler : Hdl World ℕ
handler = record {
  on_new = none;
  on_parse = some parse_byte;
  on_dispatch = some collect;
  on_loop = none;
  on_delete = some (λ err s. record s { client = s.client ++ 255 ∷ [] });
}

abbrev node : Epolld
node = record { fd = pos 10; fn = some 2; arg = 3; on_loop = none }

abbrev table : Epoll
table = record {
  fd = 4;
  allocated = true;
  ed = λ i. i + 1;
  ev_len = 1;
  max_ev_len = 2;
  timeout = pos 1000;
  before_wait = none;
  arg = 0;
  nodes = put 1 (some node) (λ p. none);
  next = 2;
}

abbrev interest : Interest
interest = upd (pos 10) (some 1) (λ fd. none)

table_live : (i : ℕ) → i < 1 → table.nodes (table.ed i) ≡ some node
table_live zero l = refl
table_live (suc i) l = ground arith

table-IsValid : IsValid table
table-IsValid = record {
  allocated = refl;
  fits = omega arith;
  live = λ i l. (node, table_live i l);
  old = λ i l. omega arith;
  apart = λ i j l u e. omega arith;
}

table-NoDangling : NoDangling registered table interest
unfolding node_has_fd
table-NoDangling (pos n) ptr h = record {
  index = 0;
  low = omega arith;
  points = ground arith;
  matches = ground arith;
}
table-NoDangling (negsuc n) ptr h = ground arith

abbrev world : World
world = record { epo = table; kernel = interest; wr = wr_init 8 true; closed = []; client = [] }

world-IsSound : IsSound registered world
world-IsSound = record { valid = table-IsValid; no_dangling = table-NoDangling }

abbrev connection : Conn Interest Bytes
connection = record {
  has_ctx = true;
  id = pos 10;
  fd = pos 10;
  rd = record {
    i_buf = [];
    buf_max = 4;
    allocated = true;
    i_bytes = 0;
    has_stat = false;
    stat = [];
    has_read_error = true;
    reported = [];
    err = pos 0;
  };
  rd_os = record { calls = 0; errno = 0; taken = []; requests = [] };
  wr_os = record { calls = 0; errno = 0; out = [] };
  side = world;
}

-- Nothing can be written, and `read` answers once as given.
abbrev answering : Read.Answer → Answers
answering a = record { reads = λ i. a; writes = λ i. Os.fails 11; iov_max = 1024 }

on_error-Released_example :
    (c' : Conn Interest Bytes) × (on_error linux handler (pos 8) connection
      ≡ call_delete handler.on_delete (pos 8) c')
    × Released registered (pos 10) world c'.side
    × (c'.rd.allocated ≡ false)
on_error-Released_example =
    on_error-Released linux registered handler (pos 8) connection linux-IsEpoll world-IsSound

input_bit : has_event 5 epollin ≡ true
unfolding has_event
input_bit = refl

no_error_bit : has_event 5 epollerr ≡ false
unfolding has_event
no_error_bit = refl

io_cb-Lost_example :
    Lost registered handler connection 0
      (io_cb linux handler 1 (pos 0) (answering (Read.gives [])) 5 connection)
io_cb-Lost_example =
    io_cb-Lost linux registered handler linux-IsEpoll 0 (pos 0) (answering (Read.gives [])) 5 0
      connection input_bit no_error_bit refl refl refl at_end world-IsSound

io_cb-Refused_example :
    Refused connection world 4
      (io_cb linux handler 2 (pos 0) (answering (Read.gives (0 ∷ 1 ∷ []))) 5 connection)
io_cb-Refused_example =
    io_cb-Refused linux handler 0 (pos 0) (answering (Read.gives (0 ∷ 1 ∷ []))) 5 3 4 0 (1 ∷ [])
      (1 ∷ []) 0 connection world parse_byte input_bit no_error_bit refl refl refl refl refl refl

-- A connection whose parser failed before.
abbrev failing_connection : Conn Interest Bytes
failing_connection = record connection { rd = record connection.rd { err = negsuc 4 } }

-- A client without `on_dispatch`, with the same parser.
abbrev parsing : Hdl World ℕ
parsing = record handler { on_dispatch = none }

parse_byte-Shortens : Shortens {W = World} parse_byte
parse_byte-Shortens [] w = omega arith
parse_byte-Shortens (zero ∷ bs) w = omega arith
parse_byte-Shortens (suc b ∷ bs) w = omega arith

parse_byte-takes : Consumes {W = World} parse_byte
parse_byte-takes [] w n e = ground (arith, e)
parse_byte-takes (zero ∷ bs) w n e = ground (arith, e)
parse_byte-takes (suc b ∷ bs) w n e = omega arith

-- Two bytes come, and then no more.
abbrev two_bytes : Read.Kernel
two_bytes zero = Read.gives (7 ∷ 8 ∷ [])
two_bytes (suc n) = Read.fails 11

abbrev two_bytes_then_none : Answers
two_bytes_then_none = record { reads = two_bytes; writes = λ i. Os.fails 11; iov_max = 1024 }

io_cb-Unwritten_example :
    Unwritten linux parsing failing_connection
      (io_cb linux parsing 3 (pos 0) two_bytes_then_none 5 failing_connection)
io_cb-Unwritten_example =
    io_cb-Unwritten linux parsing 3 1 (pos 0) two_bytes_then_none 5 failing_connection parse_byte
      refl refl parse_byte-takes parse_byte-Shortens refl (omega arith) (omega arith) input_bit refl

-- With `on_dispatch` too, a call returns the code that is left.
failing_returns :
    io_cb linux handler 1 (pos 0) (answering (Read.fails 11)) 5 failing_connection
    ≡ some (
      negsuc 4,
      record failing_connection {
        rd_os = record {
          calls = 1;
          errno = 11;
          taken = [];
          requests = record { offset = 0; room = 4; buf_max = 4 } ∷ [];
        };
      },
    )
unfolding io_cb has_event on_read_done with_side unless_code on_errors Read.rd_read Os.is_again
    Read.read_as Read.os_after
failing_returns = refl

abbrev two_messages : Read.Rd
two_messages = record connection.rd { i_buf = 7 ∷ 8 ∷ [] }

rd_read-Pending_example : Waits (pos 0) (8 ∷ []) (some (record world { client = 7 ∷ [] })) (
    Read.rd_read
      (internal_on_data 1 handler)
      1
      (λ i. Read.fails 11)
      two_messages
      connection.rd_os
      (some world))
unfolding Os.is_again
rd_read-Pending_example =
    rd_read-Pending 0 0 0 11 7 (8 ∷ []) (8 ∷ []) 7 handler (λ i. Read.fails 11) two_messages
      connection.rd_os world world (record world { client = 7 ∷ [] }) parse_byte collect refl refl
      refl refl refl refl refl

-- A client without `on_dispatch`, whose parser counts.
abbrev counter : Hdl ℕ ℕ
counter = record {
  on_new = none;
  on_parse = some parse_byte;
  on_dispatch = none;
  on_loop = none;
  on_delete = none;
}

parse_byte-consumes :
    (buf : Bytes) (w n : ℕ)
    → (parse_byte buf w).0 ≡ pos (suc n)
    → length (parse_byte buf w).1 < length buf
parse_byte-consumes [] w n e = ground arith
parse_byte-consumes (zero ∷ bs) w n e = ground arith
parse_byte-consumes (suc b ∷ bs) w n e = omega arith

on_data-Drained_example :
    Drained parse_byte (1 ∷ 2 ∷ 0 ∷ 3 ∷ []) 9 (on_data 5 counter (1 ∷ 2 ∷ 0 ∷ 3 ∷ []) 9)
on_data-Drained_example =
    on_data-Drained 5 counter parse_byte (1 ∷ 2 ∷ 0 ∷ 3 ∷ []) 9 refl refl parse_byte-consumes
      (omega arith)

-- A server that takes every second connection.
abbrev alternate : ℤ → ℕ → Option ℕ × ℕ
alternate fd zero = (some 64, 1)
alternate fd (suc n) = (none, 0)

abbrev server : Hdl ℕ ℕ
server = record {
  on_new = some alternate;
  on_parse = none;
  on_dispatch = none;
  on_loop = none;
  on_delete = none;
}

abbrev two_calls : ℕ → Accepted
two_calls zero = Accept.gives (pos 20) (pos 0)
two_calls (suc zero) = Accept.gives (pos 21) (pos 0)
two_calls (suc (suc i)) = Accept.fails 11

two_calls-FailsAfter : FailsAfter two_calls 0 2 11
two_calls-FailsAfter = record { before = given; at_last = refl }
  where
    given : (i : ℕ) → i < 2 → (fd nodelay : ℤ) × (two_calls (0 + i) ≡ Accept.gives fd nodelay)
    given zero l = (pos 20, pos 0, refl)
    given (suc zero) l = (pos 21, pos 0, refl)
    given (suc (suc i)) l = ground arith

abbrev idle : Listener ℕ
idle = record { calls = 0; accepted = []; closed = []; taken = []; client = 0 }

on_accept-Served_example : Served idle 2 11 (on_accept 3 two_calls server idle)
on_accept-Served_example =
    on_accept-Served 3 2 11 two_calls server idle two_calls-FailsAfter (omega arith) nothing

abbrev unset : Io
unset = record { id = negsuc 0; fd = negsuc 0; rd = none; wr = none }

io_add-Entered_example :
    Entered linux registered 64 unset
      (pos 11)
      handler
      table
      interest
      (io_add linux 64 unset (pos 11) handler table interest)
io_add-Entered_example =
    io_add-Entered linux registered 64 unset (pos 11) handler table interest linux-IsEpoll
      table-IsValid table-NoDangling
