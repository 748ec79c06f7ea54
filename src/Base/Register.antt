-- ===== src/Base/Register.antt =====
-- hp_io_add of src/hp_io_t.cpp gives a descriptor to the epoll instance.
use libhp.Common.{
  ℕ, ◌+◌, ◌*◌, Bool, true, false, ◌&&◌, ◌||◌, Option, none, some, if◌then◌else◌, ltb,
}
use libhp.Common.Int.{ℤ, pos, negsuc, int_eq}
use libhp.Io.Read.{Rd, rd_init}
use libhp.Io.Write.{Wr, wr_init}
use libhp.Poll.{sock_is_valid}
use libhp.Epoll.{Epoll, Ctl, Outcome, epoll_add}
use libhp.Base.Data.{Hdl}
use libhp.Base.Conn.{Conn, io_fd, epollin}

-- The addresses of the functions that hp_io_add gives to the event table.
abbrev pub accept_fn : ℕ
accept_fn = 1

abbrev pub io_fn : ℕ
io_fn = 2

abbrev pub loop_fn : ℕ
loop_fn = 3

-- EPOLLIN | EPOLLOUT | EPOLLET
abbrev pub in_out_edge : ℕ
in_out_edge = 1 + 4 + 2147483648

unfoldable pub is_set : {A : Type 0} → Option A → Bool
is_set (some a) = true
is_set none = false

-- `iohdl.on_loop? hp_io_t_internal_on_loop : 0`
unfoldable pub loop_if : {A : Type 0} → Option A → Option ℕ
loop_if (some a) = some loop_fn
loop_if none = none

-- `struct hp_io_t` as hp_io_add sets it; the queue and the reader are `none` if they are not set up.
pub record Io : Type 0 where
  pub id : ℤ
  pub fd : ℤ
  pub rd : Option Rd
  pub wr : Option Wr

abbrev new_io : ℤ → Io
new_io fd = record { id = fd; fd = fd; rd = none; wr = none }

-- The reader and the queue of a connection.
abbrev stream_io : ℤ → Io
stream_io fd = record (new_io fd) {
  rd = some (rd_init (1024 * 8) true);
  wr = some (wr_init 8 true);
}

module _ {K : Type 0} (ctl : Ctl K) where
  unfoldable pub with_io : Io → Outcome K → Option (ℤ × Io × Epoll × K)
  with_io io none = none
  with_io io (some (rc, epo, k)) = some (rc, io, epo, k)

  -- A listening socket has `on_new`, a connection `on_parse`.
  unfoldable pub add_as : Bool → ℤ → Option ℕ → ℕ → Epoll → K → Option (ℤ × Io × Epoll × K)
  unfolding with_io
  add_as true fd on_loop arg epo k =
      with_io (new_io fd) (epoll_add ctl epo fd epollin (some accept_fn) on_loop arg k)
  add_as false fd on_loop arg epo k =
      with_io (stream_io fd) (epoll_add ctl epo fd in_out_edge (some io_fn) on_loop arg k)

  -- hp_io_add; `arg` is the address of `io`, and a refusal leaves it as it was.
  unfoldable pub io_add :
      {W M : Type 0} → ℕ → Io → ℤ → Hdl W M → Epoll → K → Option (ℤ × Io × Epoll × K)
  unfolding add_as is_set loop_if sock_is_valid
  io_add arg io fd hdl epo k =
      if is_set hdl.on_new || is_set hdl.on_parse
      then (if sock_is_valid fd
          then add_as (is_set hdl.on_new) fd (loop_if hdl.on_loop) arg epo k
          else some (negsuc 1, io, epo, k))
      else some (negsuc 0, io, epo, k)

-- a > 0
abbrev is_positive : ℤ → Bool
is_positive (pos n) = ltb 0 n
is_positive (negsuc n) = false

-- iolist_match: by the id, or by the descriptor. A key is an hp_io_t too, `none` for NULL.
unfoldable pub iolist_match : {K S : Type 0} → Conn K S → Option (Conn K S) → Bool
unfolding io_fd sock_is_valid
iolist_match io none = false
iolist_match io (some key) =
    (is_positive key.id && int_eq io.id key.id)
    || (sock_is_valid (io_fd key) && int_eq (io_fd io) (io_fd key))
