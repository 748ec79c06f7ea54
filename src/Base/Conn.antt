-- ===== src/Base/Conn.antt =====
-- hp_io_t_internal_io_cb of src/hp_io_t.cpp: the events of a connection, over the reader and the
-- write queue, and hp_io_t_on_error, which takes it out of the epoll instance.
use libhp.Common.{ℕ, ◌/◌, ◌%◌, Bool, Option, none, some, List, [], ◌∷◌, ◌++◌, ◌==◌, if◌then◌else◌}
use libhp.Common.Int.{ℤ, pos, negsuc, int_eq}
use libhp.Io.Os
use libhp.Io.Read
use libhp.Io.Write
use libhp.Epoll.{Epoll, Ctl, epoll_rm}
use libhp.Base.Data.{Hdl, internal_on_data}

-- What the callbacks of a connection may change: the event table and the kernel's list, the write
-- queue, the descriptors that were closed, and the client's own state.
pub record Side (K S : Type 0) : Type 0 where
  pub epo : Epoll
  pub kernel : K
  pub wr : Write.Wr
  pub closed : List ℤ
  pub client : S

-- `struct hp_io_t` with the two directions of its descriptor.
pub record Conn (K S : Type 0) : Type 0 where
  pub has_ctx : Bool
  pub id : ℤ
  pub fd : ℤ
  pub rd : Read.Rd
  pub rd_os : Read.Os
  pub wr_os : Os.Os
  pub side : Side K S

-- The kernel's answers to `read` and `writev`, and `sysconf(_SC_IOV_MAX)`.
pub record Answers : Type 0 where
  pub reads : Read.Kernel
  pub writes : Os.Kernel
  pub iov_max : ℕ

abbrev pub epollin : ℕ
epollin = 1

abbrev pub epollout : ℕ
epollout = 4

abbrev pub epollerr : ℕ
epollerr = 8

-- `ev->events & bit`, for a power of two
unfoldable pub has_event : ℕ → ℕ → Bool
has_event events bit = (events / bit) % 2 == 1

module _ {K S : Type 0} where
  -- hp_io_fd
  unfoldable pub io_fd : Conn K S → ℤ
  io_fd c = if c.has_ctx then c.fd else negsuc 0

  unfoldable pub call_delete : Option (ℤ → Side K S → Side K S) → ℤ → Conn K S → Conn K S
  call_delete (some on_delete) err c = record c { side = on_delete err c.side }
  call_delete none err c = c

  -- The entry is taken out, the descriptor is closed, and the write queue is freed.
  unfoldable pub close_side : Ctl K → ℤ → Side K S → Side K S
  close_side ctl fd s = record s {
    epo = (epoll_rm ctl s.epo fd s.kernel).1;
    kernel = (epoll_rm ctl s.epo fd s.kernel).2;
    closed = s.closed ++ fd ∷ [];
    wr = Write.wr_uninit s.wr;
  }

  module _ {M : Type 0} (ctl : Ctl K) (hdl : Hdl (Side K S) M) where
    -- hp_io_t_on_error
    unfoldable pub on_error : ℤ → Conn K S → Conn K S
    unfolding call_delete close_side
    on_error err c =
        call_delete hdl.on_delete err
          (record c { rd = Read.rd_uninit c.rd; side = close_side ctl c.fd c.side })

    -- The calls of `read_error` or of `write_error`.
    unfoldable pub on_errors : List ℕ → Conn K S → Conn K S
    unfolding on_error
    on_errors [] c = c
    on_errors (e ∷ es) c = on_errors es (on_error (pos e) c)

    -- When hp_wr_write has returned; `write_error` is the last that it calls.
    unfoldable pub on_flushed : Option Write.Flushed → Conn K S → Option (ℤ × Conn K S)
    unfolding on_errors
    on_flushed none c = none
    on_flushed (some f) c = some (
      pos 0,
      on_errors f.wr.reported
          (record c { wr_os = f.os; side = record c.side { wr = record f.wr { reported = [] } } }),
    )

    -- EPOLLOUT
    unfoldable pub on_out : Answers → ℕ → Conn K S → Option (ℤ × Conn K S)
    unfolding on_flushed
    on_out answers events c =
        if has_event events epollout
        then on_flushed (Write.wr_write answers.writes answers.iov_max c.side.wr c.wr_os) c
        else some (pos 0, c)

    -- `if(rc != 0) return rc;`
    unfoldable pub unless_code : ℤ → Answers → ℕ → Conn K S → Option (ℤ × Conn K S)
    unfolding on_out
    unless_code rc answers events c =
        if int_eq rc (pos 0) then on_out answers events c else some (rc, c)

    unfoldable pub with_side :
        Option (Side K S) → Read.Rd → Read.Os → Answers → ℕ → Conn K S → Option (ℤ × Conn K S)
    unfolding unless_code on_errors
    with_side none rd os answers events c = none
    with_side (some s) rd os answers events c = unless_code rd.err answers events (
        on_errors rd.reported (record c { rd = record rd { reported = [] }; rd_os = os; side = s }))

    -- When hp_rd_read has returned; `read_error` is the last that it calls.
    unfoldable pub on_read_done :
        Option (Read.Done (Option (Side K S))) → Answers → ℕ → Conn K S → Option (ℤ × Conn K S)
    unfolding with_side
    on_read_done none answers events c = none
    on_read_done (some d) answers events c = with_side d.client d.rd d.os answers events c

    -- hp_io_t_internal_io_cb; `stale` is what the uninitialised `rc` holds if there is no EPOLLIN.
    unfoldable pub io_cb : ℕ → ℤ → Answers → ℕ → Conn K S → Option (ℤ × Conn K S)
    unfolding on_read_done internal_on_data
    io_cb fuel stale answers events c =
        if has_event events epollerr
        then some (pos epollerr, on_error (pos epollerr) c)
        else if has_event events epollin
        then on_read_done
            (Read.rd_read (internal_on_data fuel hdl) fuel answers.reads c.rd c.rd_os (some c.side))
            answers events c
        else unless_code stale answers events c
