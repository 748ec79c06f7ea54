-- ===== src/Base/Release.antt =====
-- hp_io_t_on_error of src/hp_io_t.cpp releases all that a connection holds, and then tells the client.
use libhp.Common.{
  ℕ, ◌≡◌, refl, ap, false, Option, none, some, [], ◌∷◌, ◌++◌, length, take_all, drop_all, arith,
  remove_first,
}
use libhp.Common.Int.{ℤ}
use libhp.Io.Read.{rd_uninit}
use libhp.Io.Write.{wr_uninit, wr_clear, del_n, releases}
use libhp.Epoll.{Ctl, node_has_fd}
use libhp.Epoll.Table.{entries, IsValid, IsEpoll, NoDangling}
use libhp.Epoll.Remove.{epoll_rm-Removed}
use libhp.Base.Data.{Hdl}
use libhp.Base.Conn.{Side, Conn, call_delete, close_side, on_error}

-- The state of a table and its kernel: nothing dangles.
pub record IsSound {K S : Type 0} (registered : K → ℤ → Option ℕ) (s : Side K S) : Type 0 where
  pub valid : IsValid s.epo
  pub no_dangling : NoDangling registered s.epo s.kernel

-- What is left of a connection on `fd`: no entry, nothing in the kernel, no queued item, and one more
-- closed descriptor.
pub record Released {K S : Type 0} (registered : K → ℤ → Option ℕ) (fd : ℤ) (s s' : Side K S)
    : Type 0 where
  pub sound : IsSound registered s'
  pub entries_eq : entries s'.epo ≡ remove_first (node_has_fd fd) (entries s.epo)
  pub unregistered : registered s'.kernel fd ≡ none
  pub closed : s'.closed ≡ s.closed ++ fd ∷ []
  pub unqueued : s'.wr.o_items ≡ []
  pub array_freed : s'.wr.allocated ≡ false
  pub items_freed : s'.wr.freed ≡ s.wr.freed ++ releases s.wr.o_items
  pub client : s'.client ≡ s.client

-- `on_delete` writes nothing on the connection.
pub call_delete-wr_os :
    {K S : Type 0} (f : Option (ℤ → Side K S → Side K S)) (err : ℤ) (c : Conn K S)
    → (call_delete f err c).wr_os ≡ c.wr_os
unfolding call_delete
call_delete-wr_os (some f) err c = refl
call_delete-wr_os none err c = refl

pub close_side-Released :
    {K S : Type 0} (ctl : Ctl K) (registered : K → ℤ → Option ℕ) (fd : ℤ) (s : Side K S)
    → IsEpoll ctl registered
    → IsSound registered s
    → Released registered fd s (close_side ctl fd s)
unfolding close_side wr_uninit wr_clear del_n
close_side-Released ctl registered fd s law h =
    let r = epoll_rm-Removed ctl registered s.epo fd s.kernel law h.valid h.no_dangling in
    record {
      sound = record { valid = r.valid; no_dangling = r.no_dangling };
      entries_eq = r.entries_eq;
      unregistered = r.unregistered;
      closed = refl;
      unqueued = drop_all (length s.wr.o_items) s.wr.o_items (omega arith);
      array_freed = refl;
      items_freed =
          ap (λ xs. s.wr.freed ++ releases xs)
            (take_all (length s.wr.o_items) s.wr.o_items (omega arith));
      client = refl;
    }

-- On a valid table whose kernel, behaving as documented, holds no dangling pointer: when hp_io_t_on_error calls
-- `on_delete`, or returns if that is NULL, the connection's entry is out of the table and its descriptor
-- is not registered with the kernel and is closed, once; every queued item was released, and the array and
-- the read buffer are freed. The table is valid, and the kernel holds no dangling pointer.
pub on_error-Released :
    {K S M : Type 0} (ctl : Ctl K) (registered : K → ℤ → Option ℕ) (hdl : Hdl (Side K S) M)
    (err : ℤ) (c : Conn K S)
    → IsEpoll ctl registered
    → IsSound registered c.side
    → (c' : Conn K S) × (on_error ctl hdl err c ≡ call_delete hdl.on_delete err c')
      × Released registered c.fd c.side c'.side
      × (c'.rd.allocated ≡ false)
unfolding on_error rd_uninit
on_error-Released ctl registered hdl err c law h = (
  record c { rd = rd_uninit c.rd; side = close_side ctl c.fd c.side },
  refl,
  close_side-Released ctl registered c.fd c.side law h,
  refl,
)
