-- ===== src/Base/Entry.antt =====
-- hp_io_add of src/hp_io_t.cpp over the epoll table: what it registers, and how it refuses.
use libhp.Common.{
  ℕ, ◌≡◌, refl, subst, inl, inr, Bool-cases, Bool, true, false, ◌&&◌, ◌||◌, not, Option, some, List,
  arith, if◌then◌else◌,
}
use libhp.Common.Int.{ℤ, negsuc}
use libhp.Poll.{sock_is_valid}
use libhp.Epoll.{Epolld, Epoll, Ctl, Outcome, epoll_add}
use libhp.Epoll.Table.{entries, IsValid, IsEpoll, NoDangling}
use libhp.Epoll.Branch.{Branch, modded, added}
use libhp.Epoll.Add.{Added, epoll_add-Added}
use libhp.Base.Data.{Hdl}
use libhp.Base.Conn.{epollin}
use libhp.Base.Register.{
  Io, accept_fn, io_fn, in_out_edge, is_set, loop_if, with_io, add_as, io_add,
}

-- The callback that is registered: that of a listening socket if there is `on_new`.
abbrev pub fn_of : Bool → ℕ
fn_of is_listener = if is_listener then accept_fn else io_fn

abbrev pub node_of : {W M : Type 0} → ℕ → ℤ → Hdl W M → Epolld
node_of arg fd hdl = record {
  fd = fd;
  fn = some (fn_of (is_set hdl.on_new));
  arg = arg;
  on_loop = loop_if hdl.on_loop;
}

-- Whether the reader and the queue were set up.
abbrev pub has_stream : Io → Bool
has_stream io = is_set io.rd && is_set io.wr

abbrev pub has_neither : Io → Bool
has_neither io = not (is_set io.rd || is_set io.wr)

-- The events that the entry is registered for.
abbrev pub events_of : Bool → ℕ
events_of is_listener = if is_listener then epollin else in_out_edge

-- What hp_io_add returns, sets in the hp_io_t and leaves in the table.
pub data Way {W M : Type 0} (arg : ℕ) (old : Io) (fd : ℤ) (hdl : Hdl W M) (epo : Epoll)
    (modded : ℕ → Option ℕ) (added held : Option ℕ) : ℤ → Io → List (Option Epolld) → Type 0 where
  no_handler :
      is_set hdl.on_new ≡ false
      → is_set hdl.on_parse ≡ false
      → Way arg old fd hdl epo modded added held (negsuc 0) old (entries epo)
  bad_fd :
      (is_set hdl.on_new || is_set hdl.on_parse) ≡ true
      → sock_is_valid fd ≡ false
      → Way arg old fd hdl epo modded added held (negsuc 1) old (entries epo)
  given :
      {code : ℤ} {io : Io} {es : List (Option Epolld)}
      → sock_is_valid fd ≡ true
      → io.fd ≡ fd
      → io.id ≡ fd
      → has_stream io ≡ not (is_set hdl.on_new)
      → has_neither io ≡ is_set hdl.on_new
      → Branch epo (node_of arg fd hdl) modded added held code es
      → Way arg old fd hdl epo modded added held code io es

module _ {K : Type 0} (ctl : Ctl K) (registered : K → ℤ → Option ℕ) where
  pub record Entered {W M : Type 0} (arg : ℕ) (old : Io) (fd : ℤ) (hdl : Hdl W M) (epo : Epoll)
      (k : K) (r : Option (ℤ × Io × Epoll × K)) : Type 0 where
    pub code : ℤ
    pub io : Io
    pub epo' : Epoll
    pub k' : K
    pub returns : r ≡ some (code, io, epo', k')
    pub way :
        Way arg old fd hdl epo
          (modded ctl (node_of arg fd hdl) (events_of (is_set hdl.on_new)) k)
          (added ctl epo (node_of arg fd hdl) (events_of (is_set hdl.on_new)) k)
          (registered k' fd)
          code
          io
          (entries epo')
    pub valid : IsValid epo'
    pub no_dangling : NoDangling registered epo' k'

  module _ {W M : Type 0} (arg : ℕ) (old : Io) (fd : ℤ) (hdl : Hdl W M) (epo : Epoll) (k : K)
      (law : IsEpoll ctl registered) (v : IsValid epo) (nd : NoDangling registered epo k) where
    with_io-Entered :
        (io : Io) (o : Outcome K)
        → sock_is_valid fd ≡ true
        → io.fd ≡ fd
        → io.id ≡ fd
        → has_stream io ≡ not (is_set hdl.on_new)
        → has_neither io ≡ is_set hdl.on_new
        → Added ctl registered epo (node_of arg fd hdl) (events_of (is_set hdl.on_new)) k o
        → Entered arg old fd hdl epo k (with_io ctl io o)
    unfolding with_io
    with_io-Entered io o s same_fd same_id st no_st a = rw a.returns (record {
      code = a.code;
      io = io;
      epo' = a.epo';
      k' = a.k';
      returns = refl;
      way = given s same_fd same_id st no_st a.branch;
      valid = a.valid;
      no_dangling = a.no_dangling;
    })

    given-Added :
        (b : Bool)
        → is_set hdl.on_new ≡ b
        → Added ctl registered epo
            (node_of arg fd hdl)
            (events_of (is_set hdl.on_new))
            k
            (epoll_add ctl epo fd (events_of b) (some (fn_of b)) (loop_if hdl.on_loop) arg k)
    given-Added b e =
        let events = events_of (is_set hdl.on_new) in
        subst
          (λ c.
            Added ctl registered epo (node_of arg fd hdl) events k
              (epoll_add ctl epo fd (events_of c) (some (fn_of c)) (loop_if hdl.on_loop) arg k))
          e (epoll_add-Added ctl registered epo (node_of arg fd hdl) events k law v nd)

    add_as-Entered :
        (b : Bool)
        → is_set hdl.on_new ≡ b
        → sock_is_valid fd ≡ true
        → Entered arg old fd hdl epo k (add_as ctl b fd (loop_if hdl.on_loop) arg epo k)
    unfolding add_as is_set
    add_as-Entered true e s =
        with_io-Entered _ _ s refl refl (rw e refl) (rw e refl) (given-Added true e)
    add_as-Entered false e s =
        with_io-Entered _ _ s refl refl (rw e refl) (rw e refl) (given-Added false e)

    refuse :
        (code : ℤ)
        → Way arg old fd hdl epo
            (modded ctl (node_of arg fd hdl) (events_of (is_set hdl.on_new)) k)
            (added ctl epo (node_of arg fd hdl) (events_of (is_set hdl.on_new)) k)
            (registered k fd)
            code
            old
            (entries epo)
        → Entered arg old fd hdl epo k (some (code, old, epo, k))
    refuse code way = record {
      code = code;
      io = old;
      epo' = epo;
      k' = k;
      returns = refl;
      way = way;
      valid = v;
      no_dangling = nd;
    }

    -- On a valid table whose kernel, behaving as documented, holds no dangling pointer: hp_io_add returns. It
    -- is -1 without `on_new` and `on_parse`, and -2 for a negative descriptor, and then nothing changes. Else the
    -- descriptor is its id too, the reader and the queue are set up if there is no `on_new`, and neither if there is, and the table changes
    -- in one of the ways of hp_epoll_add, for an entry with the callback of a listening socket if there is
    -- `on_new`, and with that of a connection if not. The table stays valid and nothing dangles.
    pub io_add-Entered : Entered arg old fd hdl epo k (io_add ctl arg old fd hdl epo k)
    unfolding io_add
    io_add-Entered = elim (Bool-cases (is_set hdl.on_new || is_set hdl.on_parse)) [
      | inl h ↦ elim (Bool-cases (sock_is_valid fd)) [
        | inl s ↦ rw (h, s) (add_as-Entered (is_set hdl.on_new) refl s)
        | inr s ↦ rw (h, s) (refuse (negsuc 1) (bad_fd h s))
      ]
      | inr h ↦ rw h (refuse (negsuc 0) (no_handler (ground (arith, h)) (ground (arith, h))))
    ]
