-- ===== src/Iocp/Poller.antt =====
-- The polling thread of src/hp_iocp.c: its table of sockets follows the messages, and sockets that are ready
-- are read and told to the user's thread.
use libhp.Common.{
  ℕ, ◌+◌, ◌*◌, ◌%◌, ◌^◌, Bool, true, false, not, ◌||◌, ◌&&◌, ◌==◌, Option, none, some, List, [],
  ◌∷◌, ◌++◌, if◌then◌else◌, map,
}
use libhp.Iocp.Search.{bsearch}
use libhp.Iocp.Data.{Flags, no_flags, is_empty, Msg, wm_add, wm_rm, remove_at, update_at}

-- `struct hp_iocp_polld`
pub record Polld : Type 0 where
  pub id : ℕ
  pub fd : ℕ
  pub lastr : ℕ
  pub last_R : ℕ
  pub flags : Flags

-- HP_IOCP_PENDING_BUF
abbrev pending_buf : ℕ
pending_buf = 1024

abbrev pub poll_ids : List Polld → List ℕ
poll_ids pds = map (λ p. p.id) pds

unfoldable pub pd_find : List Polld → ℕ → Option ℕ
unfolding bsearch
pd_find pds id = bsearch (poll_ids pds) id

-- HP_IOCP_WM_ADD: `assert(!pd)`
unfoldable pub on_add : Option ℕ → ℕ → ℕ → List Polld → Option (List Polld)
on_add (some i) id fd pds = none
on_add none id fd pds = some (
    pds
    ++ record {
      id = id;
      fd = fd;
      lastr = pending_buf;
      last_R = pending_buf;
      flags = record no_flags { pollin = true };
    }
      ∷ [])

-- HP_IOCP_WM_RM: `assert(pd)`; without a flag the socket is taken out.
unfoldable pub on_rm : Option ℕ → Flags → List Polld → Option (List Polld)
unfolding remove_at update_at
on_rm none flags pds = none
on_rm (some i) flags pds =
    some (
      if is_empty flags then remove_at i pds else update_at i (λ p. record p { flags = flags }) pds)

-- A message; `none` where an assertion fails.
unfoldable pub on_msg : Msg → List Polld → Option (List Polld)
unfolding on_add on_rm pd_find
on_msg (wm_add id fd) pds = on_add (pd_find pds id) id fd pds
on_msg (wm_rm id flags) pds = on_rm (pd_find pds id) flags pds

unfoldable pub or_failed :
    (List Polld → Option (List Polld)) → Option (List Polld) → Option (List Polld)
or_failed f (some pds) = f pds
or_failed f none = none

-- The messages that PeekMessage takes.
unfoldable pub on_msgs : List Msg → List Polld → Option (List Polld)
unfolding on_msg or_failed
on_msgs [] pds = some pds
on_msgs (m ∷ ms) pds = or_failed (on_msgs ms) (on_msg m pds)

-- What `select` says of a socket.
pub record Ready : Type 0 where
  pub can_read : Bool
  pub can_write : Bool
  pub except : Bool

-- What the pass does with a socket: the size of the read that it starts, and the events that it tells.
pub record Told : Type 0 where
  pub polld : Polld
  pub read : Option ℕ
  pub tells : Option Flags

-- `lastr == lastR? lastR * 2 : lastr + 1`, of `int`
unfoldable pub next_size : ℕ → ℕ → ℕ
next_size lastr last_R = if lastr == last_R then (last_R * 2) % 2 ^ 32 else (lastr + 1) % 2 ^ 32

-- The flags that are told: POLLERR alone if there is an exception, or if the read fails.
abbrev told_flags : Ready → Bool → Flags
told_flags r failed =
    if r.except || (r.can_read && failed)
    then record no_flags { pollerr = true }
    else record no_flags { pollout = r.can_write }

-- A socket after `select`; `failed` tells if hp_iocp_do_read fails.
unfoldable pub select_one : Ready → Bool → Polld → Told
unfolding next_size
select_one r failed p =
    let p' : Polld =
      if r.can_write then record p { flags = record p.flags { pollout = false } } else p in
    let size = next_size p.lastr p.last_R in
    if r.can_read || r.can_write || r.except
    then (if r.can_read && not r.except
        then record {
          polld = record p' { last_R = size };
          read = some size;
          tells = some (told_flags r failed);
        }
        else record { polld = p'; read = none; tells = some (told_flags r failed) })
    else record { polld = p; read = none; tells = none }

-- A socket after `WSAPoll`, in the build with LIBHP_WITH_WSAPOLL: its events are told as they are.
unfoldable pub poll_one : Flags → Bool → Polld → Told
unfolding next_size
poll_one revents failed p =
    let p' : Polld =
      if revents.pollout then record p { flags = record p.flags { pollout = false } } else p in
    let size = next_size p.lastr p.last_R in
    if is_empty revents
    then record { polld = p; read = none; tells = none }
    else if revents.pollin
    then record {
      polld = record p' { last_R = size };
      read = some size;
      tells = some (if failed then record no_flags { pollerr = true } else revents);
    }
    else record { polld = p'; read = none; tells = some revents }
