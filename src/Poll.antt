-- ===== src/Poll.antt =====
-- src/hp_poll.c: the table of polled descriptors. The block that hp_poll_init allocates holds the
-- `hp_polld` cells below `fds` and the `pollfd` cells from it: `.fds[-i]` belongs to `.fds[i]`, for
-- `i` from 1. The cells below `fds` are `cells`, by their address from the start of the block.
pub mod Add
pub mod Refine
pub mod Run
pub mod Remove
pub mod Table
mod Tests
use libhp.Common.{
  ℕ, zero, suc, ◌+◌, ◌-◌, Bool, true, false, Option, none, some, ltb, leb, ◌==◌, if◌then◌else◌, put,
  memmove, lfind, not,
}
use libhp.Common.Int.{ℤ, pos, negsuc, int_eq}

pub record Pollfd : Type 0 where
  pub fd : ℤ
  pub events : ℕ
  pub revents : ℕ

-- A function pointer is `none` if it is NULL.
pub record Polld : Type 0 where
  pub fn : Option ℕ
  pub arg : ℕ
  pub on_loop : Option ℕ

pub record Poll : Type 0 where
  pub fds : ℕ → Pollfd
  pub cells : ℕ → Polld
  pub allocated : Bool
  pub nfds : ℕ
  pub max_fd : ℕ
  pub timeout : ℤ
  pub before_wait : Option ℕ
  pub arg : ℕ

-- The address of `.fds[-i]`.
unfoldable pub below : Poll → ℕ → ℕ
below po i = (po.max_fd + 1) - i

-- `((hp_polld *)po->fds)[-i]`
unfoldable pub polld : Poll → ℕ → Polld
unfolding below
polld po i = po.cells (below po i)

-- The entries that hp_poll_init allocates.
unfoldable pub init_len : ℤ → ℕ
init_len (pos zero) = 65535
init_len (pos (suc n)) = suc n + 1
init_len (negsuc n) = 65535

-- `fds` and `cells` are what `malloc` returned, whatever that holds.
unfoldable pub poll_init : (ℕ → Pollfd) → (ℕ → Polld) → ℤ → ℤ → Option ℕ → ℕ → Poll
unfolding init_len
poll_init fds cells max_fd timeout before_wait arg = record {
  fds = fds;
  cells = cells;
  allocated = true;
  nfds = 0;
  max_fd = init_len max_fd - 1;
  timeout = timeout;
  before_wait = before_wait;
  arg = arg;
}

-- Entry `index` is closed up: the cells of the entries after it move by one, on either side.
unfoldable pub close_up : Poll → ℕ → Poll
unfolding below
close_up po index = record po {
  cells =
      if ltb index po.nfds
      then memmove (below po po.nfds + 1) (below po po.nfds) (po.nfds - index) po.cells
      else po.cells;
  fds = if ltb index po.nfds then memmove index (index + 1) (po.nfds - index) po.fds else po.fds;
  nfds = po.nfds - 1;
}

unfoldable pub poll_rm_at : Poll → ℕ → ℤ × Poll
unfolding close_up
poll_rm_at po index =
    if leb 1 index
    then (if leb index po.nfds then (pos 0, close_up po index) else (negsuc 0, po))
    else (negsuc 0, po)

-- find_by_fd: 0, a match, if the descriptors are the same.
unfoldable pub has_fd : Poll → ℤ → ℕ → Bool
has_fd po fd i = int_eq (po.fds i).fd fd

-- The fields of entry `index` but its descriptor.
unfoldable pub fill_in : Poll → ℕ → ℕ → Option ℕ → Option ℕ → ℕ → Poll
unfolding below
fill_in po index events fn on_loop arg = record po {
  fds = put index (record (po.fds index) { events = events; revents = 0 }) po.fds;
  cells = put (below po index) (record { fn = fn; arg = arg; on_loop = on_loop }) po.cells;
}

-- `index = ++po->nfds; po->fds[index].fd = fd;`
unfoldable pub next_entry : Poll → ℤ → Poll
next_entry po fd = record po {
  nfds = po.nfds + 1;
  fds = put (po.nfds + 1) (record (po.fds (po.nfds + 1)) { fd = fd }) po.fds;
}

-- The entry was found, or one is added where there is room.
unfoldable pub add_at : Option ℕ → Poll → ℤ → ℕ → Option ℕ → Option ℕ → ℕ → ℤ × Poll
unfolding fill_in next_entry
add_at (some index) po fd events fn on_loop arg = (pos 0, fill_in po index events fn on_loop arg)
add_at none po fd events fn on_loop arg =
    if leb po.max_fd po.nfds
    then (negsuc 1, po)
    else (pos 0, fill_in (next_entry po fd) (po.nfds + 1) events fn on_loop arg)

-- `hp_sock_is_valid(fd)`
unfoldable pub sock_is_valid : ℤ → Bool
sock_is_valid (pos n) = true
sock_is_valid (negsuc n) = false

unfoldable pub poll_add : Poll → ℤ → ℕ → Option ℕ → Option ℕ → ℕ → ℤ × Poll
unfolding has_fd add_at sock_is_valid
poll_add po fd events fn on_loop arg =
    if po.allocated
    then (if sock_is_valid fd
        then add_at (lfind (has_fd po fd) 1 po.nfds) po fd events fn on_loop arg
        else (negsuc 0, po))
    else (negsuc 0, po)

unfoldable pub rm_found : Option ℕ → Poll → ℤ × Poll
unfolding poll_rm_at
rm_found (some index) po = (pos 0, (poll_rm_at po index).1)
rm_found none po = (negsuc 0, po)

unfoldable pub poll_rm : Poll → ℤ → ℤ × Poll
unfolding has_fd rm_found
poll_rm po fd = rm_found (lfind (has_fd po fd) 1 po.nfds) po

-- hp_poll_do_find matches if the client's comparison is not 0, or if the pointers are the same.
unfoldable pub do_find : Option (ℕ → ℕ → ℤ) → Poll → ℕ → ℕ → Bool
unfolding polld
do_find (some on_cmp) po key i = not (int_eq (on_cmp key (polld po i).arg) (pos 0))
do_find none po key i = key == (polld po i).arg

unfoldable pub arg_at : Option ℕ → Poll → ℕ
unfolding polld
arg_at (some i) po = (polld po i).arg
arg_at none po = 0

-- The `arg` of the first match, or NULL.
unfoldable pub poll_find : Poll → ℕ → Option (ℕ → ℕ → ℤ) → ℕ
unfolding do_find arg_at
poll_find po key cb = arg_at (lfind (do_find cb po key) 1 po.nfds) po
