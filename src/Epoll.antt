-- ===== src/Epoll.antt =====
-- src/hp_epoll.c: the descriptors of an epoll instance. `ed` is an array of pointers to `hp_epolld`,
-- which the kernel holds too. A pointer is a number, 0 for NULL, and `nodes` is the heap of the
-- `hp_epolld` that were allocated, `none` once they are freed.
pub mod Table
pub mod Remove
pub mod Kernel
pub mod Run
mod Tests
pub mod Branch
pub mod Add
pub mod Append
pub mod Change
use libhp.Common.{
  ℕ, zero, suc, ◌+◌, ◌-◌, Bool, true, false, Option, none, some, ltb, leb, ◌==◌, if◌then◌else◌, put,
  memmove, lfind, not,
}
use libhp.Common.Int.{ℤ, pos, negsuc, int_eq, int_nonpos}
use libhp.Poll.{sock_is_valid}

-- A function pointer is `none` if it is NULL.
pub record Epolld : Type 0 where
  pub fd : ℤ
  pub fn : Option ℕ
  pub arg : ℕ
  pub on_loop : Option ℕ

pub record Epoll : Type 0 where
  pub fd : ℕ
  pub allocated : Bool
  pub ed : ℕ → ℕ
  pub ev_len : ℕ
  pub max_ev_len : ℕ
  pub timeout : ℤ
  pub before_wait : Option ℕ
  pub arg : ℕ
  pub nodes : ℕ → Option Epolld
  pub next : ℕ

pub data Op : Type 0 where
  ctl_add : Op
  ctl_mod : Op
  ctl_del : Op

abbrev pub eexist : ℕ
eexist = 17

-- `epoll_ctl(epfd, op, fd, { events, ptr })` over the kernel's state: `none`, or an `errno`.
abbrev pub Ctl : Type 0 → Type 0
Ctl K = Op → ℤ → ℕ → ℕ → K → Option ℕ × K

-- Before anything is set up; `ed` is what `malloc` will return, whatever that holds.
abbrev blank : (ℕ → ℕ) → Epoll
blank ed = record {
  fd = 0;
  allocated = false;
  ed = ed;
  ev_len = 0;
  max_ev_len = 0;
  timeout = pos 0;
  before_wait = none;
  arg = 0;
  nodes = λ p. none;
  next = 1;
}

-- `created` is what `epoll_create1` returns, `none` for -1.
unfoldable pub epoll_init : Option ℕ → (ℕ → ℕ) → ℕ → ℤ → Option ℕ → ℕ → ℤ × Epoll
epoll_init none ed max_ev_len timeout before_wait arg = (negsuc 1, blank ed)
epoll_init (some fd) ed max_ev_len timeout before_wait arg = (
  pos 0,
  record (blank ed) {
    fd = fd;
    allocated = true;
    max_ev_len = if int_nonpos max_ev_len then 65535 else max_ev_len;
    timeout = timeout;
    before_wait = before_wait;
    arg = arg;
  },
)

-- The two arrays are freed; `epo->fd` stays open, and the nodes stay allocated.
unfoldable pub epoll_uninit : Epoll → Epoll
epoll_uninit epo = record epo { allocated = false }

-- hp_epoll_size, for a pointer that is not NULL
unfoldable pub epoll_size : Epoll → ℕ
epoll_size epo = epo.ev_len

-- `epfd->fd == fd`
unfoldable pub node_has_fd : ℤ → Option Epolld → Bool
node_has_fd fd (some d) = int_eq d.fd fd
node_has_fd fd none = false

-- find_by_fd on entry i
unfoldable pub has_fd : Epoll → ℤ → ℕ → Bool
unfolding node_has_fd
has_fd epo fd i = node_has_fd fd (epo.nodes (epo.ed i))

unfoldable pub find_fd : Epoll → ℤ → Option ℕ
unfolding has_fd
find_fd epo fd = lfind (has_fd epo fd) 0 epo.ev_len

-- hp_epoll_do_find matches if the client's comparison is not 0, or if the pointers are the same.
unfoldable pub do_find : Option (ℕ → ℕ → ℤ) → ℕ → Option Epolld → Bool
do_find (some on_cmp) key (some d) = not (int_eq (on_cmp key d.arg) (pos 0))
do_find none key (some d) = key == d.arg
do_find on_cmp key none = false

unfoldable pub node_arg : Option Epolld → ℕ
node_arg (some d) = d.arg
node_arg none = 0

unfoldable pub arg_at : Option ℕ → Epoll → ℕ
unfolding node_arg
arg_at (some i) epo = node_arg (epo.nodes (epo.ed i))
arg_at none epo = 0

-- The `arg` of the first match, or NULL.
unfoldable pub epoll_find : Epoll → ℕ → Option (ℕ → ℕ → ℤ) → ℕ
unfolding do_find arg_at
epoll_find epo key on_cmp =
    arg_at (lfind (λ i. do_find on_cmp key (epo.nodes (epo.ed i))) 0 epo.ev_len) epo

-- The `hp_epolld` at `ptr` is set.
unfoldable pub set_node : ℕ → Epolld → Epoll → Epoll
set_node ptr d epo = record epo { nodes = put ptr (some d) epo.nodes }

-- malloc
unfoldable pub new_node : Epolld → Epoll → Epoll
unfolding set_node
new_node d epo = record (set_node epo.next d epo) { next = epo.next + 1 }

-- `epo->ed[epo->ev_len++] = epfd`
unfoldable pub push : ℕ → Epoll → Epoll
push ptr epo = record epo { ed = put epo.ev_len ptr epo.ed; ev_len = epo.ev_len + 1 }

-- An outcome is `none` where an assertion fails.
abbrev pub Outcome : Type 0 → Type 0
Outcome K = Option (ℤ × Epoll × K)

-- `free(*pepfd)`, and the entry is closed up.
unfoldable pub close_up : ℕ → Epoll → Epoll
close_up i epo = record epo {
  nodes = put (epo.ed i) none epo.nodes;
  ed = if ltb (i + 1) epo.ev_len then memmove i (i + 1) (epo.ev_len - (i + 1)) epo.ed else epo.ed;
  ev_len = epo.ev_len - 1;
}

-- EPOLLIN | EPOLLOUT
abbrev pub in_out : ℕ
in_out = 1 + 4

module _ {K : Type 0} (ctl : Ctl K) where
  -- After EPOLL_CTL_ADD: on an error, the new `hp_epolld` is in no table.
  unfoldable pub on_added : Option ℕ × K → ℕ → Epoll → Outcome K
  unfolding push
  on_added (none, k) ptr epo = some (pos 0, push ptr epo, k)
  on_added (some e, k) ptr epo = if e == eexist then none else some (negsuc 1, epo, k)

  -- A descriptor that has no entry.
  unfoldable pub add_new : Epolld → ℕ → Epoll → K → Outcome K
  unfolding on_added new_node
  add_new d events epo k =
      if leb epo.max_ev_len epo.ev_len
      then some (negsuc 1, epo, k)
      else on_added (ctl ctl_add d.fd events epo.next k) epo.next (new_node d epo)

  -- After EPOLL_CTL_MOD.
  unfoldable pub on_mod : Option ℕ × K → Epoll → Outcome K
  on_mod (none, k) epo = some (pos 0, epo, k)
  on_mod (some e, k) epo = some (negsuc 2, epo, k)

  unfoldable pub add_at : Option ℕ → Epolld → ℕ → Epoll → K → Outcome K
  unfolding add_new on_mod set_node
  add_at none d events epo k = add_new d events epo k
  add_at (some i) d events epo k =
      on_mod (ctl ctl_mod d.fd events (epo.ed i) k) (set_node (epo.ed i) d epo)

  unfoldable pub epoll_add : Epoll → ℤ → ℕ → Option ℕ → Option ℕ → ℕ → K → Outcome K
  unfolding add_at find_fd sock_is_valid
  epoll_add epo fd events fn on_loop arg k =
      if epo.allocated
      then (if sock_is_valid fd
          then add_at (find_fd epo fd) (record { fd = fd; fn = fn; arg = arg; on_loop = on_loop })
              events epo k
          else some (negsuc 0, epo, k))
      else some (negsuc 0, epo, k)

  unfoldable pub rm_at : Option ℕ → ℤ → Epoll → K → ℤ × Epoll × K
  unfolding close_up
  rm_at none fd epo k = (negsuc 1, epo, (ctl ctl_del fd in_out 0 k).1)
  rm_at (some i) fd epo k = (pos 0, close_up i epo, (ctl ctl_del fd in_out (epo.ed i) k).1)

  -- A failure of EPOLL_CTL_DEL is only logged.
  unfoldable pub epoll_rm : Epoll → ℤ → K → ℤ × Epoll × K
  unfolding rm_at find_fd
  epoll_rm epo fd k = rm_at (find_fd epo fd) fd epo k
