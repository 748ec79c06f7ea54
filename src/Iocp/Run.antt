-- ===== src/Iocp/Run.antt =====
-- hp_iocp_run, hp_iocp_init and hp_iocp_uninit of src/hp_iocp.c.
use libhp.Common.{
  ℕ, zero, suc, ◌+◌, ◌-◌, ◌==◌, ltb, Option, none, some, List, [], ◌∷◌, if◌then◌else◌, map,
  get_elem?, Bytes, length,
}
use libhp.Common.Int.{ℤ, pos, negsuc}
use libhp.Iocp.Data.{Fn, user, default, Flags, Ol, Item, Iocp}
use libhp.Iocp.Items.{to_default}
use libhp.Iocp.Messages.{Env, item_on_error, handle_fd, handle_io}

-- A message to the user's thread: a socket's events, or an operation that is done, with the number of
-- bytes that were transferred, those that were read, and an error.
pub data Event : Type 0 where
  wm_fd : ℕ → Flags → Event
  wm_io : Ol → ℕ → Bytes → ℕ → Event

-- How a hp_iocp is set up; `hwnd` is 0 for NULL.
pub record Config : Type 0 where
  pub maxfd : ℕ
  pub hwnd : ℕ
  pub n_threads : ℕ
  pub wmuser : ℕ
  pub ctid : ℕ

-- HP_IOCP_TMAX
abbrev tmax : ℕ
tmax = 64

-- WM_USER
abbrev wm_user : ℕ
wm_user = 1024

-- hp_iocp_init up to the threads: the parameters that are kept, or -1 or -3. The count of processors and the
-- thread's id come from the system.
unfoldable pub init_config : ℤ → ℕ → ℤ → ℕ → ℕ → ℕ → ℤ × Option Config
init_config (negsuc m) hwnd nthreads wmuser processors ctid = (negsuc 0, none)
init_config (pos maxfd) hwnd (negsuc m) wmuser processors ctid = (negsuc 0, none)
init_config (pos maxfd) hwnd (pos nthreads) wmuser processors ctid =
    if ctid == 0 then (negsuc 2, none) else (
      pos 0,
      some (record {
        maxfd = if maxfd == 0 then 65535 else maxfd;
        hwnd = hwnd;
        n_threads =
            if nthreads == 0 then processors - 1 else if ltb tmax nthreads then tmax else nthreads;
        wmuser = if ltb wmuser wm_user then wm_user + 2021 else wmuser;
        ctid = ctid;
      }),
    )

-- Before anything is added.
abbrev pub empty_iocp : {W : Type 0} → Config → W → Iocp W
empty_iocp c w = record {
  items = [];
  cap = c.maxfd;
  ioid = 0;
  posted = [];
  freed = [];
  deleted = [];
  next = 1;
  sends = 0;
  sending = [];
  n_dmsg0 = 0;
  n_dmsg1 = 0;
  client = w;
}

module _ {W : Type 0} (env : Env W) where
  -- hp_iocp_handle_msg
  unfoldable pub handle_msg : ℕ → Event → Iocp W → Option (Iocp W)
  unfolding handle_fd handle_io
  handle_msg fuel (wm_fd id flags) s = some (handle_fd env id flags s)
  handle_msg fuel (wm_io ol n buf err) s = handle_io env fuel ol n buf err s

  unfoldable pub and_then : (Iocp W → Option (Iocp W)) → Option (Iocp W) → Option (Iocp W)
  and_then f (some s) = f s
  and_then f none = none

  -- The messages that PeekMessage takes.
  unfoldable pub handle_all : ℕ → List Event → Iocp W → Option (Iocp W)
  unfolding handle_msg and_then
  handle_all fuel [] s = some s
  handle_all fuel (e ∷ es) s = and_then (handle_all fuel es) (handle_msg fuel e s)

  unfoldable pub call_on_accept : Option Fn → ℕ → Iocp W → Iocp W
  call_on_accept (some (user f)) arg s = env.on_accept f arg s
  call_on_accept (some default) arg s = s
  call_on_accept none arg s = s

  unfoldable pub call_on_loop : Option Fn → ℕ → Iocp W → ℤ × Iocp W
  call_on_loop (some (user f)) arg s = env.on_loop f arg s
  call_on_loop (some default) arg s = (negsuc 0, s)
  call_on_loop none arg s = (pos 0, s)

  -- After `on_loop`; the index of the next item.
  unfoldable pub after_loop : ℕ → Option Item → ℤ × Iocp W → ℕ × Iocp W
  unfolding item_on_error
  after_loop i (some x) (negsuc n, s) = (i, item_on_error env i x s)
  after_loop i none (negsuc n, s) = (suc i, s)
  after_loop i x (pos n, s) = (suc i, s)

  -- The item is read again after `on_accept`.
  unfoldable pub loop_at : ℕ → Option Item → Iocp W → ℕ × Iocp W
  unfolding call_on_loop after_loop
  loop_at i (some x) s =
      let (rc, s') = call_on_loop x.on_loop x.arg s in after_loop i (get_elem? s'.items i) (rc, s')
  loop_at i none s = (suc i, s)

  unfoldable pub visit : ℕ → Option Item → Iocp W → ℕ × Iocp W
  unfolding call_on_accept loop_at
  visit i (some x) s =
      let s' = call_on_accept x.on_accept x.arg s in loop_at i (get_elem? s'.items i) s'
  visit i none s = (suc i, s)

  -- The pass over the items, on fuel.
  unfoldable pub visit_all : ℕ → ℕ → Iocp W → Option (Iocp W)
  unfolding visit
  visit_all zero i s = none
  visit_all (suc fuel) i s =
      let (j, s') = visit i (get_elem? s.items i) s in
      let rest = visit_all fuel j s' in if ltb i (length s.items) then rest else some s

  -- hp_iocp_run with a `mode` other than 0: one round.
  unfoldable pub iocp_run : ℕ → List Event → Iocp W → Option (Iocp W)
  unfolding handle_all visit_all and_then
  iocp_run fuel events s = and_then (visit_all fuel 0) (handle_all fuel events s)

  -- hp_iocp_uninit: the callbacks are reset, and the messages that are left are handled.
  unfoldable pub quiet : Item → Item
  unfolding to_default
  quiet x = record x {
    on_accept = to_default x.on_accept;
    on_data = to_default x.on_data;
    on_error = to_default x.on_error;
  }

  unfoldable pub iocp_uninit : ℕ → List Event → Iocp W → Option (Iocp W)
  unfolding handle_all quiet
  iocp_uninit fuel events s = handle_all fuel events (record s { items = map quiet s.items })
