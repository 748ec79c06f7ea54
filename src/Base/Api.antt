-- ===== src/Base/Api.antt =====
-- The other functions of src/hp_io_t.cpp: each passes the call on to the epoll instance or the write
-- queue. A pointer to the context is `none` for NULL.
use libhp.Common.{ℕ, zero, suc, Option, none, some, Bytes}
use libhp.Common.Int.{ℤ, pos, negsuc}
use libhp.Io.Write.{Wr, FreeFn, Ptr, wr_add}
use libhp.Epoll.{Epoll, Ctl, epoll_init, epoll_uninit, epoll_size, epoll_rm, epoll_find}
use libhp.Epoll.Run.{Answer, Client, run_once, run_forever}

-- `struct hp_io_ctx`
pub record IoCtx : Type 0 where
  pub epo : Epoll
  pub user : ℕ

-- hp_io_init; `created` is what `epoll_create1` returns, and `ed` what `malloc` does.
unfoldable pub io_init : Option ℕ → (ℕ → ℕ) → ℕ → ℤ → ℕ → ℤ × IoCtx
unfolding epoll_init
io_init created ed maxfd timeout user =
    let (rc, epo) = epoll_init created ed maxfd timeout none 0 in
    (rc, record { epo = epo; user = user })

unfoldable pub io_uninit : Option IoCtx → ℤ × Option IoCtx
unfolding epoll_uninit
io_uninit none = (negsuc 0, none)
io_uninit (some ctx) = (pos 0, some (record ctx { epo = epoll_uninit ctx.epo }))

unfoldable pub io_size : Option IoCtx → ℤ
unfolding epoll_size
io_size none = negsuc 0
io_size (some ctx) = pos (epoll_size ctx.epo)

unfoldable pub io_find : Option IoCtx → ℕ → Option (ℕ → ℕ → ℤ) → ℕ
unfolding epoll_find
io_find none key on_cmp = 0
io_find (some ctx) key on_cmp = epoll_find ctx.epo key on_cmp

unfoldable pub io_rm : {K : Type 0} → Ctl K → IoCtx → ℤ → K → ℤ × IoCtx × K
unfolding epoll_rm
io_rm ctl ctx id k =
    let (rc, epo, k') = epoll_rm ctl ctx.epo id k in (rc, record ctx { epo = epo }, k')

-- `none` is the code of a NULL buffer.
unfoldable pub io_write : Wr → Ptr → Bytes → FreeFn → Ptr → Ptr → Option Wr
unfolding wr_add
io_write wr buf bytes free ptr fresh = wr_add wr buf bytes free ptr fresh

unfoldable pub io_run :
    {W : Type 0} → Client W → ℕ → ℕ → ℕ → (ℕ → Answer) → ℕ → Epoll → W → Option (ℤ × Epoll × W)
unfolding run_once run_forever
io_run client rounds fuel zero kernel i epo w = run_forever client rounds fuel kernel i epo w
io_run client rounds fuel (suc mode) kernel i epo w = run_once client fuel (kernel i) epo w
