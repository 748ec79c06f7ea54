-- ===== src/Epoll/Branch.antt =====
-- The ways a call of hp_epoll_add of src/hp_epoll.c goes, by what epoll_ctl answers.
use libhp.Common.{
  ℕ, ◌≤◌, ◌<◌, ◌≡◌, false, Option, none, some, List, [], ◌∷◌, ◌++◌, any, replace_first,
}
use libhp.Common.Int.{ℤ, pos, negsuc}
use libhp.Poll.{sock_is_valid}
use libhp.Epoll.{Epolld, Epoll, ctl_add, ctl_mod, Ctl, node_has_fd}
use libhp.Epoll.Table.{entries, FirstOf}

-- The ways a call goes: the code, the entries, and what the kernel then holds for the descriptor.
-- `modded` is the error of EPOLL_CTL_MOD with a pointer, and `added` that of EPOLL_CTL_ADD, if they fail.
pub data Branch (epo : Epoll) (d : Epolld) (modded : ℕ → Option ℕ) (added held : Option ℕ)
    : ℤ → List (Option Epolld) → Type 0 where
  refused : sock_is_valid d.fd ≡ false → Branch epo d modded added held (negsuc 0) (entries epo)
  changed :
      (i : ℕ)
      → FirstOf epo d.fd i
      → modded (epo.ed i) ≡ none
      → Branch epo d modded added held
          (pos 0)
          (replace_first (node_has_fd d.fd) (some d) (entries epo))
  mod_failed :
      (i e : ℕ)
      → FirstOf epo d.fd i
      → modded (epo.ed i) ≡ some e
      → Branch epo d modded added held
          (negsuc 2)
          (replace_first (node_has_fd d.fd) (some d) (entries epo))
  full :
      any (node_has_fd d.fd) (entries epo) ≡ false
      → epo.max_ev_len ≤ epo.ev_len
      → Branch epo d modded added held (negsuc 1) (entries epo)
  add_failed :
      (e : ℕ)
      → any (node_has_fd d.fd) (entries epo) ≡ false
      → epo.ev_len < epo.max_ev_len
      → added ≡ some e
      → Branch epo d modded added held (negsuc 1) (entries epo)
  appended :
      any (node_has_fd d.fd) (entries epo) ≡ false
      → epo.ev_len < epo.max_ev_len
      → added ≡ none
      → held ≡ some epo.next
      → Branch epo d modded added held (pos 0) (entries epo ++ some d ∷ [])

module _ {K : Type 0} (ctl : Ctl K) where
  -- What EPOLL_CTL_MOD and EPOLL_CTL_ADD answer for the entry, called in the state `k`.
  abbrev pub modded : Epolld → ℕ → K → ℕ → Option ℕ
  modded d events k ptr = (ctl ctl_mod d.fd events ptr k).0

  abbrev pub added : Epoll → Epolld → ℕ → K → Option ℕ
  added epo d events k = (ctl ctl_add d.fd events epo.next k).0
