-- ===== src/Net/Open.antt =====
-- The functions of src/hp_net.c that open a socket make their calls on it in order, up to the first that fails,
-- and leave it open or close it.
use libhp.Common.{
  ℕ, suc, ◌+◌, ◌≡◌, refl, sym, ap, ◌∙◌, inl, inr, Bool-cases, Bool, true, false, not, ◌&&◌, Option,
  none, some, List, [], ◌∷◌, ◌++◌, append-nil, append_assoc, arith, ◌==◌, length, length-append,
  any, remove_first, remove_first-append, Bytes,
}
use libhp.Common.Int.{ℤ, pos, negsuc}
use libhp.Net.{
  Kind, stream, dgram, so_reuseaddr, ip_transparent, ip_recvorigdstaddr, Address, Call, socket,
  socketpair_call, setsockopt, set_nonblock, inet_pton, bind, listen, connect, close, Kernel, Sys,
  log, close_fd, ends_with, failed, or_close, attempt, with_socket, open_with, listen_calls,
  tcp_listen, udp_bind_calls, udp_bind, tcp_connect_addr, tcp_connect2,
}

-- Whether a call did what it is to do: only a connection may be on its way, with EINPROGRESS.
abbrev pub succeeds : Call → Option ℕ → Bool
succeeds c none = true
succeeds (connect fd a) (some e) = e == 115
succeeds c (some e) = false

-- Whether the calls succeed that are made from the `n`-th on.
abbrev pub all_succeed : Kernel → ℕ → List Call → Bool
all_succeed k n [] = true
all_succeed k n (c ∷ cs) = succeeds c (k.error n) && all_succeed k (suc n) cs

-- What opening a socket and the calls `cs` on it come to.
pub data Opens (k : Kernel) (kind : Kind) (before : Sys) (fd : ℕ) (cs : List Call)
    : ℤ × Sys → Type 0 where
  no_socket :
      (e : ℕ) (sys : Sys)
      → k.error (length before.calls) ≡ some e
      → sys.opened ≡ before.opened
      → sys.calls ≡ before.calls ++ socket kind ∷ []
      → Opens k kind before fd cs (negsuc 0, sys)
  refused :
      (done : List Call) (c : Call) (rest : List Call) (sys : Sys)
      → cs ≡ done ++ c ∷ rest
      → all_succeed k (length before.calls + 1) done ≡ true
      → succeeds c (k.error (length before.calls + 1 + length done)) ≡ false
      → sys.opened ≡ before.opened
      → sys.calls ≡ ((before.calls ++ socket kind ∷ []) ++ (done ++ c ∷ [])) ++ close fd ∷ []
      → Opens k kind before fd cs (negsuc 0, sys)
  returned :
      (sys : Sys)
      → all_succeed k (length before.calls + 1) cs ≡ true
      → sys.opened ≡ before.opened ++ fd ∷ []
      → sys.calls ≡ (before.calls ++ socket kind ∷ []) ++ cs
      → Opens k kind before fd cs (pos fd, sys)

-- The descriptor of a new socket is not open yet.
abbrev pub IsNew : ℕ → List ℕ → Type 0
IsNew fd opened = any (λ a. fd == a) opened ≡ false

failed-succeeds : (c : Call) (o : Option ℕ) → failed c o ≡ not (succeeds c o)
unfolding failed ends_with
failed-succeeds c none = refl
failed-succeeds (socket kind) (some e) = refl
failed-succeeds socketpair_call (some e) = refl
failed-succeeds (setsockopt fd o) (some e) = refl
failed-succeeds (set_nonblock fd) (some e) = refl
failed-succeeds (inet_pton ip) (some e) = refl
failed-succeeds (bind fd a) (some e) = refl
failed-succeeds (listen fd n) (some e) = refl
failed-succeeds (connect fd a) (some e) = refl
failed-succeeds (close fd) (some e) = refl

all_succeed-last :
    (k : Kernel) (n : ℕ) (cs : List Call) (c : Call)
    → all_succeed k n cs ≡ true
    → succeeds c (k.error (n + length cs)) ≡ true
    → all_succeed k n (cs ++ c ∷ []) ≡ true
all_succeed-last k n [] c h l =
    let e : n + 0 ≡ n = omega arith in
    let l' = ap (λ m. succeeds c (k.error m)) (sym e) ∙ l in ground (arith, l')
all_succeed-last k n (x ∷ cs) c h l =
    let e : n + length (x ∷ cs) ≡ suc n + length cs = omega arith in
    let first : succeeds x (k.error n) ≡ true = ground (arith, h) in
    let rest : all_succeed k (suc n) cs ≡ true = ground (arith, h) in
    let l' = ap (λ m. succeeds c (k.error m)) (sym e) ∙ l in
    let ih = all_succeed-last k (suc n) cs c rest l' in ground (arith, first, ih)

close_fd-opened :
    (fd : ℕ) (opened : List ℕ) (sys : Sys)
    → IsNew fd opened
    → sys.opened ≡ opened ++ fd ∷ []
    → (close_fd fd sys).opened ≡ opened
unfolding close_fd
close_fd-opened fd opened sys new e =
    let same : (fd == fd) ≡ true = ground arith in
    ap (remove_first (λ a. fd == a)) e
    ∙ remove_first-append (λ a. fd == a) opened (fd ∷ []) new
    ∙ rw same (append-nil opened)

module _ (k : Kernel) (kind : Kind) (before : Sys) (fd : ℕ) (all : List Call)
    (new : IsNew fd before.opened) where
  -- The calls that are made before those on the descriptor.
  abbrev front : List Call
  front = before.calls ++ socket kind ∷ []

  attempt-Opens :
      (done cs : List Call) (sys : Sys)
      → sys.opened ≡ before.opened ++ fd ∷ []
      → sys.calls ≡ front ++ done
      → all ≡ done ++ cs
      → all_succeed k (length before.calls + 1) done ≡ true
      → Opens k kind before fd all (attempt k fd cs sys)
  unfolding attempt or_close close_fd
  attempt-Opens done [] sys o c a h =
      let e = a ∙ append-nil done in
      returned sys (ap (all_succeed k (length before.calls + 1)) e ∙ h) o
        (c ∙ ap (λ xs. front ++ xs) (sym e))
  attempt-Opens done (x ∷ cs) sys o c a h =
      let n = length before.calls + 1 in
      let at : length sys.calls ≡ n + length done = omega (
        arith,
        ap (length {A = Call}) c,
        length-append front done,
        length-append before.calls (socket kind ∷ []),
      ) in
      let logged : sys.calls ++ x ∷ [] ≡ front ++ (done ++ x ∷ []) =
        ap (λ xs. xs ++ x ∷ []) c ∙ append_assoc front done (x ∷ []) in
      let decided = failed-succeeds x (k.error (length sys.calls)) in
      elim (Bool-cases (succeeds x (k.error (length sys.calls)))) [
        | inl fine ↦
            let fine' = ap (λ m. succeeds x (k.error m)) (sym at) ∙ fine in
            let goes_on : failed x (k.error (length sys.calls)) ≡ false = decided ∙ ap not fine in
            rw goes_on (
              attempt-Opens (done ++ x ∷ []) cs (log x sys) o logged
                (a ∙ sym (append_assoc done (x ∷ []) cs)) (all_succeed-last k n done x h fine'))
        | inr bad ↦
            let bad' = ap (λ m. succeeds x (k.error m)) (sym at) ∙ bad in
            let stops : failed x (k.error (length sys.calls)) ≡ true = decided ∙ ap not bad in
            rw stops (
              refused done x cs (close_fd fd (log x sys)) a h bad'
                (close_fd-opened fd before.opened (log x sys) new o)
                (ap (λ xs. xs ++ close fd ∷ []) logged))
      ]

  with_socket-Opens :
      (o : Option ℕ) (cs : ℕ → List Call)
      → k.error (length before.calls) ≡ o
      → cs fd ≡ all
      → Opens k kind before fd all (with_socket o k fd cs (log (socket kind) before))
  unfolding with_socket
  with_socket-Opens none cs e a =
      attempt-Opens [] (cs fd)
        (record (log (socket kind) before) { opened = before.opened ++ fd ∷ [] }) refl
        (sym (append-nil front)) (sym a) refl
  with_socket-Opens (some e) cs q a = no_socket e (log (socket kind) before) q refl refl

-- The descriptor that the kernel gives a new socket.
abbrev pub new_fd : Kernel → Sys → ℕ
new_fd k sys = k.descriptor (length sys.calls)

open_with-Opens :
    (k : Kernel) (kind : Kind) (cs : ℕ → List Call) (sys : Sys)
    → IsNew (new_fd k sys) sys.opened
    → Opens k kind sys (new_fd k sys) (cs (new_fd k sys)) (open_with k kind cs sys)
unfolding open_with
open_with-Opens k kind cs sys new =
    with_socket-Opens k kind sys (new_fd k sys) (cs (new_fd k sys)) new (k.error (length sys.calls))
      cs refl refl

-- Where the kernel gives a new socket a descriptor that is not open: `hp_tcp_listen` opens a stream socket,
-- sets SO_REUSEADDR, makes it not blocking, binds it to any address with the port, and listens with a backlog
-- of 512; `hp_net_udp_bind` opens a datagram socket, sets SO_REUSEADDR, IP_TRANSPARENT and
-- IP_RECVORIGDSTADDR, makes it not blocking, and binds it to any address with the port. If a call fails, it is
-- the last but for the `close` of the socket, if there is one, -1 is returned, and the descriptors are open that were open
-- before; if all succeed, the new descriptor is returned and is open besides those.
pub servers-Opens :
    (k : Kernel) (ip : Bytes) (port : ℕ) (sys : Sys)
    → IsNew (new_fd k sys) sys.opened
    → let fd = new_fd k sys in
      let any_ip : Address = record { ip = none; port = port } in
      Opens k stream sys fd
        (setsockopt fd so_reuseaddr ∷ set_nonblock fd ∷ bind fd any_ip ∷ listen fd 512 ∷ [])
        (tcp_listen k port sys)
      × Opens k dgram sys fd
          (setsockopt fd so_reuseaddr
            ∷ setsockopt fd ip_transparent
            ∷ setsockopt fd ip_recvorigdstaddr
            ∷ set_nonblock fd
            ∷ bind fd any_ip
            ∷ [])
          (udp_bind k ip port sys)
unfolding tcp_listen udp_bind listen_calls udp_bind_calls
servers-Opens k ip port sys new = (
  open_with-Opens k stream (listen_calls port) sys new,
  open_with-Opens k dgram (udp_bind_calls port) sys new,
)

-- Where the kernel gives a new socket a descriptor that is not open: `hp_tcp_connect_addr` and
-- `hp_tcp_connect2` open a stream socket, read the IP (the latter), make the socket not blocking, and
-- connect. If a call fails, but for a connection on its way, it is the last but for the `close` of the socket,
-- if there is one, -1 is returned, and the descriptors are open that were open before; if none does, the new descriptor
-- is returned and is open besides those.
pub clients-Opens :
    (k : Kernel) (ip : Bytes) (port : ℕ) (servaddr : Address) (sys : Sys)
    → IsNew (new_fd k sys) sys.opened
    → let fd = new_fd k sys in
      Opens k stream sys fd
        (set_nonblock fd ∷ connect fd servaddr ∷ [])
        (tcp_connect_addr k servaddr sys)
      × Opens k stream sys fd
          (inet_pton ip ∷ set_nonblock fd ∷ connect fd (record { ip = some ip; port = port }) ∷ [])
          (tcp_connect2 k ip port sys)
unfolding tcp_connect_addr tcp_connect2
clients-Opens k ip port servaddr sys new = (
  open_with-Opens k stream (λ fd. set_nonblock fd ∷ connect fd servaddr ∷ []) sys new,
  open_with-Opens k stream
      (λ fd.
        inet_pton ip ∷ set_nonblock fd ∷ connect fd (record { ip = some ip; port = port }) ∷ [])
      sys new,
)
