-- ===== src/Net.antt =====
-- src/hp_net.c: the functions that open sockets, in the builds for Unix. The kernel's answer to the
-- n-th call is a parameter; the calls are logged, and so are the descriptors that are open.
pub mod Open
pub mod Receive
mod Tests
use libhp.Common.{
  ℕ, zero, suc, ◌+◌, Bool, true, false, Option, none, some, List, [], ◌∷◌, ◌++◌, ◌==◌,
  if◌then◌else◌, length, remove_first, not, Bytes,
}
use libhp.Common.Int.{ℤ, pos, negsuc}

pub data Kind : Type 0 where
  stream : Kind
  dgram : Kind

pub data SockOpt : Type 0 where
  so_reuseaddr : SockOpt
  ip_transparent : SockOpt
  ip_recvorigdstaddr : SockOpt

-- An address: the IP as it is given, or none for INADDR_ANY, and the port.
pub record Address : Type 0 where
  pub ip : Option Bytes
  pub port : ℕ

pub data Call : Type 0 where
  socket : Kind → Call
  socketpair_call : Call
  setsockopt : ℕ → SockOpt → Call
  set_nonblock : ℕ → Call
  inet_pton : Bytes → Call
  bind : ℕ → Address → Call
  listen : ℕ → ℕ → Call
  connect : ℕ → Address → Call
  close : ℕ → Call

-- The n-th answer: the descriptor that a new socket gets, the second one of a pair, and `none` or the `errno` of a failure, for
-- which `inet_pton` has a result of 0 or less.
pub record Kernel : Type 0 where
  pub descriptor : ℕ → ℕ
  pub second : ℕ → ℕ
  pub error : ℕ → Option ℕ

pub record Sys : Type 0 where
  pub calls : List Call
  pub opened : List ℕ

abbrev pub log : Call → Sys → Sys
log c sys = record sys { calls = sys.calls ++ c ∷ [] }

-- close(fd)
unfoldable pub close_fd : ℕ → Sys → Sys
close_fd fd sys = record (log (close fd) sys) { opened = remove_first (λ a. fd == a) sys.opened }

abbrev pub einprogress : ℕ
einprogress = 115

-- Whether a failure of the call ends the function: a connection may be in progress.
unfoldable pub ends_with : Call → ℕ → Bool
ends_with (connect fd a) e = not (e == einprogress)
ends_with c e = true

unfoldable pub failed : Call → Option ℕ → Bool
unfolding ends_with
failed c none = false
failed c (some e) = ends_with c e

-- On a failure the descriptor is closed, and -1 is returned.
unfoldable pub or_close : Bool → ℕ → Sys → ℤ × Sys → ℤ × Sys
unfolding close_fd
or_close true fd sys rest = (negsuc 0, close_fd fd sys)
or_close false fd sys rest = rest

-- The calls on a new descriptor, one after the other, until one fails.
unfoldable pub attempt : Kernel → ℕ → List Call → Sys → ℤ × Sys
unfolding or_close failed
attempt k fd [] sys = (pos fd, sys)
attempt k fd (c ∷ cs) sys =
    or_close (failed c (k.error (length sys.calls))) fd (log c sys) (attempt k fd cs (log c sys))

-- What `socket` returned.
unfoldable pub with_socket : Option ℕ → Kernel → ℕ → (ℕ → List Call) → Sys → ℤ × Sys
unfolding attempt
with_socket none k fd cs sys = attempt k fd (cs fd) (record sys { opened = sys.opened ++ fd ∷ [] })
with_socket (some e) k fd cs sys = (negsuc 0, sys)

unfoldable pub open_with : Kernel → Kind → (ℕ → List Call) → Sys → ℤ × Sys
unfolding with_socket
open_with k kind cs sys =
    let n = length sys.calls in
    with_socket (k.error n) k (k.descriptor n) cs (log (socket kind) sys)

abbrev pub any_address : ℕ → Address
any_address port = record { ip = none; port = port }

-- LISTENQ
abbrev pub listenq : ℕ
listenq = 512

unfoldable pub listen_calls : ℕ → ℕ → List Call
listen_calls port fd =
    setsockopt fd so_reuseaddr
    ∷ set_nonblock fd
    ∷ bind fd (any_address port)
    ∷ listen fd listenq
    ∷ []

unfoldable pub tcp_listen : Kernel → ℕ → Sys → ℤ × Sys
unfolding open_with listen_calls
tcp_listen k port sys = open_with k stream (listen_calls port) sys

-- The IP is not used.
unfoldable pub udp_bind_calls : ℕ → ℕ → List Call
udp_bind_calls port fd =
    setsockopt fd so_reuseaddr
    ∷ setsockopt fd ip_transparent
    ∷ setsockopt fd ip_recvorigdstaddr
    ∷ set_nonblock fd
    ∷ bind fd (any_address port)
    ∷ []

unfoldable pub udp_bind : Kernel → Bytes → ℕ → Sys → ℤ × Sys
unfolding open_with udp_bind_calls
udp_bind k ip port sys = open_with k dgram (udp_bind_calls port) sys

unfoldable pub tcp_connect_addr : Kernel → Address → Sys → ℤ × Sys
unfolding open_with
tcp_connect_addr k servaddr sys =
    open_with k stream (λ fd. set_nonblock fd ∷ connect fd servaddr ∷ []) sys

unfoldable pub tcp_connect2 : Kernel → Bytes → ℕ → Sys → ℤ × Sys
unfolding open_with
tcp_connect2 k ip port sys =
    open_with k stream
      (λ fd.
        inet_pton ip ∷ set_nonblock fd ∷ connect fd (record { ip = some ip; port = port }) ∷ [])
      sys

-- A failure leaves the descriptors as they are.
unfoldable pub or_keep : Bool → Sys → ℤ × Sys → ℤ × Sys
or_keep true sys rest = (negsuc 0, sys)
or_keep false sys rest = rest

-- Both descriptors stop blocking, one after the other.
unfoldable pub unblock_all : Kernel → List ℕ → Sys → ℤ × Sys
unfolding or_keep failed
unblock_all k [] sys = (pos 0, sys)
unblock_all k (fd ∷ fds) sys =
    or_keep (failed (set_nonblock fd) (k.error (length sys.calls))) (log (set_nonblock fd) sys)
      (unblock_all k fds (log (set_nonblock fd) sys))

unfoldable pub with_pair : Option ℕ → Kernel → List ℕ → Sys → ℤ × Sys
unfolding unblock_all
with_pair none k fds sys = unblock_all k fds (record sys { opened = sys.opened ++ fds })
with_pair (some e) k fds sys = (negsuc 0, sys)

unfoldable pub socketpair : Kernel → Sys → ℤ × Sys
unfolding with_pair
socketpair k sys =
    let n = length sys.calls in
    with_pair (k.error n) k (k.descriptor n ∷ k.second n ∷ []) (log socketpair_call sys)
