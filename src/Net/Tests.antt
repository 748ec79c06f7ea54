-- ===== src/Net/Tests.antt =====
-- Sockets of src/hp_net.c over a concrete kernel.
use libhp.Common.{ℕ, zero, suc, ◌≡◌, refl, true, Option, none, some, [], ◌∷◌, arith}
use libhp.Common.Int.{pos, negsuc}
use libhp.Io.Read.{Answer, gives, fails, read_as}
use libhp.Net.{
  stream, dgram, so_reuseaddr, ip_transparent, ip_recvorigdstaddr, setsockopt, bind, listen,
  inet_pton, set_nonblock, connect, Kernel, Sys, tcp_listen, udp_bind, tcp_connect_addr,
  tcp_connect2, any_address, socketpair,
}
use libhp.Net.Receive.{Ends, read_a, read_a-Ends}
use libhp.Net.Open.{Opens, servers-Opens, clients-Opens}

-- Sockets get descriptor 5, and the fourth call fails.
abbrev failing : Kernel
failing = record { descriptor = λ n. 5; second = λ n. 6; error = error }
  where
    error : ℕ → Option ℕ
    error (suc (suc (suc zero))) = some 98
    error n = none

abbrev before : Sys
before = record { calls = []; opened = 0 ∷ 1 ∷ [] }

servers-Opens_example :
    Opens failing stream before 5
      (setsockopt 5 so_reuseaddr ∷ set_nonblock 5 ∷ bind 5 (any_address 80) ∷ listen 5 512 ∷ [])
      (tcp_listen failing 80 before)
    × Opens failing dgram before 5
        (setsockopt 5 so_reuseaddr
          ∷ setsockopt 5 ip_transparent
          ∷ setsockopt 5 ip_recvorigdstaddr
          ∷ set_nonblock 5
          ∷ bind 5 (any_address 80)
          ∷ [])
        (udp_bind failing [] 80 before)
servers-Opens_example = servers-Opens failing [] 80 before refl

clients-Opens_example :
    Opens failing stream before 5
      (set_nonblock 5 ∷ connect 5 (any_address 80) ∷ [])
      (tcp_connect_addr failing (any_address 80) before)
    × Opens failing stream before 5
        (inet_pton [] ∷ set_nonblock 5 ∷ connect 5 (record { ip = some []; port = 80 }) ∷ [])
        (tcp_connect2 failing [] 80 before)
clients-Opens_example = clients-Opens failing [] 80 (any_address 80) before refl

-- `bind` fails: the socket is closed again.
bind_fails : (tcp_listen failing 80 before).0 ≡ negsuc 0
unfolding tcp_listen
bind_fails = refl

none_left : (tcp_listen failing 80 before).1.opened ≡ 0 ∷ 1 ∷ []
unfolding tcp_listen
none_left = refl

-- The second descriptor of a pair cannot be set: both stay open.
abbrev third_fails : Kernel
third_fails = record { descriptor = λ n. 5; second = λ n. 6; error = error }
  where
    error : ℕ → Option ℕ
    error (suc (suc zero)) = some 25
    error n = none

pair_left :
    ((socketpair third_fails before).0 ≡ negsuc 0)
    × ((socketpair third_fails before).1.opened ≡ 0 ∷ 1 ∷ 5 ∷ 6 ∷ [])
unfolding socketpair
pair_left = (refl, refl)

-- Two bytes, one more, and then nothing for now.
abbrev arriving : ℕ → Answer
arriving zero = gives (b'a' ∷ b'b' ∷ [])
arriving (suc zero) = gives (b'c' ∷ [])
arriving n = fails 11

read_a-Ends_example : Ends arriving 8 3 (read_a arriving (pos 4) true (pos 0) true 8 3)
read_a-Ends_example = read_a-Ends arriving 4 8 3 (pos 0) (omega arith)

three :
    read_a arriving (pos 4) true (pos 0) true 8 3
    ≡ some (record { received = b'a' ∷ b'b' ∷ b'c' ∷ []; err = pos 0; calls = 2 })
unfolding read_a read_as
three = refl

-- A full buffer is reported as the end of the input, though more bytes are there.
full_buffer :
    read_a arriving (pos 4) true (pos 0) true 2 3
    ≡ some (record { received = b'a' ∷ b'b' ∷ []; err = negsuc 0; calls = 2 })
unfolding read_a read_as
full_buffer = refl
