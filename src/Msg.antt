-- ===== src/Msg.antt =====
-- src/hp_msg.c: messages framed by a 20-byte header, and the parser that takes them off a receive
-- buffer. An `int` is its 32-bit pattern, a number below 2^32; the host is little-endian, and the
-- build is the one without LIBHP_WITH_ZLIB.
pub mod Parse
pub mod RoundTrip
pub mod Resync
mod Tests
use libhp.Common.{
  ℕ, zero, suc, ◌+◌, ◌-◌, ◌*◌, ◌%◌, ◌^◌, ◌≡◌, Bool, true, false, Option, none, some, List, [], ◌∷◌,
  ◌++◌, arith, ltb, leb, ◌==◌, if◌then◌else◌, length, take, drop, Bytes, bytes_eq, be32, le32,
  read_be32,
}

abbrev pub pm_magic : ℕ
pm_magic = 0x32603723

abbrev pub pm_header_len : ℕ
pm_header_len = 20

abbrev pub hm_bufsz : ℕ
hm_bufsz = 1024 * 64 - pm_header_len

-- `struct hp_msg`: `cap` is the size that `buf` was allocated with, and `buf` holds its first bytes.
pub record Msg : Type 0 where
  pub id : ℕ
  pub type : ℕ
  pub sid : ℕ
  pub cap : ℕ
  pub buf : Bytes
  pub len : ℕ

-- The size that `hp_msg_new` allocates; a pattern from 2^31 on is a negative `int`.
unfoldable pub msg_alloc : ℕ → ℕ
msg_alloc nbuf = if leb (2 ^ 31) nbuf then 0 else if nbuf == 0 then hm_bufsz else nbuf

unfoldable pub msg_new : ℕ → Msg
unfolding msg_alloc
msg_new nbuf = record { id = 0; type = 0; sid = 0; cap = msg_alloc nbuf; buf = []; len = 0 }

-- `memcpy` of the first `len` bytes into the copy's new buffer.
unfoldable pub msg_dup : Msg → Msg
unfolding msg_new
msg_dup m = record (msg_new m.len) {
  id = m.id;
  type = m.type;
  sid = m.sid;
  buf = take m.len m.buf;
  len = m.len;
}

-- The magic number is copied in host order, the other fields in network order.
unfoldable pub msg_header : Msg → Bytes
unfolding be32 le32
msg_header m = le32 pm_magic ++ (be32 m.id ++ (be32 m.type ++ (be32 m.sid ++ be32 m.len)))

unfoldable pub pm_id : Bytes → ℕ
pm_id hdr = read_be32 (drop 4 hdr)

unfoldable pub pm_type : Bytes → ℕ
pm_type hdr = read_be32 (drop 8 hdr)

unfoldable pub pm_session : Bytes → ℕ
pm_session hdr = read_be32 (drop 12 hdr)

-- An `int` becomes a `size_t`: a negative one is sign-extended to 64 bits.
unfoldable pub size_of_int : ℕ → ℕ
size_of_int v = if leb (2 ^ 31) v then v + (2 ^ 64 - 2 ^ 32) else v

unfoldable pub pm_body_len : Bytes → ℕ
unfolding size_of_int
pm_body_len hdr = size_of_int (read_be32 (drop 16 hdr))

-- `memcmp(buf, &PM_MAGIC, 4) == 0`
unfoldable pub has_magic : Bytes → Bool
has_magic buf = bytes_eq (take 4 buf) (le32 pm_magic)

-- The search for the next magic number: `buf` is the buffer from offset `n` on. It stops with the
-- last four bytes unread.
unfoldable pub find_magic : Bytes → ℕ → ℕ
find_magic [] n = n
find_magic (b ∷ buf) n =
    if leb (length (b ∷ buf)) 4
    then n
    else if has_magic (b ∷ buf)
    then n
    else find_magic buf (n + 1)

-- What `hp_pm_pack` returns, stores through `msgp`, and leaves in the buffer.
pub record Packed : Type 0 where
  pub rc : ℕ
  pub msg : Option Msg
  pub rest : Bytes

abbrev pub packed : ℕ → Option Msg → Bytes → Packed
packed rc msg rest = record { rc = rc; msg = msg; rest = rest }

-- `(size_t)-1`
abbrev pub size_error : ℕ
size_error = 2 ^ 64 - 1

-- The message at the front of a buffer that starts with the magic number. `none` is the access
-- before the buffer that memmove makes where `int msglen` is negative.
unfoldable pub parse_body : Bytes → Option Packed
unfolding msg_new pm_id pm_type pm_session pm_body_len
parse_body buf =
    let bodylen = pm_body_len buf in
    let msglen = (pm_header_len + bodylen) % 2 ^ 32 in
    if leb bodylen (length buf - pm_header_len)
    then if leb (2 ^ 31) msglen
      then none
      else some (
          packed msglen
            (some (record (msg_new bodylen) {
              id = pm_id buf;
              type = pm_type buf;
              sid = pm_session buf;
              buf = take bodylen (drop pm_header_len buf);
              len = bodylen;
            }))
            (drop msglen buf))
    else some (packed 0 none buf)

-- The loop of `hp_pm_pack` on fuel; `none` means that the fuel ran out, or an access
-- outside the buffer. `noskip` is the flag PMRW_NOSKIP.
unfoldable pub pm_pack_loop : ℕ → Bool → Bytes → Option Packed
unfolding parse_body has_magic find_magic
pm_pack_loop zero noskip buf = none
pm_pack_loop (suc fuel) noskip buf =
    let skipped = pm_pack_loop fuel noskip (drop (find_magic (drop 1 buf) 1) buf) in
    if ltb (length buf) pm_header_len
    then some (packed 0 none buf)
    else if has_magic buf
    then parse_body buf
    else if noskip
    then some (packed size_error none (drop 1 buf))
    else skipped

-- Each round of the loop drops a byte at least.
unfoldable pub pm_pack : Bool → Bytes → Option Packed
unfolding pm_pack_loop
pm_pack noskip buf = pm_pack_loop (length buf + 1) noskip buf
