-- ===== src/Msg/RoundTrip.antt =====
-- A frame built by hp_msg_header is read back by hp_pm_pack.
use libhp.Common.{
  ℕ, suc, ◌+◌, ◌-◌, ◌%◌, ◌<◌, ◌^◌, ◌≡◌, refl, sym, ◌∙◌, ap, Bool, true, false, some, ◌++◌, arith,
  leb, ltb-false, length, take, drop, length-append, drop-drop, take-length_append,
  drop-length_append, Bytes, read_be32, bytes_eq,
}
use libhp.Msg.{
  Msg, Packed, packed, has_magic, parse_body, pm_pack_loop, pm_pack, pm_header_len, pm_body_len,
  pm_id, pm_type, pm_session, msg_alloc, msg_header, msg_new,
}

-- A message whose fields are the patterns of `int`s, and whose length is that of its bytes and fits
-- an `int` with the header's.
pub record IsSendable (m : Msg) : Type 0 where
  pub id_fits : m.id < 2 ^ 32
  pub type_fits : m.type < 2 ^ 32
  pub sid_fits : m.sid < 2 ^ 32
  pub len_fits : pm_header_len + m.len < 2 ^ 31
  pub len_eq : m.len ≡ length m.buf

-- What a sender puts on the wire: the header, then the bytes.
abbrev pub frame : Msg → Bytes → Bytes
frame m rest = msg_header m ++ (m.buf ++ rest)

module _ (m : Msg) (v : IsSendable m) (rest : Bytes) where
  pub has_magic-frame : has_magic (frame m rest) ≡ true
  unfolding has_magic msg_header bytes_eq
  has_magic-frame = refl

  pub length-frame : length (frame m rest) ≡ pm_header_len + m.len + length rest
  unfolding msg_header
  length-frame = omega (arith, v.len_eq, length-append m.buf rest)

  pub pm_id-frame : pm_id (frame m rest) ≡ m.id
  unfolding msg_header pm_id read_be32
  pm_id-frame = omega (arith, v.id_fits)

  pub pm_type-frame : pm_type (frame m rest) ≡ m.type
  unfolding msg_header pm_type read_be32
  pm_type-frame = omega (arith, v.type_fits)

  pub pm_session-frame : pm_session (frame m rest) ≡ m.sid
  unfolding msg_header pm_session read_be32
  pm_session-frame = omega (arith, v.sid_fits)

  pub pm_body_len-frame : pm_body_len (frame m rest) ≡ m.len
  unfolding msg_header pm_body_len read_be32
  pm_body_len-frame = ground (arith, v.len_fits)

  pub body-frame : drop pm_header_len (frame m rest) ≡ m.buf ++ rest
  unfolding msg_header
  body-frame = refl

  -- The message that the receiver gets, with the size that its buffer was allocated with.
  abbrev pub received : Packed
  received = packed (pm_header_len + m.len) (some (record m { cap = msg_alloc m.len })) rest

  fits : leb m.len (length (frame m rest) - pm_header_len) ≡ true
  fits = ground (arith, length-frame)

  take-frame : take m.len (m.buf ++ rest) ≡ m.buf
  take-frame = ap (λ k. take k (m.buf ++ rest)) v.len_eq ∙ take-length_append m.buf rest

  drop-frame : drop (pm_header_len + m.len) (frame m rest) ≡ rest
  drop-frame =
      sym (drop-drop m.len pm_header_len (frame m rest))
      ∙ ap (drop m.len) body-frame
      ∙ ap (λ k. drop k (m.buf ++ rest)) v.len_eq
      ∙ drop-length_append m.buf rest

  msglen_eq : (pm_header_len + m.len) % 2 ^ 32 ≡ pm_header_len + m.len
  msglen_eq = omega (arith, v.len_fits)

  msglen_fits : leb (2 ^ 31) (pm_header_len + m.len) ≡ false
  msglen_fits = ground (arith, v.len_fits)

  pub parse_body-frame : parse_body (frame m rest) ≡ some received
  unfolding parse_body msg_new
  parse_body-frame = rw (
    pm_body_len-frame, fits, msglen_eq, msglen_fits, pm_id-frame, pm_type-frame, pm_session-frame,
    body-frame, take-frame, drop-frame,
  )

-- One round of the loop suffices for a frame.
pub pm_pack_loop-frame :
    (fuel : ℕ) (m : Msg) (v : IsSendable m) (noskip : Bool) (rest : Bytes)
    → pm_pack_loop (suc fuel) noskip (frame m rest) ≡ some (received m v rest)
unfolding pm_pack_loop
pm_pack_loop-frame fuel m v noskip rest = rw (
  ltb-false (length (frame m rest)) pm_header_len (omega (arith, length-frame m v rest)),
  has_magic-frame m v rest,
  parse_body-frame m v rest,
)

-- A frame whose header `hp_msg_header` built is taken off the front of the buffer whole, with or
-- without PMRW_NOSKIP: the message has the sender's fields and bytes, 20 + len is returned, and
-- what follows the frame stays in the buffer. Its fields are 32-bit patterns, its length is that of
-- its bytes, and 20 + len is below 2^31.
pub pm_pack-frame :
    (m : Msg)
    → IsSendable m
    → (noskip : Bool) (rest : Bytes)
    → pm_pack noskip (msg_header m ++ (m.buf ++ rest))
      ≡ some (packed (pm_header_len + m.len) (some (record m { cap = msg_alloc m.len })) rest)
unfolding pm_pack
pm_pack-frame m v noskip rest =
    let e : length (frame m rest) + 1 ≡ suc (length (frame m rest)) = omega arith in
    rw e (pm_pack_loop-frame (length (frame m rest)) m v noskip rest)
