-- ===== src/Msg/Resync.antt =====
-- hp_pm_pack finds the next frame behind bytes that are no frame.
use libhp.Common.{
  ℕ, suc, ◌+◌, ◌-◌, ◌<◌, ◌≡◌, true, false, some, [], ◌∷◌, ◌++◌, arith, ltb-false, length, drop,
  length-append, drop-length_append, Bytes,
}
use libhp.Msg.{
  Msg, packed, has_magic, find_magic, pm_pack_loop, pm_pack, pm_header_len, msg_alloc, msg_header,
}
use libhp.Msg.RoundTrip.{
  IsSendable, frame, received, has_magic-frame, length-frame, pm_pack_loop-frame,
}

-- No magic number begins in `junk` when `next` follows it.
abbrev pub NoMagic : Bytes → Bytes → Type 0
NoMagic [] next = Unit
NoMagic (b ∷ junk) next = (has_magic ((b ∷ junk) ++ next) ≡ false) × NoMagic junk next

-- The search stops where `next` begins.
find_magic-junk :
    (junk next : Bytes) (n : ℕ)
    → NoMagic junk next
    → has_magic next ≡ true
    → 4 < length next
    → find_magic (junk ++ next) n ≡ n + length junk
unfolding find_magic
find_magic-junk [] [] n c h l = absurd (omega arith)
find_magic-junk [] (b ∷ next) n c h l = ground arith
find_magic-junk (b ∷ junk) next n c h l =
    ground (arith, length-append junk next, find_magic-junk junk next (n + 1) c.1 h l)

module _ (m : Msg) (v : IsSendable m) (rest : Bytes) where
  pm_pack_loop-junk :
      (fuel : ℕ) (junk : Bytes)
      → NoMagic junk (frame m rest)
      → pm_pack_loop (suc (suc fuel)) false (junk ++ frame m rest) ≡ some (received m v rest)
  unfolding pm_pack_loop
  pm_pack_loop-junk fuel [] c = pm_pack_loop-frame (suc fuel) m v false rest
  pm_pack_loop-junk fuel (b ∷ junk) c =
      rw
        (
          ltb-false (length ((b ∷ junk) ++ frame m rest)) pm_header_len
              (omega (arith, length-append junk (frame m rest), length-frame m v rest)),
          c.0,
          find_magic-junk junk (frame m rest) 1 c.1 (has_magic-frame m v rest)
              (omega (arith, length-frame m v rest)),
          drop_junk,
        )
        (pm_pack_loop-frame fuel m v false rest)
    where
      drop_junk : drop (1 + length junk) ((b ∷ junk) ++ frame m rest) ≡ frame m rest
      drop_junk =
          let e : 1 + length junk ≡ length (b ∷ junk) = omega arith in
          rw e (drop-length_append (b ∷ junk) (frame m rest))

-- Without PMRW_NOSKIP, bytes in which no magic number begins are dropped, and the frame behind them
-- is delivered in the same call as it would be without them; what follows it stays in the buffer. The frame's
-- message is one of 32-bit fields whose length is that of its bytes, with 20 + len below 2^31.
pub pm_pack-junk :
    (m : Msg)
    → IsSendable m
    → (junk rest : Bytes) → NoMagic junk (msg_header m ++ (m.buf ++ rest))
    → pm_pack false (junk ++ (msg_header m ++ (m.buf ++ rest)))
      ≡ some (packed (pm_header_len + m.len) (some (record m { cap = msg_alloc m.len })) rest)
unfolding pm_pack
pm_pack-junk m v junk rest c =
    let e : length (junk ++ frame m rest) + 1 ≡ suc (suc (length (junk ++ frame m rest) - 1)) =
      omega (arith, length-append junk (frame m rest), length-frame m v rest) in
    rw e (pm_pack_loop-junk m v rest (length (junk ++ frame m rest) - 1) junk c)
