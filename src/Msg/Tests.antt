-- ===== src/Msg/Tests.antt =====
-- src/hp_msg.c at concrete messages.
use libhp.Common.{
  ◌-◌, ◌^◌, ◌≡◌, refl, true, false, none, some, [], ◌∷◌, ◌++◌, arith, Bytes, bytes_eq, read_be32,
}
use libhp.Msg.{
  Msg, Packed, packed, pm_pack, pm_pack_loop, has_magic, msg_header, msg_alloc, size_error,
  size_of_int,
}
use libhp.Msg.Parse.{Outcome, pm_pack-Outcome}
use libhp.Msg.RoundTrip.{IsSendable, pm_pack-frame}
use libhp.Msg.Resync.{NoMagic, pm_pack-junk}

abbrev ping : Msg
ping = record { id = 1; type = 2; sid = 300; cap = 2; buf = b'h' ∷ b'i' ∷ []; len = 2 }

ping-IsSendable : IsSendable ping
ping-IsSendable = record {
  id_fits = omega arith;
  type_fits = omega arith;
  sid_fits = omega arith;
  len_fits = omega arith;
  len_eq = refl;
}

abbrev noise : Bytes
noise = 0x23 ∷ 0x37 ∷ 0 ∷ []

header_bytes :
    msg_header ping
    ≡ 0x23 ∷ 0x37 ∷ 0x60 ∷ 0x32 ∷ 0 ∷ 0 ∷ 0 ∷ 1 ∷ 0 ∷ 0 ∷ 0 ∷ 2 ∷ 0 ∷ 0 ∷ 1 ∷ 44 ∷ 0 ∷ 0 ∷ 0 ∷ 2
      ∷ []
unfolding msg_header
header_bytes = refl

-- A negative length waits for more bytes than any buffer holds.
negative_length : size_of_int (2 ^ 32 - 1) ≡ 2 ^ 64 - 1
unfolding size_of_int
negative_length = refl

waits_for_body :
    pm_pack true (msg_header ping ++ b'h' ∷ [])
    ≡ some (packed 0 none (msg_header ping ++ b'h' ∷ []))
unfolding pm_pack pm_pack_loop msg_header bytes_eq read_be32
waits_for_body = refl

refuses_noise :
    pm_pack true (noise ++ msg_header ping)
    ≡ some (packed size_error none (0x37 ∷ 0 ∷ msg_header ping))
unfolding pm_pack pm_pack_loop msg_header bytes_eq
refuses_noise = refl

pm_pack-Outcome_example :
    (p : Packed) × (pm_pack false (noise ++ msg_header ping) ≡ some p)
    × Outcome false (noise ++ msg_header ping) p
unfolding msg_header
pm_pack-Outcome_example = pm_pack-Outcome false (noise ++ msg_header ping) (omega arith)

pm_pack-frame_example :
    pm_pack true (msg_header ping ++ (b'h' ∷ b'i' ∷ 7 ∷ []))
    ≡ some (packed 22 (some (record ping { cap = msg_alloc 2 })) (7 ∷ []))
pm_pack-frame_example = pm_pack-frame ping ping-IsSendable true (7 ∷ [])

noise-NoMagic : NoMagic noise (msg_header ping ++ (b'h' ∷ b'i' ∷ 7 ∷ []))
unfolding has_magic msg_header bytes_eq
noise-NoMagic = (refl, (refl, (refl, tt)))

pm_pack-junk_example :
    pm_pack false (noise ++ (msg_header ping ++ (b'h' ∷ b'i' ∷ 7 ∷ [])))
    ≡ some (packed 22 (some (record ping { cap = msg_alloc 2 })) (7 ∷ []))
pm_pack-junk_example = pm_pack-junk ping ping-IsSendable noise (7 ∷ []) noise-NoMagic
