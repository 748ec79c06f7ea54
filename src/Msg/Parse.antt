-- ===== src/Msg/Parse.antt =====
-- hp_pm_pack returns, and what it returns accounts for every byte of the buffer.
use libhp.Common.{
  ℕ, zero, suc, ◌+◌, ◌-◌, ◌%◌, ◌^◌, ◌≤◌, ◌<◌, ◌≡◌, refl, inl, inr, ◌⊎◌, Bool, true, false, Option,
  none, some, [], ◌∷◌, arith, ltb, leb, le_of_ltb-false, ltb→lt, if◌then◌else◌, length, take, drop,
  length-drop, drop-drop, Bytes, Bool-cases,
}
use libhp.Msg.{
  Packed, packed, has_magic, find_magic, parse_body, pm_pack_loop, pm_pack, size_error,
  pm_header_len, pm_body_len, pm_id, pm_type, pm_session, msg_alloc, Msg, msg_new,
}

-- The search goes forward, and stops before the end of a buffer of more than four bytes.
pub find_magic_bounds :
    (buf : Bytes) (n : ℕ) → (n ≤ find_magic buf n) × (find_magic buf n ≤ n + length buf)
unfolding find_magic
find_magic_bounds [] n = omega arith
find_magic_bounds (b ∷ buf) n = ground (arith, find_magic_bounds buf (n + 1))

-- The frame at the front of `buf`, as the caller is to see it.
abbrev pub framed : Bytes → Msg
framed buf = record {
  id = pm_id buf;
  type = pm_type buf;
  sid = pm_session buf;
  cap = msg_alloc (pm_body_len buf);
  buf = take (pm_body_len buf) (drop pm_header_len buf);
  len = pm_body_len buf;
}

-- What a call may do with the buffer `buf`: wait for the rest of a frame, deliver the frame after
-- `k` skipped bytes, or refuse the first byte. Bytes are skipped only where the flag allows it.
pub data Outcome (noskip : Bool) (buf : Bytes) (p : Packed) : Type 0 where
  short :
      (k : ℕ)
      → (noskip ≡ false) ⊎ (k ≡ 0)
      → length (drop k buf) < pm_header_len
      → p ≡ packed 0 none (drop k buf)
      → Outcome noskip buf p
  partial :
      (k : ℕ)
      → (noskip ≡ false) ⊎ (k ≡ 0)
      → has_magic (drop k buf) ≡ true
      → length (drop k buf) < pm_header_len + pm_body_len (drop k buf)
      → p ≡ packed 0 none (drop k buf)
      → Outcome noskip buf p
  message :
      (k : ℕ)
      → (noskip ≡ false) ⊎ (k ≡ 0)
      → has_magic (drop k buf) ≡ true
      → pm_header_len + pm_body_len (drop k buf) ≤ length (drop k buf)
      → p
        ≡ packed
            (pm_header_len + pm_body_len (drop k buf))
            (some (framed (drop k buf)))
            (drop (pm_header_len + pm_body_len (drop k buf)) (drop k buf))
      → Outcome noskip buf p
  refused :
      noskip ≡ true
      → has_magic buf ≡ false
      → p ≡ packed size_error none (drop 1 buf)
      → Outcome noskip buf p

Outcome-drop :
    (n : ℕ) (noskip : Bool) (buf : Bytes) (p : Packed)
    → noskip ≡ false
    → Outcome noskip (drop n buf) p
    → Outcome noskip buf p
Outcome-drop n noskip buf p lax (short k _ h e) =
    short (n + k) (inl lax) (rw (← drop-drop k n buf) h) (rw (← drop-drop k n buf) e)
Outcome-drop n noskip buf p lax (partial k _ m h e) =
    partial (n + k) (inl lax) (rw (← drop-drop k n buf) m) (rw (← drop-drop k n buf) h)
      (rw (← drop-drop k n buf) e)
Outcome-drop n noskip buf p lax (message k _ m h e) =
    message (n + k) (inl lax) (rw (← drop-drop k n buf) m) (rw (← drop-drop k n buf) h)
      (rw (← drop-drop k n buf) e)
Outcome-drop n noskip buf p lax (refused strict _ _) = cc

parse_body-Outcome :
    (noskip : Bool) (buf : Bytes)
    → pm_header_len ≤ length buf
    → has_magic buf ≡ true
    → length buf < 2 ^ 31
    → (p : Packed) × (parse_body buf ≡ some p) × Outcome noskip buf p
unfolding parse_body msg_new
parse_body-Outcome noskip buf h m small =
    elim (Bool-cases (leb (pm_body_len buf) (length buf - 20))) [
      | inl fits ↦
          let le : pm_header_len + pm_body_len buf ≤ length buf = ground arith in
          let exact : (pm_header_len + pm_body_len buf) % 2 ^ 32 ≡ pm_header_len + pm_body_len buf =
            omega arith in
          let positive : leb (2 ^ 31) (pm_header_len + pm_body_len buf) ≡ false = ground arith in
          (_, rw (fits, exact, positive), message 0 (inr refl) m le refl)
      | inr over ↦ (_, rw over, partial 0 (inr refl) m (ground arith) refl)
    ]

-- A buffer that does not start with the magic number is refused, or searched for the next one.
miss-Outcome :
    (noskip : Bool) (buf : Bytes) (n : ℕ) (skipped : Option Packed)
    → has_magic buf ≡ false
    → (p : Packed) × (skipped ≡ some p) × Outcome noskip (drop n buf) p
    → (p : Packed) × ((if noskip then some (packed size_error none (drop 1 buf)) else skipped)
        ≡ some p)
      × Outcome noskip buf p
miss-Outcome true buf n skipped miss ih =
    (packed size_error none (drop 1 buf), refl, refused refl miss refl)
miss-Outcome false buf n skipped miss (p, e, o) = (p, e, Outcome-drop n false buf p refl o)

-- The bytes behind a search are fewer than those before it.
length-search :
    (buf : Bytes)
    → pm_header_len ≤ length buf
    → length (drop (find_magic (drop 1 buf) 1) buf) < length buf
length-search buf h =
    omega (arith, find_magic_bounds (drop 1 buf) 1, length-drop (find_magic (drop 1 buf) 1) buf)

pub pm_pack_loop-Outcome :
    (fuel : ℕ) (noskip : Bool) (buf : Bytes)
    → length buf < fuel
    → length buf < 2 ^ 31
    → (p : Packed) × (pm_pack_loop fuel noskip buf ≡ some p) × Outcome noskip buf p
unfolding pm_pack_loop
pm_pack_loop-Outcome zero noskip buf h small = elim h [ ]
pm_pack_loop-Outcome (suc fuel) noskip buf h small = elim (Bool-cases (ltb (length buf) 20)) [
  | inl few ↦ (packed 0 none buf, rw few, short 0 (inr refl) (ltb→lt _ _ few) refl)
  | inr many ↦ rw many (elim (Bool-cases (has_magic buf)) [
    | inl m ↦ rw m (parse_body-Outcome noskip buf (le_of_ltb-false _ _ many) m small)
    | inr miss ↦ rw miss (
        miss-Outcome noskip buf (find_magic (drop 1 buf) 1) _ miss (
          pm_pack_loop-Outcome fuel noskip (drop (find_magic (drop 1 buf) 1) buf)
            (omega (arith, length-search buf (le_of_ltb-false _ _ many)))
            (omega (arith, length-search buf (le_of_ltb-false _ _ many)))))
  ])
]

-- `hp_pm_pack` returns on every buffer of less than 2^31 bytes, and does one of four things: it waits with fewer than 20
-- bytes left, waits for the body of a frame, delivers the frame behind `k` skipped bytes and leaves
-- what follows it, or (flag PMRW_NOSKIP) refuses the first byte. With PMRW_NOSKIP it skips nothing.
pub pm_pack-Outcome :
    (noskip : Bool) (buf : Bytes)
    → length buf < 2 ^ 31
    → (p : Packed) × (pm_pack noskip buf ≡ some p) × Outcome noskip buf p
unfolding pm_pack
pm_pack-Outcome noskip buf small =
    pm_pack_loop-Outcome (length buf + 1) noskip buf (omega arith) small
