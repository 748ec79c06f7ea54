-- ===== src/Base/Returns.antt =====
-- hp_rd_read over hp_io_t_internal_on_data of src/hp_io_t.cpp returns, with fuel for the bytes that come.
use libhp.Common.{
  ℕ, zero, suc, ◌+◌, ◌≤◌, ◌<◌, ◌≡◌, refl, sym, ap, ◌∙◌, inl, inr, Bool-cases, true, false, Option,
  none, some, [], ◌∷◌, arith, ◌==◌, length, take, length-append, length-take, Bytes,
}
use libhp.Common.Int.{ℤ, pos, negsuc}
use libhp.Io.Os.{is_again}
use libhp.Io.Read.{
  Answer, gives, fails, Kernel, Os, OnData, Rd, Done, Request, read_as, os_after, grow, hand_over,
  stop_reading, on_read, fill, on_parsed, parse_round, rd_read_loop, rd_read,
}
use libhp.Io.Read.Bounds.{grow-same}
use libhp.Io.Read.Stream.{ends}
use libhp.Base.Data.{Hdl, on_data, internal_on_data, or_stuck}
use libhp.Base.Drain.{
  Parses, done, message, Stops, empty, needs_more, fails as parse_fails, Consumes, on_data-Drained,
}

-- The number of bytes that an answer brings, and that `k` answers from the `i`-th on bring.
abbrev pub bytes_of : Answer → ℕ
bytes_of (gives bs) = length bs
bytes_of (fails e) = 0

abbrev pub ahead : Kernel → ℕ → ℕ → ℕ
ahead kernel i zero = 0
ahead kernel i (suc k) = bytes_of (kernel i) + ahead kernel (i + 1) k

-- A callback that keeps a property of the client's state and does not lengthen up to `n` bytes.
abbrev Keeps : {S : Type 0} → OnData S → (S → Type 0) → ℕ → Type 0
Keeps {S} on_data good n =
    (buf : Bytes) (s : S)
    → good s
    → length buf ≤ n
    → good (on_data buf s).2 × (length (on_data buf s).1 ≤ length buf)

module _ {S : Type 0} (on_data : OnData S) (good : S → Type 0) (n : ℕ)
    (keeps : Keeps on_data good n) (kernel : Kernel) where
  abbrev Returns : Option (Done S) → Type 0
  Returns r = (d : Done S) × (r ≡ some d) × good d.client

  hand_over-keeps :
      (rd : Rd) (s : S)
      → good s
      → length rd.i_buf ≤ n
      → good (hand_over on_data rd s).2 × (length (hand_over on_data rd s).1 ≤ length rd.i_buf)
  unfolding hand_over
  hand_over-keeps rd s g l = elim (Bool-cases (length rd.i_buf == 0)) [
    | inl none_left ↦ rw none_left (g, omega arith)
    | inr some_left ↦ rw some_left (keeps rd.i_buf s g l)
  ]

  stop_reading-Returns :
      (rd : Rd) (os : Os) (s : S) (count : ℕ)
      → good s
      → length rd.i_buf ≤ n
      → Returns (some (stop_reading on_data rd os s count))
  unfolding stop_reading
  stop_reading-Returns rd os s count g l = (_, refl, (hand_over-keeps rd s g l).0)

  -- The next round returns, when `k` answers are ahead.
  abbrev Next : (Rd → Os → S → ℕ → Option (Done S)) → ℕ → Type 0
  Next again k =
      (rd : Rd) (os : Os) (s : S) (count : ℕ)
      → ends (kernel (os.calls + k)) ≡ true
      → good s
      → length rd.i_buf + ahead kernel os.calls k ≤ n
      → Returns (again rd os s count)

  on_read-Returns :
      (again : Rd → Os → S → ℕ → Option (Done S)) (a : Answer) (k : ℕ) (rd : Rd) (os : Os) (s : S)
      (count room : ℕ) (q : Request)
      → kernel os.calls ≡ a
      → ends (kernel (os.calls + k)) ≡ true
      → ((k' : ℕ) → k ≡ suc k' → Next again k')
      → good s
      → length rd.i_buf + ahead kernel os.calls k ≤ n
      → Returns (on_read on_data again (read_as a room) rd (os_after a room q os) s count)
  unfolding on_read read_as os_after
  on_read-Returns again (gives []) k rd os s count room q e last ih g l =
      stop_reading-Returns rd (os_after (gives []) room q os) s count g (omega arith)
  on_read-Returns again (gives (b ∷ bs)) k rd os s count zero q e last ih g l =
      stop_reading-Returns rd (os_after (gives (b ∷ bs)) 0 q os) s count g (omega arith)
  on_read-Returns again (gives (b ∷ bs)) zero rd os s count (suc room) q e last ih g l =
      let z : os.calls ≡ os.calls + 0 = omega arith in
      let never : false ≡ true = sym (ap ends e) ∙ ap (λ m. ends (kernel m)) z ∙ last in cc
  on_read-Returns again (gives (b ∷ bs)) (suc k) rd os s count (suc room) q e last ih g l =
      let z : os.calls + suc k ≡ os.calls + 1 + k = omega arith in
      ih k refl _ _ s _ (ap (λ m. ends (kernel m)) (sym z) ∙ last) g (
        omega
          (arith, l, ap bytes_of e, length-append rd.i_buf (b ∷ take room bs), length-take room bs))
  on_read-Returns again (fails x) k rd os s count room q e last ih g l =
      elim (Bool-cases (is_again x)) [
        | inl wait ↦ rw wait (_, refl, g)
        | inr broken ↦
            rw broken
              (stop_reading-Returns rd (os_after (fails x) room q os) s count g (omega arith))
      ]

  on_parsed-Returns :
      (next : Rd → Os → S → ℕ → Option (Done S)) (rc : ℤ) (rd : Rd) (os : Os) (s : S) (count : ℕ)
      → good s
      → Returns (next rd os s count)
      → Returns (on_parsed on_data next rc rd os s count)
  unfolding on_parsed
  on_parsed-Returns next (pos m) rd os s count g r = r
  on_parsed-Returns next (negsuc m) rd os s count g r = (_, refl, g)

  rd_read_loop-Returns : (fuel k : ℕ) → k < fuel → Next (rd_read_loop on_data fuel kernel) k
  unfolding rd_read_loop parse_round fill
  rd_read_loop-Returns zero k h rd os s count last g l = absurd (omega arith)
  rd_read_loop-Returns (suc fuel) k h rd os s count last g l =
      let (g', l') = hand_over-keeps rd s g (omega arith) in
      let rd' : Rd = record rd { i_buf = (hand_over on_data rd s).1 } in
      on_parsed-Returns _ (hand_over on_data rd s).0 rd' os (hand_over on_data rd s).2 count g' (
        on_read-Returns (rd_read_loop on_data fuel kernel) (kernel os.calls) k (grow rd') os
          (hand_over on_data rd s).2 count _ _ refl last
          (λ k' e. rd_read_loop-Returns fuel k' (omega arith)) g'
          (omega (arith, l, l', ap (length {A = ℕ}) (grow-same rd').0)))

-- A parser that never lengthens the buffer.
abbrev pub Shortens : {W M : Type 0} → (Bytes → W → ℤ × Bytes × M × W) → Type 0
Shortens {W} on_parse = (buf : Bytes) (w : W) → length (on_parse buf w).1 ≤ length buf

module _ {W M : Type 0} (hdl : Hdl W M) (on_parse : Bytes → W → ℤ × Bytes × M × W)
    (shortens : Shortens on_parse) where
  Parses-length :
      (buf : Bytes) (w : W) (buf' : Bytes) (w' : W)
      → Parses on_parse buf w buf' w'
      → length buf' ≤ length buf
  Parses-length buf w _ _ done = omega arith
  Parses-length buf w buf'' w'' (message {buf' = mid} {w' = v} m ne e rest) =
      omega
        (arith, shortens buf w, ap (λ r. length {A = ℕ} r.1) e, Parses-length mid v buf'' w'' rest)

  Stops-length :
      (buf : Bytes) (w : W) (r : ℤ × Bytes × W) → Stops on_parse buf w r → length r.1 ≤ length buf
  Stops-length buf w _ (empty e) = omega arith
  Stops-length buf w _ (needs_more m ne e) =
      omega (arith, shortens buf w, ap (λ r. length {A = ℕ} r.1) e)
  Stops-length buf w _ (parse_fails m k ne e) = omega arith

  abbrev pub Present : Option W → Type 0
  Present o = (w : W) × (o ≡ some w)

  internal_on_data-Keeps :
      (fuel n : ℕ)
      → hdl.on_parse ≡ some on_parse
      → hdl.on_dispatch ≡ none
      → Consumes on_parse
      → n < fuel
      → Keeps (internal_on_data fuel hdl) Present n
  unfolding internal_on_data or_stuck
  internal_on_data-Keeps fuel n p no_dispatch c u buf s (w, e) l =
      let parsed = on_data-Drained fuel hdl on_parse buf w p no_dispatch c (omega arith) in
      rw (e, parsed.returns)
        (
          (parsed.result.2, refl),
          omega (
            arith,
            Stops-length parsed.last parsed.state parsed.result parsed.stops,
            Parses-length buf w parsed.last parsed.state parsed.messages,
          ),
        )

  -- With more fuel than rounds and than bytes, hp_rd_read returns, and the client's state is there.
  pub rd_read-Returns :
      (fuel k : ℕ) (kernel : Kernel) (rd : Rd) (os : Os) (w : W)
      → hdl.on_parse ≡ some on_parse
      → hdl.on_dispatch ≡ none
      → Consumes on_parse
      → ends (kernel (os.calls + k)) ≡ true
      → k < fuel
      → length rd.i_buf + ahead kernel os.calls k < fuel
      → (d : Done (Option W)) × (rd_read (internal_on_data fuel hdl) fuel kernel rd os (some w)
          ≡ some d)
        × Present d.client
  unfolding rd_read
  rd_read-Returns fuel k kernel rd os w p no_dispatch c last rounds bytes =
      let n = length rd.i_buf + ahead kernel os.calls k in
      rd_read_loop-Returns (internal_on_data fuel hdl) Present n
        (internal_on_data-Keeps fuel n p no_dispatch c bytes) kernel fuel k rounds
        (record rd { allocated = true }) os (some w) 0 last (w, refl) (omega arith)
