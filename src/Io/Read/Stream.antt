-- ===== src/Io/Read/Stream.antt =====
-- hp_rd_read hands every byte that it reads to the callback or keeps it, in order.
use libhp.Common.{
  ℕ, zero, suc, ◌+◌, ◌%◌, ◌^◌, ◌≤◌, ◌<◌, ◌≡◌, refl, sym, ap, ◌∙◌, inl, inr, Bool-cases, Bool, true,
  false, Option, some, [], ◌∷◌, ◌++◌, append-nil, append_assoc, arith, ◌==◌, length, take,
  length-append, length-take, take-nil, Bytes,
}
use libhp.Common.Int.{ℤ, pos, negsuc}
use libhp.Io.Os.{is_again}
use libhp.Io.Read.{
  Answer, gives, fails, Kernel, Os, OnData, Rd, Done, Request, read_as, os_after, grow, hand_over,
  stop_reading, on_read, fill, on_parsed, parse_round, rd_read_loop, rd_read,
}
use libhp.Io.Read.Bounds.{
  IsValid, InBuffer, AllIn, AllIn-append, grow-room, grow-request, grow-same,
}

-- A callback that takes bytes off the front of the buffer: `consumed` is what it has taken so far.
pub record IsParser {S : Type 0} (on_data : OnData S) (consumed : S → Bytes) : Type 0 where
  pub takes_front :
      (buf : Bytes) (s : S) → consumed (on_data buf s).2 ++ (on_data buf s).1 ≡ consumed s ++ buf
  pub leaves_less : (buf : Bytes) (s : S) → length (on_data buf s).1 ≤ length buf

-- An answer that brings no bytes.
abbrev pub ends : Answer → Bool
ends (gives []) = true
ends (gives (b ∷ bs)) = false
ends (fails e) = true

-- What a round starts from.
pub record Ready (rd : Rd) (os : Os) (count : ℕ) : Type 0 where
  pub valid : IsValid rd
  pub requests : AllIn os.requests
  pub total_fits : rd.i_bytes < 2 ^ 64
  pub count_fits : count < 2 ^ 64

module _ {S : Type 0} (on_data : OnData S) (consumed : S → Bytes) where
  -- The bytes `received` in a call went to the callback or are still buffered, in order, and are
  -- counted; the reader is valid, and every request was inside the buffer.
  pub record Account (rd : Rd) (os : Os) (s : S) (count : ℕ) (d : Done S) : Type 0 where
    pub received : Bytes
    pub taken_eq : d.os.taken ≡ os.taken ++ received
    pub stream : consumed d.client ++ d.rd.i_buf ≡ (consumed s ++ rd.i_buf) ++ received
    pub bytes_eq : d.bytes ≡ (count + length received) % 2 ^ 64
    pub total_eq : d.rd.i_bytes ≡ (rd.i_bytes + length received) % 2 ^ 64
    pub valid : IsValid d.rd
    pub requests : AllIn d.os.requests

  abbrev Returns : Rd → Os → S → ℕ → Option (Done S) → Type 0
  Returns rd os s count r = (d : Done S) × (r ≡ some d) × Account rd os s count d

  module _ (parser : IsParser on_data consumed) where
    -- Nothing received: what was buffered is still accounted for.
    Account-none :
        (rd : Rd) (os : Os) (s : S) (count : ℕ) (d : Done S)
        → Ready rd os count
        → d.os.taken ≡ os.taken
        → AllIn d.os.requests
        → consumed d.client ++ d.rd.i_buf ≡ consumed s ++ rd.i_buf
        → d.bytes ≡ count
        → d.rd.i_bytes ≡ rd.i_bytes
        → IsValid d.rd
        → Account rd os s count d
    Account-none rd os s count d ready t q e b i v = record {
      received = [];
      taken_eq = t ∙ sym (append-nil os.taken);
      stream = e ∙ sym (append-nil (consumed s ++ rd.i_buf));
      bytes_eq = omega (arith, ready.count_fits);
      total_eq = omega (arith, ready.total_fits);
      valid = v;
      requests = q;
    }

    -- What is handed over comes off the front.
    hand_over-front :
        (rd : Rd) (s : S)
        → (consumed (hand_over on_data rd s).2 ++ (hand_over on_data rd s).1
            ≡ consumed s ++ rd.i_buf)
          × (length (hand_over on_data rd s).1 ≤ length rd.i_buf)
    unfolding hand_over
    hand_over-front rd s = elim (Bool-cases (length rd.i_buf == 0)) [
      | inl empty ↦ rw empty (refl, omega arith)
      | inr full ↦ rw full (parser.takes_front rd.i_buf s, parser.leaves_less rd.i_buf s)
    ]

    stop_reading-Account :
        (rd : Rd) (os os' : Os) (s : S) (count : ℕ)
        → Ready rd os count
        → os'.taken ≡ os.taken
        → AllIn os'.requests
        → Account rd os s count (stop_reading on_data rd os' s count)
    unfolding stop_reading
    stop_reading-Account rd os os' s count ready t q =
        Account-none rd os s count _ ready t q (hand_over-front rd s).0 refl refl
          (omega (arith, ready.valid, (hand_over-front rd s).1))

    -- A step that only moves bytes to the callback.
    Account-from :
        (rd rd' : Rd) (os : Os) (s s' : S) (count : ℕ) {d : Done S}
        → consumed s' ++ rd'.i_buf ≡ consumed s ++ rd.i_buf
        → rd'.i_bytes ≡ rd.i_bytes
        → Account rd' os s' count d
        → Account rd os s count d
    Account-from rd rd' os s s' count e b a = record {
      received = a.received;
      taken_eq = a.taken_eq;
      stream = a.stream ∙ ap (λ xs. xs ++ a.received) e;
      bytes_eq = a.bytes_eq;
      total_eq = omega (arith, a.total_eq, b);
      valid = a.valid;
      requests = a.requests;
    }

    -- A read of the bytes `bs`.
    Account-more :
        (rd rd' : Rd) (os os' : Os) (s : S) (count count' : ℕ) (bs : Bytes) {d : Done S}
        → rd'.i_buf ≡ rd.i_buf ++ bs
        → os'.taken ≡ os.taken ++ bs
        → count' ≡ (count + length bs) % 2 ^ 64
        → rd'.i_bytes ≡ (rd.i_bytes + length bs) % 2 ^ 64
        → Account rd' os' s count' d
        → Account rd os s count d
    Account-more rd rd' os os' s count count' bs e t c b a = record {
      received = bs ++ a.received;
      taken_eq = rw (a.taken_eq, t, append_assoc);
      stream = a.stream ∙ rw e (simp append_assoc);
      bytes_eq = omega (arith, a.bytes_eq, c, length-append bs a.received);
      total_eq = omega (arith, a.total_eq, b, length-append bs a.received);
      valid = a.valid;
      requests = a.requests;
    }

    Ready-grow : (rd : Rd) (os : Os) (count : ℕ) → Ready rd os count → Ready (grow rd) os count
    unfolding grow
    Ready-grow rd os count r = ground (arith, r)

    module _ (kernel : Kernel) where
      -- The rounds that `again` makes return, when the kernel has no bytes `k` answers on.
      abbrev Again : (Rd → Os → S → ℕ → Option (Done S)) → ℕ → Type 0
      Again again k =
          (rd : Rd) (os : Os) (s : S) (count : ℕ)
          → ends (kernel (os.calls + k)) ≡ true
          → Ready rd os count
          → Returns rd os s count (again rd os s count)

      on_read-Returns :
          (again : Rd → Os → S → ℕ → Option (Done S)) (a : Answer) (k : ℕ) (rd : Rd) (os : Os)
          (s : S) (count room : ℕ) (q : Request)
          → kernel os.calls ≡ a
          → ends (kernel (os.calls + k)) ≡ true
          → ((k' : ℕ) → k ≡ suc k' → Again again k')
          → Ready rd os count
          → InBuffer q
          → room ≡ q.room
          → length rd.i_buf + q.room ≤ rd.buf_max
          → Returns rd os s count
              (on_read on_data again (read_as a room) rd (os_after a room q os) s count)
      unfolding on_read read_as os_after
      on_read-Returns again (gives []) k rd os s count room q e last ih ready i r h = (
        _,
        refl,
        stop_reading-Account rd os _ s count ready (rw (take-nil, append-nil))
            (AllIn-append os.requests q ready.requests i),
      )
      on_read-Returns again (gives (b ∷ bs)) k rd os s count zero q e last ih ready i r h =
          absurd (omega (arith, i.room_pos))
      on_read-Returns again (gives (b ∷ bs)) zero rd os s count (suc room) q e last ih ready i r h =
          let z : os.calls ≡ os.calls + 0 = omega arith in
          let never : false ≡ true = sym (ap ends e) ∙ ap (λ n. ends (kernel n)) z ∙ last in cc
      on_read-Returns again (gives (b ∷ bs)) (suc k) rd os s count (suc room) q e last ih ready i r
            h =
          let z : os.calls + suc k ≡ os.calls + 1 + k = omega arith in
          let (d, g, acc) = ih k refl _ _ s _ (ap (λ n. ends (kernel n)) (sym z) ∙ last) (record {
            valid = record {
              max_pos = ready.valid.max_pos;
              fits =
                  omega
                    (arith, h, r, length-append rd.i_buf (b ∷ take room bs), length-take room bs);
            };
            requests = AllIn-append os.requests q ready.requests i;
            total_fits = omega arith;
            count_fits = omega arith;
          }) in
          (d, g, Account-more rd _ os _ s count _ (b ∷ take room bs) refl refl refl refl acc)
      on_read-Returns again (fails x) k rd os s count room q e last ih ready i r h =
          elim (Bool-cases (is_again x)) [
            | inl wait ↦ rw wait (
              _,
              refl,
              Account-none rd os s count _ ready refl (AllIn-append os.requests q ready.requests i)
                  refl refl refl ready.valid,
            )
            | inr broken ↦ rw broken (
              _,
              refl,
              stop_reading-Account rd os _ s count ready refl
                  (AllIn-append os.requests q ready.requests i),
            )
          ]

      fill-Returns :
          (again : Rd → Os → S → ℕ → Option (Done S)) (k : ℕ) (rd : Rd) (os : Os) (s : S)
          (count : ℕ)
          → ends (kernel (os.calls + k)) ≡ true
          → ((k' : ℕ) → k ≡ suc k' → Again again k')
          → Ready rd os count
          → Returns rd os s count (fill on_data again kernel rd os s count)
      unfolding fill
      fill-Returns again k rd os s count last ih ready =
          let (d, g, acc) =
            on_read-Returns again (kernel os.calls) k (grow rd) os s count _ _ refl last ih
              (Ready-grow rd os count ready) (grow-request rd ready.valid) refl
              (omega (arith, grow-room rd ready.valid)) in
          (
            d,
            g,
            Account-from rd (grow rd) os s s count (ap (λ xs. consumed s ++ xs) (grow-same rd).0)
                (grow-same rd).1 acc,
          )

      -- The callback's return code decides whether the round goes on.
      on_parsed-Returns :
          (next : Rd → Os → S → ℕ → Option (Done S)) (rc : ℤ) (left : Bytes) (rd : Rd) (os : Os)
          (s s' : S) (count : ℕ)
          → consumed s' ++ left ≡ consumed s ++ rd.i_buf
          → length left ≤ length rd.i_buf
          → Ready rd os count
          → (Ready (record rd { i_buf = left }) os count
              → Returns
                  (record rd { i_buf = left })
                  os
                  s'
                  count
                  (next (record rd { i_buf = left }) os s' count))
          → Returns rd os s count
              (on_parsed on_data next rc (record rd { i_buf = left }) os s' count)
      unfolding on_parsed
      on_parsed-Returns next (pos n) left rd os s s' count e l ready ih =
          let (d, g, acc) = ih (record {
            valid = record { max_pos = ready.valid.max_pos; fits = omega (arith, ready.valid) };
            requests = ready.requests;
            total_fits = ready.total_fits;
            count_fits = ready.count_fits;
          }) in
          (d, g, Account-from rd (record rd { i_buf = left }) os s s' count e refl acc)
      on_parsed-Returns next (negsuc n) left rd os s s' count e l ready ih = (
        _,
        refl,
        Account-none rd os s count _ ready refl ready.requests e refl refl
            (record { max_pos = ready.valid.max_pos; fits = omega (arith, ready.valid) }),
      )

      rd_read_loop-Returns : (fuel k : ℕ) → k < fuel → Again (rd_read_loop on_data fuel kernel) k
      unfolding rd_read_loop parse_round
      rd_read_loop-Returns zero k h rd os s count last ready = absurd (omega arith)
      rd_read_loop-Returns (suc fuel) k h rd os s count last ready =
          on_parsed-Returns _ (hand_over on_data rd s).0 (hand_over on_data rd s).1 rd os s
            (hand_over on_data rd s).2 count (hand_over-front rd s).0 (hand_over-front rd s).1 ready
            (fill-Returns (rd_read_loop on_data fuel kernel) k
              (record rd { i_buf = (hand_over on_data rd s).1 }) os (hand_over on_data rd s).2 count
              last (λ k' e. rd_read_loop-Returns fuel k' (omega arith)))

-- Over a callback that takes bytes off the front of the buffer, `hp_rd_read` returns as soon as the
-- kernel's answers run out (the `k`-th from here brings no bytes), and accounts for every byte that
-- it read: the bytes went to the callback or are still buffered, in order; they are counted in the
-- result and in `i_bytes`; and each request asked for a byte at least and stayed inside the buffer.
pub rd_read-Account :
    {S : Type 0} (on_data : OnData S) (consumed : S → Bytes)
    → IsParser on_data consumed
    → (kernel : Kernel) (k fuel : ℕ) (rd : Rd) (os : Os) (s : S)
    → ends (kernel (os.calls + k)) ≡ true
    → k < fuel
    → Ready rd os 0
    → (d : Done S) × (rd_read on_data fuel kernel rd os s ≡ some d)
      × Account on_data consumed rd os s 0 d
unfolding rd_read
rd_read-Account on_data consumed parser kernel k fuel rd os s last enough ready =
    let rd' : Rd = record rd { allocated = true } in
    let ready' : Ready rd' os 0 = record {
      valid = record { max_pos = ready.valid.max_pos; fits = ready.valid.fits };
      requests = ready.requests;
      total_fits = ready.total_fits;
      count_fits = ready.count_fits;
    } in
    let (d, g, acc) =
      rd_read_loop-Returns on_data consumed parser kernel fuel k enough rd' os s 0 last ready' in
    (d, g, Account-from on_data consumed parser rd rd' os s s 0 refl refl acc)
