-- ===== src/Base/Pending.antt =====
-- A connection of src/hp_io_t.cpp hands over one message for each `read`: what else is buffered waits.
use libhp.Common.{
  ℕ, suc, ◌-◌, ◌≡◌, refl, ◌∙◌, inl, inr, Bool-cases, true, false, Option, some, ◌∷◌, arith, ◌==◌,
  ltb, length, Bytes,
}
use libhp.Common.Int.{ℤ, pos}
use libhp.Io.Os.{is_again}
use libhp.Io.Read.{
  Rd, Os, Kernel, OnData, Done, Answer, fails, read_as, os_after, hand_over, on_read, fill, grow,
  on_parsed, parse_round, rd_read_loop, rd_read,
}
use libhp.Base.Data
use libhp.Base.Data.{
  Hdl, internal_on_data, or_stuck, on_data, on_data_with, on_data_loop, dispatched,
}
use libhp.Base.Closing.{grow-same}

-- hp_rd_read returned without a byte read: the buffer and the client are as given.
pub record Waits {S : Type 0} (err : ℤ) (left : Bytes) (s : S) (r : Option (Done S)) : Type 0 where
  pub done : Done S
  pub returns : r ≡ some done
  pub bytes : done.bytes ≡ 0
  pub i_buf : done.rd.i_buf ≡ left
  pub client : done.client ≡ s
  pub err_same : done.rd.err ≡ err

grow-err : (rd : Rd) → (grow rd).err ≡ rd.err
unfolding grow
grow-err rd = elim (Bool-cases (ltb (length rd.i_buf) rd.buf_max)) [
  | inl a ↦ rw a refl
  | inr a ↦ rw a refl
]

module _ {S : Type 0} (on_data : OnData S) where
  answered-Waits :
      (again : Rd → Os → S → ℕ → Option (Done S)) (a : Answer) (e room : ℕ) (rd : Rd) (os : Os)
      (s : S)
      → a ≡ fails e
      → is_again e ≡ true
      → Waits rd.err rd.i_buf s (
          on_read on_data again
            (read_as a room)
            rd
            (os_after a room
              (record { offset = length rd.i_buf; room = room; buf_max = rd.buf_max })
              os)
            s
            0)
  unfolding on_read read_as os_after
  answered-Waits again a e room rd os s q h =
      simp (q, h)
        (record {
          done = record { bytes = 0; rd = rd; os = os_after (fails e) room _ os; client = s };
          returns = refl;
          bytes = refl;
          i_buf = refl;
          client = refl;
          err_same = refl;
        })

  fill-Waits :
      (again : Rd → Os → S → ℕ → Option (Done S)) (kernel : Kernel) (e : ℕ) (rd : Rd) (os : Os)
      (s : S)
      → kernel os.calls ≡ fails e
      → is_again e ≡ true
      → Waits rd.err rd.i_buf s (fill on_data again kernel rd os s 0)
  unfolding fill
  fill-Waits again kernel e rd os s q h =
      let w =
        answered-Waits again (kernel os.calls) e ((grow rd).buf_max - length (grow rd).i_buf)
          (grow rd) os s q h in
      record {
        done = w.done;
        returns = w.returns;
        bytes = w.bytes;
        i_buf = w.i_buf ∙ (grow-same rd).0;
        client = w.client;
        err_same = w.err_same ∙ grow-err rd;
      }

  rd_read-Waits :
      (fuel : ℕ) (kernel : Kernel) (e x r : ℕ) (xs left : Bytes) (rd : Rd) (os : Os) (s s' : S)
      → rd.i_buf ≡ x ∷ xs
      → on_data (x ∷ xs) s ≡ (pos r, left, s')
      → kernel os.calls ≡ fails e
      → is_again e ≡ true
      → Waits rd.err left s' (rd_read on_data (suc fuel) kernel rd os s)
  unfolding rd_read rd_read_loop parse_round hand_over on_parsed
  rd_read-Waits fuel kernel e x r xs left rd os s s' b o q h =
      let more : (length (x ∷ xs) == 0) ≡ false = ground arith in
      simp (b, more, o)
        (fill-Waits (rd_read_loop on_data fuel kernel) kernel e
          (record rd { allocated = true; i_buf = left }) os s' q h)

-- One message is handed over, whatever is behind it.
on_data-one :
    {W M : Type 0} (fuel n r x : ℕ) (xs left : Bytes) (m : M) (hdl : Hdl W M) (w w' w'' : W)
    (on_parse : Bytes → W → ℤ × Bytes × M × W) (on_dispatch : M → W → ℤ × W)
    → hdl.on_parse ≡ some on_parse
    → hdl.on_dispatch ≡ some on_dispatch
    → on_parse (x ∷ xs) w ≡ (pos (suc n), left, m, w')
    → on_dispatch m w' ≡ (pos r, w'')
    → internal_on_data (suc fuel) hdl (x ∷ xs) (some w) ≡ (pos r, left, some w'')
unfolding internal_on_data or_stuck on_data on_data_with on_data_loop Data.on_parsed dispatched
on_data-one fuel n r x xs left m hdl w w' w'' on_parse on_dispatch p d f g =
    let more : (length (x ∷ xs) == 0) ≡ false = ground arith in simp (p, d, more, f, g) refl

-- With `on_dispatch`, when a connection has bytes buffered that begin with a message, `on_dispatch` returns 0 or
-- more for it, and `read` would block: hp_rd_read hands that one message over and returns 0 with the bytes
-- behind it still in the buffer, and `rd.err` does not change.
pub rd_read-Pending :
    {W M : Type 0} (fuel n r e x : ℕ) (xs left : Bytes) (m : M) (hdl : Hdl W M) (kernel : Kernel)
    (rd : Rd) (os : Os) (w w' w'' : W) (on_parse : Bytes → W → ℤ × Bytes × M × W)
    (on_dispatch : M → W → ℤ × W)
    → hdl.on_parse ≡ some on_parse
    → hdl.on_dispatch ≡ some on_dispatch
    → rd.i_buf ≡ x ∷ xs
    → on_parse (x ∷ xs) w ≡ (pos (suc n), left, m, w')
    → on_dispatch m w' ≡ (pos r, w'')
    → kernel os.calls ≡ fails e
    → is_again e ≡ true
    → Waits rd.err left
        (some w'')
        (rd_read (internal_on_data (suc fuel) hdl) (suc fuel) kernel rd os (some w))
rd_read-Pending fuel n r e x xs left m hdl kernel rd os w w' w'' on_parse on_dispatch p d b f g q
      h =
    rd_read-Waits (internal_on_data (suc fuel) hdl) fuel kernel e x r xs left rd os (some w)
      (some w'') b (on_data-one fuel n r x xs left m hdl w w' w'' on_parse on_dispatch p d f g) q h
