-- ===== src/Base/Refuse.antt =====
-- A parse failure in src/hp_io_t.cpp: hp_rd_read stops with the code, and the connection stays as it is.
use libhp.Common.{
  ℕ, suc, ◌-◌, ◌≡◌, refl, ap, true, false, Option, some, List, [], ◌∷◌, arith, ◌==◌, ltb, length,
  take, Bytes,
}
use libhp.Common.Int.{ℤ, negsuc}
use libhp.Io.Read.{
  Rd, Os, Kernel, OnData, Done, gives, read_as, hand_over, on_read, fill, grow, on_parsed,
  parse_round, rd_read_loop, rd_read,
}
use libhp.Epoll.{Ctl}
use libhp.Base.Data
use libhp.Base.Data.{Hdl, internal_on_data, or_stuck, on_data, on_data_with, on_data_loop}
use libhp.Base.Conn.{
  Side, Conn, Answers, epollin, epollerr, has_event, on_errors, unless_code, with_side,
  on_read_done, io_cb,
}
use libhp.Base.Closing.{parse_round-empty}

-- hp_rd_read returned after a failure of its callback.
record Stopped {S : Type 0} (before : List ℕ) (left : Bytes) (s' : S) (n : ℕ) (r : Option (Done S))
    : Type 0 where
  done : Done S
  returns : r ≡ some done
  client : done.client ≡ s'
  err : done.rd.err ≡ negsuc n
  i_buf : done.rd.i_buf ≡ left
  reported : done.rd.reported ≡ before
  allocated : done.rd.allocated ≡ true

grow-room : (rd : Rd) → ltb (length rd.i_buf) rd.buf_max ≡ true → grow rd ≡ rd
unfolding grow
grow-room rd h = simp (h) refl

module _ {S : Type 0} (on_data : OnData S) where
  again-Stopped :
      (fuel n : ℕ) (kernel : Kernel) (rd : Rd) (os : Os) (s s' : S) (count : ℕ) (x : ℕ)
      (xs left : Bytes)
      → rd.i_buf ≡ x ∷ xs
      → rd.allocated ≡ true
      → on_data (x ∷ xs) s ≡ (negsuc n, left, s')
      → Stopped rd.reported left s' n (rd_read_loop on_data (suc fuel) kernel rd os s count)
  unfolding rd_read_loop parse_round hand_over on_parsed
  again-Stopped fuel n kernel rd os s s' count x xs left b a e =
      let more : (length (x ∷ xs) == 0) ≡ false = ground arith in
      simp (b, more, e)
        (record {
          done = record {
            bytes = count;
            rd = record rd { i_buf = left; err = negsuc n };
            os = os;
            client = s';
          };
          returns = refl;
          client = refl;
          err = refl;
          i_buf = refl;
          reported = refl;
          allocated = a;
        })

  fill-Stopped :
      (fuel n : ℕ) (kernel : Kernel) (rd : Rd) (os : Os) (s s' : S) (x : ℕ) (xs left : Bytes)
      (r : ℕ)
      → rd.i_buf ≡ []
      → rd.allocated ≡ true
      → rd.buf_max ≡ suc r
      → kernel os.calls ≡ gives (x ∷ xs)
      → on_data (x ∷ take r xs) s ≡ (negsuc n, left, s')
      → Stopped rd.reported left s' n
          (fill on_data (rd_read_loop on_data (suc fuel) kernel) kernel rd os s 0)
  unfolding fill on_read read_as
  fill-Stopped fuel n kernel rd os s s' x xs left r b a m k e =
      let has_room : ltb (length rd.i_buf) rd.buf_max ≡ true = ground (arith, ap length b, m) in
      let shown : (suc r - 0) ≡ suc r = omega arith in
      rw (grow-room rd has_room)
        (simp (b, m, k, shown) (again-Stopped fuel n kernel _ _ s s' _ x (take r xs) left refl a e))

  -- Bytes arrive that the callback refuses.
  rd_read-Stopped :
      (fuel n : ℕ) (kernel : Kernel) (rd : Rd) (os : Os) (s s' : S) (x : ℕ) (xs left : Bytes)
      (r : ℕ)
      → rd.i_buf ≡ []
      → rd.buf_max ≡ suc r
      → kernel os.calls ≡ gives (x ∷ xs)
      → on_data (x ∷ take r xs) s ≡ (negsuc n, left, s')
      → Stopped rd.reported left s' n (rd_read on_data (suc (suc fuel)) kernel rd os s)
  unfolding rd_read rd_read_loop
  rd_read-Stopped fuel n kernel rd os s s' x xs left r b m k e =
      rw
        (parse_round-empty on_data (fill on_data (rd_read_loop on_data (suc fuel) kernel) kernel)
          (record rd { allocated = true }) os s 0 b)
        (fill-Stopped fuel n kernel (record rd { i_buf = []; allocated = true }) os s s' x xs left r
          refl refl m k e)

-- The code, and the connection after a parse failure.
pub record Refused {K S : Type 0} (c : Conn K S) (s' : Side K S) (n : ℕ) (r : Option (ℤ × Conn K S))
    : Type 0 where
  pub after : Conn K S
  pub returns : r ≡ some (negsuc n, after)
  pub side : after.side ≡ s'
  pub fd : after.fd ≡ c.fd
  pub dropped : after.rd.i_buf ≡ []
  pub err : after.rd.err ≡ negsuc n
  pub buffer : after.rd.allocated ≡ true
  pub unwritten : after.wr_os ≡ c.wr_os

module _ {K S M : Type 0} (ctl : Ctl K) (hdl : Hdl (Side K S) M) where
  done-Refused :
      (answers : Answers) (events n : ℕ) (c : Conn K S) (s' : Side K S)
      (o : Option (Done (Option (Side K S))))
      → c.rd.reported ≡ []
      → Stopped c.rd.reported [] (some s') n o
      → Refused c s' n (on_read_done ctl hdl o answers events c)
  unfolding on_read_done with_side unless_code on_errors
  done-Refused answers events n c s' o fresh st = rw st.returns (
      simp (st.client, st.err, st.reported, fresh)
        (record {
          after = record c {
            rd = record st.done.rd { reported = []; err = negsuc n };
            rd_os = st.done.os;
            side = s';
          };
          returns = refl;
          side = refl;
          fd = refl;
          dropped = st.i_buf;
          err = refl;
          buffer = st.allocated;
          unwritten = refl;
        }))

  on_data-refused :
      (fuel x : ℕ) (xs left : Bytes) (n : ℕ) (m : M) (s s' : Side K S)
      (on_parse : Bytes → Side K S → ℤ × Bytes × M × Side K S)
      → hdl.on_parse ≡ some on_parse
      → on_parse (x ∷ xs) s ≡ (negsuc n, left, m, s')
      → internal_on_data (suc fuel) hdl (x ∷ xs) (some s) ≡ (negsuc n, [], some s')
  unfolding internal_on_data or_stuck on_data on_data_with on_data_loop Data.on_parsed
  on_data-refused fuel x xs left n m s s' on_parse p e =
      let more : (length (x ∷ xs) == 0) ≡ false = ground arith in simp (p, more, e) refl

  -- With EPOLLIN and without EPOLLERR, on a connection whose reader has room and nothing buffered: if `read` gives
  -- bytes, and `on_parse` fails on those that fit, then hp_io_t_internal_io_cb returns the code of `on_parse` and
  -- drops the bytes. It writes nothing and releases nothing: all but the reader is as `on_parse` left it.
  pub io_cb-Refused :
      (fuel : ℕ) (stale : ℤ) (answers : Answers) (events room n x : ℕ) (xs left : Bytes) (m : M)
      (c : Conn K S) (s' : Side K S) (on_parse : Bytes → Side K S → ℤ × Bytes × M × Side K S)
      → has_event events epollin ≡ true
      → has_event events epollerr ≡ false
      → c.rd.i_buf ≡ []
      → c.rd.reported ≡ []
      → c.rd.buf_max ≡ suc room
      → answers.reads c.rd_os.calls ≡ gives (x ∷ xs)
      → hdl.on_parse ≡ some on_parse
      → on_parse (x ∷ take room xs) c.side ≡ (negsuc n, left, m, s')
      → Refused c s' n (io_cb ctl hdl (suc (suc fuel)) stale answers events c)
  unfolding io_cb
  io_cb-Refused fuel stale answers events room n x xs left m c s' on_parse i no_err b fresh max k p
        e =
      rw (no_err, i)
        (done-Refused answers events n c s' _ fresh (
          rd_read-Stopped (internal_on_data (suc (suc fuel)) hdl) fuel n answers.reads c.rd c.rd_os
            (some c.side) (some s') x xs [] room b max k
            (on_data-refused (suc fuel) x (take room xs) left n m c.side s' on_parse p e)))
