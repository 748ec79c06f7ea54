-- ===== src/Base/Events.antt =====
-- hp_io_t_internal_io_cb of src/hp_io_t.cpp: what an event does to a connection, when the parser or the
-- descriptor fails.
use libhp.Common.{
  ℕ, ◌+◌, ◌<◌, subst, length, Bytes, ◌≡◌, refl, ◌∙◌, inl, inr, Bool-cases, true, false, Option,
  none, some, List, [], ◌∷◌, arith,
}
use libhp.Common.Int.{ℤ, pos, int_eq}
use libhp.Io.Read.{Rd, Os, Done}
use libhp.Epoll.{Ctl}
use libhp.Base.Data.{Hdl, internal_on_data}
use libhp.Base.Conn.{
  Side, Conn, Answers, epollin, epollerr, has_event, on_error, on_errors, unless_code, with_side,
  on_read_done, io_cb,
}
use libhp.Base.Failing.{failing, Failing, rd_read-Failing}
use libhp.Io.Read.Stream.{ends}
use libhp.Base.Drain.{Consumes}
use libhp.Base.Returns.{Shortens, ahead, rd_read-Returns}
use libhp.Base.Release.{call_delete-wr_os}

module _ {K S M : Type 0} (ctl : Ctl K) (hdl : Hdl (Side K S) M) where
  -- The call returns with a code other than 0, and no `writev` happened.
  abbrev pub Unwritten : Conn K S → Option (ℤ × Conn K S) → Type 0
  Unwritten c r =
      (rc : ℤ) × (c' : Conn K S) × (r ≡ some (rc, c'))
      × (int_eq rc (pos 0) ≡ false)
      × (c'.wr_os ≡ c.wr_os)

  on_errors-wr_os : (es : List ℕ) (c : Conn K S) → (on_errors ctl hdl es c).wr_os ≡ c.wr_os
  unfolding on_errors on_error
  on_errors-wr_os [] c = refl
  on_errors-wr_os (e ∷ es) c = on_errors-wr_os es _ ∙ call_delete-wr_os hdl.on_delete (pos e) _

  with_side-Unwritten :
      (w : Side K S) (rd : Rd) (os : Os) (answers : Answers) (events : ℕ) (c : Conn K S)
      → failing rd ≡ true
      → Unwritten c (with_side ctl hdl (some w) rd os answers events c)
  unfolding with_side unless_code
  with_side-Unwritten w rd os answers events c h =
      let bad : int_eq rd.err (pos 0) ≡ false = ground (arith, h) in
      simp (bad) (rd.err, _, refl, bad, on_errors-wr_os rd.reported _)

  read_done-Unwritten :
      (o : Option (Done (Option (Side K S)))) (d : Done (Option (Side K S))) (w : Side K S)
      (answers : Answers) (events : ℕ) (c : Conn K S)
      → o ≡ some d
      → d.client ≡ some w
      → Failing o
      → Unwritten c (on_read_done ctl hdl o answers events c)
  unfolding on_read_done
  read_done-Unwritten o d w answers events c e there h =
      let fails : failing d.rd ≡ true = subst Failing e h in
      rw (e, there) (with_side-Unwritten w d.rd d.os answers events c fails)

  -- For a client without `on_dispatch` whose parser takes bytes off the buffer for each message and never
  -- lengthens it, on a connection whose reader holds an error: on an event with EPOLLIN, where the kernel's
  -- answers bring no bytes after `k` reads, hp_io_t_internal_io_cb returns, with fuel for more than `k` rounds and
  -- for more bytes than are buffered and come; the code is not 0, and it does not call `writev`.
  pub io_cb-Unwritten :
      (fuel k : ℕ) (stale : ℤ) (answers : Answers) (events : ℕ) (c : Conn K S)
      (on_parse : Bytes → Side K S → ℤ × Bytes × M × Side K S)
      → hdl.on_parse ≡ some on_parse
      → hdl.on_dispatch ≡ none
      → Consumes on_parse
      → Shortens on_parse
      → ends (answers.reads (c.rd_os.calls + k)) ≡ true
      → k < fuel
      → length c.rd.i_buf + ahead answers.reads c.rd_os.calls k < fuel
      → has_event events epollin ≡ true
      → failing c.rd ≡ true
      → Unwritten c (io_cb ctl hdl fuel stale answers events c)
  unfolding io_cb on_error
  io_cb-Unwritten fuel k stale answers events c on_parse p no_dispatch takes shortens last rounds
        bytes i h =
      elim (Bool-cases (has_event events epollerr)) [
        | inl e ↦
            rw e (pos epollerr, _, refl, refl, call_delete-wr_os hdl.on_delete (pos epollerr) _)
        | inr e ↦
            let (d, q, (w, there)) =
              rd_read-Returns hdl on_parse shortens fuel k answers.reads c.rd c.rd_os c.side p
                no_dispatch takes last rounds bytes in
            rw (e, i)
              (read_done-Unwritten _ d w answers events c q there (
                rd_read-Failing (internal_on_data fuel hdl) fuel answers.reads c.rd c.rd_os
                  (some c.side) h))
      ]
