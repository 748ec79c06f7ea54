-- ===== src/Base/Lost.antt =====
-- A connection of src/hp_io_t.cpp whose descriptor has no more input is released, once.
use libhp.Common.{
  ℕ, suc, ◌≡◌, refl, sym, ap, ◌∙◌, subst, true, false, Option, some, [], ◌∷◌, ◌++◌, arith,
}
use libhp.Common.Int.{ℤ, pos, int_eq}
use libhp.Io.Read.{Done}
use libhp.Epoll.{Ctl}
use libhp.Epoll.Table.{IsEpoll}
use libhp.Base.Data.{Hdl, internal_on_data}
use libhp.Base.Conn.{
  Side, Conn, Answers, epollin, epollerr, has_event, call_delete, on_error, on_errors, unless_code,
  with_side, on_read_done, io_cb,
}
use libhp.Base.Release.{call_delete-wr_os, IsSound, Released, on_error-Released}
use libhp.Base.Closing.{Ends, reported_code, rd_read-Ended}

-- The callback returns the code, and `on_delete` is the last that was called, on what is left. No `writev`
-- was called.
pub record Lost {K S M : Type 0} (registered : K → ℤ → Option ℕ) (hdl : Hdl (Side K S) M)
    (c : Conn K S) (e : ℕ) (r : Option (ℤ × Conn K S)) : Type 0 where
  pub last : Conn K S
  pub returns :
      r ≡ some (pos (reported_code e), call_delete hdl.on_delete (pos (reported_code e)) last)
  pub released : Released registered c.fd c.side last.side
  pub buffer_freed : last.rd.allocated ≡ false
  pub unwritten : last.wr_os ≡ c.wr_os

module _ {K S M : Type 0} (ctl : Ctl K) (registered : K → ℤ → Option ℕ) (hdl : Hdl (Side K S) M)
    (law : IsEpoll ctl registered) where
  reported-Lost :
      (e : ℕ) (c c' : Conn K S)
      → IsSound registered c.side
      → c'.fd ≡ c.fd
      → c'.side ≡ c.side
      → c'.wr_os ≡ c.wr_os
      → Lost registered hdl c e
          (some (pos (reported_code e), on_errors ctl hdl (reported_code e ∷ []) c'))
  unfolding on_errors on_error
  reported-Lost e c c' h same_fd same_side same_wr =
      let (last, q, released, freed) =
        on_error-Released ctl registered hdl (pos (reported_code e)) c' law
          (subst (IsSound registered) (sym same_side) h) in
      record {
        last = last;
        returns = ap (λ a. some (pos (reported_code e), a)) q;
        released =
            subst (λ s. Released registered c.fd s last.side) same_side
              (subst (λ fd. Released registered fd c'.side last.side) same_fd released);
        buffer_freed = freed;
        unwritten =
            sym (call_delete-wr_os hdl.on_delete (pos (reported_code e)) last)
            ∙ sym (ap (λ a. a.wr_os) q)
            ∙ call_delete-wr_os hdl.on_delete (pos (reported_code e)) _
            ∙ same_wr;
      }

  code-nonzero : (e : ℕ) → int_eq (pos (reported_code e)) (pos 0) ≡ false
  code-nonzero e = ground arith

  done-Lost :
      (answers : Answers) (events e : ℕ) (c : Conn K S) (d : Done (Option (Side K S)))
      → IsSound registered c.side
      → d.client ≡ some c.side
      → d.rd.err ≡ pos (reported_code e)
      → d.rd.reported ≡ reported_code e ∷ []
      → Lost registered hdl c e (on_read_done ctl hdl (some d) answers events c)
  unfolding on_read_done with_side unless_code
  done-Lost answers events e c d h client err reported =
      simp (client, err, reported, code-nonzero e) (reported-Lost e c _ h refl refl refl)

  -- With EPOLLIN and without EPOLLERR, on a connection whose reader has nothing buffered and whose table and
  -- kernel are sound: if `read` is at the end of the input, or fails for another reason than EINTR or
  -- EAGAIN, then hp_io_t_internal_io_cb returns the `errno`, or EIO if that is 0, and writes nothing. It has called
  -- `on_delete` once, with that code, and before that the connection was released in full.
  pub io_cb-Lost :
      (fuel : ℕ) (stale : ℤ) (answers : Answers) (events e : ℕ) (c : Conn K S)
      → has_event events epollin ≡ true
      → has_event events epollerr ≡ false
      → c.rd.i_buf ≡ []
      → c.rd.has_read_error ≡ true
      → c.rd.reported ≡ []
      → Ends c.rd_os.errno (answers.reads c.rd_os.calls) e
      → IsSound registered c.side
      → Lost registered hdl c e (io_cb ctl hdl (suc fuel) stale answers events c)
  unfolding io_cb
  io_cb-Lost fuel stale answers events e c i no_err b h fresh ends sound =
      let r =
        rd_read-Ended (internal_on_data (suc fuel) hdl) fuel e answers.reads c.rd c.rd_os
          (some c.side) b h ends in
      rw (no_err, i, r.returns)
        (done-Lost answers events e c r.done sound r.client r.err
          (r.reported ∙ ap (λ xs. xs ++ reported_code e ∷ []) fresh))
