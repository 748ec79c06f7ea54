-- ===== src/Base/Closing.antt =====
-- The end of a connection in src/hp_io_t.cpp: hp_rd_read reports the end of the input or an error, and
-- hp_io_t_internal_on_rerror releases the connection.
use libhp.Common.{
  ℕ, suc, ◌≡◌, refl, ◌∙◌, subst, inl, inr, Bool-cases, true, false, Option, some, List, [], ◌∷◌,
  ◌++◌, ◌==◌, ltb, length, if◌then◌else◌,
}
use libhp.Common.Int.{pos}
use libhp.Io.Os.{eio, is_again}
use libhp.Io.Read.{
  Rd, Os, Kernel, OnData, Answer, Done, gives, fails, read_as, os_after, hand_over, stop_reading,
  on_read, fill, grow, on_parsed, parse_round, rd_read_loop, rd_read,
}

-- How `read` tells that there will be no more: the end of the input, or an error to report. `errno`
-- is as it was before.
pub data Ends (errno : ℕ) : Answer → ℕ → Type 0 where
  at_end : Ends errno (gives []) errno
  failed : (e : ℕ) → is_again e ≡ false → Ends errno (fails e) e

-- The code that is reported, never 0.
abbrev pub reported_code : ℕ → ℕ
reported_code e = if e == 0 then eio else e

pub grow-same :
    (rd : Rd)
    → ((grow rd).i_buf ≡ rd.i_buf)
      × ((grow rd).has_read_error ≡ rd.has_read_error)
      × ((grow rd).reported ≡ rd.reported)
unfolding grow
grow-same rd = elim (Bool-cases (ltb (length rd.i_buf) rd.buf_max)) [
  | inl a ↦ rw a (refl, refl, refl)
  | inr a ↦ rw a (refl, refl, refl)
]

module _ {S : Type 0} (on_data : OnData S) where
  pub record Ended (before : List ℕ) (s : S) (e : ℕ) (r : Option (Done S)) : Type 0 where
    pub done : Done S
    pub returns : r ≡ some done
    pub client : done.client ≡ s
    pub err : done.rd.err ≡ pos (reported_code e)
    pub reported : done.rd.reported ≡ before ++ reported_code e ∷ []

  stops-Ended :
      (rd : Rd) (os : Os) (s : S) (n : ℕ)
      → rd.i_buf ≡ []
      → rd.has_read_error ≡ true
      → Ended rd.reported s os.errno (some (stop_reading on_data rd os s n))
  unfolding stop_reading hand_over
  stops-Ended rd os s n b h = record {
    done = stop_reading on_data rd os s n;
    returns = refl;
    client = simp (b) refl;
    err = refl;
    reported = simp (h) refl;
  }

  answered-Ended :
      (again : Rd → Os → S → ℕ → Option (Done S)) (a : Answer) (room : ℕ) (rd : Rd) (os : Os)
      (s : S) (n e : ℕ)
      → Ends os.errno a e
      → rd.i_buf ≡ []
      → rd.has_read_error ≡ true
      → Ended rd.reported s e (
          on_read on_data again
            (read_as a room)
            rd
            (os_after a room
              (record { offset = length rd.i_buf; room = room; buf_max = rd.buf_max })
              os)
            s
            n)
  unfolding on_read read_as os_after
  answered-Ended again (gives []) room rd os s n e at_end b h = stops-Ended rd _ s n b h
  answered-Ended again (gives (x ∷ xs)) room rd os s n e q b h = elim q [ ]
  answered-Ended again (fails e) room rd os s n _ (failed _ fatal) b h =
      rw fatal (stops-Ended rd _ s n b h)

  pub parse_round-empty :
      (next : Rd → Os → S → ℕ → Option (Done S)) (rd : Rd) (os : Os) (s : S) (n : ℕ)
      → rd.i_buf ≡ []
      → parse_round on_data next rd os s n ≡ next (record rd { i_buf = [] }) os s n
  unfolding parse_round on_parsed hand_over
  parse_round-empty next rd os s n b = simp (b) refl

  fill-Ended :
      (again : Rd → Os → S → ℕ → Option (Done S)) (kernel : Kernel) (rd : Rd) (os : Os) (s : S)
      (n e : ℕ)
      → Ends os.errno (kernel os.calls) e
      → rd.i_buf ≡ []
      → rd.has_read_error ≡ true
      → Ended rd.reported s e (fill on_data again kernel rd os s n)
  unfolding fill
  fill-Ended again kernel rd os s n e ends b h =
      let (same_buf, same_has, same_reported) = grow-same rd in
      subst (λ r. Ended r s e (fill on_data again kernel rd os s n)) same_reported
        (answered-Ended again (kernel os.calls) _ (grow rd) os s n e ends (same_buf ∙ b)
          (same_has ∙ h))

  -- When there is no more, and nothing is buffered, hp_rd_read returns with the code, reported once.
  pub rd_read-Ended :
      (fuel e : ℕ) (kernel : Kernel) (rd : Rd) (os : Os) (s : S)
      → rd.i_buf ≡ []
      → rd.has_read_error ≡ true
      → Ends os.errno (kernel os.calls) e
      → Ended rd.reported s e (rd_read on_data (suc fuel) kernel rd os s)
  unfolding rd_read rd_read_loop
  rd_read-Ended fuel e kernel rd os s b h ends =
      rw
        (parse_round-empty (fill on_data (rd_read_loop on_data fuel kernel) kernel)
          (record rd { allocated = true }) os s 0 b)
        (fill-Ended (rd_read_loop on_data fuel kernel) kernel
          (record rd { i_buf = []; allocated = true }) os s 0 e ends refl h)
