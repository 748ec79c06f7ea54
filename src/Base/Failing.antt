-- ===== src/Base/Failing.antt =====
-- hp_rd_read of src/hp_io.c never takes an error of the reader back.
use libhp.Common.{
  ℕ, zero, suc, ◌≡◌, refl, ◌∙◌, inl, inr, Bool-cases, Bool, true, Option, none, some, not, ltb,
  arith, length,
}
use libhp.Common.Int.{ℤ, pos, negsuc, int_eq}
use libhp.Io.Os.{is_again}
use libhp.Io.Read.{
  Rd, Os, Kernel, OnData, Done, Got, got, eof, minus_one, hand_over, stop_reading, on_read, fill,
  grow, on_parsed, parse_round, rd_read_loop, rd_read,
}

abbrev pub failing : Rd → Bool
failing rd = not (int_eq rd.err (pos 0))

abbrev pub Failing : {S : Type 0} → Option (Done S) → Type 0
Failing none = Unit
Failing (some d) = failing d.rd ≡ true

-- An error of the reader stays: no later call of hp_rd_read takes it back.
module _ {S : Type 0} (on_data : OnData S) where
  abbrev KeepsFailing : (Rd → Os → S → ℕ → Option (Done S)) → Type 0
  KeepsFailing next =
      (rd : Rd) (os : Os) (s : S) (n : ℕ) → failing rd ≡ true → Failing (next rd os s n)

  stop_reading-failing :
      (rd : Rd) (os : Os) (s : S) (n : ℕ) → failing (stop_reading on_data rd os s n).rd ≡ true
  unfolding stop_reading
  stop_reading-failing rd os s n = ground arith

  on_read-KeepsFailing :
      (again : Rd → Os → S → ℕ → Option (Done S)) (g : Got)
      → KeepsFailing again
      → KeepsFailing (on_read on_data again g)
  unfolding on_read
  on_read-KeepsFailing again (got b bs) h rd os s n e = h _ os s _ e
  on_read-KeepsFailing again eof h rd os s n e = stop_reading-failing rd os s n
  on_read-KeepsFailing again minus_one h rd os s n e = elim (Bool-cases (is_again os.errno)) [
    | inl a ↦ rw a e
    | inr a ↦ rw a (stop_reading-failing rd os s n)
  ]

  grow-failing : (rd : Rd) → failing (grow rd) ≡ failing rd
  unfolding grow
  grow-failing rd = elim (Bool-cases (ltb (length rd.i_buf) rd.buf_max)) [
    | inl a ↦ rw a refl
    | inr a ↦ rw a refl
  ]

  parsed-KeepsFailing :
      (next : Rd → Os → S → ℕ → Option (Done S)) (rc : ℤ)
      → KeepsFailing next
      → KeepsFailing (on_parsed on_data next rc)
  unfolding on_parsed
  parsed-KeepsFailing next (pos n) h rd os s count e = h rd os s count e
  parsed-KeepsFailing next (negsuc n) h rd os s count e = refl

  loop-KeepsFailing : (fuel : ℕ) (kernel : Kernel) → KeepsFailing (rd_read_loop on_data fuel kernel)
  unfolding rd_read_loop parse_round fill
  loop-KeepsFailing zero kernel rd os s n e = tt
  loop-KeepsFailing (suc fuel) kernel rd os s n e =
      parsed-KeepsFailing (fill on_data (rd_read_loop on_data fuel kernel) kernel)
        (hand_over on_data rd s).0
        (λ rd' os' s' n' e'.
          on_read-KeepsFailing (rd_read_loop on_data fuel kernel) _ (loop-KeepsFailing fuel kernel)
            (grow rd') _ s' n' (grow-failing rd' ∙ e'))
        _ os _ n e

  pub rd_read-Failing :
      (fuel : ℕ) (kernel : Kernel) (rd : Rd) (os : Os) (s : S)
      → failing rd ≡ true
      → Failing (rd_read on_data fuel kernel rd os s)
  unfolding rd_read
  rd_read-Failing fuel kernel rd os s e = loop-KeepsFailing fuel kernel _ os s 0 e
