-- ===== src/Base/Drain.antt =====
-- hp_io_t_on_data of src/hp_io_t.cpp without `on_dispatch`: it parses to the end of what it has.
use libhp.Common.{
  ℕ, zero, suc, ◌<◌, ◌≡◌, ◌≢◌, refl, ap, Option, none, some, [], false, ◌∷◌, ◌==◌, arith, length,
  Bytes,
}
use libhp.Common.Int.{ℤ, pos, negsuc}
use libhp.Base.Data.{Hdl, on_parsed, dispatched, on_data_loop, on_data_with, on_data}

module _ {W M : Type 0} (on_parse : Bytes → W → ℤ × Bytes × M × W) where
  -- The parser took messages off the front of the buffer, one after the other.
  pub data Parses : Bytes → W → Bytes → W → Type 0 where
    done : {buf : Bytes} {w : W} → Parses buf w buf w
    message :
        {buf buf' buf'' : Bytes} {w w' w'' : W} {m : M} (n : ℕ)
        → buf ≢ []
        → on_parse buf w ≡ (pos (suc n), buf', m, w')
        → Parses buf' w' buf'' w''
        → Parses buf w buf'' w''

  -- Where the loop stops, with the code and the bytes that it leaves: nothing is left, the parser needs
  -- more data, or it failed, which drops the bytes.
  pub data Stops (buf : Bytes) (w : W) : ℤ × Bytes × W → Type 0 where
    empty : buf ≡ [] → Stops buf w (pos 0, [], w)
    needs_more :
        {buf' : Bytes} {w' : W} (m : M)
        → buf ≢ []
        → on_parse buf w ≡ (pos 0, buf', m, w')
        → Stops buf w (pos 0, buf', w')
    fails :
        {buf' : Bytes} {w' : W} (m : M) (n : ℕ)
        → buf ≢ []
        → on_parse buf w ≡ (negsuc n, buf', m, w')
        → Stops buf w (negsuc n, [], w')

  -- The call returns, after some messages.
  pub record Drained (buf : Bytes) (w : W) (r : Option (ℤ × Bytes × W)) : Type 0 where
    pub last : Bytes
    pub state : W
    pub messages : Parses buf w last state
    pub result : ℤ × Bytes × W
    pub returns : r ≡ some result
    pub stops : Stops last state result

  -- A message takes bytes.
  abbrev pub Consumes : Type 0
  Consumes =
      (buf : Bytes) (w : W) (n : ℕ)
      → (on_parse buf w).0 ≡ pos (suc n)
      → length (on_parse buf w).1 < length buf

  some_bytes : (b : ℕ) (bs : Bytes) → b ∷ bs ≢ []
  some_bytes b bs e = ground (arith, ap length e)

  parsed-Drained :
      (fuel : ℕ) (buf : Bytes) (w : W) (r : ℤ × Bytes × M × W)
      → buf ≢ []
      → on_parse buf w ≡ r
      → ((n : ℕ) → r.0 ≡ pos (suc n) → Drained r.1 r.3 (on_data_loop fuel on_parse none r.1 r.3))
      → Drained buf w (on_parsed (on_data_loop fuel on_parse none) none r)
  unfolding on_parsed dispatched
  parsed-Drained fuel buf w (negsuc n, buf', m, w') ne e rest = record {
    last = buf;
    state = w;
    messages = done;
    result = (negsuc n, [], w');
    returns = refl;
    stops = fails m n ne e;
  }
  parsed-Drained fuel buf w (pos zero, buf', m, w') ne e rest = record {
    last = buf;
    state = w;
    messages = done;
    result = (pos 0, buf', w');
    returns = refl;
    stops = needs_more m ne e;
  }
  parsed-Drained fuel buf w (pos (suc n), buf', m, w') ne e rest =
      let d = rest n refl in
      record {
        last = d.last;
        state = d.state;
        messages = message n ne e d.messages;
        result = d.result;
        returns = d.returns;
        stops = d.stops;
      }

  loop-Drained :
      (fuel : ℕ) (buf : Bytes) (w : W)
      → Consumes
      → length buf < fuel
      → Drained buf w (on_data_loop fuel on_parse none buf w)
  unfolding on_data_loop
  loop-Drained zero buf w c l = ground arith
  loop-Drained (suc fuel) [] w c l = record {
    last = [];
    state = w;
    messages = done;
    result = (pos 0, [], w);
    returns = refl;
    stops = empty refl;
  }
  loop-Drained (suc fuel) (b ∷ bs) w c l =
      let more : (length (b ∷ bs) == 0) ≡ false = ground arith in
      rw more (
        parsed-Drained fuel (b ∷ bs) w (on_parse (b ∷ bs) w) (some_bytes b bs) refl (λ n e.
          loop-Drained fuel (on_parse (b ∷ bs) w).1 (on_parse (b ∷ bs) w).3 c
            (omega (arith, c (b ∷ bs) w n e))))

-- For a client without `on_dispatch` whose parser takes bytes off the buffer for each message: one round
-- for each byte and one more are enough for hp_io_t_on_data to return. It takes messages off the front, one after
-- the other, until no byte is left, with the code 0; until the parser needs more data, with 0 and the
-- bytes that it left; or until it fails, with its code, and drops the bytes.
pub on_data-Drained :
    {W M : Type 0} (fuel : ℕ) (hdl : Hdl W M) (on_parse : Bytes → W → ℤ × Bytes × M × W)
    (buf : Bytes) (w : W)
    → hdl.on_parse ≡ some on_parse
    → hdl.on_dispatch ≡ none
    → Consumes on_parse
    → length buf < fuel
    → Drained on_parse buf w (on_data fuel hdl buf w)
unfolding on_data on_data_with
on_data-Drained fuel hdl on_parse buf w p d c l = simp (p, d) (loop-Drained on_parse fuel buf w c l)
