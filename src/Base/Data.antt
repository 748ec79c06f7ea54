-- ===== src/Base/Data.antt =====
-- hp_io_t_on_data of src/hp_io_t.cpp: the bytes of a connection go to the client's parser.
use libhp.Common.{ℕ, zero, suc, Option, none, some, [], ◌==◌, if◌then◌else◌, length, Bytes}
use libhp.Common.Int.{ℤ, pos, negsuc}
use libhp.Io.Read.{OnData}

-- `struct hp_iohdl`: a function pointer is `none` if it is NULL. `W` is the state that a callback may
-- change, and `M` the header and the body of a message. The pointer of a new hp_io_t is `none` for NULL.
pub record Hdl (W M : Type 0) : Type 0 where
  pub on_new : Option (ℤ → W → Option ℕ × W)
  pub on_parse : Option (Bytes → W → ℤ × Bytes × M × W)
  pub on_dispatch : Option (M → W → ℤ × W)
  pub on_loop : Option (W → ℤ × W)
  pub on_delete : Option (ℤ → W → W)

-- A callback whose loop did not end has no state.
unfoldable pub or_stuck : {W : Type 0} → Option (ℤ × Bytes × W) → ℤ × Bytes × Option W
or_stuck none = (negsuc 0, [], none)
or_stuck (some (rc, buf, w)) = (rc, buf, some w)

module _ {W M : Type 0} where
  -- A message was found: with `on_dispatch` its result ends the call.
  unfoldable pub dispatched :
      (Bytes → W → Option (ℤ × Bytes × W))
      → Option (M → W → ℤ × W)
      → Bytes
      → M
      → W
      → Option (ℤ × Bytes × W)
  dispatched again (some on_dispatch) buf m w = some ((on_dispatch m w).0, buf, (on_dispatch m w).1)
  dispatched again none buf m w = again buf w

  -- What `on_parse` returned.
  unfoldable pub on_parsed :
      (Bytes → W → Option (ℤ × Bytes × W))
      → Option (M → W → ℤ × W)
      → ℤ × Bytes × M × W
      → Option (ℤ × Bytes × W)
  unfolding dispatched
  on_parsed again on_dispatch (negsuc n, buf, m, w) = some (negsuc n, [], w)
  on_parsed again on_dispatch (pos zero, buf, m, w) = some (pos 0, buf, w)
  on_parsed again on_dispatch (pos (suc n), buf, m, w) = dispatched again on_dispatch buf m w

  -- The loop of hp_io_t_on_data, while there are bytes.
  unfoldable pub on_data_loop :
      ℕ
      → (Bytes → W → ℤ × Bytes × M × W)
      → Option (M → W → ℤ × W)
      → Bytes
      → W
      → Option (ℤ × Bytes × W)
  unfolding on_parsed
  on_data_loop zero on_parse on_dispatch buf w = none
  on_data_loop (suc fuel) on_parse on_dispatch buf w =
      if length buf == 0
      then some (pos 0, buf, w)
      else on_parsed (on_data_loop fuel on_parse on_dispatch) on_dispatch (on_parse buf w)

  unfoldable pub on_data_with :
      ℕ
      → Option (Bytes → W → ℤ × Bytes × M × W)
      → Option (M → W → ℤ × W)
      → Bytes
      → W
      → Option (ℤ × Bytes × W)
  unfolding on_data_loop
  on_data_with fuel none on_dispatch buf w = some (pos 0, [], w)
  on_data_with fuel (some on_parse) on_dispatch buf w = on_data_loop fuel on_parse on_dispatch buf w

  -- hp_io_t_on_data: without `on_parse` the bytes are dropped.
  unfoldable pub on_data : ℕ → Hdl W M → Bytes → W → Option (ℤ × Bytes × W)
  unfolding on_data_with
  on_data fuel hdl buf w = on_data_with fuel hdl.on_parse hdl.on_dispatch buf w

  -- hp_io_t_internal_on_data as the callback of the reader.
  unfoldable pub internal_on_data : ℕ → Hdl W M → OnData (Option W)
  unfolding on_data or_stuck
  internal_on_data fuel hdl buf none = (negsuc 0, [], none)
  internal_on_data fuel hdl buf (some w) = or_stuck (on_data fuel hdl buf w)
