-- ===== src/Base/Accept.antt =====
-- hp_io_t_internal_on_accept of src/hp_io_t.cpp: the connections of a listening socket. `accept` and
-- `hp_tcp_nodelay` answer as a parameter says.
use libhp.Common.{ℕ, zero, suc, ◌+◌, Option, none, some, List, [], ◌∷◌, ◌++◌, if◌then◌else◌}
use libhp.Common.Int.{ℤ, pos, negsuc}
use libhp.Io.Os.{is_again}
use libhp.Base.Data.{Hdl}

-- A listening descriptor: how many calls of `accept` there were, the descriptors that they gave, those
-- that were closed, those that `on_new` took, and the client's state.
pub record Listener (W : Type 0) : Type 0 where
  pub calls : ℕ
  pub accepted : List ℤ
  pub closed : List ℤ
  pub taken : List ℤ
  pub client : W

-- How the kernel answers an `accept`: with a connection, for which hp_tcp_nodelay has a result, or with
-- an `errno`.
pub data Accepted : Type 0 where
  gives : ℤ → ℤ → Accepted
  fails : ℕ → Accepted

module _ {W : Type 0} where
  -- Whether `on_new` took the connection; it is closed if not.
  unfoldable pub took : ℤ → Option ℕ × W → Listener W → Listener W
  took fd (some nio, w) l = record l { taken = l.taken ++ fd ∷ []; client = w }
  took fd (none, w) l = record l { closed = l.closed ++ fd ∷ []; client = w }

  unfoldable pub offer : Option (ℤ → W → Option ℕ × W) → ℤ → Listener W → Listener W
  unfolding took
  offer (some on_new) fd l = took fd (on_new fd l.client) l
  offer none fd l = took fd (none, l.client) l

  -- A new connection: `hp_tcp_nodelay` first.
  unfoldable pub on_connection : Option (ℤ → W → Option ℕ × W) → ℤ → ℤ → Listener W → Listener W
  unfolding offer
  on_connection on_new fd (negsuc n) l = record l { closed = l.closed ++ fd ∷ [] }
  on_connection on_new fd (pos n) l = offer on_new fd l

  -- What `accept` returned.
  unfoldable pub on_accepted :
      (Listener W → Option (ℤ × Listener W))
      → Option (ℤ → W → Option ℕ × W)
      → Accepted
      → Listener W
      → Option (ℤ × Listener W)
  unfolding on_connection
  on_accepted again on_new (fails e) l =
      some (if is_again e then pos 0 else negsuc 0, record l { calls = l.calls + 1 })
  on_accepted again on_new (gives fd nodelay) l = again (
      on_connection on_new fd nodelay
        (record l { calls = l.calls + 1; accepted = l.accepted ++ fd ∷ [] }))

  -- hp_io_t_internal_on_accept, on fuel.
  unfoldable pub on_accept :
      {M : Type 0} → ℕ → (ℕ → Accepted) → Hdl W M → Listener W → Option (ℤ × Listener W)
  unfolding on_accepted
  on_accept zero kernel hdl l = none
  on_accept (suc fuel) kernel hdl l =
      on_accepted (on_accept fuel kernel hdl) hdl.on_new (kernel l.calls) l

  -- hp_io_t_internal_on_loop
  unfoldable pub internal_on_loop : Option (W → ℤ × W) → W → ℤ × W
  internal_on_loop (some on_loop) w = on_loop w
  internal_on_loop none w = (pos 0, w)
