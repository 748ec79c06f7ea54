-- ===== src/Epoll/Run.antt =====
-- hp_epoll_run of src/hp_epoll.c. The answers of `epoll_wait` and the client's callbacks are parameters:
-- a callback may change the table and the client's own state.
pub mod Pass
use libhp.Common.{
  ℕ, zero, suc, ◌+◌, ◌≤◌, Bool, true, false, Option, none, some, List, [], ◌∷◌, ltb, ◌==◌,
  if◌then◌else◌,
}
use libhp.Common.Int.{ℤ, pos, negsuc, int_eq}
use libhp.Io.Os.{is_again}
use libhp.Epoll.{Epolld, Epoll, in_out}

-- An event that `epoll_wait` writes: the events, and the pointer that was registered.
pub record Event : Type 0 where
  pub events : ℕ
  pub ptr : ℕ

-- How `epoll_wait` answers: with events, or with an `errno`.
pub data Answer : Type 0 where
  ready : List Event → Answer
  failed : ℕ → Answer

-- The client's functions, by their addresses. What `fn` returns is not used.
pub record Client (W : Type 0) : Type 0 where
  pub before_wait : ℕ → Epoll → W → ℤ × Epoll × W
  pub fn : ℕ → Event → ℕ → Epoll → W → Epoll × W
  pub on_loop : ℕ → ℕ → Epoll → W → Epoll × W

-- Goes on with what a step left, unless it has no outcome.
unfoldable pub next_with : {W R : Type 0} → (Epoll → W → Option R) → Option (Epoll × W) → Option R
next_with k (some (epo, w)) = k epo w
next_with k none = none

module _ {W : Type 0} (client : Client W) where
  unfoldable pub call_fn : Option ℕ → Event → ℕ → Epoll → W → Epoll × W
  call_fn (some f) ev arg epo w = client.fn f ev arg epo w
  call_fn none ev arg epo w = (epo, w)

  -- The node's callback; `none` where the node is not allocated.
  unfoldable pub call_node : Option Epolld → Event → Epoll → W → Option (Epoll × W)
  unfolding call_fn
  call_node (some d) ev epo w = some (call_fn d.fn ev d.arg epo w)
  call_node none ev epo w = none

  unfoldable pub call_on_loop : Option ℕ → ℕ → Epoll → W → Epoll × W
  call_on_loop (some f) arg epo w = client.on_loop f arg epo w
  call_on_loop none arg epo w = (epo, w)

  unfoldable pub loop_node : Option Epolld → Epoll → W → Option (Epoll × W)
  unfolding call_on_loop
  loop_node (some d) epo w = some (call_on_loop d.on_loop d.arg epo w)
  loop_node none epo w = none

  -- "try read/write: for epoll in EPOLLET mode, we need drive it manually"
  unfoldable pub drive : ℕ → ℕ → Epoll → W → Option (Epoll × W)
  unfolding call_node next_with
  drive zero i epo w = none
  drive (suc fuel) i epo w =
      let ev : Event = record { events = in_out; ptr = epo.ed i } in
      let rest = next_with (drive fuel (suc i)) (call_node (epo.nodes (epo.ed i)) ev epo w) in
      if ltb i epo.ev_len then rest else some (epo, w)

  -- The callbacks of the events; a NULL pointer is passed over.
  unfoldable pub on_events : List Event → Epoll → W → Option (Epoll × W)
  unfolding call_node next_with
  on_events [] epo w = some (epo, w)
  on_events (ev ∷ evs) epo w =
      let called = next_with (on_events evs) (call_node (epo.nodes ev.ptr) ev epo w) in
      let passed = on_events evs epo w in if ev.ptr == 0 then passed else called

  unfoldable pub on_loops : ℕ → ℕ → Epoll → W → Option (Epoll × W)
  unfolding loop_node next_with
  on_loops zero i epo w = none
  on_loops (suc fuel) i epo w =
      let rest = next_with (on_loops fuel (suc i)) (loop_node (epo.nodes (epo.ed i)) epo w) in
      if ltb i epo.ev_len then rest else some (epo, w)

  -- After `epoll_wait`; `next` is what the outer loop does then.
  unfoldable pub on_waited :
      (Epoll → W → Option (ℤ × Epoll × W)) → ℕ → Answer → Epoll → W → Option (ℤ × Epoll × W)
  unfolding on_events on_loops next_with
  on_waited next fuel (failed e) epo w = if is_again e then next epo w else some (negsuc 6, epo, w)
  on_waited next fuel (ready evs) epo w =
      next_with (λ epo' w'. next_with next (on_loops fuel 0 epo' w')) (on_events evs epo w)

  -- One round behind `before_wait`.
  unfoldable pub round :
      (Epoll → W → Option (ℤ × Epoll × W)) → ℕ → Answer → Epoll → W → Option (ℤ × Epoll × W)
  unfolding drive on_waited next_with
  round next fuel answer epo w = next_with (on_waited next fuel answer) (drive fuel 0 epo w)

  unfoldable pub call_before : Option ℕ → Epoll → W → ℤ × Epoll × W
  call_before (some f) epo w = client.before_wait f epo w
  call_before none epo w = (pos 0, epo, w)

  -- A code of `before_wait` other than 0 ends the run.
  unfoldable pub on_before :
      (Epoll → W → Option (ℤ × Epoll × W)) → ℤ × Epoll × W → Option (ℤ × Epoll × W)
  on_before next (rc, epo, w) = if int_eq rc (pos 0) then next epo w else some (rc, epo, w)

  -- `mode` other than 0: one round, with `before_wait`.
  unfoldable pub run_once : ℕ → Answer → Epoll → W → Option (ℤ × Epoll × W)
  unfolding on_before call_before round
  run_once fuel answer epo w =
      on_before (round (λ epo' w'. some (pos 0, epo', w')) fuel answer)
        (call_before epo.before_wait epo w)

  -- `mode` 0: until `epoll_wait` fails; `rounds` bounds the rounds, and `i` counts the calls.
  unfoldable pub run_forever : ℕ → ℕ → (ℕ → Answer) → ℕ → Epoll → W → Option (ℤ × Epoll × W)
  unfolding round
  run_forever zero fuel kernel i epo w = none
  run_forever (suc rounds) fuel kernel i epo w =
      round (run_forever rounds fuel kernel (suc i)) fuel (kernel i) epo w
