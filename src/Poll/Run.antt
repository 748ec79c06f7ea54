-- ===== src/Poll/Run.antt =====
-- hp_poll_run of src/hp_poll.c. The answers of `poll` and the client's callbacks are parameters: a
-- callback may change the table and the client's own state.
use libhp.Common.{
  ℕ, zero, suc, ◌+◌, ◌≤◌, min, Bool, true, false, Option, none, some, ltb, leb, ◌==◌, if◌then◌else◌,
  lfind, not, ◌&&◌,
}
use libhp.Common.Int.{ℤ, pos, negsuc, int_eq}
use libhp.Io.Os.{is_again}
use libhp.Poll.{Pollfd, Polld, Poll, polld}
pub mod Visit

-- How `poll` answers: a count and the `revents` of the entries, or an `errno`.
pub data Answer : Type 0 where
  ready : ℕ → (ℕ → ℕ) → Answer
  failed : ℕ → Answer

-- The client's functions, by their addresses. A callback of an entry is given the entry's index, for
-- the `pollfd *`, and the entry's `arg`.
pub record Client (W : Type 0) : Type 0 where
  pub before_wait : ℕ → Poll → W → ℤ × Poll × W
  pub fn : ℕ → ℕ → ℕ → Poll → W → Poll × W
  pub on_loop : ℕ → ℕ → Poll → W → Poll × W

-- What `poll` writes: the `revents` of the entries in use.
unfoldable pub set_revents : (ℕ → ℕ) → Poll → Poll
set_revents revents po = record po {
  fds =
      λ i. if leb 1 i && leb i po.nfds then record (po.fds i) { revents = revents i } else po.fds i;
}

-- checkifnotpolled
unfoldable pub polled : Poll → ℕ → Bool
polled po i = not ((po.fds i).revents == 0)

-- get_next_to_run over the first `nfds` entries
unfoldable pub next_to_run : Poll → ℕ → Option ℕ
unfolding polled
next_to_run po nfds = lfind (polled po) 1 nfds

module _ {W : Type 0} (client : Client W) where
  unfoldable pub call_fn : Option ℕ → ℕ → ℕ → Poll → W → Poll × W
  call_fn (some f) i arg po w = client.fn f i arg po w
  call_fn none i arg po w = (po, w)

  -- `if(pd->fn){ pd->fn(pfd, pd->arg); }`
  unfoldable pub run_entry : ℕ → Poll → W → Poll × W
  unfolding call_fn polld
  run_entry i po w = call_fn (polld po i).fn i (polld po i).arg po w

  -- The next entry to run, if there is one; `again` is the next round.
  unfoldable pub dispatch_next :
      (Poll → W → Option (Poll × W)) → Option ℕ → Poll → W → Option (Poll × W)
  unfolding run_entry
  dispatch_next again none po w = some (po, w)
  dispatch_next again (some i) po w = again (run_entry i po w).0 (run_entry i po w).1

  -- "callback for every polled": the scan starts again after each callback.
  unfoldable pub dispatch : ℕ → ℕ → Poll → W → Option (Poll × W)
  unfolding dispatch_next next_to_run
  dispatch zero nfds po w = none
  dispatch (suc fuel) nfds po w =
      dispatch_next (dispatch fuel nfds) (next_to_run po (min nfds po.nfds)) po w

  unfoldable pub call_on_loop : Option ℕ → ℕ → Poll → W → Poll × W
  call_on_loop (some f) arg po w = client.on_loop f arg po w
  call_on_loop none arg po w = (po, w)

  unfoldable pub loop_entry : ℕ → Poll → W → Poll × W
  unfolding call_on_loop polld
  loop_entry i po w = call_on_loop (polld po i).on_loop (polld po i).arg po w

  -- "loop for every existing fd"
  unfoldable pub on_loops : ℕ → ℕ → Poll → W → Option (Poll × W)
  unfolding loop_entry
  on_loops zero i po w = none
  on_loops (suc fuel) i po w =
      let rest = on_loops fuel (suc i) (loop_entry i po w).0 (loop_entry i po w).1 in
      if leb i po.nfds then rest else some (po, w)

  -- Goes on with what a loop left, unless its fuel ran out.
  unfoldable pub then_ :
      Option (Poll × W) → (Poll → W → Option (ℤ × Poll × W)) → Option (ℤ × Poll × W)
  then_ (some (po, w)) k = k po w
  then_ none k = none

  -- After `poll`; `next` is what the outer loop does then.
  unfoldable pub on_polled :
      (Poll → W → Option (ℤ × Poll × W)) → ℕ → Answer → Poll → W → Option (ℤ × Poll × W)
  unfolding dispatch on_loops then_ set_revents
  on_polled next fuel (failed e) po w = if is_again e then next po w else some (negsuc 6, po, w)
  on_polled next fuel (ready n revents) po w =
      if n == 0
      then next (set_revents revents po) w
      else then_ (dispatch fuel po.nfds (set_revents revents po) w)
          (λ po' w'. then_ (on_loops fuel 1 po' w') next)

  -- `before_wait`, where there is one: a code other than 0 ends the run.
  unfoldable pub call_before : Option ℕ → Poll → W → ℤ × Poll × W
  call_before (some f) po w = client.before_wait f po w
  call_before none po w = (pos 0, po, w)

  unfoldable pub on_before :
      (Poll → W → Option (ℤ × Poll × W)) → ℤ × Poll × W → Option (ℤ × Poll × W)
  on_before next (rc, po, w) = if int_eq rc (pos 0) then next po w else some (rc, po, w)

  -- `mode` other than 0: one round, with `before_wait`.
  unfoldable pub run_once : ℕ → Answer → Poll → W → Option (ℤ × Poll × W)
  unfolding on_before call_before on_polled
  run_once fuel answer po w =
      on_before (on_polled (λ po' w'. some (pos 0, po', w')) fuel answer)
        (call_before po.before_wait po w)

  -- `mode` 0: until `poll` fails; `rounds` bounds the rounds, and `i` counts the calls of `poll`.
  unfoldable pub run_forever : ℕ → ℕ → (ℕ → Answer) → ℕ → Poll → W → Option (ℤ × Poll × W)
  unfolding on_polled
  run_forever zero fuel kernel i po w = none
  run_forever (suc rounds) fuel kernel i po w =
      on_polled (run_forever rounds fuel kernel (suc i)) fuel (kernel i) po w
