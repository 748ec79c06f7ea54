-- ===== src/Epoll/Run/Pass.antt =====
-- A round of hp_epoll_run uses no freed entry and calls each callback once, in order.
use libhp.Common.{
  ℕ, zero, suc, ◌+◌, ◌<◌, ◌≡◌, ◌≢◌, refl, ap, inl, inr, Bool-cases, true, false, Option, none, some,
  List, [], ◌∷◌, arith, ltb, ◌==◌, if◌then◌else◌,
}
use libhp.Common.Int.{ℤ, pos, int_eq}
use libhp.Epoll.{Epolld, Epoll, in_out}
use libhp.Epoll.Table.{cell, IsValid}
use libhp.Epoll.Run.{
  Event, ready, Client, call_fn, call_node, call_on_loop, loop_node, next_with, drive, on_events,
  on_loops, on_waited, round, call_before, on_before, run_once,
}

-- A client whose callbacks leave the table alone.
pub record IsStable {W : Type 0} (client : Client W) : Type 0 where
  pub fn_keeps :
      (f : ℕ) (ev : Event) (arg : ℕ) (epo : Epoll) (w : W) → (client.fn f ev arg epo w).0 ≡ epo
  pub loop_keeps : (f arg : ℕ) (epo : Epoll) (w : W) → (client.on_loop f arg epo w).0 ≡ epo

-- An event's pointer is NULL or to an allocated entry.
abbrev pub AllLive : Epoll → List Event → Type 0
AllLive epo [] = Unit
AllLive epo (ev ∷ evs) = (ev.ptr ≢ 0 → (d : Epolld) × (epo.nodes ev.ptr ≡ some d)) × AllLive epo evs

module _ {W : Type 0} (client : Client W) (epo : Epoll) where
  -- The client's state after a callback of a node.
  abbrev pub fn_state : Option Epolld → Event → W → W
  fn_state (some d) ev w = (call_fn client d.fn ev d.arg epo w).1
  fn_state none ev w = w

  abbrev pub loop_state : Option Epolld → W → W
  loop_state (some d) w = (call_on_loop client d.on_loop d.arg epo w).1
  loop_state none w = w

  -- The passes over `n` entries from entry i, and over the events.
  abbrev pub drive_all : ℕ → ℕ → W → W
  drive_all i zero w = w
  drive_all i (suc n) w =
      drive_all (suc i) n (fn_state (cell epo i) (record { events = in_out; ptr = epo.ed i }) w)

  abbrev pub loop_all : ℕ → ℕ → W → W
  loop_all i zero w = w
  loop_all i (suc n) w = loop_all (suc i) n (loop_state (cell epo i) w)

  abbrev pub event_all : List Event → W → W
  event_all [] w = w
  event_all (ev ∷ evs) w =
      let called = event_all evs (fn_state (epo.nodes ev.ptr) ev w) in
      let passed = event_all evs w in if ev.ptr == 0 then passed else called

  -- A round: the entries are driven, the events are handled, and every `on_loop` is called.
  abbrev pub pass : List Event → W → W
  pass evs w = loop_all 0 epo.ev_len (event_all evs (drive_all 0 epo.ev_len w))

  module _ (stable : IsStable client) (v : IsValid epo) where
    call_fn-stable :
        (o : Option ℕ) (ev : Event) (arg : ℕ) (w : W) → (call_fn client o ev arg epo w).0 ≡ epo
    unfolding call_fn
    call_fn-stable (some f) ev arg w = stable.fn_keeps f ev arg epo w
    call_fn-stable none ev arg w = refl

    call_on_loop-stable :
        (o : Option ℕ) (arg : ℕ) (w : W) → (call_on_loop client o arg epo w).0 ≡ epo
    unfolding call_on_loop
    call_on_loop-stable (some f) arg w = stable.loop_keeps f arg epo w
    call_on_loop-stable none arg w = refl

    call_node-live :
        (o : Option Epolld) (d : Epolld) (ev : Event) (w : W)
        → o ≡ some d
        → call_node client o ev epo w ≡ some (epo, fn_state o ev w)
    unfolding call_node
    call_node-live (some c) d ev w e =
        ap (λ q. some (q, (call_fn client c.fn ev c.arg epo w).1)) (call_fn-stable c.fn ev c.arg w)
    call_node-live none d ev w e = ground arith

    loop_node-live :
        (o : Option Epolld) (d : Epolld) (w : W)
        → o ≡ some d
        → loop_node client o epo w ≡ some (epo, loop_state o w)
    unfolding loop_node
    loop_node-live (some c) d w e =
        ap (λ q. some (q, (call_on_loop client c.on_loop c.arg epo w).1))
          (call_on_loop-stable c.on_loop c.arg w)
    loop_node-live none d w e = ground arith

    drive-drive_all :
        (i n fuel : ℕ) (w : W)
        → i + n ≡ epo.ev_len
        → n < fuel
        → drive client fuel i epo w ≡ some (epo, drive_all i n w)
    unfolding drive next_with
    drive-drive_all i n zero w e u = ground arith
    drive-drive_all i zero (suc fuel) w e u =
        let past : ltb i epo.ev_len ≡ false = ground arith in rw past refl
    drive-drive_all i (suc n) (suc fuel) w e u =
        let more : ltb i epo.ev_len ≡ true = ground arith in
        let (d, live) = v.live i (omega arith) in
        rw (more, call_node-live (cell epo i) d (record { events = in_out; ptr = epo.ed i }) w live)
          (drive-drive_all (suc i) n fuel
            (fn_state (cell epo i) (record { events = in_out; ptr = epo.ed i }) w) (omega arith)
            (omega arith))

    on_loops-loop_all :
        (i n fuel : ℕ) (w : W)
        → i + n ≡ epo.ev_len
        → n < fuel
        → on_loops client fuel i epo w ≡ some (epo, loop_all i n w)
    unfolding on_loops next_with
    on_loops-loop_all i n zero w e u = ground arith
    on_loops-loop_all i zero (suc fuel) w e u =
        let past : ltb i epo.ev_len ≡ false = ground arith in rw past refl
    on_loops-loop_all i (suc n) (suc fuel) w e u =
        let more : ltb i epo.ev_len ≡ true = ground arith in
        let (d, live) = v.live i (omega arith) in
        rw (more, loop_node-live (cell epo i) d w live)
          (on_loops-loop_all (suc i) n fuel (loop_state (cell epo i) w) (omega arith) (omega arith))

    on_events-event_all :
        (evs : List Event) (w : W)
        → AllLive epo evs
        → on_events client evs epo w ≡ some (epo, event_all evs w)
    unfolding on_events next_with
    on_events-event_all [] w live = refl
    on_events-event_all (ev ∷ evs) w live = elim (Bool-cases (ev.ptr == 0)) [
      | inl null ↦ rw null (on_events-event_all evs w live.1)
      | inr ptr ↦
          let (d, here) = live.0 (ground arith) in
          rw (ptr, call_node-live (epo.nodes ev.ptr) d ev w here)
            (on_events-event_all evs (fn_state (epo.nodes ev.ptr) ev w) live.1)
    ]

    pub round-pass :
        (next : Epoll → W → Option (ℤ × Epoll × W)) (fuel : ℕ) (evs : List Event) (w : W)
        → AllLive epo evs
        → epo.ev_len < fuel
        → round client next fuel (ready evs) epo w ≡ next epo (pass evs w)
    unfolding round on_waited next_with
    round-pass next fuel evs w live u =
        rw
          (
            drive-drive_all 0 epo.ev_len fuel w (omega arith) u,
            on_events-event_all evs (drive_all 0 epo.ev_len w) live,
            on_loops-loop_all 0 epo.ev_len fuel (event_all evs (drive_all 0 epo.ev_len w))
                (omega arith) u,
          )
          refl

-- What a run in mode 1 comes to after `before_wait`.
abbrev pub once : {W : Type 0} → Client W → List Event → ℤ × Epoll × W → ℤ × Epoll × W
once client evs (rc, epo, w) =
    if int_eq rc (pos 0) then (pos 0, epo, pass client epo evs w) else (rc, epo, w)

on_before-once :
    {W : Type 0} (client : Client W) (fuel : ℕ) (evs : List Event) (b : ℤ × Epoll × W)
    → IsStable client
    → IsValid b.1
    → AllLive b.1 evs
    → b.1.ev_len < fuel
    → on_before client (round client (λ epo' w'. some (pos 0, epo', w')) fuel (ready evs)) b
      ≡ some (once client evs b)
unfolding on_before
on_before-once client fuel evs (rc, epo, w) stable v live u =
    elim (Bool-cases (int_eq rc (pos 0))) [
      | inl fine ↦
          rw fine
            (round-pass client epo stable v (λ epo' w'. some (pos 0, epo', w')) fuel evs w live u)
      | inr stop ↦ rw stop refl
    ]

-- With a valid table, events that point to allocated entries or to NULL, and callbacks that leave the
-- table alone, `hp_epoll_run` in mode 1 returns and uses no entry that is not allocated. If `before_wait`
-- returns 0, it calls the callback of every entry, then that of every event, then every `on_loop`, each in
-- order, and returns 0; if not, it calls none of them and returns what `before_wait` did.
pub epoll_run_once-once :
    {W : Type 0} (client : Client W) (fuel : ℕ) (evs : List Event) (epo : Epoll) (w : W)
    → IsStable client
    → IsValid (call_before client epo.before_wait epo w).1
    → AllLive (call_before client epo.before_wait epo w).1 evs
    → (call_before client epo.before_wait epo w).1.ev_len < fuel
    → run_once client fuel (ready evs) epo w
      ≡ some (once client evs (call_before client epo.before_wait epo w))
unfolding run_once
epoll_run_once-once client fuel evs epo w stable v live u =
    on_before-once client fuel evs (call_before client epo.before_wait epo w) stable v live u
