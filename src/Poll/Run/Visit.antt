-- ===== src/Poll/Run/Visit.antt =====
-- The scan of hp_poll_run that starts again after each callback is one pass over the table.
use libhp.Common.{
  ℕ, zero, suc, ◌+◌, ◌-◌, ◌≤◌, ◌<◌, ◌≡◌, refl, ap, ◌∙◌, inl, inr, min, Bool-cases, true, false,
  Option, none, some, arith, leb, ◌==◌, if◌then◌else◌, lfind, lfind-skip, subst,
}
use libhp.Common.Int.{ℤ, pos, int_eq}
use libhp.Poll.{Poll, polld, below}
use libhp.Poll.Run.{
  Client, ready, polled, next_to_run, call_fn, run_entry, dispatch_next, dispatch, call_on_loop,
  loop_entry, on_loops, then_, on_polled, set_revents, run_once, on_before, call_before,
}

-- A client whose callbacks clear the `revents` that they were called for, as hp_poll.h asks, set none
-- before it, and neither add nor remove entries.
pub record IsPrompt {W : Type 0} (client : Client W) : Type 0 where
  pub clears : (f i arg : ℕ) (po : Poll) (w : W) → polled (client.fn f i arg po w).0 i ≡ false
  pub sets_none :
      (f i arg j : ℕ) (po : Poll) (w : W)
      → j < i
      → polled po j ≡ false
      → polled (client.fn f i arg po w).0 j ≡ false
  pub keeps_nfds : (f i arg : ℕ) (po : Poll) (w : W) → (client.fn f i arg po w).0.nfds ≡ po.nfds
  pub keeps_polld :
      (f i arg j : ℕ) (po : Poll) (w : W) → polld (client.fn f i arg po w).0 j ≡ polld po j
  pub loop_nfds : (f arg : ℕ) (po : Poll) (w : W) → (client.on_loop f arg po w).0.nfds ≡ po.nfds

-- Every entry that is in use has a callback.
abbrev pub HasFns : Poll → Type 0
HasFns po = (i : ℕ) → 1 ≤ i → i ≤ po.nfds → (f : ℕ) × ((polld po i).fn ≡ some f)

module _ {W : Type 0} (client : Client W) where
  -- The reference: one pass over `n` entries from entry `i`.
  abbrev pub visit : ℕ → ℕ → Poll → W → Poll × W
  visit i zero po w = (po, w)
  visit i (suc n) po w =
      if polled po i
      then visit (suc i) n (run_entry client i po w).0 (run_entry client i po w).1
      else visit (suc i) n po w

  abbrev pub loop_all : ℕ → ℕ → Poll → W → Poll × W
  loop_all i zero po w = (po, w)
  loop_all i (suc n) po w =
      loop_all (suc i) n (loop_entry client i po w).0 (loop_entry client i po w).1

  -- A round after `poll` found something: the polled entries in order, then every `on_loop`.
  abbrev pub pass : (ℕ → ℕ) → Poll → W → Poll × W
  pass revents po w =
      loop_all 1 po.nfds (visit 1 po.nfds (set_revents revents po) w).0
        (visit 1 po.nfds (set_revents revents po) w).1

  module _ (prompt : IsPrompt client) where
    -- What a pass keeps: the size, the callbacks, and that no entry before `i` is polled.
    pub record Clean (nfds i : ℕ) (po : Poll) : Type 0 where
      pub size : po.nfds ≡ nfds
      pub fns : HasFns po
      pub done : (j : ℕ) → 1 ≤ j → j < i → polled po j ≡ false

    run_fn-Clean :
        (nfds i f arg : ℕ) (po : Poll) (w : W)
        → Clean nfds i po
        → Clean nfds (suc i) (client.fn f i arg po w).0
    run_fn-Clean nfds i f arg po w c = record {
      size = prompt.keeps_nfds f i arg po w ∙ c.size;
      fns = λ j l u.
          let has = c.fns j l (omega (arith, prompt.keeps_nfds f i arg po w)) in
          (has.0, ap (λ d. d.fn) (prompt.keeps_polld f i arg j po w) ∙ has.1);
      done = λ j p l. elim (Bool-cases (j == i)) [
        | inl e ↦ ap (polled (client.fn f i arg po w).0) (ground arith) ∙ prompt.clears f i arg po w
        | inr e ↦ prompt.sets_none f i arg j po w (ground arith) (c.done j p (ground arith))
      ];
    }

    run_entry-Clean :
        (nfds i : ℕ) (po : Poll) (w : W)
        → 1 ≤ i
        → i ≤ nfds
        → Clean nfds i po
        → Clean nfds (suc i) (run_entry client i po w).0
    unfolding run_entry call_fn
    run_entry-Clean nfds i po w l u c =
        let has = c.fns i l (omega (arith, c.size)) in
        rw (has.1) (run_fn-Clean nfds i has.0 (polld po i).arg po w c)

    skip-Clean :
        (nfds i : ℕ) (po : Poll) → polled po i ≡ false → Clean nfds i po → Clean nfds (suc i) po
    skip-Clean nfds i po h c = record {
      size = c.size;
      fns = c.fns;
      done = λ j p l. elim (Bool-cases (j == i)) [
        | inl e ↦ ap (polled po) (ground arith) ∙ h
        | inr e ↦ c.done j p (ground arith)
      ];
    }

    -- The scan passes over the entries that are done.
    next-Clean :
        (nfds i n : ℕ) (po : Poll)
        → 1 ≤ i
        → i + n ≡ 1 + nfds
        → Clean nfds i po
        → next_to_run po (min nfds po.nfds) ≡ lfind (polled po) i n
    unfolding next_to_run
    next-Clean nfds i n po l e c =
        ap (lfind (polled po) 1) (omega (arith, c.size))
        ∙ lfind-skip (polled po) 1 (i - 1) n (λ j lj uj. c.done j lj (omega arith))
        ∙ ap (λ k. lfind (polled po) k n) (omega arith)

    pub visit-Clean :
        (nfds i n : ℕ) (po : Poll) (w : W)
        → 1 ≤ i
        → i + n ≡ 1 + nfds
        → Clean nfds i po
        → Clean nfds (i + n) (visit i n po w).0
    visit-Clean nfds i zero po w l e c = subst (λ k. Clean nfds k po) (omega arith) c
    visit-Clean nfds i (suc n) po w l e c = elim (Bool-cases (polled po i)) [
      | inl hit ↦ rw hit (
          subst
            (λ k.
              Clean nfds k
                (visit (suc i) n (run_entry client i po w).0 (run_entry client i po w).1).0)
            (omega arith)
            (visit-Clean nfds (suc i) n (run_entry client i po w).0 (run_entry client i po w).1
              (omega arith) (omega arith) (run_entry-Clean nfds i po w l (omega arith) c)))
      | inr miss ↦ rw miss (
          subst (λ k. Clean nfds k (visit (suc i) n po w).0) (omega arith)
            (visit-Clean nfds (suc i) n po w (omega arith) (omega arith)
              (skip-Clean nfds i po miss c)))
    ]

    pub dispatch-visit :
        (nfds i n fuel : ℕ) (po : Poll) (w : W)
        → 1 ≤ i
        → i + n ≡ 1 + nfds
        → n < fuel
        → Clean nfds i po
        → dispatch client fuel nfds po w ≡ some (visit i n po w)
    unfolding dispatch dispatch_next
    dispatch-visit nfds i n zero po w l e u c = ground arith
    dispatch-visit nfds i zero (suc fuel) po w l e u c = rw (next-Clean nfds i zero po l e c) refl
    dispatch-visit nfds i (suc n) (suc fuel) po w l e u c = elim (Bool-cases (polled po i)) [
      | inl hit ↦
          rw (next-Clean nfds i (suc n) po l e c, hit)
            (dispatch-visit nfds (suc i) n fuel (run_entry client i po w).0
              (run_entry client i po w).1 (omega arith) (omega arith) (omega arith)
              (run_entry-Clean nfds i po w l (omega arith) c))
      | inr miss ↦ rw miss (
          dispatch-visit nfds (suc i) n (suc fuel) po w (omega arith) (omega arith) (omega arith)
            (skip-Clean nfds i po miss c))
    ]

    call_on_loop-nfds :
        (o : Option ℕ) (arg : ℕ) (po : Poll) (w : W)
        → (call_on_loop client o arg po w).0.nfds ≡ po.nfds
    unfolding call_on_loop
    call_on_loop-nfds (some f) arg po w = prompt.loop_nfds f arg po w
    call_on_loop-nfds none arg po w = refl

    loop_entry-nfds : (i : ℕ) (po : Poll) (w : W) → (loop_entry client i po w).0.nfds ≡ po.nfds
    unfolding loop_entry
    loop_entry-nfds i po w = call_on_loop-nfds (polld po i).on_loop (polld po i).arg po w

    pub on_loops-loop_all :
        (i n fuel : ℕ) (po : Poll) (w : W)
        → i + n ≡ 1 + po.nfds
        → n < fuel
        → on_loops client fuel i po w ≡ some (loop_all i n po w)
    unfolding on_loops
    on_loops-loop_all i n zero po w e u = ground arith
    on_loops-loop_all i zero (suc fuel) po w e u =
        let past : leb i po.nfds ≡ false = ground arith in rw past refl
    on_loops-loop_all i (suc n) (suc fuel) po w e u =
        let more : leb i po.nfds ≡ true = ground arith in
        rw more (
          on_loops-loop_all (suc i) n fuel (loop_entry client i po w).0 (loop_entry client i po w).1
            (omega (arith, loop_entry-nfds i po w)) (omega arith))

    set_revents-Clean :
        (revents : ℕ → ℕ) (po : Poll) → HasFns po → Clean po.nfds 1 (set_revents revents po)
    unfolding set_revents polld below
    set_revents-Clean revents po fns = record {
      size = refl;
      fns = fns;
      done = λ j l u. ground arith;
    }

    on_polled-pass :
        (next : Poll → W → Option (ℤ × Poll × W)) (fuel n : ℕ) (revents : ℕ → ℕ) (po : Poll) (w : W)
        → HasFns po
        → po.nfds < fuel
        → on_polled client next fuel (ready (suc n) revents) po w
          ≡ next (pass revents po w).0 (pass revents po w).1
    unfolding on_polled then_
    on_polled-pass next fuel n revents po w fns u =
        let start : Clean po.nfds 1 (set_revents revents po) = set_revents-Clean revents po fns in
        let v = visit 1 po.nfds (set_revents revents po) w in
        let some_polled : (suc n == 0) ≡ false = ground arith in
        let end_size =
          (visit-Clean po.nfds 1 po.nfds (set_revents revents po) w (omega arith) refl
            start).size in
        rw
          (
            some_polled,
            dispatch-visit po.nfds 1 po.nfds fuel (set_revents revents po) w (omega arith) refl u
                start,
            on_loops-loop_all 1 po.nfds fuel v.0 v.1 (omega (arith, end_size)) u,
          )
          refl

-- What a run in mode 1 comes to after `before_wait`.
abbrev pub once : {W : Type 0} → Client W → (ℕ → ℕ) → ℤ × Poll × W → ℤ × Poll × W
once client revents (rc, po, w) =
    if int_eq rc (pos 0)
    then (pos 0, (pass client revents po w).0, (pass client revents po w).1)
    else (rc, po, w)

on_before-once :
    {W : Type 0} (client : Client W) (fuel n : ℕ) (revents : ℕ → ℕ) (b : ℤ × Poll × W)
    → IsPrompt client
    → HasFns b.1
    → b.1.nfds < fuel
    → on_before client
        (on_polled client (λ po' w'. some (pos 0, po', w')) fuel (ready (suc n) revents))
        b
      ≡ some (once client revents b)
unfolding on_before
on_before-once client fuel n revents (rc, po, w) prompt fns u =
    elim (Bool-cases (int_eq rc (pos 0))) [
      | inl fine ↦
          rw fine (
            on_polled-pass client prompt (λ po' w'. some (pos 0, po', w')) fuel n revents po w fns
              u)
      | inr stop ↦ rw stop refl
    ]

-- With callbacks that clear the `revents` that they are called for, set none that they passed and keep the
-- table's size and entries, a callback that is not NULL in every entry in use, and a `poll` that finds
-- something, `hp_poll_run` in mode 1 returns. If `before_wait` returns 0, it calls each
-- polled entry's callback once, in the table's order, and then every `on_loop`, and returns 0; if not, it
-- calls none of them and returns what `before_wait` did.
pub run_once-once :
    {W : Type 0} (client : Client W) (fuel n : ℕ) (revents : ℕ → ℕ) (po : Poll) (w : W)
    → IsPrompt client
    → HasFns (call_before client po.before_wait po w).1
    → (call_before client po.before_wait po w).1.nfds < fuel
    → run_once client fuel (ready (suc n) revents) po w
      ≡ some (once client revents (call_before client po.before_wait po w))
unfolding run_once
run_once-once client fuel n revents po w prompt fns u =
    on_before-once client fuel n revents (call_before client po.before_wait po w) prompt fns u
