-- ===== src/Timerfd/Lifetime.antt =====
-- A timer of src/hp_timerfd.c leaves its epoll instance the way it found it.
use libhp.Common.{
  ℕ, ◌+◌, ◌*◌, ◌^◌, ◌<◌, ◌≡◌, ◌≢◌, refl, sym, ap, ◌∙◌, ◌⊎◌, inl, inr, Bool-cases, true, false,
  Option, none, some, List, [], ◌∷◌, ◌++◌, append-nil, arith, if◌then◌else◌, any, any-append,
  Spot-any, remove_first, remove_first-append,
}
use libhp.Common.Int.{ℤ, pos, negsuc, int_eq, int_eq_refl}
use libhp.Epoll.{Epolld, Epoll, Ctl, Outcome, node_has_fd, epoll_add, epoll_rm}
use libhp.Epoll.Table.{cell, entries, IsValid, IsEpoll, NoDangling}
use libhp.Epoll.Branch.{Branch, refused, changed, mod_failed, full, add_failed, appended}
use libhp.Epoll.Add.{Added, epoll_add-Added}
use libhp.Epoll.Remove.{Removed, epoll_rm-Removed}
use libhp.Timerfd.{
  Timerfd, Timespec, Settime, interval_spec, timerfd_reset, Ready, after_reset, after_add, join,
  timerfd_init, after_rm, timerfd_uninit, in_et, handle_tfd_address,
}

-- Adding a descriptor that has no entry appends one, or fails.
Branch-fresh :
    (epo : Epoll) (d : Epolld) (modded : ℕ → Option ℕ) (added held : Option ℕ) (code : ℤ)
    (es : List (Option Epolld))
    → any (node_has_fd d.fd) (entries epo) ≡ false
    → Branch epo d modded added held code es
    → ((code ≡ pos 0) × (es ≡ entries epo ++ some d ∷ [])) ⊎ (int_eq code (pos 0) ≡ false)
Branch-fresh epo d modded added held code es none_yet (refused s) = inr refl
Branch-fresh epo d modded added held code es none_yet (changed i spot fine) =
    ground (arith, none_yet, Spot-any (node_has_fd d.fd) (cell epo) 0 epo.ev_len i spot)
Branch-fresh epo d modded added held code es none_yet (mod_failed i e spot bad) = inr refl
Branch-fresh epo d modded added held code es none_yet (full h l) = inr refl
Branch-fresh epo d modded added held code es none_yet (add_failed e h l bad) = inr refl
Branch-fresh epo d modded added held code es none_yet (appended h l fine r) = inl (refl, refl)

after_rm-fine :
    {K : Type 0} (ctl : Ctl K) (settime : Settime) (now : Option Timespec) (r : ℤ × Epoll × K)
    → r.0 ≡ pos 0
    → after_rm ctl settime now r ≡ some (r.1, r.2)
unfolding after_rm
after_rm-fine ctl settime now (rc, epo, k) h = rw h refl

-- The last entry is the descriptor's only one.
module _ (epo : Epoll) (d : Epolld) (none_yet : any (node_has_fd d.fd) (entries epo) ≡ false) where
  last-hit : node_has_fd d.fd (some d) ≡ true
  unfolding node_has_fd
  last-hit = int_eq_refl d.fd

  last-any : any (node_has_fd d.fd) (entries epo ++ some d ∷ []) ≡ true
  last-any = any-append (node_has_fd d.fd) (entries epo) (some d ∷ []) none_yet ∙ rw last-hit refl

  last-remove_first : remove_first (node_has_fd d.fd) (entries epo ++ some d ∷ []) ≡ entries epo
  last-remove_first =
      remove_first-append (node_has_fd d.fd) (entries epo) (some d ∷ []) none_yet
      ∙ rw last-hit (append-nil (entries epo))

module _ {K : Type 0} (ctl : Ctl K) (registered : K → ℤ → Option ℕ) (settime : Settime)
    (now : Option Timespec) where
  -- hp_timerfd_uninit meets its assertion and leaves the entries `before`.
  pub record Undone (before : List (Option Epolld)) (t : Timerfd) (epo : Epoll) (k : K)
      : Type 0 where
    pub epo' : Epoll
    pub k' : K
    pub returns : timerfd_uninit ctl settime now t epo k ≡ some (epo', k')
    pub entries_eq : entries epo' ≡ before
    pub valid : IsValid epo'
    pub no_dangling : NoDangling registered epo' k'
    pub unregistered : registered k' (pos t.fd) ≡ none

  -- hp_timerfd_init returns; unless the descriptor could not join, hp_timerfd_uninit undoes it.
  pub record Lifetime (before : List (Option Epolld)) (r : Ready K) : Type 0 where
    pub code : ℤ
    pub timer : Timerfd
    pub epo : Epoll
    pub k : K
    pub returns : r ≡ some (code, timer, epo, k)
    pub valid : IsValid epo
    pub no_dangling : NoDangling registered epo k
    pub undone : code ≢ negsuc 2 → Undone before timer epo k

  module _ (law : IsEpoll ctl registered) (t : Timerfd) (owns : t.has_efds ≡ true) (d : Epolld)
      (own_fd : d.fd ≡ pos t.fd) where
    uninit-Undone :
        (old epo : Epoll) (k : K)
        → any (node_has_fd d.fd) (entries old) ≡ false
        → entries epo ≡ entries old ++ some d ∷ []
        → IsValid epo
        → NoDangling registered epo k
        → Undone (entries old) t epo k
    unfolding timerfd_uninit
    uninit-Undone old epo k none_yet es v nd =
        let rm : Removed ctl registered epo d.fd (epoll_rm ctl epo d.fd k) =
          epoll_rm-Removed ctl registered epo d.fd k law v nd in
        let there : any (node_has_fd d.fd) (entries epo) ≡ true =
          ap (any (node_has_fd d.fd)) es ∙ last-any old d none_yet in
        let code : (epoll_rm ctl epo d.fd k).0 ≡ pos 0 =
          rm.code ∙ ap (λ b. if b then pos 0 else negsuc 1) there in
        record {
          epo' = (epoll_rm ctl epo d.fd k).1;
          k' = (epoll_rm ctl epo d.fd k).2;
          returns =
              ap
                (λ b.
                  if b
                  then after_rm ctl settime now (epoll_rm ctl epo (pos t.fd) k)
                  else some (epo, k))
                owns
              ∙ ap (λ a. after_rm ctl settime now (epoll_rm ctl epo a k)) (sym own_fd)
              ∙ after_rm-fine ctl settime now (epoll_rm ctl epo d.fd k) code;
          entries_eq =
              rm.entries_eq
              ∙ ap (remove_first (node_has_fd d.fd)) es
              ∙ last-remove_first old d none_yet;
          valid = rm.valid;
          no_dangling = rm.no_dangling;
          unregistered = ap (registered (epoll_rm ctl epo d.fd k).2) (sym own_fd) ∙ rm.unregistered;
        }

    after_reset-Lifetime :
        (before : List (Option Epolld)) (rc : ℤ) (epo : Epoll) (k : K)
        → IsValid epo
        → NoDangling registered epo k
        → Undone before t epo k
        → Lifetime before (after_reset ctl settime now rc t epo k)
    unfolding after_reset
    after_reset-Lifetime before rc epo k v nd u = elim (Bool-cases (int_eq rc (pos 0))) [
      | inl fine ↦ rw fine (record {
        code = pos 0;
        timer = t;
        epo = epo;
        k = k;
        returns = refl;
        valid = v;
        no_dangling = nd;
        undone = λ ne. u;
      })
      | inr bad ↦ rw bad (record {
        code = negsuc 0;
        timer = t;
        epo = epo;
        k = k;
        returns = refl;
        valid = v;
        no_dangling = nd;
        undone = λ ne. u;
      })
    ]

    after_add-Lifetime :
        (old : Epoll) (interval : ℤ) (events : ℕ) (k : K) (r : Outcome K)
        → any (node_has_fd d.fd) (entries old) ≡ false
        → Added ctl registered old d events k r
        → Lifetime (entries old) (after_add ctl settime now r t interval)
    unfolding after_add
    after_add-Lifetime old interval events k r none_yet a =
        rw a.returns
          (elim (Branch-fresh old d _ _ (registered a.k' d.fd) a.code (entries a.epo') none_yet
            a.branch) [
              | inl joined ↦ rw joined.0 (
                  after_reset-Lifetime (entries old) (timerfd_reset settime now t interval) a.epo'
                    a.k' a.valid a.no_dangling
                    (uninit-Undone old a.epo' a.k' none_yet joined.1 a.valid a.no_dangling))
              | inr failed ↦ rw failed (record {
                code = negsuc 2;
                timer = t;
                epo = a.epo';
                k = a.k';
                returns = refl;
                valid = a.valid;
                no_dangling = a.no_dangling;
                undone = λ ne. ground (arith, ne refl);
              })
            ])

-- The entry of a timer at address `self`.
abbrev pub timer_entry : ℕ → ℕ → Epolld
timer_entry fd self = record {
  fd = pos fd;
  fn = some handle_tfd_address;
  arg = self;
  on_loop = none;
}

-- Over a valid table, an `epoll_ctl` that behaves as documented and a kernel without dangling pointers,
-- for a new descriptor that has no entry yet: `hp_timerfd_init` returns without a failed assertion, with
-- a valid table and no dangling pointer. Unless it returns -3, and so also where `hp_timerfd_reset` fails
-- and it returns -1, `hp_timerfd_uninit` then meets its assertion, leaves the entries that were there
-- before, in a valid table with no dangling pointer, and the descriptor is registered no more.
pub timerfd_init-Lifetime :
    {K : Type 0} (ctl : Ctl K) (registered : K → ℤ → Option ℕ) (settime : Settime)
    (now : Option Timespec) (fd self : ℕ) (old : Timerfd) (handle : ℕ) (interval : ℤ) (arg : ℕ)
    (epo : Epoll) (k : K)
    → IsEpoll ctl registered
    → IsValid epo
    → NoDangling registered epo k
    → any (node_has_fd (pos fd)) (entries epo) ≡ false
    → Lifetime ctl registered settime now
        (entries epo)
        (timerfd_init ctl settime now (some fd) self old handle interval arg epo k)
unfolding timerfd_init join
timerfd_init-Lifetime ctl registered settime now fd self old handle interval arg epo k law v nd
      none_yet =
    let d = timer_entry fd self in
    after_add-Lifetime ctl registered settime now law
      (record { fd = fd; handle = handle; has_efds = true; arg = arg; n = 0 }) refl d refl epo
      interval in_et k (epoll_add ctl epo d.fd in_et d.fn d.on_loop d.arg k) none_yet
      (epoll_add-Added ctl registered epo d in_et k law v nd)

-- An interval of an `int` of milliseconds above 0 is set exactly, as whole seconds and fewer than 10^9
-- nanoseconds.
interval_spec-exact :
    (interval : ℕ)
    → interval < 2 ^ 31
    → ((interval_spec interval).tv_sec * 1000000000 + (interval_spec interval).tv_nsec
        ≡ interval * 1000000)
      × ((interval_spec interval).tv_nsec < 1000000000)
unfolding interval_spec
interval_spec-exact interval u = omega arith
