-- ===== src/Base/Share.antt =====
-- hp_io_t_internal_on_accept of src/hp_io_t.cpp returns when `accept` fails, and shares the connections out.
use libhp.Common.{
  ℕ, zero, suc, ◌+◌, ◌<◌, ◌≡◌, refl, ap, ◌∙◌, Option, none, some, List, [], ◌∷◌, ◌++◌, arith,
  if◌then◌else◌,
}
use libhp.Common.Int.{ℤ, pos, negsuc}
use libhp.Io.Os.{is_again}
use libhp.Base.Data.{Hdl}
use libhp.Base.Accept.{
  Listener, Accepted, gives, fails, took, offer, on_connection, on_accepted, on_accept,
}

-- Each of the elements is in one of two lists, in their order.
pub data Shared : List ℤ → List ℤ → List ℤ → Type 0 where
  nothing : Shared [] [] []
  to_first : {xs ys zs : List ℤ} (x : ℤ) → Shared xs ys zs → Shared (xs ++ x ∷ []) ys (zs ++ x ∷ [])
  to_second :
      {xs ys zs : List ℤ} (x : ℤ) → Shared xs ys zs → Shared xs (ys ++ x ∷ []) (zs ++ x ∷ [])

-- Every connection was either taken by `on_new` or closed.
abbrev pub IsShared : {W : Type 0} → Listener W → Type 0
IsShared l = Shared l.taken l.closed l.accepted

-- The kernel gives connections `m` times, and then fails.
pub record FailsAfter (kernel : ℕ → Accepted) (calls m e : ℕ) : Type 0 where
  pub before : (i : ℕ) → i < m → (fd nodelay : ℤ) × (kernel (calls + i) ≡ gives fd nodelay)
  pub at_last : kernel (calls + m) ≡ fails e

abbrev with_call : {W : Type 0} → Listener W → Listener W
with_call l = record l { calls = l.calls + 1 }

abbrev with_connection : {W : Type 0} → ℤ → Listener W → Listener W
with_connection fd l = record l { calls = l.calls + 1; accepted = l.accepted ++ fd ∷ [] }

-- What the call returns, after `m` connections.
pub record Served {W : Type 0} (l : Listener W) (m e : ℕ) (r : Option (ℤ × Listener W))
    : Type 0 where
  pub after : Listener W
  pub returns : r ≡ some (if is_again e then pos 0 else negsuc 0, after)
  pub calls : after.calls ≡ l.calls + m + 1
  pub shared : IsShared after

-- After one connection, the kernel gives one less.
FailsAfter-next :
    (kernel : ℕ → Accepted) (calls calls' m e : ℕ)
    → calls' ≡ calls + 1
    → FailsAfter kernel calls (suc m) e
    → FailsAfter kernel calls' m e
FailsAfter-next kernel calls calls' m e c f = record {
  before = λ i l.
      let (fd, nodelay, q) = f.before (suc i) (omega arith) in
      let at : calls' + i ≡ calls + suc i = omega arith in (fd, nodelay, ap kernel at ∙ q);
  at_last = let at : calls' + m ≡ calls + suc m = omega arith in ap kernel at ∙ f.at_last;
}

module _ {W : Type 0} where
  took-IsShared :
      (fd : ℤ) (r : Option ℕ × W) (l : Listener W)
      → IsShared l
      → (IsShared (took fd r (with_connection fd l)))
        × ((took fd r (with_connection fd l)).calls ≡ l.calls + 1)
  unfolding took
  took-IsShared fd (some nio, w) l h = (to_first fd h, refl)
  took-IsShared fd (none, w) l h = (to_second fd h, refl)

  offer-IsShared :
      (on_new : Option (ℤ → W → Option ℕ × W)) (fd : ℤ) (l : Listener W)
      → IsShared l
      → (IsShared (offer on_new fd (with_connection fd l)))
        × ((offer on_new fd (with_connection fd l)).calls ≡ l.calls + 1)
  unfolding offer
  offer-IsShared (some f) fd l h = took-IsShared fd (f fd l.client) l h
  offer-IsShared none fd l h = took-IsShared fd (none, l.client) l h

  connection-IsShared :
      (on_new : Option (ℤ → W → Option ℕ × W)) (fd nodelay : ℤ) (l : Listener W)
      → IsShared l
      → (IsShared (on_connection on_new fd nodelay (with_connection fd l)))
        × ((on_connection on_new fd nodelay (with_connection fd l)).calls ≡ l.calls + 1)
  unfolding on_connection
  connection-IsShared on_new fd (pos n) l h = offer-IsShared on_new fd l h
  connection-IsShared on_new fd (negsuc n) l h = (to_second fd h, refl)

  -- If `accept` gives `m` connections and then fails, hp_io_t_internal_on_accept returns after `m + 1` calls: 0 for
  -- EINTR or EAGAIN, and -1 for any other error. Whatever `hp_tcp_nodelay` and `on_new` return, each
  -- connection is then, once, with those that `on_new` took or with those that were closed.
  pub on_accept-Served :
      {M : Type 0} (fuel m e : ℕ) (kernel : ℕ → Accepted) (hdl : Hdl W M) (l : Listener W)
      → FailsAfter kernel l.calls m e
      → m < fuel
      → IsShared l
      → Served l m e (on_accept fuel kernel hdl l)
  unfolding on_accept on_accepted
  on_accept-Served zero m e kernel hdl l f u s = ground arith
  on_accept-Served (suc fuel) zero e kernel hdl l f u s =
      let first : kernel l.calls ≡ fails e =
        let at : l.calls ≡ l.calls + 0 = omega arith in ap kernel at ∙ f.at_last in
      simp (first) (record { after = with_call l; returns = refl; calls = omega arith; shared = s })
  on_accept-Served (suc fuel) (suc m) e kernel hdl l f u s =
      let (fd, nodelay, q) = f.before 0 (omega arith) in
      let first : kernel l.calls ≡ gives fd nodelay =
        let at : l.calls ≡ l.calls + 0 = omega arith in ap kernel at ∙ q in
      let l' = on_connection hdl.on_new fd nodelay (with_connection fd l) in
      let (s', c) = connection-IsShared hdl.on_new fd nodelay l s in
      let rest =
        on_accept-Served fuel m e kernel hdl l' (FailsAfter-next kernel l.calls l'.calls m e c f)
          (omega arith) s' in
      simp (first) (record {
        after = rest.after;
        returns = rest.returns;
        calls = omega (arith, rest.calls, c);
        shared = rest.shared;
      })
