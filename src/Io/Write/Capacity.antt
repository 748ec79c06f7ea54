-- ===== src/Io/Write/Capacity.antt =====
-- hp_wr_add writes inside the array, whose length is the initial one doubled a number of times.
use native.Mathlib.Nat.{pow-suc, one-le-pow}
use libhp.Common.{
  ℕ, zero, suc, ◌+◌, ◌-◌, ◌*◌, ◌/◌, ◌^◌, ◌≤◌, ◌<◌, ◌≡◌, ◌≢◌, refl, inl, inr, Bool-cases, Bool,
  false, ◌&&◌, some, [], ◌∷◌, ◌++◌, arith, ltb, leb, ◌==◌, length, length-append, length-drop,
  Bytes,
}
use libhp.Io.Write.{Wr, FreeFn, Ptr, null, reserve, new_item, wr_init, wr_add, del_n}

-- `k` doublings of the initial length, which is not 0.
pub record IsPower (init_len items_cap : ℕ) : Type 0 where
  pub doublings : ℕ
  pub cap_eq : items_cap ≡ init_len * 2 ^ doublings
  pub init_pos : 0 < init_len

pub record IsValid (wr : Wr) : Type 0 where
  pub power : IsPower wr.init_len wr.items_cap
  pub fits : length wr.o_items ≤ wr.items_cap

reserve_room : (init cap len : ℕ) → 0 < cap → len ≤ cap → len < reserve init cap len
unfolding reserve
reserve_room init cap len p h = ground arith

init-le-cap : {init cap : ℕ} → IsPower init cap → init ≤ cap
init-le-cap {init} p = omega (arith, p.cap_eq, grow)
  where
    grow : init ≤ init * 2 ^ p.doublings
    grow = grind (arith, one-le-pow p.doublings 2)

IsPower-double : {init cap : ℕ} → IsPower init cap → IsPower init (cap * 2)
IsPower-double {init} p = record {
  doublings = suc p.doublings;
  cap_eq = rw pow-suc (omega (arith, p.cap_eq));
  init_pos = p.init_pos;
}

IsPower-halve : (init k : ℕ) → 0 < init → init < init * 2 ^ k → IsPower init (init * 2 ^ k / 2)
IsPower-halve init zero p h = absurd (omega arith)
IsPower-halve init (suc k) p h = record {
  doublings = k;
  cap_eq = rw pow-suc (omega arith);
  init_pos = p;
}

reserve-IsPower : (init cap len : ℕ) → IsPower init cap → IsPower init (reserve init cap len)
unfolding reserve
reserve-IsPower init cap len p = elim (Bool-cases (leb (cap - len) 3)) [
  | inl tight ↦ rw tight (IsPower-double p)
  | inr wide ↦ rw wide (elim (Bool-cases (ltb init cap && ltb (len + 2) (cap / 2))) [
    | inl sparse ↦
        rw (sparse, p.cap_eq) (IsPower-halve init p.doublings p.init_pos (ground (arith, p.cap_eq)))
    | inr fine ↦ rw fine p
  ])
]

-- `hp_wr_init` makes a valid queue, of 8 places if `n` is not positive.
pub wr_init-IsValid : (n : ℕ) (w : Bool) → IsValid (wr_init n w)
unfolding wr_init
wr_init-IsValid n w = record {
  power = record { doublings = 0; cap_eq = omega arith; init_pos = ground arith };
  fits = omega arith;
}

-- On a valid queue and an address that is not NULL, `hp_wr_add` succeeds: the place that it writes
-- lies inside the array, the item goes behind those that are queued, and the queue stays valid: the
-- array's length is the initial one doubled a number of times.
pub wr_add-IsValid :
    (wr : Wr)
    → IsValid wr
    → (iov_base : Ptr) (bytes : Bytes) (freecb : FreeFn) (ptr fresh : Ptr) → iov_base ≢ null
    → (wr' : Wr) × (wr_add wr iov_base bytes freecb ptr fresh ≡ some wr')
      × (length wr.o_items < wr'.items_cap)
      × (wr'.o_items ≡ wr.o_items ++ new_item iov_base bytes freecb ptr fresh ∷ [])
      × IsValid wr'
unfolding wr_add
wr_add-IsValid wr v iov_base bytes freecb ptr fresh h =
    let e : (iov_base == null) ≡ false = ground arith in
    let p = init-le-cap v.power in
    let room =
      reserve_room wr.init_len wr.items_cap (length wr.o_items) (omega (arith, v.power.init_pos))
        v.fits in
    rw e (
      _,
      refl,
      room,
      refl,
      record {
        power = reserve-IsPower wr.init_len wr.items_cap (length wr.o_items) v.power;
        fits =
            omega (
              arith,
              room,
              length-append wr.o_items (new_item iov_base bytes freecb ptr fresh ∷ []),
            );
      },
    )

-- Taking items off the front keeps the queue valid.
pub del_n-IsValid : (wr : Wr) (n : ℕ) → IsValid wr → IsValid (del_n wr n)
unfolding del_n
del_n-IsValid wr n v = record {
  power = v.power;
  fits = omega (arith, v.fits, length-drop n wr.o_items);
}
