-- ===== src/Expire.antt =====
-- src/hp_expire.c: objects that are freed when they were not asked for in a while. The dictionary of redis
-- is a parameter. Each `expire_s` keeps the calls of `free` that were made for its objects.
pub mod Ticks
mod Tests
use libhp.Common.{
  ℕ, ◌+◌, ◌/◌, Bool, true, false, not, ◌&&◌, ◌||◌, Option, none, some, List, [], ◌∷◌, ◌++◌, leb,
  ◌==◌, if◌then◌else◌, Bytes,
}
use libhp.Common.Int.{ℤ, pos, negsuc}

-- `struct expire_s`: the time of the last request in milliseconds, and the object, 0 for NULL.
pub record Expiring : Type 0 where
  pub t : ℕ
  pub p : ℕ
  pub freed : List ℕ

-- hp_dict_find, hp_dict_set, and a pass of an iterator that changes the values in place.
pub record Dict (D : Type 0) : Type 0 where
  pub create : D
  pub find : Bytes → D → Option Expiring
  pub set : Bytes → Expiring → D → D
  pub each : (Expiring → Expiring) → D → D

-- `struct hp_expire`; `ms` is 0 for a time of 0 or less.
pub record Expire (D : Type 0) : Type 0 where
  pub dic : D
  pub ms : ℕ
  pub has_timer : Bool

-- The loop's body in handle_timer, at the time `now`.
unfoldable pub expire_one : ℕ → ℕ → Expiring → Expiring
expire_one ms now cli =
    if not (cli.p == 0) && leb (cli.t + ms) now
    then record cli { freed = cli.freed ++ cli.p ∷ []; p = 0 }
    else cli

-- expire_s_free calls `free` on NULL too.
unfoldable pub expire_s_free : Expiring → Expiring
expire_s_free cli = record cli { freed = cli.freed ++ cli.p ∷ [] }

-- What `fn` made, where there is no object; `made` is `none` if `fn` is NULL.
unfoldable pub refill : Option ℕ → Expiring → Expiring
refill (some made) cli = if cli.p == 0 then record cli { p = made } else cli
refill none cli = cli

abbrev new_expiring : Expiring
new_expiring = record { t = 0; p = 0; freed = [] }

unfoldable pub or_new : Option Expiring → Expiring
or_new (some cli) = cli
or_new none = new_expiring

module _ {D : Type 0} (ops : Dict D) where
  -- hp_expire_init, up to the timer; `has_loop` tells if `efds` is given.
  unfoldable pub expire_init : Bool → ℕ → ℤ × Option (Expire D)
  expire_init has_loop timeout_ms =
      if has_loop || timeout_ms == 0
      then (
        pos 0,
        some (record {
          dic = ops.create;
          ms = timeout_ms;
          has_timer = has_loop && not (timeout_ms == 0);
        }),
      )
      else (negsuc 0, none)

  -- The interval of the timer.
  unfoldable pub interval : Expire D → ℕ
  interval e = e.ms / 2

  -- handle_timer
  unfoldable pub handle_timer : ℕ → Expire D → Expire D
  unfolding expire_one
  handle_timer now e = record e { dic = ops.each (expire_one e.ms now) e.dic }

  -- hp_expire_get at the time `now`.
  unfoldable pub expire_get : Bytes → Option ℕ → ℕ → Expire D → ℕ × Expire D
  unfolding refill or_new
  expire_get id made now e =
      let cli = record (refill made (or_new (ops.find id e.dic))) { t = now } in
      (cli.p, record e { dic = ops.set id cli e.dic })

  -- hp_expire_uninit
  unfoldable pub expire_uninit : Expire D → Expire D
  unfolding expire_s_free
  expire_uninit e = record e { dic = ops.each expire_s_free e.dic }

  -- Passes of the timer, one after the other.
  unfoldable pub ticks : List ℕ → Expire D → Expire D
  unfolding handle_timer
  ticks [] e = e
  ticks (now ∷ nows) e = ticks nows (handle_timer now e)
