-- ===== src/Expire/Ticks.antt =====
-- When src/hp_expire.c frees an object that was asked for: at the first pass of the timer that comes its
-- whole time later.
use libhp.Common.{
  ℕ, ◌+◌, ◌≡◌, ◌≢◌, refl, ap, ◌∙◌, inl, inr, Bool-cases, Bool, true, false, not, ◌&&◌, ◌||◌, Option,
  none, some, List, [], ◌∷◌, ◌++◌, arith, leb, ◌==◌, if◌then◌else◌, Bytes,
}
use libhp.Expire.{
  Expiring, Dict, Expire, expire_one, expire_get, handle_timer, ticks, refill, or_new,
}

abbrev pub map_some : (Expiring → Expiring) → Option Expiring → Option Expiring
map_some f (some cli) = some (f cli)
map_some f none = none

-- The documented behaviour of the dictionary.
pub record IsDict {D : Type 0} (ops : Dict D) : Type 0 where
  pub same : (k : Bytes) (x : Expiring) (d : D) → ops.find k (ops.set k x d) ≡ some x
  pub mapped :
      (k : Bytes) (f : Expiring → Expiring) (d : D)
      → ops.find k (ops.each f d) ≡ map_some f (ops.find k d)

-- Whether one of the passes comes `ms` after the request or later.
abbrev pub is_due : ℕ → List ℕ → Bool
is_due limit [] = false
is_due limit (now ∷ nows) = leb limit now || is_due limit nows

-- What the passes leave of an object.
abbrev pub after_ticks : Bool → Expiring → Expiring
after_ticks true cli = record cli { freed = cli.freed ++ cli.p ∷ []; p = 0 }
after_ticks false cli = cli

expire_one-due :
    (ms now : ℕ) (cli : Expiring)
    → cli.p ≢ 0
    → expire_one ms now cli ≡ after_ticks (leb (cli.t + ms) now) cli
unfolding expire_one
expire_one-due ms now cli n =
    let live : (cli.p == 0) ≡ false = ground (arith, n) in
    elim (Bool-cases (leb (cli.t + ms) now)) [
      | inl due ↦ simp (live, due) refl
      | inr early ↦ simp (live, early) refl
    ]

module _ {D : Type 0} (ops : Dict D) (law : IsDict ops) (id : Bytes) where
  -- An object that was freed stays so.
  gone :
      (nows : List ℕ) (e : Expire D) (cli : Expiring)
      → ops.find id e.dic ≡ some cli
      → cli.p ≡ 0
      → ops.find id (ticks ops nows e).dic ≡ some cli
  unfolding ticks handle_timer expire_one
  gone [] e cli h z = h
  gone (now ∷ nows) e cli h z =
      gone nows (handle_timer ops now e) cli
        (law.mapped id (expire_one e.ms now) e.dic
          ∙ ap (map_some (expire_one e.ms now)) h
          ∙ ap some (skips (not (cli.p == 0) && leb (cli.t + e.ms) now) (ground (arith, z))))
        z
    where
      skips :
          (b : Bool)
          → b ≡ false
          → (if b then record cli { freed = cli.freed ++ cli.p ∷ []; p = 0 } else cli) ≡ cli
      skips true q = ground (arith, q)
      skips false q = refl

  pass :
      (now : ℕ) (e : Expire D) (cli : Expiring)
      → ops.find id e.dic ≡ some cli
      → cli.p ≢ 0
      → ops.find id (handle_timer ops now e).dic ≡ some (after_ticks (leb (cli.t + e.ms) now) cli)
  unfolding handle_timer expire_one
  pass now e cli h n =
      law.mapped id (expire_one e.ms now) e.dic
      ∙ ap (map_some (expire_one e.ms now)) h
      ∙ ap some (expire_one-due e.ms now cli n)

  after :
      (nows : List ℕ) (e : Expire D) (cli : Expiring)
      → ops.find id e.dic ≡ some cli
      → cli.p ≢ 0
      → ops.find id (ticks ops nows e).dic ≡ some (after_ticks (is_due (cli.t + e.ms) nows) cli)
  unfolding ticks handle_timer
  after [] e cli h n = h
  after (now ∷ nows) e cli h n = elim (Bool-cases (leb (cli.t + e.ms) now)) [
    | inl due ↦ rw due (
        gone nows (handle_timer ops now e) (after_ticks true cli)
          (pass now e cli h n ∙ ap (λ b. some (after_ticks b cli)) due) refl)
    | inr early ↦ rw early (
        after nows (handle_timer ops now e) cli
          (pass now e cli h n ∙ ap (λ b. some (after_ticks b cli)) early) n)
  ]

-- The object of an entry, 0 if there is none, and the calls of `free` for its objects.
abbrev pub object_of : Option Expiring → ℕ
object_of (some cli) = cli.p
object_of none = 0

abbrev pub freed_of : Option Expiring → List ℕ
freed_of (some cli) = cli.freed
freed_of none = []

-- The object that was there, or the one that was made.
abbrev pub object_or : ℕ → Option ℕ → ℕ
object_or p none = p
object_or p (some made) = if p == 0 then made else p

refill-p : (made : Option ℕ) (cli : Expiring) → (refill made cli).p ≡ object_or cli.p made
unfolding refill
refill-p none cli = refl
refill-p (some made) cli = ground arith

refill-freed : (made : Option ℕ) (cli : Expiring) → (refill made cli).freed ≡ cli.freed
unfolding refill
refill-freed none cli = refl
refill-freed (some made) cli = ground arith

or_new-object : (o : Option Expiring) → (or_new o).p ≡ object_of o
unfolding or_new
or_new-object none = refl
or_new-object (some cli) = refl

or_new-freed : (o : Option Expiring) → (or_new o).freed ≡ freed_of o
unfolding or_new
or_new-freed none = refl
or_new-freed (some cli) = refl

-- Over a dictionary that behaves as documented: hp_expire_get returns the object of the id that is there, or
-- else the one that `made` gives. If that is not NULL, then after any passes of the timer that come less
-- than the time of the hp_expire after the call's `now` it is still there, and `free` was called for the id
-- no more often than before the call; after passes of which one comes that time later or more, `free` was
-- called once more, on it, and it is NULL.
pub expire_get-ticks :
    {D : Type 0} (ops : Dict D) (id : Bytes) (made : Option ℕ) (now : ℕ) (nows : List ℕ)
    (e : Expire D)
    → IsDict ops
    → (expire_get ops id made now e).0 ≢ 0
    → ((expire_get ops id made now e).0 ≡ object_or (object_of (ops.find id e.dic)) made)
      × (cli : Expiring) × (cli.p ≡ (expire_get ops id made now e).0)
      × (cli.freed ≡ freed_of (ops.find id e.dic))
      × (ops.find id (ticks ops nows (expire_get ops id made now e).1).dic
          ≡ some (after_ticks (is_due (now + e.ms) nows) cli))
unfolding expire_get
expire_get-ticks ops id made now nows e law n =
    let cli : Expiring = record (refill made (or_new (ops.find id e.dic))) { t = now } in
    (
      refill-p made (or_new (ops.find id e.dic))
          ∙ ap (λ p. object_or p made) (or_new-object (ops.find id e.dic)),
      cli,
      refl,
      refill-freed made (or_new (ops.find id e.dic)) ∙ or_new-freed (ops.find id e.dic),
      after ops law id nows (record e { dic = ops.set id cli e.dic }) cli (law.same id cli e.dic) n,
    )
