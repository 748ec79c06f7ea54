-- ===== src/Expire/Tests.antt =====
-- src/hp_expire.c with an association list for the dictionary.
use libhp.Common.{
  ◌+◌, ◌≡◌, refl, inl, inr, Bool-cases, true, Option, none, some, List, [], ◌∷◌, arith, Bytes,
  bytes_eq, bytes_eq_refl, if◌then◌else◌,
}
use libhp.Expire.{Expiring, Dict, Expire, expire_get, ticks}
use libhp.Expire.Ticks.{
  IsDict, map_some, after_ticks, is_due, object_of, object_or, freed_of, expire_get-ticks,
}

abbrev Entries : Type 0
Entries = List (Bytes × Expiring)

find : Bytes → Entries → Option Expiring
find k [] = none
find k ((k', x) ∷ d) = if bytes_eq k k' then some x else find k d

each : (Expiring → Expiring) → Entries → Entries
each f [] = []
each f ((k, x) ∷ d) = (k, f x) ∷ each f d

abbrev entries : Dict Entries
unfolding find each
entries = record { create = []; find = find; set = λ k x d. (k, x) ∷ d; each = each }

each-find :
    (k : Bytes) (f : Expiring → Expiring) (d : Entries) → find k (each f d) ≡ map_some f (find k d)
unfolding find each
each-find k f [] = refl
each-find k f ((k', x) ∷ d) = elim (Bool-cases (bytes_eq k k')) [
  | inl e ↦ rw e refl
  | inr e ↦ rw e (each-find k f d)
]

entries-IsDict : IsDict entries
unfolding find entries bytes_eq
entries-IsDict = record { same = same; mapped = each-find }
  where
    same : (k : Bytes) (x : Expiring) (d : Entries) → find k ((k, x) ∷ d) ≡ some x
    same k x d = rw (bytes_eq_refl k) refl

abbrev empty : Expire Entries
empty = record { dic = []; ms = 1000; has_timer = true }

abbrev key : Bytes
key = b'i' ∷ b'd' ∷ []

expire_get-ticks_example :
    ((expire_get entries key (some 77) 5000 empty).0
      ≡ object_or (object_of (entries.find key empty.dic)) (some 77))
    × (cli : Expiring) × (cli.p ≡ (expire_get entries key (some 77) 5000 empty).0)
    × (cli.freed ≡ freed_of (entries.find key empty.dic))
    × (entries.find key
          (ticks entries
            (5500 ∷ 6000 ∷ 6500 ∷ [])
            (expire_get entries key (some 77) 5000 empty).1).dic
        ≡ some (after_ticks (is_due (5000 + 1000) (5500 ∷ 6000 ∷ 6500 ∷ [])) cli))
unfolding expire_get entries
expire_get-ticks_example =
    expire_get-ticks entries key (some 77) 5000 (5500 ∷ 6000 ∷ 6500 ∷ []) empty entries-IsDict
      (omega arith)
