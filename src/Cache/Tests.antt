-- ===== src/Cache/Tests.antt =====
-- src/hp_cache.c at concrete files.
use libhp.Common.{◌≡◌, refl, none, some, [], ◌∷◌, arith, put, Bytes}
use libhp.Common.Int.{pos, negsuc}
use libhp.Cache.{
  Cache, cache_get, on_stat, cached, on_entry, read_into, read_new, fail_with, entry_free, find_key,
  first_empty, same_key, lower,
}
use libhp.Cache.Hit.{cache_get-cache_get}

abbrev fresh : Cache
fresh = record { htab = none ∷ none ∷ []; heap = λ p. none; next = 1 }

abbrev page : Bytes
page = b'a' ∷ b'.' ∷ b'h' ∷ []

cache_get-cache_get_example :
    (c : Cache) × (cache_get page
        (record { stat = some (2, 99); content = some (7 ∷ 8 ∷ []) })
        fresh
      ≡ some (record { code = pos 0; entp = some 1; cache = c }))
    × (c.heap 1 ≡ some (record { buf = 7 ∷ 8 ∷ []; size = 2; chksum = 99 }))
    × (cache_get page (record { stat = some (5, 99); content = none }) c
        ≡ some (record { code = pos 0; entp = some 1; cache = c }))
unfolding find_key first_empty
cache_get-cache_get_example =
    cache_get-cache_get b'a' (b'.' ∷ b'h' ∷ []) (7 ∷ 8 ∷ []) 99 5 0 none fresh (omega arith)
      (omega arith) refl refl

abbrev holding : Cache
holding = record {
  htab = some (record { key = page; data_ = 1 }) ∷ none ∷ [];
  heap = put 1 (some (record { buf = 7 ∷ 8 ∷ []; size = 2; chksum = 99 })) (λ p. none);
  next = 2;
}

-- A file that changed and cannot be opened: its entry is freed, and its slot still points to it.
slot_dangles :
    (c : Cache) × (cache_get page (record { stat = some (3, 100); content = none }) holding
      ≡ some (record { code = negsuc 4; entp = some 1; cache = c }))
    × (c.htab ≡ some (record { key = page; data_ = 1 }) ∷ none ∷ [])
    × (c.heap 1 ≡ none)
unfolding cache_get on_stat cached on_entry read_into fail_with entry_free find_key same_key lower
slot_dangles = (_, refl, refl, refl)

-- The next call for that file reads the entry that was freed.
dangling_slot_read :
    cache_get page
      (record { stat = some (3, 100); content = some (7 ∷ 8 ∷ 9 ∷ []) })
      (record holding { heap = λ p. none })
    ≡ none
unfolding cache_get on_stat cached on_entry find_key same_key lower
dangling_slot_read = refl

-- An empty file: the first byte of a buffer without one is written.
empty_file : cache_get page (record { stat = some (0, 100); content = some [] }) fresh ≡ none
unfolding cache_get on_stat cached read_new read_into find_key first_empty
empty_file = refl
