-- ===== src/Cache/Hit.antt =====
-- A file that hp_cache_get of src/hp_cache.c read is found in the table as long as it does not change.
use libhp.Common.{
  ℕ, zero, suc, ◌+◌, ◌<◌, ◌≡◌, refl, sym, ap, ◌∙◌, true, false, inl, inr, Bool-cases, Option, none,
  some, List, [], ◌∷◌, arith, leb, ◌==◌, length, take, take_all, set, put-same, Bytes,
}
use libhp.Common.Int.{pos}
use libhp.Cache.{
  Slot, Cache, same_key, lower, first_empty, find_key, place_in, read_into, read_new, on_entry,
  cached, on_stat, cache_get, with_entry, shift_index, shift,
}

same_key_refl : (key : Bytes) → same_key key key ≡ true
unfolding same_key
same_key_refl [] = refl
same_key_refl (c ∷ cs) =
    let same : (lower c == lower c) ≡ true = ground arith in ground (arith, same, same_key_refl cs)

shift_index-some :
    (o : Option ℕ) (i : ℕ) → shift_index o ≡ some i → (j : ℕ) × (o ≡ some j) × (i ≡ suc j)
shift_index-some none i e = ground (arith, e)
shift_index-some (some j) i e = (j, refl, ground (arith, e))

shift-none : {A : Type 0} (o : Option (ℕ × A)) → shift o ≡ none → o ≡ none
shift-none none e = refl
shift-none (some (i, a)) e = ground (arith, e)

-- A key that was in no slot is found in the one that was empty.
find_key-set :
    (key : Bytes) (s : Slot) (htab : List (Option Slot)) (i : ℕ)
    → same_key key s.key ≡ true
    → find_key key htab ≡ none
    → first_empty htab ≡ some i
    → find_key key (set htab i (some s)) ≡ some (i, s)
unfolding find_key first_empty
find_key-set key s [] i e h f = ground (arith, f)
find_key-set key s (none ∷ htab) zero e h f = rw e refl
find_key-set key s (none ∷ htab) (suc i) e h f = ground (arith, f)
find_key-set key s (some t ∷ htab) i e h f = elim (Bool-cases (same_key key t.key)) [
  | inl m ↦ ground (arith, sym h ∙ found m)
  | inr m ↦
      let (j, q, p) = shift_index-some (first_empty htab) i f in
      behind m j p (find_key-set key s htab j e (shift-none (find_key key htab) (missed m)) q)
]
  where
    found : same_key key t.key ≡ true → find_key key (some t ∷ htab) ≡ some (0, t)
    found m = rw m refl

    missed : same_key key t.key ≡ false → shift (find_key key htab) ≡ none
    missed m = sym (skips m) ∙ h
      where
        skips :
            same_key key t.key ≡ false → find_key key (some t ∷ htab) ≡ shift (find_key key htab)
        skips m = rw m refl

    behind :
        same_key key t.key ≡ false
        → (j : ℕ) → i ≡ suc j
        → find_key key (set htab j (some s)) ≡ some (j, s)
        → find_key key (set (some t ∷ htab) i (some s)) ≡ some (i, s)
    behind m j p rest = rw (p, m) (ap shift rest)

-- For a key of 1 to 63 bytes that is in no slot, while a slot is empty, and a file that `stat` knows, that is not
-- empty and is read with the size that `stat` says: hp_cache_get returns 0 and a new entry with the file's bytes, size and time.
-- A second call, while `stat` gives the same time, returns 0 and that entry, does not need the file and
-- changes nothing.
pub cache_get-cache_get :
    (k : ℕ) (ks bytes : Bytes) (mtime size i : ℕ) (again : Option Bytes) (c : Cache)
    → length (k ∷ ks) < 64
    → 0 < length bytes
    → find_key (k ∷ ks) c.htab ≡ none
    → first_empty c.htab ≡ some i
    → (c' : Cache) × (cache_get
          (k ∷ ks)
          (record { stat = some (length bytes, mtime); content = some bytes })
          c
        ≡ some (record { code = pos 0; entp = some c.next; cache = c' }))
      × (c'.heap c.next ≡ some (record { buf = bytes; size = length bytes; chksum = mtime }))
      × (cache_get (k ∷ ks) (record { stat = some (size, mtime); content = again }) c'
          ≡ some (record { code = pos 0; entp = some c.next; cache = c' }))
unfolding cache_get on_stat cached read_new read_into place_in on_entry
cache_get-cache_get k ks bytes mtime size i again c short nonempty h f =
    let whole : leb (length bytes) (length bytes) ≡ true = ground arith in
    let has_bytes : (length bytes == 0) ≡ false = ground arith in
    let all : take (length bytes) bytes ≡ bytes = take_all (length bytes) bytes (omega arith) in
    let key_all : take 64 (k ∷ ks) ≡ k ∷ ks = take_all 64 (k ∷ ks) (omega arith) in
    let s : Slot = record { key = k ∷ ks; data_ = c.next } in
    let there = find_key-set (k ∷ ks) s c.htab i (same_key_refl (k ∷ ks)) h f in
    let stored =
      put-same c.next (some (record { buf = bytes; size = length bytes; chksum = mtime })) c.heap in
    let current : (mtime == mtime) ≡ true = ground arith in
    (
      record (with_entry c.next bytes (length bytes) mtime (record c { next = c.next + 1 })) {
        htab = set c.htab i (some s);
      },
      rw h (simp (f, has_bytes, whole, all, key_all) refl),
      stored,
      rw there (rw (stored, current) refl),
    )
