-- ===== src/Cache.antt =====
-- src/hp_cache.c: a table of ten cached files. Entries are on a heap, `none` once they are freed; what
-- `stat`, `fopen` and `fread` give of a file is a parameter. The result `none` is an access to an entry that
-- was freed, or behind the end of a buffer.
pub mod Hit
mod Tests
use libhp.Common.{
  ℕ, zero, suc, ◌+◌, Bool, true, false, ◌&&◌, Option, none, some, List, [], ◌∷◌, leb, ◌==◌,
  if◌then◌else◌, length, take, set, put, Bytes,
}
use libhp.Common.Int.{ℤ, pos, negsuc}

-- `struct hp_cache_entry`
pub record CacheEntry : Type 0 where
  pub buf : Bytes
  pub size : ℕ
  pub chksum : ℕ

-- `struct htab_entry`: a slot that is in use.
pub record Slot : Type 0 where
  pub key : Bytes
  pub data_ : ℕ

-- `struct hp_cache` with the heap of the entries.
pub record Cache : Type 0 where
  pub htab : List (Option Slot)
  pub heap : ℕ → Option CacheEntry
  pub next : ℕ

-- A file: the size and the time of `stat`, or `none`; and its bytes, or `none` where `fopen` fails.
pub record File : Type 0 where
  pub stat : Option (ℕ × ℕ)
  pub content : Option Bytes

-- The return value, what `*entpp` is set to, if it is, and the cache.
pub record Got : Type 0 where
  pub code : ℤ
  pub entp : Option ℕ
  pub cache : Cache

-- tolower
unfoldable pub lower : ℕ → ℕ
lower c = if leb 65 c && leb c 90 then c + 32 else c

-- strcasecmp(a, b) == 0
unfoldable pub same_key : Bytes → Bytes → Bool
unfolding lower
same_key [] [] = true
same_key [] (y ∷ ys) = false
same_key (x ∷ xs) [] = false
same_key (x ∷ xs) (y ∷ ys) = (lower x == lower y) && same_key xs ys

abbrev pub shift : {A : Type 0} → Option (ℕ × A) → Option (ℕ × A)
shift none = none
shift (some (i, a)) = some (suc i, a)

abbrev pub shift_index : Option ℕ → Option ℕ
shift_index none = none
shift_index (some i) = some (suc i)

-- The first slot that is empty.
unfoldable pub first_empty : List (Option Slot) → Option ℕ
first_empty [] = none
first_empty (none ∷ htab) = some 0
first_empty (some s ∷ htab) = shift_index (first_empty htab)

-- The first slot of the key.
unfoldable pub find_key : Bytes → List (Option Slot) → Option (ℕ × Slot)
unfolding same_key
find_key key [] = none
find_key key (none ∷ htab) = shift (find_key key htab)
find_key key (some s ∷ htab) =
    let rest = shift (find_key key htab) in if same_key key s.key then some (0, s) else rest

-- hp_cache_entry_free
unfoldable pub entry_free : ℕ → Cache → Cache
entry_free entp c = record c { heap = put entp none c.heap }

-- `failed:`
unfoldable pub fail_with : ℤ → ℕ → Cache → Got
unfolding entry_free
fail_with code entp c = record { code = code; entp = some entp; cache = entry_free entp c }

-- Where an entry goes: its old slot, a new one, or nowhere.
pub data Place : Type 0 where
  old : ℕ → Place
  new_ : ℕ → Place
  full : Place

unfoldable pub place_in : Place → Bytes → ℕ → Cache → Got
unfolding fail_with
place_in (old i) key entp c = record { code = pos 0; entp = some entp; cache = c }
place_in (new_ i) key entp c = record {
  code = pos 0;
  entp = some entp;
  cache = record c { htab = set c.htab i (some (record { key = take 64 key; data_ = entp })) };
}
place_in full key entp c = fail_with (negsuc 7) entp c

abbrev pub with_entry : ℕ → Bytes → ℕ → ℕ → Cache → Cache
with_entry entp buf size chksum c = record c {
  heap = put entp (some (record { buf = buf; size = size; chksum = chksum })) c.heap;
}

-- The file is read into the entry, whose buffer is of `size` bytes: `entp->buf[0] = '\0'` is behind its end if
-- that is 0.
unfoldable pub read_into : Option Bytes → Place → Bytes → ℕ → ℕ → ℕ → Cache → Option Got
unfolding place_in fail_with
read_into none place key entp size mtime c = some (fail_with (negsuc 4) entp c)
read_into (some bytes) place key entp size mtime c =
    if size == 0
    then none
    else if leb size (length bytes)
    then some (place_in place key entp (with_entry entp (take size bytes) size mtime c))
    else some (fail_with (negsuc 5) entp (with_entry entp bytes size mtime c))

abbrev pub place_of : Option ℕ → Place
place_of (some i) = new_ i
place_of none = full

-- hp_cache_entry_alloc
unfoldable pub read_new : Option Bytes → Bytes → ℕ → ℕ → Cache → Option Got
unfolding read_into
read_new content key size mtime c =
    read_into content (place_of (first_empty c.htab)) key c.next size mtime
      (record c { next = c.next + 1 })

-- The entry that a slot points to: its time is compared, unless it was freed.
unfoldable pub on_entry :
    Option CacheEntry → ℕ → ℕ → Option Bytes → Bytes → ℕ → ℕ → Cache → Option Got
unfolding read_into
on_entry none i entp content key size mtime c = none
on_entry (some e) i entp content key size mtime c =
    if mtime == e.chksum
    then some (record { code = pos 0; entp = some entp; cache = c })
    else read_into content (old i) key entp size mtime c

unfoldable pub cached : Option (ℕ × Slot) → Option Bytes → Bytes → ℕ → ℕ → Cache → Option Got
unfolding on_entry read_new
cached none content key size mtime c = read_new content key size mtime c
cached (some (i, s)) content key size mtime c =
    on_entry (c.heap s.data_) i s.data_ content key size mtime c

unfoldable pub on_stat : Option (ℕ × ℕ) → Option Bytes → Bytes → Cache → Option Got
unfolding cached find_key
on_stat none content key c = some (record { code = pos 1; entp = none; cache = c })
on_stat (some (size, mtime)) content key c = cached (find_key key c.htab) content key size mtime c

-- hp_cache_get, for a key that fits its slot with the final NUL.
unfoldable pub cache_get : Bytes → File → Cache → Option Got
unfolding on_stat
cache_get [] file c = some (record { code = negsuc 2; entp = none; cache = c })
cache_get (k ∷ ks) file c = on_stat file.stat file.content (k ∷ ks) c
