-- ===== src/Io/Write.antt =====
-- `struct hp_wr` of src/hp_io.c: the queue of items to write. `o_items` holds the first
-- `o_items_len` elements of the array. The calls of `free` callbacks and of `write_error` are
-- written to logs. The build has HAVE_SYS_UIO_H.
pub mod Capacity
pub mod Moves
pub mod Account
pub mod Flush
pub mod Round
pub mod Totals
mod Tests
use libhp.Common.{
  ℕ, zero, suc, ◌+◌, ◌-◌, ◌*◌, ◌/◌, ◌%◌, ◌^◌, Bool, true, false, ◌&&◌, ◌||◌, Option, none, some,
  List, [], ◌∷◌, ◌++◌, map, min, ltb, leb, ◌==◌, if◌then◌else◌, length, take, drop, get_elem?,
  Bytes,
}
use libhp.Common.Int.{int_nonpos}
use libhp.Io.Os.{Os, Kernel, eagain}
use libhp.Io.Vec.{Iovec, Uio, iovec_total_bytes, uio_write}

abbrev pub Ptr : Type 0
Ptr = ℕ

abbrev pub null : Ptr
null = 0

-- A value of `hp_free_t`: 0, -1, or a function.
pub data FreeFn : Type 0 where
  null_fn : FreeFn
  copy_fn : FreeFn
  fn : ℕ → FreeFn

-- `free` of the C library
abbrev pub libc_free : FreeFn
libc_free = fn 0

-- `struct hp_uio_item`
pub record Item : Type 0 where
  pub ptr : Ptr
  pub free : FreeFn
  pub vec : Iovec

-- A call of `item->free(item->ptr)`.
abbrev pub Call : Type 0
Call = FreeFn × Ptr

pub record Wr : Type 0 where
  pub o_items : List Item
  pub init_len : ℕ
  pub items_cap : ℕ
  pub allocated : Bool
  pub o_bytes : ℕ
  pub has_write_error : Bool
  pub err : ℕ
  pub freed : List Call
  pub reported : List ℕ

abbrev pub add_size : ℕ → ℕ → ℕ
add_size a b = (a + b) % 2 ^ 64

unfoldable pub wr_init : ℕ → Bool → Wr
wr_init n has_write_error =
    let len = if int_nonpos n then 8 else n in
    record {
      o_items = [];
      init_len = len;
      items_cap = len;
      allocated = true;
      o_bytes = 0;
      has_write_error = has_write_error;
      err = 0;
      freed = [];
      reported = [];
    }

-- The length that `hp_wr_add` gives the array before it writes to it.
unfoldable pub reserve : ℕ → ℕ → ℕ → ℕ
reserve init_len items_cap o_items_len =
    if leb (items_cap - o_items_len) 3
    then items_cap * 2
    else if ltb init_len items_cap && ltb (o_items_len + 2) (items_cap / 2)
    then items_cap / 2
    else items_cap

-- The item that is queued; `fresh` is what `malloc` returns for a copy.
unfoldable pub new_item : Ptr → Bytes → FreeFn → Ptr → Ptr → Item
new_item iov_base bytes copy_fn ptr fresh = record { ptr = fresh; free = libc_free; vec = bytes }
new_item iov_base bytes null_fn ptr fresh = record {
  ptr = if ptr == null then iov_base else ptr;
  free = null_fn;
  vec = bytes;
}
new_item iov_base bytes (fn f) ptr fresh = record {
  ptr = if ptr == null then iov_base else ptr;
  free = fn f;
  vec = bytes;
}

-- `none` is the return value -1.
unfoldable pub wr_add : Wr → Ptr → Bytes → FreeFn → Ptr → Ptr → Option Wr
unfolding reserve new_item
wr_add wr iov_base bytes freecb ptr fresh =
    if iov_base == null
    then none
    else some (record wr {
      items_cap = reserve wr.init_len wr.items_cap (length wr.o_items);
      o_items = wr.o_items ++ new_item iov_base bytes freecb ptr fresh ∷ [];
    })

-- The calls that `hp_etio_del_n` makes for the items it removes.
unfoldable pub release : FreeFn → Ptr → List Call
release null_fn ptr = []
release copy_fn ptr = if ptr == null then [] else (copy_fn, ptr) ∷ []
release (fn f) ptr = if ptr == null then [] else (fn f, ptr) ∷ []

unfoldable pub releases : List Item → List Call
releases [] = []
releases (x ∷ items) = release x.free x.ptr ++ releases items

unfoldable pub del_n : Wr → ℕ → Wr
unfolding releases release
del_n wr n = record wr {
  o_items = drop n wr.o_items;
  freed = wr.freed ++ releases (take n wr.o_items);
}

-- The loop of `hp_wr_bytes`; `n` is an `int`.
unfoldable pub bytes_loop : List Item → ℕ → ℕ
bytes_loop [] n = n
bytes_loop (x ∷ items) n = bytes_loop items ((n + length x.vec) % 2 ^ 32)

unfoldable pub wr_bytes : Wr → ℕ
unfolding bytes_loop
wr_bytes wr = bytes_loop wr.o_items 0

unfoldable pub wr_clear : Wr → Wr
unfolding del_n
wr_clear wr = del_n wr (length wr.o_items)

-- What `hp_wr_uninit` frees: the items, and then the array.
unfoldable pub wr_uninit : Wr → Wr
unfolding wr_clear
wr_uninit wr = record (wr_clear wr) { allocated = false }

-- `wr->o_items[n].vec = v`
unfoldable pub set_vec : List Item → ℕ → Iovec → List Item
set_vec [] n v = []
set_vec (x ∷ items) zero v = record x { vec = v } ∷ items
set_vec (x ∷ items) (suc n) v = x ∷ set_vec items n v

-- The last item of the round keeps its unwritten bytes.
unfoldable pub adjust : List Item → ℕ → List Iovec → List Item
unfolding set_vec
adjust items n vec = elim (get_elem? vec n) [ none ↦ items | some v ↦ set_vec items n v ]

-- What `hp_wr_write` returns, and the queue and the descriptor after it.
pub record Flushed : Type 0 where
  pub bytes : ℕ
  pub wr : Wr
  pub os : Os

-- The check of the write result: go on, wait, or report the error.
unfoldable pub check_result : (Wr → Os → ℕ → Option Flushed) → ℕ → Wr → Os → ℕ → Option Flushed
check_result again err wr os o_bytes =
    if err == 0
    then again wr os o_bytes
    else if err == eagain
    then some (record { bytes = o_bytes; wr = wr; os = os })
    else some (record {
      bytes = o_bytes;
      wr = record wr {
        reported = if wr.has_write_error then wr.reported ++ err ∷ [] else wr.reported;
        err = err;
      };
      os = os;
    })

-- The rest of a round, when `hp_uio_write` has returned.
unfoldable pub written : (Wr → Os → ℕ → Option Flushed) → Wr → ℕ → ℕ → Option Uio → Option Flushed
unfolding check_result adjust del_n
written again wr vec_len o_bytes none = none
written again wr vec_len o_bytes (some u) =
    let items = if ltb u.n vec_len then adjust wr.o_items u.n u.vec else wr.o_items in
    check_result again u.err
      (del_n (record wr { o_items = items; o_bytes = add_size wr.o_bytes u.nwrite }) u.n) u.os
      (add_size o_bytes u.nwrite)

abbrev pub vecs : List Item → List Iovec
vecs = map (λ x. x.vec)

-- The loop of `hp_wr_write` on fuel; `none` means that the fuel ran out.
unfoldable pub wr_write_loop : ℕ → Kernel → ℕ → Wr → Os → ℕ → Option Flushed
unfolding written
wr_write_loop zero kernel iov_max wr os o_bytes = none
wr_write_loop (suc fuel) kernel iov_max wr os o_bytes =
    let again = wr_write_loop fuel kernel iov_max in
    let vec_len = min iov_max (length wr.o_items) in
    let vec = vecs (take vec_len wr.o_items) in
    let total = iovec_total_bytes vec in
    if length wr.o_items == 0
    then some (record { bytes = o_bytes; wr = wr; os = os })
    else if total == 0
    then again (del_n wr vec_len) os o_bytes
    else written again wr vec_len o_bytes (uio_write kernel os vec total)

-- `sysconf(_SC_IOV_MAX)`, or IOV_MAX where it has no limit
unfoldable pub iov_limit : ℕ → ℕ
iov_limit sysconf = if int_nonpos sysconf then 1024 else sysconf

-- Each round but the last takes an item off the queue at least.
unfoldable pub wr_write : Kernel → ℕ → Wr → Os → Option Flushed
unfolding wr_write_loop iov_limit
wr_write kernel sysconf wr os =
    wr_write_loop (length wr.o_items + 1) kernel (iov_limit sysconf) wr os 0
