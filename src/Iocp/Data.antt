-- ===== src/Iocp/Data.antt =====
-- The state of src/hp_iocp.c: the items, what they write, and the messages to the polling thread.
use libhp.Common.{
  ℕ, zero, suc, Bool, true, false, not, ◌||◌, ◌==◌, Option, none, some, List, [], ◌∷◌, ◌++◌,
  if◌then◌else◌, map, Bytes,
}
use libhp.Iocp.Search.{bsearch}

-- A callback: the client's, by its address, or the one that hp_iocp_rm puts in its place.
pub data Fn : Type 0 where
  user : ℕ → Fn
  default : Fn

-- Events of `poll`, as a set.
pub record Flags : Type 0 where
  pub pollin : Bool
  pub pollout : Bool
  pub pollerr : Bool
  pub pollhup : Bool

abbrev pub no_flags : Flags
no_flags = record { pollin = false; pollout = false; pollerr = false; pollhup = false }

-- POLLIN | POLLOUT
abbrev pub in_out : Flags
in_out = record no_flags { pollin = true; pollout = true }

-- flags == 0
abbrev pub is_empty : Flags → Bool
is_empty f = not (f.pollin || f.pollout || f.pollerr || f.pollhup)

-- `item->err`: a system error, or the flags of a socket.
pub data Err : Type 0 where
  sys : ℕ → Err
  flagged : Flags → Err

abbrev pub is_err : Err → Bool
is_err (sys n) = not (n == 0)
is_err (flagged f) = not (is_empty f)

-- `struct hp_iocp_ol`, allocated at `addr`. For a read `ptr` is NULL, which is 0.
pub record Ol : Type 0 where
  pub addr : ℕ
  pub id : ℕ
  pub ptr : ℕ
  pub free : Option ℕ
  pub buf : Bytes

-- `struct hp_iocp_item`; `ibuf` has room for `ibuf_cap` bytes.
pub record Item : Type 0 where
  pub id : ℕ
  pub fd : ℕ
  pub obuf : List Ol
  pub ibuf : Bytes
  pub ibuf_cap : ℕ
  pub ibytes : ℕ
  pub obytes : ℕ
  pub on_accept : Option Fn
  pub on_data : Option Fn
  pub on_error : Option Fn
  pub on_loop : Option Fn
  pub err : Err
  pub arg : ℕ

-- A message to the polling thread.
pub data Msg : Type 0 where
  wm_add : ℕ → ℕ → Msg
  wm_rm : ℕ → Flags → Msg

-- `struct hp_iocp` with the messages that were posted, the calls of `free` callbacks, the addresses of
-- the hp_iocp_ol that were freed, those that the system is sending, and the client's state.
pub record Iocp (W : Type 0) : Type 0 where
  pub items : List Item
  pub cap : ℕ
  pub ioid : ℕ
  pub posted : List Msg
  pub freed : List (ℕ × ℕ)
  pub deleted : List ℕ
  pub next : ℕ
  pub sends : ℕ
  pub sending : List Ol
  pub n_dmsg0 : ℕ
  pub n_dmsg1 : ℕ
  pub client : W

module _ {A : Type 0} where
  -- memmove over the element, in a vector
  unfoldable pub remove_at : ℕ → List A → List A
  remove_at i [] = []
  remove_at zero (x ∷ xs) = xs
  remove_at (suc i) (x ∷ xs) = x ∷ remove_at i xs

  unfoldable pub update_at : ℕ → (A → A) → List A → List A
  update_at i f [] = []
  update_at zero f (x ∷ xs) = f x ∷ xs
  update_at (suc i) f (x ∷ xs) = x ∷ update_at i f xs

module _ {W : Type 0} where
  abbrev pub ids : Iocp W → List ℕ
  ids s = map (λ x. x.id) s.items

  -- hp_iocp_item_find: the index of the item
  unfoldable pub item_find : Iocp W → ℕ → Option ℕ
  unfolding bsearch
  item_find s id = bsearch (ids s) id

  unfoldable pub set_item : ℕ → (Item → Item) → Iocp W → Iocp W
  unfolding update_at
  set_item i f s = record s { items = update_at i f s.items }

  -- hp_iocp_msg_post to the polling thread
  unfoldable pub post : Msg → Iocp W → Iocp W
  post m s = record s { posted = s.posted ++ m ∷ [] }

  unfoldable pub call_free : Option ℕ → ℕ → Iocp W → Iocp W
  call_free (some f) ptr s = record s { freed = s.freed ++ (f, ptr) ∷ [] }
  call_free none ptr s = s

  -- hp_iocp_ol_del
  unfoldable pub ol_del : Ol → Iocp W → Iocp W
  unfolding call_free
  ol_del ol s =
      let s' = call_free ol.free ol.ptr s in record s' { deleted = s'.deleted ++ ol.addr ∷ [] }

  -- hp_iocp_ol_newo
  unfoldable pub ol_newo : ℕ → ℕ → Bytes → Option ℕ → ℕ → Iocp W → Ol
  ol_newo id data_ bytes freecb ptr s = record {
    addr = s.next;
    id = id;
    ptr = if ptr == 0 then data_ else ptr;
    free = freecb;
    buf = bytes;
  }
