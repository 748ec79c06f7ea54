-- ===== src/Str/Header.antt =====
-- hp_http_modify_header of src/hp_str.c, which replaces the value of a header in a message.
use libhp.Common.{
  ℕ, ◌+◌, ◌-◌, ◌%◌, ◌^◌, Bool, true, false, not, ◌&&◌, ◌||◌, Option, none, some, [], ◌∷◌, ◌++◌, ltb,
  leb, ◌==◌, if◌then◌else◌, length, take, drop, Bytes,
}
use libhp.Common.Int.{ℤ, pos, negsuc}
use libhp.Str.{lower_char}

-- `strncasecmp(text, hdr, strlen(hdr)) == 0`; `none` is a read behind the memory.
unfoldable pub has_prefix : Bytes → Bytes → Option Bool
unfolding lower_char
has_prefix [] text = some true
has_prefix (h ∷ hs) [] = none
has_prefix (h ∷ hs) (c ∷ cs) =
    let rest = has_prefix hs cs in if lower_char h == lower_char c then rest else some false

-- Where the header is, among the places `i` below `bound`.
unfoldable pub find_header : Bytes → ℕ → ℕ → Bytes → Option (Option ℕ)
unfolding has_prefix
find_header hdr bound i [] = if ltb i bound then none else some none
find_header hdr bound i (c ∷ cs) =
    let rest = find_header hdr bound (i + 1) cs in
    if ltb i bound
    then elim (has_prefix hdr (c ∷ cs)) [
      | none ↦ none
      | some true ↦ some (some i)
      | some false ↦ rest
    ]
    else some none

unfoldable pub is_separator : ℕ → Bool
is_separator c = (c == 58) || ((c == 32) || (c == 9))

-- `if(!v && ...) v = p;`
unfoldable pub or_here : Option ℕ → Bool → ℕ → Option ℕ
or_here (some v) here p = some v
or_here none here p = if here then some p else none

-- Whether a line ends at the first byte; `none` is a read behind the memory.
unfoldable pub ends_line : ℕ → Bytes → Option Bool
ends_line c [] = if c == 13 then none else some false
ends_line c (d ∷ ds) = some ((c == 13) && (d == 10))

-- The first and the end of the value: `some none` where the line ends before both are known.
unfoldable pub find_value : Bytes → ℕ → Option ℕ → Option (Option (ℕ × ℕ))
unfolding or_here ends_line is_separator
find_value [] p v = none
find_value (c ∷ cs) p v =
    let v' = or_here v (not (is_separator c)) p in
    let rest = find_value cs (p + 1) v' in
    if c == 10 then some none else elim (ends_line c cs) [
      | none ↦ none
      | some true ↦ elim v' [ none ↦ some none | some v'' ↦ some (some (v'', p)) ]
      | some false ↦ rest
    ]

-- `!ovalue`, or the value is `ovalue`.
unfoldable pub has_value : Option Bytes → Bytes → ℕ → Option Bool
unfolding has_prefix
has_value none text n = some true
has_value (some o) text n =
    let same = has_prefix o text in if length o == n then same else some false

-- The value from `v` to `vend` becomes `new`: memmove, unless the lengths agree, and memcpy.
unfoldable pub put_value : Bytes → ℕ → ℕ → ℕ → Bytes → Option (ℤ × ℕ × Bytes)
put_value mem len v vend new =
    if length new == vend - v
    then some (pos 0, len, take v mem ++ new ++ drop vend mem)
    else let len' = len + length new - (vend - v) in
      if leb vend len && (leb len (length mem) && leb len' (length mem))
      then some (pos 0, len', take v mem ++ new ++ drop vend (take len mem) ++ drop len' mem)
      else none

unfoldable pub on_header_value :
    Option Bytes → Option Bytes → Bytes → ℕ → Option (Option (ℕ × ℕ)) → Option (ℤ × ℕ × Bytes)
unfolding has_value put_value
on_header_value nvalue ovalue mem len none = none
on_header_value nvalue ovalue mem len (some none) = some (negsuc 0, len, mem)
on_header_value nvalue ovalue mem len (some (some (v, vend))) =
    elim (has_value ovalue (drop v mem) (vend - v)) [
      | none ↦ none
      | some false ↦ some (negsuc 0, len, mem)
      | some true ↦ put_value mem len v vend (elim nvalue [ none ↦ [] | some new ↦ new ])
    ]

unfoldable pub on_header :
    Bytes → Option Bytes → Option Bytes → Bytes → ℕ → Option (Option ℕ) → Option (ℤ × ℕ × Bytes)
unfolding on_header_value find_value
on_header hdr nvalue ovalue mem len none = none
on_header hdr nvalue ovalue mem len (some none) = some (pos 1, len, mem)
on_header hdr nvalue ovalue mem len (some (some i)) =
    on_header_value nvalue ovalue mem len
      (find_value (drop (i + length hdr) mem) (i + length hdr) none)

-- The lengths of the header, of its value and of the new value are exact: `int nhdr`, `nhdrvalue`, `nnvalue`
-- and `nc` hold them below 2^31 bytes, and from there on this is not the code.
-- The memory from `buf` on, with the message in its first `*len` bytes: the result, `*len` and the
-- memory after it. `none` is an access outside the memory.
unfoldable pub http_modify_header :
    Bytes → ℕ → Option Bytes → Option Bytes → Option Bytes → Option (ℤ × ℕ × Bytes)
unfolding on_header find_header
http_modify_header mem len none nvalue ovalue = some (negsuc 0, len, mem)
http_modify_header mem len (some hdr) nvalue ovalue =
    on_header hdr nvalue ovalue mem len
      (find_header hdr ((len + 2 ^ 64 - length hdr) % 2 ^ 64) 0 mem)
