-- ===== src/Str/Rewrite.antt =====
-- The header that hp_http_modify_header of src/hp_str.c finds gets the new value.
use libhp.Common.{
  ℕ, ◌+◌, ◌-◌, ◌%◌, ◌^◌, ◌≤◌, ◌<◌, ◌≡◌, ap, ◌∙◌, sym, true, Option, none, some, ◌∷◌, ◌++◌,
  append_assoc, arith, length, length-append, drop, Bytes,
}
use libhp.Common.Int.{pos}
use libhp.Str.Header.{has_prefix, find_header, find_value, on_header, http_modify_header}
use libhp.Str.Located.{
  NotBefore, AllSeparators, IsValue, has_prefix-append, find_header-found, find_value-separators,
  find_value-value,
}
use libhp.Str.Replaced.{Expects, length-append3, drop-append3, append_assoc4, on_header_value-put}

not_past : (a b : ℕ) → a ≤ b → b < 2 ^ 64 → (b + 2 ^ 64 - a) % 2 ^ 64 ≡ b - a
not_past a b h small = omega arith

-- A message whose header is `name`, `seps` and `value`, with `back` and `more` behind it.
message-split :
    (pre name seps value back more : Bytes)
    → pre ++ name ++ seps ++ value ++ back ++ more ≡ pre ++ name ++ seps ++ (value ++ back ++ more)
message-split pre name seps value back more =
    append_assoc4 (pre ++ name ++ seps) value back more
    ∙ ap (λ ws. pre ++ name ++ seps ++ ws) (sym (append_assoc value back more))

find_header-message :
    (hdr pre name seps value back more : Bytes)
    → length name ≡ length hdr
    → has_prefix hdr name ≡ some true
    → NotBefore hdr pre (name ++ (seps ++ (value ++ back ++ more)))
    → 0 < length back
    → length (pre ++ name ++ seps ++ value ++ back) < 2 ^ 64
    → find_header hdr
        ((length (pre ++ name ++ seps ++ value ++ back) + 2 ^ 64 - length hdr) % 2 ^ 64)
        0
        (pre ++ name ++ seps ++ value ++ back ++ more)
      ≡ some (some (length pre))
find_header-message hdr pre name seps value back more same_len found no_match some_back small =
    let text = seps ++ (value ++ back ++ more) in
    let len = length-append3 (pre ++ name ++ seps) value back in
    let front_len = length-append3 pre name seps in
    let text_len = length-append seps (value ++ back ++ more) in
    let rest_len = length-append3 value back more in
    let name_len = length-append name text in
    let split =
      message-split pre name seps value back more
      ∙ append_assoc4 pre name seps (value ++ back ++ more) in
    let bound =
      not_past (length hdr) (length (pre ++ name ++ seps ++ value ++ back))
        (omega (arith, len, front_len)) small in
    ap
      (find_header hdr
        ((length (pre ++ name ++ seps ++ value ++ back) + 2 ^ 64 - length hdr) % 2 ^ 64) 0)
      split
    ∙ ap (λ n. find_header hdr n 0 (pre ++ (name ++ text))) bound
    ∙ find_header-found hdr pre (name ++ text)
        (length (pre ++ name ++ seps ++ value ++ back) - length hdr) 0 no_match
        (omega (arith, len, front_len)) (omega (arith, text_len, rest_len, name_len))
        (has_prefix-append hdr name text found)
    ∙ ap (λ n. some (some n)) (omega arith)

find_value-message :
    (hdr pre name seps value rest more : Bytes)
    → length name ≡ length hdr
    → AllSeparators seps
    → IsValue value
    → let mem = pre ++ name ++ seps ++ value ++ 13 ∷ 10 ∷ rest ++ more in
      find_value (drop (length pre + length hdr) mem) (length pre + length hdr) none
      ≡ some (some (length (pre ++ name ++ seps), length (pre ++ name ++ seps) + length value))
find_value-message hdr pre name seps value rest more same_len blanks one_line =
    let text = value ++ 13 ∷ 10 ∷ rest ++ more in
    let mem = pre ++ name ++ seps ++ value ++ 13 ∷ 10 ∷ rest ++ more in
    let front_len = length-append3 pre name seps in
    let p : length pre + length hdr ≡ length pre + length name = omega arith in
    let v : length pre + length hdr + length seps ≡ length (pre ++ name ++ seps) =
      omega (arith, front_len) in
    let split =
      message-split pre name seps value (13 ∷ 10 ∷ rest) more
      ∙ append_assoc (pre ++ name) seps text in
    let dropped : drop (length pre + length hdr) mem ≡ seps ++ text =
      ap (λ n. drop n mem) p
      ∙ ap (drop (length pre + length name)) split
      ∙ drop-append3 pre name (seps ++ text) in
    ap (λ t. find_value t (length pre + length hdr) none) dropped
    ∙ find_value-separators seps text (length pre + length hdr) blanks
    ∙ ap (λ t. find_value t (length pre + length hdr + length seps) none)
        (append_assoc value (13 ∷ 10 ∷ rest) more)
    ∙ find_value-value value (rest ++ more) (length pre + length hdr + length seps) one_line
    ∙ ap (λ n. some (some (n, n + length value))) v

-- A message with the header `name: value`, where `hdr` is `name` but for the case and stands nowhere
-- before it: http_modify_header puts the new value in the place of the old one, if that is the one it
-- expects, and `*len` and the rest of the message follow. The memory behind must have room for
-- it. The message and the new value are of less than 2^31 bytes, and the new value is not NULL.
pub http_modify_header-value :
    (hdr pre name seps value rest more new : Bytes) (ovalue : Option Bytes)
    → length name ≡ length hdr
    → has_prefix hdr name ≡ some true
    → NotBefore hdr pre (name ++ (seps ++ (value ++ 13 ∷ 10 ∷ rest ++ more)))
    → AllSeparators seps
    → IsValue value
    → Expects ovalue value
    → length (pre ++ name ++ seps ++ value ++ 13 ∷ 10 ∷ rest) < 2 ^ 31
    → length new < 2 ^ 31
    → length (pre ++ name ++ seps ++ new ++ 13 ∷ 10 ∷ rest)
      ≤ length (pre ++ name ++ seps ++ value ++ 13 ∷ 10 ∷ rest ++ more)
    → http_modify_header
        (pre ++ name ++ seps ++ value ++ 13 ∷ 10 ∷ rest ++ more)
        (length (pre ++ name ++ seps ++ value ++ 13 ∷ 10 ∷ rest))
        (some hdr)
        (some new)
        ovalue
      ≡ some (
        pos 0,
        length (pre ++ name ++ seps ++ new ++ 13 ∷ 10 ∷ rest),
        pre
            ++ name
            ++ seps
            ++ new
            ++ 13 ∷ 10 ∷ rest
            ++ drop
                (length (pre ++ name ++ seps ++ new ++ 13 ∷ 10 ∷ rest))
                (pre ++ name ++ seps ++ value ++ 13 ∷ 10 ∷ rest ++ more),
      )
unfolding http_modify_header on_header
http_modify_header-value hdr pre name seps value rest more new ovalue same_len found no_match blanks
      one_line expected small small_new room =
    let at =
      find_header-message hdr pre name seps value (13 ∷ 10 ∷ rest) more same_len found no_match
        (ground arith) (omega arith) in
    let in_line = find_value-message hdr pre name seps value rest more same_len blanks one_line in
    rw (at, in_line)
      (on_header_value-put ovalue (pre ++ name ++ seps) value (13 ∷ 10 ∷ rest) more new expected
        room)
