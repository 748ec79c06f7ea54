-- ===== src/Str/Replaced.antt =====
-- hp_http_modify_header of src/hp_str.c puts a new value in the place of one that it has found.
use libhp.Common.{
  ℕ, ◌+◌, ◌-◌, ◌≤◌, ◌≡◌, refl, sym, ap, ◌∙◌, inl, inr, Bool-cases, true, Option, none, some, ◌++◌,
  append_assoc, arith, leb, ◌==◌, length, length-append, take, drop, take-length_append,
  drop-length_append, Bytes,
}
use libhp.Common.Int.{pos}
use libhp.Str.Header.{has_prefix, has_value, put_value, on_header_value}
use libhp.Str.Located.{has_prefix-append}

pub length-append3 :
    (xs ys zs : Bytes) → length (xs ++ ys ++ zs) ≡ length xs + (length ys + length zs)
length-append3 xs ys zs = omega (arith, length-append (xs ++ ys) zs, length-append xs ys)

take-append3 : (xs ys zs : Bytes) → take (length xs) (xs ++ ys ++ zs) ≡ xs
take-append3 xs ys zs =
    ap (take (length xs)) (append_assoc xs ys zs) ∙ take-length_append xs (ys ++ zs)

pub drop-append3 : (xs ys zs : Bytes) → drop (length xs + length ys) (xs ++ ys ++ zs) ≡ zs
drop-append3 xs ys zs =
    ap (λ n. drop n (xs ++ ys ++ zs)) (sym (length-append xs ys)) ∙ drop-length_append (xs ++ ys) zs

pub append_assoc4 : (xs ys zs ws : Bytes) → xs ++ ys ++ zs ++ ws ≡ xs ++ (ys ++ (zs ++ ws))
append_assoc4 xs ys zs ws = append_assoc (xs ++ ys) zs ws ∙ append_assoc xs ys (zs ++ ws)

-- The message `front ++ value ++ back`, with `more` behind it, and the room for the new value.
put_value-put :
    (front value back more new : Bytes)
    → length (front ++ new ++ back) ≤ length (front ++ value ++ back ++ more)
    → put_value
        (front ++ value ++ back ++ more)
        (length (front ++ value ++ back))
        (length front)
        (length front + length value)
        new
      ≡ some (
        pos 0,
        length (front ++ new ++ back),
        front
            ++ new
            ++ back
            ++ drop (length (front ++ new ++ back)) (front ++ value ++ back ++ more),
      )
unfolding put_value
put_value-put front value back more new room =
    let old_len = length-append3 front value back in
    let new_len = length-append3 front new back in
    let mem_len = length-append (front ++ value ++ back) more in
    let split = append_assoc (front ++ value) back more in
    let before : take (length front) (front ++ value ++ back ++ more) ≡ front =
      ap (take (length front)) split ∙ take-append3 front value (back ++ more) in
    elim (Bool-cases (length new == length front + length value - length front)) [
      | inl y ↦
          let same : length (front ++ new ++ back) ≡ length (front ++ value ++ back) =
            ground (arith, old_len, new_len) in
          let behind : drop (length front + length value) (front ++ value ++ back ++ more)
              ≡ back ++ more =
            ap (drop (length front + length value)) split
            ∙ drop-append3 front value (back ++ more) in
          rw (y, same, before, behind, drop-length_append (front ++ value ++ back) more)
            (ap (λ m. some (pos 0, length (front ++ value ++ back), m))
              (sym (append_assoc (front ++ new) back more)))
      | inr z ↦
          let len : length (front ++ value ++ back)
                + length new
                - (length front + length value - length front)
              ≡ length (front ++ new ++ back) =
            omega (arith, old_len, new_len) in
          let end : leb (length front + length value) (length (front ++ value ++ back)) ≡ true =
            ground (arith, old_len) in
          let inside : leb (length (front ++ value ++ back))
                (length (front ++ value ++ back ++ more))
              ≡ true =
            ground (arith, mem_len) in
          let fits : leb (length (front ++ new ++ back)) (length (front ++ value ++ back ++ more))
              ≡ true =
            ground arith in
          rw
            (
              z,
              len,
              end,
              inside,
              fits,
              before,
              take-length_append (front ++ value ++ back) more,
              drop-append3 front value back,
            )
            refl
    ]

-- The old value that is asked for, if one is.
abbrev pub Expects : Option Bytes → Bytes → Type 0
Expects none value = Unit
Expects (some o) value = (length o ≡ length value) × (has_prefix o value ≡ some true)

has_value-Expects :
    (ovalue : Option Bytes) (value text : Bytes) (n : ℕ)
    → Expects ovalue value
    → n ≡ length value
    → has_value ovalue (value ++ text) n ≡ some true
unfolding has_value
has_value-Expects none value text n h e = refl
has_value-Expects (some o) value text n (h, same) e =
    let equal : (length o == n) ≡ true = ground arith in
    rw equal (has_prefix-append o value text same)

pub on_header_value-put :
    (ovalue : Option Bytes) (front value back more new : Bytes)
    → Expects ovalue value
    → length (front ++ new ++ back) ≤ length (front ++ value ++ back ++ more)
    → on_header_value
        (some new)
        ovalue
        (front ++ value ++ back ++ more)
        (length (front ++ value ++ back))
        (some (some (length front, length front + length value)))
      ≡ some (
        pos 0,
        length (front ++ new ++ back),
        front
            ++ new
            ++ back
            ++ drop (length (front ++ new ++ back)) (front ++ value ++ back ++ more),
      )
unfolding on_header_value
on_header_value-put ovalue front value back more new expected room =
    let rest : drop (length front) (front ++ value ++ back ++ more) ≡ value ++ (back ++ more) =
      ap (drop (length front)) (append_assoc4 front value back more)
      ∙ drop-length_append front (value ++ (back ++ more)) in
    let same : has_value ovalue (drop (length front) (front ++ value ++ back ++ more))
          (length front + length value - length front)
        ≡ some true =
      rw rest (
        has_value-Expects ovalue value (back ++ more) (length front + length value - length front)
          expected (omega arith)) in
    rw (same, on_header_value) (put_value-put front value back more new room)
