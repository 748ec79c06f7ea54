-- ===== src/Str/Located.antt =====
-- Where hp_http_modify_header of src/hp_str.c finds a header and its value.
use libhp.Common.{
  ℕ, ◌+◌, ◌<◌, ◌≡◌, refl, ap, ◌∙◌, inl, inr, Bool-cases, true, false, none, some, [], ◌∷◌, ◌++◌,
  arith, lt→ltb, ◌==◌, length, Bytes,
}
use libhp.Str.{lower_char}
use libhp.Str.Header.{has_prefix, find_header, is_separator, find_value, or_here, ends_line}

-- `hdr` is at no place of `pre` in `pre ++ text`.
abbrev pub NotBefore : Bytes → Bytes → Bytes → Type 0
NotBefore hdr [] text = Unit
NotBefore hdr (c ∷ cs) text = (has_prefix hdr (c ∷ cs ++ text) ≡ some false) × NotBefore hdr cs text

abbrev pub AllSeparators : Bytes → Type 0
AllSeparators [] = Unit
AllSeparators (c ∷ cs) = (is_separator c ≡ true) × AllSeparators cs

-- No end of a line.
abbrev pub OneLine : Bytes → Type 0
OneLine [] = Unit
OneLine (c ∷ cs) = ((c == 10) ≡ false) × ((c == 13) ≡ false) × OneLine cs

-- A value does not start with a separator.
abbrev pub IsValue : Bytes → Type 0
IsValue [] = Unit
IsValue (c ∷ cs) = (is_separator c ≡ false) × OneLine (c ∷ cs)

pub has_prefix-append :
    (hdr name text : Bytes)
    → has_prefix hdr name ≡ some true
    → has_prefix hdr (name ++ text) ≡ some true
unfolding has_prefix
has_prefix-append [] name text h = refl
has_prefix-append (x ∷ hdr) [] text h = absurd (ground (arith, h))
has_prefix-append (x ∷ hdr) (c ∷ name) text h = elim (Bool-cases (lower_char x == lower_char c)) [
  | inl y ↦ rw y (has_prefix-append hdr name text (rw y at h))
  | inr z ↦ absurd (ground (arith, rw z at h))
]

pub find_header-found :
    (hdr pre text : Bytes) (bound i : ℕ)
    → NotBefore hdr pre text
    → i + length pre < bound
    → 0 < length text
    → has_prefix hdr text ≡ some true
    → find_header hdr bound i (pre ++ text) ≡ some (some (i + length pre))
unfolding find_header
find_header-found hdr [] [] bound i no_match less some_text h = absurd (omega arith)
find_header-found hdr [] (c ∷ text) bound i no_match less some_text h =
    rw (lt→ltb i bound (omega arith), h) (ap (λ n. some (some n)) (omega arith))
find_header-found hdr (c ∷ pre) text bound i (no_match, more) less some_text h =
    rw (lt→ltb i bound (omega arith), no_match)
      (find_header-found hdr pre text bound (i + 1) more (omega arith) some_text h
        ∙ ap (λ n. some (some n)) (omega arith))

ends_line-false : (c : ℕ) (text : Bytes) → (c == 13) ≡ false → ends_line c text ≡ some false
unfolding ends_line
ends_line-false c [] h = rw h refl
ends_line-false c (d ∷ ds) h = rw h refl

separator_not_end : (c : ℕ) → is_separator c ≡ true → ((c == 10) ≡ false) × ((c == 13) ≡ false)
unfolding is_separator
separator_not_end c h = (ground arith, ground arith)

pub find_value-separators :
    (seps text : Bytes) (p : ℕ)
    → AllSeparators seps
    → find_value (seps ++ text) p none ≡ find_value text (p + length seps) none
unfolding find_value or_here
find_value-separators [] text p h = ap (λ n. find_value text n none) (omega arith)
find_value-separators (c ∷ seps) text p (h, hs) =
    let (not_lf, not_cr) = separator_not_end c h in
    rw (not_lf, ends_line-false c (seps ++ text) not_cr, h)
      (find_value-separators seps text (p + 1) hs ∙ ap (λ n. find_value text n none) (omega arith))

find_value-end :
    (value text : Bytes) (p v : ℕ)
    → OneLine value
    → find_value (value ++ 13 ∷ 10 ∷ text) p (some v) ≡ some (some (v, p + length value))
unfolding find_value or_here ends_line
find_value-end [] text p v h = ap (λ n. some (some (v, n))) (omega arith)
find_value-end (c ∷ value) text p v (h, h', hs) =
    rw (h, ends_line-false c (value ++ 13 ∷ 10 ∷ text) h')
      (find_value-end value text (p + 1) v hs ∙ ap (λ n. some (some (v, n))) (omega arith))

pub find_value-value :
    (value text : Bytes) (p : ℕ)
    → IsValue value
    → find_value (value ++ 13 ∷ 10 ∷ text) p none ≡ some (some (p, p + length value))
unfolding find_value or_here ends_line is_separator
find_value-value [] text p h = ap (λ n. some (some (p, n))) (omega arith)
find_value-value (c ∷ value) text p (first, (h, h', hs)) =
    rw (h, ends_line-false c (value ++ 13 ∷ 10 ∷ text) h', first)
      (find_value-end value text (p + 1) p hs ∙ ap (λ n. some (some (p, n))) (omega arith))
