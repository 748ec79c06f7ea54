-- ===== src/Opt/Words.antt =====
-- The words that hp_opt_argv finds are those that the line is written from.
use libhp.Common.{
  ℕ, zero, suc, ◌+◌, ◌<◌, ◌≡◌, ◌≢◌, refl, sym, ap, ap₂, ◌∙◌, false, Option, none, some, List, [],
  ◌∷◌, ◌++◌, append_assoc, append-nil, map, arith, ◌==◌, if◌then◌else◌, length, drop, length-append,
  length-map, drop-length_append, Bytes,
}
use libhp.Opt.{blank, cut_char, word_at, argv_loop, opt_argv}

abbrev pub blanks : ℕ → Bytes
blanks zero = []
blanks (suc n) = blank ∷ blanks n

-- A line: each word behind a number of blanks, and, unless the last word ends the line, the blanks
-- after it. After a word that does not end the line there is a blank more than is given.
abbrev pub gap : List (ℕ × Bytes) → Option ℕ → Bytes
gap [] none = []
gap [] (some n) = blank ∷ []
gap (x ∷ ws) end = blank ∷ []

abbrev pub line : List (ℕ × Bytes) → Option ℕ → Bytes
line [] none = []
line [] (some n) = blanks n
line ((g, w) ∷ ws) end = blanks g ++ (w ++ (gap ws end ++ line ws end))

-- The words, and that each is not empty and has no blank and no NUL in it.
abbrev pub words : List (ℕ × Bytes) → List Bytes
words [] = []
words ((g, w) ∷ ws) = w ∷ words ws

abbrev pub IsWord : Bytes → Type 0
IsWord [] = Unit
IsWord (c ∷ w) = (c ≢ blank) × (c ≢ 0) × IsWord w

abbrev pub AllWords : List (ℕ × Bytes) → Type 0
AllWords [] = Unit
AllWords ((g, w) ∷ ws) = (0 < length w) × IsWord w × AllWords ws

-- The C string at an offset.
abbrev pub until_nul : Bytes → Bytes
until_nul [] = []
until_nul (c ∷ cs) = if c == 0 then [] else c ∷ until_nul cs

abbrev pub cstring_at : Bytes → ℕ → Bytes
cstring_at buf offset = until_nul (drop offset buf)

word_at-none : (q : ℕ) → word_at q q ≡ []
unfolding word_at
word_at-none q = ground arith

word_at-some : (p n : ℕ) → 0 < n → word_at p (p + n) ≡ p ∷ []
unfolding word_at
word_at-some p n u = ground arith

argv_loop-blanks :
    (g q : ℕ) (r : Bytes) → argv_loop (blanks g ++ r) q q ≡ argv_loop r (q + g) (q + g)
unfolding argv_loop
argv_loop-blanks zero q r = ap (λ k. argv_loop r k k) (omega arith)
argv_loop-blanks (suc g) q r =
    rw (word_at-none q) (argv_loop-blanks g (q + 1) r ∙ ap (λ k. argv_loop r k k) (omega arith))

argv_loop-word :
    (w : Bytes) (p q : ℕ) (r : Bytes)
    → IsWord w
    → argv_loop (w ++ r) p q ≡ argv_loop r p (q + length w)
unfolding argv_loop
argv_loop-word [] p q r h = ap (argv_loop r p) (omega arith)
argv_loop-word (c ∷ w) p q r h =
    let other : (c == blank) ≡ false = ground (arith, h.0) in
    rw other (argv_loop-word w p (q + 1) r h.2 ∙ ap (argv_loop r p) (omega arith))

argv_loop-gap :
    (ws : List (ℕ × Bytes)) (end : Option ℕ) (p q : ℕ)
    → argv_loop (gap ws end ++ line ws end) p q
      ≡ word_at p q ++ argv_loop (line ws end) (q + length (gap ws end)) (q + length (gap ws end))
unfolding argv_loop
argv_loop-gap [] none p q = rw (word_at-none (q + 0)) (sym (append-nil (word_at p q)))
argv_loop-gap [] (some n) p q = refl
argv_loop-gap (x ∷ ws) end p q = refl

cut-append : (xs ys : Bytes) → map cut_char (xs ++ ys) ≡ map cut_char xs ++ map cut_char ys
cut-append [] ys = refl
cut-append (x ∷ xs) ys = ap (λ zs. cut_char x ∷ zs) (cut-append xs ys)

-- A word that is cut off there.
until_nul-word :
    (w : Bytes) (ws : List (ℕ × Bytes)) (end : Option ℕ)
    → IsWord w
    → until_nul (map cut_char (w ++ (gap ws end ++ line ws end))) ≡ w
unfolding cut_char
until_nul-word [] [] none h = refl
until_nul-word [] [] (some n) h = refl
until_nul-word [] (x ∷ ws) end h = refl
until_nul-word (c ∷ w) ws end h =
    let other : (c == blank) ≡ false = ground (arith, h.0) in
    let full : (c == 0) ≡ false = ground (arith, h.1) in
    rw (other, full) (ap (λ cs. c ∷ cs) (until_nul-word w ws end h.2))

cstring_at-word :
    (pre w : Bytes) (ws : List (ℕ × Bytes)) (end : Option ℕ)
    → IsWord w
    → cstring_at (map cut_char (pre ++ (w ++ (gap ws end ++ line ws end)))) (length pre) ≡ w
cstring_at-word pre w ws end h =
    let rest = w ++ (gap ws end ++ line ws end) in
    ap (λ b. cstring_at b (length pre)) (cut-append pre rest)
    ∙ ap (λ k. until_nul (drop k (map cut_char pre ++ map cut_char rest)))
        (sym (length-map cut_char pre))
    ∙ ap until_nul (drop-length_append (map cut_char pre) (map cut_char rest))
    ∙ until_nul-word w ws end h

length-blanks : (g : ℕ) → length (blanks g) ≡ g
length-blanks zero = refl
length-blanks (suc g) = ap suc (length-blanks g)

-- The loop on a word, its blanks and what follows.
argv_loop-step :
    (g : ℕ) (w : Bytes) (ws : List (ℕ × Bytes)) (end : Option ℕ) (q : ℕ)
    → 0 < length w
    → IsWord w
    → argv_loop (line ((g, w) ∷ ws) end) q q
      ≡ (q + g)
        ∷ argv_loop
            (line ws end)
            (((q + g) + length w) + length (gap ws end))
            (((q + g) + length w) + length (gap ws end))
argv_loop-step g w ws end q u h =
    argv_loop-blanks g q (w ++ (gap ws end ++ line ws end))
    ∙ argv_loop-word w (q + g) (q + g) (gap ws end ++ line ws end) h
    ∙ argv_loop-gap ws end (q + g) ((q + g) + length w)
    ∙ ap
        (λ xs.
          xs
          ++ argv_loop (line ws end) (((q + g) + length w) + length (gap ws end))
              (((q + g) + length w) + length (gap ws end)))
        (word_at-some (q + g) (length w) u)

argv_loop-words :
    (ws : List (ℕ × Bytes)) (end : Option ℕ) (pre : Bytes)
    → AllWords ws
    → map
        (cstring_at (map cut_char (pre ++ line ws end)))
        (argv_loop (line ws end) (length pre) (length pre))
      ≡ words ws
unfolding argv_loop
argv_loop-words [] none pre h = rw (word_at-none (length pre)) refl
argv_loop-words [] (some n) pre h = ap (map (cstring_at (map cut_char (pre ++ blanks n)))) (
    ap (λ b. argv_loop b (length pre) (length pre)) (sym (append-nil (blanks n)))
    ∙ argv_loop-blanks n (length pre) []
    ∙ word_at-none (length pre + n))
argv_loop-words ((g, w) ∷ ws) end pre h =
    let rest = w ++ (gap ws end ++ line ws end) in
    let buf = map cut_char (pre ++ (blanks g ++ rest)) in
    let pre' = pre ++ blanks g in
    let pre'' = pre' ++ (w ++ gap ws end) in
    let buf' : buf ≡ map cut_char (pre' ++ rest) =
      ap (map cut_char) (sym (append_assoc pre (blanks g) rest)) in
    let buf'' : buf ≡ map cut_char (pre'' ++ line ws end) =
      buf'
      ∙ ap (λ b. map cut_char (pre' ++ b)) (sym (append_assoc w (gap ws end) (line ws end)))
      ∙ ap (map cut_char) (sym (append_assoc pre' (w ++ gap ws end) (line ws end))) in
    let here : length pre' ≡ length pre + g =
      length-append pre (blanks g) ∙ ap (λ k. length pre + k) (length-blanks g) in
    let next : length pre'' ≡ ((length pre + g) + length w) + length (gap ws end) =
      omega (arith, here, length-append pre' (w ++ gap ws end), length-append w (gap ws end)) in
    ap (map (cstring_at buf)) (argv_loop-step g w ws end (length pre) h.0 h.1)
    ∙ ap₂ (◌∷◌) (ap₂ cstring_at buf' (sym here) ∙ cstring_at-word pre' w ws end h.1) (
        ap₂ (λ b k. map (cstring_at b) (argv_loop (line ws end) k k)) buf'' (sym next)
        ∙ argv_loop-words ws end pre'' h.2)

length-words : (ws : List (ℕ × Bytes)) → length (words ws) ≡ length ws
length-words [] = refl
length-words ((g, w) ∷ ws) = ap suc (length-words ws)

-- On a line that is written from words, which have a character at least, no blank and no NUL, with any
-- blanks before, between and after them, `hp_opt_argv` returns their number, and the C strings that
-- `argv` points to in the line afterwards are the words, in order.
pub opt_argv-words :
    (ws : List (ℕ × Bytes)) (end : Option ℕ)
    → AllWords ws
    → ((opt_argv (line ws end)).0 ≡ length ws)
      × (map (cstring_at (opt_argv (line ws end)).2) (opt_argv (line ws end)).1 ≡ words ws)
unfolding opt_argv
opt_argv-words ws end h =
    let found = argv_loop-words ws end [] h in
    (
      sym (length-map (cstring_at (map cut_char (line ws end))) (argv_loop (line ws end) 0 0))
          ∙ ap length found
          ∙ length-words ws,
      found,
    )
