-- ===== src/Opt.antt =====
-- src/hp_opt.c: a command line is cut into words in place. A line is its bytes without the final NUL,
-- and a pointer into it is an offset.
pub mod Words
mod Tests
use libhp.Common.{
  ℕ, zero, suc, ◌+◌, ◌-◌, Bool, true, false, List, [], ◌∷◌, ◌++◌, map, ltb, ◌==◌, if◌then◌else◌,
  length, Bytes,
}

-- ' '
abbrev pub blank : ℕ
blank = 32

-- A blank is overwritten by NUL.
unfoldable pub cut_char : ℕ → ℕ
cut_char c = if c == blank then 0 else c

-- `if(q - p > 0) argv[argc++] = p;`
unfoldable pub word_at : ℕ → ℕ → List ℕ
word_at p q = if ltb 0 (q - p) then p ∷ [] else []

-- The loop of hp_opt_argv: the bytes from `q` on, the start `p` of the word, and `q`.
unfoldable pub argv_loop : Bytes → ℕ → ℕ → List ℕ
unfolding word_at
argv_loop [] p q = word_at p q
argv_loop (c ∷ cmdline) p q =
    if c == blank
    then word_at p q ++ argv_loop cmdline (q + 1) (q + 1)
    else argv_loop cmdline p (q + 1)

-- `argc`, `argv` without its final NULL, and the line that they point into.
unfoldable pub opt_argv : Bytes → ℕ × List ℕ × Bytes
unfolding argv_loop cut_char
opt_argv cmdline = (length (argv_loop cmdline 0 0), argv_loop cmdline 0 0, map cut_char cmdline)
