-- ===== src/Opt/Tests.antt =====
-- A line of the kind that the tests in src/hp_opt.c use.
use libhp.Common.{ℕ, ◌≡◌, refl, some, List, [], ◌∷◌, map, arith, length, Bytes}
use libhp.Opt.{opt_argv}
use libhp.Opt.Words.{line, words, AllWords, cstring_at, opt_argv-words}

-- " -i  5 "
abbrev two_words : List (ℕ × Bytes)
two_words = (1, b'-' ∷ b'i' ∷ []) ∷ (1, b'5' ∷ []) ∷ []

two_words-AllWords : AllWords two_words
two_words-AllWords = (
  omega arith,
  (omega arith, omega arith, (omega arith, omega arith, tt)),
  (omega arith, (omega arith, omega arith, tt), tt),
)

opt_argv-words_example :
    ((opt_argv (line two_words (some 0))).0 ≡ length two_words)
    × (map
          (cstring_at (opt_argv (line two_words (some 0))).2)
          (opt_argv (line two_words (some 0))).1
        ≡ words two_words)
opt_argv-words_example = opt_argv-words two_words (some 0) two_words-AllWords

offsets : (opt_argv (line two_words (some 0))).1 ≡ 1 ∷ 5 ∷ []
unfolding opt_argv
offsets = refl
