-- ===== src/Ini/Tests.antt =====
-- src/hp_ini.c with an association list for the dictionary.
use libhp.Common.{
  ◌≡◌, ◌≢◌, refl, inl, Bool-cases, inr, Option, none, some, List, [], ◌∷◌, arith, Bytes, bytes_eq,
  bytes_eq_refl, bytes_eq_sound, if◌then◌else◌,
}
use libhp.Ini.{
  Dict, Files, Ini, fine, ini_exec, lookup_key, lookup, starts_with, load, parse_all, def_parser,
  key_of, first_section, dict_of, set_pair, split_space, or_empty, has_char,
}
use libhp.Ini.Table.{IsDict, set_text, ini_exec-set_text}

abbrev Pairs : Type 0
Pairs = List (Bytes × Bytes)

fetch : Bytes → Pairs → Option Bytes
fetch k [] = none
fetch k ((k', v) ∷ d) = if bytes_eq k k' then some v else fetch k d

abbrev pairs : Dict Pairs
unfolding fetch
pairs = record { create = []; replace = λ k v d. (k, v) ∷ d; fetch = fetch }

pairs-IsDict : IsDict pairs
unfolding fetch
pairs-IsDict = record { same = same; other = other }
  where
    same : (k v : Bytes) (d : Pairs) → fetch k ((k, v) ∷ d) ≡ some v
    same k v d = rw (bytes_eq_refl k) refl

    other : (k k' v : Bytes) (d : Pairs) → k' ≢ k → fetch k' ((k, v) ∷ d) ≡ fetch k' d
    other k k' v d ne = elim (Bool-cases (bytes_eq k' k)) [
      | inl e ↦ elim (ne (bytes_eq_sound k' k e)) [ ]
      | inr e ↦ rw e refl
    ]

-- One file, with the port of the server.
abbrev files : Files
files f = (
  record { section = some (b'n' ∷ b'e' ∷ b't' ∷ []); name = b'p' ∷ []; value = b'8' ∷ b'0' ∷ [] }
      ∷ [],
  0,
)

abbrev new_ini : Ini Pairs
new_ini = record { dict = none; section = [] }

ini_exec-set_text_example :
    (ini : Ini Pairs) × (ini_exec pairs files (set_text (b'i' ∷ b'p' ∷ []) (b'1' ∷ [])) new_ini
      ≡ some (fine, ini))
    × (ini_exec pairs files (b'i' ∷ b'p' ∷ []) ini ≡ some (b'1' ∷ [], ini))
    × ((k : Bytes)
        → lookup_key [] k ≢ b'i' ∷ b'p' ∷ []
        → lookup pairs k ini ≡ lookup pairs k new_ini)
unfolding has_char
ini_exec-set_text_example =
    ini_exec-set_text pairs files b'i' (b'p' ∷ []) (b'1' ∷ []) new_ini pairs-IsDict refl refl
      (omega arith) (omega arith) (inl refl)

abbrev loaded : Ini Pairs
loaded = record {
  dict = some ((b'n' ∷ b'e' ∷ b't' ∷ b'/' ∷ b'p' ∷ [], b'8' ∷ b'0' ∷ []) ∷ []);
  section = b'n' ∷ b'e' ∷ b't' ∷ [];
}

-- A file is loaded, and its value is found without the section.
load_and_find :
    (ini_exec pairs files (b'#' ∷ b'l' ∷ b'o' ∷ b'a' ∷ b'd' ∷ b' ' ∷ b'f' ∷ []) new_ini
      ≡ some (fine, loaded))
    × (ini_exec pairs files (b'p' ∷ []) loaded ≡ some (b'8' ∷ b'0' ∷ [], loaded))
unfolding ini_exec starts_with load parse_all def_parser key_of first_section dict_of lookup
    lookup_key or_empty fetch has_char bytes_eq
load_and_find = (refl, refl)

-- After that, a key without a slash is set, but not found.
set_is_lost :
    (ini : Ini Pairs) × (ini_exec pairs files (set_text (b'i' ∷ b'p' ∷ []) (b'1' ∷ [])) loaded
      ≡ some (fine, ini))
    × (ini_exec pairs files (b'i' ∷ b'p' ∷ []) ini ≡ some ([], ini))
unfolding ini_exec starts_with set_pair split_space dict_of lookup lookup_key or_empty fetch
    has_char bytes_eq
set_is_lost = (_, refl, refl)
