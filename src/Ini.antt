-- ===== src/Ini.antt =====
-- src/hp_ini.c: the table of a configuration, behind the commands of hp_ini_exec. The dictionary of redis and
-- the parser of files (inih) are parameters. A string is its bytes, without the final NUL.
pub mod Table
mod Tests
use libhp.Common.{
  ℕ, zero, suc, ◌+◌, Bool, true, false, ◌&&◌, ◌||◌, Option, none, some, List, [], ◌∷◌, ◌++◌, ltb,
  leb, ◌==◌, if◌then◌else◌, length, take, drop, Bytes, bytes_eq,
}

-- dictCreate, dictReplace and dictFetchValue.
pub record Dict (D : Type 0) : Type 0 where
  pub create : D
  pub replace : Bytes → Bytes → D → D
  pub fetch : Bytes → D → Option Bytes

-- An entry that the parser finds: the section, the name and the value.
pub record Entry : Type 0 where
  pub section : Option Bytes
  pub name : Bytes
  pub value : Bytes

-- What `ini_parse` finds in a file, and what it returns.
abbrev pub Files : Type 0
Files = Bytes → List Entry × ℕ

-- `struct hp_ini` with the default parser; `dict` is `none` for NULL.
pub record Ini (D : Type 0) : Type 0 where
  pub dict : Option D
  pub section : Bytes

abbrev pub slash : ℕ
slash = 47

abbrev pub space : ℕ
space = 32

-- strchr(s, c) != NULL
unfoldable pub has_char : ℕ → Bytes → Bool
has_char c [] = false
has_char c (b ∷ bs) = (b == c) || has_char c bs

-- strncmp(s, prefix, strlen(prefix)) == 0
unfoldable pub starts_with : Bytes → Bytes → Bool
starts_with [] s = true
starts_with (p ∷ ps) [] = false
starts_with (p ∷ ps) (b ∷ bs) = (b == p) && starts_with ps bs

-- The text before the first space, and the one behind it.
unfoldable pub split_space : Bytes → Option (Bytes × Bytes)
split_space [] = none
split_space (b ∷ bs) =
    let rest = split_space bs in if b == space then some ([], bs) else with_first b rest
  where
    with_first : ℕ → Option (Bytes × Bytes) → Option (Bytes × Bytes)
    with_first b none = none
    with_first b (some (xs, ys)) = some (b ∷ xs, ys)

abbrev pub unload_cmd : Bytes
unload_cmd = b'#' ∷ b'u' ∷ b'n' ∷ b'l' ∷ b'o' ∷ b'a' ∷ b'd' ∷ []

abbrev pub load_cmd : Bytes
load_cmd = b'#' ∷ b'l' ∷ b'o' ∷ b'a' ∷ b'd' ∷ []

abbrev pub set_cmd : Bytes
set_cmd = b'#' ∷ b's' ∷ b'e' ∷ b't' ∷ []

abbrev pub show_cmd : Bytes
show_cmd = b'#' ∷ b's' ∷ b'h' ∷ b'o' ∷ b'w' ∷ []

abbrev pub fine : Bytes
fine = b'0' ∷ []

abbrev pub failed : Bytes
failed = b'-' ∷ b'1' ∷ []

-- The room of `ini->section`.
abbrev pub section_room : ℕ
section_room = 64

unfoldable pub key_of : Option Bytes → Bytes → Bytes
key_of none name = name
key_of (some []) name = name
key_of (some (c ∷ cs)) name = (c ∷ cs) ++ slash ∷ name

-- The first section that has a name is kept.
unfoldable pub first_section : Option Bytes → Bytes → Bytes
first_section (some s) [] = take 63 s
first_section (some s) (c ∷ cs) = c ∷ cs
first_section none old = old

-- A key without a slash is looked up in the first section.
unfoldable pub lookup_key : Bytes → Bytes → Bytes
unfolding has_char
lookup_key [] k = k
lookup_key (c ∷ cs) k = if has_char slash k then k else (c ∷ cs) ++ slash ∷ k

unfoldable pub or_empty : Option Bytes → Bytes
or_empty (some v) = v
or_empty none = []

module _ {D : Type 0} (ops : Dict D) where
  -- The table, created if there is none.
  unfoldable pub dict_of : Option D → D
  dict_of (some d) = d
  dict_of none = ops.create

  -- hp_config_ini_def_parser
  unfoldable pub def_parser : Entry → Ini D → Ini D
  unfolding dict_of key_of first_section
  def_parser e ini = record {
    dict = some (ops.replace (key_of e.section e.name) e.value (dict_of ini.dict));
    section = first_section e.section ini.section;
  }

  unfoldable pub parse_all : List Entry → Ini D → Ini D
  unfolding def_parser
  parse_all [] ini = ini
  parse_all (e ∷ es) ini = parse_all es (def_parser e ini)

  -- "#load"
  unfoldable pub load : List Entry × ℕ → Ini D → Bytes × Ini D
  unfolding parse_all
  load (entries, line) ini = (if line == 0 then fine else failed, parse_all entries ini)

  unfoldable pub set_pair : Option (Bytes × Bytes) → Ini D → Bytes × Ini D
  unfolding dict_of
  set_pair none ini = (failed, ini)
  set_pair (some (k, v)) ini =
      (fine, record ini { dict = some (ops.replace k v (dict_of ini.dict)) })

  unfoldable pub lookup : Bytes → Ini D → Bytes
  unfolding lookup_key or_empty dict_of
  lookup k ini = or_empty (ops.fetch (lookup_key ini.section k) (dict_of ini.dict))

  -- hp_ini_exec; `none` where "#set" does not fit its buffer of 128 bytes, which is then read past its end.
  unfoldable pub ini_exec : Files → Bytes → Ini D → Option (Bytes × Ini D)
  unfolding load set_pair lookup starts_with split_space dict_of
  ini_exec files k ini =
      let ini' : Ini D = record ini { dict = some (dict_of ini.dict) } in
      if bytes_eq k unload_cmd
      then some (fine, record { dict = none; section = [] })
      else if starts_with load_cmd k && leb 7 (length k)
      then some (load (files (drop 6 k)) ini')
      else if starts_with set_cmd k && leb 8 (length k)
      then (if ltb (length k) 128 then some (set_pair (split_space (drop 5 k)) ini') else none)
      else if bytes_eq k show_cmd
      then some (fine, ini')
      else some (lookup k ini', ini')
