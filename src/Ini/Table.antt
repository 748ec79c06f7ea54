-- ===== src/Ini/Table.antt =====
-- What hp_ini_exec of src/hp_ini.c sets, it then finds.
use libhp.Common.{
  ℕ, ◌+◌, ◌≤◌, ◌<◌, ◌≡◌, ◌≢◌, refl, ap, ◌∙◌, ◌⊎◌, inl, inr, true, false, some, [], ◌∷◌, ◌++◌, arith,
  ltb, leb, ◌==◌, length, length-append, Bytes, bytes_eq,
}
use libhp.Ini.{
  Dict, Files, Ini, slash, space, has_char, starts_with, split_space, set_cmd, fine, dict_of,
  set_pair, lookup_key, or_empty, lookup, ini_exec,
}

-- The documented behaviour of the dictionary.
pub record IsDict {D : Type 0} (ops : Dict D) : Type 0 where
  pub same : (k v : Bytes) (d : D) → ops.fetch k (ops.replace k v d) ≡ some v
  pub other : (k k' v : Bytes) (d : D) → k' ≢ k → ops.fetch k' (ops.replace k v d) ≡ ops.fetch k' d

-- The command that sets a pair.
abbrev pub set_text : Bytes → Bytes → Bytes
set_text k v = set_cmd ++ space ∷ (k ++ space ∷ v)

split_space-pair :
    (k v : Bytes) → has_char space k ≡ false → split_space (k ++ space ∷ v) ≡ some (k, v)
unfolding has_char split_space
split_space-pair [] v h = refl
split_space-pair (b ∷ bs) v h =
    let other : (b == space) ≡ false = ground (arith, h) in
    let rest : has_char space bs ≡ false = ground (arith, h) in
    rw (other, split_space-pair bs v rest) refl

module _ {D : Type 0} (ops : Dict D) (files : Files) where
  -- A key that does not begin with '#' is looked up.
  get :
      (c : ℕ) (cs : Bytes) (d : D) (section : Bytes)
      → (c == b'#') ≡ false
      → ini_exec ops files (c ∷ cs) (record { dict = some d; section = section })
        ≡ some (
          lookup ops (c ∷ cs) (record { dict = some d; section = section }),
          record { dict = some d; section = section },
        )
  unfolding ini_exec starts_with bytes_eq dict_of
  get c cs d section h = rw h refl

  -- What a command to set a pair does.
  put :
      (k v : Bytes) (ini : Ini D)
      → has_char space k ≡ false
      → 2 ≤ length k + length v
      → length k + length v < 122
      → ini_exec ops files (set_text k v) ini
        ≡ some (fine, record ini { dict = some (ops.replace k v (dict_of ops ini.dict)) })
  unfolding ini_exec starts_with bytes_eq set_pair dict_of
  put k v ini h small big =
      let n = length-append k (space ∷ v) in
      let long : leb 8 (length (set_text k v)) ≡ true = ground (arith, n) in
      let short : ltb (length (set_text k v)) 128 ≡ true = ground (arith, n) in
      rw (long, short, split_space-pair k v h) refl

lookup_key-plain :
    (section k : Bytes) → (section ≡ []) ⊎ (has_char slash k ≡ true) → lookup_key section k ≡ k
unfolding lookup_key
lookup_key-plain [] k h = refl
lookup_key-plain (c ∷ cs) k (inl e) = ground (arith, ap length e)
lookup_key-plain (c ∷ cs) k (inr e) = rw e refl

-- Over a dictionary that behaves as documented: "#set", a key and a value, where the key is not empty, begins with another
-- character than '#' and has no space, and both have 2 to 121 bytes in all, returns "0"; if no section was
-- loaded or the key has a slash, hp_ini_exec on the key then returns the value. Every lookup of another key
-- gives what it gave before.
pub ini_exec-set_text :
    {D : Type 0} (ops : Dict D) (files : Files) (c : ℕ) (cs v : Bytes) (ini : Ini D)
    → IsDict ops
    → (c == b'#') ≡ false
    → has_char space (c ∷ cs) ≡ false
    → 2 ≤ length (c ∷ cs) + length v
    → length (c ∷ cs) + length v < 122
    → (ini.section ≡ []) ⊎ (has_char slash (c ∷ cs) ≡ true)
    → (ini' : Ini D) × (ini_exec ops files (set_text (c ∷ cs) v) ini ≡ some (fine, ini'))
      × (ini_exec ops files (c ∷ cs) ini' ≡ some (v, ini'))
      × ((k : Bytes) → lookup_key ini.section k ≢ c ∷ cs → lookup ops k ini' ≡ lookup ops k ini)
unfolding lookup or_empty dict_of
ini_exec-set_text ops files c cs v ini law first no_space small big plain =
    let d = ops.replace (c ∷ cs) v (dict_of ops ini.dict) in
    let key = lookup_key-plain ini.section (c ∷ cs) plain in
    let found : or_empty (ops.fetch (lookup_key ini.section (c ∷ cs)) d) ≡ v =
      ap (λ k. or_empty (ops.fetch k d)) key
      ∙ ap (or_empty) (law.same (c ∷ cs) v (dict_of ops ini.dict)) in
    (
      record ini { dict = some d },
      put ops files (c ∷ cs) v ini no_space small big,
      get ops files c cs d ini.section first
          ∙ ap (λ r. some (r, record ini { dict = some d })) found,
      λ k ne.
          ap (or_empty) (law.other (c ∷ cs) (lookup_key ini.section k) v (dict_of ops ini.dict) ne),
    )
