-- ===== src/Var/Expand.antt =====
-- What hp_var_do_replace makes of a text, described by the pieces that the text is written from.
use libhp.Common.{ℕ, ◌≡◌, true, false, Option, List, [], ◌∷◌, ◌++◌, ◌==◌, if◌then◌else◌, Bytes}
use libhp.Var.{dollar, is_name_char, value}

-- A character, or a variable.
pub data Piece : Type 0 where
  char : ℕ → Piece
  var : Bytes → Piece

-- How the pieces are written: a '$' is doubled.
abbrev pub print_char : ℕ → Bytes
print_char c = if c == dollar then dollar ∷ dollar ∷ [] else c ∷ []

abbrev pub print : List Piece → Bytes
print [] = []
print (char c ∷ ps) = print_char c ++ print ps
print (var name ∷ ps) = dollar ∷ (name ++ print ps)

-- What they stand for.
abbrev pub expand : (Bytes → Option Bytes) → List Piece → Bytes
expand fn [] = []
expand fn (char c ∷ ps) = c ∷ expand fn ps
expand fn (var name ∷ ps) = value (fn name) name ++ expand fn ps

abbrev pub AllNameChars : Bytes → Type 0
AllNameChars [] = Unit
AllNameChars (c ∷ cs) = (is_name_char c ≡ true) × AllNameChars cs

-- A text that starts with no character of a name.
abbrev pub Ends : Bytes → Type 0
Ends [] = Unit
Ends (c ∷ cs) = is_name_char c ≡ false

-- Each name has a character at least, and what follows it cannot be taken for more of it.
abbrev pub IsClear : List Piece → Type 0
IsClear [] = Unit
IsClear (char c ∷ ps) = IsClear ps
IsClear (var [] ∷ ps) = ⊥
IsClear (var (c ∷ cs) ∷ ps) = AllNameChars (c ∷ cs) × Ends (print ps) × IsClear ps
