-- ===== src/Var.antt =====
-- src/hp_var.c: the variables of a configuration text. A string is its bytes, without the final NUL.
pub mod Expand
pub mod Room
mod Tests
use libhp.Common.{
  ℕ, zero, suc, ◌+◌, ◌*◌, Bool, true, false, ◌&&◌, ◌||◌, Option, none, some, List, [], ◌∷◌, ◌++◌,
  leb, ◌==◌, if◌then◌else◌, length, drop, Bytes, bytes_eq,
}

-- '$'
abbrev pub dollar : ℕ
dollar = 36

-- A character of a variable's name: '0'-'9', 'a'-'z', 'A'-'Z' and '_'.
unfoldable pub is_name_char : ℕ → Bool
is_name_char c =
    (leb 48 c && leb c 57) || ((leb 97 c && leb c 122) || ((leb 65 c && leb c 90) || (c == 95)))

-- The longest name at the front of the text.
unfoldable pub name_of : Bytes → Bytes
unfolding is_name_char
name_of [] = []
name_of (c ∷ str) = if is_name_char c then c ∷ name_of str else []

unfoldable pub emit : Bytes → Option Bytes → Option Bytes
emit xs (some ys) = some (xs ++ ys)
emit xs none = none

-- What a variable stands for: its value, or its own text where it has none.
unfoldable pub value : Option Bytes → Bytes → Bytes
value (some val) name = val
value none name = dollar ∷ name

module _ (fn : Bytes → Option Bytes) where
  -- The text from a variable's name on; `again` is the loop.
  unfoldable pub on_variable : (Bytes → Option Bytes) → Bytes → Bytes → Option Bytes
  unfolding emit value
  on_variable again name str = emit (value (fn name) name) (again (drop (length name) str))

  -- "$$" stands for '$'.
  unfoldable pub on_escape : (Bytes → Option Bytes) → Bool → ℕ → Bytes → Option Bytes
  unfolding on_variable name_of
  on_escape again true c str = emit (c ∷ []) (again str)
  on_escape again false c str = on_variable again (name_of (c ∷ str)) (c ∷ str)

  -- The text behind a '$'.
  unfoldable pub on_dollar : (Bytes → Option Bytes) → Bytes → Option Bytes
  unfolding on_escape
  on_dollar again [] = emit (dollar ∷ []) (again [])
  on_dollar again (c ∷ str) = on_escape again (c == dollar) c str

  unfoldable pub on_char : (Bytes → Option Bytes) → Bool → ℕ → Bytes → Option Bytes
  unfolding on_dollar
  on_char again true c str = on_dollar again str
  on_char again false c str = emit (c ∷ []) (again str)

  -- The loop of hp_var_do_replace on fuel; `none` means that the fuel ran out.
  unfoldable pub replace_loop : ℕ → Bytes → Option Bytes
  unfolding on_char
  replace_loop zero str = none
  replace_loop (suc fuel) [] = some []
  replace_loop (suc fuel) (c ∷ str) = on_char (replace_loop fuel) (c == dollar) c str

  -- Each round takes a byte at least. An empty text leaves `out` as it was.
  unfoldable pub do_replace : Bytes → Bytes → Option Bytes
  unfolding replace_loop
  do_replace [] out = some out
  do_replace (c ∷ str) out = replace_loop (length (c ∷ str) + 1) (c ∷ str)

  -- What hp_var_eval returns, and the room that it made for it.
  unfoldable pub var_eval : Bytes → Option Bytes × ℕ
  unfolding do_replace
  var_eval [] = (some [], 0)
  var_eval (c ∷ str) = (do_replace (c ∷ str) [], length (c ∷ str) * 2)

-- `vmap`: names, NULL or not, and values, NULL or not.
abbrev pub VarMap : Type 0
VarMap = List (Option Bytes × Option Bytes)

unfoldable pub is_var : Option Bytes → Bytes → Bool
is_var (some var) varstr = (length varstr == length var) && bytes_eq var varstr
is_var none varstr = false

-- The value of the first entry of the name.
unfoldable pub map_find : VarMap → Bytes → Option Bytes
unfolding is_var
map_find [] varstr = none
map_find (e ∷ vmap) varstr = if is_var e.0 varstr then e.1 else map_find vmap varstr

-- hp_var_map_replace, where there is a `vmap`: without entries the text is copied.
unfoldable pub map_replace : VarMap → Bytes → Bytes → Option Bytes
unfolding do_replace map_find
map_replace vmap [] out = some out
map_replace [] (c ∷ str) out = some (c ∷ str)
map_replace (e ∷ vmap) (c ∷ str) out = do_replace (map_find (e ∷ vmap)) (c ∷ str) out
