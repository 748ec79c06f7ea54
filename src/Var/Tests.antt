-- ===== src/Var/Tests.antt =====
-- The texts of the tests in src/hp_var.c.
use libhp.Common.{
  ap, Bool, true, false, ℕ, ◌+◌, ◌*◌, ◌≤◌, ◌≡◌, refl, if◌then◌else◌, Option, none, some, List, [],
  ◌∷◌, arith, length, Bytes, bytes_eq,
}
use libhp.Var.{VarMap, var_eval, map_replace}
use libhp.Var.Expand.{Piece, char, var}
use libhp.Var.Room.{var_eval-room}

abbrev ab : VarMap
ab = (some (b'a' ∷ b'b' ∷ []), some (b'1' ∷ b'2' ∷ [])) ∷ []

-- "x$$$ab-"
abbrev pieces : List Piece
pieces = char b'$' ∷ var (b'a' ∷ b'b' ∷ []) ∷ char b'-' ∷ []

-- The variable "a" has a value of four bytes, as long as one may be.
abbrev a_value : Bytes → Option Bytes
a_value name = if bytes_eq name (b'a' ∷ []) then some (b'1' ∷ b'2' ∷ b'3' ∷ b'4' ∷ []) else none

a_value-short : (name val : Bytes) → a_value name ≡ some val → length val ≤ 2 * (length name + 1)
unfolding bytes_eq
a_value-short [] val h = ground (arith, h)
a_value-short (c ∷ cs) val h = omega (arith, pick (bytes_eq (c ∷ cs) (b'a' ∷ [])) h)
  where
    size : Option Bytes → ℕ
    size (some v) = length v
    size none = 4

    pick :
        (b : Bool)
        → (if b then some (b'1' ∷ b'2' ∷ b'3' ∷ b'4' ∷ []) else none) ≡ some val
        → 4 ≡ length val
    pick true e = ap size e
    pick false e = ap size e

var_eval-room_example :
    (out : Bytes) × ((var_eval a_value (b'$' ∷ b'a' ∷ [])).0 ≡ some out)
    × (length out ≤ (var_eval a_value (b'$' ∷ b'a' ∷ [])).1)
var_eval-room_example = var_eval-room a_value (b'$' ∷ b'a' ∷ []) a_value-short

-- "$$" stands for '$', and a final '$' for itself.
escaped : map_replace ab (b'$' ∷ b'$' ∷ []) [] ≡ some (b'$' ∷ [])
unfolding map_replace
escaped = refl

final_dollar : map_replace ab (b'a' ∷ b'$' ∷ []) [] ≡ some (b'a' ∷ b'$' ∷ [])
unfolding map_replace
final_dollar = refl

-- A variable with a value, and one without.
two_variables :
    map_replace ab (b'$' ∷ b'a' ∷ b'b' ∷ b'-' ∷ b'$' ∷ b'c' ∷ []) []
    ≡ some (b'1' ∷ b'2' ∷ b'-' ∷ b'$' ∷ b'c' ∷ [])
unfolding map_replace bytes_eq
two_variables = refl
