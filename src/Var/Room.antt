-- ===== src/Var/Room.antt =====
-- The room that hp_var_eval makes, and the values that fit into it.
use libhp.Common.{
  ℕ, zero, suc, ◌+◌, ◌*◌, ◌≤◌, ◌<◌, ◌≡◌, refl, inl, inr, Bool-cases, Bool, true, false, Option,
  none, some, [], ◌∷◌, ◌++◌, arith, ◌==◌, length, drop, length-append, length-drop, Bytes,
}
use libhp.Var.{
  dollar, is_name_char, name_of, emit, value, on_variable, on_escape, on_dollar, on_char,
  replace_loop, do_replace, var_eval,
}

-- The outcome is a text of at most twice `m` bytes.
abbrev pub FitsIn : ℕ → Option Bytes → Type 0
FitsIn m r = (out : Bytes) × (r ≡ some out) × (length out ≤ 2 * m)

emit-FitsIn :
    (xs : Bytes) (r : Option Bytes) (k m : ℕ)
    → FitsIn k r
    → length xs + 2 * k ≤ 2 * m
    → FitsIn m (emit xs r)
unfolding emit
emit-FitsIn xs r k m (out, e, l) u = (xs ++ out, rw e refl, omega (arith, length-append xs out))

length-name_of : (str : Bytes) → length (name_of str) ≤ length str
unfolding name_of
length-name_of [] = omega arith
length-name_of (c ∷ str) = elim (Bool-cases (is_name_char c)) [
  | inl e ↦ rw e (omega (arith, length-name_of str))
  | inr e ↦ rw e (omega arith)
]

module _ (fn : Bytes → Option Bytes)
    (small : (name val : Bytes) → fn name ≡ some val → length val ≤ 2 * (length name + 1)) where
  value-length :
      (name : Bytes) (o : Option Bytes)
      → fn name ≡ o
      → length (value o name) ≤ 2 * (length name + 1)
  unfolding value
  value-length name (some val) e = small name val e
  value-length name none e = omega arith

  module _ (fuel : ℕ)
      (rest : (str : Bytes)
        → length str < fuel
        → FitsIn (length str) (replace_loop fn fuel str)) where
    on_escape-FitsIn :
        (b : Bool) (c : ℕ) (str : Bytes)
        → length (c ∷ str) < fuel
        → FitsIn (suc (length (c ∷ str))) (on_escape fn (replace_loop fn fuel) b c str)
    unfolding on_escape on_variable
    on_escape-FitsIn true c str u =
        emit-FitsIn (c ∷ []) (replace_loop fn fuel str) (length str) (suc (length (c ∷ str)))
          (rest str (omega arith)) (omega arith)
    on_escape-FitsIn false c str u =
        let name = name_of (c ∷ str) in
        let left = drop (length name) (c ∷ str) in
        emit-FitsIn (value (fn name) name) (replace_loop fn fuel left) (length left)
          (suc (length (c ∷ str))) (rest left (omega (arith, length-drop (length name) (c ∷ str))))
          (omega (
            arith,
            length-drop (length name) (c ∷ str),
            length-name_of (c ∷ str),
            value-length name (fn name) refl,
          ))

    on_dollar-FitsIn :
        (str : Bytes)
        → length str < fuel
        → FitsIn (suc (length str)) (on_dollar fn (replace_loop fn fuel) str)
    unfolding on_dollar
    on_dollar-FitsIn [] u =
        emit-FitsIn (dollar ∷ []) (replace_loop fn fuel []) 0 1 (rest [] u) (omega arith)
    on_dollar-FitsIn (c ∷ str) u = on_escape-FitsIn (c == dollar) c str u

    on_char-FitsIn :
        (b : Bool) (c : ℕ) (str : Bytes)
        → length str < fuel
        → FitsIn (length (c ∷ str)) (on_char fn (replace_loop fn fuel) b c str)
    unfolding on_char
    on_char-FitsIn true c str u = on_dollar-FitsIn str u
    on_char-FitsIn false c str u =
        emit-FitsIn (c ∷ []) (replace_loop fn fuel str) (length str) (length (c ∷ str)) (rest str u)
          (omega arith)

  replace_loop-FitsIn :
      (fuel : ℕ) (str : Bytes) → length str < fuel → FitsIn (length str) (replace_loop fn fuel str)
  unfolding replace_loop
  replace_loop-FitsIn zero str u = ground arith
  replace_loop-FitsIn (suc fuel) [] u = ([], refl, omega arith)
  replace_loop-FitsIn (suc fuel) (c ∷ str) u =
      on_char-FitsIn fuel (replace_loop-FitsIn fuel) (c == dollar) c str (omega arith)

-- Where no value is longer than twice its variable's text, '$' included, `hp_var_eval` returns on every
-- text, and the room that it makes holds the result.
pub var_eval-room :
    (fn : Bytes → Option Bytes) (str : Bytes)
    → ((name val : Bytes) → fn name ≡ some val → length val ≤ 2 * (length name + 1))
    → (out : Bytes) × ((var_eval fn str).0 ≡ some out) × (length out ≤ (var_eval fn str).1)
unfolding var_eval do_replace
var_eval-room fn [] small = ([], refl, omega arith)
var_eval-room fn (c ∷ str) small =
    let (out, e, l) = replace_loop-FitsIn fn small (length (c ∷ str) + 1) (c ∷ str) (omega arith) in
    (out, e, omega arith)
