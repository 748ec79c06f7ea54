-- ===== src/Common/Int.antt =====
-- Signed integers over the native numbers: return codes, and the numbers that src/hp_str.c parses.
use libhp.Common.{
  ℕ, ◌-◌, ◌^◌, ◌≡◌, refl, ap, Bool, true, false, ◌||◌, ◌==◌, ==_iff, leb, if◌then◌else◌, arith,
}

-- `negsuc n` is -(n + 1).
pub data ℤ : Type 0 where
  pos : ℕ → ℤ
  negsuc : ℕ → ℤ

-- rc < 0
abbrev pub is_neg : ℤ → Bool
is_neg (pos n) = false
is_neg (negsuc n) = true

-- The integer -n.
abbrev pub neg_ℕ : ℕ → ℤ
neg_ℕ n = if leb n 0 then pos 0 else negsuc (n - 1)

-- `n <= 0` of an `int`, given as its 32-bit pattern
abbrev pub int_nonpos : ℕ → Bool
int_nonpos n = (n == 0) || leb (2 ^ 31) n

abbrev pub int_eq : ℤ → ℤ → Bool
int_eq (pos m) (pos n) = m == n
int_eq (pos m) (negsuc n) = false
int_eq (negsuc m) (pos n) = false
int_eq (negsuc m) (negsuc n) = m == n

pub int_eq_refl : (a : ℤ) → int_eq a a ≡ true
int_eq_refl (pos n) = ground arith
int_eq_refl (negsuc n) = ground arith

pub int_eq_sound : (a b : ℤ) → int_eq a b ≡ true → a ≡ b
int_eq_sound (pos m) (pos n) h = ap pos ((==_iff m n).0 h)
int_eq_sound (pos m) (negsuc n) h = ground arith
int_eq_sound (negsuc m) (pos n) h = ground arith
int_eq_sound (negsuc m) (negsuc n) h = ap negsuc ((==_iff m n).0 h)

pub int_eq_comm : (a b : ℤ) → int_eq a b ≡ int_eq b a
int_eq_comm (pos m) (pos n) = ground arith
int_eq_comm (pos m) (negsuc n) = refl
int_eq_comm (negsuc m) (pos n) = refl
int_eq_comm (negsuc m) (negsuc n) = ground arith
