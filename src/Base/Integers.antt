-- ===== src/Base/Integers.antt =====
-- Python's integers, as far as they are counted and compared.
use Prim.Native.Nat.{ℕ, zero, suc}
use mathlib.Core.Path.{◌≡◌}
use mathlib.Core.Bool.{Bool, true, false}
use native.Mathlib.Omega.{arith}
use apex_fedora.Base.Booleans.{eqb}

pub data ℤ : Type 0 where
  pos negsuc : ℕ → ℤ

abbrev pub same_integer : ℤ → ℤ → Bool
same_integer (pos m) (pos n) = eqb m n
same_integer (negsuc m) (negsuc n) = eqb m n
same_integer (pos m) (negsuc n) = false
same_integer (negsuc m) (pos n) = false

-- `0 < n`
abbrev pub is_positive : ℤ → Bool
is_positive (pos zero) = false
is_positive (pos (suc n)) = true
is_positive (negsuc n) = false

pub same_integer_iff : (m n : ℤ) → same_integer m n ≡ true → m ≡ n
same_integer_iff (pos m) (pos n) h = ground (arith, h)
same_integer_iff (negsuc m) (negsuc n) h = ground (arith, h)
same_integer_iff (pos m) (negsuc n) h = cc
same_integer_iff (negsuc m) (pos n) h = cc
