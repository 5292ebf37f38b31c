-- ===== src/Common/Int.antt =====
-- Python's integers, as far as the program tests them.
use Prim.Native.Nat.{ℕ, ◌+◌, ◌-◌}
use mathlib.Core.Bool.{Bool, true, false}
use mathlib.Core.Path.{◌≡◌}
use native.Mathlib.Omega.{arith}
use stockstack.Common.Tests.{leb, if◌then◌else◌}

-- `negsuc n` is -(n + 1).
pub data ℤ : Type 0 where
  pos : ℕ → ℤ
  negsuc : ℕ → ℤ

-- `n <= z`, against a natural number.
abbrev pub ge : ℤ → ℕ → Bool
ge (pos m) n = leb n m
ge (negsuc m) n = false

-- `z <= n`.
abbrev pub le : ℤ → ℕ → Bool
le (pos m) n = leb m n
le (negsuc m) n = true

-- a - b.
abbrev pub sub_ℕ : ℕ → ℕ → ℤ
sub_ℕ a b = if leb b a then pos (a - b) else negsuc (b - a - 1)

-- `n <= z`.
abbrev pub le_int : ℕ → ℤ → Bool
le_int n (pos m) = leb n m
le_int n (negsuc m) = false

pub le_int-sub : (n a b : ℕ) → le_int n (sub_ℕ a b) ≡ leb (n + b) a
le_int-sub n a b = ground arith
