-- ===== src/Base/Int.antt =====
-- Signed integers over the native numbers, as far as CBOR keys need them.
use Prim.Native.Nat.{ℕ}
use mathlib.Core.Bool.{Bool, false}
use kpasskey.Base.Tests.{◌==◌}

-- `negsuc n` is -(n + 1).
pub data ℤ : Type 0 where
  pos : ℕ → ℤ
  negsuc : ℕ → ℤ

abbrev pub int_eq : ℤ → ℤ → Bool
int_eq (pos m) (pos n) = m == n
int_eq (negsuc m) (negsuc n) = m == n
int_eq (pos m) (negsuc n) = false
int_eq (negsuc m) (pos n) = false
