-- ===== src/Common/Ints.antt =====
-- Integers over the native numbers, for the `i32` of a process number.
use Prim.Native.Nat.{ℕ}
use mathlib.Core.Path.{◌≡◌, ap}
use mathlib.Core.Bool.{Bool, true, false}
use native.Mathlib.Omega.{arith}
use android_smb_for_ksu.Common.Tests.{◌==◌, leb}

pub data ℤ : Type 0 where
  pos : ℕ → ℤ
  negsuc : ℕ → ℤ

abbrev pub int_eq : ℤ → ℤ → Bool
int_eq (pos m) (pos n) = m == n
int_eq (pos m) (negsuc n) = false
int_eq (negsuc m) (pos n) = false
int_eq (negsuc m) (negsuc n) = m == n

-- `m <= n`
abbrev pub int_leb : ℤ → ℤ → Bool
int_leb (pos m) (pos n) = leb m n
int_leb (pos m) (negsuc n) = false
int_leb (negsuc m) (pos n) = true
int_leb (negsuc m) (negsuc n) = leb n m

pub int_eq-≡ : (m n : ℤ) → int_eq m n ≡ true → m ≡ n
int_eq-≡ (pos m) (pos n) h = ap pos (ground arith)
int_eq-≡ (pos m) (negsuc n) h = cc
int_eq-≡ (negsuc m) (pos n) h = cc
int_eq-≡ (negsuc m) (negsuc n) h = ap negsuc (ground arith)

pub int_eq_refl : (m : ℤ) → int_eq m m ≡ true
int_eq_refl (pos m) = ground arith
int_eq_refl (negsuc m) = ground arith
