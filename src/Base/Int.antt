-- ===== src/Base/Int.antt =====
-- `int` and `ssize_t` as integers: a descriptor, a count or an error code.
use Prim.Native.Nat.{ℕ, zero, suc}
use mathlib.Core.Bool.{Bool, true, false}
use mathlib.Core.Path.{◌≡◌}
use native.Mathlib.Omega.{arith}
use csfassignment.Base.Tests.{◌==◌}

-- `negsuc n` is -(n + 1).
pub data ℤ : Type 0 where
  pos : ℕ → ℤ
  negsuc : ℕ → ℤ

abbrev pub is_negative : ℤ → Bool
is_negative (pos n) = false
is_negative (negsuc n) = true

-- `n == m`
abbrev pub int_eq : ℤ → ℤ → Bool
int_eq (pos n) (pos m) = n == m
int_eq (pos n) (negsuc m) = false
int_eq (negsuc n) (pos m) = false
int_eq (negsuc n) (negsuc m) = n == m

-- `n < 1`
abbrev pub less_than_one : ℤ → Bool
less_than_one (pos zero) = true
less_than_one (pos (suc n)) = false
less_than_one (negsuc n) = true

-- `n > 0`
abbrev pub greater_than_zero : ℤ → Bool
greater_than_zero (pos zero) = false
greater_than_zero (pos (suc n)) = true
greater_than_zero (negsuc n) = false

pub int_eq_sound : (n m : ℤ) → int_eq n m ≡ true → n ≡ m
int_eq_sound (pos n) (pos m) h = ground arith
int_eq_sound (pos n) (negsuc m) h = cc
int_eq_sound (negsuc n) (pos m) h = cc
int_eq_sound (negsuc n) (negsuc m) h = ground arith
