-- ===== src/Base/Int.antt =====
-- The C `int`: ids, message types and the status codes of libuv. Only tests are needed.
use Prim.Native.Nat.{ℕ, compare, Ordering}
use mathlib.Core.Path.{◌≡◌}
use mathlib.Core.Logic.{◌≢◌}
use mathlib.Core.Bool.{Bool, true, false}
use native.Mathlib.Omega.{arith}

-- `negsuc n` is -(n + 1).
pub data ℤ : Type 0 where
  pos : ℕ → ℤ
  negsuc : ℕ → ℤ

abbrev pub is_neg : ℤ → Bool
is_neg (pos n) = false
is_neg (negsuc n) = true

abbrev pub is_zero : ℤ → Bool
is_zero (pos n) = elim (compare n 0) [ Ordering.eq ↦ true | _ ↦ false ]
is_zero (negsuc n) = false

abbrev pub int_eq : ℤ → ℤ → Bool
int_eq (pos a) (pos b) = elim (compare a b) [ Ordering.eq ↦ true | _ ↦ false ]
int_eq (negsuc a) (negsuc b) = elim (compare a b) [ Ordering.eq ↦ true | _ ↦ false ]
int_eq _ _ = false

pub int_eq-true : (a b : ℤ) → int_eq a b ≡ true → a ≡ b
int_eq-true (pos a) (pos b) h = ground arith
int_eq-true (negsuc a) (negsuc b) h = ground arith
int_eq-true (pos a) (negsuc b) h = ground arith
int_eq-true (negsuc a) (pos b) h = ground arith

pub int_eq-false : (a b : ℤ) → int_eq a b ≡ false → a ≢ b
int_eq-false (pos a) (pos b) h e = ground arith
int_eq-false (negsuc a) (negsuc b) h e = ground arith
int_eq-false (pos a) (negsuc b) h e = ground arith
int_eq-false (negsuc a) (pos b) h e = ground arith

pub is_zero-true : (z : ℤ) → is_zero z ≡ true → z ≡ pos 0
is_zero-true (pos n) h = ground arith
is_zero-true (negsuc n) h = ground arith

pub is_zero-false : (z : ℤ) → is_zero z ≡ false → z ≢ pos 0
is_zero-false (pos n) h e = ground arith
is_zero-false (negsuc n) h e = ground arith
