-- ===== src/Prelude/Int.antt =====
-- Go's `int` where a value may be negative. No sum here leaves the 64-bit range.
use Prim.Native.Nat.{ℕ, zero, suc}
use mathlib.Core.Path.{◌≡◌}
use mathlib.Core.Bool.{Bool, true, false, not}
use native.Mathlib.Omega.{arith}
use eventframed.Prelude.Tests.{ltb, ◌==◌}

-- `negsuc n` is -(n + 1).
pub data ℤ : Type 0 where
  pos : ℕ → ℤ
  negsuc : ℕ → ℤ

abbrev pub add_one : ℤ → ℤ
add_one (pos n) = pos (suc n)
add_one (negsuc zero) = pos 0
add_one (negsuc (suc n)) = negsuc n

abbrev pub eq_int : ℤ → ℤ → Bool
eq_int (pos a) (pos b) = a == b
eq_int (negsuc a) (negsuc b) = a == b
eq_int _ _ = false

abbrev pub lt_int : ℤ → ℤ → Bool
lt_int (pos a) (pos b) = ltb a b
lt_int (negsuc a) (negsuc b) = ltb b a
lt_int (negsuc a) (pos b) = true
lt_int (pos a) (negsuc b) = false

pub eq_int→≡ : (a b : ℤ) → eq_int a b ≡ true → a ≡ b
eq_int→≡ a b h = ground arith

abbrev pub le_int : ℤ → ℤ → Bool
le_int a b = not (lt_int b a)

-- A duration as a number of nanoseconds; a negative one counts as none.
abbrev pub magnitude : ℤ → ℕ
magnitude (pos n) = n
magnitude (negsuc n) = 0
