-- ===== src/Prelude/Float64.antt =====
-- float64 values as the program compares them. A number is its place in the order of the IEEE 754
-- values: `nonneg` holds the bit pattern of a value from +0 up, `neg n` stands for the value whose
-- magnitude has the pattern n + 1, and -0 is +0, which Go's `==` does not tell from it either.
use Prim.Native.Nat.{ℕ, suc}
use mathlib.Core.Path.{◌≡◌}
use mathlib.Core.Bool.{Bool, true, false, ◌&&◌}
use native.Mathlib.Omega.{arith}
use eventframed.Prelude.Tests.{ltb, leb, ◌==◌}

pub data Float64 : Type 0 where
  nan : Float64
  nonneg : ℕ → Float64
  neg : ℕ → Float64

-- The bit pattern of +Inf, which is also that of |-Inf|.
abbrev pub inf_bits : ℕ
inf_bits = 0x7ff0000000000000

-- math.IsNaN and math.IsInf(x, 0)
abbrev pub is_nan : Float64 → Bool
is_nan nan = true
is_nan (nonneg _) = false
is_nan (neg _) = false

abbrev pub is_inf : Float64 → Bool
is_inf nan = false
is_inf (nonneg n) = n == inf_bits
is_inf (neg n) = suc n == inf_bits

-- <, <= and ==, all false at a NaN
abbrev pub lt_f : Float64 → Float64 → Bool
lt_f (nonneg a) (nonneg b) = ltb a b
lt_f (neg a) (neg b) = ltb b a
lt_f (neg a) (nonneg b) = true
lt_f _ _ = false

abbrev pub le_f : Float64 → Float64 → Bool
le_f (nonneg a) (nonneg b) = leb a b
le_f (neg a) (neg b) = leb b a
le_f (neg a) (nonneg b) = true
le_f _ _ = false

abbrev pub eq_f : Float64 → Float64 → Bool
eq_f (nonneg a) (nonneg b) = a == b
eq_f (neg a) (neg b) = a == b
eq_f _ _ = false

abbrev pub zero_f : Float64
zero_f = nonneg 0

-- 0.5 and 1
abbrev pub half_f : Float64
half_f = nonneg 0x3fe0000000000000

abbrev pub one_f : Float64
one_f = nonneg 0x3ff0000000000000

-- A value of [0, 1] that is no NaN.
abbrev pub in_unit : Float64 → Bool
in_unit x = le_f zero_f x && le_f x one_f

-- The order test decides which of two unequal numbers comes first.
pub lt_f_asymm : (a b : Float64) → lt_f a b ≡ true → lt_f b a ≡ false
lt_f_asymm a b h = ground arith

pub in_unit_finite : (x : Float64) → in_unit x ≡ true → (is_nan x ≡ false) × (is_inf x ≡ false)
in_unit_finite x h = ground arith
