-- ===== src/Prelude/Equal.antt =====
-- `reflect.DeepEqual` and `==` on Go values, by instances. Times compare as instants, and a float
-- that is NaN differs from itself. A nil slice and an empty one are the same list here.
use Prim.Native.Nat.{ℕ}
use Prim.Native.String.{String}
use mathlib.Core.Bool.{Bool, true, false, ◌&&◌}
use mathlib.Core.Option.{Option, none, some}
use mathlib.Core.List.{List, [], ◌∷◌}
use text.Mathlib.Text.{◌==◌ as str_eq}
use eventframed.Prelude.Tests.{◌==◌}
use eventframed.Prelude.Float64.{Float64, eq_f}

pub record Equal {ℓ} (A : Type ℓ) : Type ℓ where
  pub equal : A → A → Bool

infix 50 ◌===◌
abbrev pub ◌===◌ {ℓ} : {A : Type ℓ} ⦃e : Equal A⦄ → A → A → Bool
◌===◌ ⦃e⦄ = e.equal

instance abbrev pub number_equal : Equal ℕ
number_equal = record { equal = ◌==◌ }

instance abbrev pub string_equal : Equal String
string_equal = record { equal = str_eq }

instance abbrev pub float_equal : Equal Float64
float_equal = record { equal = eq_f }

abbrev eq_bool : Bool → Bool → Bool
eq_bool true b = b
eq_bool false true = false
eq_bool false false = true

instance abbrev pub bool_equal : Equal Bool
bool_equal = record { equal = eq_bool }

abbrev eq_list {ℓ} : {A : Type ℓ} → (A → A → Bool) → List A → List A → Bool
eq_list eq [] [] = true
eq_list eq (x ∷ xs) (y ∷ ys) = eq x y && eq_list eq xs ys
eq_list eq _ _ = false

instance abbrev pub list_equal {ℓ} : {A : Type ℓ} ⦃e : Equal A⦄ → Equal (List A)
list_equal ⦃e⦄ = record { equal = eq_list e.equal }

abbrev eq_option {ℓ} : {A : Type ℓ} → (A → A → Bool) → Option A → Option A → Bool
eq_option eq none none = true
eq_option eq (some x) (some y) = eq x y
eq_option eq _ _ = false

instance abbrev pub option_equal {ℓ} : {A : Type ℓ} ⦃e : Equal A⦄ → Equal (Option A)
option_equal ⦃e⦄ = record { equal = eq_option e.equal }
