-- ===== src/Prelude/Pick.antt =====
-- An element of a list and the list without it.
use Prim.Native.Nat.{ℕ, zero, suc, ◌<◌}
use mathlib.Core.Path.{◌≡◌, refl}
use mathlib.Core.Option.{Option, none, some}
use mathlib.Core.List.{List, [], ◌∷◌, Perm}
use mathlib.Core.List.Perm
use native.Mathlib.Omega.{arith}
use eventframed.Prelude.Lists.{length}

module _ {ℓ} {A : Type ℓ} where
  unfoldable pub pick : ℕ → List A → Option (A × List A)
  pick n [] = none
  pick zero (x ∷ xs) = some (x, xs)
  pick (suc n) (x ∷ xs) = elim (pick n xs) [ none ↦ none | some (y, ys) ↦ some (y, x ∷ ys) ]

  -- A place within the list has an element, and the list is a permutation of it and the rest.
  pub pick-Perm :
      (n : ℕ) (xs : List A)
      → n < length xs
      → (y : A) × (ys : List A) × (pick n xs ≡ some (y, ys)) × Perm (y ∷ ys) xs
  unfolding pick
  pick-Perm n [] h = absurd (omega (arith, h))
  pick-Perm zero (x ∷ xs) h = (x, xs, refl, Perm.refl (x ∷ xs))
  pick-Perm (suc n) (x ∷ xs) h =
      let (y, ys, e, p) = pick-Perm n xs (omega (arith, h)) in
      (y, x ∷ ys, rw e refl, Perm.trans (Perm.swap x y ys) (Perm.cons x p))
