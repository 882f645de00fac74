-- ===== src/Prelude/Sort.antt =====
-- `sort.Slice` and `sort.Strings`: the order of the result is the comparison's; where it leaves two
-- elements equal Go fixes no order, and here the earlier one stays first.
use Prim.Native.String.{String, compare}
use mathlib.Core.Bool.{Bool}
use mathlib.Core.List.{List, [], ◌∷◌, Perm}
use mathlib.Core.List.Perm
use text.Mathlib.Text.{is_lt}
use eventframed.Prelude.Tests.{if◌then◌else◌, Bool-cases, if_elim}
use eventframed.Prelude.Lists.{All, str_mem}
use mathlib.Core.Path.{◌≡◌, refl}
use native.Mathlib.Omega.{arith}
use mathlib.Core.Logic.{inl, inr}

module _ {ℓ} {A : Type ℓ} (less : A → A → Bool) where
  unfoldable pub insert_sorted : A → List A → List A
  insert_sorted x [] = x ∷ []
  insert_sorted x (y ∷ ys) = if less y x then y ∷ insert_sorted x ys else x ∷ y ∷ ys

  unfoldable pub sort_by : List A → List A
  unfolding insert_sorted
  sort_by [] = []
  sort_by (x ∷ xs) = insert_sorted x (sort_by xs)

  insert_sorted-perm : (x : A) (xs : List A) → Perm (insert_sorted x xs) (x ∷ xs)
  unfolding insert_sorted
  insert_sorted-perm x [] = Perm.refl (x ∷ [])
  insert_sorted-perm x (y ∷ ys) = elim (Bool-cases (less y x)) [
    | inl e ↦ rw e (Perm.trans (Perm.cons y (insert_sorted-perm x ys)) (Perm.swap x y ys))
    | inr e ↦ rw e (Perm.refl (x ∷ y ∷ ys))
  ]

  -- Sorting loses no element and makes none up.
  pub sort_by-perm : (xs : List A) → Perm (sort_by xs) xs
  unfolding sort_by
  sort_by-perm [] = Perm.refl []
  sort_by-perm (x ∷ xs) =
      Perm.trans (insert_sorted-perm x (sort_by xs)) (Perm.cons x (sort_by-perm xs))

module _ {ℓ κ} {A : Type ℓ} (less : A → A → Bool) (P : A → Type κ) where
  insert_sorted-All : (x : A) (xs : List A) → P x → All P xs → All P (insert_sorted less x xs)
  unfolding insert_sorted
  insert_sorted-All x [] h k = (h, tt)
  insert_sorted-All x (y ∷ ys) h k =
      if_elim (All P) (less y x) _ _ (λ _. (k.0, insert_sorted-All x ys h k.1)) (λ _. (h, k))

  pub sort_by-All : (xs : List A) → All P xs → All P (sort_by less xs)
  unfolding sort_by
  sort_by-All [] h = tt
  sort_by-All (x ∷ xs) h = insert_sorted-All x (sort_by less xs) h.0 (sort_by-All xs h.1)

-- a < b on strings
abbrev pub lt_str : String → String → Bool
lt_str a b = is_lt (compare a b)

str_mem-insert_sorted :
    (less : String → String → Bool) (z x : String) (xs : List String)
    → str_mem z (insert_sorted less x xs) ≡ str_mem z (x ∷ xs)
unfolding insert_sorted
str_mem-insert_sorted less z x [] = refl
str_mem-insert_sorted less z x (y ∷ ys) = ground (arith, str_mem-insert_sorted less z x ys)

pub str_mem-sort_by :
    (less : String → String → Bool) (z : String) (xs : List String)
    → str_mem z (sort_by less xs) ≡ str_mem z xs
unfolding sort_by
str_mem-sort_by less z [] = refl
str_mem-sort_by less z (x ∷ xs) =
    ground (arith, str_mem-insert_sorted less z x (sort_by less xs), str_mem-sort_by less z xs)
