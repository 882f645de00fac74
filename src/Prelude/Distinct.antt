-- ===== src/Prelude/Distinct.antt =====
-- Lists without repetition, and the count of their elements.
use Prim.Native.Nat.{suc, ◌≤◌}
use Prim.Native.String.{String}
use mathlib.Core.Path.{◌≡◌, refl, subst}
use mathlib.Core.Logic.{inl, inr}
use mathlib.Core.Bool.{Bool, true, false, not, ◌&&◌}
use mathlib.Core.List.{List, [], ◌∷◌}
use native.Mathlib.Omega.{arith}
use text.Mathlib.Text.{◌==◌}
use text.Mathlib.TextEquality.{eq_iff}
use text.Mathlib.TextPositions.{eq_refl}
use eventframed.Prelude.Tests.{if◌then◌else◌, Bool-cases}
use eventframed.Prelude.Lists.{length, str_mem}

abbrev pub distinct : List String → Bool
distinct [] = true
distinct (x ∷ xs) = not (str_mem x xs) && distinct xs

-- The list without the first place of `x`.
erase : String → List String → List String
erase x [] = []
erase x (y ∷ ys) = let rest = erase x ys in if y == x then ys else y ∷ rest

length-erase :
    (x : String) (ys : List String) → str_mem x ys ≡ true → suc (length (erase x ys)) ≡ length ys
unfolding erase
length-erase x [] h = cc
length-erase x (y ∷ ys) h = ground (arith, length-erase x ys)

mem-erase :
    (x z : String) (ys : List String)
    → (x == z) ≡ false
    → str_mem z ys ≡ true
    → str_mem z (erase x ys) ≡ true
unfolding erase
mem-erase x z [] d h = cc
mem-erase x z (y ∷ ys) d h = ground (arith, mem-erase x z ys d, eq_iff y x, eq_iff y z)

absent_differs :
    (x z : String) (xs : List String)
    → str_mem x xs ≡ false
    → str_mem z xs ≡ true
    → (x == z) ≡ false
absent_differs x z xs h k = elim (Bool-cases (x == z)) [
  | inl same ↦ cc (subst (λ w. str_mem w xs ≡ false) ((eq_iff x z).0 same) h)
  | inr differs ↦ differs
]

-- A list without repetition is no longer than a list that holds all its elements.
pub distinct-length :
    (xs ys : List String)
    → distinct xs ≡ true
    → ((z : String) → str_mem z xs ≡ true → str_mem z ys ≡ true)
    → length xs ≤ length ys
distinct-length [] ys d h = omega arith
distinct-length (x ∷ xs) ys d h =
    let here : str_mem x ys ≡ true = h x (ground (arith, eq_refl x)) in
    let rest : length xs ≤ length (erase x ys) =
      distinct-length xs (erase x ys) (ground arith)
        (λ z k. mem-erase x z ys (absent_differs x z xs (ground arith) k) (h z (ground arith))) in
    omega (arith, rest, length-erase x ys here)

-- If it is as long, it holds all the other's elements.
pub distinct-covers :
    (xs ys : List String)
    → distinct xs ≡ true
    → ((z : String) → str_mem z xs ≡ true → str_mem z ys ≡ true)
    → length xs ≡ length ys
    → (z : String) → str_mem z ys ≡ true
    → str_mem z xs ≡ true
distinct-covers xs ys d h same z k = elim (Bool-cases (str_mem z xs)) [
  | inl here ↦ here
  | inr absent ↦
      let shorter : length xs ≤ length (erase z ys) =
        distinct-length xs (erase z ys) d
          (λ w m. mem-erase z w ys (absent_differs z w xs absent m) (h w m)) in
      absurd (omega (arith, shorter, length-erase z ys k))
]

-- A loop that fails at an element which it has met before, starting from the set `seen`.
abbrev pub apart : List String → List String → Bool
apart seen [] = true
apart seen (x ∷ xs) = not (str_mem x seen) && apart (x ∷ seen) xs

apart-str_mem :
    (seen xs : List String) (z : String)
    → apart seen xs ≡ true
    → str_mem z xs ≡ true
    → str_mem z seen ≡ false
apart-str_mem seen [] z h k = cc
apart-str_mem seen (x ∷ xs) z h k = ground (arith, eq_iff x z, apart-str_mem (x ∷ seen) xs z)

pub apart-distinct : (seen xs : List String) → apart seen xs ≡ true → distinct xs ≡ true
apart-distinct seen [] h = refl
apart-distinct seen (x ∷ xs) h =
    ground (arith, eq_refl x, apart-str_mem (x ∷ seen) xs x, apart-distinct (x ∷ seen) xs)
