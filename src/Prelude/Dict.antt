-- ===== src/Prelude/Dict.antt =====
-- Go's `map[string]V` and `map[string]map[string]V` as association lists. `range` reads the entries
-- in the list's order, which stands for any order. A read of a nil map finds nothing, and a delete
-- from a nil map does nothing, as in Go.
pub mod Each
use Prim.Native.Nat.{ℕ, suc, ◌≤◌}
use Prim.Native.String.{String}
use mathlib.Core.Path.{◌≡◌, refl}
use mathlib.Core.Bool.{Bool, false, ◌||◌, ◌&&◌}
use mathlib.Core.Option
use mathlib.Core.Option.{Option, none, some}
use mathlib.Core.Logic.{inl, inr}
use mathlib.Core.List.{List, [], ◌∷◌}
use native.Mathlib.Omega.{arith}
use text.Mathlib.Text.{◌==◌}
use text.Mathlib.TextEquality.{eq_iff}
use text.Mathlib.TextPositions.{eq_refl}
use eventframed.Prelude.Tests.{if◌then◌else◌, Bool-cases, Option-cases}

abbrev pub Dict {ℓ} : Type ℓ → Type ℓ
Dict V = List (String × V)

module _ {ℓ} {V : Type ℓ} where
  -- v, ok := m[k]
  unfoldable pub get : String → Dict V → Option V
  get k [] = none
  get k ((j, v) ∷ m) = if j == k then some v else get k m

  -- m[k] = v
  unfoldable pub put : String → V → Dict V → Dict V
  put k v [] = (k, v) ∷ []
  put k v ((j, w) ∷ m) = if j == k then (k, v) ∷ m else (j, w) ∷ put k v m

  -- delete(m, k)
  unfoldable pub remove : String → Dict V → Dict V
  remove k [] = []
  remove k ((j, v) ∷ m) = let rest = remove k m in if j == k then rest else (j, v) ∷ rest

  pub get-put :
      (k j : String) (v : V) (m : Dict V) → get j (put k v m) ≡ (if k == j then some v else get j m)
  unfolding get put
  get-put k j v [] = refl
  get-put k j v ((i, w) ∷ m) = ground (arith, eq_iff k j, eq_iff i k, eq_iff i j, get-put k j v m)

  pub get-remove :
      (k j : String) (m : Dict V) → get j (remove k m) ≡ (if k == j then none else get j m)
  unfolding get remove
  get-remove k j [] = ground arith
  get-remove k j ((i, w) ∷ m) = ground (arith, eq_iff k j, eq_iff i k, eq_iff i j, get-remove k j m)

  -- A loop over a map that rewrites values under their keys.
  unfoldable pub map_values : (V → V) → Dict V → Dict V
  map_values f [] = []
  map_values f ((j, v) ∷ m) = (j, f v) ∷ map_values f m

  unfoldable pub any_value : (V → Bool) → Dict V → Bool
  any_value p [] = false
  any_value p ((j, v) ∷ m) = p v || any_value p m

  unfoldable pub count_values : (V → Bool) → Dict V → ℕ
  count_values p [] = 0
  count_values p ((j, v) ∷ m) = if p v then suc (count_values p m) else count_values p m

  pub get-map_values :
      (f : V → V) (k : String) (m : Dict V) → get k (map_values f m) ≡ Option.map f (get k m)
  unfolding get map_values
  get-map_values f k [] = refl
  get-map_values f k ((i, w) ∷ m) = ground (arith, get-map_values f k m)

  -- A test that fails on every value fails on the one that is found.
  pub any_value-get :
      (p : V → Bool) (k : String) (m : Dict V) {v : V}
      → any_value p m ≡ false
      → get k m ≡ some v
      → p v ≡ false
  unfolding get any_value
  any_value-get p k [] h e = cc
  any_value-get p k ((i, w) ∷ m) {v} h e = elim (Bool-cases (i == k)) [
    | inl hit ↦ ground (arith)
    | inr miss ↦ any_value-get p k m (ground arith) (ground arith)
  ]

  -- One write adds at most one to a count.
  pub count_values-put-le :
      (p : V → Bool) (k : String) (v : V) (m : Dict V)
      → count_values p (put k v m) ≤ suc (count_values p m)
  unfolding count_values put
  count_values-put-le p k v [] = ground arith
  count_values-put-le p k v ((i, w) ∷ m) = ground (arith, count_values-put-le p k v m)

module _ {ℓ} {V : Type ℓ} where
  -- The inner map of a tenant; a nil map reads as the empty one.
  unfoldable pub inner : String → Dict (Dict V) → Dict V
  inner t d = elim (get t d) [ none ↦ [] | some m ↦ m ]

  -- if m[t] == nil { m[t] = make(map[string]V) }
  unfoldable pub ensure : String → Dict (Dict V) → Dict (Dict V)
  ensure t d = elim (get t d) [ none ↦ put t [] d | some m ↦ d ]

  -- v, ok := m[t][k]
  unfoldable pub get2 : String → String → Dict (Dict V) → Option V
  unfolding inner
  get2 t k d = get k (inner t d)

  -- m[t][k] = v, after the inner map has been made where it was nil
  unfoldable pub put2 : String → String → V → Dict (Dict V) → Dict (Dict V)
  unfolding inner
  put2 t k v d = put t (put k v (inner t d)) d

  -- delete(m[t], k)
  unfoldable pub remove2 : String → String → Dict (Dict V) → Dict (Dict V)
  remove2 t k d = elim (get t d) [ none ↦ d | some m ↦ put t (remove k m) d ]

  -- The inner map of `t` with its values rewritten.
  unfoldable pub map_values2 : String → (V → V) → Dict (Dict V) → Dict (Dict V)
  map_values2 t f d = elim (get t d) [ none ↦ d | some m ↦ put t (map_values f m) d ]

  pub get2-ensure : (t u j : String) (d : Dict (Dict V)) → get2 u j (ensure t d) ≡ get2 u j d
  unfolding get2 ensure inner get
  get2-ensure t u j d = ground (arith, get-put t u [] d, eq_iff t u)

  pub inner-ensure : (t u : String) (d : Dict (Dict V)) → inner u (ensure t d) ≡ inner u d
  unfolding ensure inner
  inner-ensure t u d = ground (arith, get-put t u [] d, eq_iff t u)

  pub get2-put2 :
      (t k u j : String) (v : V) (d : Dict (Dict V))
      → get2 u j (put2 t k v d) ≡ (if t == u && k == j then some v else get2 u j d)
  unfolding get2 put2 inner
  get2-put2 t k u j v d =
      ground (arith, eq_iff t u, get-put t u (put k v (inner t d)) d, get-put k j v (inner t d))

  pub get2-remove2 :
      (t k u j : String) (d : Dict (Dict V))
      → get2 u j (remove2 t k d) ≡ (if t == u && k == j then none else get2 u j d)
  unfolding get2 remove2 inner get
  get2-remove2 t k u j d = elim (Option-cases (get t d)) [
    | inl e ↦ ground (arith, eq_iff t u)
    | inr (m, e) ↦ ground (arith, eq_iff t u, get-put t u (remove k m) d, get-remove k j m)
  ]

  pub get2-map_values2 :
      (t u j : String) (f : V → V) (d : Dict (Dict V))
      → get2 u j (map_values2 t f d) ≡ (if t == u then Option.map f (get2 u j d) else get2 u j d)
  unfolding get2 map_values2 inner get
  get2-map_values2 t u j f d = elim (Option-cases (get t d)) [
    | inl e ↦ ground (arith, eq_iff t u)
    | inr (m, e) ↦ ground (arith, eq_iff t u, get-put t u (map_values f m) d, get-map_values f j m)
  ]

  pub get2-put2_self : (t k : String) (v : V) (d : Dict (Dict V)) → get2 t k (put2 t k v d) ≡ some v
  get2-put2_self t k v d = rw (get2-put2, eq_refl t, eq_refl k) refl

  pub get-put_self : (k : String) (v : V) (m : Dict V) → get k (put k v m) ≡ some v
  get-put_self k v m = rw (get-put, eq_refl k) refl

  pub inner-put2_self :
      (t k : String) (v : V) (d : Dict (Dict V)) → inner t (put2 t k v d) ≡ put k v (inner t d)
  unfolding inner put2
  inner-put2_self t k v d =
      ground (arith, get-put t t (put k v (elim (get t d) [ none ↦ [] | some m ↦ m ])) d, eq_refl t)
