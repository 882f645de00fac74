-- ===== src/Prelude/Dict/Each.antt =====
-- A property of every key and value of a map.
use Prim.Native.String.{String}
use mathlib.Core.Path.{◌≡◌, subst}
use mathlib.Core.Option.{none, some}
use mathlib.Core.Logic.{inl, inr}
use mathlib.Core.List.{[], ◌∷◌}
use native.Mathlib.Omega.{arith}
use text.Mathlib.Text.{◌==◌}
use text.Mathlib.TextEquality.{eq_iff}
use eventframed.Prelude.Tests.{if◌then◌else◌, if_elim, Bool-cases, Option-cases}
use eventframed.Prelude.Dict.{Dict, get, put, inner, put2, map_values, map_values2, get-put}

abbrev pub Each {ℓ κ} : {V : Type ℓ} → (String → V → Type κ) → Dict V → Type κ
Each P [] = Unit
Each P ((k, v) ∷ m) = P k v × Each P m

module _ {ℓ κ} {V : Type ℓ} (P : String → V → Type κ) where
  pub Each-put : (k : String) (v : V) (m : Dict V) → P k v → Each P m → Each P (put k v m)
  unfolding put
  Each-put k v [] p h = (p, h)
  Each-put k v ((j, w) ∷ m) p h =
      if_elim (Each P) (j == k) _ _ (λ _. (p, h.1)) (λ _. (h.0, Each-put k v m p h.1))

  pub Each-get : (k : String) (m : Dict V) {v : V} → Each P m → get k m ≡ some v → P k v
  unfolding get
  Each-get k [] h e = cc
  Each-get k ((j, w) ∷ m) {v} h e = elim (Bool-cases (j == k)) [
    | inl hit ↦
        let same : w ≡ v = ground arith in
        subst (λ x. P x v) ((eq_iff j k).0 hit) (subst (P j) same h.0)
    | inr miss ↦ Each-get k m h.1 (ground arith)
  ]

module _ {ℓ κ} {V : Type ℓ} where
  pub Each-map_values :
      (P Q : String → V → Type κ) (f : V → V) (m : Dict V)
      → ((k : String) (v : V) → P k v → Q k (f v))
      → Each P m
      → Each Q (map_values f m)
  unfolding map_values
  Each-map_values P Q f [] step h = tt
  Each-map_values P Q f ((j, w) ∷ m) step h = (step j w h.0, Each-map_values P Q f m step h.1)

  pub Each-weaken :
      (P Q : String → V → Type κ) (m : Dict V)
      → ((k : String) (v : V) → P k v → Q k v)
      → Each P m
      → Each Q m
  Each-weaken P Q [] step h = tt
  Each-weaken P Q ((j, w) ∷ m) step h = (step j w h.0, Each-weaken P Q m step h.1)

module _ {ℓ} {V : Type ℓ} where
  pub inner-put2 :
      (t k u : String) (v : V) (d : Dict (Dict V))
      → inner u (put2 t k v d) ≡ (if t == u then put k v (inner t d) else inner u d)
  unfolding inner put2
  inner-put2 t k u v d = ground (arith, eq_iff t u, get-put t u (put k v (inner t d)) d)

  pub inner-map_values2 :
      (t u : String) (f : V → V) (d : Dict (Dict V))
      → inner u (map_values2 t f d) ≡ (if t == u then map_values f (inner t d) else inner u d)
  unfolding inner map_values2 map_values
  inner-map_values2 t u f d = elim (Option-cases (get t d)) [
    | inl e ↦ ground (arith, eq_iff t u)
    | inr (m, e) ↦ ground (arith, eq_iff t u, get-put t u (map_values f m) d)
  ]

  -- A nil inner map and an empty one read alike.
  pub inner-put_nil :
      (t u : String) (d : Dict (Dict V)) → get t d ≡ none → inner u (put t [] d) ≡ inner u d
  unfolding inner get
  inner-put_nil t u d e = ground (arith, get-put t u [] d, eq_iff t u)
