-- ===== src/Packing/Diverse.antt =====
-- That `diversify` only reorders the candidates.
use mathlib.Core.List.{Perm, append_assoc}
use mathlib.Core.List.Perm
use eventframed.Prelude.{
  ℕ, zero, suc, ◌+◌, ◌≤◌, ◌<◌, String, some, List, [], ◌∷◌, ◌++◌, ◌≡◌, refl, sym, subst, arith,
  length, if_elim,
}
use eventframed.Prelude.Dict.{Dict}
use eventframed.Prelude.Float64.{Float64, lt_f}
use eventframed.Prelude.Pick.{pick-Perm}
use eventframed.Packing.{
  Candidate, PackingPolicy, Measures, minus_infinity, diversity_score, best_index, diversify_loop,
  diversify,
}

module _ (m : Measures) (policy : PackingPolicy) (keys : Dict String) where
  best_index_lt :
      (selected : List Candidate) (best : ℕ) (score : Float64) (index : ℕ) (rest : List Candidate)
      (total : ℕ)
      → best < total
      → index + length rest ≤ total
      → best_index m policy keys selected best score index rest < total
  unfolding best_index
  best_index_lt selected best score index [] total h k = h
  best_index_lt selected best score index (c ∷ rest) total h k =
      if_elim (λ i. i < total) (lt_f score (diversity_score m policy keys selected c)) _ _
        (λ _.
          best_index_lt selected index _ (suc index) rest total (omega (arith, k))
            (omega (arith, k)))
        (λ _. best_index_lt selected best score (suc index) rest total h (omega (arith, k)))

  diversify_loop-Perm :
      (places : ℕ) (remaining selected : List Candidate)
      → (ys : List Candidate) × (diversify_loop m policy keys places remaining selected ≡ some ys)
        × Perm ys (selected ++ remaining)
  unfolding diversify_loop
  diversify_loop-Perm zero remaining selected = (_, refl, Perm.refl _)
  diversify_loop-Perm (suc places) [] selected = (_, refl, Perm.refl _)
  diversify_loop-Perm (suc places) (c ∷ remaining) selected =
      let (best, rest, e, p) =
        pick-Perm (best_index m policy keys selected 0 minus_infinity 0 (c ∷ remaining))
          (c ∷ remaining)
          (best_index_lt selected 0 minus_infinity 0 (c ∷ remaining) (length (c ∷ remaining))
            (omega arith) (omega arith)) in
      let (ys, f, q) = diversify_loop-Perm places rest (selected ++ (best ∷ [])) in
      (
        ys,
        rw (e, diversify_loop) f,
        Perm.trans q (
            subst (λ l. Perm l (selected ++ (c ∷ remaining)))
              (sym (append_assoc selected (best ∷ []) rest)) (Perm.append_left selected p)),
      )

  -- The choice of the best index never leaves the list, and the result is a permutation.
  pub diversify-Perm :
      (candidates : List Candidate) (limit : ℕ)
      → (ys : List Candidate) × (diversify m policy keys candidates limit ≡ some ys)
        × Perm ys candidates
  unfolding diversify
  diversify-Perm candidates limit = diversify_loop-Perm limit candidates []
