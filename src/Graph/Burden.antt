-- ===== src/Graph/Burden.antt =====
-- What the unresolved burden of a graph counts.
use eventframed.Prelude.{
  String, Bool, true, false, not, ◌&&◌, ◌||◌, some, List, [], ◌∷◌, ◌++◌, ◌≡◌, ◌↔◌, ◌⊎◌, inl, inr,
  refl, arith, str_eq, eq_iff, str_mem, any, is_some, Bool-cases,
}
use eventframed.Prelude.Dict.{Dict, get, put, get-put}
use eventframed.Prelude.Float64.{Float64, le_f, zero_f}
use eventframed.Agency.Build.{finite}
use eventframed.Model.PredictiveGraph.{
  CompatibilityNode, CompatibilityEdge, PredictiveGraph, ComparisonObligation,
}
use eventframed.Graph.{node_map, or_nil, link, adjacency_of}
use eventframed.Graph.Search.{reachable, burden_loop, unresolved_burden}
use eventframed.Graph.Reach.{Walk, first, next, search_all-decides, str_mem-append}

-- Some edge has the two ends, in either direction.
abbrev pub joined : List CompatibilityEdge → String → String → Bool
joined edges u v =
    any (λ e. (str_eq e.from u && str_eq e.to v) || (str_eq e.to u && str_eq e.from v)) edges

-- A path of at least one edge.
pub data Connected (edges : List CompatibilityEdge) (u : String) : String → Type 0 where
  edge : {v : String} → joined edges u v ≡ true → Connected edges u v
  extend : {v w : String} → Connected edges u v → joined edges v w ≡ true → Connected edges u w

abbrev pub has_node : List CompatibilityNode → String → Bool
has_node nodes id = any (λ n. str_eq n.id id) nodes

near-link :
    (a b u v : String) (adjacency : Dict (List String))
    → str_mem v (or_nil (get u (link a b adjacency)))
      ≡ ((str_eq a u && str_eq b v) || str_mem v (or_nil (get u adjacency)))
unfolding link
near-link a b u v adjacency = ground (
  arith,
  get-put a u (or_nil (get a adjacency) ++ (b ∷ [])) adjacency,
  eq_iff a u,
  str_mem-append v (or_nil (get a adjacency)) (b ∷ []),
)

near-adjacency_of :
    (edges : List CompatibilityEdge) (adjacency : Dict (List String)) (u v : String)
    → str_mem v (or_nil (get u (adjacency_of edges adjacency)))
      ≡ (joined edges u v || str_mem v (or_nil (get u adjacency)))
unfolding adjacency_of
near-adjacency_of [] adjacency u v = refl
near-adjacency_of (e ∷ edges) adjacency u v = ground (
  arith,
  near-adjacency_of edges (link e.to e.from (link e.from e.to adjacency)) u v,
  near-link e.to e.from u v (link e.from e.to adjacency),
  near-link e.from e.to u v adjacency,
)

near-joined :
    (edges : List CompatibilityEdge) (u v : String)
    → str_mem v (or_nil (get u (adjacency_of edges []))) ≡ joined edges u v
unfolding get
near-joined edges u v = ground (arith, near-adjacency_of edges [] u v)

Walk-Connected :
    (edges : List CompatibilityEdge) (u : String) {v : String}
    → Walk (adjacency_of edges []) u v
    → Connected edges u v
Walk-Connected edges u {v} (first h) = edge (rw near-joined at h)
Walk-Connected edges u (next {v = v} walk h) =
    extend (Walk-Connected edges u walk) (rw near-joined at h)

Connected-Walk :
    (edges : List CompatibilityEdge) (u : String) {v : String}
    → Connected edges u v
    → Walk (adjacency_of edges []) u v
Connected-Walk edges u {v} (edge h) = first (rw near-joined h)
Connected-Walk edges u (extend {v = v} path h) =
    next (Connected-Walk edges u path) (rw near-joined h)

is_some-node_map :
    (nodes : List CompatibilityNode) (out : Dict CompatibilityNode) (id : String)
    → is_some (get id (node_map nodes out)) ≡ (has_node nodes id || is_some (get id out))
unfolding node_map
is_some-node_map [] out id = refl
is_some-node_map (n ∷ nodes) out id =
    ground (arith, is_some-node_map nodes (put n.id n out) id, get-put n.id id n out)

abbrev pub Proper : ComparisonObligation → Type 0
Proper o = (str_eq o.from o.to ≡ false) × (finite o.weight ≡ true) × (le_f o.weight zero_f ≡ false)

-- The graph has the node that the obligation starts at, and a path from it to the other end.
abbrev pub Resolved : PredictiveGraph → ComparisonObligation → Type 0
Resolved candidate o =
    (has_node candidate.nodes o.from ≡ true) × Connected candidate.edges o.from o.to

-- The two tests of the source decide this.
Resolved-tests :
    (candidate : PredictiveGraph) (o : ComparisonObligation)
    → ((is_some (get o.from (node_map candidate.nodes []))
          && reachable (adjacency_of candidate.edges []) o.from o.to)
        ≡ true)
      ↔ Resolved candidate o
unfolding get
Resolved-tests candidate o =
    let found = is_some-node_map candidate.nodes [] o.from in
    let (_, walks) = search_all-decides (adjacency_of candidate.edges []) o.from o.to in
    (
      λ h. (ground arith, Walk-Connected candidate.edges o.from (walks.0 (ground arith))),
      λ (node, path).
          let reached = walks.1 (Connected-Walk candidate.edges o.from path) in ground arith,
    )

module _ (add : Float64 → Float64 → Float64) (candidate : PredictiveGraph) where
  -- From the burden so far, the obligations lead to the result: each is proper, and its weight is
  -- added exactly if the graph does not resolve it.
  abbrev pub Accounted : Float64 → Float64 → List ComparisonObligation → Type 0
  Accounted burden result [] = burden ≡ result
  Accounted burden result (o ∷ rest) =
      Proper o
      × ((Resolved candidate o × Accounted burden result rest)
          ⊎ ((¬ Resolved candidate o) × Accounted (add burden o.weight) result rest))

  abbrev charge : ComparisonObligation → Bool
  charge o =
      not (is_some (get o.from (node_map candidate.nodes [])))
      || not (reachable (adjacency_of candidate.edges []) o.from o.to)

  charge-cases :
      (o : ComparisonObligation)
      → ((charge o ≡ false) × Resolved candidate o) ⊎ ((charge o ≡ true) × (¬ Resolved candidate o))
  charge-cases o = elim (Bool-cases (charge o)) [
    | inl charged ↦
        inr (charged, λ r. let passes = (Resolved-tests candidate o).1 r in ground arith)
    | inr shut ↦ inl (shut, (Resolved-tests candidate o).0 (ground arith))
  ]

  burden_loop-Accounted :
      (obligations : List ComparisonObligation) (burden : Float64) {result : Float64}
      → (burden_loop add
            (adjacency_of candidate.edges [])
            (node_map candidate.nodes [])
            burden
            obligations
          ≡ some result)
        ↔ Accounted burden result obligations
  unfolding burden_loop
  burden_loop-Accounted [] burden = (λ h. ground arith, λ h. rw h refl)
  burden_loop-Accounted (o ∷ rest) burden = elim (charge-cases o) [
    | inl (shut, resolved) ↦
        let (sound, full) = burden_loop-Accounted rest burden in
        (
          λ h. (ground arith, inl (resolved, sound (ground arith))),
          λ (proper, accounts). elim accounts [
            | inl (_, more) ↦ let e = full more in ground arith
            | inr (fails, _) ↦ absurd (fails resolved)
          ],
        )
    | inr (counted, fails) ↦
        let (sound, full) = burden_loop-Accounted rest (add burden o.weight) in
        (
          λ h. (ground arith, inr (fails, sound (ground arith))),
          λ (proper, accounts). elim accounts [
            | inl (resolved, _) ↦ absurd (fails resolved)
            | inr (_, more) ↦ let e = full more in ground arith
          ],
        )
  ]

  -- UnresolvedBurden gives a result exactly if every obligation has two different ends and a finite
  -- positive weight; the result then starts at 0 and adds, in order, the weight of each obligation
  -- whose start is no node of the graph or from whose start no path of edges, in either direction,
  -- leads to its other end.
  pub unresolved_burden_iff :
      (obligations : List ComparisonObligation) (result : Float64)
      → (unresolved_burden add candidate obligations ≡ some result)
        ↔ Accounted zero_f result obligations
  unfolding unresolved_burden
  unresolved_burden_iff obligations result = burden_loop-Accounted obligations zero_f
