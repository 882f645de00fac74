-- ===== src/Graph/Covers.antt =====
-- What the closure of a change covers.
use eventframed.Prelude.{
  ℕ, zero, suc, String, Bool, true, false, ◌||◌, some, List, [], ◌∷◌, ◌≡◌, inl, inr, refl, arith,
  eq_refl, str_mem, All, Bool-cases, if_elim,
}
use eventframed.Prelude.Dict.{Dict, get}
use eventframed.Prelude.Int.{ℤ, magnitude}
use eventframed.Prelude.Sort.{str_mem-sort_by}
use eventframed.Model.PredictiveGraph.{
  CompatibilityNode, CompatibilityEdge, PredictiveGraph, DependencyClosure,
}
use eventframed.Graph.{node_map, edge_map, map_keys, or_nil, adjacency_of}
use eventframed.Graph.Closure.{
  same_node, same_edge, seed_nodes, seed_edges, seed_of, visit, spread, rounds, collect_edges,
  collect_nodes, dependency_closure,
}
use eventframed.Graph.Seeds.{
  Within, add_key-mem, add_key-Within, add_keys-Within, add_keys-all, seed_nodes-Within,
  seed_nodes-changed, seed_edges-Within, seed_edges-changed,
}

visit-Within :
    (neighbors : List String) (state : List String × List String)
    → Within state.0 (visit neighbors state).0
unfolding visit
visit-Within [] (affected, next) x h = h
visit-Within (n ∷ ns) (affected, next) x h = visit-Within ns _ x (
    if_elim (λ (st : List String × List String). str_mem x st.0 ≡ true) (str_mem n affected) _ _
      (λ _. h) (λ _. ground arith))

spread-Within :
    (adjacency : Dict (List String)) (frontier affected next : List String)
    → Within affected (spread adjacency frontier (affected, next)).0
unfolding spread
spread-Within adjacency [] affected next x h = h
spread-Within adjacency (id ∷ frontier) affected next x h =
    spread-Within adjacency frontier (visit (or_nil (get id adjacency)) (affected, next)).0
      (visit (or_nil (get id adjacency)) (affected, next)).1 x
      (visit-Within (or_nil (get id adjacency)) (affected, next) x h)

rounds-Within :
    (radius : ℕ) (adjacency : Dict (List String)) (frontier affected : List String)
    → Within affected (rounds radius adjacency frontier affected)
unfolding rounds
rounds-Within zero adjacency frontier affected x h = h
rounds-Within (suc radius) adjacency frontier affected x h =
    rounds-Within radius adjacency _ (spread adjacency frontier (affected, [])).0 x
      (spread-Within adjacency frontier affected [] x h)

-- An edge with an affected end.
abbrev pub touches : List String → CompatibilityEdge → Bool
touches affected e = str_mem e.from affected || str_mem e.to affected

collect_edges-Within :
    (affected : List String) (edges : List CompatibilityEdge) (ids : List String)
    → Within ids (collect_edges affected edges ids)
unfolding collect_edges
collect_edges-Within affected [] ids x h = h
collect_edges-Within affected (e ∷ edges) ids x h = collect_edges-Within affected edges _ x (
    if_elim (λ s. str_mem x s ≡ true) (touches affected e) _ _ (λ _. add_key-Within e.id ids x h)
      (λ _. h))

collect_edges-All :
    (affected : List String) (edges : List CompatibilityEdge) (ids : List String)
    → All
        (λ e. touches affected e ≡ true → str_mem e.id (collect_edges affected edges ids) ≡ true)
        edges
unfolding collect_edges
collect_edges-All affected [] ids = tt
collect_edges-All affected (e ∷ edges) ids = (
  λ h. collect_edges-Within affected edges _ e.id (rw (h, add_key-mem, eq_refl e.id) refl),
  collect_edges-All affected edges _,
)

module _ (keys : CompatibilityNode → List String) where
  collect_nodes-Within :
      (affected : List String) (nodes : List CompatibilityNode) (ids : List String)
      → Within ids (collect_nodes keys affected nodes ids)
  unfolding collect_nodes
  collect_nodes-Within affected [] ids x h = h
  collect_nodes-Within affected (n ∷ nodes) ids x h = collect_nodes-Within affected nodes _ x (
      if_elim (λ s. str_mem x s ≡ true) (str_mem n.id affected) _ _
        (λ _. add_keys-Within (keys n) ids x h) (λ _. h))

  collect_nodes-All :
      (affected : List String) (nodes : List CompatibilityNode) (ids : List String)
      → All
          (λ n.
            str_mem n.id affected ≡ true → Within (keys n) (collect_nodes keys affected nodes ids))
          nodes
  unfolding collect_nodes
  collect_nodes-All affected [] ids = tt
  collect_nodes-All affected (n ∷ nodes) ids = (
    λ h x k. collect_nodes-Within affected nodes _ x (rw h (add_keys-all (keys n) ids x k)),
    collect_nodes-All affected nodes _,
  )

-- What the closure of a change from `current` to `candidate` covers.
pub record Covered (current candidate : PredictiveGraph) (closure : DependencyClosure)
    : Type 0 where
  pub node :
      (id : String) {n : CompatibilityNode}
      → get id (node_map current.nodes []) ≡ some n
      → same_node n (get id (node_map candidate.nodes [])) ≡ false
      → str_mem id closure.node_ids ≡ true
  pub new_node :
      (id : String) {n : CompatibilityNode}
      → get id (node_map candidate.nodes []) ≡ some n
      → same_node n (get id (node_map current.nodes [])) ≡ false
      → str_mem id closure.node_ids ≡ true
  pub edge :
      (id : String) {e : CompatibilityEdge}
      → get id (edge_map current.edges []) ≡ some e
      → same_edge e (get id (edge_map candidate.edges [])) ≡ false
      → (str_mem e.from closure.node_ids ≡ true) × (str_mem e.to closure.node_ids ≡ true)
  pub new_edge :
      (id : String) {e : CompatibilityEdge}
      → get id (edge_map candidate.edges []) ≡ some e
      → same_edge e (get id (edge_map current.edges [])) ≡ false
      → (str_mem e.from closure.node_ids ≡ true) × (str_mem e.to closure.node_ids ≡ true)
  pub edges :
      All
        (λ e. touches closure.node_ids e ≡ true → str_mem e.id closure.edge_ids ≡ true)
        candidate.edges
  pub old_edges :
      All
        (λ e. touches closure.node_ids e ≡ true → str_mem e.id closure.edge_ids ≡ true)
        current.edges
  pub members :
      All
        (λ n. str_mem n.id closure.node_ids ≡ true → Within n.member_event_ids closure.event_ids)
        candidate.nodes
  pub old_members :
      All
        (λ n. str_mem n.id closure.node_ids ≡ true → Within n.member_event_ids closure.event_ids)
        current.nodes
  pub keys :
      All
        (λ n. str_mem n.id closure.node_ids ≡ true → Within n.posterior_keys closure.posterior_keys)
        candidate.nodes
  pub old_keys :
      All
        (λ n. str_mem n.id closure.node_ids ≡ true → Within n.posterior_keys closure.posterior_keys)
        current.nodes

All-map {ℓ κ} :
    {A : Type ℓ} (P Q : A → Type κ) (xs : List A) → ((x : A) → P x → Q x) → All P xs → All Q xs
All-map P Q [] f h = tt
All-map P Q (x ∷ xs) f h = (f x h.0, All-map P Q xs f h.1)

sorted-Within : (xs : List String) → Within xs (map_keys xs)
unfolding map_keys
sorted-Within xs x h = rw str_mem-sort_by h

unsorted-Within : (xs : List String) → Within (map_keys xs) xs
unfolding map_keys
unsorted-Within xs x h = rw str_mem-sort_by at h

-- The closure of a change names every node that the change adds, removes or alters, and both ends of
-- every such edge; and of both graphs it names each edge with a named end, and all member events and
-- posterior keys of each named node.
pub dependency_closure-Covered :
    (current candidate : PredictiveGraph) (radius : ℤ)
    → Covered current candidate (dependency_closure current candidate radius)
unfolding dependency_closure seed_of
dependency_closure-Covered current candidate radius = record {
  node = λ id h d. kept1 id (seed_nodes-changed cn dn [] id h d);
  new_node = λ id h d. kept2 id (seed_nodes-changed dn cn s1 id h d);
  edge = λ id {e} h d.
      let (from, to) = seed_edges-changed ce de s2 id h d in (kept3 e.from from, kept3 e.to to);
  new_edge = λ id {e} h d.
      let (from, to) = seed_edges-changed de ce s3 id h d in (kept4 e.from from, kept4 e.to to);
  edges =
      All-map _ _ candidate.edges (λ e h k. sorted-Within _ e.id (h (ends e k)))
        (collect_edges-All affected candidate.edges _);
  old_edges =
      All-map _ _ current.edges
        (λ e h k.
          sorted-Within _ e.id
            (collect_edges-Within affected candidate.edges _ e.id (h (ends e k))))
        (collect_edges-All affected current.edges []);
  members =
      All-map _ _ candidate.nodes
        (λ n h k x m. sorted-Within _ x (h (unsorted-Within affected n.id k) x m))
        (collect_nodes-All (λ n. n.member_event_ids) affected candidate.nodes _);
  old_members =
      All-map _ _ current.nodes
        (λ n h k x m. sorted-Within _ x (
          collect_nodes-Within (λ n. n.member_event_ids) affected candidate.nodes _ x
            (h (unsorted-Within affected n.id k) x m)))
        (collect_nodes-All (λ n. n.member_event_ids) affected current.nodes []);
  keys =
      All-map _ _ candidate.nodes
        (λ n h k x m. sorted-Within _ x (h (unsorted-Within affected n.id k) x m))
        (collect_nodes-All (λ n. n.posterior_keys) affected candidate.nodes _);
  old_keys =
      All-map _ _ current.nodes
        (λ n h k x m. sorted-Within _ x (
          collect_nodes-Within (λ n. n.posterior_keys) affected candidate.nodes _ x
            (h (unsorted-Within affected n.id k) x m)))
        (collect_nodes-All (λ n. n.posterior_keys) affected current.nodes []);
}
  where
    cn : Dict CompatibilityNode
    cn = node_map current.nodes []

    dn : Dict CompatibilityNode
    dn = node_map candidate.nodes []

    ce : Dict CompatibilityEdge
    ce = edge_map current.edges []

    de : Dict CompatibilityEdge
    de = edge_map candidate.edges []

    s1 : List String
    s1 = seed_nodes cn dn []

    s2 : List String
    s2 = seed_nodes dn cn s1

    s3 : List String
    s3 = seed_edges ce de s2

    s4 : List String
    s4 = seed_edges de ce s3

    adjacency : Dict (List String)
    adjacency = adjacency_of candidate.edges (adjacency_of current.edges [])

    affected : List String
    affected = rounds (magnitude radius) adjacency (map_keys s4) s4

    kept4 : Within s4 (map_keys affected)
    kept4 x h =
        sorted-Within affected x (rounds-Within (magnitude radius) adjacency (map_keys s4) s4 x h)

    kept3 : Within s3 (map_keys affected)
    kept3 x h = kept4 x (seed_edges-Within de ce s3 x h)

    kept2 : Within s2 (map_keys affected)
    kept2 x h = kept3 x (seed_edges-Within ce de s2 x h)

    kept1 : Within s1 (map_keys affected)
    kept1 x h = kept2 x (seed_nodes-Within dn cn s1 x h)

    ends :
        (e : CompatibilityEdge) → touches (map_keys affected) e ≡ true → touches affected e ≡ true
    ends e h = elim (Bool-cases (str_mem e.from (map_keys affected))) [
      | inl from ↦ let f = unsorted-Within affected e.from from in ground arith
      | inr other ↦ let t = unsorted-Within affected e.to (ground arith) in ground arith
    ]
