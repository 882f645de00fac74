-- ===== src/Graph/Seeds.antt =====
-- The nodes and edges that a change touches are in its seed.
use eventframed.Prelude.{
  String, true, false, ◌||◌, some, List, [], ◌∷◌, ◌≡◌, inl, inr, refl, arith, str_eq, eq_iff,
  eq_refl, str_mem, if◌then◌else◌, Bool-cases, if_elim,
}
use eventframed.Prelude.Dict.{Dict, get}
use eventframed.Model.PredictiveGraph.{CompatibilityNode, CompatibilityEdge}
use eventframed.Graph.{add_key, add_keys}
use eventframed.Graph.Closure.{same_node, same_edge, seed_nodes, seed_edges}

abbrev pub Within : List String → List String → Type 0
Within xs ys = (x : String) → str_mem x xs ≡ true → str_mem x ys ≡ true

pub add_key-mem :
    (x key : String) (set : List String)
    → str_mem x (add_key key set) ≡ (str_eq key x || str_mem x set)
unfolding add_key
add_key-mem x key set = ground (arith, eq_iff key x)

pub add_key-Within : (key : String) (set : List String) → Within set (add_key key set)
add_key-Within key set x h = rw add_key-mem (ground arith)

pub add_keys-Within : (keys set : List String) → Within set (add_keys keys set)
unfolding add_keys
add_keys-Within [] set x h = h
add_keys-Within (key ∷ keys) set x h =
    add_keys-Within keys (add_key key set) x (add_key-Within key set x h)

pub add_keys-all : (keys set : List String) → Within keys (add_keys keys set)
unfolding add_keys
add_keys-all [] set x h = cc
add_keys-all (key ∷ keys) set x h = elim (Bool-cases (str_eq key x)) [
  | inl same ↦ add_keys-Within keys (add_key key set) x (rw (add_key-mem, same) refl)
  | inr differs ↦ add_keys-all keys (add_key key set) x (ground arith)
]

pub seed_nodes-Within :
    (m other : Dict CompatibilityNode) (seed : List String) → Within seed (seed_nodes m other seed)
unfolding seed_nodes
seed_nodes-Within [] other seed x h = h
seed_nodes-Within ((id, n) ∷ m) other seed x h = seed_nodes-Within m other _ x (
    if_elim (λ s. str_mem x s ≡ true) (same_node n (get id other)) _ _ (λ _. h)
      (λ _. add_key-Within id seed x h))

pub seed_nodes-changed :
    (m other : Dict CompatibilityNode) (seed : List String) (id : String) {n : CompatibilityNode}
    → get id m ≡ some n
    → same_node n (get id other) ≡ false
    → str_mem id (seed_nodes m other seed) ≡ true
unfolding seed_nodes get
seed_nodes-changed [] other seed id h d = cc
seed_nodes-changed ((j, v) ∷ m) other seed id {n} h d = elim (Bool-cases (str_eq j id)) [
  | inl same ↦ seed_nodes-Within m other _ id (here ((eq_iff j id).0 same) (ground arith))
  | inr differs ↦ seed_nodes-changed m other _ id (ground arith) d
]
  where
    here :
        j ≡ id
        → v ≡ n
        → str_mem id (if same_node v (get j other) then seed else add_key j seed) ≡ true
    here e f = rw (e, f, d, add_key-mem, eq_refl id) refl

pub seed_edges-Within :
    (m other : Dict CompatibilityEdge) (seed : List String) → Within seed (seed_edges m other seed)
unfolding seed_edges
seed_edges-Within [] other seed x h = h
seed_edges-Within ((id, e) ∷ m) other seed x h = seed_edges-Within m other _ x (
    if_elim (λ s. str_mem x s ≡ true) (same_edge e (get id other)) _ _ (λ _. h)
      (λ _. add_key-Within e.to (add_key e.from seed) x (add_key-Within e.from seed x h)))

pub seed_edges-changed :
    (m other : Dict CompatibilityEdge) (seed : List String) (id : String) {e : CompatibilityEdge}
    → get id m ≡ some e
    → same_edge e (get id other) ≡ false
    → (str_mem e.from (seed_edges m other seed) ≡ true)
      × (str_mem e.to (seed_edges m other seed) ≡ true)
unfolding seed_edges get
seed_edges-changed [] other seed id h d = absurd (ground arith)
seed_edges-changed ((j, v) ∷ m) other seed id {e} h d = elim (Bool-cases (str_eq j id)) [
  | inl same ↦ (
    seed_edges-Within m other _ e.from (from_here ((eq_iff j id).0 same) (ground arith)),
    seed_edges-Within m other _ e.to (to_here ((eq_iff j id).0 same) (ground arith)),
  )
  | inr differs ↦ seed_edges-changed m other _ id (ground arith) d
]
  where
    next : List String
    next = if same_edge v (get j other) then seed else add_key v.to (add_key v.from seed)

    from_here : j ≡ id → v ≡ e → str_mem e.from next ≡ true
    from_here p q =
        rw (p, q, d)
          (add_key-Within e.to (add_key e.from seed) e.from (rw (add_key-mem, eq_refl e.from) refl))

    to_here : j ≡ id → v ≡ e → str_mem e.to next ≡ true
    to_here p q = rw (p, q, d) (rw (add_key-mem e.to e.to (add_key e.from seed), eq_refl e.to) refl)
