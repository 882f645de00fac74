-- ===== src/Tests/Graphs.antt =====
-- internal/graph/graph.go at small graphs.
use eventframed.Prelude.{String, true, false, some, List, [], ◌∷◌, ◌≡◌, ◌↔◌, refl, if◌then◌else◌}
use eventframed.Prelude.Dict.{Dict, get, put}
use eventframed.Prelude.Float64.{Float64, eq_f, zero_f, half_f, one_f}
use eventframed.Prelude.Int.{pos}
use eventframed.Model.PredictiveGraph.{
  CompatibilityNode, CompatibilityEdge, PredictiveGraph, ComparisonObligation,
}
use eventframed.Graph.Search.{search_all, reachable, unresolved_burden}
use eventframed.Graph.Reach.{Walk, search_all-decides}
use eventframed.Graph.Burden.{Accounted, unresolved_burden_iff}
use eventframed.Graph.Candidate.{GraphPolicy, validate_candidate}
use eventframed.Graph.Sound.{SoundGraph, validate_candidate-SoundGraph}

abbrev cycle : Dict (List String)
cycle = ("a", "b" ∷ []) ∷ ("b", "a" ∷ "c" ∷ []) ∷ []

search_all-decides_example :
    (search_all cycle "a" "c" ≡ some (reachable cycle "a" "c"))
    × ((reachable cycle "a" "c" ≡ true) ↔ Walk cycle "a" "c")
search_all-decides_example = search_all-decides cycle "a" "c"

reachable_start : reachable cycle "a" "a" ≡ true
unfolding reachable get
reachable_start = refl

reachable_end : reachable cycle "c" "a" ≡ false
unfolding reachable get
reachable_end = refl

abbrev node : String → CompatibilityNode
node id = record {
  id = id;
  kind = "bucket";
  member_event_ids = id ∷ [];
  posterior_keys = [];
  law_space = "retrieval-usefulness-v1";
}

abbrev edge : String → String → String → CompatibilityEdge
edge id from to = record {
  id = id;
  from = from;
  to = to;
  comparison_map = "identity_bernoulli";
  effect = "";
  weight = half_f;
}

abbrev pub candidate : PredictiveGraph
candidate = record {
  tenant_id = "t";
  version = 1;
  nodes = node "a" ∷ node "b" ∷ node "c" ∷ [];
  edges = edge "ab" "a" "b" ∷ [];
  published_at = 5;
  source_snap_id = "s";
}

-- The sum where one of the two is 0, and 1 elsewhere.
abbrev sum : Float64 → Float64 → Float64
sum x y = if eq_f x zero_f then y else if eq_f y zero_f then x else one_f

abbrev obligations : List ComparisonObligation
obligations =
    record { from = "b"; to = "a"; weight = one_f }
    ∷ record { from = "a"; to = "c"; weight = half_f }
    ∷ []

burden_test : unresolved_burden sum candidate obligations ≡ some half_f
unfolding unresolved_burden get put
burden_test = refl

unresolved_burden_iff_example :
    (unresolved_burden sum candidate obligations ≡ some half_f)
    ↔ Accounted sum candidate zero_f half_f obligations
unresolved_burden_iff_example = unresolved_burden_iff sum candidate obligations half_f

abbrev pub limits : GraphPolicy
limits = record {
  max_nodes = pos 3;
  max_edges = pos 1;
  max_candidate_family = pos 4;
  closure_radius = pos 1;
  min_net_priority_gain = half_f;
  max_proper_risk_increase = zero_f;
  max_unresolved_burden = one_f;
  min_simultaneous_coverage = one_f;
  min_bucket_support = one_f;
}

validate_candidate-SoundGraph_example : SoundGraph candidate limits
unfolding validate_candidate
validate_candidate-SoundGraph_example = validate_candidate-SoundGraph candidate limits refl
