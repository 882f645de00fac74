-- ===== src/Packing.antt =====
-- internal/packing/packing.go: the choice of the candidates of a context packet. The float arithmetic,
-- and the two comparisons of texts (the terms of internal/epistemic and the tokens of a frame), are
-- parameters. The budgets, the limits of the policy and the token estimates are positive where the
-- service calls `Select`, so they are natural numbers; the candidates have different event ids, so what
-- the source keeps by id is that of the event.
pub mod Diverse
pub mod Packed
use eventframed.Prelude.{
  ℕ, zero, suc, ◌+◌, ◌-◌, ◌*◌, min, String, Bool, true, false, not, ◌&&◌, ◌||◌, Option, none, some,
  List, [], ◌∷◌, ◌++◌, ltb, leb, ◌==◌, str_eq, length, get_elem?, if◌then◌else◌,
}
use eventframed.Prelude.Pick.{pick}
use eventframed.Prelude.Dict.{Dict, get}
use eventframed.Prelude.Float64.{Float64, neg, is_nan, lt_f, le_f, zero_f}
use eventframed.Model.Event.{Event}
use eventframed.Model.Journal.{ForecastBundle}
use eventframed.Config.Paths.{has_prefix}

-- The candidate of internal/model/api.go; bytes are numbers.
pub record Candidate : Type 0 where
  pub event : Event
  pub similarity : Float64
  pub recency_score : Float64
  pub graph_compatibility : Float64
  pub graph_applied : Bool
  pub baseline_score : Float64
  pub predictive_score : Float64
  pub retrieval_score : Float64
  pub rank_delta : Float64
  pub rank_delta_scale : Float64
  pub rank_delta_answer_certainty : Float64
  pub rank_delta_correction_reliability : Float64
  pub rank_delta_confidence : Float64
  pub rank_delta_basis : String
  pub resolution_rank_delta : Float64
  pub retrieval_contract : String
  pub retrieval_metadata : List ℕ
  pub score : Float64
  pub bayesian_probability : Float64
  pub bayesian_applied : Bool
  pub evidence_group_key : String
  pub forecast : ForecastBundle
  pub estimated_tokens : ℕ

pub record PackingPolicy : Type 0 where
  pub adaptive_enabled : Bool
  pub diversity_enabled : Bool
  pub max_pack : ℕ
  pub margin_threshold : Float64
  pub entropy_threshold : Float64
  pub diversity_penalty : Float64
  pub priority_floor : Float64
  pub priority_penalty : Float64
  pub evidence_occupancy_limit : ℕ
  pub evidence_similarity : Float64

-- `Result` of Select.
pub record Packet : Type 0 where
  pub candidates : List Candidate
  pub used_tokens : ℕ
  pub expanded : Bool
  pub correlated_suppressed : ℕ

-- What the arithmetic computes: |x - y|, the mean of two entropies, score - weight * penalty; the
-- similarity of two frames' tokens, and whether two events' evidence is correlated.
pub record Measures : Type 0 where
  pub gap : Float64 → Float64 → Float64
  pub mean_entropy : Float64 → Float64 → Float64
  pub penalized : Float64 → Float64 → Float64 → Float64
  pub jaccard : Event → Event → Float64
  pub correlated_events : Event → Event → Float64 → Bool

-- math.Inf(-1)
abbrev minus_infinity : Float64
minus_infinity = neg 0x7fefffffffffffff

-- math.Max and math.Min
abbrev max_f : Float64 → Float64 → Float64
max_f x y = if is_nan x then x else if is_nan y then y else if lt_f x y then y else x

abbrev min_f : Float64 → Float64 → Float64
min_f x y = if is_nan x then x else if is_nan y then y else if lt_f y x then y else x

-- keys[id], "" where it is missing
abbrev key_of : Option String → String
key_of none = ""
key_of (some key) = key

-- distinctCertifiedBuckets
unfoldable pub distinct_certified_buckets : Candidate → Candidate → Dict String → Bool
unfolding has_prefix
distinct_certified_buckets left right keys =
    let left_key = key_of (get left.event.id keys) in
    let right_key = key_of (get right.event.id keys) in
    has_prefix left_key "ap:" && has_prefix right_key "ap:" && not (str_eq left_key right_key)

module _ (m : Measures) (policy : PackingPolicy) (keys : Dict String) where
  -- The test of shouldExpand at the boundary.
  unfoldable pub boundary : Option Candidate → Option Candidate → Bool
  boundary (some inside) (some outside) =
      let p = inside.forecast.corrected_law.useful in
      let q = outside.forecast.corrected_law.useful in
      lt_f (m.gap p q) policy.margin_threshold
      || lt_f policy.entropy_threshold (m.mean_entropy p q)
      || le_f policy.priority_floor outside.event.priority
  boundary _ _ = false

  -- shouldExpand
  unfoldable pub should_expand : List Candidate → ℕ → Bool
  unfolding boundary
  should_expand candidates pack_k =
      if pack_k == 0 || leb (length candidates) pack_k
      then false
      else boundary (get_elem? candidates (pack_k - 1)) (get_elem? candidates pack_k)

  -- The loop over the selected ones.
  unfoldable pub penalty_of : Float64 → Candidate → List Candidate → Float64
  unfolding distinct_certified_buckets
  penalty_of penalty candidate [] = penalty
  penalty_of penalty candidate (prior ∷ rest) =
      penalty_of
        (if distinct_certified_buckets candidate prior keys
          then penalty
          else max_f penalty (m.jaccard candidate.event prior.event))
        candidate rest

  unfoldable pub diversity_score : List Candidate → Candidate → Float64
  unfolding penalty_of
  diversity_score selected candidate =
      m.penalized candidate.score
        (if le_f policy.priority_floor candidate.event.priority
          then min_f policy.diversity_penalty policy.priority_penalty
          else policy.diversity_penalty)
        (penalty_of zero_f candidate selected)

  -- The loop over the remaining ones, from `index` on.
  unfoldable pub best_index : List Candidate → ℕ → Float64 → ℕ → List Candidate → ℕ
  unfolding diversity_score
  best_index selected best best_score index [] = best
  best_index selected best best_score index (candidate ∷ rest) =
      let score = diversity_score selected candidate in
      let better = best_index selected index score (suc index) rest in
      let same = best_index selected best best_score (suc index) rest in
      if lt_f best_score score then better else same

  -- The outer loop, with the number of places left; `none` is an index out of range.
  unfoldable pub diversify_loop : ℕ → List Candidate → List Candidate → Option (List Candidate)
  unfolding best_index pick
  diversify_loop zero remaining selected = some (selected ++ remaining)
  diversify_loop (suc places) [] selected = some (selected ++ [])
  diversify_loop (suc places) (c ∷ remaining) selected =
      elim (pick (best_index selected 0 minus_infinity 0 (c ∷ remaining)) (c ∷ remaining)) [
        | none ↦ none
        | some (best, rest) ↦ diversify_loop places rest (selected ++ (best ∷ []))
      ]

  -- diversify
  unfoldable pub diversify : List Candidate → ℕ → Option (List Candidate)
  unfolding diversify_loop
  diversify candidates limit = diversify_loop limit candidates []

  -- Two candidates rest on the same evidence.
  unfoldable pub same_evidence : Candidate → Candidate → Bool
  unfolding distinct_certified_buckets
  same_evidence candidate prior =
      not (distinct_certified_buckets candidate prior keys)
      && ((not (str_eq candidate.evidence_group_key "")
            && str_eq candidate.evidence_group_key prior.evidence_group_key)
          || m.correlated_events candidate.event prior.event policy.evidence_similarity)

  -- The loop over the packed ones.
  unfoldable pub count_correlated : Candidate → List Candidate → ℕ
  unfolding same_evidence
  count_correlated candidate [] = 0
  count_correlated candidate (prior ∷ rest) =
      (if same_evidence candidate prior then 1 else 0) + count_correlated candidate rest

  -- The loop over the ordered candidates.
  unfoldable pub pack_loop :
      ℕ → ℕ → List Candidate → ℕ → ℕ → List Candidate → List Candidate × (ℕ × ℕ)
  unfolding count_correlated
  pack_loop limit budget packed used suppressed [] = (packed, (used, suppressed))
  pack_loop limit budget packed used suppressed (candidate ∷ rest) =
      let skipped = pack_loop limit budget packed used suppressed rest in
      let held_back = pack_loop limit budget packed used (suc suppressed) rest in
      let taken =
        pack_loop limit budget (packed ++ (candidate ∷ [])) (used + candidate.estimated_tokens)
          suppressed rest in
      if leb limit (length packed)
      then (packed, (used, suppressed))
      else if ltb budget (used + candidate.estimated_tokens)
      then skipped
      else if ltb 0 policy.evidence_occupancy_limit
          && leb policy.evidence_occupancy_limit (count_correlated candidate packed)
      then held_back
      else taken

  -- The number of places, and whether it is more than asked for.
  unfoldable pub places_of : List Candidate → ℕ → ℕ → ℕ × Bool
  unfolding should_expand
  places_of candidates pack_k recall_k =
      let wider = min (min (min (2 * pack_k) recall_k) policy.max_pack) (length candidates) in
      if policy.adaptive_enabled && should_expand candidates pack_k
      then (wider, ltb pack_k wider)
      else (min pack_k (length candidates), false)

  unfoldable pub packet_of : ℕ → ℕ × Bool → Option (List Candidate) → Option Packet
  unfolding pack_loop
  packet_of budget (limit, expanded) none = none
  packet_of budget (limit, expanded) (some ordered) =
      let (packed, (used, suppressed)) = pack_loop limit budget [] 0 0 ordered in
      some (record {
        candidates = packed;
        used_tokens = used;
        expanded = expanded;
        correlated_suppressed = suppressed;
      })

  -- Select
  unfoldable pub select : List Candidate → ℕ → ℕ → ℕ → Option Packet
  unfolding places_of diversify packet_of
  select candidates pack_k recall_k budget =
      packet_of budget (places_of candidates pack_k recall_k) (
        if policy.diversity_enabled
        then diversify candidates (places_of candidates pack_k recall_k).0
        else some candidates)
