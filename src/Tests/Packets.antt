-- ===== src/Tests/Packets.antt =====
-- Packets of candidates, two of which rest on the same evidence, and a report of such decisions.
use eventframed.Prelude.{ℕ, String, true, false, Option, none, some, List, [], ◌∷◌, ◌≡◌, refl, map}
use eventframed.Prelude.Dict.{get, put}
use eventframed.Prelude.Float64.{zero_f, half_f, one_f}
use eventframed.Model.Journal.{BernoulliLaw, ForecastBundle, BayesianDecision, BayesianShadowReport}
use eventframed.Service.Correlated.{mark_correlated}
use eventframed.Service.Correlated.Reference.{marked_after, mark_correlated-repeats}
use eventframed.Packing.{Candidate, PackingPolicy, Packet, Measures, select}
use eventframed.Packing.Packed.{Chosen, select-Chosen}
use eventframed.Tests.Samples.{event}

abbrev law : BernoulliLaw
law = record { useful = half_f; not_useful = half_f }

abbrev forecast : ForecastBundle
forecast = record {
  expert_mixture = record {
    enabled = false;
    probabilities = [];
    policy_version = 1;
    evidence_epoch = 0;
  };
  model_kind = "m";
  rank_score = half_f;
  horizon_key = "retrieval-usefulness-v1";
  base_law = law;
  belief_law = none;
  pre_residual_law = law;
  corrected_law = law;
  template = record { event_id = "e"; predicted_useful = true; confidence = half_f };
  posterior_key = "k";
  posterior_version = 0;
  residual_applied = false;
  residual_shadow_eligible = false;
  residual_record_id = "";
}

abbrev candidate_of : String → String → ℕ → Candidate
candidate_of id group tokens = record {
  event = event id 5;
  similarity = half_f;
  recency_score = half_f;
  graph_compatibility = zero_f;
  graph_applied = false;
  baseline_score = half_f;
  predictive_score = half_f;
  retrieval_score = half_f;
  rank_delta = zero_f;
  rank_delta_scale = zero_f;
  rank_delta_answer_certainty = zero_f;
  rank_delta_correction_reliability = zero_f;
  rank_delta_confidence = zero_f;
  rank_delta_basis = "";
  resolution_rank_delta = zero_f;
  retrieval_contract = "c";
  retrieval_metadata = [];
  score = half_f;
  bayesian_probability = half_f;
  bayesian_applied = false;
  evidence_group_key = group;
  forecast = forecast;
  estimated_tokens = tokens;
}

abbrev measures : Measures
measures = record {
  gap = λ x y. zero_f;
  mean_entropy = λ x y. half_f;
  penalized = λ score weight penalty. score;
  jaccard = λ x y. zero_f;
  correlated_events = λ x y least. false;
}

abbrev policy : PackingPolicy
policy = record {
  adaptive_enabled = true;
  diversity_enabled = true;
  max_pack = 20;
  margin_threshold = half_f;
  entropy_threshold = one_f;
  diversity_penalty = half_f;
  priority_floor = one_f;
  priority_penalty = zero_f;
  evidence_occupancy_limit = 1;
  evidence_similarity = one_f;
}

abbrev offered : List Candidate
offered =
    candidate_of "e1" "g" 4
    ∷ candidate_of "e2" "g" 4
    ∷ candidate_of "e3" "" 9
    ∷ candidate_of "e4" "" 5
    ∷ []

select-Chosen_example :
    (packet : Packet) × (select measures policy [] offered 2 4 10 ≡ some packet)
    × Chosen measures policy [] offered 2 4 10 packet
select-Chosen_example = select-Chosen measures policy [] offered 2 4 10

-- The second rests on the evidence of the first, and the third does not fit.
abbrev ids_of : Option Packet → List String
ids_of none = []
ids_of (some packet) = map (λ (c : Candidate). c.event.id) packet.candidates

select_test : ids_of (select measures policy [] offered 2 4 10) ≡ "e1" ∷ "e4" ∷ []
unfolding select get
select_test = refl

abbrev decision_of : String → String → BayesianDecision
decision_of key group = record {
  event_id = "e";
  activation_score = half_f;
  activated = true;
  cheap_update = false;
  deep_review = false;
  evidence_ready = true;
  audit_selected = false;
  audit_probability = zero_f;
  nomination_probability_lower_bound = zero_f;
  activation_probability = half_f;
  total_selection_probability_lower_bound = zero_f;
  posterior_key = key;
  parent_posterior_key = "";
  evidence_group_key = group;
  correlated_suppressed = false;
  forecast = forecast;
}

abbrev report : BayesianShadowReport
report = record {
  mode = "shadow";
  journal_id = "j";
  journal_durable = true;
  nominated = 5;
  activated = 5;
  deep_reviewed = 0;
  selection_support_certified = false;
  omitted_influence_certified = false;
  residual_applied = 0;
  residual_shadow_eligible = 0;
  decisions =
      decision_of "ap:1" "g"
      ∷ decision_of "k" ""
      ∷ decision_of "ap:2" "g"
      ∷ decision_of "k" "g"
      ∷ decision_of "ap:2" "g"
      ∷ [];
}

mark_correlated-repeats_example :
    (mark_correlated report).decisions ≡ marked_after [] report.decisions
mark_correlated-repeats_example = mark_correlated-repeats report

-- The last repeats the key of the third, and is not marked.
mark_correlated_test :
    map (λ (d : BayesianDecision). d.correlated_suppressed) (mark_correlated report).decisions
    ≡ false ∷ false ∷ false ∷ true ∷ false ∷ []
unfolding mark_correlated put
mark_correlated_test = refl
