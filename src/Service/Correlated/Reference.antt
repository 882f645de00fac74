-- ===== src/Service/Correlated/Reference.antt =====
-- Which decisions of a report are marked as correlated, said of the decisions before each.
use eventframed.Prelude.{
  String, Bool, true, false, not, ◌&&◌, Option, none, some, List, [], ◌∷◌, ◌++◌, ◌≡◌, ◌⊎◌, inl, inr,
  refl, ap, ap₂, ◌∙◌, arith, str_eq, eq_iff, if◌then◌else◌, Bool-cases,
}
use eventframed.Prelude.Dict.{Dict, get, get-put}
use eventframed.Model.Journal.{BayesianDecision, BayesianShadowReport}
use eventframed.Service.Correlated.{
  certified_apart, mark_seen, mark_decision, mark_decisions, mark_correlated,
}

-- The posterior key of the first of the decisions that rests on a group of evidence.
unfoldable pub first_key : String → List BayesianDecision → Option String
first_key group [] = none
first_key group (d ∷ decisions) =
    if str_eq d.evidence_group_key group then some d.posterior_key else first_key group decisions

-- Whether a decision repeats the evidence of one of the decisions before it.
abbrev repeats_key : Option String → BayesianDecision → Bool
repeats_key none d = false
repeats_key (some prior) d = not (certified_apart prior d.posterior_key)

abbrev pub repeats : List BayesianDecision → BayesianDecision → Bool
repeats before d =
    not (str_eq d.evidence_group_key "") && repeats_key (first_key d.evidence_group_key before) d

abbrev pub marked : Bool → BayesianDecision → BayesianDecision
marked b d = if b then record d { correlated_suppressed = true } else d

unfoldable pub marked_after : List BayesianDecision → List BayesianDecision → List BayesianDecision
unfolding first_key
marked_after before [] = []
marked_after before (d ∷ decisions) =
    marked (repeats before d) d ∷ marked_after (before ++ (d ∷ [])) decisions

-- `seen` holds the first decision of each group.
abbrev First : Dict String → List BayesianDecision → Type 0
First seen before = (group : String) → group ≡ "" ⊎ (get group seen ≡ first_key group before)

first_key-append :
    (group : String) (before : List BayesianDecision) (d : BayesianDecision)
    → first_key group (before ++ (d ∷ [])) ≡ elim (first_key group before) [
      | some k ↦ some k
      | none ↦ if str_eq d.evidence_group_key group then some d.posterior_key else none
    ]
unfolding first_key
first_key-append group [] d = refl
first_key-append group (x ∷ before) d = elim (Bool-cases (str_eq x.evidence_group_key group)) [
  | inl same ↦ rw same refl
  | inr differs ↦ rw differs (first_key-append group before d)
]

marks_seen :
    (prior : Option String) (seen : Dict String) (d : BayesianDecision)
    → (mark_seen prior seen d).1 ≡ marked (repeats_key prior d) d
unfolding mark_seen
marks_seen none seen d = refl
marks_seen (some prior) seen d = elim (Bool-cases (certified_apart prior d.posterior_key)) [
  | inl apart ↦ rw apart refl
  | inr same ↦ rw same refl
]

marks :
    (seen : Dict String) (before : List BayesianDecision) (d : BayesianDecision)
    → First seen before
    → (mark_decision seen d).1 ≡ marked (repeats before d) d
unfolding mark_decision
marks seen before d first = elim (Bool-cases (str_eq d.evidence_group_key "")) [
  | inl none_given ↦ rw none_given refl
  | inr given ↦
      let here : get d.evidence_group_key seen ≡ first_key d.evidence_group_key before =
        ground (arith, given, eq_iff d.evidence_group_key "", first d.evidence_group_key) in
      rw given (
        marks_seen (get d.evidence_group_key seen) seen d
        ∙ ap (λ k. marked (repeats_key k d) d) here)
]

mark_decision-First :
    (seen : Dict String) (before : List BayesianDecision) (d : BayesianDecision)
    → First seen before
    → First (mark_decision seen d).0 (before ++ (d ∷ []))
unfolding mark_decision mark_seen
mark_decision-First seen before d first group = ground (
  arith,
  first group,
  first d.evidence_group_key,
  first_key-append group before d,
  get-put d.evidence_group_key group d.posterior_key seen,
  eq_iff d.evidence_group_key group,
  eq_iff d.evidence_group_key "",
)

mark_decisions-marked_after :
    (seen : Dict String) (before decisions : List BayesianDecision)
    → First seen before
    → mark_decisions seen decisions ≡ marked_after before decisions
unfolding mark_decisions marked_after
mark_decisions-marked_after seen before [] first = refl
mark_decisions-marked_after seen before (d ∷ decisions) first =
    ap₂ (λ x l. x ∷ l) (marks seen before d first)
      (mark_decisions-marked_after (mark_decision seen d).0 (before ++ (d ∷ [])) decisions
        (mark_decision-First seen before d first))

-- A report's decision is marked as correlated, and otherwise as it was, exactly if it has a group of
-- evidence, an earlier decision has the same group, and the first such one and it are not two
-- certified buckets with different keys.
pub mark_correlated-repeats :
    (report : BayesianShadowReport)
    → (mark_correlated report).decisions ≡ marked_after [] report.decisions
unfolding mark_correlated get first_key
mark_correlated-repeats report =
    mark_decisions-marked_after [] [] report.decisions (λ group. inr refl)
