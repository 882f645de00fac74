-- ===== src/Service/Correlated.antt =====
-- internal/service/service.go: `markCorrelatedBayesianDecisions`.
pub mod Reference
use text.Mathlib.Text.{starts_with}
use eventframed.Prelude.{
  String, Bool, true, not, ◌&&◌, Option, none, some, List, [], ◌∷◌, str_eq, if◌then◌else◌,
}
use eventframed.Prelude.Dict.{Dict, get, put}
use eventframed.Model.Journal.{BayesianDecision, BayesianShadowReport}

-- The test that keeps the updates of two records apart.
unfoldable pub certified_apart : String → String → Bool
certified_apart prior key =
    starts_with prior "ap:" && starts_with key "ap:" && not (str_eq prior key)

-- The body of the loop, from the look-up in `seen` on.
unfoldable pub mark_seen :
    Option String → Dict String → BayesianDecision → Dict String × BayesianDecision
unfolding put certified_apart
mark_seen none seen d = (put d.evidence_group_key d.posterior_key seen, d)
mark_seen (some prior) seen d = (
  seen,
  if certified_apart prior d.posterior_key then d else record d { correlated_suppressed = true },
)

unfoldable pub mark_decision : Dict String → BayesianDecision → Dict String × BayesianDecision
unfolding get mark_seen
mark_decision seen d =
    if str_eq d.evidence_group_key ""
    then (seen, d)
    else mark_seen (get d.evidence_group_key seen) seen d

unfoldable pub mark_decisions : Dict String → List BayesianDecision → List BayesianDecision
unfolding mark_decision
mark_decisions seen [] = []
mark_decisions seen (d ∷ decisions) =
    (mark_decision seen d).1 ∷ mark_decisions (mark_decision seen d).0 decisions

-- markCorrelatedBayesianDecisions
unfoldable pub mark_correlated : BayesianShadowReport → BayesianShadowReport
unfolding mark_decisions
mark_correlated report = record report { decisions = mark_decisions [] report.decisions }
