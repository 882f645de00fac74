-- ===== src/Agency/Bounds.antt =====
-- What `BuildProposal` guarantees of a proposal.
use mathlib.Core.List.{Perm}
use eventframed.Prelude.{
  ◌+◌, ◌≤◌, ◌<◌, String, Bool, true, false, not, Option, none, some, List, [], ◌∷◌, ◌≡◌, refl, sym,
  ◌∙◌, subst, arith, str_eq, eq_iff, if◌then◌else◌, length, All,
}
use eventframed.Prelude.Float64.{in_unit, lt_f, zero_f}
use eventframed.Prelude.Int.{pos, eq_int, lt_int, magnitude}
use eventframed.Prelude.Sort.{sort_by, lt_str, sort_by-perm}
use eventframed.Prelude.Text.{trim_space, is_blank, trim_space-empty, is_blank_lem}
use eventframed.Model.Snapshot.{Time}
use eventframed.Model.Proposal.{AgencyAction, schedule, AgencyProposalDraft, AgencyProposal}
use eventframed.Agency.{Policy, valid}
use eventframed.Agency.Build.{
  Refusal, disabled, policy_invalid, Built, built, refused, check_ids, check_bounds, check_schedule,
  check_chain, check_evidence_ids, check_evidence, trimmed, proposal_of, then_check, capability_for,
  build_with, build_proposal, finite, is_schedule,
}

-- The tests that a built proposal has passed, and the proposal.
record Checked (d : AgencyProposalDraft) (now : Time) (policy : Policy) (p : AgencyProposal)
    : Type 0 where
  capability : String
  proposal : p ≡ proposal_of d now capability
  bounds : check_bounds d now policy ≡ none
  scheduled : check_schedule d ≡ none
  chain : check_chain d policy ≡ none
  evidence : check_evidence d policy ≡ none

then_check-none : (a b : Option Refusal) → then_check a b ≡ none → (a ≡ none) × (b ≡ none)
then_check-none none b h = (refl, h)
then_check-none (some e) b h = cc

built_is :
    (o : Option Refusal) (q : AgencyProposal) {p : AgencyProposal}
    → (elim o [ some e ↦ refused e | none ↦ built q ]) ≡ built p
    → (o ≡ none) × (p ≡ q)
built_is none q h = (refl, ground arith)
built_is (some e) q h = absurd (ground arith)

build_with-Checked :
    (d : AgencyProposalDraft) (now : Time) (policy : Policy) (o : Option String)
    {p : AgencyProposal}
    → build_with d now policy o ≡ built p
    → Checked d now policy p
unfolding build_with
build_with-Checked d now policy none h = absurd (ground arith)
build_with-Checked d now policy (some capability) h =
    let (passed, same) = built_is _ (proposal_of d now capability) h in
    let (bounds, rest) = then_check-none (check_bounds d now policy) _ passed in
    let (scheduled, rest2) = then_check-none (check_schedule d) _ rest in
    let (chain, evidence) =
      then_check-none (check_chain d policy) (check_evidence d policy) rest2 in
    record {
      capability = capability;
      proposal = same;
      bounds = bounds;
      scheduled = scheduled;
      chain = chain;
      evidence = evidence;
    }

tested :
    (o : Option Refusal) (later : Built) {p : AgencyProposal}
    → (elim o [ some e ↦ refused e | none ↦ later ]) ≡ built p
    → later ≡ built p
tested none later h = h
tested (some e) later h = absurd (ground arith)

enabled :
    (b c : Bool) (later : Built) {p : AgencyProposal}
    → (if not b then refused disabled else if not c then refused policy_invalid else later)
      ≡ built p
    → (b ≡ true) × (later ≡ built p)
enabled true true later h = (refl, h)
enabled true false later h = absurd (ground arith)
enabled false c later h = absurd (ground arith)

build_proposal-Checked :
    (d : AgencyProposalDraft) (now : Time) (policy : Policy) {p : AgencyProposal}
    → build_proposal d now policy ≡ built p
    → (policy.enabled ≡ true) × Checked (trimmed d) now policy p
unfolding build_proposal
build_proposal-Checked d now policy h =
    let (on, rest) = enabled policy.enabled (valid policy) _ h in
    (
      on,
      build_with-Checked (trimmed d) now policy (capability_for d.action)
          (tested (check_ids (trimmed d)) _ rest),
    )

-- A proposal that a policy allows at `now`.
pub record Bounded (d : AgencyProposalDraft) (now : Time) (policy : Policy) (p : AgencyProposal)
    : Type 0 where
  pub on : policy.enabled ≡ true
  pub alive : now < p.expires_at
  pub opens : p.not_before < p.expires_at
  pub horizon : p.expires_at ≤ now + magnitude policy.max_future
  pub lifetime : p.expires_at ≤ p.not_before + magnitude policy.max_ttl
  pub utility : (in_unit p.expected_utility ≡ true) × (lt_f zero_f p.expected_utility ≡ true)
  pub priority : in_unit p.priority ≡ true
  pub scheduled :
      (at : Time)
      → p.scheduled_for ≡ some at
      → (p.action ≡ schedule) × (p.not_before ≤ at) × (at < p.expires_at)
  pub root : eq_int p.causal_chain_depth (pos 0) ≡ true → str_eq p.parent_proposal_id "" ≡ true
  pub child : lt_int (pos 0) p.causal_chain_depth ≡ true → str_eq p.parent_proposal_id "" ≡ false
  pub sign : lt_int p.causal_chain_depth (pos 0) ≡ false
  pub depth : lt_int policy.max_chain_depth p.causal_chain_depth ≡ false
  pub count :
      (1 ≤ length d.evidence_ids)
      × (lt_int policy.max_evidence (pos (length d.evidence_ids)) ≡ false)
  pub evidence : Perm p.evidence_ids d.evidence_ids
  pub filled : All (λ id. is_blank id ≡ false) p.evidence_ids

evidence_filled :
    (previous : Option String) (ids : List String)
    → check_evidence_ids previous ids ≡ none
    → All (λ id. is_blank id ≡ false) ids
unfolding check_evidence_ids
evidence_filled previous [] h = tt
evidence_filled previous (id ∷ rest) h =
    (ground arith, evidence_filled (some id) rest (ground arith))

schedule_only : (a : AgencyAction) → is_schedule a ≡ true → a ≡ schedule
unfolding is_schedule
schedule_only a h = ground arith

scheduled_within :
    (d : AgencyProposalDraft) (at : Time)
    → check_schedule d ≡ none
    → d.scheduled_for ≡ some at
    → (is_schedule d.action ≡ true) × (d.not_before ≤ at) × (at < d.expires_at)
unfolding check_schedule
scheduled_within d at h k = (ground arith, ground arith, ground arith)

trim_root : (s : String) → str_eq s "" ≡ true → str_eq (trim_space s) "" ≡ true
trim_root s h =
    subst (λ x. str_eq (trim_space x) "" ≡ true) (sym ((eq_iff s "").0 h))
      (rw trim_space-empty refl)

Checked-Bounded :
    (d : AgencyProposalDraft) (now : Time) (policy : Policy) {p : AgencyProposal}
    → policy.enabled ≡ true
    → Checked d now policy p
    → Bounded d now policy p
unfolding check_bounds check_chain check_evidence finite
Checked-Bounded d now policy on c = rw c.proposal (record {
  on = on;
  alive = ground arith;
  opens = ground arith;
  horizon = ground arith;
  lifetime = ground arith;
  utility = (ground arith, ground arith);
  priority = ground arith;
  scheduled = λ at e.
      let (yes_it, from, to) = scheduled_within d at c.scheduled e in
      (schedule_only d.action yes_it, from, to);
  root = λ h. trim_root d.parent_proposal_id (ground arith);
  child = λ h. sym (is_blank_lem d.parent_proposal_id) ∙ ground arith;
  sign = ground arith;
  depth = ground arith;
  count = (ground arith, ground arith);
  evidence = sort_by-perm lt_str d.evidence_ids;
  filled = evidence_filled none (sort_by lt_str d.evidence_ids) (ground arith);
})

-- A proposal that `BuildProposal` has built is not expired, opens before it expires, within the
-- policy's horizon and lifetime; its utility is in (0, 1] and its priority in [0, 1]; only a schedule
-- proposal has a scheduled time, within its window; it has a parent exactly if its depth is not 0,
-- and the depth is within the policy's; its evidence is the draft's in another order, not empty and
-- within the policy's bound, and no id of it is blank.
pub build_proposal-Bounded :
    (d : AgencyProposalDraft) (now : Time) (policy : Policy) {p : AgencyProposal}
    → build_proposal d now policy ≡ built p
    → Bounded d now policy p
unfolding trimmed
build_proposal-Bounded d now policy h =
    let (on, c) = build_proposal-Checked d now policy h in
    let b = Checked-Bounded (trimmed d) now policy on c in
    record {
      on = b.on;
      alive = b.alive;
      opens = b.opens;
      horizon = b.horizon;
      lifetime = b.lifetime;
      utility = b.utility;
      priority = b.priority;
      scheduled = b.scheduled;
      root = b.root;
      child = b.child;
      sign = b.sign;
      depth = b.depth;
      count = b.count;
      evidence = b.evidence;
      filled = b.filled;
    }
