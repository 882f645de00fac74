-- ===== src/Memory/Journals.antt =====
-- internal/store/memorystore/store.go: journal entries, and the reads of posteriors and residuals.
use Prim.Native.String.{◌++◌ as str_append}
use eventframed.Prelude.{String, Option, none, some, if◌then◌else◌}
use eventframed.Prelude.Dict.{ensure, get2, put2}
use eventframed.Model.Journal.{BayesianJournalEntry, journal_equal}
use eventframed.Model.Posterior.{
  BayesianPosterior, ResidualScope, exact_action, general_posterior, ResidualCandidates,
}
use eventframed.Store.{
  Result, ok, err, journal_conflict, journal_not_found, posterior_not_found, stale_snapshot,
  journal_snapshot_compatible,
}
use eventframed.Memory.{Store}

unfoldable pub put_journal_checked :
    Store → BayesianJournalEntry → Option BayesianJournalEntry → Store × Result (Unit {0})
unfolding journal_snapshot_compatible
put_journal_checked s entry (some current) =
    if journal_equal current entry then (s, ok tt) else (s, err journal_conflict)
put_journal_checked s entry none =
    if journal_snapshot_compatible entry.snapshot s.snapshot entry.as_of s.ingest_motion
    then (record s { journals = put2 entry.tenant_id entry.id entry s.journals }, ok tt)
    else (s, err stale_snapshot)

-- PutBayesianJournal
unfoldable pub put_bayesian_journal : Store → BayesianJournalEntry → Store × Result (Unit {0})
unfolding put_journal_checked ensure
put_bayesian_journal s entry =
    put_journal_checked (record s { journals = ensure entry.tenant_id s.journals }) entry
      (get2 entry.tenant_id entry.id s.journals)

-- GetBayesianJournal
unfoldable pub get_bayesian_journal : Store → String → String → Result BayesianJournalEntry
get_bayesian_journal s tenant_id id = elim (get2 tenant_id id s.journals) [
  | none ↦ err journal_not_found
  | some entry ↦ ok entry
]

-- GetBayesianPosterior
unfoldable pub get_bayesian_posterior : Store → String → String → Result BayesianPosterior
get_bayesian_posterior s tenant_id key = elim (get2 tenant_id key s.posteriors) [
  | none ↦ err posterior_not_found
  | some posterior ↦ ok posterior
]

abbrev scope_text : ResidualScope → String
scope_text exact_action = "exact_action"
scope_text general_posterior = "general_posterior"

-- residualRecordMapKey
unfoldable pub residual_record_map_key : ResidualScope → String → String
residual_record_map_key scope key = str_append (scope_text scope) (str_append "\0" key)

-- GetResidualCandidates
unfoldable pub get_residual_candidates : Store → String → String → String → ResidualCandidates
unfolding residual_record_map_key
get_residual_candidates s tenant_id action_key general_key = record {
  exact = get2 tenant_id (residual_record_map_key exact_action action_key) s.residuals;
  general = get2 tenant_id (residual_record_map_key general_posterior general_key) s.residuals;
}
