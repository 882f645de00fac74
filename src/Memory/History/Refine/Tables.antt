-- ===== src/Memory/History/Refine/Tables.antt =====
-- The moves of the policy, the certificates, the journals and the graphs.
use eventframed.Prelude.{String, ◌==◌, ◌&&◌, ◌||◌, Option, none, some, refl, str_eq}
use eventframed.Prelude.Dict.{get2, ensure}
use eventframed.Model.Snapshot.{Time}
use eventframed.Model.Certificate.{
  SelectionSupportCertificate, OmittedInfluenceCertificate, AntiPigeonCertificate,
}
use eventframed.Model.Journal.{BayesianJournalEntry, journal_equal}
use eventframed.Model.PredictiveGraph.{PredictiveSnapRecord, eq_graph, eq_snap}
use eventframed.Store.{journal_snapshot_compatible}
use eventframed.Memory.{Store}
use eventframed.Memory.Certificates.{
  bind_bayesian_policy, publish_selection_certificate, publish_omitted_influence_certificate,
  publish_anti_pigeon_certificate,
}
use eventframed.Memory.Journals.{put_bayesian_journal, put_journal_checked}
use eventframed.Memory.Graphs.{
  publish_predictive_snap, publish_checked, get_predictive_graph, rollback_predictive_snap,
  rollback_found,
}
use eventframed.Memory.History.Moves.{
  stays, if_Move, by_runtime, by_policy, by_abstraction, by_graph, Move, idle, mutates,
}

pub bind-Move : (s : Store) (digest : String) → Move s (bind_bayesian_policy s digest).0
unfolding bind_bayesian_policy
bind-Move s digest =
    if_Move s (str_eq digest s.policy_digest) _ _ (λ _. stays s)
      (λ _. mutates (by_policy refl) refl)

pub selection-Move :
    (s : Store) (c : SelectionSupportCertificate) → Move s (publish_selection_certificate s c).0
unfolding publish_selection_certificate
selection-Move s c =
    if_Move s
      (c.policy_version == s.snapshot.policy_version
        && c.evidence_epoch == s.snapshot.evidence_epoch)
      _ _ (λ _. mutates (by_runtime refl) refl) (λ _. stays s)

pub omitted-Move :
    (s : Store) (c : OmittedInfluenceCertificate)
    → Move s (publish_omitted_influence_certificate s c).0
unfolding publish_omitted_influence_certificate
omitted-Move s c =
    if_Move s
      (c.policy_version == s.snapshot.policy_version
        && c.evidence_epoch == s.snapshot.evidence_epoch)
      _ _ (λ _. mutates (by_runtime refl) refl) (λ _. stays s)

pub group-Move :
    (s : Store) (c : AntiPigeonCertificate) → Move s (publish_anti_pigeon_certificate s c).0
unfolding publish_anti_pigeon_certificate
group-Move s c =
    if_Move s
      (c.graph_version == s.snapshot.graph_version && c.evidence_epoch == s.snapshot.evidence_epoch)
      _ _ (λ _. mutates (by_abstraction refl) refl) (λ _. stays s)

pub journal-Move :
    (s : Store) (entry : BayesianJournalEntry) → Move s (put_bayesian_journal s entry).0
unfolding put_bayesian_journal
journal-Move s entry = found (get2 entry.tenant_id entry.id s.journals)
  where
    found :
        (o : Option BayesianJournalEntry)
        → Move s
            (put_journal_checked
              (record s { journals = ensure entry.tenant_id s.journals })
              entry
              o).0
    found none =
        if_Move s
          (journal_snapshot_compatible entry.snapshot s.snapshot entry.as_of s.ingest_motion) _ _
          (λ _. idle refl refl refl) (λ _. idle refl refl refl)
    found (some current) =
        if_Move s (journal_equal current entry) _ _ (λ _. idle refl refl refl)
          (λ _. idle refl refl refl)

pub snap-Move : (s : Store) (r : PredictiveSnapRecord) → Move s (publish_predictive_snap s r).0
unfolding publish_predictive_snap
snap-Move s r =
    if_Move s (eq_graph (get_predictive_graph s r.tenant_id) r.previous_graph && _) _ _
      (λ _. found (get2 r.tenant_id r.id s.snaps)) (λ _. stays s)
  where
    found :
        (o : Option PredictiveSnapRecord)
        → Move s (publish_checked (record s { snaps = ensure r.tenant_id s.snaps }) r o).0
    found none = mutates (by_graph refl) refl
    found (some current) =
        if_Move s (eq_snap current r) _ _ (λ _. idle refl refl refl) (λ _. idle refl refl refl)

pub rollback-Move :
    (s : Store) (tenant_id id reason : String) (now : Time)
    → Move s (rollback_predictive_snap s tenant_id id reason now).0
unfolding rollback_predictive_snap
rollback-Move s tenant_id id reason now = found (get2 tenant_id id s.snaps)
  where
    found :
        (o : Option PredictiveSnapRecord) → Move s (rollback_found s tenant_id id reason now o).0
    found none = stays s
    found (some r) =
        if_Move s (r.rolled_back || _) _ _ (λ _. stays s) (λ _. mutates (by_graph refl) refl)
