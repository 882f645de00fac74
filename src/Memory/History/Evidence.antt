-- ===== src/Memory/History/Evidence.antt =====
-- The queue of proposals along a history: every record lies under its own id and tenant, and the
-- evidence of an open proposal stands in the store.
use eventframed.Prelude.{
  ℕ, String, Bool, true, false, Option, none, some, List, [], ◌∷◌, ◌≡◌, refl, arith, all, is_some,
  str_eq, if◌then◌else◌,
}
use eventframed.Prelude.Dict.{Dict, get, inner, get2, put2, get2-put2, ensure}
use eventframed.Prelude.Float64.{Float64}
use eventframed.Prelude.Sort.{sort_by, lt_str}
use eventframed.Model.Snapshot.{Time, Snapshot, eq_snapshot}
use eventframed.Model.Event.{Event, Composition}
use eventframed.Model.Journal.{BayesianJournalEntry}
use eventframed.Model.PredictiveGraph.{PredictiveSnapRecord}
use eventframed.Memory.{Entry, Store, new}
use eventframed.Memory.Certificates.{
  bind_bayesian_policy, publish_selection_certificate, publish_omitted_influence_certificate,
  publish_anti_pigeon_certificate,
}
use eventframed.Memory.Journals.{put_bayesian_journal, put_journal_checked}
use eventframed.Memory.Graphs.{
  publish_predictive_snap, publish_checked, publish_snap, rollback_predictive_snap, rollback_found,
  rollback_snap, invalidate_closure,
}
use eventframed.Memory.Events.{
  ingest, put_checked, put_event, composition_authorized, ingest_composition, put_authorized,
  put_composition,
}
use eventframed.Memory.Deletion.{
  cancel_agency_by_evidence, delete_event, expired_ids, remove_all, is_nil, delete_before,
}
use eventframed.Memory.Agency.Claim.{claim_agency_proposals}
use eventframed.Memory.Agency.Filed.{Stands, Filed, Filed-grow, claim-Filed}
use eventframed.Memory.Agency.Settled.{resolve-Filed, propose-Filed}
use eventframed.Memory.Agency.Cited.{cancel-Filed}
use eventframed.Memory.History.{
  Call, binds, puts, composes, deletes, decomposes, retains, journals_entry, certifies_selection,
  certifies_omitted, certifies_group, publishes, rolls_back, proposes, claims, resolves, step, run,
}

abbrev pub AllFiled : Store → Type 0
AllFiled s = Filed s.entries s.agency_records

if_AllFiled {ℓ} :
    {B : Type ℓ} (b : Bool) (x y : Store × B)
    → (b ≡ true → AllFiled x.0)
    → (b ≡ false → AllFiled y.0)
    → AllFiled (if b then x else y).0
if_AllFiled true x y h k = h refl
if_AllFiled false x y h k = k refl

Stands-put2 :
    (entries : Dict (Dict Entry)) (t k u id : String) (e : Entry)
    → Stands entries u id
    → Stands (put2 t k e entries) u id
Stands-put2 entries t k u id e h = rw get2-put2 (ground arith)

put-AllFiled :
    (s written : Store) (found : Option Entry) (digest : String)
    → AllFiled s
    → AllFiled written
    → AllFiled (put_checked s written found digest).0
unfolding put_checked
put-AllFiled s written none digest h k = k
put-AllFiled s written (some current) digest h k =
    if_AllFiled (str_eq current.digest digest) _ _ (λ _. h) (λ _. h)

put_event-AllFiled :
    (s : Store) (e : Event) (v : List Float64) (d : String)
    → AllFiled s
    → AllFiled (put_event s e v d).0
unfolding put_event ingest
put_event-AllFiled s e v d h = put-AllFiled s (ingest s e v d) _ d h (
    Filed-grow s.entries _ s.agency_records (λ t id. Stands-put2 s.entries e.tenant_id e.id t id _)
      h)

put_composition-AllFiled :
    (s : Store) (e : Event) (v : List Float64) (d : String) (base : Snapshot)
    → AllFiled s
    → AllFiled (put_composition s e v d base).0
unfolding put_composition put_authorized ingest_composition
put_composition-AllFiled s e v d base h =
    if_AllFiled (eq_snapshot s.snapshot base) _ _ (λ _. authorized e.composition) (λ _. h)
  where
    authorized : (o : Option Composition) → AllFiled (put_authorized s e v d o).0
    authorized none = h
    authorized (some c) =
        if_AllFiled (composition_authorized s e c) _ _
          (λ _. put-AllFiled s (ingest_composition s e v d) _ d h (
            Filed-grow s.entries _ s.agency_records
              (λ t id. Stands-put2 s.entries e.tenant_id e.id t id _) h))
          (λ _. h)

delete_event-AllFiled :
    (s : Store) (t id : String) (now : Time) → AllFiled s → AllFiled (delete_event s t id now).0
unfolding delete_event cancel_agency_by_evidence remove_all
delete_event-AllFiled s t id now h =
    if_AllFiled (is_some (get2 t id s.entries)) _ _
      (λ _. cancel-Filed s.entries s.agency_records t (id ∷ []) now h) (λ _. h)

delete_before-AllFiled :
    (s : Store) (t : String) (cutoff : Time) (limit : ℕ) (now : Time)
    → AllFiled s
    → AllFiled (delete_before s t cutoff limit now).0
unfolding delete_before cancel_agency_by_evidence
delete_before-AllFiled s t cutoff limit now h =
    if_AllFiled (is_nil ids) _ _ (λ _. h) (λ _. cancel-Filed s.entries s.agency_records t ids now h)
  where
    ids : List String
    ids = sort_by lt_str (expired_ids (inner t s.entries) cutoff limit)

journal-AllFiled :
    (s : Store) (entry : BayesianJournalEntry)
    → AllFiled s
    → AllFiled (put_bayesian_journal s entry).0
unfolding put_bayesian_journal put_journal_checked
journal-AllFiled s entry h = found (get2 entry.tenant_id entry.id s.journals)
  where
    opened : Store
    opened = record s { journals = ensure entry.tenant_id s.journals }

    found : (o : Option BayesianJournalEntry) → AllFiled (put_journal_checked opened entry o).0
    found none = if_AllFiled _ _ _ (λ _. h) (λ _. h)
    found (some current) = if_AllFiled _ _ _ (λ _. h) (λ _. h)

snap-AllFiled :
    (s : Store) (r : PredictiveSnapRecord) → AllFiled s → AllFiled (publish_predictive_snap s r).0
unfolding publish_predictive_snap publish_checked publish_snap invalidate_closure
snap-AllFiled s r h = if_AllFiled _ _ _ (λ _. found (get2 r.tenant_id r.id s.snaps)) (λ _. h)
  where
    opened : Store
    opened = record s { snaps = ensure r.tenant_id s.snaps }

    found : (o : Option PredictiveSnapRecord) → AllFiled (publish_checked opened r o).0
    found none = h
    found (some current) = if_AllFiled _ _ _ (λ _. h) (λ _. h)

rollback-AllFiled :
    (s : Store) (t id reason : String) (now : Time)
    → AllFiled s
    → AllFiled (rollback_predictive_snap s t id reason now).0
unfolding rollback_predictive_snap rollback_found rollback_snap invalidate_closure
rollback-AllFiled s t id reason now h = found (get2 t id s.snaps)
  where
    found : (o : Option PredictiveSnapRecord) → AllFiled (rollback_found s t id reason now o).0
    found none = h
    found (some r) = if_AllFiled _ _ _ (λ _. h) (λ _. h)

-- `DeleteComposition` removes an event and leaves the proposals that cite it.
abbrev pub keeps_evidence : Call → Bool
keeps_evidence (decomposes _ _ _ _) = false
keeps_evidence _ = true

step-AllFiled : (s : Store) (c : Call) → keeps_evidence c ≡ true → AllFiled s → AllFiled (step s c)
unfolding step bind_bayesian_policy publish_selection_certificate
    publish_omitted_influence_certificate publish_anti_pigeon_certificate claim_agency_proposals
step-AllFiled s (binds digest) k h = if_AllFiled _ _ _ (λ _. h) (λ _. h)
step-AllFiled s (puts e v d) k h = put_event-AllFiled s e v d h
step-AllFiled s (composes e v d base) k h = put_composition-AllFiled s e v d base h
step-AllFiled s (deletes t id now) k h = delete_event-AllFiled s t id now h
step-AllFiled s (decomposes t id reason at) k h = cc
step-AllFiled s (retains t cutoff limit now) k h = delete_before-AllFiled s t cutoff limit now h
step-AllFiled s (journals_entry entry) k h = journal-AllFiled s entry h
step-AllFiled s (certifies_selection c) k h = if_AllFiled _ _ _ (λ _. h) (λ _. h)
step-AllFiled s (certifies_omitted c) k h = if_AllFiled _ _ _ (λ _. h) (λ _. h)
step-AllFiled s (certifies_group c) k h = if_AllFiled _ _ _ (λ _. h) (λ _. h)
step-AllFiled s (publishes r) k h = snap-AllFiled s r h
step-AllFiled s (rolls_back t id reason now) k h = rollback-AllFiled s t id reason now h
step-AllFiled s (proposes r digest chain waiting by) k h =
    propose-Filed s r digest chain waiting by h
step-AllFiled s (claims t consumer now limit lease) k h = claim-Filed s t consumer now limit lease h
step-AllFiled s (resolves q now) k h = resolve-Filed s q now h

-- Along any history without decompositions, every proposal record lies under its own id and its
-- own tenant, and every event that an open (pending or claimed) proposal cites as evidence stands
-- in the tenant's store.
pub run-AllFiled :
    (s : Store) (cs : List Call) → AllFiled s → all keeps_evidence cs ≡ true → AllFiled (run s cs)
unfolding run
run-AllFiled s [] h k = h
run-AllFiled s (c ∷ cs) h k =
    run-AllFiled (step s c) cs (step-AllFiled s c (ground arith) h) (ground arith)

pub new-AllFiled : AllFiled new
unfolding inner get
new-AllFiled t = tt
