-- ===== src/Memory/Graphs/Rollback.antt =====
-- A published snap: what it fences, its retry, and its rollback.
use eventframed.Prelude.{
  ℕ, String, true, false, ◌&&◌, none, some, ◌≡◌, inl, inr, refl, ap, sym, ◌∙◌, arith, str_eq,
  eq_refl, ◌==◌, Bool-cases,
}
use Prim.Native.String.{◌++◌ as str_append}
use eventframed.Prelude.Dict.{get, get2, ensure, get2-put2_self, get-put_self}
use eventframed.Prelude.Word.{inc}
use eventframed.Model.Snapshot.{Time}
use eventframed.Model.PredictiveGraph.{PredictiveGraph, PredictiveSnapRecord, eq_graph}
use eventframed.Store.{Result, ok, err, snap_conflict}
use eventframed.Memory.{Store, bump_graph}
use eventframed.Memory.Graphs.Fence.{Fenced, publish_snap-Fenced}
use eventframed.Memory.Graphs.{
  get_predictive_graph, invalidate_closure, publish_snap, publish_checked, publish_predictive_snap,
  rollback_snap, rollback_found, rollback_predictive_snap, source_of,
}

-- A new snap that is accepted is written on the store's graph version.
pub record Accepted (s t : Store) (r : PredictiveSnapRecord) : Type 0 where
  pub same : eq_graph (get_predictive_graph s r.tenant_id) r.previous_graph ≡ true
  pub state : t ≡ (publish_snap (record s { snaps = ensure r.tenant_id s.snaps }) r).0
  pub version : s.snapshot.graph_version ≡ r.previous_graph.version

pub publish-Accepted :
    (s : Store) (r : PredictiveSnapRecord) {g : PredictiveGraph}
    → get2 r.tenant_id r.id s.snaps ≡ none
    → (publish_predictive_snap s r).1 ≡ ok g
    → Accepted s (publish_predictive_snap s r).0 r
unfolding publish_predictive_snap publish_checked
publish-Accepted s r absent h =
    elim (Bool-cases (
      eq_graph (get_predictive_graph s r.tenant_id) r.previous_graph
      && s.snapshot.graph_version == r.previous_graph.version)) [
        | inl yes_it ↦
            rw (yes_it, absent)
              (record { same = ground arith; state = refl; version = ground arith })
        | inr no_it ↦ absurd (ground arith)
      ]

inc_moves : (v : ℕ) → (inc v == v) ≡ false
inc_moves v = ground arith

publish_snap-version :
    (s : Store) (r : PredictiveSnapRecord)
    → (publish_snap s r).0.snapshot.graph_version ≡ inc s.snapshot.graph_version
unfolding publish_snap bump_graph
publish_snap-version s r = refl

publish-stale :
    (t : Store) (r : PredictiveSnapRecord)
    → (t.snapshot.graph_version == r.previous_graph.version) ≡ false
    → publish_predictive_snap t r ≡ (t, err snap_conflict)
unfolding publish_predictive_snap
publish-stale t r h =
    elim (Bool-cases (eq_graph (get_predictive_graph t r.tenant_id) r.previous_graph)) [
      | inl e ↦ rw (e, h) refl
      | inr e ↦ rw e refl
    ]

-- A retry of a publication that was accepted for a new snap always meets a conflict, and changes
-- nothing.
pub publish_predictive_snap-retry :
    (s : Store) (r : PredictiveSnapRecord) {g : PredictiveGraph}
    → get2 r.tenant_id r.id s.snaps ≡ none
    → (publish_predictive_snap s r).1 ≡ ok g
    → publish_predictive_snap (publish_predictive_snap s r).0 r
      ≡ ((publish_predictive_snap s r).0, err snap_conflict)
publish_predictive_snap-retry s r absent h =
    let first = publish-Accepted s r absent h in
    publish-stale (publish_predictive_snap s r).0 r (
      rw (first.state, publish_snap-version, sym first.version)
        (inc_moves s.snapshot.graph_version))

-- A publication that was accepted for a new snap takes the certification of every posterior and the
-- activity of every residual that the snap's closure names.
pub publish_predictive_snap-Fenced :
    (s : Store) (r : PredictiveSnapRecord) {g : PredictiveGraph}
    → get2 r.tenant_id r.id s.snaps ≡ none
    → (publish_predictive_snap s r).1 ≡ ok g
    → Fenced (publish_predictive_snap s r).0 r.tenant_id r.closure
publish_predictive_snap-Fenced s r absent h =
    rw (publish-Accepted s r absent h).state
      (publish_snap-Fenced (record s { snaps = ensure r.tenant_id s.snaps }) r)

abbrev pub restored : Store → PredictiveSnapRecord → Time → PredictiveGraph
restored t r now = record r.previous_graph {
  version = inc t.snapshot.graph_version;
  published_at = now;
  source_snap_id = str_append "rollback:" r.id;
}

rollback-standing :
    (t : Store) (tenant id reason : String) (now : Time) (x : PredictiveSnapRecord)
    → get2 tenant id t.snaps ≡ some x
    → x.rolled_back ≡ false
    → source_of (get tenant t.graphs) ≡ id
    → rollback_predictive_snap t tenant id reason now
      ≡ ((rollback_snap t tenant id reason now x).0, ok (rollback_snap t tenant id reason now x).1)
unfolding rollback_predictive_snap rollback_found
rollback-standing t tenant id reason now x found alive source =
    rw (found, alive, source, eq_refl id) refl

rollback_snap-graph :
    (t : Store) (tenant id reason : String) (now : Time) (x : PredictiveSnapRecord)
    → str_eq x.previous_graph.tenant_id "" ≡ false
    → get_predictive_graph (rollback_snap t tenant id reason now x).0 tenant
      ≡ (rollback_snap t tenant id reason now x).1
unfolding rollback_snap bump_graph get_predictive_graph
rollback_snap-graph t tenant id reason now x named = rw (get-put_self, named) refl

pub publish_snap-graph :
    (s : Store) (r : PredictiveSnapRecord)
    → str_eq r.published_graph.tenant_id "" ≡ false
    → get_predictive_graph (publish_snap s r).0 r.tenant_id
      ≡ record r.published_graph { version = inc s.snapshot.graph_version }
unfolding publish_snap bump_graph get_predictive_graph invalidate_closure
publish_snap-graph s r named = rw (get-put_self, named) refl

publish_snap-standing :
    (s : Store) (r : PredictiveSnapRecord)
    → (get2 r.tenant_id r.id (publish_snap s r).0.snaps
        ≡ some (record r {
          published_graph = record r.published_graph { version = inc s.snapshot.graph_version };
        }))
      × (source_of (get r.tenant_id (publish_snap s r).0.graphs) ≡ r.published_graph.source_snap_id)
unfolding publish_snap invalidate_closure bump_graph
publish_snap-standing s r = (rw get2-put2_self refl, rw get-put_self refl)

-- A snap that was published as the source of its graph can be rolled back at once: the rollback
-- answers with the snap's previous graph under the next version, marked as rolled back, and that is
-- the tenant's graph from then on.
pub publish_predictive_snap-rollback :
    (s : Store) (r : PredictiveSnapRecord) (reason : String) (now : Time) {g : PredictiveGraph}
    → get2 r.tenant_id r.id s.snaps ≡ none
    → (publish_predictive_snap s r).1 ≡ ok g
    → r.published_graph.source_snap_id ≡ r.id
    → r.rolled_back ≡ false
    → str_eq r.previous_graph.tenant_id "" ≡ false
    → ((rollback_predictive_snap (publish_predictive_snap s r).0 r.tenant_id r.id reason now).1
        ≡ ok (restored (publish_predictive_snap s r).0 r now))
      × (get_predictive_graph
            (rollback_predictive_snap (publish_predictive_snap s r).0 r.tenant_id r.id reason now).0
            r.tenant_id
          ≡ restored (publish_predictive_snap s r).0 r now)
unfolding rollback_snap bump_graph
publish_predictive_snap-rollback s r reason now absent h source alive named =
    let (found, from) = publish_snap-standing (record s { snaps = ensure r.tenant_id s.snaps }) r in
    let done =
      rollback-standing t r.tenant_id r.id reason now written
        (rw (publish-Accepted s r absent h).state found) alive
        (rw (publish-Accepted s r absent h).state (from ∙ source)) in
    (
      ap (λ (x : Store × Result PredictiveGraph). x.1) done,
      ap (λ (x : Store × Result PredictiveGraph). get_predictive_graph x.0 r.tenant_id) done
          ∙ rollback_snap-graph t r.tenant_id r.id reason now written named,
    )
  where
    t : Store
    t = (publish_predictive_snap s r).0

    written : PredictiveSnapRecord
    written = record r {
      published_graph = record r.published_graph { version = inc s.snapshot.graph_version };
    }
