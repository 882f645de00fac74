-- ===== src/Memory/Graphs/Fence.antt =====
-- What a publication fences: `invalidateClosure`.
use eventframed.Prelude.{
  String, Bool, true, false, ◌&&◌, ◌||◌, Option, none, some, List, [], ◌∷◌, ◌≡◌, ◌⊎◌, inl, inr,
  refl, ap, arith, str_eq, eq_iff, eq_refl, if◌then◌else◌, str_mem, Bool-cases,
}
use mathlib.Core.Option
use eventframed.Prelude.Dict.{Dict, get2, put2, get2-put2, get2-map_values2}
use eventframed.Model.Posterior.{BayesianPosterior, ResidualRecord}
use eventframed.Model.PredictiveGraph.{PredictiveSnapRecord, DependencyClosure}
use eventframed.Memory.{Store}
use eventframed.Memory.Graphs.{
  uncertify, deactivate, invalidate_closure, publish_snap, written_back,
}

-- What a publication has fenced: the posteriors of its closure have lost their certification, and
-- the residuals that rest on its closure are inactive.
pub record Fenced (t : Store) (tenant : String) (closure : DependencyClosure) : Type 0 where
  pub posteriors :
      (key : String) {p : BayesianPosterior}
      → str_mem key closure.posterior_keys ≡ true
      → get2 tenant key t.posteriors ≡ some p
      → p.certified ≡ false
  pub residuals :
      (key : String) {x : ResidualRecord}
      → get2 tenant key t.residuals ≡ some x
      → (str_mem x.posterior_key closure.posterior_keys
          || str_mem x.source_event_id closure.event_ids)
        ≡ true
      → x.active ≡ false

written_back-fences :
    (tenant key j : String) (o : Option BayesianPosterior) (d : Dict (Dict BayesianPosterior))
    (p : BayesianPosterior)
    → get2 tenant key d ≡ o
    → get2 tenant j (written_back tenant key o d) ≡ some p
    → (str_eq key j ≡ true → p.certified ≡ false)
      × ((p.certified ≡ false) ⊎ (get2 tenant j d ≡ some p))
written_back-fences tenant key j none d p absent e =
    (λ same. cc (ap (λ x. get2 tenant x d) ((eq_iff key j).0 same)), inr e)
written_back-fences tenant key j (some q) d p found e =
    by_key (str_eq key j) refl (get2-put2 tenant key tenant j (record q { certified = false }) d)
  where
    by_key :
        (b : Bool)
        → str_eq key j ≡ b
        → get2 tenant j (put2 tenant key (record q { certified = false }) d) ≡ (
            if str_eq tenant tenant && b
            then some (record q { certified = false })
            else get2 tenant j d)
        → (b ≡ true → p.certified ≡ false) × ((p.certified ≡ false) ⊎ (get2 tenant j d ≡ some p))
    by_key true same law =
        let fenced : p.certified ≡ false = ground (arith, eq_refl tenant) in
        (λ _. fenced, inl fenced)
    by_key false differs law = (λ c. cc, inr (ground (arith, eq_refl tenant)))

uncertify-keeps :
    (tenant key : String) (keys : List String) (d : Dict (Dict BayesianPosterior))
    → ((p : BayesianPosterior) → get2 tenant key d ≡ some p → p.certified ≡ false)
    → (p : BayesianPosterior) → get2 tenant key (uncertify tenant keys d) ≡ some p
    → p.certified ≡ false
unfolding uncertify
uncertify-keeps tenant key [] d h p e = h p e
uncertify-keeps tenant key (k ∷ keys) d h p e =
    uncertify-keeps tenant key keys (written_back tenant k (get2 tenant k d) d)
      (λ q f. from q (written_back-fences tenant k key (get2 tenant k d) d q refl f).1) p e
  where
    from :
        (q : BayesianPosterior)
        → (q.certified ≡ false) ⊎ (get2 tenant key d ≡ some q)
        → q.certified ≡ false
    from q (inl e) = e
    from q (inr e) = h q e

uncertify-fences :
    (tenant key : String) (keys : List String) (d : Dict (Dict BayesianPosterior))
    → str_mem key keys ≡ true
    → (p : BayesianPosterior) → get2 tenant key (uncertify tenant keys d) ≡ some p
    → p.certified ≡ false
unfolding uncertify
uncertify-fences tenant key [] d h p e = cc
uncertify-fences tenant key (k ∷ keys) d h p e = elim (Bool-cases (str_eq k key)) [
  | inl same ↦
      uncertify-keeps tenant key keys (written_back tenant k (get2 tenant k d) d)
        (λ q f. (written_back-fences tenant k key (get2 tenant k d) d q refl f).0 same) p e
  | inr differs ↦ uncertify-fences tenant key keys _ (ground arith) p e
]

deactivated :
    (closure : DependencyClosure) (o : Option ResidualRecord) {x : ResidualRecord}
    → Option.map (deactivate closure) o ≡ some x
    → (str_mem x.posterior_key closure.posterior_keys
        || str_mem x.source_event_id closure.event_ids)
      ≡ true
    → x.active ≡ false
unfolding deactivate
deactivated closure none e h = cc
deactivated closure (some r) {x} e h = ground arith

pub publish_snap-Fenced :
    (s : Store) (r : PredictiveSnapRecord) → Fenced (publish_snap s r).0 r.tenant_id r.closure
unfolding publish_snap invalidate_closure
publish_snap-Fenced s r = record {
  posteriors = λ key {p} member e.
      uncertify-fences r.tenant_id key r.closure.posterior_keys s.posteriors member p e;
  residuals = λ key {x} e.
      deactivated r.closure (get2 r.tenant_id key s.residuals)
        (rw (get2-map_values2, eq_refl r.tenant_id) at e);
}
