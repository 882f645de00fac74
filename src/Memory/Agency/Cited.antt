-- ===== src/Memory/Agency/Cited.antt =====
-- A deletion rejects the open proposals that cite what it deletes.
use eventframed.Prelude.{
  String, false, ◌&&◌, List, [], ◌∷◌, ◌≡◌, refl, subst, ◌∙◌, inl, inr, arith, str_eq, eq_iff, any,
  str_mem, All, Bool-cases, if_elim,
}
use eventframed.Prelude.Dict.{Dict, inner, get2, map_values, map_values2, remove2, get2-remove2}
use eventframed.Prelude.Dict.Each.{Each, Each-map_values, Each-weaken, inner-map_values2}
use eventframed.Model.Snapshot.{Time}
use eventframed.Model.Proposal.{AgencyProposalRecord}
use eventframed.Memory.{Entry}
use eventframed.Memory.Deletion.{cancel_record, loses_evidence, remove_all}
use eventframed.Memory.Agency.Filed.{Stands, Sound, Filed, Sound-grow}

All-uncited :
    (P Q : String → Type 0) (deleted ids : List String)
    → ((e : String) → str_mem e deleted ≡ false → P e → Q e)
    → any (λ id. str_mem id deleted) ids ≡ false
    → All P ids
    → All Q ids
All-uncited P Q deleted [] keep h k = tt
All-uncited P Q deleted (id ∷ ids) keep h k =
    (keep id (ground arith) k.0, All-uncited P Q deleted ids keep (ground arith) k.1)

-- What a deletion leaves open cites none of the deleted events.
cancel-Sound :
    (entries left : Dict (Dict Entry)) (t : String) (deleted : List String) (now : Time)
    (id : String) (r : AgencyProposalRecord)
    → ((e : String) → str_mem e deleted ≡ false → Stands entries t e → Stands left t e)
    → Sound entries t id r
    → Sound left t id (cancel_record deleted now r)
unfolding cancel_record loses_evidence
cancel-Sound entries left t deleted now id r keep h =
    if_elim (Sound left t id) (loses_evidence deleted r) _ _
      (λ _. record { own_id = h.own_id; own_tenant = h.own_tenant; evidence = λ live. cc })
      (λ e. record {
        own_id = h.own_id;
        own_tenant = h.own_tenant;
        evidence = λ live.
            All-uncited (Stands entries t) (Stands left t) deleted r.proposal.evidence_ids keep
              (ground arith) (h.evidence live);
      })

get2-remove_all :
    (t u e : String) (ids : List String) (d : Dict (Dict Entry))
    → (str_eq t u && str_mem e ids) ≡ false
    → get2 u e (remove_all t ids d) ≡ get2 u e d
unfolding remove_all
get2-remove_all t u e [] d h = refl
get2-remove_all t u e (id ∷ ids) d h =
    get2-remove_all t u e ids (remove2 t id d) (ground arith)
    ∙ ground (arith, get2-remove2 t id u e d)

-- The deletion of events of one tenant, with the rejection of the proposals that cite them.
pub cancel-Filed :
    (entries : Dict (Dict Entry)) (records : Dict (Dict AgencyProposalRecord)) (tenant : String)
    (deleted : List String) (now : Time)
    → Filed entries records
    → Filed
        (remove_all tenant deleted entries)
        (map_values2 tenant (cancel_record deleted now) records)
cancel-Filed entries records tenant deleted now h u =
    rw inner-map_values2 (elim (Bool-cases (str_eq tenant u)) [
      | inl same ↦ rw same (
          subst
            (λ x.
              Each (Sound left x) (map_values (cancel_record deleted now) (inner tenant records)))
            ((eq_iff tenant u).0 same)
            (Each-map_values (Sound entries tenant) (Sound left tenant) (cancel_record deleted now)
              (inner tenant records)
              (λ id r sound.
                cancel-Sound entries left tenant deleted now id r
                  (λ e out. kept tenant e (ground arith)) sound)
              (h tenant)))
      | inr other ↦ rw other (
          Each-weaken (Sound entries u) (Sound left u) (inner u records)
            (λ id r. Sound-grow entries left u id r (λ e. kept u e (ground arith))) (h u))
    ])
  where
    left : Dict (Dict Entry)
    left = remove_all tenant deleted entries

    kept :
        (t e : String)
        → (str_eq tenant t && str_mem e deleted) ≡ false
        → Stands entries t e
        → Stands left t e
    kept t e out k = rw (get2-remove_all tenant t e deleted entries out) k
