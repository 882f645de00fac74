-- ===== src/Memory/Agency/Filed.antt =====
-- What the queue keeps of every record: its place, and the evidence of the open ones.
use eventframed.Prelude.{
  ℕ, ◌+◌, String, Bool, true, List, [], ◌∷◌, ◌≡◌, refl, sym, ap, subst, ◌∙◌, inl, inr, arith,
  str_eq, eq_iff, is_some, if_elim, All, All-take, Bool-cases,
}
use eventframed.Prelude.Dict.{Dict, put, inner, get2, put2, map_values, map_values2}
use eventframed.Prelude.Dict.Each.{
  Each, Each-put, Each-map_values, Each-weaken, inner-put2, inner-map_values2,
}
use eventframed.Prelude.Sort.{sort_by-All}
use eventframed.Model.Snapshot.{Time, Duration, Snapshot}
use eventframed.Model.Proposal.{AgencyProposal, AgencyProposalRecord}
use eventframed.Memory.{Entry, Store}
use eventframed.Memory.Agency.Claim.{
  is_open, offered, sweep, sweep_in, swept, is_offer, lease_to, lease_all, granted, claim_less,
  claim_agency_proposals,
}

abbrev pub Stands : Dict (Dict Entry) → String → String → Type 0
Stands entries tenant_id id = is_some (get2 tenant_id id entries) ≡ true

-- The record lies under its own id and tenant, and while it is open its evidence stands.
pub record Sound (entries : Dict (Dict Entry)) (tenant_id id : String) (r : AgencyProposalRecord)
    : Type 0 where
  pub own_id : r.proposal.id ≡ id
  pub own_tenant : r.proposal.tenant_id ≡ tenant_id
  pub evidence : is_open r ≡ true → All (Stands entries tenant_id) r.proposal.evidence_ids

abbrev pub Filed : Dict (Dict Entry) → Dict (Dict AgencyProposalRecord) → Type 0
Filed entries records = (t : String) → Each (Sound entries t) (inner t records)

All-weaken {ℓ κ} :
    {A : Type ℓ} (P Q : A → Type κ) (xs : List A) → ((x : A) → P x → Q x) → All P xs → All Q xs
All-weaken P Q [] f h = tt
All-weaken P Q (x ∷ xs) f h = (f x h.0, All-weaken P Q xs f h.1)

-- No event of the tenant is lost.
pub Sound-grow :
    (entries more : Dict (Dict Entry)) (t id : String) (r : AgencyProposalRecord)
    → ((e : String) → Stands entries t e → Stands more t e)
    → Sound entries t id r
    → Sound more t id r
Sound-grow entries more t id r keep h = record {
  own_id = h.own_id;
  own_tenant = h.own_tenant;
  evidence = λ live.
      All-weaken (Stands entries t) (Stands more t) r.proposal.evidence_ids keep (h.evidence live);
}

pub Filed-grow :
    (entries more : Dict (Dict Entry)) (records : Dict (Dict AgencyProposalRecord))
    → ((t e : String) → Stands entries t e → Stands more t e)
    → Filed entries records
    → Filed more records
Filed-grow entries more records keep h t =
    Each-weaken (Sound entries t) (Sound more t) (inner t records)
      (λ id r. Sound-grow entries more t id r (keep t)) (h t)

-- A write of a sound record.
pub Filed-put2 :
    (entries : Dict (Dict Entry)) (records : Dict (Dict AgencyProposalRecord)) (t id : String)
    (r : AgencyProposalRecord)
    → Sound entries t id r
    → Filed entries records
    → Filed entries (put2 t id r records)
Filed-put2 entries records t id r sound h u = rw inner-put2 (elim (Bool-cases (str_eq t u)) [
  | inl same ↦ rw same (
      subst (λ x. Each (Sound entries x) (put id r (inner t records))) ((eq_iff t u).0 same)
        (Each-put (Sound entries t) id r (inner t records) sound (h t)))
  | inr other ↦ rw other (h u)
])

-- A rewrite of a tenant's records.
pub Filed-map_values2 :
    (entries : Dict (Dict Entry)) (records : Dict (Dict AgencyProposalRecord)) (t : String)
    (f : AgencyProposalRecord → AgencyProposalRecord)
    → ((id : String) (r : AgencyProposalRecord) → Sound entries t id r → Sound entries t id (f r))
    → Filed entries records
    → Filed entries (map_values2 t f records)
Filed-map_values2 entries records t f step h u =
    rw inner-map_values2 (elim (Bool-cases (str_eq t u)) [
      | inl same ↦ rw same (
          subst (λ x. Each (Sound entries x) (map_values f (inner t records))) ((eq_iff t u).0 same)
            (Each-map_values (Sound entries t) (Sound entries t) f (inner t records) step (h t)))
      | inr other ↦ rw other (h u)
    ])

-- A record that keeps its proposal, and is open only where the old one was.
pub Sound-keep :
    (entries : Dict (Dict Entry)) (t id : String) (r u : AgencyProposalRecord)
    → u.proposal ≡ r.proposal
    → (is_open u ≡ true → is_open r ≡ true)
    → Sound entries t id r
    → Sound entries t id u
Sound-keep entries t id r u same live h = record {
  own_id = ap (λ (p : AgencyProposal). p.id) same ∙ h.own_id;
  own_tenant = ap (λ (p : AgencyProposal). p.tenant_id) same ∙ h.own_tenant;
  evidence = λ open_u.
      subst (λ (p : AgencyProposal). All (Stands entries t) p.evidence_ids) (sym same)
        (h.evidence (live open_u));
}

-- A claim's sweep.
sweep-keep :
    (blocked : Bool) (current : Snapshot) (now : Time) (r : AgencyProposalRecord)
    → ((swept (sweep blocked current now r) r).proposal ≡ r.proposal)
      × (is_open (swept (sweep blocked current now r) r) ≡ true → is_open r ≡ true)
unfolding sweep
sweep-keep blocked current now r = (ground arith, λ h. ground arith)

offer_open :
    (blocked : Bool) (current : Snapshot) (now : Time) (r : AgencyProposalRecord)
    → is_offer (sweep blocked current now r) ≡ true
    → is_open r ≡ true
unfolding sweep
offer_open blocked current now r h = ground arith

offer_in_open :
    (records : Dict AgencyProposalRecord) (current : Snapshot) (now : Time)
    (r : AgencyProposalRecord)
    → is_offer (sweep_in records current now r) ≡ true
    → is_open r ≡ true
unfolding sweep_in
offer_in_open records current now r h = offer_open _ current now r h

-- A record that a claim hands out.
abbrev Handed : Dict (Dict Entry) → String → AgencyProposalRecord → Type 0
Handed entries t r = (is_open r ≡ true) × Sound entries t r.proposal.id r

offered-Handed :
    (entries : Dict (Dict Entry)) (t : String) (records m : Dict AgencyProposalRecord)
    (current : Snapshot) (now : Time)
    → Each (Sound entries t) m
    → All (Handed entries t) (offered (sweep_in records current now) m)
unfolding offered
offered-Handed entries t records [] current now h = tt
offered-Handed entries t records ((id, r) ∷ rest) current now h =
    let later = offered-Handed entries t records rest current now h.1 in
    if_elim (All (Handed entries t)) (is_offer (sweep_in records current now r)) _ _
      (λ e. (
        (
          offer_in_open records current now r e,
          subst (λ x. Sound entries t x r) (sym h.0.own_id) h.0,
        ),
        later,
      ))
      (λ _. later)

lease_all-Filed :
    (entries : Dict (Dict Entry)) (t consumer : String) (until : Time)
    (rs : List AgencyProposalRecord) (d : Dict (Dict AgencyProposalRecord))
    → All (Handed entries t) rs
    → Filed entries d
    → Filed entries (lease_all t consumer until rs d)
unfolding lease_all
lease_all-Filed entries t consumer until [] d h k = k
lease_all-Filed entries t consumer until (r ∷ rs) d h k =
    lease_all-Filed entries t consumer until rs _ h.1 (
      Filed-put2 entries d t r.proposal.id (lease_to consumer until r)
        (Sound-keep entries t r.proposal.id r (lease_to consumer until r) refl (λ _. h.0.0) h.0.1)
        k)

granted-Handed :
    (s : Store) (t : String) (now : Time) (limit : ℕ)
    → Filed s.entries s.agency_records
    → All (Handed s.entries t) (granted s t now limit)
unfolding granted
granted-Handed s t now limit h = All-take (Handed s.entries t) limit _ (
    sort_by-All claim_less (Handed s.entries t) _ (
      offered-Handed s.entries t (inner t s.agency_records) (inner t s.agency_records) s.snapshot
        now (h t)))

swept_in-Sound :
    (s : Store) (t : String) (now : Time) (id : String) (r : AgencyProposalRecord)
    → Sound s.entries t id r
    → Sound s.entries t id (swept (sweep_in (inner t s.agency_records) s.snapshot now r) r)
unfolding sweep_in
swept_in-Sound s t now id r sound =
    let (same, live) = sweep-keep _ s.snapshot now r in
    Sound-keep s.entries t id r _ same live sound

pub claim-Filed :
    (s : Store) (t consumer : String) (now : Time) (limit : ℕ) (lease : Duration)
    → Filed s.entries s.agency_records
    → Filed s.entries (claim_agency_proposals s t consumer now limit lease).0.agency_records
unfolding claim_agency_proposals
claim-Filed s t consumer now limit lease h =
    lease_all-Filed s.entries t consumer (now + lease) (granted s t now limit) _
      (granted-Handed s t now limit h)
      (Filed-map_values2 s.entries s.agency_records t _ (swept_in-Sound s t now) h)
