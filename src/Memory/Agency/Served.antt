-- ===== src/Memory/Agency/Served.antt =====
-- That `ClaimAgencyProposals` hands out what may be handed out.
use mathlib.Core.List.{Memᴰ}
use mathlib.Core.List.Memᴰ.{head, tail, not-nil}
use eventframed.Prelude.{
  ℕ, zero, suc, ◌+◌, ◌≤◌, String, Bool, true, some, List, [], ◌∷◌, ◌≡◌, ◌⊎◌, inl, inr, refl, sym,
  ap, arith, length, if_elim, take, Bool-cases, str_eq,
}
use eventframed.Prelude.Dict.{Dict, get, inner, get2}
use eventframed.Prelude.Sort.{insert_sorted, sort_by}
use eventframed.Model.Snapshot.{Time, Duration, Snapshot}
use eventframed.Model.Proposal.{AgencyProposalRecord}
use eventframed.Memory.{Store}
use eventframed.Memory.Agency.Claim.{
  Sweep, sweep, sweep_in, is_offer, offered, claim_less, lease_to, lease_answer, granted,
  claim_agency_proposals,
}
use eventframed.Memory.Agency.Grants.{Claimable, ClaimableIn}

module _ {ℓ} {A : Type ℓ} (less : A → A → Bool) where
  insert_sorted-Memᴰ :
      (z x : A) (xs : List A) → (z ≡ x) ⊎ Memᴰ z xs → Memᴰ z (insert_sorted less x xs)
  unfolding insert_sorted
  insert_sorted-Memᴰ z x [] (inl e) = head e
  insert_sorted-Memᴰ z x [] (inr m) = absurd (not-nil m)
  insert_sorted-Memᴰ z x (y ∷ ys) h =
      if_elim (Memᴰ z) (less y x) _ _
        (λ _. elim h [
          | inl e ↦ tail (insert_sorted-Memᴰ z x ys (inl e))
          | inr (head e) ↦ head e
          | inr (tail m) ↦ tail (insert_sorted-Memᴰ z x ys (inr m))
        ])
        (λ _. elim h [ inl e ↦ head e | inr m ↦ tail m ])

  sort_by-Memᴰ : (z : A) (xs : List A) → Memᴰ z xs → Memᴰ z (sort_by less xs)
  unfolding sort_by
  sort_by-Memᴰ z [] m = elim m [ ]
  sort_by-Memᴰ z (x ∷ xs) (head e) = insert_sorted-Memᴰ z x (sort_by less xs) (inl e)
  sort_by-Memᴰ z (x ∷ xs) (tail m) =
      insert_sorted-Memᴰ z x (sort_by less xs) (inr (sort_by-Memᴰ z xs m))

  length-insert_sorted : (x : A) (xs : List A) → length (insert_sorted less x xs) ≡ suc (length xs)
  unfolding insert_sorted
  length-insert_sorted x [] = refl
  length-insert_sorted x (y ∷ ys) = ground (arith, length-insert_sorted x ys)

  length-sort_by : (xs : List A) → length (sort_by less xs) ≡ length xs
  unfolding sort_by
  length-sort_by [] = refl
  length-sort_by (x ∷ xs) =
      omega (arith, length-insert_sorted x (sort_by less xs), length-sort_by xs)

take-Memᴰ {ℓ} :
    {A : Type ℓ} (z : A) (n : ℕ) (xs : List A) → length xs ≤ n → Memᴰ z xs → Memᴰ z (take n xs)
take-Memᴰ z zero (x ∷ xs) h m = absurd (omega (arith, h))
take-Memᴰ z zero [] h m = absurd (not-nil m)
take-Memᴰ z (suc n) [] h m = elim m [ ]
take-Memᴰ z (suc n) (x ∷ xs) h (head e) = head e
take-Memᴰ z (suc n) (x ∷ xs) h (tail m) = tail (take-Memᴰ z n xs (omega (arith, h)) m)

Claimable-offers :
    (blocked : Bool) (current : Snapshot) (now : Time) (r : AgencyProposalRecord)
    → Claimable blocked current now r
    → is_offer (sweep blocked current now r) ≡ true
unfolding sweep
Claimable-offers blocked current now r c =
    ground (arith, c.free, c.begun, c.alive, c.forecast, c.unblocked)

offered-Memᴰ :
    (sweeps : AgencyProposalRecord → Sweep) (id : String) (m : Dict AgencyProposalRecord)
    {r : AgencyProposalRecord}
    → get id m ≡ some r
    → is_offer (sweeps r) ≡ true
    → Memᴰ r (offered sweeps m)
unfolding offered get
offered-Memᴰ sweeps id [] h k = absurd (ground arith)
offered-Memᴰ sweeps id ((j, x) ∷ m) {r} h k = elim (Bool-cases (str_eq j id)) [
  | inl hit ↦
      let here : x ≡ r = ground arith in
      let offers : is_offer (sweeps x) ≡ true = rw here k in rw offers (head (sym here))
  | inr miss ↦
      let later : Memᴰ r (offered sweeps m) = offered-Memᴰ sweeps id m (ground arith) k in
      if_elim (Memᴰ r) (is_offer (sweeps x)) _ _ (λ _. tail later) (λ _. later)
]

length-offered :
    (sweeps : AgencyProposalRecord → Sweep) (m : Dict AgencyProposalRecord)
    → length (offered sweeps m) ≤ length m
unfolding offered
length-offered sweeps [] = omega arith
length-offered sweeps ((j, x) ∷ m) = ground (arith, length-offered sweeps m)

lease_answer-Memᴰ :
    (consumer : String) (until : Time) (rs : List AgencyProposalRecord) {r : AgencyProposalRecord}
    → Memᴰ r rs
    → Memᴰ (lease_to consumer until r) (lease_answer consumer until rs)
unfolding lease_answer
lease_answer-Memᴰ consumer until [] m = elim m [ ]
lease_answer-Memᴰ consumer until (x ∷ rs) (head e) = head (ap (lease_to consumer until) e)
lease_answer-Memᴰ consumer until (x ∷ rs) (tail m) = tail (lease_answer-Memᴰ consumer until rs m)

-- A proposal that has begun, is alive, compatible and unblocked, and is pending or under a lease that
-- has run out, is in the answer of a claim whose limit is no less than the number of the tenant's
-- proposals, leased to the consumer until `now + lease`.
pub claim_serves :
    (s : Store) (tenant_id consumer : String) (now : Time) (limit : ℕ) (lease : Duration)
    (id : String) {r : AgencyProposalRecord}
    → get2 tenant_id id s.agency_records ≡ some r
    → ClaimableIn (inner tenant_id s.agency_records) s.snapshot now r
    → length (inner tenant_id s.agency_records) ≤ limit
    → Memᴰ
        (lease_to consumer (now + lease) r)
        (claim_agency_proposals s tenant_id consumer now limit lease).1
unfolding claim_agency_proposals granted sweep_in get2
claim_serves s tenant_id consumer now limit lease id {r} found claimable room =
    lease_answer-Memᴰ consumer (now + lease) _ (
      take-Memᴰ r limit _
        (omega (arith, length-sort_by claim_less offers, length-offered sweeps records, room))
        (sort_by-Memᴰ claim_less r offers
          (offered-Memᴰ sweeps id records found (Claimable-offers _ s.snapshot now r claimable))))
  where
    records : Dict AgencyProposalRecord
    records = inner tenant_id s.agency_records

    sweeps : AgencyProposalRecord → Sweep
    sweeps = sweep_in records s.snapshot now

    offers : List AgencyProposalRecord
    offers = offered sweeps records
