-- ===== src/Store/Handles.antt =====
-- The handles of uncertain executions (internal/store/tau.go): none is lost before a cancellation
-- has named it.
use eventframed.Prelude.{
  ◌≤◌, String, true, false, ◌||◌, some, List, [], ◌∷◌, ◌++◌, ◌≡◌, inl, inr, refl, subst, arith,
  str_eq, eq_iff, eq_refl, str_mem-all, length, length-append, leb, str_mem, Bool-cases,
}
use eventframed.Model.Snapshot.{Time}
use eventframed.Model.Proposal.{AgencyProposalRecord, ResolveAgencyProposalRequest}
use eventframed.Store.Tau.{add_refs, agency_uncertain_record, tau_cancellation_matches}

mem-append :
    (x : String) (xs ys : List String) → str_mem x (xs ++ ys) ≡ (str_mem x xs || str_mem x ys)
mem-append x [] ys = refl
mem-append x (y ∷ xs) ys = ground (arith, mem-append x xs ys)

-- What the loop over the two handles keeps.
record Extends (refs rest out : List String) : Type 0 where
  old : (x : String) → str_mem x refs ≡ true → str_mem x out ≡ true
  added : (x : String) → str_eq x "" ≡ false → str_mem x rest ≡ true → str_mem x out ≡ true
  bound : length refs ≤ 32 → length out ≤ 32

Extends-some : (refs out : List String) → refs ≡ out → Extends refs [] out
Extends-some refs out e = record {
  old = λ x k. subst (λ xs. str_mem x xs ≡ true) e k;
  added = λ x k l. cc;
  bound = λ k. subst (λ xs. length xs ≤ 32) e k;
}

Extends-skip :
    (refs : List String) (ref : String) (rest out : List String)
    → (str_eq ref "" || str_mem ref refs) ≡ true
    → Extends refs rest out
    → Extends refs (ref ∷ rest) out
Extends-skip refs ref rest out known h = record {
  old = h.old;
  added = λ x given member. elim (Bool-cases (str_eq ref x)) [
    | inl same ↦ h.old x (known_at x given ((eq_iff ref x).0 same))
    | inr differs ↦ h.added x given (ground arith)
  ];
  bound = h.bound;
}
  where
    known_at : (x : String) → str_eq x "" ≡ false → ref ≡ x → str_mem x refs ≡ true
    known_at x given same =
        let here : (str_eq x "" || str_mem x refs) ≡ true = rw same at known in ground arith

Extends-add :
    (refs : List String) (ref : String) (rest out : List String)
    → leb 32 (length refs) ≡ false
    → Extends (refs ++ (ref ∷ [])) rest out
    → Extends refs (ref ∷ rest) out
Extends-add refs ref rest out room h = record {
  old = λ x k. h.old x (ground (arith, mem-append x refs (ref ∷ [])));
  added = λ x given member. elim (Bool-cases (str_eq ref x)) [
    | inl same ↦ h.old x (ground (arith, mem-append x refs (ref ∷ [])))
    | inr differs ↦ h.added x given (ground arith)
  ];
  bound = λ k. h.bound (ground (arith, length-append refs (ref ∷ [])));
}

add_refs-Extends :
    (refs rest : List String) {out : List String}
    → add_refs refs rest ≡ some out
    → Extends refs rest out
unfolding add_refs
add_refs-Extends refs [] {out} h = Extends-some refs out (ground arith)
add_refs-Extends refs (ref ∷ rest) {out} h = elim (Bool-cases (str_eq ref "" || str_mem ref refs)) [
  | inl known ↦ Extends-skip refs ref rest out known (add_refs-Extends refs rest (ground arith))
  | inr unknown ↦ elim (Bool-cases (leb 32 (length refs))) [
    | inl full ↦ absurd (ground arith)
    | inr room ↦
        Extends-add refs ref rest out (ground arith)
          (add_refs-Extends (refs ++ (ref ∷ [])) rest (ground arith))
  ]
]

uncertain-Extends :
    (r u : AgencyProposalRecord) (q : ResolveAgencyProposalRequest) (now : Time)
    → agency_uncertain_record r q now ≡ some u
    → Extends r.uncertain_execution_refs
        (r.execution_ref ∷ q.execution_ref ∷ [])
        u.uncertain_execution_refs
unfolding agency_uncertain_record
uncertain-Extends r u q now h =
    add_refs-Extends r.uncertain_execution_refs (r.execution_ref ∷ q.execution_ref ∷ [])
      (ground arith)

cancelled-covers :
    (u : AgencyProposalRecord) (c : ResolveAgencyProposalRequest)
    → tau_cancellation_matches u c ≡ true
    → (x : String) → str_mem x u.uncertain_execution_refs ≡ true
    → str_mem x c.cancelled_execution_refs ≡ true
unfolding tau_cancellation_matches
cancelled-covers u c h x k =
    str_mem-all x u.uncertain_execution_refs c.cancelled_execution_refs (ground arith) k

-- What the record of an uncertain execution remembers, and what a cancellation of it names.
pub record Remembered (r u : AgencyProposalRecord) (q : ResolveAgencyProposalRequest) : Type 0 where
  pub bound : length u.uncertain_execution_refs ≤ 32
  pub reported :
      str_eq q.execution_ref "" ≡ false → str_mem q.execution_ref u.uncertain_execution_refs ≡ true
  pub had :
      str_eq r.execution_ref "" ≡ false → str_mem r.execution_ref u.uncertain_execution_refs ≡ true
  pub old :
      (x : String)
      → str_mem x r.uncertain_execution_refs ≡ true
      → str_mem x u.uncertain_execution_refs ≡ true
  pub cancelled :
      (c : ResolveAgencyProposalRequest)
      → tau_cancellation_matches u c ≡ true
      → (x : String) → str_mem x u.uncertain_execution_refs ≡ true
      → str_mem x c.cancelled_execution_refs ≡ true

-- Once an execution of a record that had at most 32 uncertain handles has been reported as uncertain,
-- the record has at most 32, whether it is ever cancelled or not; among them are the reported handle
-- and the handle that the record had, unless empty, and every handle that was known to be uncertain;
-- and every cancellation that the record accepts names them all.
pub agency_uncertain_record-covered :
    (r u : AgencyProposalRecord) (q : ResolveAgencyProposalRequest) (now : Time)
    → agency_uncertain_record r q now ≡ some u
    → length r.uncertain_execution_refs ≤ 32
    → Remembered r u q
agency_uncertain_record-covered r u q now h bound =
    let kept = uncertain-Extends r u q now h in
    record {
      bound = kept.bound bound;
      reported =
          λ given. kept.added q.execution_ref given (ground (arith, eq_refl q.execution_ref));
      had = λ given. kept.added r.execution_ref given (ground (arith, eq_refl r.execution_ref));
      old = kept.old;
      cancelled = λ c k. cancelled-covers u c k;
    }
