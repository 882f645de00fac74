-- ===== src/RankDelta/Batch/Kept.antt =====
-- Which records of a batch PutBatch writes: all but those that the database has already.
use eventframed.Prelude.{
  All, true, Option, none, some, List, [], ◌∷◌, ◌≡◌, ◌⊎◌, inl, inr, refl, sym, subst, arith, eq_iff,
  if◌then◌else◌, Option-cases, if_elim,
}
use eventframed.RankDelta.{DeltaRecord, DeltaError, validate_record}
use eventframed.RankDelta.Cache.{LruCache, lru_get}
use eventframed.RankDelta.Batch.{cache_key, known, unknown_records, add_pending, pending_records}
use eventframed.RankDelta.Batch.Coherent.{Rows, Ready, lru_get-Ready, lru_get-row}

-- The second list is the first without records that the table knows.
pub data Kept (rows : Rows) : List DeltaRecord → List DeltaRecord → Type 0 where
  kept_all : Kept rows [] []
  kept :
      (r : DeltaRecord) (xs ys : List DeltaRecord) → Kept rows xs ys → Kept rows (r ∷ xs) (r ∷ ys)
  dropped :
      (r : DeltaRecord) (xs ys : List DeltaRecord)
      → known (rows r.tenant_id r.key) r ≡ true
      → Kept rows xs ys
      → Kept rows (r ∷ xs) ys

pub Kept-All :
    (P : DeltaRecord → Type 0) (rows : Rows) (xs ys : List DeltaRecord)
    → Kept rows xs ys
    → All P xs
    → All P ys
Kept-All P rows xs ys kept_all h = tt
Kept-All P rows xs ys (kept r xs' ys' f) (here, h) = (here, Kept-All P rows xs' ys' f h)
Kept-All P rows xs ys (dropped r xs' ys' k f) (here, h) = Kept-All P rows xs' ys f h

pub Kept-trans :
    (rows : Rows) (xs ys zs : List DeltaRecord)
    → Kept rows xs ys
    → Kept rows ys zs
    → Kept rows xs zs
Kept-trans rows xs ys zs (dropped r xs' ys' k f) g =
    dropped r xs' zs k (Kept-trans rows xs' ys zs f g)
Kept-trans rows xs ys zs kept_all g = g
Kept-trans rows xs ys zs (kept r xs' ys' f) (kept r' ys'' zs' g) =
    kept r xs' zs' (Kept-trans rows xs' ys' zs' f g)
Kept-trans rows xs ys zs (kept r xs' ys' f) (dropped r' ys'' zs' k g) =
    dropped r xs' zs k (Kept-trans rows xs' ys' zs f g)

known_row :
    (rows : Rows) (answer : Option DeltaRecord) (r : DeltaRecord)
    → ((x : DeltaRecord) → answer ≡ some x → rows x.tenant_id x.key ≡ some x)
    → known answer r ≡ true
    → known (rows r.tenant_id r.key) r ≡ true
unfolding known
known_row rows none r row k = absurd (ground (arith, k))
known_row rows (some x) r row k =
    let here : rows r.tenant_id r.key ≡ some x =
      ground (arith, k, row x refl, eq_iff x.tenant_id r.tenant_id, eq_iff x.key r.key) in
    rw here k

step-Kept :
    (rows : Rows) (c : LruCache) (r : DeltaRecord) (xs ys : List DeltaRecord)
    → Ready rows c
    → Kept rows xs ys
    → Kept rows
        (r ∷ xs)
        (if known (lru_get (cache_key r.tenant_id r.key) c).1 r then ys else r ∷ ys)
step-Kept rows c r xs ys ready rest =
    if_elim (Kept rows (r ∷ xs)) (known (lru_get (cache_key r.tenant_id r.key) c).1 r) ys (r ∷ ys)
      (λ k.
        dropped r xs ys
          (known_row rows (lru_get (cache_key r.tenant_id r.key) c).1 r
            (λ x e. lru_get-row rows (cache_key r.tenant_id r.key) c ready e) k)
          rest)
      (λ k. kept r xs ys rest)

pub unknown_records-Kept :
    (records : List DeltaRecord) (rows : Rows) (c : LruCache)
    → Ready rows c
    → Kept rows records (unknown_records records c).1
unfolding unknown_records
unknown_records-Kept [] rows c ready = kept_all
unknown_records-Kept (r ∷ records) rows c ready =
    let next = (lru_get (cache_key r.tenant_id r.key) c).0 in
    step-Kept rows c r records (unknown_records records next).1 ready (
      unknown_records-Kept records rows next
        (lru_get-Ready rows (cache_key r.tenant_id r.key) c ready))

abbrev pub KeptIf : Rows → List DeltaRecord → DeltaError ⊎ List DeltaRecord → Type 0
KeptIf rows records (inl e) = Unit
KeptIf rows records (inr pending) = Kept rows records pending

added-KeptIf :
    (rows : Rows) (c : LruCache) (r : DeltaRecord) (xs : List DeltaRecord)
    (rest : DeltaError ⊎ List DeltaRecord)
    → Ready rows c
    → KeptIf rows xs rest
    → KeptIf rows
        (r ∷ xs)
        (add_pending (known (lru_get (cache_key r.tenant_id r.key) c).1 r) r rest)
unfolding add_pending
added-KeptIf rows c r xs (inl e) ready rest = tt
added-KeptIf rows c r xs (inr ys) ready rest = step-Kept rows c r xs ys ready rest

validated_pending :
    (records : List DeltaRecord) (r : DeltaRecord) (c : LruCache)
    → validate_record r ≡ none
    → (pending_records (r ∷ records) c).1
      ≡ add_pending
          (known (lru_get (cache_key r.tenant_id r.key) c).1 r)
          r
          (pending_records records (lru_get (cache_key r.tenant_id r.key) c).0).1
unfolding pending_records
validated_pending records r c e = ground (arith, e)

refused_pending :
    (records : List DeltaRecord) (r : DeltaRecord) (c : LruCache) (reason : DeltaError)
    → validate_record r ≡ some reason
    → (pending_records (r ∷ records) c).1 ≡ inl reason
unfolding pending_records
refused_pending records r c reason e = ground (arith, e)

pub pending_records-KeptIf :
    (records : List DeltaRecord) (rows : Rows) (c : LruCache)
    → Ready rows c
    → KeptIf rows records (pending_records records c).1
unfolding pending_records
pending_records-KeptIf [] rows c ready = kept_all
pending_records-KeptIf (r ∷ records) rows c ready =
    let next = (lru_get (cache_key r.tenant_id r.key) c).0 in
    let rest =
      pending_records-KeptIf records rows next
        (lru_get-Ready rows (cache_key r.tenant_id r.key) c ready) in
    elim (Option-cases (validate_record r)) [
      | inl e ↦
          subst (KeptIf rows (r ∷ records)) (sym (validated_pending records r c e))
            (added-KeptIf rows c r records (pending_records records next).1 ready rest)
      | inr (reason, e) ↦
          subst (KeptIf rows (r ∷ records)) (sym (refused_pending records r c reason e)) tt
    ]
