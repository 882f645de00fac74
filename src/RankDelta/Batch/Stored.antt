-- ===== src/RankDelta/Batch/Stored.antt =====
-- What PutBatch has stored when it returns no error.
use eventframed.Prelude.{
  map, String, Bool, true, false, ◌&&◌, Option, none, some, List, [], ◌∷◌, ◌≡◌, ◌⊎◌, inl, inr, refl,
  sym, ap, subst, ◌∙◌, arith, str_eq, eq_refl, if◌then◌else◌, All,
}
use eventframed.RankDelta.{DeltaRecord, DeltaError}
use eventframed.RankDelta.Cache.{LruCache}
use eventframed.RankDelta.Row.{DeltaRow, encode_record}
use eventframed.RankDelta.Batch.Tables.{Table, write_raws, scanned, Storable}
use eventframed.RankDelta.Batch.{
  Database, known, unknown_records, pending_records, committed, commit_pending, commit_batch,
  commit_checked, put_batch,
}
use eventframed.RankDelta.Batch.Coherent.{Rows, Ready, write_row, write_rows, pending_records-Ready}
use eventframed.RankDelta.Batch.Write.{upserted}
use eventframed.RankDelta.Batch.Kept.{
  Kept, kept_all, kept, dropped, KeptIf, Kept-All, Kept-trans, unknown_records-Kept,
  pending_records-KeptIf,
}

abbrev pub same_row : DeltaRecord → DeltaRecord → Bool
same_row r x = str_eq r.tenant_id x.tenant_id && str_eq r.key x.key

-- No two records have the tenant and the key in common.
abbrev pub Separate : List DeltaRecord → Type 0
Separate [] = Unit
Separate (r ∷ records) =
    All (λ x. same_row r x ≡ false × same_row x r ≡ false) records × Separate records

-- The table has the record, or one that the cache's test does not tell from it.
abbrev pub Stored : Rows → DeltaRecord → Type 0
Stored rows r = (rows r.tenant_id r.key ≡ some r) ⊎ (known (rows r.tenant_id r.key) r ≡ true)

abbrev Apart : DeltaRecord → List DeltaRecord → Type 0
Apart r records = All (λ x. same_row r x ≡ false × same_row x r ≡ false) records

Apart-Kept :
    (rows : Rows) (r : DeltaRecord) (xs ys : List DeltaRecord)
    → Kept rows xs ys
    → Apart r xs
    → Apart r ys
Apart-Kept rows r xs ys kept_all apart = tt
Apart-Kept rows r xs ys (kept x xs' ys' f) (here, apart) = (here, Apart-Kept rows r xs' ys' f apart)
Apart-Kept rows r xs ys (dropped x xs' ys' k f) (here, apart) = Apart-Kept rows r xs' ys f apart

-- Records of other keys leave a row as it was.
write_rows-Apart :
    (r : DeltaRecord) (ys : List DeltaRecord) (rows : Rows)
    → Apart r ys
    → write_rows ys rows r.tenant_id r.key ≡ rows r.tenant_id r.key
write_rows-Apart r [] rows apart = refl
write_rows-Apart r (y ∷ ys) rows (here, apart) =
    write_rows-Apart r ys (write_row y rows) apart ∙ rw (here.1) refl

-- A row that an earlier record wrote stands unless a later one writes it.
write_rows-agree :
    (ys : List DeltaRecord) (f g : Rows) (t k : String)
    → f t k ≡ g t k
    → write_rows ys f t k ≡ write_rows ys g t k
write_rows-agree [] f g t k e = e
write_rows-agree (y ∷ ys) f g t k e =
    write_rows-agree ys (write_row y f) (write_row y g) t k
      (ap (λ o. if str_eq y.tenant_id t && str_eq y.key k then some y else o) e)

Stored-write_row :
    (r : DeltaRecord) (xs ys : List DeltaRecord) (rows : Rows)
    → Apart r xs
    → All (Stored (write_rows ys rows)) xs
    → All (Stored (write_rows ys (write_row r rows))) xs
Stored-write_row r [] ys rows apart stored = tt
Stored-write_row r (x ∷ xs) ys rows (here, apart) (first, stored) =
    let same : write_rows ys rows x.tenant_id x.key
        ≡ write_rows ys (write_row r rows) x.tenant_id x.key =
      write_rows-agree ys rows (write_row r rows) x.tenant_id x.key (rw (here.0) refl) in
    (
      subst (λ o. (o ≡ some x) ⊎ (known o x ≡ true)) same first,
      Stored-write_row r xs ys rows apart stored,
    )

Kept-Stored :
    (rows : Rows) (xs ys : List DeltaRecord)
    → Kept rows xs ys
    → Separate xs
    → All (Stored (write_rows ys rows)) xs
Kept-Stored rows xs ys kept_all separate = tt
Kept-Stored rows xs ys (kept r xs' ys' f) (apart, separate) = (
  inl (
      write_rows-Apart r ys' (write_row r rows) (Apart-Kept rows r xs' ys' f apart)
      ∙ rw (eq_refl r.tenant_id, eq_refl r.key) refl),
  Stored-write_row r xs' ys' rows apart (Kept-Stored rows xs' ys' f separate),
)
Kept-Stored rows xs ys (dropped r xs' ys' k f) (apart, separate) = (
  inr (
      subst (λ o. known o r ≡ true)
        (sym (write_rows-Apart r ys rows (Apart-Kept rows r xs' ys f apart))) k),
  Kept-Stored rows xs' ys f separate,
)

module _ (db : Database) (table_of : db.Table → Table)
    (upserts : (table : db.Table) (rows : List DeltaRow) (after : db.Table)
      → db.upsert table rows ≡ some after
      → table_of after ≡ write_raws rows (table_of table)) where
  abbrev rows_of : db.Table → Rows
  rows_of table = scanned (table_of table)

  committed-Stored :
      (outcome : Option db.Table) (records pending : List DeltaRecord) (c : LruCache)
      (table : db.Table)
      → All Storable pending
      → db.upsert table (map encode_record pending) ≡ outcome
      → Kept (rows_of table) records pending
      → Separate records
      → (committed db outcome pending c table).1 ≡ none
      → All (Stored (rows_of (committed db outcome pending c table).0.1)) records
  unfolding committed
  committed-Stored none records pending c table fit e keeps separate h = absurd (ground (arith, h))
  committed-Stored (some after) records pending c table fit e keeps separate h =
      subst (λ rows. All (Stored rows) records)
        (sym (upserted db table_of upserts table pending after fit e))
        (Kept-Stored (rows_of table) records pending keeps separate)

  commit_pending-Stored :
      (records pending : List DeltaRecord) (c : LruCache) (table : db.Table)
      → All Storable pending
      → Kept (rows_of table) records pending
      → Separate records
      → (commit_pending db pending c table).1 ≡ none
      → All (Stored (rows_of (commit_pending db pending c table).0.1)) records
  unfolding commit_pending
  commit_pending-Stored records [] c table fit keeps separate h =
      Kept-Stored (rows_of table) records [] keeps separate
  commit_pending-Stored records (r ∷ pending) c table fit keeps separate h =
      committed-Stored (db.upsert table (map encode_record (r ∷ pending))) records (r ∷ pending) c
        table fit refl keeps separate h

  commit_checked-Stored :
      (records : List DeltaRecord) (checked : DeltaError ⊎ List DeltaRecord) (c : LruCache)
      (table : db.Table)
      → All Storable records
      → Ready (rows_of table) c
      → KeptIf (rows_of table) records checked
      → Separate records
      → (commit_checked db checked c table).1 ≡ none
      → All (Stored (rows_of (commit_checked db checked c table).0.1)) records
  unfolding commit_checked commit_batch
  commit_checked-Stored records (inl e) c table fit ready keeps separate h =
      absurd (ground (arith, h))
  commit_checked-Stored records (inr []) c table fit ready keeps separate h =
      Kept-Stored (rows_of table) records [] keeps separate
  commit_checked-Stored records (inr (r ∷ pending)) c table fit ready keeps separate h =
      let last = unknown_records (r ∷ pending) c in
      let kept =
        Kept-trans (rows_of table) records (r ∷ pending) last.1 keeps
          (unknown_records-Kept (r ∷ pending) (rows_of table) c ready) in
      commit_pending-Stored records last.1 last.0 table
        (Kept-All Storable (rows_of table) records last.1 kept fit) kept separate h

  -- Where an upsert that succeeds writes the rows in order by tenant and key, the cache is well
  -- formed and its records are what the database's rows are read as, a row can hold each record
  -- of a batch (both times are within an int64 of nanoseconds of the Unix epoch, or there is no
  -- expiry; an expiry is not the epoch itself, and is in UTC without a clock reading), and no two
  -- of them have tenant and key in common, a batch of writes that returns no error leaves for
  -- each of its records a row that is read as the record, or as one that equals it but for the
  -- time of its update.
  pub put_batch-Stored :
      (records : List DeltaRecord) (c : LruCache) (table : db.Table)
      → All Storable records
      → Ready (rows_of table) c
      → Separate records
      → (put_batch db records c table).1 ≡ none
      → All (Stored (rows_of (put_batch db records c table).0.1)) records
  unfolding put_batch
  put_batch-Stored records c table fit ready separate h =
      commit_checked-Stored records (pending_records records c).1 (pending_records records c).0
        table fit (pending_records-Ready records (rows_of table) c ready)
        (pending_records-KeptIf records (rows_of table) c ready) separate h
