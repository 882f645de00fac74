-- ===== src/RankDelta/Batch/Write.antt =====
-- What PutBatch leaves, with any database that upserts by key.
use eventframed.Prelude.{
  Option, none, some, List, [], ◌∷◌, ◌≡◌, ◌⊎◌, inl, inr, refl, sym, ap, ◌∙◌, subst, map, All,
}
use eventframed.RankDelta.{DeltaRecord, DeltaError}
use eventframed.RankDelta.Cache.{LruCache}
use eventframed.RankDelta.Row.{DeltaRow, encode_record}
use eventframed.RankDelta.Batch.Tables.{Table, write_raws, scanned, Storable, scanned-write_raws}
use eventframed.RankDelta.Batch.{
  Database, unknown_records, pending_records, cache_records, committed, commit_pending,
  commit_batch, commit_checked, put_batch,
}
use eventframed.RankDelta.Batch.Coherent.{
  Rows, Ready, write_rows, cache_records-Ready, unknown_records-Ready, pending_records-Ready,
}
use eventframed.RankDelta.Batch.Kept.{
  Kept-All, KeptIf, unknown_records-Kept, pending_records-KeptIf,
}

module _ (db : Database) (table_of : db.Table → Table)
    (upserts : (table : db.Table) (rows : List DeltaRow) (after : db.Table)
      → db.upsert table rows ≡ some after
      → table_of after ≡ write_raws rows (table_of table)) where
  abbrev rows_of : db.Table → Rows
  rows_of table = scanned (table_of table)

  pub upserted :
      (table : db.Table) (records : List DeltaRecord) (after : db.Table)
      → All Storable records
      → db.upsert table (map encode_record records) ≡ some after
      → rows_of after ≡ write_rows records (rows_of table)
  upserted table records after fit e =
      ap scanned (upserts table (map encode_record records) after e)
      ∙ scanned-write_raws records (table_of table) fit

  committed-Ready :
      (outcome : Option db.Table) (pending : List DeltaRecord) (c : LruCache) (table : db.Table)
      → All Storable pending
      → db.upsert table (map encode_record pending) ≡ outcome
      → Ready (rows_of table) c
      → let done = committed db outcome pending c table in Ready (rows_of done.0.1) done.0.0
  unfolding committed
  committed-Ready none pending c table fit e ready = ready
  committed-Ready (some after) pending c table fit e ready =
      subst (λ rows. Ready rows (cache_records pending c))
        (sym (upserted table pending after fit e))
        (cache_records-Ready pending (rows_of table) c ready)

  commit_pending-Ready :
      (pending : List DeltaRecord) (c : LruCache) (table : db.Table)
      → All Storable pending
      → Ready (rows_of table) c
      → let done = commit_pending db pending c table in Ready (rows_of done.0.1) done.0.0
  unfolding commit_pending
  commit_pending-Ready [] c table fit ready = ready
  commit_pending-Ready (r ∷ pending) c table fit ready =
      committed-Ready (db.upsert table (map encode_record (r ∷ pending))) (r ∷ pending) c table fit
        refl ready

  commit_checked-Ready :
      (records : List DeltaRecord) (checked : DeltaError ⊎ List DeltaRecord) (c : LruCache)
      (table : db.Table)
      → All Storable records
      → KeptIf (rows_of table) records checked
      → Ready (rows_of table) c
      → let done = commit_checked db checked c table in Ready (rows_of done.0.1) done.0.0
  unfolding commit_checked commit_batch
  commit_checked-Ready records (inl e) c table fit keeps ready = ready
  commit_checked-Ready records (inr []) c table fit keeps ready = ready
  commit_checked-Ready records (inr (r ∷ pending)) c table fit keeps ready =
      let last = unknown_records (r ∷ pending) c in
      let kept = unknown_records-Kept (r ∷ pending) (rows_of table) c ready in
      commit_pending-Ready last.1 last.0 table
        (Kept-All Storable (rows_of table) (r ∷ pending) last.1 kept
          (Kept-All Storable (rows_of table) records (r ∷ pending) keeps fit))
        (unknown_records-Ready (r ∷ pending) (rows_of table) c ready)

  -- Where an upsert that succeeds writes the rows in order by tenant and key, and a row can hold
  -- each record of a batch (both times are within an int64 of nanoseconds of the Unix epoch, or
  -- there is no expiry; an expiry is not the epoch itself, and is in UTC without a clock
  -- reading), the batch of writes, whatever its outcome, leaves a well-formed cache whose records
  -- are what the database's rows are read as, where it was one.
  pub put_batch-Ready :
      (records : List DeltaRecord) (c : LruCache) (table : db.Table)
      → All Storable records
      → Ready (rows_of table) c
      → let done = put_batch db records c table in Ready (rows_of done.0.1) done.0.0
  unfolding put_batch
  put_batch-Ready records c table fit ready =
      commit_checked-Ready records (pending_records records c).1 (pending_records records c).0 table
        fit (pending_records-KeptIf records (rows_of table) c ready)
        (pending_records-Ready records (rows_of table) c ready)
