-- ===== src/RankDelta/Batch.antt =====
-- internal/rankdelta/store.go: the batches of the store, between its cache and its database. The
-- database is outside: a batch uses it by the two statements of the record.
pub mod Coherent
pub mod Tables
pub mod Read
pub mod Write
pub mod Kept
pub mod Stored
use eventframed.Prelude.{
  String, concat, Bool, true, false, not, ◌&&◌, Option, none, some, List, [], ◌∷◌, ◌++◌, ◌⊎◌, inl,
  inr, str_eq, str_mem, map, if◌then◌else◌,
}
use eventframed.Prelude.Dict.{Dict, put}
use eventframed.Model.Snapshot.{Time, Snapshot}
use eventframed.RankDelta.{
  DeltaRecord, DeltaError, delta_fields, delta_range, valid_for, validate_record, materially_equal,
}
use eventframed.RankDelta.Row.{DeltaRow, encode_record, scan_record}
use eventframed.RankDelta.Cache.{LruCache, lru_get, lru_put}

-- A query reads rows, to the end or until it fails, which is `false`; an upsert of rows in one
-- transaction commits all or fails.
pub record Database : Type 1 where
  pub Table : Type 0
  pub query : Table → String → List String → List DeltaRow × Bool
  pub upsert : Table → List DeltaRow → Option Table

-- cacheKey
unfoldable pub cache_key : String → String → String
cache_key tenant_id key = concat tenant_id (concat "\0" key)

-- The test of a record against the cache.
unfoldable pub known : Option DeltaRecord → DeltaRecord → Bool
unfolding materially_equal
known none r = false
known (some cached) r = materially_equal cached r

-- The loop of PutBatch that drops the records the cache knows, after the lock was taken.
unfoldable pub unknown_records : List DeltaRecord → LruCache → LruCache × List DeltaRecord
unfolding cache_key known lru_get
unknown_records [] c = (c, [])
unknown_records (r ∷ records) c =
    let read = lru_get (cache_key r.tenant_id r.key) c in
    let rest = unknown_records records read.0 in
    (rest.0, if known read.1 r then rest.1 else r ∷ rest.1)

unfoldable pub add_pending :
    Bool → DeltaRecord → DeltaError ⊎ List DeltaRecord → DeltaError ⊎ List DeltaRecord
add_pending is_known r (inl e) = inl e
add_pending is_known r (inr pending) = inr (if is_known then pending else r ∷ pending)

-- The same loop before the lock, which also validates.
unfoldable pub pending_records :
    List DeltaRecord → LruCache → LruCache × (DeltaError ⊎ List DeltaRecord)
unfolding cache_key known lru_get validate_record add_pending
pending_records [] c = (c, inr [])
pending_records (r ∷ records) c =
    let read = lru_get (cache_key r.tenant_id r.key) c in
    let rest = pending_records records read.0 in
    elim (validate_record r) [
      | some e ↦ (c, inl e)
      | none ↦ (rest.0, add_pending (known read.1 r) r rest.1)
    ]

-- The cache takes the records one after another.
unfoldable pub cache_records : List DeltaRecord → LruCache → LruCache
unfolding cache_key lru_put
cache_records [] c = c
cache_records (r ∷ records) c = cache_records records (lru_put (cache_key r.tenant_id r.key) r c)

pub data BatchError : Type 0 where
  invalid : (reason : DeltaError) → BatchError
  database : BatchError

-- What the cached rows and the queried ones give: the keys seen, the records found, the keys that the
-- cache does not answer.
pub record BatchRead : Type 0 where
  pub cache : LruCache
  pub seen : List String
  pub result : Dict DeltaRecord
  pub missing : List String

-- A key by what the cache has for it.
unfoldable pub answer_key :
    Snapshot → Time → String → LruCache → Option DeltaRecord → BatchRead → BatchRead
unfolding valid_for put
answer_key snapshot now key c none s = record s {
  cache = c;
  seen = key ∷ s.seen;
  missing = s.missing ++ (key ∷ []);
}
answer_key snapshot now key c (some r) s =
    if valid_for r snapshot now
    then record s { cache = c; seen = key ∷ s.seen; result = put key r s.result }
    else record s { cache = c; seen = key ∷ s.seen; missing = s.missing ++ (key ∷ []) }

-- The loop of GetBatch over the keys.
unfoldable pub read_key : String → Snapshot → Time → BatchRead → String → BatchRead
unfolding cache_key lru_get answer_key
read_key tenant_id snapshot now s key =
    let read = lru_get (cache_key tenant_id key) s.cache in
    if str_eq key ""
    then s
    else if str_mem key s.seen
    then s
    else answer_key snapshot now key read.0 read.1 s

unfoldable pub read_keys : String → Snapshot → Time → List String → BatchRead → BatchRead
unfolding read_key
read_keys tenant_id snapshot now [] s = s
read_keys tenant_id snapshot now (key ∷ keys) s =
    read_keys tenant_id snapshot now keys (read_key tenant_id snapshot now s key)

-- The loop of GetBatch over the rows.
unfoldable pub read_record : Snapshot → Time → BatchRead → DeltaRecord → BatchRead
unfolding cache_key lru_put valid_for put
read_record snapshot now s r = record s {
  cache = lru_put (cache_key r.tenant_id r.key) r s.cache;
  result = if valid_for r snapshot now then put r.key r s.result else s.result;
}

unfoldable pub read_rows : Snapshot → Time → List DeltaRow → BatchRead → BatchRead
unfolding read_record scan_record
read_rows snapshot now [] s = s
read_rows snapshot now (row ∷ rows) s =
    read_rows snapshot now rows (read_record snapshot now s (scan_record row))

module _ (db : Database) where
  -- What follows the transaction of PutBatch, whose errors are one.
  unfoldable pub committed :
      Option db.Table
      → List DeltaRecord
      → LruCache
      → db.Table
      → (LruCache × db.Table) × Option BatchError
  unfolding cache_records
  committed none pending c table = ((c, table), some database)
  committed (some after) pending c table = ((cache_records pending c, after), none)

  unfoldable pub commit_pending :
      List DeltaRecord → LruCache → db.Table → (LruCache × db.Table) × Option BatchError
  unfolding committed encode_record
  commit_pending [] c table = ((c, table), none)
  commit_pending (r ∷ pending) c table =
      committed (db.upsert table (map encode_record (r ∷ pending))) (r ∷ pending) c table

  -- PutBatch from the lock on
  unfoldable pub commit_batch :
      List DeltaRecord → LruCache → db.Table → (LruCache × db.Table) × Option BatchError
  unfolding unknown_records commit_pending
  commit_batch pending c table =
      let ready = unknown_records pending c in commit_pending ready.1 ready.0 table

  unfoldable pub commit_checked :
      DeltaError ⊎ List DeltaRecord
      → LruCache
      → db.Table
      → (LruCache × db.Table) × Option BatchError
  unfolding commit_batch
  commit_checked (inl e) c table = ((c, table), some (invalid e))
  commit_checked (inr []) c table = ((c, table), none)
  commit_checked (inr (r ∷ pending)) c table = commit_batch (r ∷ pending) c table

  -- SQLiteStore.PutBatch
  unfoldable pub put_batch :
      List DeltaRecord → LruCache → db.Table → (LruCache × db.Table) × Option BatchError
  unfolding pending_records commit_checked
  put_batch records c table =
      let checked = pending_records records c in commit_checked checked.1 checked.0 table

  -- GetBatch from the query on; `none` is its error.
  unfoldable pub query_missing :
      String
      → Snapshot
      → Time
      → List String
      → BatchRead
      → db.Table
      → LruCache × Option (Dict DeltaRecord)
  unfolding read_rows
  query_missing tenant_id snapshot now [] s table = (s.cache, some s.result)
  query_missing tenant_id snapshot now (key ∷ keys) s table =
      let answer = db.query table tenant_id (key ∷ keys) in
      let last = read_rows snapshot now answer.0 s in
      (last.cache, if answer.1 then some last.result else none)

  -- SQLiteStore.GetBatch
  unfoldable pub get_batch :
      String
      → List String
      → Snapshot
      → Time
      → LruCache
      → db.Table
      → LruCache × Option (Dict DeltaRecord)
  unfolding read_keys query_missing
  get_batch tenant_id keys snapshot now c table =
      let first =
        read_keys tenant_id snapshot now keys
          (record { cache = c; seen = []; result = []; missing = [] }) in
      query_missing tenant_id snapshot now first.missing first table
