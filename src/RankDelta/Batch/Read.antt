-- ===== src/RankDelta/Batch/Read.antt =====
-- What GetBatch returns, with any database whose query returns rows of its table.
use eventframed.Prelude.{
  String, Bool, true, false, Option, none, some, List, [], ◌∷◌, ◌≡◌, inl, inr, refl, sym, ◌∙◌,
  subst, arith, str_eq, eq_iff, if◌then◌else◌, Bool-cases, if_elim, str_mem, All,
}
use eventframed.Prelude.Dict.{Dict, get, put, get-put}
use eventframed.Model.Snapshot.{Time, Snapshot}
use eventframed.RankDelta.{DeltaRecord, valid_for}
use eventframed.RankDelta.Row.{DeltaRow, scan_record}
use eventframed.RankDelta.Batch.Tables.{Table, scanned, held_all-scanned}
use eventframed.RankDelta.Cache.{LruCache, lru_get, lru_put}
use eventframed.RankDelta.Batch.{
  Database, BatchRead, cache_key, answer_key, read_key, read_keys, read_record, read_rows,
  query_missing, get_batch,
}
use eventframed.RankDelta.Batch.Coherent.{
  Rows, Ready, write_row, hit_same, if_miss, lru_get-Ready, lru_get-row, lru_put-Ready,
}

some_same : {V : Type 0} {v w : V} → some v ≡ some w → v ≡ w
some_same e = grind (arith, e)

answered : {V : Type 0} (b : Bool) (v w : V) → (if b then some v else none) ≡ some w → v ≡ w
answered true v w e = some_same e
answered false v w e = absurd (ground (arith, e))

-- What the loops of GetBatch keep.
abbrev pub Served : Rows → Snapshot → Time → Dict DeltaRecord → Type 0
Served rows snapshot now result =
    (key : String) (r : DeltaRecord)
    → get key result ≡ some r
    → valid_for r snapshot now ≡ true × rows r.tenant_id r.key ≡ some r

abbrev Reading : Rows → Snapshot → Time → BatchRead → Type 0
Reading rows snapshot now s = Ready rows s.cache × Served rows snapshot now s.result

write_row_same :
    (rows : Rows) (r : DeltaRecord) → rows r.tenant_id r.key ≡ some r → write_row r rows ≡ rows
write_row_same rows r row =
    let same : (t k : String) → write_row r rows t k ≡ rows t k =
      λ t k. ground (arith, eq_iff r.tenant_id t, eq_iff r.key k, row) in
    λ i t k. same t k i

put-Served :
    (rows : Rows) (snapshot : Snapshot) (now : Time) (key : String) (r : DeltaRecord)
    (result : Dict DeltaRecord)
    → Served rows snapshot now result
    → valid_for r snapshot now ≡ true
    → rows r.tenant_id r.key ≡ some r
    → Served rows snapshot now (put key r result)
put-Served rows snapshot now key r result served valid row j x h =
    let found : (if str_eq key j then some r else get j result) ≡ some x =
      sym (get-put key j r result) ∙ h in
    elim (Bool-cases (str_eq key j)) [
      | inl hit ↦
          subst (λ y. valid_for y snapshot now ≡ true × rows y.tenant_id y.key ≡ some y)
            (hit_same r x (get j result) hit found) (valid, row)
      | inr miss ↦ served j x (if_miss r (get j result) (some x) miss found)
    ]

read_record-Reading :
    (rows : Rows) (snapshot : Snapshot) (now : Time) (s : BatchRead) (r : DeltaRecord)
    → rows r.tenant_id r.key ≡ some r
    → Reading rows snapshot now s
    → Reading rows snapshot now (read_record snapshot now s r)
unfolding read_record
read_record-Reading rows snapshot now s r row (ready, served) = (
  subst (λ f. Ready f (lru_put (cache_key r.tenant_id r.key) r s.cache)) (write_row_same rows r row)
      (lru_put-Ready rows r s.cache ready),
  elim (Bool-cases (valid_for r snapshot now)) [
    | inl valid ↦ rw valid (put-Served rows snapshot now r.key r s.result served valid row)
    | inr stale ↦ rw stale served
  ],
)

read_rows-Reading :
    (rows : Rows) (snapshot : Snapshot) (now : Time) (answer : List DeltaRow) (s : BatchRead)
    → All
        (λ row. rows (scan_record row).tenant_id (scan_record row).key ≡ some (scan_record row))
        answer
    → Reading rows snapshot now s
    → Reading rows snapshot now (read_rows snapshot now answer s)
unfolding read_rows
read_rows-Reading rows snapshot now [] s held reading = reading
read_rows-Reading rows snapshot now (row ∷ answer) s (here, held) reading =
    let r = scan_record row in
    read_rows-Reading rows snapshot now answer (read_record snapshot now s r) held
      (read_record-Reading rows snapshot now s r here reading)

answer_key-Reading :
    (rows : Rows) (snapshot : Snapshot) (now : Time) (key : String) (c : LruCache)
    (answer : Option DeltaRecord) (s : BatchRead)
    → Ready rows c
    → ((r : DeltaRecord) → answer ≡ some r → rows r.tenant_id r.key ≡ some r)
    → Served rows snapshot now s.result
    → Reading rows snapshot now (answer_key snapshot now key c answer s)
unfolding answer_key
answer_key-Reading rows snapshot now key c none s ready row served = (ready, served)
answer_key-Reading rows snapshot now key c (some r) s ready row served =
    elim (Bool-cases (valid_for r snapshot now)) [
      | inl valid ↦
          rw valid (ready, put-Served rows snapshot now key r s.result served valid (row r refl))
      | inr stale ↦ rw stale (ready, served)
    ]

read_key-Reading :
    (rows : Rows) (tenant_id : String) (snapshot : Snapshot) (now : Time) (s : BatchRead)
    (key : String)
    → Reading rows snapshot now s
    → Reading rows snapshot now (read_key tenant_id snapshot now s key)
unfolding read_key
read_key-Reading rows tenant_id snapshot now s key (ready, served) =
    let read = lru_get (cache_key tenant_id key) s.cache in
    if_elim (Reading rows snapshot now) (str_eq key "") s
      (if str_mem key s.seen then s else answer_key snapshot now key read.0 read.1 s)
      (λ e. (ready, served))
      (λ e.
        if_elim (Reading rows snapshot now) (str_mem key s.seen) s
          (answer_key snapshot now key read.0 read.1 s) (λ f. (ready, served))
          (λ f.
            answer_key-Reading rows snapshot now key read.0 read.1 s
              (lru_get-Ready rows (cache_key tenant_id key) s.cache ready)
              (λ r h. lru_get-row rows (cache_key tenant_id key) s.cache ready h) served))

read_keys-Reading :
    (rows : Rows) (tenant_id : String) (snapshot : Snapshot) (now : Time) (keys : List String)
    (s : BatchRead)
    → Reading rows snapshot now s
    → Reading rows snapshot now (read_keys tenant_id snapshot now keys s)
unfolding read_keys
read_keys-Reading rows tenant_id snapshot now [] s reading = reading
read_keys-Reading rows tenant_id snapshot now (key ∷ keys) s reading =
    read_keys-Reading rows tenant_id snapshot now keys (read_key tenant_id snapshot now s key)
      (read_key-Reading rows tenant_id snapshot now s key reading)

module _ (db : Database) (table_of : db.Table → Table)
    (queries : (table : db.Table) (tenant_id : String) (keys : List String)
      → All
          (λ row. table_of table row.tenant_id row.key ≡ some row)
          (db.query table tenant_id keys).0) where
  abbrev rows_of : db.Table → Rows
  rows_of table = scanned (table_of table)

  query_missing-Reading :
      (tenant_id : String) (snapshot : Snapshot) (now : Time) (missing : List String)
      (s : BatchRead) (table : db.Table)
      → Reading (rows_of table) snapshot now s
      → let done = query_missing db tenant_id snapshot now missing s table in
        Ready (rows_of table) done.0
        × ((found : Dict DeltaRecord)
            → done.1 ≡ some found
            → Served (rows_of table) snapshot now found)
  unfolding query_missing
  query_missing-Reading tenant_id snapshot now [] s table (ready, served) =
      (ready, λ found e. subst (Served (rows_of table) snapshot now) (some_same e) served)
  query_missing-Reading tenant_id snapshot now (key ∷ keys) s table reading =
      let answer = db.query table tenant_id (key ∷ keys) in
      let (ready, served) =
        read_rows-Reading (rows_of table) snapshot now answer.0 s
          (held_all-scanned (table_of table) answer.0 (queries table tenant_id (key ∷ keys)))
          reading in
      (
        ready,
        λ found e.
            subst (Served (rows_of table) snapshot now)
              (answered answer.1 (read_rows snapshot now answer.0 s).result found e) served,
      )

  get_batch-Reading :
      (tenant_id : String) (keys : List String) (snapshot : Snapshot) (now : Time) (c : LruCache)
      (table : db.Table)
      → Ready (rows_of table) c
      → let done = get_batch db tenant_id keys snapshot now c table in
        Ready (rows_of table) done.0
        × ((found : Dict DeltaRecord)
            → done.1 ≡ some found
            → Served (rows_of table) snapshot now found)
  unfolding get_batch get
  get_batch-Reading tenant_id keys snapshot now c table ready =
      let start : BatchRead = record { cache = c; seen = []; result = []; missing = [] } in
      let first = read_keys tenant_id snapshot now keys start in
      query_missing-Reading tenant_id snapshot now first.missing first table (
        read_keys-Reading (rows_of table) tenant_id snapshot now keys start
          (ready, λ key r h. absurd (ground (arith, h))))

  -- Where a query returns rows of the table only, a batch of reads leaves a well-formed cache whose
  -- records are what the database's rows are read as, where it was one, whether the query fails or not.
  pub get_batch-Ready :
      (tenant_id : String) (keys : List String) (snapshot : Snapshot) (now : Time) (c : LruCache)
      (table : db.Table)
      → Ready (rows_of table) c
      → Ready (rows_of table) (get_batch db tenant_id keys snapshot now c table).0
  get_batch-Ready tenant_id keys snapshot now c table ready =
      (get_batch-Reading tenant_id keys snapshot now c table ready).0

  -- Where a query returns rows of the table only and the cache is well formed and its records are
  -- what the database's rows are read as, each record that a batch of reads returns is valid at the
  -- snapshot and the time, and is what the database's row is read as.
  pub get_batch-Served :
      (tenant_id : String) (keys : List String) (snapshot : Snapshot) (now : Time) (c : LruCache)
      (table : db.Table) (found : Dict DeltaRecord)
      → Ready (rows_of table) c
      → (get_batch db tenant_id keys snapshot now c table).1 ≡ some found
      → Served (rows_of table) snapshot now found
  get_batch-Served tenant_id keys snapshot now c table found ready e =
      (get_batch-Reading tenant_id keys snapshot now c table ready).1 found e
