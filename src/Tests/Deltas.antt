-- ===== src/Tests/Deltas.antt =====
-- Batches of rank deltas over a table that is a function.
use eventframed.Prelude.{
  ◌+◌, ℕ, String, true, ◌&&◌, Option, none, some, List, [], ◌∷◌, ◌≡◌, ◌≤◌, inl, inr, refl, sym, ap,
  ap₂, ◌∙◌, arith, All, str_eq, eq_iff, if◌then◌else◌, Bool-cases, length,
}
use eventframed.Prelude.Dict.{Dict, get, put, remove}
use eventframed.Prelude.Float64.{half_f}
use eventframed.Model.Snapshot.{Snapshot}
use eventframed.RankDelta.{DeltaRecord}
use eventframed.RankDelta.Cache.{
  CacheEntry, LruCache, new_lru, read, write, LruCall, lru_calls, lru_get, lru_put,
}
use eventframed.RankDelta.Cache.Calls.{spec_calls, new_lru-WellFormed, lru_calls-Recent}
use eventframed.RankDelta.Cache.Entries.{entries}
use eventframed.RankDelta.Batch.{Database, put_batch, get_batch}
use eventframed.RankDelta.Batch.Coherent.{Ready}
use eventframed.RankDelta.Batch.Tables.{Table, write_raws, scanned}
use eventframed.RankDelta.Row.{DeltaRow, unix_epoch, encode_record, scan_record}
use eventframed.RankDelta.Batch.Read.{Served, get_batch-Served}
use eventframed.RankDelta.Batch.Stored.{Stored, put_batch-Stored}
use eventframed.RankDelta.Batch.Write.{put_batch-Ready}

abbrev snapshot : Snapshot
snapshot = record {
  runtime_version = 1;
  policy_version = 1;
  contract_version = 17;
  graph_version = 2;
  posterior_version = 3;
  residual_version = 4;
  abstraction_version = 5;
  agency_version = 6;
  evidence_epoch = 7;
}

abbrev delta : String → ℕ → DeltaRecord
delta key version = record {
  tenant_id = "t";
  key = key;
  event_id = "e";
  delta = half_f;
  reliability = half_f;
  policy_version = snapshot.policy_version;
  evidence_epoch = snapshot.evidence_epoch;
  graph_version = snapshot.graph_version;
  posterior_version = version;
  residual_version = snapshot.residual_version;
  abstraction_version = snapshot.abstraction_version;
  updated_at = unix_epoch + 3;
  expires_at = unix_epoch + 9;
  expires_form = 0;
}

abbrev blank : CacheEntry
blank = record { key = ""; delta_record = delta "" 0 }

abbrev add_row : String → String → Option DeltaRow → List DeltaRow → List DeltaRow
add_row tenant_id key none rows = rows
add_row tenant_id key (some row) rows =
    if str_eq row.tenant_id tenant_id && str_eq row.key key then row ∷ rows else rows

abbrev rows_in : Table → String → List String → List DeltaRow
rows_in table tenant_id [] = []
rows_in table tenant_id (key ∷ keys) =
    add_row tenant_id key (table tenant_id key) (rows_in table tenant_id keys)

abbrev functions : Database
functions = record {
  Table = Table;
  query = λ table tenant_id keys. (rows_in table tenant_id keys, true);
  upsert = λ table rows. some (write_raws rows table);
}

abbrev itself : Table → Table
itself table = table

abbrev Held : Table → DeltaRow → Type 0
Held table row = table row.tenant_id row.key ≡ some row

add_row-Held :
    (table : Table) (tenant_id key : String) (answer : Option DeltaRow) (rows : List DeltaRow)
    → table tenant_id key ≡ answer
    → All (Held table) rows
    → All (Held table) (add_row tenant_id key answer rows)
add_row-Held table tenant_id key none rows e held = held
add_row-Held table tenant_id key (some r) rows e held =
    elim (Bool-cases (str_eq r.tenant_id tenant_id && str_eq r.key key)) [
      | inl same ↦ rw same (
        ap₂ table ((eq_iff r.tenant_id tenant_id).0 (ground arith))
              ((eq_iff r.key key).0 (ground arith))
            ∙ e,
        held,
      )
      | inr differs ↦ rw differs held
    ]

rows_in-Held :
    (table : Table) (tenant_id : String) (keys : List String)
    → All (Held table) (rows_in table tenant_id keys)
rows_in-Held table tenant_id [] = tt
rows_in-Held table tenant_id (key ∷ keys) =
    add_row-Held table tenant_id key (table tenant_id key) (rows_in table tenant_id keys) refl
      (rows_in-Held table tenant_id keys)

abbrev nothing : Table
nothing tenant_id key = none

abbrev table_in : Option Table → Table
table_in none = nothing
table_in (some table) = table

written_table :
    (table : Table) (rows : List DeltaRow) (after : Table)
    → some (write_raws rows table) ≡ some after
    → after ≡ write_raws rows table
written_table table rows after e = ap (λ (o : Option Table). table_in o) (sym e)

abbrev calls : List LruCall
calls =
    write "a" (delta "a" 1)
    ∷ write "b" (delta "b" 1)
    ∷ read "a"
    ∷ write "c" (delta "c" 1)
    ∷ read "b"
    ∷ read "a"
    ∷ []

lru_calls-Recent_example :
    (lru_calls calls (new_lru 2 blank)).1 ≡ (spec_calls 2 calls []).1
    × entries (lru_calls calls (new_lru 2 blank)).0 ≡ (spec_calls 2 calls []).0
    × length (lru_calls calls (new_lru 2 blank)).0.order ≤ 2
lru_calls-Recent_example = lru_calls-Recent 2 blank calls

-- "b" was used least recently when "c" came.
lru_calls_test :
    (lru_calls calls (new_lru 2 blank)).1 ≡ some (delta "a" 1) ∷ none ∷ some (delta "a" 1) ∷ []
unfolding lru_calls lru_get lru_put put remove
lru_calls_test = refl

empty-Ready : Ready (scanned nothing) (new_lru 2 blank)
unfolding get
empty-Ready = (new_lru-WellFormed 2 blank, λ key r h. absurd (ground (arith, h)))

abbrev batch : List DeltaRecord
batch = delta "a" 1 ∷ delta "b" 0 ∷ delta "c" snapshot.posterior_version ∷ []

abbrev stored : (LruCache × Table)
stored = (put_batch functions batch (new_lru 2 blank) nothing).0

put_batch-Ready_example :
    let done = put_batch functions batch (new_lru 2 blank) nothing in
    Ready (scanned done.0.1) done.0.0
put_batch-Ready_example =
    put_batch-Ready functions itself written_table batch (new_lru 2 blank) nothing
      (refl, (refl, (refl, tt))) empty-Ready

abbrev found : Dict DeltaRecord
found = ("c", delta "c" 3) ∷ []

-- "c" comes from the cache, and "a" and "b" are of another posterior version.
get_batch_test :
    (get_batch functions "t"
      ("c" ∷ "a" ∷ "" ∷ "c" ∷ "b" ∷ [])
      snapshot
      (unix_epoch + 5)
      stored.0
      stored.1).1
    ≡ some found
unfolding get_batch put_batch put remove
get_batch_test = refl

get_batch-Served_example : Served (scanned stored.1) snapshot (unix_epoch + 5) found
get_batch-Served_example =
    get_batch-Served functions itself rows_in-Held "t" ("c" ∷ "a" ∷ "" ∷ "c" ∷ "b" ∷ []) snapshot
      (unix_epoch + 5) stored.0 stored.1 found put_batch-Ready_example get_batch_test

abbrev stored_one : (LruCache × Table)
stored_one = (put_batch functions (delta "a" 1 ∷ []) (new_lru 2 blank) nothing).0

-- A record that the cache knows is dropped, although the one before it in the batch replaces it.
put_batch_test :
    (put_batch functions (delta "a" 2 ∷ delta "a" 1 ∷ []) stored_one.0 stored_one.1).0.1 "t" "a"
    ≡ some (encode_record (delta "a" 2))
unfolding put_batch put remove
put_batch_test = refl

stored_all : (put_batch functions batch stored_one.0 stored_one.1).1 ≡ none
unfolding put_batch put remove
stored_all = refl

-- The first of the batch is known, and the others are written.
put_batch-Stored_example :
    All (Stored (scanned (put_batch functions batch stored_one.0 stored_one.1).0.1)) batch
put_batch-Stored_example =
    put_batch-Stored functions itself written_table batch stored_one.0 stored_one.1
      (refl, (refl, (refl, tt)))
      (put_batch-Ready functions itself written_table (delta "a" 1 ∷ []) (new_lru 2 blank) nothing
        (refl, tt) empty-Ready)
      (((refl, refl), ((refl, refl), tt)), (((refl, refl), tt), (tt, tt))) stored_all

-- An expiry at the epoch, or beyond the year 2262, is read as another one.
row_test :
    (scan_record (encode_record (record (delta "a" 1) { expires_at = unix_epoch }))).expires_at ≡ 0
    × (scan_record (
        encode_record
          (record (delta "a" 1) { expires_at = unix_epoch + 18446744073709551619 }))).expires_at
      ≡ unix_epoch + 3
unfolding scan_record encode_record
row_test = (refl, refl)
