-- ===== src/RankDelta/Batch/Tables.antt =====
-- The rows of a table and the records that they are read as.
use eventframed.Prelude.{
  String, true, ◌&&◌, Option, none, some, List, [], ◌∷◌, ◌≡◌, inl, inr, refl, ap, ◌∙◌, str_eq,
  if◌then◌else◌, map, All, Bool-cases,
}
use eventframed.RankDelta.{DeltaRecord}
use eventframed.RankDelta.Row.{
  DeltaRow, encode_record, scan_record, storable, scan_record-encode_record,
}
use eventframed.RankDelta.Batch.Coherent.{Rows, write_row, write_rows}

-- The rows of a table by tenant and key, the primary key.
abbrev pub Table : Type 0
Table = String → String → Option DeltaRow

-- An upsert of one row, and of rows in order.
abbrev pub write_raw : DeltaRow → Table → Table
write_raw row table tenant_id key =
    if str_eq row.tenant_id tenant_id && str_eq row.key key then some row else table tenant_id key

abbrev pub write_raws : List DeltaRow → Table → Table
write_raws [] table = table
write_raws (row ∷ rows) table = write_raws rows (write_raw row table)

abbrev scanned_row : Option DeltaRow → Option DeltaRecord
scanned_row none = none
scanned_row (some row) = some (scan_record row)

-- The records that scanRecord makes of the rows.
abbrev pub scanned : Table → Rows
scanned table tenant_id key = scanned_row (table tenant_id key)

abbrev pub Storable : DeltaRecord → Type 0
Storable r = storable r ≡ true

scanned-write_raw :
    (r : DeltaRecord) (table : Table)
    → Storable r
    → scanned (write_raw (encode_record r) table) ≡ write_row r (scanned table)
unfolding encode_record
scanned-write_raw r table h i t k = at t k i
  where
    at :
        (t k : String)
        → scanned (write_raw (encode_record r) table) t k ≡ write_row r (scanned table) t k
    at t k = elim (Bool-cases (str_eq r.tenant_id t && str_eq r.key k)) [
      | inl same ↦ rw same (ap some (scan_record-encode_record r h))
      | inr differs ↦ rw differs refl
    ]

pub scanned-write_raws :
    (records : List DeltaRecord) (table : Table)
    → All Storable records
    → scanned (write_raws (map encode_record records) table) ≡ write_rows records (scanned table)
scanned-write_raws [] table h = refl
scanned-write_raws (r ∷ records) table (here, rest) =
    scanned-write_raws records (write_raw (encode_record r) table) rest
    ∙ ap (write_rows records) (scanned-write_raw r table here)

-- A row that the table holds is read as the record that the table shows.
pub held-scanned :
    (table : Table) (row : DeltaRow)
    → table row.tenant_id row.key ≡ some row
    → scanned table (scan_record row).tenant_id (scan_record row).key ≡ some (scan_record row)
unfolding scan_record
held-scanned table row h = ap scanned_row h

pub held_all-scanned :
    (table : Table) (rows : List DeltaRow)
    → All (λ row. table row.tenant_id row.key ≡ some row) rows
    → All
        (λ row.
          scanned table (scan_record row).tenant_id (scan_record row).key ≡ some (scan_record row))
        rows
held_all-scanned table [] h = tt
held_all-scanned table (row ∷ rows) (here, rest) =
    (held-scanned table row here, held_all-scanned table rows rest)
