-- ===== src/RankDelta/Batch/Coherent.antt =====
-- The cache and the database of the rank deltas: what is cached is what the database holds.
use eventframed.Prelude.{
  ℕ, suc, zero, String, Bool, true, false, ◌&&◌, Option, none, some, List, [], ◌∷◌, ◌≡◌, inl, inr,
  refl, ap, sym, ◌∙◌, subst, arith, str_eq, eq_iff, eq_refl, take, if◌then◌else◌, Option-cases,
  Bool-cases,
}
use eventframed.Prelude.Dict.{Dict, get, remove, get-remove}
use eventframed.RankDelta.{DeltaRecord, DeltaError, validate_record}
use eventframed.RankDelta.Cache.{LruCache, lru_get, lru_put}
use eventframed.RankDelta.Cache.Entries.{entries}
use eventframed.RankDelta.Cache.Refine.{
  WellFormed, spec_get, spec_put, spec_get_hit, spec_get_miss, spec_put_hit, spec_put_miss,
  lru_get-refines, lru_put-refines,
}
use eventframed.RankDelta.Batch.{cache_key, unknown_records, pending_records, cache_records}

abbrev pub Rows : Type 0
Rows = String → String → Option DeltaRecord

-- Each cached record stands under its own key and is the database's row.
abbrev pub Mirrored : Rows → Dict DeltaRecord → Type 0
Mirrored rows d =
    (key : String) (r : DeltaRecord)
    → get key d ≡ some r
    → cache_key r.tenant_id r.key ≡ key × rows r.tenant_id r.key ≡ some r

abbrev pub Ready : Rows → LruCache → Type 0
Ready rows c = WellFormed c × Mirrored rows (entries c)

-- An upsert of one record.
abbrev pub write_row : DeltaRecord → Rows → Rows
write_row r rows tenant_id key =
    if str_eq r.tenant_id tenant_id && str_eq r.key key then some r else rows tenant_id key

abbrev pub write_rows : List DeltaRecord → Rows → Rows
write_rows [] rows = rows
write_rows (r ∷ records) rows = write_rows records (write_row r rows)

get-moved :
    (key j : String) (d : Dict DeltaRecord) {r : DeltaRecord}
    → get key d ≡ some r
    → get j ((key, r) ∷ remove key d) ≡ get j d
unfolding get
get-moved key j d e = ground (arith, get-remove key j d, eq_iff key j)

get-spec_get : (key j : String) (d : Dict DeltaRecord) → get j (spec_get key d).0 ≡ get j d
get-spec_get key j d = elim (Option-cases (get key d)) [
  | inl e ↦ ap (λ p. get j p.0) (spec_get_miss d key e)
  | inr (r, e) ↦ ap (λ p. get j p.0) (spec_get_hit d key e) ∙ get-moved key j d e
]

spec_get-get : (key : String) (d : Dict DeltaRecord) → (spec_get key d).1 ≡ get key d
spec_get-get key d = elim (Option-cases (get key d)) [
  | inl e ↦ ap (λ p. p.1) (spec_get_miss d key e) ∙ sym e
  | inr (r, e) ↦ ap (λ p. p.1) (spec_get_hit d key e) ∙ sym e
]

get-take :
    {V : Type 0} (n : ℕ) (j : String) (d : Dict V) {r : V}
    → get j (take n d) ≡ some r
    → get j d ≡ some r
unfolding get
get-take zero j d h = absurd (ground arith)
get-take (suc n) j [] h = absurd (ground arith)
get-take (suc n) j ((i, w) ∷ d) {r} h = elim (Bool-cases (str_eq i j)) [
  | inl hit ↦ ground arith
  | inr miss ↦ ground (arith, get-take n j d {r = r})
]

get-front :
    (key j : String) (new : DeltaRecord) (d : Dict DeltaRecord)
    → get j ((key, new) ∷ remove key d) ≡ (if str_eq key j then some new else get j d)
unfolding get
get-front key j new d = ground (arith, get-remove key j d)

get-spec_put :
    (n : ℕ) (key j : String) (new : DeltaRecord) (d : Dict DeltaRecord) {r : DeltaRecord}
    → get j (spec_put n key new d) ≡ some r
    → (if str_eq key j then some new else get j d) ≡ some r
unfolding get
get-spec_put n key j new d {r} h = elim (Option-cases (get key d)) [
  | inl e ↦ get-take n j ((key, new) ∷ d) (ap (get j) (sym (spec_put_miss n d key new e)) ∙ h)
  | inr (old, e) ↦ sym (get-front key j new d) ∙ ap (get j) (sym (spec_put_hit n d key new e)) ∙ h
]

pub lru_get-Ready :
    (rows : Rows) (key : String) (c : LruCache) → Ready rows c → Ready rows (lru_get key c).0
lru_get-Ready rows key c (well, mirrored) =
    let (after, same, found) = lru_get-refines key c well in
    (
      after,
      λ j r h. mirrored j r (sym (get-spec_get key j (entries c)) ∙ ap (get j) (sym same) ∙ h),
    )

-- What a read finds is the database's row.
pub lru_get-row :
    (rows : Rows) (key : String) (c : LruCache) {r : DeltaRecord}
    → Ready rows c
    → (lru_get key c).1 ≡ some r
    → rows r.tenant_id r.key ≡ some r
lru_get-row rows key c {r} (well, mirrored) h =
    let (after, same, found) = lru_get-refines key c well in
    (mirrored key r (sym (spec_get-get key (entries c)) ∙ sym found ∙ h)).1

pub hit_same :
    {V : Type 0} {b : Bool} (v w : V) (old : Option V)
    → b ≡ true
    → (if b then some v else old) ≡ some w
    → v ≡ w
hit_same v w old h e = grind (arith, h, e)

pub if_miss :
    {V : Type 0} {b : Bool} (v : V) (old new : Option V)
    → b ≡ false
    → (if b then some v else old) ≡ new
    → old ≡ new
if_miss v old new h e = ground (arith, h, e)

written :
    (rows : Rows) (r x : DeltaRecord) (j : String)
    → str_eq (cache_key r.tenant_id r.key) j ≡ true
    → r ≡ x
    → cache_key x.tenant_id x.key ≡ j × write_row r rows x.tenant_id x.key ≡ some x
written rows r x j hit same =
    subst (λ y. cache_key y.tenant_id y.key ≡ j × write_row r rows y.tenant_id y.key ≡ some y) same
      (
        ground (arith, hit, eq_iff (cache_key r.tenant_id r.key) j),
        rw (eq_refl r.tenant_id, eq_refl r.key) refl,
      )

passed_over :
    (rows : Rows) (r x : DeltaRecord) (j : String)
    → str_eq (cache_key r.tenant_id r.key) j ≡ false
    → cache_key x.tenant_id x.key ≡ j × rows x.tenant_id x.key ≡ some x
    → cache_key x.tenant_id x.key ≡ j × write_row r rows x.tenant_id x.key ≡ some x
passed_over rows r x j miss (key, row) = (
  key,
  ground (
    arith,
    eq_iff (cache_key r.tenant_id r.key) j,
    eq_iff r.tenant_id x.tenant_id,
    eq_iff r.key x.key,
  ),
)

pub lru_put-Ready :
    (rows : Rows) (r : DeltaRecord) (c : LruCache)
    → Ready rows c
    → Ready (write_row r rows) (lru_put (cache_key r.tenant_id r.key) r c)
lru_put-Ready rows r c (well, mirrored) =
    let (after, same) = lru_put-refines (cache_key r.tenant_id r.key) r c well in
    (
      after,
      λ j x h.
          let found =
            get-spec_put c.capacity (cache_key r.tenant_id r.key) j r (entries c)
              (ap (get j) (sym same) ∙ h) in
          elim (Bool-cases (str_eq (cache_key r.tenant_id r.key) j)) [
            | inl hit ↦ written rows r x j hit (hit_same r x (get j (entries c)) hit found)
            | inr miss ↦
                passed_over rows r x j miss
                  (mirrored j x (if_miss r (get j (entries c)) (some x) miss found))
          ],
    )

pub cache_records-Ready :
    (records : List DeltaRecord) (rows : Rows) (c : LruCache)
    → Ready rows c
    → Ready (write_rows records rows) (cache_records records c)
unfolding cache_records
cache_records-Ready [] rows c ready = ready
cache_records-Ready (r ∷ records) rows c ready =
    cache_records-Ready records (write_row r rows) (lru_put (cache_key r.tenant_id r.key) r c)
      (lru_put-Ready rows r c ready)

pub unknown_records-Ready :
    (records : List DeltaRecord) (rows : Rows) (c : LruCache)
    → Ready rows c
    → Ready rows (unknown_records records c).0
unfolding unknown_records
unknown_records-Ready [] rows c ready = ready
unknown_records-Ready (r ∷ records) rows c ready =
    unknown_records-Ready records rows (lru_get (cache_key r.tenant_id r.key) c).0
      (lru_get-Ready rows (cache_key r.tenant_id r.key) c ready)

validated :
    (records : List DeltaRecord) (r : DeltaRecord) (c : LruCache)
    → validate_record r ≡ none
    → (pending_records (r ∷ records) c).0
      ≡ (pending_records records (lru_get (cache_key r.tenant_id r.key) c).0).0
unfolding pending_records
validated records r c e = ground (arith, e)

refused :
    (records : List DeltaRecord) (r : DeltaRecord) (c : LruCache) (reason : DeltaError)
    → validate_record r ≡ some reason
    → (pending_records (r ∷ records) c).0 ≡ c
unfolding pending_records
refused records r c reason e = ground (arith, e)

pub pending_records-Ready :
    (records : List DeltaRecord) (rows : Rows) (c : LruCache)
    → Ready rows c
    → Ready rows (pending_records records c).0
unfolding pending_records
pending_records-Ready [] rows c ready = ready
pending_records-Ready (r ∷ records) rows c ready =
    let rest =
      pending_records-Ready records rows (lru_get (cache_key r.tenant_id r.key) c).0
        (lru_get-Ready rows (cache_key r.tenant_id r.key) c ready) in
    elim (Option-cases (validate_record r)) [
      | inl e ↦ subst (Ready rows) (sym (validated records r c e)) rest
      | inr (reason, e) ↦ subst (Ready rows) (sym (refused records r c reason e)) ready
    ]
