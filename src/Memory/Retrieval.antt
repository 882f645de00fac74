-- ===== src/Memory/Retrieval.antt =====
-- internal/store/memorystore/store.go: the reads of events, and the store's statistics.
use eventframed.Prelude.{
  ℕ, ◌+◌, String, Bool, not, ◌||◌, Option, none, some, List, [], ◌∷◌, ◌==◌, if◌then◌else◌, length,
  take, true, ◌&&◌, ◌≡◌, all,
}
use eventframed.Prelude.Dict.{Dict, inner, get2}
use eventframed.Prelude.Float64.{Float64, is_nan, lt_f, zero_f, eq_f}
use mathlib.Core.List.{Perm}
use eventframed.Model.Snapshot.{Time, after}
use eventframed.Model.Event.{Event}
use eventframed.Store.{Result, ok, err, event_not_found, SearchResult, Stats}
use eventframed.Memory.{Entry, Store}

-- The float operations of `cosine`, which Go gives.
pub record FloatOps : Type 0 where
  pub add : Float64 → Float64 → Float64
  pub mul : Float64 → Float64 → Float64
  pub div : Float64 → Float64 → Float64
  pub sqrt : Float64 → Float64

module _ (ops : FloatOps) where
  open ops use {add, mul, div, sqrt}

  dot : Float64 → List Float64 → List Float64 → Float64
  dot acc (l ∷ ls) (r ∷ rs) = dot (add acc (mul l r)) ls rs
  dot acc _ _ = acc

  -- cosine
  unfoldable pub cosine : List Float64 → List Float64 → Float64
  unfolding dot
  cosine left right =
      let left_norm = dot zero_f left left in
      let right_norm = dot zero_f right right in
      if not (length left == length right) || length left == 0
      then zero_f
      else if eq_f left_norm zero_f || eq_f right_norm zero_f
      then zero_f
      else div (dot zero_f left right) (sqrt (mul left_norm right_norm))

  -- The loop of `Search` over the entries of a tenant, in the order in which this call visits them.
  unfoldable pub search_hits : Dict Entry → List Float64 → Time → List SearchResult
  unfolding cosine
  search_hits [] vector available_by = []
  search_hits ((id, e) ∷ rest) vector available_by =
      let hits = search_hits rest vector available_by in
      if after e.event.available_at available_by
      then hits
      else record { event = e.event; similarity = cosine vector e.vector; retrieval_metadata = [] }
        ∷ hits

  -- Search, by the order of its iteration and what sort.Slice makes of the hits
  unfoldable pub search_events :
      Dict Entry
      → (List SearchResult → List SearchResult)
      → List Float64
      → Time
      → ℕ
      → List SearchResult
  unfolding search_hits
  search_events order sort_slice vector available_by limit =
      take limit (sort_slice (search_hits order vector available_by))

abbrev pub more_similar : SearchResult → SearchResult → Bool
more_similar a b = lt_f b.similarity a.similarity

abbrev pub numbers : List SearchResult → Bool
numbers hits = all (λ (x : SearchResult). not (is_nan x.similarity)) hits

abbrev pub in_order : List SearchResult → Bool
in_order [] = true
in_order (x ∷ xs) = all (λ y. not (more_similar y x)) xs && in_order xs

-- sort.Slice returns the elements in some order, and where the test orders them, which a NaN spoils,
-- none stands behind a less similar one. It is not stable.
pub record Slices (hits sorted : List SearchResult) : Type 0 where
  pub same : Perm sorted hits
  pub descending : numbers sorted ≡ true → in_order sorted ≡ true

-- An answer that `Search` may give: a map is visited in any order.
pub record MayAnswer (ops : FloatOps) (s : Store) (tenant_id : String) (vector : List Float64)
    (available_by : Time) (limit : ℕ) (answer : List SearchResult) : Type 0 where
  pub order : Dict Entry
  pub visits : Perm order (inner tenant_id s.entries)
  pub sort_slice : List SearchResult → List SearchResult
  pub slices :
      Slices
        (search_hits ops order vector available_by)
        (sort_slice (search_hits ops order vector available_by))
  pub answers : answer ≡ search_events ops order sort_slice vector available_by limit

-- One event of `getEvents`.
unfoldable pub hydrate : Time → Bool → Option Entry → Option Event
hydrate available_by hydrate_vectors none = none
hydrate available_by hydrate_vectors (some item) =
    if after item.event.available_at available_by
    then none
    else some (record item.event { embedding = if hydrate_vectors then item.vector else [] })

abbrev pub cons_event : Option Event → Result (List Event) → Result (List Event)
cons_event none rest = err event_not_found
cons_event (some event) (ok events) = ok (event ∷ events)
cons_event (some event) (err e) = err e

-- getEvents
unfoldable pub get_events : Store → String → List String → Time → Bool → Result (List Event)
unfolding hydrate
get_events s tenant_id [] available_by hydrate_vectors = ok []
get_events s tenant_id (id ∷ ids) available_by hydrate_vectors =
    cons_event (hydrate available_by hydrate_vectors (get2 tenant_id id s.entries))
      (get_events s tenant_id ids available_by hydrate_vectors)

abbrev sum_sizes : Dict (Dict Entry) → ℕ
sum_sizes [] = 0
sum_sizes ((t, m) ∷ rest) = length m + sum_sizes rest

-- Stats
unfoldable pub stats : Store → Stats
stats s = record {
  backend = "memory";
  tenants = length s.entries;
  events = sum_sizes s.entries;
  memory_bytes = 0;
}
