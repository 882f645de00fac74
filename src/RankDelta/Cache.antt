-- ===== src/RankDelta/Cache.antt =====
-- internal/rankdelta/store.go: `lruCache`, whose elements are places of a heap that the list and the
-- map share.
pub mod Shape
pub mod Linked
pub mod Entries
pub mod Refine
pub mod Calls
use eventframed.Prelude.{
  ℕ, zero, suc, ◌+◌, String, Bool, true, false, not, Option, none, some, List, [], ◌∷◌, ltb, ◌==◌,
  length, if◌then◌else◌,
}
use eventframed.Prelude.Dict.{Dict, get, put, remove}
use eventframed.RankDelta.{DeltaRecord}

pub record CacheEntry : Type 0 where
  pub key : String
  pub delta_record : DeltaRecord

-- `order` has the most recent element first; `next` is the next free place.
pub record LruCache : Type 0 where
  pub capacity : ℕ
  pub items : Dict ℕ
  pub order : List ℕ
  pub cells : ℕ → CacheEntry
  pub next : ℕ

-- newLRU; the cells that are not in use hold anything.
abbrev pub new_lru : ℕ → CacheEntry → LruCache
new_lru capacity blank = record {
  capacity = capacity;
  items = [];
  order = [];
  cells = λ e. blank;
  next = 0;
}

-- order.Remove
unfoldable pub drop_element : ℕ → List ℕ → List ℕ
drop_element e [] = []
drop_element e (x ∷ xs) = let rest = drop_element e xs in if x == e then rest else x ∷ rest

-- order.MoveToFront
unfoldable pub move_to_front : ℕ → List ℕ → List ℕ
unfolding drop_element
move_to_front e order = e ∷ drop_element e order

-- order.Back
unfoldable pub back : List ℕ → Option ℕ
back [] = none
back (x ∷ []) = some x
back (x ∷ y ∷ xs) = back (y ∷ xs)

-- element.Value = …
abbrev pub write_cell : ℕ → CacheEntry → (ℕ → CacheEntry) → ℕ → CacheEntry
write_cell e entry cells f = if f == e then entry else cells f

-- lruCache.get
unfoldable pub lru_get : String → LruCache → LruCache × Option DeltaRecord
unfolding move_to_front get
lru_get key c = elim (get key c.items) [
  | none ↦ (c, none)
  | some e ↦ (record c { order = move_to_front e c.order }, some (c.cells e).delta_record)
]

-- The removal of the oldest element.
unfoldable pub evict : Option ℕ → LruCache → LruCache
unfolding drop_element
evict none c = c
evict (some oldest) c = record c {
  items = remove (c.cells oldest).key c.items;
  order = drop_element oldest c.order;
}

abbrev pub pushed : String → DeltaRecord → LruCache → LruCache
pushed key r c = record c {
  items = put key c.next c.items;
  order = c.next ∷ c.order;
  cells = write_cell c.next (record { key = key; delta_record = r }) c.cells;
  next = suc c.next;
}

-- lruCache.put
unfoldable pub lru_put : String → DeltaRecord → LruCache → LruCache
unfolding move_to_front get evict back
lru_put key r c = elim (get key c.items) [
  | some e ↦ record c {
    order = move_to_front e c.order;
    cells = write_cell e (record { key = key; delta_record = r }) c.cells;
  }
  | none ↦
      if ltb c.capacity (length (pushed key r c).order)
      then evict (back (pushed key r c).order) (pushed key r c)
      else pushed key r c
]

-- A call of the cache, and the calls one after another with what the reads returned. Each call
-- holds the lock from its start to its end.
pub data LruCall : Type 0 where
  read : (key : String) → LruCall
  write : (key : String) → (delta_record : DeltaRecord) → LruCall

unfoldable pub lru_calls : List LruCall → LruCache → LruCache × List (Option DeltaRecord)
lru_calls [] c = (c, [])
lru_calls (read key ∷ calls) c =
    let rest = lru_calls calls (lru_get key c).0 in (rest.0, (lru_get key c).1 ∷ rest.1)
lru_calls (write key r ∷ calls) c = lru_calls calls (lru_put key r c)
