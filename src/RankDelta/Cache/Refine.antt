-- ===== src/RankDelta/Cache/Refine.antt =====
-- The cache as an association list, the most recent entry first, that holds `capacity` entries.
use eventframed.Prelude.{
  ℕ, suc, ◌≤◌, String, Option, none, some, ◌∷◌, ◌≡◌, inl, inr, refl, ap, sym, ◌∙◌, arith, ltb, ==→≡,
  length, take, if◌then◌else◌, Bool-cases, Option-cases,
}
use eventframed.Prelude.Dict.{Dict, get, remove}
use eventframed.RankDelta.{DeltaRecord}
use eventframed.RankDelta.Cache.{
  LruCache, move_to_front, back, write_cell, lru_get, evict, pushed, lru_put,
}
use eventframed.RankDelta.Cache.Shape.{
  shown, length-drop_element, back-nat_mem, back-none, take-fits, length-shown, drop_element-back,
  shown-take,
}
use eventframed.RankDelta.Cache.Linked.{Linked, touched-Linked, pushed-Linked, evict-Linked}
use eventframed.RankDelta.Cache.Entries.{
  entries, get-shown_absent, only_miss, put_miss_entries, put_hit_entries, hit_entries, hit_length,
  hit_front,
}

abbrev pub WellFormed : LruCache → Type 0
WellFormed c = Linked c × length c.order ≤ c.capacity

-- What the cache does to its entries.
abbrev pub spec_get : String → Dict DeltaRecord → Dict DeltaRecord × Option DeltaRecord
spec_get key d = elim (get key d) [ none ↦ (d, none) | some r ↦ ((key, r) ∷ remove key d, some r) ]

abbrev pub spec_put : ℕ → String → DeltaRecord → Dict DeltaRecord → Dict DeltaRecord
spec_put capacity key r d = elim (get key d) [
  | none ↦ take capacity ((key, r) ∷ d)
  | some old ↦ (key, r) ∷ remove key d
]

lru_get_hit :
    (c : LruCache) (key : String) {e : ℕ}
    → get key c.items ≡ some e
    → lru_get key c ≡ (record c { order = move_to_front e c.order }, some (c.cells e).delta_record)
unfolding lru_get
lru_get_hit c key h = rw (h, lru_get) refl

lru_get_miss : (c : LruCache) (key : String) → get key c.items ≡ none → lru_get key c ≡ (c, none)
unfolding lru_get
lru_get_miss c key h = rw (h, lru_get) refl

lru_put_hit :
    (c : LruCache) (key : String) (r : DeltaRecord) {e : ℕ}
    → get key c.items ≡ some e
    → lru_put key r c ≡ record c {
      order = move_to_front e c.order;
      cells = write_cell e (record { key = key; delta_record = r }) c.cells;
    }
unfolding lru_put
lru_put_hit c key r h = rw (h, lru_put) refl

lru_put_miss :
    (c : LruCache) (key : String) (r : DeltaRecord)
    → get key c.items ≡ none
    → lru_put key r c ≡ (
        if ltb c.capacity (length (pushed key r c).order)
        then evict (back (pushed key r c).order) (pushed key r c)
        else pushed key r c)
unfolding lru_put
lru_put_miss c key r h = rw (h, lru_put) refl

pub spec_get_hit :
    (d : Dict DeltaRecord) (key : String) {r : DeltaRecord}
    → get key d ≡ some r
    → spec_get key d ≡ ((key, r) ∷ remove key d, some r)
spec_get_hit d key h = rw (h, spec_get) refl

pub spec_get_miss :
    (d : Dict DeltaRecord) (key : String) → get key d ≡ none → spec_get key d ≡ (d, none)
spec_get_miss d key h = rw (h, spec_get) refl

pub spec_put_hit :
    (n : ℕ) (d : Dict DeltaRecord) (key : String) (new : DeltaRecord) {r : DeltaRecord}
    → get key d ≡ some r
    → spec_put n key new d ≡ (key, new) ∷ remove key d
spec_put_hit n d key new h = rw (h, spec_put) refl

pub spec_put_miss :
    (n : ℕ) (d : Dict DeltaRecord) (key : String) (new : DeltaRecord)
    → get key d ≡ none
    → spec_put n key new d ≡ take n ((key, new) ∷ d)
spec_put_miss n d key new h = rw (h, spec_put) refl

-- A read agrees with the association list's, and leaves a cache well formed.
pub lru_get-refines :
    (key : String) (c : LruCache)
    → WellFormed c
    → WellFormed (lru_get key c).0
      × entries (lru_get key c).0 ≡ (spec_get key (entries c)).0
      × (lru_get key c).1 ≡ (spec_get key (entries c)).1
lru_get-refines key c (l, small) = elim (Option-cases (get key c.items)) [
  | inl e ↦
      let absent = get-shown_absent c.cells key c.order (only_miss c l key e) in
      rw (lru_get_miss c key e) (
        (l, small),
        ap (λ p. p.0) (sym (spec_get_miss (entries c) key absent)),
        ap (λ p. p.1) (sym (spec_get_miss (entries c) key absent)),
      )
  | inr (e, h) ↦
      let here = spec_get_hit (entries c) key (hit_entries c l key h) in
      rw (lru_get_hit c key h) (
        (touched-Linked c l key c.cells h (λ f. refl), omega (arith, hit_length c l key h, small)),
        hit_front c l key h ∙ ap (λ p. p.0) (sym here),
        ap (λ p. p.1) (sym here),
      )
]

-- A full cache forgets its oldest entry.
evict_full :
    (c : LruCache) (n : ℕ)
    → Linked c
    → length c.order ≡ suc n
    → n ≤ c.capacity
    → WellFormed (evict (back c.order) c) × entries (evict (back c.order) c) ≡ take n (entries c)
unfolding evict
evict_full c n l full small = elim (Option-cases (back c.order)) [
  | inl e ↦ absurd (omega (arith, back-none c.order e, full))
  | inr (z, h) ↦
      let here = back-nat_mem c.order h in
      rw h (
        (
          evict-Linked c l h,
          omega (arith, length-drop_element z c.order l.single here, full, small),
        ),
        ap (shown c.cells) (drop_element-back c.order l.single h n full)
            ∙ shown-take c.cells n c.order,
      )
]

put_absent :
    (c : LruCache) (l : Linked c) (key : String) (r : DeltaRecord)
    → get key c.items ≡ none
    → length c.order ≤ c.capacity
    → let after =
        if ltb c.capacity (length (pushed key r c).order)
        then evict (back (pushed key r c).order) (pushed key r c)
        else pushed key r c in
      WellFormed after × entries after ≡ take c.capacity ((key, r) ∷ entries c)
put_absent c l key r h small =
    let next = pushed-Linked c l key r h in
    elim (Bool-cases (ltb c.capacity (length (pushed key r c).order))) [
      | inl over ↦
          let (well, same) =
            evict_full (pushed key r c) c.capacity next (ground (arith, over, small))
              (ground arith) in
          rw over (well, same ∙ ap (take c.capacity) (put_miss_entries c l key r))
      | inr fits ↦ rw fits (
        (next, ground (arith, fits)),
        put_miss_entries c l key r
            ∙ sym (
                take-fits c.capacity ((key, r) ∷ entries c)
                  (ground (arith, fits, length-shown c.cells c.order))),
      )
    ]

-- A write agrees with the association list's, and leaves a cache well formed.
pub lru_put-refines :
    (key : String) (r : DeltaRecord) (c : LruCache)
    → WellFormed c
    → WellFormed (lru_put key r c)
      × entries (lru_put key r c) ≡ spec_put c.capacity key r (entries c)
lru_put-refines key r c (l, small) = elim (Option-cases (get key c.items)) [
  | inl e ↦
      let absent = get-shown_absent c.cells key c.order (only_miss c l key e) in
      rw (lru_put_miss c key r e, spec_put_miss c.capacity (entries c) key r absent)
        (put_absent c l key r e small)
  | inr (e, h) ↦
      rw (lru_put_hit c key r h, spec_put_hit c.capacity (entries c) key r (hit_entries c l key h))
        (
          (
            touched-Linked c l key (write_cell e (record { key = key; delta_record = r }) c.cells) h
                (λ f. ground (arith, ==→≡ f e, l.keyed key h)),
            omega (arith, hit_length c l key h, small),
          ),
          put_hit_entries c l key r h,
        )
]
