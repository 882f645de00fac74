-- ===== src/RankDelta/Cache/Calls.antt =====
-- All the calls of a cache from its creation on.
use eventframed.Prelude.{
  ℕ, ◌≤◌, String, Option, none, some, List, [], ◌∷◌, ◌≡◌, refl, subst, ap, ap₂, ◌∙◌, arith, length,
}
use eventframed.Prelude.Dict.{Dict, get}
use eventframed.RankDelta.{DeltaRecord}
use eventframed.RankDelta.Cache.{
  CacheEntry, LruCache, new_lru, lru_get, lru_put, evict, pushed, back, LruCall, read, write,
  lru_calls,
}
use eventframed.RankDelta.Cache.Entries.{entries}
use eventframed.RankDelta.Cache.Refine.{
  WellFormed, spec_get, spec_put, lru_get-refines, lru_put-refines,
}

-- The calls on an association list of at most `capacity` entries.
unfoldable pub spec_calls :
    ℕ → List LruCall → Dict DeltaRecord → Dict DeltaRecord × List (Option DeltaRecord)
spec_calls n [] d = (d, [])
spec_calls n (read key ∷ calls) d =
    let rest = spec_calls n calls (spec_get key d).0 in (rest.0, (spec_get key d).1 ∷ rest.1)
spec_calls n (write key r ∷ calls) d = spec_calls n calls (spec_put n key r d)

pub new_lru-WellFormed : (capacity : ℕ) (blank : CacheEntry) → WellFormed (new_lru capacity blank)
unfolding get
new_lru-WellFormed capacity blank = (
  record {
    single = refl;
    old = λ e m. absurd (ground (arith, m));
    listed = λ key {e = f} g. absurd (ground (arith, g));
    keyed = λ key {e = f} g. absurd (ground (arith, g));
    found = λ e m. absurd (ground (arith, m));
  },
  omega arith,
)

lru_get-capacity : (key : String) (c : LruCache) → (lru_get key c).0.capacity ≡ c.capacity
unfolding lru_get
lru_get-capacity key c = ground arith

evict-capacity : (x : Option ℕ) (c : LruCache) → (evict x c).capacity ≡ c.capacity
unfolding evict
evict-capacity none c = refl
evict-capacity (some oldest) c = refl

lru_put-capacity :
    (key : String) (r : DeltaRecord) (c : LruCache) → (lru_put key r c).capacity ≡ c.capacity
unfolding lru_put
lru_put-capacity key r c = ground (arith, evict-capacity (back (c.next ∷ c.order)) (pushed key r c))

abbrev Agrees : LruCache → List LruCall → Type 0
Agrees c calls =
    entries (lru_calls calls c).0 ≡ (spec_calls c.capacity calls (entries c)).0
    × (lru_calls calls c).1 ≡ (spec_calls c.capacity calls (entries c)).1

lru_calls-refines : (calls : List LruCall) (c : LruCache) → WellFormed c → Agrees c calls
unfolding lru_calls spec_calls
lru_calls-refines [] c well = (refl, refl)
lru_calls-refines (read key ∷ calls) c well =
    let (after, same, found) = lru_get-refines key c well in
    let (shows, reads) = lru_calls-refines calls (lru_get key c).0 after in
    let start = ap₂ (λ n d. spec_calls n calls d) (lru_get-capacity key c) same in
    (shows ∙ ap (λ p. p.0) start, ap₂ (λ x l. x ∷ l) found (reads ∙ ap (λ p. p.1) start))
lru_calls-refines (write key r ∷ calls) c well =
    let (after, same) = lru_put-refines key r c well in
    let (shows, reads) = lru_calls-refines calls (lru_put key r c) after in
    let start = ap₂ (λ n d. spec_calls n calls d) (lru_put-capacity key r c) same in
    (shows ∙ ap (λ p. p.0) start, reads ∙ ap (λ p. p.1) start)

lru_calls-fits :
    (calls : List LruCall) (c : LruCache)
    → WellFormed c
    → length (lru_calls calls c).0.order ≤ c.capacity
unfolding lru_calls
lru_calls-fits [] c (l, small) = small
lru_calls-fits (read key ∷ calls) c well =
    subst (λ n. length (lru_calls calls (lru_get key c).0).0.order ≤ n) (lru_get-capacity key c)
      (lru_calls-fits calls (lru_get key c).0 (lru_get-refines key c well).0)
lru_calls-fits (write key r ∷ calls) c well =
    subst (λ n. length (lru_calls calls (lru_put key r c)).0.order ≤ n) (lru_put-capacity key r c)
      (lru_calls-fits calls (lru_put key r c) (lru_put-refines key r c well).0)

-- From its creation on, whatever is read and written, the cache returns what an association list of
-- the `capacity` last used keys returns, its list shows that one's entries, and there are at most
-- `capacity` of them.
pub lru_calls-Recent :
    (capacity : ℕ) (blank : CacheEntry) (calls : List LruCall)
    → (lru_calls calls (new_lru capacity blank)).1 ≡ (spec_calls capacity calls []).1
      × entries (lru_calls calls (new_lru capacity blank)).0 ≡ (spec_calls capacity calls []).0
      × length (lru_calls calls (new_lru capacity blank)).0.order ≤ capacity
lru_calls-Recent capacity blank calls =
    let (shows, reads) =
      lru_calls-refines calls (new_lru capacity blank) (new_lru-WellFormed capacity blank) in
    (
      reads,
      shows,
      lru_calls-fits calls (new_lru capacity blank) (new_lru-WellFormed capacity blank),
    )
