-- ===== src/Memory/History/View.antt =====
-- The events that a retrieval as of a fixed time can see, and their answers.
use eventframed.Prelude.{
  ℕ, ◌<◌, String, Bool, true, false, ◌&&◌, List, [], ◌∷◌, Option, none, some, ◌≡◌, refl, sym, ap,
  ap₂, ◌∙◌, arith, str_eq, eq_iff, if◌then◌else◌, ◌↔◌, subst, inl, inr, Bool-cases,
}
use eventframed.Prelude.Dict.{Dict, get, put, inner, get2, put2, get2-put2}
use eventframed.Prelude.Dict.Each.{inner-put2}
use eventframed.Prelude.Float64.{Float64}
use mathlib.Core.List.{Perm, filter_map}
use mathlib.Core.List.Perm
use eventframed.Store.{SearchResult}
use eventframed.Model.Snapshot.{Time, after}
use eventframed.Memory.{Entry, Store}
use eventframed.Memory.Retrieval.{
  FloatOps, search_hits, search_events, get_events, hydrate, cons_event, cosine, MayAnswer,
}

abbrev pub seen : Time → Option Entry → Option Entry
seen as_of none = none
seen as_of (some e) = if after e.event.available_at as_of then none else some e

unfoldable pub visible : Time → Dict Entry → Dict Entry
visible as_of [] = []
visible as_of ((id, e) ∷ rest) =
    let later = visible as_of rest in
    if after e.event.available_at as_of then later else (id, e) ∷ later

-- Two tables of entries that no retrieval as of `as_of` tells apart.
pub record SameRecall (as_of : Time) (c d : Dict (Dict Entry)) : Type 0 where
  pub found : (tenant id : String) → seen as_of (get2 tenant id d) ≡ seen as_of (get2 tenant id c)
  pub hits : (tenant : String) → visible as_of (inner tenant d) ≡ visible as_of (inner tenant c)

visible-put :
    (as_of : Time) (k : String) (e : Entry) (m : Dict Entry)
    → as_of < e.event.available_at
    → get k m ≡ none
    → visible as_of (put k e m) ≡ visible as_of m
unfolding visible put get
visible-put as_of k e [] later absent = ground arith
visible-put as_of k e ((j, x) ∷ m) later absent = ground (arith, visible-put as_of k e m later)

pub put-SameRecall :
    (as_of : Time) (d : Dict (Dict Entry)) (tenant k : String) (e : Entry)
    → as_of < e.event.available_at
    → get2 tenant k d ≡ none
    → SameRecall as_of d (put2 tenant k e d)
unfolding get2
put-SameRecall as_of d tenant k e later absent = record {
  found = λ u j. rw get2-put2 (found_at u j);
  hits = λ u. rw inner-put2 (hits_at u (str_eq tenant u) refl);
}
  where
    found_at :
        (u j : String)
        → seen as_of (if str_eq tenant u && str_eq k j then some e else get2 u j d)
          ≡ seen as_of (get2 u j d)
    found_at u j = ground (arith, eq_iff tenant u, eq_iff k j)

    hits_at :
        (u : String) (b : Bool)
        → str_eq tenant u ≡ b
        → visible as_of (if b then put k e (inner tenant d) else inner u d)
          ≡ visible as_of (inner u d)
    hits_at u true same =
        visible-put as_of k e (inner tenant d) later absent
        ∙ ap (λ x. visible as_of (inner x d)) ((eq_iff tenant u).0 same)
    hits_at u false differs = refl

-- `getEvents` looks at nothing else.
pub get_events-SameRecall :
    (as_of : Time) (s t : Store) (tenant : String) (ids : List String) (hydrated : Bool)
    → SameRecall as_of s.entries t.entries
    → get_events t tenant ids as_of hydrated ≡ get_events s tenant ids as_of hydrated
unfolding get_events
get_events-SameRecall as_of s t tenant [] hydrated same = refl
get_events-SameRecall as_of s t tenant (id ∷ ids) hydrated same =
    ap₂ cons_event
      (hydrate_seen (get2 tenant id t.entries)
        ∙ ap (hydrate as_of hydrated) (same.found tenant id)
        ∙ sym (hydrate_seen (get2 tenant id s.entries)))
      (get_events-SameRecall as_of s t tenant ids hydrated same)
  where
    hydrate_seen :
        (o : Option Entry) → hydrate as_of hydrated o ≡ hydrate as_of hydrated (seen as_of o)
    hydrate_seen none = refl
    hydrate_seen (some e) = ground arith

module _ (ops : FloatOps) where
  search_hits-visible :
      (m : Dict Entry) (vector : List Float64) (as_of : Time)
      → search_hits ops m vector as_of ≡ search_hits ops (visible as_of m) vector as_of
  unfolding search_hits visible
  search_hits-visible [] vector as_of = refl
  search_hits-visible ((id, e) ∷ m) vector as_of =
      ground (arith, search_hits-visible m vector as_of)

  hit_of : List Float64 → Time → String × Entry → Option SearchResult
  hit_of vector as_of (id, e) =
      if after e.event.available_at as_of
      then none
      else some (record {
        event = e.event;
        similarity = cosine ops vector e.vector;
        retrieval_metadata = [];
      })

  search_hits-filter_map :
      (m : Dict Entry) (vector : List Float64) (as_of : Time)
      → search_hits ops m vector as_of ≡ filter_map (hit_of vector as_of) m
  unfolding search_hits filter_map hit_of
  search_hits-filter_map [] vector as_of = refl
  search_hits-filter_map ((id, e) ∷ m) vector as_of =
      let hit : SearchResult = record {
        event = e.event;
        similarity = cosine ops vector e.vector;
        retrieval_metadata = [];
      } in
      elim (Bool-cases (after e.event.available_at as_of)) [
        | inl later ↦ rw later (search_hits-filter_map m vector as_of)
        | inr seen ↦ rw seen (ap (λ l. hit ∷ l) (search_hits-filter_map m vector as_of))
      ]

  -- Another order of the entries gives the same hits in another order.
  search_hits-Perm :
      {l m : Dict Entry} (vector : List Float64) (as_of : Time)
      → Perm l m
      → Perm (search_hits ops l vector as_of) (search_hits ops m vector as_of)
  search_hits-Perm {l} {m} vector as_of p =
      subst (λ x. Perm x (search_hits ops m vector as_of))
        (sym (search_hits-filter_map l vector as_of))
        (subst (λ x. Perm (filter_map (hit_of vector as_of) l) x)
          (sym (search_hits-filter_map m vector as_of)) (Perm.filter_map (hit_of vector as_of) p))

  search_hits-SameRecall :
      (as_of : Time) (s t : Store) (tenant : String) (vector : List Float64)
      → SameRecall as_of s.entries t.entries
      → search_hits ops (inner tenant t.entries) vector as_of
        ≡ search_hits ops (inner tenant s.entries) vector as_of
  search_hits-SameRecall as_of s t tenant vector same =
      search_hits-visible (inner tenant t.entries) vector as_of
      ∙ ap (λ m. search_hits ops m vector as_of) (same.hits tenant)
      ∙ sym (search_hits-visible (inner tenant s.entries) vector as_of)

  -- An answer over some entries is one over others with the same hits.
  moved_answer :
      (s t : Store) (tenant : String) (vector : List Float64) (as_of : Time) (limit : ℕ)
      (answer : List SearchResult)
      → search_hits ops (inner tenant t.entries) vector as_of
        ≡ search_hits ops (inner tenant s.entries) vector as_of
      → MayAnswer ops t tenant vector as_of limit answer
      → MayAnswer ops s tenant vector as_of limit answer
  unfolding search_events
  moved_answer s t tenant vector as_of limit answer same a =
      let sorted = a.sort_slice (search_hits ops a.order vector as_of) in
      let hits : Perm sorted (search_hits ops (inner tenant s.entries) vector as_of) =
        subst (λ x. Perm sorted x) same
          (Perm.trans a.slices.same (search_hits-Perm vector as_of a.visits)) in
      record {
        order = inner tenant s.entries;
        visits = Perm.refl (inner tenant s.entries);
        sort_slice = λ x. sorted;
        slices = record { same = hits; descending = a.slices.descending };
        answers = a.answers;
      }

  -- `Search` may give the same answers.
  pub search_events-SameRecall :
      (as_of : Time) (s t : Store) (tenant : String) (vector : List Float64) (limit : ℕ)
      (answer : List SearchResult)
      → SameRecall as_of s.entries t.entries
      → MayAnswer ops t tenant vector as_of limit answer
        ↔ MayAnswer ops s tenant vector as_of limit answer
  search_events-SameRecall as_of s t tenant vector limit answer same =
      let hits = search_hits-SameRecall as_of s t tenant vector same in
      (
        moved_answer s t tenant vector as_of limit answer hits,
        moved_answer t s tenant vector as_of limit answer (sym hits),
      )

pub SameRecall-trans :
    (as_of : Time) {b c d : Dict (Dict Entry)}
    → SameRecall as_of b c
    → SameRecall as_of c d
    → SameRecall as_of b d
SameRecall-trans as_of h k = record {
  found = λ tenant id. k.found tenant id ∙ h.found tenant id;
  hits = λ tenant. k.hits tenant ∙ h.hits tenant;
}

pub SameRecall-of_eq : (as_of : Time) {c d : Dict (Dict Entry)} → d ≡ c → SameRecall as_of c d
SameRecall-of_eq as_of e = record { found = λ tenant id. rw e refl; hits = λ tenant. rw e refl }
