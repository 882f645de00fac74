-- ===== src/Memory/Events/Replay.antt =====
-- What a second `Put` of an event answers, and what a read of it gives.
use eventframed.Prelude.{
  String, Bool, true, false, Option, none, some, List, [], ◌∷◌, ◌≡◌, ◌≤◌, inl, inr, refl, ◌∙◌,
  arith, str_eq, eq_iff, if◌then◌else◌, Bool-cases,
}
use eventframed.Prelude.Dict.{get2, get2-put2_self}
use eventframed.Prelude.Float64.{Float64}
use eventframed.Model.Snapshot.{Time}
use eventframed.Model.Event.{Event}
use eventframed.Store.{ok, err, idempotency_conflict, PutResult}
use eventframed.Memory.{Entry, Store}
use eventframed.Memory.Events.{ingest, put_checked, put_event}
use eventframed.Memory.Retrieval.{hydrate, get_events}

-- The tenant has an event of this id under this digest.
abbrev Holds : Store → String → String → String → Type 0
Holds s t id d = (x : Entry) × (get2 t id s.entries ≡ some x) × (x.digest ≡ d)

put_checked-Holds :
    (s : Store) (e : Event) (v : List Float64) (d : String) {r : PutResult} (o : Option Entry)
    → get2 e.tenant_id e.id s.entries ≡ o
    → (put_checked s (ingest s e v d) o d).1 ≡ ok r
    → Holds (put_checked s (ingest s e v d) o d).0 e.tenant_id e.id d
unfolding put_checked ingest
put_checked-Holds s e v d none absent h = (
  record { event = e; vector = v; digest = d },
  get2-put2_self e.tenant_id e.id (record { event = e; vector = v; digest = d }) s.entries,
  refl,
)
put_checked-Holds s e v d (some x) found h = elim (Bool-cases (str_eq x.digest d)) [
  | inl same ↦ rw same (x, found, (eq_iff x.digest d).0 same)
  | inr differs ↦ absurd (ground arith)
]

put_event-Holds :
    (s : Store) (e : Event) (v : List Float64) (d : String) {r : PutResult}
    → (put_event s e v d).1 ≡ ok r
    → Holds (put_event s e v d).0 e.tenant_id e.id d
unfolding put_event
put_event-Holds s e v d h = put_checked-Holds s e v d (get2 e.tenant_id e.id s.entries) refl h

if_pair {ℓ κ} :
    {A : Type ℓ} {B : Type κ} (b : Bool) (a : A) (x y : B)
    → ◌≡◌ {A = A × B} (if b then (a, x) else (a, y)) (a, if b then x else y)
if_pair true a x y = refl
if_pair false a x y = refl

put_event-held :
    (t : Store) (f : Event) (w : List Float64) (d : String) (x : Entry)
    → get2 f.tenant_id f.id t.entries ≡ some x
    → put_event t f w d ≡ (
      t,
      if str_eq x.digest d
          then ok (record { duplicate = true; snapshot = t.snapshot })
          else err idempotency_conflict,
    )
unfolding put_event put_checked
put_event-held t f w d x found = rw found (if_pair (str_eq x.digest d) t _ _)

-- Once `Put` has taken an event, a `Put` of any event under the same tenant and id leaves the store
-- as it is; it answers as a duplicate if the digest is the same, and with a conflict if it is not.
pub put_event-replay :
    (s : Store) (e : Event) (v : List Float64) (d : String) {r : PutResult} (f : Event)
    (w : List Float64) (d' : String)
    → (put_event s e v d).1 ≡ ok r
    → f.tenant_id ≡ e.tenant_id
    → f.id ≡ e.id
    → put_event (put_event s e v d).0 f w d' ≡ (
      (put_event s e v d).0,
      if str_eq d d'
          then ok (record { duplicate = true; snapshot = (put_event s e v d).0.snapshot })
          else err idempotency_conflict,
    )
put_event-replay s e v d f w d' h tenant id =
    let (x, found, digest) = put_event-Holds s e v d h in
    put_event-held (put_event s e v d).0 f w d' x (rw (tenant, id) found) ∙ rw digest refl

-- An event that `Put` has stored is read back as it was given from the time on that it is available,
-- with the vector in place of the embedding if vectors are asked for, and without one if not.
pub put_event-get_events :
    (s : Store) (e : Event) (v : List Float64) (d : String) (as_of : Time) (hydrated : Bool)
    → get2 e.tenant_id e.id s.entries ≡ none
    → e.available_at ≤ as_of
    → get_events (put_event s e v d).0 e.tenant_id (e.id ∷ []) as_of hydrated
      ≡ ok (record e { embedding = if hydrated then v else [] } ∷ [])
unfolding put_event put_checked ingest get_events hydrate
put_event-get_events s e v d as_of hydrated absent seen = rw (absent, get2-put2_self) (ground arith)
