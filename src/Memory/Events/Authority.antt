-- ===== src/Memory/Events/Authority.antt =====
-- The authority that `PutComposition` asks for.
use Prim.Native.String.{slice, ◌++◌ as str_append}
use eventframed.Prelude.{
  String, len, Bool, true, false, not, ◌||◌, some, List, [], ◌≡◌, refl, sym, ◌∙◌, arith, str_eq,
  eq_iff, if◌then◌else◌, leb, all, all-str_mem, str_mem-all, str_mem, if_elim,
}
use eventframed.Prelude.Dict.{get, get2}
use eventframed.Prelude.Distinct.{distinct, distinct-covers}
use eventframed.Prelude.Float64.{Float64}
use eventframed.Model.Snapshot.{Snapshot, eq_snapshot}
use eventframed.Model.Event.{Composition, Event}
use eventframed.Model.Certificate.{AntiPigeonCertificate}
use eventframed.Store.{Error, Result, ok, err, PutResult}
use eventframed.Memory.{Store}
use eventframed.Memory.Events.{
  same_id_set, indexed_as, found_certificate, zero_certificate, anti_pigeon_group, available_member,
  composition_authorized, put_authorized, put_composition,
}

-- The length and one inclusion decide equality, if the second list repeats nothing.
same_id_set-same :
    (left right : List String)
    → same_id_set left right ≡ true
    → distinct right ≡ true
    → (x : String) → str_mem x left ≡ str_mem x right
unfolding same_id_set
same_id_set-same left right h once x =
    both (str_mem x left) (str_mem x right)
      (distinct-covers right left once (λ z k. str_mem-all z right left within k) (ground arith) x)
      (λ k. str_mem-all x right left within k)
  where
    within : all (λ id. str_mem id left) right ≡ true
    within = ground arith

    both : (a b : Bool) → (a ≡ true → b ≡ true) → (b ≡ true → a ≡ true) → a ≡ b
    both true b h k = sym (h refl)
    both false true h k = k refl
    both false false h k = refl

-- The certificate of a group is the tenant's, and the member is indexed under it.
abbrev pub Grouped : Store → String → String → AntiPigeonCertificate → Type 0
Grouped s t x c =
    (str_eq c.tenant_id t ≡ true) × (indexed_as (get2 t x s.anti_pigeon_index) c.id ≡ true)

-- What the members of a group with its certificate are.
abbrev Group : Store → String → String → AntiPigeonCertificate × List String → Type 0
Group s t x g = str_mem x g.1 ≡ true → Grouped s t x g.0

empty-Group : (s : Store) (t x : String) (c : AntiPigeonCertificate) → Group s t x (c, [])
empty-Group s t x c h = cc

indexed-Group :
    (s : Store) (t x : String) (c zero : AntiPigeonCertificate)
    → str_eq c.tenant_id t ≡ true
    → Group s t x (
        if all (λ id. indexed_as (get2 t id s.anti_pigeon_index) c.id) c.member_event_ids
        then (c, c.member_event_ids)
        else (zero, []))
indexed-Group s t x c zero own =
    if_elim (Group s t x) _ _ _
      (λ indexed h. (
        own,
        all-str_mem (λ id. indexed_as (get2 t id s.anti_pigeon_index) c.id) x c.member_event_ids
            indexed h,
      ))
      (λ _. empty-Group s t x zero)

group-Grouped :
    (s : Store) (t key x : String)
    → str_mem x (anti_pigeon_group s t key).1 ≡ true
    → Grouped s t x (anti_pigeon_group s t key).0
unfolding anti_pigeon_group
group-Grouped s t key x =
    if_elim (Group s t x) (leb (len key) 3 || not (str_eq (slice key 0 3) "ap:"))
      (zero_certificate, []) rest (λ _. empty-Group s t x zero_certificate)
      (λ _.
        if_elim (Group s t x) (not (str_eq c.tenant_id t)) (zero_certificate, []) last
          (λ _. empty-Group s t x zero_certificate)
          (λ own. indexed-Group s t x c zero_certificate (ground arith)))
  where
    c : AntiPigeonCertificate
    c = found_certificate (get (slice key 3 (len key)) s.anti_pigeon_certificates)

    last : AntiPigeonCertificate × List String
    last =
        if all (λ id. indexed_as (get2 t id s.anti_pigeon_index) c.id) c.member_event_ids
        then (c, c.member_event_ids)
        else (zero_certificate, [])

    rest : AntiPigeonCertificate × List String
    rest = if not (str_eq c.tenant_id t) then (zero_certificate, []) else last

-- The group that a composition names.
abbrev pub group_of : Store → Event → Composition → AntiPigeonCertificate × List String
group_of s e c = anti_pigeon_group s e.tenant_id (str_append "ap:" c.anti_pigeon_certificate_id)

-- What `PutComposition` has checked of a composition.
pub record Authorized (s : Store) (e : Event) (c : Composition) : Type 0 where
  pub certificate : (group_of s e c).0.id ≡ c.anti_pigeon_certificate_id
  pub same : (x : String) → str_mem x (group_of s e c).1 ≡ str_mem x c.member_event_ids
  pub member :
      (x : String)
      → str_mem x c.member_event_ids ≡ true
      → Grouped s e.tenant_id x (group_of s e c).0
        × (available_member e.available_at (get2 e.tenant_id x s.entries) ≡ true)

composition-Authorized :
    (s : Store) (e : Event) (c : Composition)
    → composition_authorized s e c ≡ true
    → distinct c.member_event_ids ≡ true
    → Authorized s e c
unfolding composition_authorized
composition-Authorized s e c h once =
    let same = same_id_set-same (group_of s e c).1 c.member_event_ids (ground arith) once in
    record {
      certificate = (eq_iff (group_of s e c).0.id c.anti_pigeon_certificate_id).0 (ground arith);
      same = same;
      member = λ x k. (
        group-Grouped s e.tenant_id (str_append "ap:" c.anti_pigeon_certificate_id) x (same x ∙ k),
        all-str_mem (λ id. available_member e.available_at (get2 e.tenant_id id s.entries)) x
            c.member_event_ids (ground arith) k,
      );
    }

taken :
    (b : Bool) (x : Store × Result PutResult) (s : Store) (e : Error) {r : PutResult}
    → (if b then x else (s, err e)).1 ≡ ok r
    → (b ≡ true) × (x.1 ≡ ok r)
taken true x s e h = (refl, h)
taken false x s e h = absurd (ground arith)

-- `PutComposition` accepts a composition that repeats no member only on the snapshot that the store
-- still has, and only where the certificate found has the id that the composition names and covers
-- exactly the composition's members; each member, if there is one, is indexed under this certificate,
-- which is then the tenant's, and its event stands in the store and is available in time. Of a
-- composition without members no more than the id is known.
pub put_composition-Authorized :
    (s : Store) (e : Event) (v : List Float64) (d : String) (base : Snapshot) (c : Composition)
    {r : PutResult}
    → e.composition ≡ some c
    → distinct c.member_event_ids ≡ true
    → (put_composition s e v d base).1 ≡ ok r
    → (eq_snapshot s.snapshot base ≡ true) × Authorized s e c
unfolding put_composition
put_composition-Authorized s e v d base c {r} composed once h =
    let (current, rest) =
      taken (eq_snapshot s.snapshot base) (put_authorized s e v d e.composition) s _ h in
    let (allowed, _) =
      taken (composition_authorized s e c) _ s _ (rw (composed, put_authorized) at rest) in
    (current, composition-Authorized s e c allowed once)
