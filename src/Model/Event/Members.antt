-- ===== src/Model/Event/Members.antt =====
-- What a composition's members are once its event has been validated.
use eventframed.Prelude.{
  ℕ, ◌≤◌, String, Bool, true, false, Option, none, some, List, [], ◌∷◌, ◌≡◌, inl, inr, refl, ap,
  sym, ◌∙◌, subst, arith, str_eq, eq_iff, eq_refl, if◌then◌else◌, length, str_mem, Bool-cases,
}
use eventframed.Prelude.Distinct.{distinct, distinct-covers}
use eventframed.Prelude.Float64.{in_unit}
use eventframed.Prelude.Text.{is_blank}
use eventframed.Model.Event.{Composition, Event}
use eventframed.Model.Event.Validate.{
  Invalid, check_members, check_sources, validate_sources, validate_composition, validate_kind,
  validate_body, validate_event, validate_header, validate_fields, what_required,
}

abbrev Fresh : String → List String → String → Type 0
Fresh event_id seen x =
    (is_blank x ≡ false) × (str_eq x event_id ≡ false) × (str_mem x seen ≡ false)

abbrev Member : List String → List String → String → Type 0
Member members seen x = (str_mem x members ≡ true) × (str_mem x seen ≡ false)

-- The ids of a list that the loop over the members has passed.
record Passed (event_id : String) (seen ids : List String) : Type 0 where
  once : distinct ids ≡ true
  each : (x : String) → str_mem x ids ≡ true → Fresh event_id seen x

absent_after :
    (m : String) (seen ids : List String)
    → ((x : String) → str_mem x ids ≡ true → str_mem x (m ∷ seen) ≡ false)
    → str_mem m ids ≡ false
absent_after m seen ids h = elim (Bool-cases (str_mem m ids)) [
  | inr absent ↦ absent
  | inl here ↦
      let never : str_mem m (m ∷ seen) ≡ false = h m here in absurd (ground (arith, eq_refl m))
]

check_members-Passed :
    (event_id : String) (seen ids : List String)
    → check_members event_id seen ids ≡ none
    → Passed event_id seen ids
unfolding check_members
check_members-Passed event_id seen [] h = record { once = refl; each = λ x k. cc }
check_members-Passed event_id seen (m ∷ ids) h =
    let later = check_members-Passed event_id (m ∷ seen) ids (ground arith) in
    let absent : str_mem m ids ≡ false = absent_after m seen ids (λ x k. (later.each x k).2) in
    let once : distinct ids ≡ true = later.once in
    let here : Fresh event_id seen m = (ground arith, ground arith, ground arith) in
    record {
      once = ground arith;
      each = λ x k. elim (Bool-cases (str_eq m x)) [
        | inl same ↦ subst (Fresh event_id seen) ((eq_iff m x).0 same) here
        | inr differs ↦
            let (filled, foreign, unseen) = later.each x (ground arith) in
            (filled, foreign, ground arith)
      ];
    }

record Drawn (members seen sources : List String) : Type 0 where
  once : distinct sources ≡ true
  each : (x : String) → str_mem x sources ≡ true → Member members seen x

check_sources-Drawn :
    (members seen sources : List String)
    → check_sources members seen sources ≡ none
    → Drawn members seen sources
unfolding check_sources
check_sources-Drawn members seen [] h = record { once = refl; each = λ x k. cc }
check_sources-Drawn members seen (m ∷ ids) h =
    let later = check_sources-Drawn members (m ∷ seen) ids (ground arith) in
    let absent : str_mem m ids ≡ false = absent_after m seen ids (λ x k. (later.each x k).1) in
    let once : distinct ids ≡ true = later.once in
    let here : Member members seen m = (ground arith, ground arith) in
    record {
      once = ground arith;
      each = λ x k. elim (Bool-cases (str_eq m x)) [
        | inl same ↦ subst (Member members seen) ((eq_iff m x).0 same) here
        | inr differs ↦ let (member, unseen) = later.each x (ground arith) in (member, ground arith)
      ];
    }

-- A composition whose event has been validated.
pub record Composed (c : Composition) (event_id : String) (sources : List String) : Type 0 where
  pub few : 2 ≤ length c.member_event_ids
  pub many : length c.member_event_ids ≤ 64
  pub confidence : in_unit c.confidence ≡ true
  pub once : distinct c.member_event_ids ≡ true
  pub each :
      (x : String)
      → str_mem x c.member_event_ids ≡ true
      → (is_blank x ≡ false) × (str_eq x event_id ≡ false)
  pub representative : str_mem c.representative_event_id c.member_event_ids ≡ true
  pub sources_once : distinct sources ≡ true
  pub same : (x : String) → str_mem x sources ≡ str_mem x c.member_event_ids

-- What the tests of a composition are, once they have all passed.
record Tests (c : Composition) (event_id : String) (sources : List String) : Type 0 where
  few : 2 ≤ length c.member_event_ids
  many : length c.member_event_ids ≤ 64
  confidence : in_unit c.confidence ≡ true
  members : check_members event_id [] c.member_event_ids ≡ none
  representative : str_mem c.representative_event_id c.member_event_ids ≡ true
  count : length sources ≡ length c.member_event_ids
  drawn : check_sources c.member_event_ids [] sources ≡ none

tests :
    (c : Composition) (event_id : String) (sources : List String)
    → validate_composition c event_id sources ≡ none
    → Tests c event_id sources
unfolding validate_composition validate_sources
tests c event_id sources h = ground arith

same_members :
    (c : Composition) (event_id : String) (sources : List String)
    → Tests c event_id sources
    → Drawn c.member_event_ids [] sources
    → (x : String) → str_mem x sources ≡ str_mem x c.member_event_ids
same_members c event_id sources t d x =
    both (str_mem x sources) (str_mem x c.member_event_ids) (λ k. (d.each x k).0)
      (distinct-covers sources c.member_event_ids d.once (λ z k. (d.each z k).0) t.count x)
  where
    both : (a b : Bool) → (a ≡ true → b ≡ true) → (b ≡ true → a ≡ true) → a ≡ b
    both true b h k = sym (h refl)
    both false true h k = k refl
    both false false h k = refl

composed :
    (c : Composition) (event_id : String) (sources : List String)
    → Tests c event_id sources
    → Composed c event_id sources
composed c event_id sources t =
    let p = check_members-Passed event_id [] c.member_event_ids t.members in
    let d = check_sources-Drawn c.member_event_ids [] sources t.drawn in
    record {
      few = t.few;
      many = t.many;
      confidence = t.confidence;
      once = p.once;
      each = λ x k. ((p.each x k).0, (p.each x k).1);
      representative = t.representative;
      sources_once = d.once;
      same = same_members c event_id sources t d;
    }

-- A test that a later one follows.
after_none :
    (a b : Option Invalid) → (elim a [ some invalid ↦ some invalid | none ↦ b ]) ≡ none → b ≡ none
after_none none b h = h
after_none (some invalid) b h = cc

body_passed :
    (e : Event) (dimension : ℕ) → validate_event e dimension ≡ none → validate_body e ≡ none
unfolding validate_event
body_passed e dimension h = after_none (validate_header e dimension) (validate_body e) h

kind_passed : (e : Event) → validate_body e ≡ none → validate_kind e e.composition ≡ none
unfolding validate_body
kind_passed e h =
    let rest =
      after_none (validate_fields (e.who ∷ e.what ∷ e.where_field ∷ e.when ∷ e.why ∷ e.how ∷ []))
        (if is_blank e.what.value then some what_required else validate_kind e e.composition) h in
    ground arith

composition_passed :
    (e : Event) (c : Composition)
    → validate_kind e (some c) ≡ none
    → validate_composition c e.id e.provenance.source_event_ids ≡ none
unfolding validate_kind
composition_passed e c h = ground arith

-- A validated event with a composition has 2 to 64 members, none twice, none blank and none itself;
-- the representative is one of them; the confidence is a number of [0, 1]; and the source ids of its
-- provenance are exactly the members, each once.
pub validate_event-Composed :
    (e : Event) (dimension : ℕ) (c : Composition)
    → validate_event e dimension ≡ none
    → e.composition ≡ some c
    → Composed c e.id e.provenance.source_event_ids
validate_event-Composed e dimension c h k = composed c e.id e.provenance.source_event_ids (
    tests c e.id e.provenance.source_event_ids (
      composition_passed e c
        (ap (validate_kind e) (sym k) ∙ kind_passed e (body_passed e dimension h))))
