-- ===== src/Service/Fuzz/Bundles.antt =====
-- internal/service/background_fuzz.go: `backgroundSemanticBundles`. The decimal numeral of
-- `fmt.Sprint` is a parameter, since only the names of the perturbations show it.
use eventframed.Prelude.{
  ℕ, zero, suc, ◌+◌, ◌-◌, ◌%◌, ◌≤◌, String, concat, Bool, false, ◌&&◌, Option, none, some, List, [],
  ◌∷◌, ◌++◌, ◌≡◌, ap, sym, ◌∙◌, inl, inr, refl, arith, str_eq, length, get_elem?, length-append,
  map, if◌then◌else◌, if_elim, All, All-append, Bool-cases, Option-cases,
}
use eventframed.Prelude.Int.{ℤ, pos, lt_int}
use eventframed.Model.Event.{Event, Field, source_synthetic}
use eventframed.Prelude.Float64.{Float64}
use eventframed.Service.Fuzz.{FuzzPerturbation}

-- The contents of two events that move together are equal.
unfoldable pub same_bundle : Event → Event → Bool
same_bundle target source =
    str_eq target.what.value source.what.value
    && str_eq target.why.value source.why.value
    && str_eq target.how.value source.how.value

-- backgroundField
unfoldable pub background_field : Field → String → Field
background_field source evidence = record {
  value = source.value;
  source = source_synthetic;
  confidence = source.confidence;
  evidence = evidence;
}

-- The loop over the offsets: the first event after the target, around the end, that differs.
unfoldable pub find_source : ℕ → List Event → Event → ℕ → ℕ → Option Event
unfolding same_bundle
find_source zero events target index offset = none
find_source (suc rounds) events target index offset =
    let later = find_source rounds events target index (offset + 1) in
    elim (get_elem? events ((index + offset) % length events)) [
      | none ↦ none
      | some source ↦ if same_bundle target source then later else some source
    ]

module _ (show : ℕ → String) where
  unfoldable pub bundle : Event → Event → ℕ → FuzzPerturbation
  unfolding background_field
  bundle target source number = record {
    id = concat "background-bundle-" (show number);
    property_id = "background-source-event-semantic-bundle";
    event_id = target.id;
    source_event_id = source.id;
    validity_rule_id = "source-event-semantic-bundle-v1";
    validation_kind = "source_event_semantic_bundle";
    replacements =
        ("what", background_field source.what (concat evidence ": what"))
        ∷ ("why", background_field source.why (concat evidence ": why"))
        ∷ ("how", background_field source.how (concat evidence ": how"))
        ∷ [];
  }
    where
      evidence : String
      evidence = concat "background audit copy from as-of source EventFrame " source.id

  -- A target adds the perturbation by its source, if there is one.
  unfoldable pub added : Event → Option Event → List FuzzPerturbation → List FuzzPerturbation
  unfolding bundle
  added target none ps = ps
  added target (some source) ps = ps ++ (bundle target source (length ps + 1) ∷ [])

  -- The loop over the targets.
  unfoldable pub bundle_loop :
      List Event → ℤ → ℕ → List Event → List FuzzPerturbation → List FuzzPerturbation
  unfolding find_source added
  bundle_loop events maximum index [] perturbations = perturbations
  bundle_loop events maximum index (target ∷ rest) perturbations =
      let found = find_source (length events - 1) events target index 1 in
      let next = bundle_loop events maximum (index + 1) rest (added target found perturbations) in
      if lt_int (pos (length perturbations)) maximum then next else perturbations

  -- backgroundSemanticBundles
  unfoldable pub background_semantic_bundles : List Event → ℤ → List FuzzPerturbation
  unfolding bundle_loop
  background_semantic_bundles events maximum = bundle_loop events maximum 0 events []

-- What a replacement puts into a field: the field's name, the value, where it is from, and how sure.
abbrev contents : String × Field → String × String × String × Float64
contents (name, f) = (name, f.value, f.source, f.confidence)

abbrev taken_from : String → Field → String × String × String × Float64
taken_from name f = (name, f.value, source_synthetic, f.confidence)

-- A perturbation that puts the what, the why and the how of another event of the frontier into a
-- target of it, each under its own name, and nothing else.
pub record Drawn (events : List Event) (p : FuzzPerturbation) : Type 0 where
  pub target : Event
  pub source : Event
  pub target_at : ℕ
  pub source_at : ℕ
  pub target_in : get_elem? events target_at ≡ some target
  pub source_in : get_elem? events source_at ≡ some source
  pub differs : same_bundle target source ≡ false
  pub target_id : p.event_id ≡ target.id
  pub source_id : p.source_event_id ≡ source.id
  pub copied :
      map contents p.replacements
      ≡ taken_from "what" source.what
        ∷ taken_from "why" source.why
        ∷ taken_from "how" source.how
        ∷ []

find_source-differs :
    (rounds : ℕ) (events : List Event) (target : Event) (index offset : ℕ) {source : Event}
    → find_source rounds events target index offset ≡ some source
    → (i : ℕ) × (get_elem? events i ≡ some source) × (same_bundle target source ≡ false)
unfolding find_source
find_source-differs zero events target index offset h = absurd (ground arith)
find_source-differs (suc rounds) events target index offset {source = found} h =
    elim (Option-cases (get_elem? events ((index + offset) % length events))) [
      | inl e ↦ absurd (ground arith)
      | inr (source, e) ↦ elim (Bool-cases (same_bundle target source)) [
        | inl same ↦ find_source-differs rounds events target index (offset + 1) (ground arith)
        | inr differs ↦
            let here : source ≡ found = ground arith in
            ((index + offset) % length events, rw (← here) e, rw (← here) differs)
      ]
    ]

module _ (show : ℕ → String) (events : List Event) (maximum : ℕ) where
  pub record Bounded (most : ℕ) (ps : List FuzzPerturbation) : Type 0 where
    pub drawn : All (Drawn events) ps
    pub few : length ps ≤ maximum
    pub each : length ps ≤ most

  added-Bounded :
      (target : Event) (index : ℕ) (found : Option Event) (ps : List FuzzPerturbation)
      → get_elem? events index ≡ some target
      → find_source (length events - 1) events target index 1 ≡ found
      → suc (length ps) ≤ maximum
      → Bounded index ps
      → Bounded (index + 1) (added show target found ps)
  unfolding added bundle
  added-Bounded target index none ps here e room b = record {
    drawn = b.drawn;
    few = b.few;
    each = omega (arith, b.each);
  }
  added-Bounded target index (some source) ps here e room b =
      let (at, in_events, differs) =
        find_source-differs (length events - 1) events target index 1 e in
      record {
        drawn = All-append (Drawn events) ps _ b.drawn (one at in_events differs, tt);
        few = omega (arith, length-append ps (p ∷ []), room);
        each = omega (arith, length-append ps (p ∷ []), b.each);
      }
    where
      p : FuzzPerturbation
      p = bundle show target source (length ps + 1)

      one :
          (at : ℕ)
          → get_elem? events at ≡ some source
          → same_bundle target source ≡ false
          → Drawn events p
      one at in_events differs = record {
        target = target;
        source = source;
        target_at = index;
        source_at = at;
        target_in = here;
        source_in = in_events;
        differs = differs;
        target_id = refl;
        source_id = refl;
        copied = refl;
      }

  bundle_loop-Bounded :
      (rest : List Event) (index most : ℕ) (ps : List FuzzPerturbation)
      → ((i : ℕ) → get_elem? rest i ≡ get_elem? events (i + index))
      → index + length rest ≡ most
      → Bounded index ps
      → Bounded most (bundle_loop show events (pos maximum) index rest ps)
  unfolding bundle_loop
  bundle_loop-Bounded [] index most ps same e b = record {
    drawn = b.drawn;
    few = b.few;
    each = omega (arith, b.each);
  }
  bundle_loop-Bounded (target ∷ rest) index most ps same e b =
      if_elim (Bounded most) (lt_int (pos (length ps)) (pos maximum)) _ _
        (λ room.
          bundle_loop-Bounded rest (index + 1) most _ (λ i. shift i) (omega arith)
            (added-Bounded target index _ ps here refl (ground arith) b))
        (λ _. record { drawn = b.drawn; few = b.few; each = omega (arith, b.each) })
    where
      here : get_elem? events index ≡ some target
      here = ap (get_elem? events) (omega arith) ∙ sym (same 0)

      shift : (i : ℕ) → get_elem? rest i ≡ get_elem? events (i + (index + 1))
      shift i =
          let next = same (suc i) in
          let e : suc i + index ≡ i + (index + 1) = omega arith in rw e at next

  -- The perturbations number at most the maximum and at most the events. Each names a target of the
  -- frontier and a source of it whose what, why or how differs, and replaces exactly the target's
  -- what, why and how, each by the value and the confidence of the source's field of the same name,
  -- marked as synthetic.
  pub background_semantic_bundles-Bounded :
      Bounded (length events) (background_semantic_bundles show events (pos maximum))
  unfolding background_semantic_bundles
  background_semantic_bundles-Bounded =
      bundle_loop-Bounded events 0 (length events) [] (λ i. ap (get_elem? events) (omega arith))
        (omega arith) (record { drawn = tt; few = omega arith; each = omega arith })
