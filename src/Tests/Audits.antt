-- ===== src/Tests/Audits.antt =====
-- Background audits: an interleaving of two calls of `Enqueue` with the worker, the perturbations
-- of two events, and the settings of the daemon.
use eventframed.Prelude.{ℕ, zero, suc, String, none, List, [], ◌∷◌, ◌≡◌, refl, length, arith}
use eventframed.Prelude.Dict.{get, put}
use eventframed.Prelude.Float64.{zero_f, half_f}
use eventframed.Prelude.Int.{pos}
use eventframed.Model.Event.{Event}
use eventframed.Config.Flags.{default_flags}
use eventframed.Config.Check.{parse_checked}
use eventframed.Config.Background.{background_policy, new_background, parse_checked-new_background}
use eventframed.Service.Fuzz.{BackgroundFuzzJob, audited}
use eventframed.Service.Fuzz.Queue.{
  new_queue, FuzzStep, admits, sends, drops, receives, counts, starts, finishes, fuzz_run,
}
use eventframed.Service.Fuzz.Live.{Orderly}
use eventframed.Service.Fuzz.Execute.{fuzz_run-Orderly}
use eventframed.Service.Fuzz.Bundles.{
  Bounded, background_semantic_bundles, background_semantic_bundles-Bounded,
}
use eventframed.Memory.{initial_snapshot}
use eventframed.Tests.Samples.{event}

abbrev job : String → BackgroundFuzzJob
job key = record {
  id = key;
  dedup_key = key;
  tenant_id = "t";
  as_of = 5;
  snapshot = initial_snapshot;
  query_digest = "q";
  query_vector = half_f ∷ [];
  event_ids = "e1" ∷ "e2" ∷ [];
  perturbations = [];
  answer_certainty = zero_f;
  trigger_reason = "low_answer_certainty";
}

-- The second call finds the channel full and lets its key go; the third is a duplicate.
abbrev steps : List FuzzStep
steps =
    admits (job "k1") 10
    ∷ admits (job "k2") 10
    ∷ sends 1
    ∷ sends 0
    ∷ admits (job "k1") 11
    ∷ counts
    ∷ drops 0
    ∷ receives 0
    ∷ starts
    ∷ finishes (audited 4 1 1) 12
    ∷ []

steps_test : (fuzz_run 1 3 new_queue steps).dropped_total ≡ 1
unfolding fuzz_run get put
steps_test = refl

fuzz_run-Orderly_example : Orderly 1 (fuzz_run 1 3 new_queue steps)
fuzz_run-Orderly_example =
    fuzz_run-Orderly 1 3 steps
      (tt, (tt, (tt, (tt, (tt, (tt, (tt, (tt, (tt, ((λ e. absurd (omega (arith, e))), tt))))))))))

abbrev told : String → String → Event
told id text = record (event id 5) { what = record (event id 5).what { value = text } }

abbrev frontier : List Event
frontier = told "e1" "a" ∷ told "e2" "b" ∷ []

abbrev numeral : ℕ → String
numeral zero = "0"
numeral (suc zero) = "1"
numeral (suc (suc n)) = "more"

background_semantic_bundles-Bounded_example :
    Bounded numeral frontier 1
      (length frontier)
      (background_semantic_bundles numeral frontier (pos 1))
background_semantic_bundles-Bounded_example = background_semantic_bundles-Bounded numeral frontier 1

bundles_test : length (background_semantic_bundles numeral frontier (pos 1)) ≡ 1
unfolding background_semantic_bundles
bundles_test = refl

-- The daemon's own defaults.
parse_checked-new_background_example :
    new_background (background_policy (default_flags "/home/u")) ≡ none
unfolding default_flags parse_checked
parse_checked-new_background_example =
    parse_checked-new_background (default_flags "/home/u") {settings = default_flags "/home/u"} refl
      (record { a_number = refl; interval = refl; timeout = refl; cooldown = refl })
