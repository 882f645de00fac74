-- ===== src/Service.antt =====
-- internal/service: the requests of the daemon over the stores. A request reads the store and then
-- writes it in separate calls, between which other calls may come, so a handler takes the state at
-- each of its calls and answers with the one after the last.
pub mod Fuzz
pub mod Snaps
pub mod Certificates
pub mod Agency
pub mod Correlated
use eventframed.Prelude.{
  String, Bool, not, ◌&&◌, Option, none, some, ◌≡◌, refl, str_eq, if◌then◌else◌,
}
use eventframed.Prelude.Float64.{Float64, is_nan, is_inf, lt_f, le_f, zero_f, one_f}
use eventframed.Store.{Error}
use eventframed.Graph.Candidate.{GraphInvalid}
use eventframed.Agency.Build.{Refusal}

-- An error: a text of its own, one from the store or another package, or one of code outside.
pub data ServiceError : Type 0 where
  message : String → ServiceError
  stored : Error → ServiceError
  invalid_graph : GraphInvalid → ServiceError
  refusal : Refusal → ServiceError
  outside : ServiceError

pub data Reply {ℓ} (A : Type ℓ) : Type ℓ where
  replied : A → Reply A
  failed : ServiceError → Reply A

abbrev pub protocol_version : String
protocol_version = "eventframe.v1alpha1"

-- checkProtocol
unfoldable pub check_protocol : String → Option ServiceError
check_protocol version =
    if not (str_eq version protocol_version)
    then some (message "unsupported protocol_version")
    else none

-- unitOpen
unfoldable pub unit_open : Float64 → Bool
unit_open value = lt_f zero_f value && le_f value one_f && not (is_nan value) && not (is_inf value)

-- finiteNonnegative
unfoldable pub finite_nonnegative : Float64 → Bool
finite_nonnegative value = le_f zero_f value && not (is_nan value) && not (is_inf value)

-- The first error of two tests.
abbrev pub then_test : Option ServiceError → Option ServiceError → Option ServiceError
then_test none later = later
then_test (some e) later = some e

pub then_test-none : (a b : Option ServiceError) → then_test a b ≡ none → (a ≡ none) × (b ≡ none)
then_test-none none b h = (refl, h)
then_test-none (some e) b h = cc
