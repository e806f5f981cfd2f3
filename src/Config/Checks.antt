-- ===== src/Config/Checks.antt =====
-- The verb table, and the checks of one inject: map.
pub mod Verb
use tortureu.Base.{
  String, Bool, true, false, List, [], ◌∷◌, Option, none, some, Dict, lookup, has_key, contains,
  ◌==◌, ◌||◌, not, if◌then◌else◌, ℤ, pos, ltb_ℤ,
}
use tortureu.Base.Result.{Result, ok, err}
use tortureu.Float64
use tortureu.Float64.{Float64}
use tortureu.Value.{Value, int, float}

pub data Error : Type 0 where
  malformed : Error
  empty_document : Error
  unknown_key : String → Error
  missing_compose missing_service : Error
  bad_default : String → Error
  mock_without_source : String → Error
  real_without_rate : String → Error
  unknown_class : String → String → Error
  closed_model : String → Error
  duplicate_phase : String → Error
  bad_stage : String → Error
  bare_step : String → Error
  bad_step : String → Error
  incomplete_step : String → Error
  incomplete_fault : String → Error
  bad_at : String → String → Error
  undeclared_phase : String → String → Error
  unknown_target : String → String → Error
  two_verbs : String → String → String → Error
  no_verb : String → Error
  bad_modifier : String → String → String → Error
  out_of_range : String → String → Value → Error
  no_assert : Error

unfoldable pub fault_verb_modifiers : Dict (List String)
fault_verb_modifiers =
    ("latency", "jitter" ∷ [])
    ∷ ("down", [])
    ∷ ("bandwidth", [])
    ∷ ("slicer", "delay" ∷ [])
    ∷ ("error_rate", "status" ∷ [])
    ∷ ("cpu", "workers" ∷ [])
    ∷ ("mem", "workers" ∷ [])
    ∷ ("io", "workers" ∷ [])
    ∷ ("fd", "workers" ∷ [])
    ∷ ("cpu_limit", [])
    ∷ ("mem_limit", [])
    ∷ ("pause", [])
    ∷ ("kill", [])
    ∷ ("graceful", [])
    ∷ ("poison_pill", "count" ∷ [])
    ∷ ("duplicate", [])
    ∷ []

unfoldable pub as_float : Value → Option Float64
as_float (float x) = some x
as_float (int n) = some (Float64.of_int n)
as_float _ = none

-- `true` is the error, here and below
unfoldable pub check_fraction : Value → Bool
unfolding as_float
check_fraction v = elim (as_float v) [
  | none ↦ true
  | some f ↦ Float64.lt f (Float64.of_int (pos 0)) || Float64.lt (Float64.of_int (pos 1)) f
]

unfoldable pub check_positive_int : Value → Bool
unfolding as_float
check_positive_int v = elim (as_float v) [
  | none ↦ true
  | some f ↦
      not (Float64.eq f (Float64.of_int (Float64.to_int f))) || ltb_ℤ (Float64.to_int f) (pos 1)
]

-- the loop that looks for the one verb; the text is the verb so far
unfoldable pub find_verb : String → String → Dict Value → Result Error String
find_verb name verb [] = if verb == "" then err (no_verb name) else ok verb
find_verb name verb ((k, v) ∷ rest) =
    if has_key k fault_verb_modifiers
    then (if verb == "" then find_verb name k rest else err (two_verbs name verb k))
    else find_verb name verb rest

-- the first key that is neither the verb nor one of its modifiers
unfoldable pub bad_key : String → List String → Dict Value → Option String
bad_key verb allowed [] = none
bad_key verb allowed ((k, v) ∷ rest) =
    if k == verb
    then bad_key verb allowed rest
    else if contains allowed k
    then bad_key verb allowed rest
    else some k

-- if v, ok := rf.Inject[k]; ok { if err := check(v); ... }
unfoldable pub check_key : (Value → Bool) → String → String → Dict Value → Option Error
check_key check name k inject = elim (lookup k inject) [
  | none ↦ none
  | some v ↦ if check v then some (out_of_range name k v) else none
]
