-- ===== src/K6.antt =====
-- internal/k6/k6.go: the load block becomes a script, and the script's markers are read back. Compile
-- is modelled up to the fixed JavaScript around the values, which are the fields of Script.
pub mod Stages
pub mod Summary
use tortureu.Base.{
  ℕ, Bool, true, false, ◌+◌, ◌-◌, ◌%◌, ◌^◌, String, List, [], ◌∷◌, Option, none, some, ◌==◌, ◌||◌,
  not, Dict, insert, ℤ, pos, negsuc, ◌+ℤ◌, sub_ℕ, ltb, leb, ◌&&◌, map, if◌then◌else◌,
}
use tortureu.Base.Decimal.{append_text}
use tortureu.Base.Result.{Result, ok, err, reject_if, ◌>>=◌, ◌>>◌}
use tortureu.Base.Strings.{trim_space, fields, to_upper}
use tortureu.Base.Text.{codes, matches, decimal}
use tortureu.Duration.{parse_duration}
use tortureu.Float64
use tortureu.Float64.{Float64}
use tortureu.Float64.Parse.{in_range}
use tortureu.Value.{Value}
use tortureu.Config
use tortureu.Config.{Stage, Scenario, FlowStep, AssertEntry}

unfoldable pub phase_marker_prefix : String
phase_marker_prefix = "TORTUREU_PHASE_START"

-- the phase in the fields of a line
unfoldable pub phase_in : List String → Option String
unfolding phase_marker_prefix
phase_in (prefix ∷ phase ∷ rest) = if prefix == phase_marker_prefix then some phase else none
phase_in _ = none

unfoldable pub parse_phase_marker : String → Option String
unfolding trim_space fields phase_in
parse_phase_marker line = phase_in (fields (trim_space line))

pub data Error : Type 0 where
  bad_model : String → Error
  empty_stages : Error
  bad_rps : String → String → Error
  bad_duration : String → String → Error

-- rpsPattern and ParseFloat of its group, where ParseFloat fails only out of range
unfoldable pub parse_rps : String → Option Float64
unfolding decimal matches Float64.of_ratio
parse_rps s = elim (decimal (codes s)) [
  | none ↦ none
  | some (n, d, rest) ↦
      if matches (λ c. c) rest (codes "rps") then in_range (Float64.of_ratio n d) else none
]

pub record CompiledStage : Type 0 where
  pub phase : String
  pub target : Float64
  pub duration : String
  pub start_at : ℤ

-- an int64 keeps a sum modulo 2^64
unfoldable pub wrap : ℤ → ℤ
wrap (pos n) = let r = n % 2 ^ 64 in if ltb r (2 ^ 63) then pos r else sub_ℕ r (2 ^ 64)
wrap (negsuc n) = let r = n % 2 ^ 64 in if ltb r (2 ^ 63) then negsuc r else pos (2 ^ 64 - 1 - r)

-- what a stage aims at, and for how long
abbrev pub target_text : Stage → String
target_text s = if s.to == "" then s.hold else s.to

abbrev pub duration_text : Stage → String
duration_text s = if s.to == "" then s.for else s.over

abbrev pub or_error : {A : Type 0} → Error → Option A → Result Error A
or_error e none = err e
or_error e (some a) = ok a

-- one stage: its target and its length
unfoldable pub resolve_stage : Stage → Result Error (Float64 × ℤ)
unfolding parse_rps parse_duration
resolve_stage s = do
  target ← or_error (bad_rps s.phase (target_text s)) (parse_rps (target_text s))
  dur ← or_error (bad_duration s.phase (duration_text s)) (parse_duration (duration_text s))
  ok (target, dur)

-- the loop, with the cursor and the greatest target so far
unfoldable pub resolve_from : ℤ → Float64 → List Stage → Result Error (List CompiledStage × Float64)
unfolding resolve_stage wrap Float64.lt ◌+ℤ◌
resolve_from cursor max_target [] = ok ([], max_target)
resolve_from cursor max_target (s ∷ ss) = do
  (target, dur) ← resolve_stage s
  (stages, last) ←
      resolve_from (wrap (cursor +ℤ dur))
        (if Float64.lt max_target target then target else max_target) ss
  ok (
    record { phase = s.phase; target = target; duration = duration_text s; start_at = cursor }
        ∷ stages,
    last,
  )

unfoldable pub resolve_stages : List Stage → Result Error (List CompiledStage × Float64)
unfolding resolve_from
resolve_stages ss = resolve_from (pos 0) (Float64.of_int (pos 0)) ss

pub record JsFlow : Type 0 where
  pub method : String
  pub url : String
  pub body : String

pub record JsScenario : Type 0 where
  pub name : String
  pub weight : ℤ
  pub flow : List JsFlow

-- HTTP methods are ASCII
unfoldable pub js_flow : String → FlowStep → JsFlow
unfolding to_upper
js_flow base_url step = record {
  method = to_upper step.method;
  url = append_text base_url step.path;
  body = step.body;
}

unfoldable pub scenarios_json : String → List Scenario → List JsScenario
unfolding js_flow
scenarios_json base_url scenarios =
    map (λ s. record { name = s.name; weight = s.weight; flow = map (js_flow base_url) s.flow })
      scenarios

-- the inner loop over one entry of `assert:`
unfoldable pub add_thresholds : AssertEntry → Dict Value → Dict Value
add_thresholds [] thresholds = thresholds
add_thresholds ((metric, exprs) ∷ rest) thresholds =
    add_thresholds rest
      (if metric == "promql" || metric == "sql" then thresholds else insert metric exprs thresholds)

unfoldable pub thresholds_from : List AssertEntry → Dict Value → Dict Value
unfolding add_thresholds
thresholds_from [] thresholds = thresholds
thresholds_from (entry ∷ rest) thresholds = thresholds_from rest (add_thresholds entry thresholds)

unfoldable pub thresholds_json : List AssertEntry → Dict Value
unfolding thresholds_from
thresholds_json entries = thresholds_from entries []

-- a scenario of one iteration that logs its phase
pub record MarkerScenario : Type 0 where
  pub phase : String
  pub start_time : ℤ

pub record Script : Type 0 where
  pub pre_allocated_vus : ℤ
  pub max_vus : ℤ
  pub stages : List (Float64 × String)
  pub markers : List MarkerScenario
  pub thresholds : Dict Value
  pub scenarios : List JsScenario

abbrev pub load_stage : CompiledStage → Float64 × String
load_stage s = (s.target, s.duration)

abbrev pub marker_of : CompiledStage → MarkerScenario
marker_of s = record { phase = s.phase; start_time = s.start_at }

abbrev is_empty : List Stage → Bool
is_empty [] = true
is_empty (s ∷ ss) = false

unfoldable pub compile : Config.Config → Result Error Script
unfolding resolve_stages scenarios_json thresholds_json Float64.mul Float64.to_int ◌+ℤ◌
compile cfg = do
  reject_if (not (cfg.load.model == "arrival_rate")) (bad_model cfg.load.model)
  reject_if (is_empty cfg.load.stages) empty_stages
  (stages, max_target) ← resolve_stages cfg.load.stages
  ok (record {
    pre_allocated_vus = Float64.to_int max_target +ℤ pos 5;
    max_vus = Float64.to_int (Float64.mul max_target (Float64.of_int (pos 5))) +ℤ pos 10;
    stages = map load_stage stages;
    markers = map marker_of stages;
    thresholds = thresholds_json cfg.assert;
    scenarios = scenarios_json cfg.target.base_url cfg.load.scenarios;
  })
