-- ===== src/MockRate.antt =====
-- internal/applier: error_rate against a mocked host, as a cycle of WireMock stub mappings.
pub mod Cycle
use tortureu.Base.{
  ℕ, zero, suc, ◌+◌, ◌%◌, ◌≤◌, ◌<◌, String, Bool, true, false, List, [], ◌∷◌, Option, none, some,
  Dict, lookup, ◌==◌, not, ltb, leb, if◌then◌else◌, ℤ, pos, ltb_ℤ, eqb,
}
use tortureu.Base.Decimal.{append_text, show}
use tortureu.Base.Result.{Result, ok, err, reject_if, ◌>>=◌, ◌>>◌}
use tortureu.Value.{Value}
use tortureu.Float64
use tortureu.Float64.{Float64}
use tortureu.Config
use tortureu.Egress.{as_float, validate_error_rate}

pub record ErrorRate : Type 0 where
  pub target : String
  pub rate : Float64
  pub status : ℤ

pub data Error : Type 0 where
  other_verb : String → Error
  no_target : Error
  bad_rate : Error
  bad_status : Value → Error

unfoldable pub default_error_rate_status : ℤ
default_error_rate_status = pos 500

-- `rate, _ := asFloat(f.Inject["error_rate"])`: zero where it fails
unfoldable pub rate_of : Dict Value → Float64
unfolding as_float
rate_of inject = elim (lookup "error_rate" inject) [
  | none ↦ Float64.of_int (pos 0)
  | some v ↦ elim (as_float v) [ none ↦ Float64.of_int (pos 0) | some x ↦ x ]
]

unfoldable pub status_of : Option Value → Result Error ℤ
unfolding default_error_rate_status as_float
status_of none = ok default_error_rate_status
status_of (some raw) = elim (as_float raw) [
  | none ↦ err (bad_status raw)
  | some n ↦ ok (Float64.to_int n)
]

-- the last part, behind the checks
unfoldable pub error_rate_of : Config.Fault → Result Error ErrorRate
error_rate_of f = do
  status ← status_of (lookup "status" f.inject)
  ok (record { target = f.target; rate = rate_of f.inject; status = status })

unfoldable pub translate_error_rate : Config.Fault → Result Error ErrorRate
translate_error_rate f = do
  reject_if (not (f.verb == "error_rate")) (other_verb f.verb)
  reject_if (f.target == "") no_target
  reject_if (validate_error_rate f.inject) bad_rate
  error_rate_of f

unfoldable pub error_rate_cycle_len : ℕ
error_rate_cycle_len = 20

-- `rate*20 + 0.5`, each operation rounded as the double it gives
unfoldable pub error_count : Float64 → ℤ
unfolding error_rate_cycle_len
error_count rate = Float64.to_int (
    Float64.add (Float64.mul rate (Float64.of_int (pos error_rate_cycle_len)))
      (Float64.of_ratio 1 2))

unfoldable pub applied_rate : ℤ → Float64
unfolding error_rate_cycle_len
applied_rate count = Float64.div_nat (Float64.of_int count) error_rate_cycle_len

-- approximateErrorRate: the count, the rate that it stands for, whether that is another rate
unfoldable pub approximate_error_rate : Float64 → ℤ × Float64 × Bool
unfolding error_count applied_rate
approximate_error_rate rate =
    let count = error_count rate in
    let applied = applied_rate count in
    (
      count,
      applied,
      Float64.lt (Float64.of_ratio 1 1000000000) (Float64.abs (Float64.sub applied rate)),
    )

-- one stub mapping, without the constants that select every request
pub record Mapping : Type 0 where
  pub scenario_name : String
  pub required_scenario_state : String
  pub new_scenario_state : String
  pub priority : ℕ
  pub url_path_pattern : String
  pub method : String
  pub status : ℤ

unfoldable pub error_rate_scenario_name : String → String
error_rate_scenario_name fault_name = append_text "tortureu_error_rate_" fault_name

unfoldable pub error_rate_state_name : String → ℕ → String
unfolding show
error_rate_state_name fault_name i =
    if eqb i 0 then "Started" else append_text fault_name (append_text "_s" (show i))

-- the loop from state `i` on, with `n` rounds to go
unfoldable pub mappings_from : String → ℤ → ℤ → ℕ → ℕ → List Mapping
unfolding error_rate_cycle_len error_rate_scenario_name error_rate_state_name
mappings_from name errors status i zero = []
mappings_from name errors status i (suc n) =
    record {
      scenario_name = error_rate_scenario_name name;
      required_scenario_state = error_rate_state_name name i;
      new_scenario_state = error_rate_state_name name ((i + 1) % error_rate_cycle_len);
      priority = 1;
      url_path_pattern = ".*";
      method = "ANY";
      status = if ltb_ℤ (pos i) errors then status else pos 200;
    }
    ∷ mappings_from name errors status (suc i) n

unfoldable pub error_rate_mappings : String → ErrorRate → List Mapping
unfolding mappings_from error_rate_cycle_len
error_rate_mappings name r =
    mappings_from name (approximate_error_rate r.rate).0 r.status 0 error_rate_cycle_len
