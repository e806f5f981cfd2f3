-- ===== src/Drive.antt =====
-- internal/run/drive.go: the database load and the fuzzer that run beside the HTTP load.
pub mod Bound
pub mod Lifetime
pub mod Results
pub mod Reported
use tortureu.Base.{
  ℕ, String, Bool, true, false, List, [], ◌∷◌, ◌++◌, Option, none, some, ◌==◌, not, contains, ℤ,
  pos, ◌+ℤ◌, ltb_ℤ, if◌then◌else◌, map, length, ltb,
}
use tortureu.Base.Decimal.{append_text, show}
use tortureu.Base.Result.{Result, ok, err, reject_if, reject_some, ◌>>=◌, ◌>>◌}
use tortureu.Base.Strings.{trim_space}
use tortureu.Base.Text.{concat}
use tortureu.Duration.{parse_duration}
use tortureu.Float64.{Float64}
use tortureu.Config
use tortureu.Config.{Stage}
use tortureu.K6.{wrap}
use tortureu.Verdict.{Finding, Confidence, correlated, ambiguous, Candidate}
use tortureu.Findings.{System, AuditFinding, build_candidates_from_detected_deps}
use tortureu.Findings.Thresholds.{no_finding}

pub record DbLoadResult : Type 0 where
  pub tps : Float64
  pub transactions : ℤ
  pub clients : ℤ
  pub duration_s : Float64
  pub cut_short : Bool
  pub error : Option String

pub record FuzzFailure : Type 0 where
  pub operation : String
  pub detail : String

pub record FuzzResult : Type 0 where
  pub failures : List FuzzFailure
  pub unexecuted : ℕ
  pub cut_short : Bool
  pub error : Option String

-- nanoseconds
unfoldable pub drive_duration_slack : ℤ
drive_duration_slack = pos 30000000000

unfoldable pub drive_duration_min : ℤ
drive_duration_min = pos 10000000000

abbrev pub drive_text : Stage → String
drive_text s = if s.over == "" then s.for else s.over

unfoldable pub total_from : ℤ → List Stage → ℤ
total_from total [] = total
total_from total (s ∷ ss) = elim (parse_duration (drive_text s)) [
  | none ↦ total_from total ss
  | some d ↦ total_from (wrap (total +ℤ d)) ss
]

unfoldable pub drive_duration : Config.Config → ℤ
unfolding total_from drive_duration_slack drive_duration_min
drive_duration cfg =
    let bound = wrap (total_from (pos 0) cfg.load.stages +ℤ drive_duration_slack) in
    if ltb_ℤ bound drive_duration_min then drive_duration_min else bound

-- what detection says: the types of the dependencies, and whether there is an OpenAPI document
pub record Detected : Type 0 where
  pub dep_types : List String
  pub openapi : Bool

-- a runner that is wired, with what its preflight answers
abbrev pub Runner : Type 0
Runner = Option (Option String)

pub record Wiring : Type 0 where
  pub db_load : Runner
  pub fuzz : Runner

pub record Options : Type 0 where
  pub db_load : Bool
  pub db_url : String
  pub fuzz : Bool
  pub fuzz_spec : String

pub data Refusal : Type 0 where
  no_postgres no_db_url no_db_runner : Refusal
  no_openapi no_spec no_base_url no_fuzzer : Refusal
  preflight : String → Refusal

unfoldable pub has_dep_type : Detected → String → Bool
has_dep_type sys typ = contains sys.dep_types typ

unfoldable pub fuzz_spec_path : Config.Config → Options → String
unfolding trim_space
fuzz_spec_path cfg opts =
    if not (trim_space opts.fuzz_spec == "")
    then trim_space opts.fuzz_spec
    else trim_space cfg.target.openapi

-- the nil check and the preflight of a runner
unfoldable pub drive_preflight : Refusal → Runner → Option Refusal
drive_preflight absent none = some absent
drive_preflight absent (some none) = none
drive_preflight absent (some (some e)) = some (preflight e)

unfoldable pub check_db_flags : Detected → Wiring → Options → Result Refusal (Unit {0})
unfolding has_dep_type trim_space drive_preflight
check_db_flags sys deps opts = do
  reject_if (not (has_dep_type sys "postgresql")) no_postgres
  reject_if (trim_space opts.db_url == "") no_db_url
  reject_some (drive_preflight no_db_runner deps.db_load)

unfoldable pub check_fuzz_flags :
    Config.Config → Detected → Wiring → Options → Result Refusal (Unit {0})
unfolding fuzz_spec_path trim_space drive_preflight
check_fuzz_flags cfg sys deps opts = do
  reject_if (not sys.openapi) no_openapi
  reject_if (fuzz_spec_path cfg opts == "") no_spec
  reject_if (trim_space cfg.target.base_url == "") no_base_url
  reject_some (drive_preflight no_fuzzer deps.fuzz)

unfoldable pub check_drive_flags :
    Config.Config → Detected → Wiring → Options → Result Refusal (Unit {0})
unfolding check_db_flags check_fuzz_flags
check_drive_flags cfg sys deps opts = do
  if opts.db_load then check_db_flags sys deps opts else ok tt
  if opts.fuzz then check_fuzz_flags cfg sys deps opts else ok tt

-- coDrivers, with the handles that have been stopped
pub record CoDrivers : Type 0 where
  pub start_once : Bool
  pub stop_once : Bool
  pub started : Bool
  pub db : Option String
  pub fuzz : Option String
  pub db_error : Option String
  pub fuzz_error : Option String
  pub db_result : Option DbLoadResult
  pub fuzz_result : Option FuzzResult
  pub stopped : List String

unfoldable pub new_co_drivers : CoDrivers
new_co_drivers = record {
  start_once = false;
  stop_once = false;
  started = false;
  db = none;
  fuzz = none;
  db_error = none;
  fuzz_error = none;
  db_result = none;
  fuzz_result = none;
  stopped = [];
}

-- What happens under the mutex: the first marker starts the tools, a tool's Start returns in the
-- goroutine of that marker, and some path of the run stops the tools.
pub data Step : Type 0 where
  first_marker : Step
  db_launched : Result String String → Step
  fuzz_launched : Result String String → Step
  stop : Step

abbrev handle_of : Result String String → Option String
handle_of (ok h) = some h
handle_of (err e) = none

abbrev error_of : Result String String → Option String
error_of (ok h) = none
error_of (err e) = some e

abbrev pub listed : Option String → List String
listed none = []
listed (some h) = h ∷ []

module _ (stop_db : String → DbLoadResult) (stop_fuzz : String → FuzzResult) where
  abbrev pub stopped_db : Option String → Option DbLoadResult
  stopped_db none = none
  stopped_db (some h) = some (stop_db h)

  abbrev pub stopped_fuzz : Option String → Option FuzzResult
  stopped_fuzz none = none
  stopped_fuzz (some h) = some (stop_fuzz h)

  unfoldable pub step : Step → CoDrivers → CoDrivers
  step first_marker c = if c.start_once then c else record c { start_once = true; started = true }
  step (db_launched r) c = record c { db = handle_of r; db_error = error_of r }
  step (fuzz_launched r) c = record c { fuzz = handle_of r; fuzz_error = error_of r }
  step stop c = if c.stop_once then c else record c {
    stop_once = true;
    db_result = stopped_db c.db;
    fuzz_result = stopped_fuzz c.fuzz;
    stopped = c.stopped ++ (listed c.db ++ listed c.fuzz);
  }

  unfoldable pub steps : List Step → CoDrivers → CoDrivers
  unfolding step
  steps [] c = c
  steps (s ∷ ss) c = steps ss (step s c)
