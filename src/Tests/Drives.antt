-- ===== src/Tests/Drives.antt =====
-- A database load beside two stages.
use tortureu.Base.{
  ℕ, ◌+◌, String, Bool, true, false, List, [], ◌∷◌, ◌++◌, Option, none, some, ◌≡◌, refl, arith, pos,
  ◌⊎◌,
}
use tortureu.Base.Result.{ok}
use tortureu.Float64
use tortureu.Config
use tortureu.Findings.{System}
use tortureu.Drive.{
  DbLoadResult, FuzzResult, CoDrivers, Step, first_marker, db_launched, fuzz_launched, stop, steps,
  new_co_drivers, drive_duration,
}
use tortureu.Drive.Results.{
  Added, apply_drive_results, never_started, db_cut_short, unexecuted, fuzz_finding,
}
use tortureu.Drive.Bound.{drive_duration-profile_end}
use tortureu.Drive.Lifetime.{steps-first_stop}
use tortureu.Drive.Reported.{IsReported, apply_drive_results-IsReported}
use tortureu.Tests.Summaries.{two_stages, two_fit}

drive_duration-profile_end_example : drive_duration two_stages ≡ pos 120000000000
drive_duration-profile_end_example =
    drive_duration-profile_end two_stages two_fit ((λ e. cc), ((λ e. refl), tt)) (omega arith)

abbrev pgbench : String → DbLoadResult
pgbench h = record {
  tps = Float64.of_int (pos 100);
  transactions = pos 6000;
  clients = pos 10;
  duration_s = Float64.of_int (pos 60);
  cut_short = true;
  error = none;
}

abbrev schemathesis : String → FuzzResult
schemathesis h = record {
  failures = record { operation = "GET /orders"; detail = "500" } ∷ [];
  unexecuted = 2;
  cut_short = false;
  error = none;
}

-- the fuzzer's launch returns when the run is over
abbrev before : List Step
before = first_marker ∷ db_launched (ok "pgbench") ∷ []

abbrev after : List Step
after = fuzz_launched (ok "schemathesis") ∷ stop ∷ []

steps-first_stop_example :
    let end = steps pgbench schemathesis (before ++ (stop ∷ after)) new_co_drivers in
    (end.stopped ≡ "pgbench" ∷ [])
    × (end.db_result ≡ some (pgbench "pgbench"))
    × (end.fuzz_result ≡ none)
steps-first_stop_example = steps-first_stop pgbench schemathesis before after refl

abbrev system : System
system = record { sut = "api"; lang = "go"; deps = []; max_confidence = "ambiguous" }

abbrev stopped_drivers : CoDrivers
stopped_drivers = record {
  start_once = true;
  stop_once = true;
  started = true;
  db = some "pgbench";
  fuzz = some "schemathesis";
  db_error = none;
  fuzz_error = none;
  db_result = some (pgbench "pgbench");
  fuzz_result = some (schemathesis "schemathesis");
  stopped = "pgbench" ∷ "schemathesis" ∷ [];
}

abbrev no_faults : Config.Config
no_faults = record two_stages { faults = [] }

abbrev added : Added
added = record {
  db_load = some (pgbench "pgbench");
  warnings = db_cut_short ∷ unexecuted 2 ∷ [];
  findings =
      fuzz_finding "correlated" [] (record { operation = "GET /orders"; detail = "500" }) ∷ [];
}

adds : apply_drive_results no_faults system [] stopped_drivers ≡ ok added
unfolding apply_drive_results tortureu.Base.Sort.sort_strings
adds = refl

apply_drive_results-IsReported_example :
    ((stopped_drivers.started ≡ false)
      × (added.warnings ≡ never_started ∷ [])
      × (added.findings ≡ [])
      × (added.db_load ≡ none))
    ⊎ ((stopped_drivers.started ≡ true) × IsReported no_faults stopped_drivers added)
apply_drive_results-IsReported_example =
    apply_drive_results-IsReported no_faults system [] stopped_drivers added adds
