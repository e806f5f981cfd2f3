-- ===== src/Tests/Scheduling.antt =====
-- Faults on the clock of two phase markers.
use tortureu.Base.{String, List, [], ◌∷◌, none, some, ◌≡◌, ◌+◌, length, All, pos, Bool, ◌==◌, Dict}
use tortureu.Base.Result.{ok, err}
use tortureu.Config
use tortureu.Scheduler.{PhaseMarker, schedule_faults}
use tortureu.Scheduler.Anchor.{
  tally_scheduled, tally_failed, tally_faults, schedule_faults-accounted,
}
use tortureu.Scheduler.Due.{IsDue, schedule_faults-IsDue}
use tortureu.Scheduler.Apply.{Appliers, World, apply_faults}
use tortureu.Scheduler.Apply.Outcome.{Outcome}
use tortureu.Scheduler.Apply.Outcome.Tally.{tracked, failures, apply_faults-tally}
use tortureu.Tests.Data.{slow_db, poison, flaky}

abbrev markers : List PhaseMarker
markers = record { phase = "ramp"; at = pos 1000 } ∷ []

abbrev faults : List Config.Fault
faults = slow_db ∷ poison ∷ flaky ∷ []

abbrev is_flaky : Config.Fault → Bool
is_flaky f = f.name == "flaky"

schedule_faults-accounted_example :
    tally_scheduled is_flaky (schedule_faults (pos 0) markers faults).0
      + tally_failed is_flaky (schedule_faults (pos 0) markers faults).1
    ≡ tally_faults is_flaky faults
schedule_faults-accounted_example = schedule_faults-accounted is_flaky (pos 0) markers faults

schedule_faults-IsDue_example :
    All (IsDue (pos 0) markers) (schedule_faults (pos 0) markers faults).0
schedule_faults-IsDue_example = schedule_faults-IsDue (pos 0) markers faults

-- the proxy answers, Docker does not, no broker is wired
abbrev appliers : Appliers String String
appliers = record {
  apply_toxic = (λ name t. ok name);
  apply_docker = (λ name d. err "no daemon");
  broker = none;
  mock = some (λ name ms. ok name);
}

abbrev classes : Dict String
classes = ("db:5432", "internal") ∷ ("api.stripe.com:443", "mock") ∷ []

abbrev idle : World String String
idle = record { manager = []; queue = []; expiring = []; timers = []; errs = [] }

apply_faults-tally_example :
    tracked (apply_faults appliers classes faults idle)
      + failures (apply_faults appliers classes faults idle).errs
    ≡ tracked idle + failures idle.errs + length faults
apply_faults-tally_example = apply_faults-tally appliers classes faults idle
