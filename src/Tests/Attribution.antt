-- ===== src/Tests/Attribution.antt =====
-- A broken threshold, attributed to a slow database.
use tortureu.Base.{List, [], ◌∷◌, ◌≡◌, ◌⊎◌, Dict, keys, true, false}
use tortureu.Base.Sort.{sort_strings}
use tortureu.Value.{Value, bool, obj, field, end}
use tortureu.Config
use tortureu.Findings.{AuditFinding, System}
use tortureu.Findings.Chain.{apply_trace_chain}
use tortureu.Findings.Chain.Earned.{IsChained, apply_trace_chain-IsChained}
use tortureu.Findings.Thresholds.{Context, no_finding, evaluate_thresholds}
use tortureu.Findings.Thresholds.Verdicts.{
  passed_names, broken_names, judged, with_outcome, evaluate_thresholds-Agrees,
}
use tortureu.Tests.Data.{slow_db}
use tortureu.Tests.Spans.{traces}

abbrev pub system : System
system = record {
  sut = "api";
  lang = "go";
  deps =
      record {
        name = "db";
        address = "db:5432";
        clients = "github.com/jackc/pgx/v5" ∷ "github.com/jackc/pgx/v5" ∷ [];
      }
      ∷ [];
  max_confidence = "caused";
}

abbrev pub audited : List AuditFinding
audited = record { dep_name = "api"; library = "net/http" } ∷ []

abbrev faults : List Config.Fault
faults = slow_db ∷ []

apply_trace_chain-IsChained_example :
    (apply_trace_chain no_finding system traces faults ≡ no_finding)
    ⊎ IsChained system traces faults no_finding (apply_trace_chain no_finding system traces faults)
apply_trace_chain-IsChained_example = apply_trace_chain-IsChained no_finding system traces faults

-- a threshold in each of the two shapes
abbrev pub metrics : Dict Value
metrics =
    ("http_req_duration", obj (field "thresholds" (obj (field "p(95)<500" (bool true) end)) end))
    ∷ (
      "checks",
      obj (field "thresholds" (obj (field "rate>0.9" (obj (field "ok" (bool true) end)) end)) end),
    )
    ∷ []

abbrev context : Context
context = record { faults = faults; system = system; audit = audited; traces = traces }

evaluate_thresholds-Agrees_example :
    (passed_names (evaluate_thresholds context metrics).0
      ≡ with_outcome true (judged metrics (sort_strings (keys metrics))))
    × (broken_names (evaluate_thresholds context metrics).1
        ≡ with_outcome false (judged metrics (sort_strings (keys metrics))))
evaluate_thresholds-Agrees_example = evaluate_thresholds-Agrees context metrics
