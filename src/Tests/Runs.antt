-- ===== src/Tests/Runs.antt =====
-- A whole run that finds one broken threshold.
use tortureu.Base.{[], ◌∷◌, none, true, false, ◌≡◌, refl, pos}
use tortureu.Base.Result.{ok}
use tortureu.Float64.{Float64}
use tortureu.Run.{Env, finished, in_topology, topology_applied, torn_down, reset_run}
use tortureu.Run.Steps.{run}
use tortureu.Run.Report.{Ending}
use tortureu.Run.Report.Final.{run-Ending}
use tortureu.Tests.Data.{parsed_config, one}
use tortureu.Tests.Attribution.{system, audited, metrics}
use tortureu.Tests.Spans.{traces}

abbrev env : Env
env = record {
  config = parsed_config;
  detected = ("db:5432", "internal") ∷ [];
  system = system;
  observability = record {
    traces = true;
    metrics = false;
    logs = false;
    max_confidence = "caused";
  };
  run_id = "run";
  started_at = "";
  commit = "";
  duration_s = 90;
  no_reset = false;
  allow_real_traffic = false;
  multiplier = one;
  reset_error = none;
  topology_error = none;
  proxies_error = none;
  container_error = none;
  compile_error = none;
  start_error = none;
  load_end = finished;
  schedule_errors = [];
  summary = ok metrics;
  querier = none;
  sql = none;
  audit_findings = audited;
  traces = traces;
  throughput_warning = none;
  disabled_error = none;
  signal = (λ m. false);
  caught_first = true;
  text_of = (λ name e. name);
  detail = (λ reason. reason);
}

run-Ending_example : Ending env (run env).verdict
run-Ending_example = run-Ending env

-- a signal while the topology is applied: the teardown comes first, and nothing tears down behind it
abbrev interrupted : Env
interrupted = record env {
  multiplier = Float64.finite (pos 0);
  signal = (λ m. elim m [ in_topology ↦ true | _ ↦ false ]);
}

interrupted_effects :
    (run interrupted).effects
    ≡ topology_applied ("api.stripe.com:443" ∷ []) ("db:5432" ∷ []) ∷ torn_down ∷ reset_run ∷ []
unfolding run tortureu.Egress.unclassified_hosts tortureu.Egress.classify_one
    tortureu.Float64.of_int tortureu.Fault.network_verbs
interrupted_effects = refl
