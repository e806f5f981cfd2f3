-- ===== src/Tests/Summaries.antt =====
-- A script, its markers, the summary that comes back, and the container it ran in.
use tortureu.Base.{
  ℕ, ◌+◌, ◌^◌, ◌<◌, String, Bool, true, false, List, [], ◌∷◌, ◌++◌, Option, none, some, ◌≡◌, ◌≢◌,
  refl, arith, eq_iff, ℤ, pos, map, Dict, ◌⊎◌, inl, inr, All,
}
use tortureu.Base.Result.{ok, err}
use tortureu.Duration.{parse_duration}
use tortureu.Float64
use tortureu.Float64.{Float64}
use tortureu.Value.{Value, float, bool, obj, end, field}
use tortureu.Config
use tortureu.Findings.Thresholds.{validate_threshold_shapes, measured_value, format_observed}
use tortureu.K6
use tortureu.K6.{CompiledStage, Script, compile, load_stage, marker_of}
use tortureu.K6.Stages.{Fits, Starts, compile-Starts}
use tortureu.K6.Summary.{
  ingest_summary, with_metrics, recompute_thresholds, evaluate_threshold, split_threshold_expr,
  lookup_metric_stat, compare,
}
use tortureu.K6.Summary.Judged.{Becomes, threshold_at-recompute, validate-ingest_summary}
use tortureu.K6.Summary.Judged.Holding.{threshold_at}
use tortureu.K6.Summary.Measured.{measured-evaluate_threshold}
use tortureu.Load.{
  K6Runner, Docker, Command, create, scan, start_container, container_id, create_args, not_created,
}
use tortureu.Load.Container.{Cleans, IsLastWord, start_container-Cleans}
use tortureu.Load.Markers.{Logged, line_of, IsPlain, scan-map_line}
use tortureu.Tests.Data.{parsed_config}

abbrev stats : Dict Value
stats =
    ("p(95)", float (Float64.of_int (pos 3)))
    ∷ ("thresholds", obj (field "p(95)<5" (bool false) end))
    ∷ []

abbrev duration_metric : Value
duration_metric = obj (
    field "p(95)" (float (Float64.of_int (pos 3)))
      (field "thresholds" (obj (field "p(95)<5" (bool false) end)) end))

-- k6 says that the threshold failed
abbrev metrics : Dict Value
metrics = ("http_req_duration", duration_metric) ∷ []

three_below_five : evaluate_threshold stats "p(95)<5" ≡ true
unfolding evaluate_threshold Float64.of_int
three_below_five = refl

threshold_at-recompute_example :
    Becomes metrics "http_req_duration" "p(95)<5"
      (threshold_at (recompute_thresholds metrics) "http_req_duration" "p(95)<5")
threshold_at-recompute_example = threshold_at-recompute metrics "http_req_duration" "p(95)<5"

ingested : ingest_summary (with_metrics metrics) ≡ ok (recompute_thresholds metrics)
unfolding ingest_summary
ingested = refl

validate-ingest_summary_example : validate_threshold_shapes (recompute_thresholds metrics) ≡ false
validate-ingest_summary_example =
    validate-ingest_summary (with_metrics metrics) (recompute_thresholds metrics) ingested

measured-evaluate_threshold_example :
    (key : String) × (op : String) × (limit : Float64) × (x : Float64) × (split_threshold_expr
        "p(95)<5"
      ≡ some (key, op, limit))
    × (lookup_metric_stat stats key ≡ some x)
    × (compare x op limit ≡ some true)
    × (measured_value "http_req_duration" stats "p(95)<5"
        ≡ some (format_observed "http_req_duration" x))
measured-evaluate_threshold_example =
    measured-evaluate_threshold "http_req_duration" stats "p(95)<5" three_below_five

-- one stage of a minute, then one that holds
abbrev pub ramp : Config.Stage
ramp = record { phase = "ramp"; to = "10rps"; hold = ""; over = "60s"; for = "" }

abbrev pub peak : Config.Stage
peak = record { phase = "peak"; to = ""; hold = "10rps"; over = ""; for = "30s" }

abbrev pub two_stages : Config.Config
two_stages = record parsed_config { load = record parsed_config.load { stages = ramp ∷ peak ∷ [] } }

pub minute : parse_duration "60s" ≡ some (pos 60000000000)
unfolding parse_duration tortureu.Base.Text.matches tortureu.Duration.term
minute = refl

pub half_minute : parse_duration "30s" ≡ some (pos 30000000000)
unfolding parse_duration tortureu.Base.Text.matches tortureu.Duration.term
half_minute = refl

abbrev pub two_fit : Fits 0 (ramp ∷ peak ∷ [])
two_fit = (60000000000, minute, omega arith, (30000000000, half_minute, omega arith, tt))

abbrev two_script : Script
two_script = record {
  pre_allocated_vus = pos 15;
  max_vus = pos 60;
  stages = (Float64.of_int (pos 10), "60s") ∷ (Float64.of_int (pos 10), "30s") ∷ [];
  markers =
      record { phase = "ramp"; start_time = pos 0 }
      ∷ record { phase = "peak"; start_time = pos 60000000000 }
      ∷ [];
  thresholds = K6.thresholds_json two_stages.assert;
  scenarios = K6.scenarios_json two_stages.target.base_url two_stages.load.scenarios;
}

two_compile : compile two_stages ≡ ok two_script
unfolding compile tortureu.Duration.term Float64.of_int
two_compile = refl

compile-Starts_example :
    (cs : List CompiledStage) × Starts 0 (ramp ∷ peak ∷ []) cs
    × (two_script.stages ≡ map (λ c. (c.target, c.duration)) cs)
    × (two_script.markers ≡ map (λ c. record { phase = c.phase; start_time = c.start_at }) cs)
compile-Starts_example = compile-Starts two_stages two_script two_fit two_compile

abbrev logged : List Logged
logged =
    record { time = "2026-08-08T11:43:02Z"; phase = "ramp"; stamp = "0" }
    ∷ record { time = "2026-08-08T11:44:02Z"; phase = "peak"; stamp = "60000" }
    ∷ []

logged-IsPlain : All IsPlain logged
unfolding tortureu.Load.max_scan_token_size K6.phase_marker_prefix tortureu.Base.Strings.is_white
logged-IsPlain = (
  (refl, refl, ground (arith, eq_iff "ramp" ""), refl),
  ((refl, refl, ground (arith, eq_iff "peak" ""), refl), tt),
)

scan-map_line_example : scan (map line_of logged) ≡ "ramp" ∷ "peak" ∷ []
scan-map_line_example = scan-map_line logged logged-IsPlain

abbrev runner : K6Runner
runner = record {
  bin = "";
  dir = "";
  image = "";
  docker_bin = "";
  container_args = none;
  sut_container = "sut";
}

-- the script cannot be copied into the container
abbrev docker : Docker
docker = record {
  created = ok "pulling\nabc123\n";
  copied_in = some "no space left";
  stdout_pipe = none;
  stderr_pipe = none;
  started = none;
  waited = none;
  copied_out = none;
  summary = err "no such file";
}

start_container-Cleans_example :
    ((e : String) × (docker.created ≡ err e)
      × (start_container runner docker ≡ (create (create_args runner) ∷ [], err (not_created e))))
    ⊎ ((out : String) × (id : String) × (log : List Command) × (docker.created ≡ ok out)
        × IsLastWord id out
        × ((start_container runner docker).0 ≡ create (create_args runner) ∷ log)
        × Cleans id log)
start_container-Cleans_example = start_container-Cleans runner docker
