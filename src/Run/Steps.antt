-- ===== src/Run/Steps.antt =====
-- internal/run/run.go: the steps of Run, in their order.
use tortureu.Base.{
  ℕ, suc, String, Bool, false, List, [], ◌∷◌, ◌++◌, Option, none, some, ◌==◌, ◌||◌, ◌&&◌, not, Dict,
  contains, if◌then◌else◌, lookup, pos,
}
use tortureu.Base.Decimal.{append_text, show}
use tortureu.Base.Result.{Result, ok, err, ◌>>=◌}
use tortureu.Base.Strings.{trim_space}
use tortureu.Base.Text.{concat}
use tortureu.Float64
use tortureu.Float64.{Float64}
use tortureu.Value.{Value}
use tortureu.Config
use tortureu.Egress.{
  Class, class_real, class_mock, class_internal, classify, audit, check_unclassified,
  check_multiplier,
}
use tortureu.Fault.{network_verbs}
use tortureu.Verdict.{Status, Finding, status_pass, status_fail, status_aborted}
use tortureu.Findings.Thresholds.{
  Context, Results, evaluate_thresholds, evaluate_promql_asserts, evaluate_sql_asserts,
  validate_threshold_shapes,
}
use tortureu.Scheduler.Apply.{Failure, is_note}
use tortureu.Run.{
  reset_run, topology_applied, load_started, LoadEnd, finished, load_failed, in_reset, in_classes,
  in_topology, in_prepare, in_start, in_load, in_faults, in_summary, Env, Progress, Step, watch,
  new_verdict, finish, fail, add_warning, warn, effect, tear_down, tear_down_all, unless_aborted,
}

-- R-EXE-28
unfoldable pub check_base_url : Env → Progress → Step
unfolding trim_space
check_base_url env p =
    if trim_space env.config.target.base_url == ""
    then err (
        fail env "target.base_url is empty"
          (concat (
            "nothing to send load to; `tortureu init` does not detect a base URL (SPEC.md TBD-15), so set target.base_url"
            ∷ " to the SUT's reachable address, e.g. http://localhost:8000" ∷ []))
          p)
    else ok p

abbrev pub reset_failed : Env → String → Progress → Progress
reset_failed env e p = finish env status_aborted (record p {
  verdict = record p.verdict { reset = "failed"; error = append_text "reset failed: " e };
})

abbrev pub with_reset : Env → Option String → Progress → Step
with_reset env (some e) p = err (reset_failed env e p)
with_reset env none p = unless_aborted env (effect reset_run p)

unfoldable pub reset_step : Env → Progress → Step
reset_step env p =
    let q = watch env in_reset tear_down p in
    if env.no_reset
    then unless_aborted env (record q { verdict = record q.verdict { reset = "skipped" } })
    else with_reset env env.reset_error q

unfoldable pub classes_of : Env → Dict Class
unfolding classify
classes_of env = classify env.detected env.config.egress

-- Options.multiplier
abbrev pub effective_multiplier : Env → Float64
effective_multiplier env =
    if Float64.le env.multiplier (Float64.of_int (pos 0))
    then Float64.of_int (pos 1)
    else env.multiplier

abbrev pub with_audit : Env → Progress → Progress
with_audit env p = record p { verdict = record p.verdict { egress_audit = audit (classes_of env) } }

unfoldable pub classify_step : Env → Progress → Step
unfolding classes_of audit check_unclassified check_multiplier
classify_step env p =
    let q = watch env in_classes tear_down p in
    elim (check_unclassified (classes_of env)) [
      | some hosts ↦ err (finish env status_aborted (with_audit env q))
      | none ↦
          if check_multiplier (classes_of env) (effective_multiplier env) env.allow_real_traffic
          then err (finish env status_aborted (with_audit env q))
          else unless_aborted env (with_audit env q)
    ]

unfoldable pub external_hosts : Dict Class → List String
external_hosts [] = []
external_hosts ((host, class) ∷ rest) =
    if class == class_real || class == class_mock
    then host ∷ external_hosts rest
    else external_hosts rest

abbrev is_class : Class → String → Dict Class → Bool
is_class class host classes = elim (lookup host classes) [ none ↦ false | some c ↦ c == class ]

-- networkFaultVerbs are internal/fault's verbs of the network
unfoldable pub internal_network_fault_targets :
    Dict Class → List String → List Config.Fault → List String
internal_network_fault_targets classes seen [] = []
internal_network_fault_targets classes seen (f ∷ fs) =
    if not (is_class class_internal f.target classes) || not (contains network_verbs f.verb)
    then internal_network_fault_targets classes seen fs
    else if contains seen f.target
    then internal_network_fault_targets classes seen fs
    else f.target ∷ internal_network_fault_targets classes (f.target ∷ seen) fs

-- a step that fails tears down and fails the run
abbrev pub or_fail : Env → Option String → String → Progress → Step
or_fail env none reason p = ok p
or_fail env (some e) reason p = err (fail env reason e (tear_down_all env p))

abbrev pub with_topology : Env → Option String → Progress → Step
with_topology env (some e) p = err (fail env "apply egress topology" e (tear_down p))
with_topology env none p = ok (
    effect
      (topology_applied (external_hosts (classes_of env))
        (internal_network_fault_targets (classes_of env) [] env.config.faults))
      p)

unfoldable pub topology_step : Env → Progress → Step
unfolding classes_of external_hosts internal_network_fault_targets
topology_step env p = with_topology env env.topology_error (watch env in_topology tear_down p)

unfoldable pub prepare_step : Env → Progress → Step
prepare_step env p = do
  p1 ←
      or_fail env env.proxies_error "configure egress proxy"
        (watch env in_prepare (tear_down_all env) p)
  p2 ←
      or_fail env env.container_error
        "locate SUT container for the load generator's network attachment" p1
  p3 ← or_fail env env.compile_error "compile k6 script" p2
  unless_aborted env p3

abbrev pub load_ended : Env → LoadEnd → Progress → Step
load_ended env finished p = unless_aborted env p
load_ended env (load_failed e) p = err (fail env "load generator failed" e (tear_down_all env p))

-- the select: the caught signal is ready once the watcher has torn down
abbrev pub select_end : Env → Progress → Step
select_end env p =
    if p.aborted && env.caught_first
    then err (finish env status_aborted p)
    else load_ended env env.load_end p

unfoldable pub load_step : Env → Progress → Step
load_step env p = do
  p1 ← or_fail env env.start_error "start load generator" (watch env in_start (tear_down_all env) p)
  select_end env (watch env in_load (tear_down_all env) (effect load_started p1))

-- the approximation notes become warnings
unfoldable pub note_warnings : Env → List (String × Failure String) → Progress → Progress
note_warnings env [] p = p
note_warnings env ((name, e) ∷ errs) p =
    if is_note e
    then note_warnings env errs (add_warning (env.text_of name e) p)
    else note_warnings env errs p

unfoldable pub real_errors : List (String × Failure String) → List (String × Failure String)
real_errors [] = []
real_errors ((name, e) ∷ errs) =
    if is_note e then real_errors errs else (name, e) ∷ real_errors errs

-- errors.Join
abbrev joined : Env → List (String × Failure String) → String
joined env [] = ""
joined env ((name, e) ∷ []) = env.text_of name e
joined env ((name, e) ∷ x ∷ errs) = concat (env.text_of name e ∷ "\n" ∷ joined env (x ∷ errs) ∷ [])

abbrev pub unless_failed : Env → List (String × Failure String) → Progress → Step
unless_failed env [] p = unless_aborted env p
unless_failed env (e ∷ errs) p =
    err (fail env "fault scheduling failed" (joined env (e ∷ errs)) (tear_down_all env p))

unfoldable pub faults_step : Env → Progress → Step
unfolding note_warnings real_errors
faults_step env p =
    unless_failed env (real_errors env.schedule_errors)
      (note_warnings env env.schedule_errors (watch env in_faults (tear_down_all env) p))

abbrev pub context_of : Env → Context
context_of env = record {
  faults = env.config.faults;
  system = env.system;
  audit = env.audit_findings;
  traces = env.traces;
}

-- findings[i].ID = fmt.Sprintf("f%d", i+1)
abbrev pub number_from : ℕ → List Finding → List Finding
number_from i [] = []
number_from i (f ∷ fs) = record f { id = append_text "f" (show i) } ∷ number_from (suc i) fs

abbrev pub verdict_of : List Finding → Status
verdict_of [] = status_pass
verdict_of (f ∷ fs) = status_fail

-- the end of Run, once every source of findings is evaluated
unfoldable pub report : Env → Results → Progress → Progress
unfolding show
report env (passed, findings) p =
    let numbered = number_from 1 findings in
    let torn = tear_down_all env p in
    finish env (verdict_of numbered) (
      warn env.throughput_warning
        (record torn { verdict = record torn.verdict { passed = passed; findings = numbered } }))

-- the three sources, each list in its order
abbrev pub merged : Results → Results → Results → Results
merged (p, f) (q, g) (r, h) = (p ++ q ++ r, f ++ g ++ h)

abbrev pub with_sql : Env → Results → Results → Option Results → Progress → Step
with_sql env thresholds proms none p =
    err (fail env "sql: assertion could not be evaluated" (env.detail "sql") (tear_down_all env p))
with_sql env thresholds proms (some sqls) p = ok (report env (merged thresholds proms sqls) p)

abbrev pub with_metrics : Env → Dict Value → Progress → Progress
with_metrics env metrics p = record p { verdict = record p.verdict { metrics = metrics } }

unfoldable pub evaluated : Env → Dict Value → Progress → Step
unfolding evaluate_thresholds evaluate_promql_asserts evaluate_sql_asserts
evaluated env metrics p =
    with_sql env (evaluate_thresholds (context_of env) metrics)
      (evaluate_promql_asserts (context_of env) env.querier env.config.assert)
      (evaluate_sql_asserts (context_of env) env.sql env.config.assert) p

unfoldable pub with_summary : Env → Result String (Dict Value) → Progress → Step
unfolding validate_threshold_shapes evaluated
with_summary env (err e) p = err (fail env "parse k6 summary" e (tear_down_all env p))
with_summary env (ok metrics) p =
    if validate_threshold_shapes metrics
    then err (
        fail env "k6 summary could not be read" (env.detail "shape")
          (tear_down_all env (with_metrics env metrics p)))
    else evaluated env metrics (with_metrics env metrics p)

unfoldable pub report_step : Env → Progress → Step
unfolding with_summary
report_step env p = with_summary env env.summary (watch env in_summary (tear_down_all env) p)

-- behind the classification: everything that a failing exit has to tear down
unfoldable pub isolated_steps : Env → Progress → Step
unfolding prepare_step load_step faults_step report_step
isolated_steps env p = do
  p1 ← prepare_step env p
  p2 ← load_step env p1
  p3 ← faults_step env p2
  report_step env p3

unfoldable pub from_topology : Env → Progress → Step
unfolding topology_step isolated_steps
from_topology env p = topology_step env p >>= isolated_steps env

unfoldable pub from_classes : Env → Progress → Step
unfolding classify_step from_topology
from_classes env p = classify_step env p >>= from_topology env

unfoldable pub from_reset : Env → Progress → Step
unfolding reset_step from_classes
from_reset env p = reset_step env p >>= from_classes env

unfoldable pub steps : Env → Progress → Step
unfolding check_base_url from_reset
steps env p = check_base_url env p >>= from_reset env

abbrev pub settled : Step → Progress
settled (ok p) = p
settled (err p) = p

unfoldable pub begun : Env → Progress
unfolding new_verdict
begun env = record { verdict = new_verdict env; effects = []; aborted = false }

unfoldable pub run : Env → Progress
unfolding steps begun
run env = settled (steps env (begun env))
