-- ===== src/Run.antt =====
-- internal/run/run.go: Run, for runs without --db-load and --fuzz. What the seams answer is in Env: an
-- error, or nothing where a step succeeds. The log of the effects holds the latest one first.
pub mod Steps
pub mod Order
pub mod Report
use tortureu.Base.{
  ℕ, suc, String, Bool, true, false, List, [], ◌∷◌, ◌++◌, Option, none, some, ◌==◌, ◌||◌, ◌&&◌, not,
  Dict, contains, if◌then◌else◌, lookup, pos,
}
use tortureu.Base.Decimal.{append_text, show}
use tortureu.Base.Result.{Result, ok, err, ◌>>=◌}
use tortureu.Base.Strings.{trim_space}
use tortureu.Base.Text.{concat}
use tortureu.Float64
use tortureu.Float64.{Float64}
use tortureu.Value.{Value}
use tortureu.Config
use tortureu.Egress.{
  Class, class_real, class_mock, class_internal, classify, audit, check_unclassified,
  check_multiplier, no_audit,
}
use tortureu.Fault.{network_verbs}
use tortureu.Trace.{Trace}
use tortureu.Verdict.{
  Verdict, Status, Finding, Passed, Observability, status_pass, status_fail, status_error,
  status_aborted,
}
use tortureu.Findings.{System, AuditFinding}
use tortureu.Findings.Thresholds.{
  Context, Answer, Results, evaluate_thresholds, evaluate_promql_asserts, evaluate_sql_asserts,
  validate_threshold_shapes,
}
use tortureu.Scheduler.Apply.{Failure, is_note}

pub data Effect : Type 0 where
  reset_run : Effect
  topology_applied : List String → List String → Effect
  load_started : Effect
  torn_down : Effect

-- what the load generator's handle sends, on Done or on Err
pub data LoadEnd : Type 0 where
  finished : LoadEnd
  load_failed : String → LoadEnd

-- The stretches of Run in which the signal watcher's teardown can come to its end. `in_topology` is the
-- one between the check behind the classification and the return of Topology.Apply, `in_prepare` the one
-- from there to the check behind the compilation, `in_start` the one up to the return of Load.Start, and
-- `in_summary` the one behind the last check.
pub data Moment : Type 0 where
  in_reset in_classes in_topology in_prepare in_start in_load in_faults in_summary : Moment

pub record Env : Type 0 where
  pub config : Config.Config
  pub detected : Dict String
  pub system : System
  pub observability : Observability
  pub run_id : String
  pub started_at : String
  pub commit : String
  pub duration_s : ℕ
  pub no_reset : Bool
  pub allow_real_traffic : Bool
  pub multiplier : Float64
  pub reset_error : Option String
  pub topology_error : Option String
  pub proxies_error : Option String
  pub container_error : Option String
  pub compile_error : Option String
  pub start_error : Option String
  pub load_end : LoadEnd
  pub schedule_errors : List (String × Failure String)
  pub summary : Result String (Dict Value)
  pub querier : Option (String → Answer)
  pub sql : Option (String → Option ℕ)
  pub audit_findings : List AuditFinding
  pub traces : List Trace
  pub throughput_warning : Option String
  pub disabled_error : Option String  -- of the cleanup that a successful Topology.Apply arms
  pub signal : Moment → Bool  -- whether a signal's teardown ends there; only the first one counts
  pub caught_first : Bool  -- whether the select takes the caught signal where it is ready
  pub text_of : String → Failure String → String  -- the text of an error of the scheduler
  pub detail : String → String  -- the text of another error, by the reason it is given with

pub record Progress : Type 0 where
  pub verdict : Verdict
  pub effects : List Effect
  pub aborted : Bool  -- the atomic flag that the signal watcher sets behind its teardown

-- `err` is a return
abbrev pub Step : Type 0
Step = Result Progress Progress

unfoldable pub new_verdict : Env → Verdict
new_verdict env = record {
  run_id = env.run_id;
  scenario = env.config.target.service;
  status = status_error;
  started_at = env.started_at;
  duration_s = 0;
  commit = env.commit;
  reset = "clean";
  error = "";
  findings = [];
  passed = [];
  egress_audit = no_audit;
  observability = env.observability;
  metrics = [];
  warnings = [];
}

-- finish(status)
abbrev pub finish : Env → Status → Progress → Progress
finish env status p = record p {
  verdict = record p.verdict { status = status; duration_s = env.duration_s };
}

-- fail(reason, err)
abbrev pub fail : Env → String → String → Progress → Progress
fail env reason e p =
    finish env status_error
      (record p { verdict = record p.verdict { error = concat (reason ∷ ": " ∷ e ∷ []) } })

abbrev pub add_warning : String → Progress → Progress
add_warning msg p = record p {
  verdict = record p.verdict { warnings = p.verdict.warnings ++ (msg ∷ []) };
}

abbrev pub warn : Option String → Progress → Progress
warn none p = p
warn (some msg) p = add_warning msg p

abbrev pub effect : Effect → Progress → Progress
effect e p = record p { effects = e ∷ p.effects }

-- teardownAll, before and behind the topology
abbrev pub tear_down : Progress → Progress
tear_down p = effect torn_down p

abbrev pub disabled_text : Option String → Option String
disabled_text none = none
disabled_text (some e) =
    some (append_text "teardown of disabled dependency container(s) failed: " e)

abbrev pub tear_down_all : Env → Progress → Progress
tear_down_all env p = effect torn_down (warn (disabled_text env.disabled_error) p)

-- The signal watcher's goroutine: it tears down when the signal comes, whatever Run is doing, sets the
-- flag, and ends. Run itself goes on to its next check.
abbrev pub watch : Env → Moment → (Progress → Progress) → Progress → Progress
watch env m down p = if env.signal m && not p.aborted then record (down p) { aborted = true } else p

-- abortedEarly
abbrev pub unless_aborted : Env → Progress → Step
unless_aborted env p = if p.aborted then err (finish env status_aborted p) else ok p
