-- ===== src/Run/Report.antt =====
-- What a verdict reports at the end of a run, and what it may have stopped for.
pub mod Stops
pub mod Final
use tortureu.Base.{
  ℕ, suc, ◌+◌, ◌≤◌, ◌<◌, String, Bool, true, false, List, [], ◌∷◌, Option, none, some, ◌≡◌, ◌≢◌,
  refl, Bool-cases, Option-cases, inl, inr, ◌⊎◌, arith, if◌then◌else◌, map, ap, if_elim,
  AreDistinct, contains, Dict, ◌++◌, eq_iff, ◌==◌, ◌&&◌, not,
}
use tortureu.Base.Decimal.{append_text, show, show-injective}
use tortureu.Base.Result.{Result, ok, err, ◌>>=◌}
use tortureu.Verdict.{Finding, Verdict, status_pass, status_fail, status_error, status_aborted}
use tortureu.Egress.{check_unclassified, check_multiplier}
use tortureu.Findings.Thresholds.{
  Results, validate_threshold_shapes, evaluate_thresholds, evaluate_promql_asserts,
  evaluate_sql_asserts,
}
use tortureu.Scheduler.Apply.{Failure, is_note}
use tortureu.Value.{Value}
use tortureu.Base.Strings.{trim_space}
use tortureu.Run.{
  Effect, reset_run, topology_applied, load_started, torn_down, LoadEnd, finished, load_failed,
  Moment, in_reset, in_classes, in_topology, in_prepare, in_start, in_load, in_faults, in_summary,
  Env, Progress, Step, finish, fail, warn, add_warning, effect, tear_down, tear_down_all, watch,
  unless_aborted,
}
use tortureu.Run.Steps.{
  number_from, verdict_of, check_base_url, reset_step, with_reset, classes_of, effective_multiplier,
  classify_step, with_audit, or_fail, with_topology, topology_step, prepare_step, load_ended,
  select_end, load_step, unless_failed, faults_step, report, with_sql, with_summary, evaluated,
  report_step, isolated_steps, steps, from_reset, from_classes, from_topology, begun, settled, run,
  real_errors, note_warnings, context_of, merged,
}

abbrev pub ids : List Finding → List String
ids fs = map (λ f. f.id) fs

abbrev id_of : ℕ → String
id_of i = append_text "f" (show i)

tail_of : String → String
tail_of Prim.Native.String.[] = ""
tail_of (Prim.Native.String.◌∷◌ c s) = s

id_of-injective : (i j : ℕ) → id_of i ≡ id_of j → i ≡ j
unfolding tail_of
id_of-injective i j e = show-injective i j (ap tail_of e)

contains-number_from :
    (i j : ℕ) (fs : List Finding) → i < j → contains (ids (number_from j fs)) (id_of i) ≡ false
contains-number_from i j [] h = refl
contains-number_from i j (f ∷ fs) h = elim (Bool-cases (id_of j == id_of i)) [
  | inl same ↦
      absurd (let e = id_of-injective j i ((eq_iff (id_of j) (id_of i)).0 same) in omega arith)
  | inr other ↦ rw other (contains-number_from i (suc j) fs (omega arith))
]

number_from-AreDistinct : (i : ℕ) (fs : List Finding) → AreDistinct (ids (number_from i fs))
number_from-AreDistinct i [] = tt
number_from-AreDistinct i (f ∷ fs) =
    (contains-number_from i (suc i) fs (omega arith), number_from-AreDistinct (suc i) fs)

-- the same findings, with the ids from `f` and the number on
abbrev pub Numbered : ℕ → List Finding → List Finding → Type 0
Numbered i [] [] = Unit
Numbered i [] (g ∷ gs) = ⊥
Numbered i (f ∷ fs) [] = ⊥
Numbered i (f ∷ fs) (g ∷ gs) =
    (g ≡ record f { id = append_text "f" (show i) }) × Numbered (suc i) fs gs

number_from-Numbered : (i : ℕ) (fs : List Finding) → Numbered i fs (number_from i fs)
number_from-Numbered i [] = tt
number_from-Numbered i (f ∷ fs) = (refl, number_from-Numbered (suc i) fs)

-- the status by the findings
abbrev pub StatusOf : List Finding → String → Type 0
StatusOf [] status = status ≡ status_pass
StatusOf (f ∷ fs) status = status ≡ status_fail

verdict_of-StatusOf : (fs : List Finding) → StatusOf fs (verdict_of fs)
verdict_of-StatusOf [] = refl
verdict_of-StatusOf (f ∷ fs) = refl

-- all that three evaluations report, in this order
abbrev pub AllReported : Results → Results → Results → Verdict → Type 0
AllReported (a, f) (b, g) (c, h) v =
    (v.passed ≡ a ++ b ++ c)
    × Numbered 1 (f ++ g ++ h) v.findings
    × StatusOf v.findings v.status
    × AreDistinct (ids v.findings)

-- why a run can stop before its assertions are evaluated
pub data Cause (env : Env) : Type 0 where
  signalled : (m : Moment) → env.signal m ≡ true → Cause env
  no_base_url : trim_space env.config.target.base_url ≡ "" → Cause env
  reset_failed : (e : String) → env.no_reset ≡ false → env.reset_error ≡ some e → Cause env
  unclassified :
      (hosts : List String) → check_unclassified (classes_of env) ≡ some hosts → Cause env
  too_much :
      check_multiplier (classes_of env) (effective_multiplier env) env.allow_real_traffic ≡ true
      → Cause env
  not_applied : (e : String) → env.topology_error ≡ some e → Cause env
  not_configured : (e : String) → env.proxies_error ≡ some e → Cause env
  not_located : (e : String) → env.container_error ≡ some e → Cause env
  not_compiled : (e : String) → env.compile_error ≡ some e → Cause env
  not_started : (e : String) → env.start_error ≡ some e → Cause env
  broke_off : (e : String) → env.load_end ≡ load_failed e → Cause env
  unscheduled : real_errors env.schedule_errors ≢ [] → Cause env
  no_summary : (e : String) → env.summary ≡ err e → Cause env
  unknown_shape :
      (metrics : Dict Value)
      → env.summary ≡ ok metrics
      → validate_threshold_shapes metrics ≡ true
      → Cause env
  no_answer : evaluate_sql_asserts (context_of env) env.sql env.config.assert ≡ none → Cause env

-- A verdict of a run that stopped before the evaluation, or of one that was evaluated.
pub data Ending (env : Env) (v : Verdict) : Type 0 where
  stopped :
      Cause env
      → (v.status ≡ status_error) ⊎ (v.status ≡ status_aborted)
      → v.findings ≡ []
      → v.passed ≡ []
      → Ending env v
  judged :
      (metrics : Dict Value) (sqls : Results)
      → env.summary ≡ ok metrics
      → evaluate_sql_asserts (context_of env) env.sql env.config.assert ≡ some sqls
      → AllReported
          (evaluate_thresholds (context_of env) metrics)
          (evaluate_promql_asserts (context_of env) env.querier env.config.assert)
          sqls
          v
      → Ending env v

-- nothing has been reported, and a return says why
pub record IsOpen (env : Env) (p : Progress) : Type 0 where
  pub none_yet : (p.verdict.findings ≡ []) × (p.verdict.passed ≡ [])
  pub seen : p.aborted ≡ true → Cause env

pub record IsStopped (env : Env) (p : Progress) : Type 0 where
  pub cause : Cause env
  pub why : (p.verdict.status ≡ status_error) ⊎ (p.verdict.status ≡ status_aborted)
  pub none_yet : (p.verdict.findings ≡ []) × (p.verdict.passed ≡ [])
