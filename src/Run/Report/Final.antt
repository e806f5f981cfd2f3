-- ===== src/Run/Report/Final.antt =====
-- The status, the findings and their ids of the one verdict.
use tortureu.Base.{◌++◌, ◌≡◌, Dict, String, List, Option, none, some, refl, Bool-cases, inl, inr}
use tortureu.Base.Result.{Result, ok, err, ◌>>=◌}
use tortureu.Findings.Thresholds.{
  Results, validate_threshold_shapes, evaluate_thresholds, evaluate_promql_asserts,
  evaluate_sql_asserts,
}
use tortureu.Value.{Value}
use tortureu.Run.{Env, Progress, Step, in_summary, finish, warn, tear_down_all}
use tortureu.Run.Steps.{
  check_base_url, reset_step, classify_step, report, with_sql, with_summary, evaluated, report_step,
  isolated_steps, steps, from_reset, from_classes, from_topology, begun, settled, run, context_of,
  merged, with_metrics, number_from, verdict_of,
}
use tortureu.Run.Report.{
  AllReported, Cause, Ending, IsOpen, IsStopped, number_from-AreDistinct, number_from-Numbered,
  verdict_of-StatusOf,
}
use tortureu.Run.Report.Stops.{
  Stops, fail-IsStopped, watch_all-IsOpen, check_base_url-Stops, reset_step-Stops,
  classify_step-Stops, topology_step-Stops, prepare_step-Stops, load_step-Stops, faults_step-Stops,
}

stopped-Ending : (env : Env) (p : Progress) → IsStopped env p → Ending env p.verdict
stopped-Ending env p h = Ending.stopped h.cause h.why h.none_yet.0 h.none_yet.1

bind-Ending :
    (env : Env) (m : Step) (f : Progress → Step)
    → Stops env m
    → ((p : Progress) → IsOpen env p → Ending env (settled (f p)).verdict)
    → Ending env (settled (m >>= f)).verdict
bind-Ending env (ok p) f hm hf = hf p hm
bind-Ending env (err p) f hm hf = stopped-Ending env p hm

report-AllReported :
    (env : Env) (k6 prom sql : Results) (p : Progress)
    → AllReported k6 prom sql (report env (merged k6 prom sql) p).verdict
unfolding report
report-AllReported env (a, f) (b, g) (c, h) p = by_warning env.throughput_warning
  where
    by_warning :
        (o : Option String)
        → AllReported
            (a, f)
            (b, g)
            (c, h)
            (finish env (verdict_of (number_from 1 (f ++ g ++ h))) (
              warn o (record (tear_down_all env p) {
                verdict = record (tear_down_all env p).verdict {
                  passed = a ++ b ++ c;
                  findings = number_from 1 (f ++ g ++ h);
                };
              }))).verdict
    by_warning none = (
      refl,
      number_from-Numbered 1 (f ++ g ++ h),
      verdict_of-StatusOf (number_from 1 (f ++ g ++ h)),
      number_from-AreDistinct 1 (f ++ g ++ h),
    )
    by_warning (some w) = (
      refl,
      number_from-Numbered 1 (f ++ g ++ h),
      verdict_of-StatusOf (number_from 1 (f ++ g ++ h)),
      number_from-AreDistinct 1 (f ++ g ++ h),
    )

with_sql-Ending :
    (env : Env) (metrics : Dict Value) (o : Option Results) (p : Progress)
    → env.summary ≡ ok metrics
    → evaluate_sql_asserts (context_of env) env.sql env.config.assert ≡ o
    → IsOpen env p
    → Ending env
        (settled (
          with_sql env
            (evaluate_thresholds (context_of env) metrics)
            (evaluate_promql_asserts (context_of env) env.querier env.config.assert)
            o
            p)).verdict
with_sql-Ending env metrics none p s q h = stopped-Ending env _ (
    fail-IsStopped env "sql: assertion could not be evaluated" (env.detail "sql") p
      (Cause.no_answer q) h)
with_sql-Ending env metrics (some r) p s q h = Ending.judged metrics r s q (
    report-AllReported env (evaluate_thresholds (context_of env) metrics)
      (evaluate_promql_asserts (context_of env) env.querier env.config.assert) r p)

with_summary-Ending :
    (env : Env) (s : Result String (List (String × Value))) (p : Progress)
    → env.summary ≡ s
    → IsOpen env p
    → Ending env (settled (with_summary env s p)).verdict
unfolding with_summary evaluated
with_summary-Ending env (err e) p s h =
    stopped-Ending env _ (fail-IsStopped env "parse k6 summary" e p (Cause.no_summary e s) h)
with_summary-Ending env (ok metrics) p s h =
    let open_now : IsOpen env (with_metrics env metrics p) = record {
      none_yet = h.none_yet;
      seen = h.seen;
    } in
    elim (Bool-cases (validate_threshold_shapes metrics)) [
      | inl bad ↦
          rw (bad, with_summary)
            (stopped-Ending env _ (
              fail-IsStopped env "k6 summary could not be read" (env.detail "shape")
                (with_metrics env metrics p) (Cause.unknown_shape metrics s bad) open_now))
      | inr good ↦
          rw (good, with_summary)
            (with_sql-Ending env metrics _ (with_metrics env metrics p) s refl open_now)
    ]

from_topology-Ending :
    (env : Env) (p : Progress) → IsOpen env p → Ending env (settled (from_topology env p)).verdict
unfolding from_topology isolated_steps report_step
from_topology-Ending env p h = bind-Ending env _ _ (topology_step-Stops env p h) λ p1 h1.
    bind-Ending env _ _ (prepare_step-Stops env p1 h1) λ p2 h2.
      bind-Ending env _ _ (load_step-Stops env p2 h2) λ p3 h3.
        bind-Ending env _ _ (faults_step-Stops env p3 h3) λ p4 h4.
          with_summary-Ending env env.summary _ refl (watch_all-IsOpen env in_summary p4 h4)

-- However the seams answer and whenever a signal comes, the run ends with one of two verdicts: an error
-- or an abort, which reports no finding and nothing as passed and for which there is a cause: a signal, an
-- empty base URL, egress that is not allowed, or a seam that answered with an error; or else what the
-- thresholds, the PromQL and the SQL assertions report, in this order and all of it, with the findings
-- numbered f1, f2 and so on, each id once, and the status fail when there are findings and pass when there
-- are none.
pub run-Ending : (env : Env) → Ending env (run env).verdict
unfolding run steps from_reset from_classes begun
run-Ending env =
    bind-Ending env (check_base_url env (begun env)) (from_reset env)
      (check_base_url-Stops env (begun env) (record { none_yet = (refl, refl); seen = (λ t. cc) }))
      λ p1 h1.
        bind-Ending env (reset_step env p1) (from_classes env) (reset_step-Stops env p1 h1) λ p2 h2.
          bind-Ending env (classify_step env p2) (from_topology env) (classify_step-Stops env p2 h2)
            λ p3 h3. from_topology-Ending env p3 h3
