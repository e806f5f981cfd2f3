-- ===== src/K6/Summary/Judged.antt =====
-- What internal/run reads from a summary that was ingested.
pub mod Holding
use tortureu.Base.{
  String, true, false, List, [], ◌∷◌, Option, none, some, ◌==◌, ◌≡◌, refl, arith, eq_iff, Dict,
  lookup, has_key, keys, all_in, Bool-cases, Option-cases, inl, inr, ◌⊎◌,
}
use tortureu.Value.{Value, Fields, obj, end, field, entries}
use tortureu.Findings.Thresholds.{
  threshold_held, thresholds_of, map_at, validate_threshold_shapes, bad_shape_of, bad_shape_in,
}
use tortureu.Base.Result.{ok}
use tortureu.Base.Sort.{sort_strings}
use tortureu.Base.Sort.Members.{all_in-sort_keys}
use tortureu.Float64
use tortureu.Float64.{Float64}
use tortureu.K6.Summary.{
  compare, lookup_metric_stat, split_threshold_expr, or_false, Document, not_json, no_metrics,
  with_metrics, ingest_summary, evaluate_threshold, judge_all, judge_metric, judge_value,
  recompute_thresholds, recompute_value, ok_map,
}
use tortureu.K6.Summary.Judged.Holding.{
  Holds, evaluate_threshold-Holds, lookup-judge_all, threshold_at, thresholds_of-recompute,
}

-- what stands at a threshold of a summary before and after it is ingested
abbrev pub Becomes : Dict Value → String → String → Option Value → Type 0
Becomes metrics name expr after =
    ((threshold_at metrics name expr ≡ none) × (after ≡ none))
    ⊎ ((m : Dict Value) × (ts : Dict Value) × (v : Value) × (thresholds_of metrics name
          ≡ some (m, ts))
        × (lookup expr ts ≡ some v)
        × (((after ≡ some (ok_map true)) × Holds m expr)
            ⊎ ((after ≡ some (ok_map false)) × (¬ Holds m expr))))

-- In an ingested summary every threshold of every metric is {"ok": true} when its expression parses, its
-- statistic is among the metric's own values and the two compare as the operator says, and {"ok": false}
-- when not. Whatever k6 wrote there is gone, and no threshold is added or lost.
pub threshold_at-recompute :
    (metrics : Dict Value) (name expr : String)
    → Becomes metrics name expr (threshold_at (recompute_thresholds metrics) name expr)
threshold_at-recompute metrics name expr = elim (thresholds_of-recompute metrics name) [
  | inl (absent, absent') ↦ inl (ground arith, ground arith)
  | inr (m, m', ts, before, after) ↦ elim (Option-cases (lookup expr (entries ts))) [
    | inl n ↦ inl (ground arith, ground (arith, lookup-judge_all m expr ts))
    | inr (v, found) ↦ elim (evaluate_threshold-Holds m expr) [
      | inl (t, holds) ↦
          inr (
            m,
            entries ts,
            v,
            before,
            found,
            inl (ground (arith, lookup-judge_all m expr ts), holds),
          )
      | inr (f, fails) ↦
          inr (
            m,
            entries ts,
            v,
            before,
            found,
            inr (ground (arith, lookup-judge_all m expr ts), fails),
          )
    ]
  ]
]

-- the keys stay
same_keys :
    (m : Dict Value) (ts : Fields) (exprs : List String)
    → all_in (λ expr. has_key expr (entries (judge_all m ts))) exprs ≡ true
    → all_in (λ expr. has_key expr (entries ts)) exprs ≡ true
same_keys m ts [] h = refl
same_keys m ts (expr ∷ exprs) h = ground (arith, lookup-judge_all m expr ts, same_keys m ts exprs)

has_shape :
    (m : Dict Value) (ts : Fields) (exprs : List String)
    → all_in (λ expr. has_key expr (entries ts)) exprs ≡ true
    → bad_shape_in (entries (judge_all m ts)) exprs ≡ false
unfolding bad_shape_in threshold_held
has_shape m ts [] h = refl
has_shape m ts (expr ∷ exprs) h = ground (arith, lookup-judge_all m expr ts, has_shape m ts exprs)

bad_shape_of-recompute :
    (metrics : Dict Value) (names : List String)
    → bad_shape_of (recompute_thresholds metrics) names ≡ false
unfolding bad_shape_of
bad_shape_of-recompute metrics [] = refl
bad_shape_of-recompute metrics (name ∷ names) = elim (thresholds_of-recompute metrics name) [
  | inl (absent, absent') ↦ ground (arith, bad_shape_of-recompute metrics names)
  | inr (m, m', ts, before, after) ↦
      let judged = entries (judge_all m ts) in
      let shapes =
        has_shape m ts (sort_strings (keys judged))
          (same_keys m ts (sort_strings (keys judged)) (all_in-sort_keys judged)) in
      ground (arith, bad_shape_of-recompute metrics names)
]

-- A summary that IngestSummary returns has thresholds in a shape that the evaluation of a run knows:
-- validateThresholdShapes, which turns an unknown shape into an error of the run, accepts it.
pub validate-ingest_summary :
    (doc : Document) (metrics : Dict Value)
    → ingest_summary doc ≡ ok metrics
    → validate_threshold_shapes metrics ≡ false
unfolding ingest_summary validate_threshold_shapes
validate-ingest_summary (with_metrics raw) metrics h =
    let e : recompute_thresholds raw ≡ metrics = ground arith in
    rw (← e) (bad_shape_of-recompute raw (sort_strings (keys (recompute_thresholds raw))))
validate-ingest_summary not_json metrics h = cc
validate-ingest_summary no_metrics metrics h = cc
