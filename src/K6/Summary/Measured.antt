-- ===== src/K6/Summary/Measured.antt =====
-- The value that is judged is the value that the verdict shows.
use tortureu.Base.{
  String, true, List, [], ◌∷◌, Option, none, some, ◌≡◌, refl, arith, Dict, is_some, Option-cases,
  inl, inr, ap,
}
use tortureu.Base.Strings.{trim_space}
use tortureu.Base.Text.{has_prefix}
use tortureu.Float64.{Float64}
use tortureu.Float64.Parse.{parse_float}
use tortureu.Value.{Value}
use tortureu.Findings.Thresholds.{
  threshold_comparison_ops, starts_with_op, before_op, threshold_stat_key, lookup_stat, stat_value,
  measured_value, format_observed,
}
use tortureu.K6.Summary.{
  op_at, split_op, with_limit, split_threshold_expr, raw_stat, lookup_metric_stat, compare,
  evaluate_threshold,
}

op_at-starts : (ops : List String) (s : String) → starts_with_op ops s ≡ is_some (op_at ops s)
unfolding starts_with_op op_at has_prefix
op_at-starts [] s = refl
op_at-starts (op ∷ ops) s = ground (arith, op_at-starts ops s)

before-split_op :
    (s before op after : String) → split_op s ≡ some (before, op, after) → before_op s ≡ some before
unfolding split_op before_op
before-split_op String.[] before op after h = cc
before-split_op (String.◌∷◌ c s) before op after h =
    elim (Option-cases (op_at threshold_comparison_ops (String.◌∷◌ c s))) [
      | inr (found, e) ↦ ground (arith, op_at-starts threshold_comparison_ops (String.◌∷◌ c s))
      | inl e ↦ elim (Option-cases (split_op s)) [
        | inl n ↦ ground arith
        | inr ((b, o, a), f) ↦
            ground (
              arith,
              op_at-starts threshold_comparison_ops (String.◌∷◌ c s),
              before-split_op s b o a,
            )
      ]
    ]

key-with_limit :
    (k key o op : String) (found : Option Float64) (limit : Float64)
    → with_limit k o found ≡ some (key, op, limit)
    → k ≡ key
key-with_limit k key o op none limit h = cc
key-with_limit k key o op (some x) limit h = ground arith

key-split_threshold_expr :
    (expr key op : String) (limit : Float64)
    → split_threshold_expr expr ≡ some (key, op, limit)
    → threshold_stat_key expr ≡ some key
unfolding split_threshold_expr threshold_stat_key
key-split_threshold_expr expr key op limit h = elim (Option-cases (split_op expr)) [
  | inl n ↦ let h' = rw (split_threshold_expr, n) at h in cc
  | inr ((b, o, a), f) ↦
      let h' = rw (split_threshold_expr, f) at h in
      let same = key-with_limit (trim_space b) key o op (parse_float (trim_space a)) limit h' in
      rw (threshold_stat_key, before-split_op expr b o a f) (ap (λ k. some k) same)
]

stat_value-lookup_metric_stat :
    (m : Dict Value) (key : String) (x : Float64)
    → lookup_metric_stat m key ≡ some x
    → stat_value m key ≡ some x
unfolding lookup_metric_stat raw_stat lookup_stat
stat_value-lookup_metric_stat m key x h = ground arith

observed :
    (name : String) (m : Dict Value) (expr key op : String) (limit x : Float64)
    → split_threshold_expr expr ≡ some (key, op, limit)
    → lookup_metric_stat m key ≡ some x
    → measured_value name m expr ≡ some (format_observed name x)
unfolding measured_value
observed name m expr key op limit x s l =
    ground
      (arith, key-split_threshold_expr expr key op limit s, stat_value-lookup_metric_stat m key x l)

-- A threshold that is judged to hold was compared: its expression names a statistic, an operator and a
-- limit, the comparison with the statistic's value holds, and that very value is what the evaluation of
-- a run reports as observed.
pub measured-evaluate_threshold :
    (name : String) (m : Dict Value) (expr : String)
    → evaluate_threshold m expr ≡ true
    → (key : String) × (op : String) × (limit : Float64) × (x : Float64) × (split_threshold_expr
          expr
        ≡ some (key, op, limit))
      × (lookup_metric_stat m key ≡ some x)
      × (compare x op limit ≡ some true)
      × (measured_value name m expr ≡ some (format_observed name x))
unfolding evaluate_threshold
measured-evaluate_threshold name m expr h = elim (Option-cases (split_threshold_expr expr)) [
  | inl n ↦ absurd (ground arith)
  | inr ((key, op, limit), s) ↦ elim (Option-cases (lookup_metric_stat m key)) [
    | inl n ↦ absurd (ground arith)
    | inr (x, l) ↦ (key, op, limit, x, s, l, ground arith, observed name m expr key op limit x s l)
  ]
]
