-- ===== src/K6/Summary.antt =====
-- internal/k6/summary.go: k6's exported summary, with every threshold judged again.
pub mod Judged
pub mod Measured
use tortureu.Base.{
  String, Bool, true, false, List, [], ◌∷◌, Option, none, some, ◌==◌, not, Dict, lookup,
  if◌then◌else◌,
}
use tortureu.Base.Result.{Result, ok, err}
use tortureu.Base.Strings.{trim_space}
use tortureu.Base.Text.{strip_prefix}
use Prim.Native.String
use tortureu.Float64
use tortureu.Float64.{Float64}
use tortureu.Float64.Parse.{parse_float}
use tortureu.Value.{Value, Fields, bool, float, obj, end, field, entries, as_map}
use tortureu.Findings.Thresholds.{threshold_comparison_ops}

-- the first of some operators that stands at the front, and what follows it
unfoldable pub op_at : List String → String → Option (String × String)
unfolding strip_prefix
op_at [] s = none
op_at (op ∷ ops) s = elim (strip_prefix op s) [ some rest ↦ some (op, rest) | none ↦ op_at ops s ]

-- the text before the leftmost operator, the operator, and the text behind it. At one place a longer
-- operator comes before its first character.
unfoldable pub split_op : String → Option (String × String × String)
unfolding op_at threshold_comparison_ops
split_op String.[] = none
split_op (String.◌∷◌ c s) =
    let later = split_op s in
    elim (op_at threshold_comparison_ops (String.◌∷◌ c s)) [
      | some found ↦ let (op, rest) = found in some ("", op, rest)
      | none ↦ elim later [
        | none ↦ none
        | some parts ↦ let (before, op, after) = parts in some (String.◌∷◌ c before, op, after)
      ]
    ]

abbrev with_limit : String → String → Option Float64 → Option (String × String × Float64)
with_limit key op none = none
with_limit key op (some limit) = some (key, op, limit)

unfoldable pub split_threshold_expr : String → Option (String × String × Float64)
unfolding split_op trim_space parse_float
split_threshold_expr expr = elim (split_op expr) [
  | none ↦ none
  | some (before, op, after) ↦ with_limit (trim_space before) op (parse_float (trim_space after))
]

-- m[statKey], or values[statKey] where `values` is a map
unfoldable pub raw_stat : Dict Value → String → Option Value
raw_stat m key = elim (lookup key m) [
  | some v ↦ some v
  | none ↦ elim (lookup "values" m) [
    | none ↦ none
    | some values ↦ elim (as_map values) [ none ↦ none | some stats ↦ lookup key stats ]
  ]
]

-- v, ok := raw.(float64)
abbrev pub number_of : Option Value → Option Float64
number_of (some (float x)) = some x
number_of _ = none

unfoldable pub lookup_metric_stat : Dict Value → String → Option Float64
unfolding raw_stat
lookup_metric_stat m key = elim (raw_stat m key) [
  | some v ↦ number_of (some v)
  | none ↦ if key == "rate" then number_of (raw_stat m "value") else none
]

unfoldable pub compare : Float64 → String → Float64 → Option Bool
unfolding Float64.lt Float64.eq
compare value op limit =
    if op == "<"
    then some (Float64.lt value limit)
    else if op == "<="
    then some (Float64.le value limit)
    else if op == ">"
    then some (Float64.lt limit value)
    else if op == ">="
    then some (Float64.le limit value)
    else if op == "=="
    then some (Float64.eq value limit)
    else if op == "!="
    then some (not (Float64.eq value limit))
    else none

abbrev pub or_false : Option Bool → Bool
or_false none = false
or_false (some b) = b

abbrev held_by : String → Float64 → Option Float64 → Bool
held_by op limit none = false
held_by op limit (some value) = or_false (compare value op limit)

unfoldable pub evaluate_threshold : Dict Value → String → Bool
unfolding split_threshold_expr lookup_metric_stat compare
evaluate_threshold m expr = elim (split_threshold_expr expr) [
  | none ↦ false
  | some (key, op, limit) ↦ held_by op limit (lookup_metric_stat m key)
]

-- {"ok": b}
abbrev pub ok_map : Bool → Value
ok_map b = obj (field "ok" (bool b) end)

-- for expr := range thresholds
unfoldable pub judge_all : Dict Value → Fields → Fields
unfolding evaluate_threshold
judge_all m end = end
judge_all m (field expr v rest) = field expr (ok_map (evaluate_threshold m expr)) (judge_all m rest)

abbrev pub judge_value : Dict Value → Value → Value
judge_value m (obj ts) = obj (judge_all m ts)
judge_value m v = v

-- the metric's map, whose `thresholds` are rewritten where they are a map
unfoldable pub judge_metric : Dict Value → Fields → Fields
unfolding judge_all
judge_metric m end = end
judge_metric m (field k v rest) =
    if k == "thresholds" then field k (judge_value m v) rest else field k v (judge_metric m rest)

abbrev pub recompute_value : Value → Value
recompute_value (obj fs) = obj (judge_metric (entries fs) fs)
recompute_value v = v

unfoldable pub recompute_thresholds : Dict Value → Dict Value
unfolding judge_metric
recompute_thresholds [] = []
recompute_thresholds ((name, v) ∷ rest) = (name, recompute_value v) ∷ recompute_thresholds rest

-- what json.Unmarshal makes of the summary
pub data Document : Type 0 where
  not_json : Document
  no_metrics : Document
  with_metrics : Dict Value → Document

pub data Error : Type 0 where
  invalid_json : Error
  missing_metrics : Error

unfoldable pub ingest_summary : Document → Result Error (Dict Value)
unfolding recompute_thresholds
ingest_summary not_json = err invalid_json
ingest_summary no_metrics = err missing_metrics
ingest_summary (with_metrics metrics) = ok (recompute_thresholds metrics)
