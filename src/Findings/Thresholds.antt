-- ===== src/Findings/Thresholds.antt =====
-- internal/run/findings.go and sqlassert.go: assertions become passed entries and findings.
pub mod Verdicts
use tortureu.Base.{
  String, Bool, true, false, List, [], ◌∷◌, ◌++◌, Option, none, some, ◌==◌, ◌||◌, ◌&&◌, not, Dict,
  lookup, keys, is_some, if◌then◌else◌, length, ℕ, pos, eqb,
}
use tortureu.Base.Decimal.{append_text, show}
use tortureu.Base.Sort.{sort_strings}
use tortureu.Base.Strings.{trim_space}
use tortureu.Base.Text.{has_prefix, has_suffix, concat}
use Prim.Native.String
use tortureu.Float64.{Float64}
use tortureu.Float64.Show.{format_float}
use tortureu.Value.{Value, bool, float, str, obj, entries, as_map}
use tortureu.Config
use tortureu.Config.{AssertEntry}
use tortureu.Trace.{Trace}
use tortureu.Verdict.{Finding, Passed, ambiguous}
use tortureu.Findings.{System, AuditFinding, confidence_for, attribute}
use tortureu.Findings.Chain.{apply_trace_chain}

-- thresholdHeld: `none` is the error
unfoldable pub threshold_held : Value → Option Bool
threshold_held (obj fields) = elim (lookup "ok" (entries fields)) [
  | some (bool held) ↦ some held
  | _ ↦ none
]
threshold_held (bool crossed) = some (not crossed)
threshold_held _ = none

unfoldable pub threshold_comparison_ops : List String
threshold_comparison_ops = "<=" ∷ ">=" ∷ "==" ∷ "!=" ∷ "<" ∷ ">" ∷ []

unfoldable pub starts_with_op : List String → String → Bool
unfolding has_prefix
starts_with_op [] s = false
starts_with_op (op ∷ ops) s = has_prefix s op || starts_with_op ops s

-- the text before the first operator
unfoldable pub before_op : String → Option String
unfolding starts_with_op threshold_comparison_ops
before_op String.[] = none
before_op (String.◌∷◌ c s) = elim (before_op s) [
  | none ↦ if starts_with_op threshold_comparison_ops (String.◌∷◌ c s) then some "" else none
  | some before ↦
      if starts_with_op threshold_comparison_ops (String.◌∷◌ c s)
      then some ""
      else some (String.◌∷◌ c before)
]

unfoldable pub threshold_stat_key : String → Option String
unfolding before_op trim_space
threshold_stat_key expr = elim (before_op expr) [
  | none ↦ none
  | some before ↦ some (trim_space before)
]

-- raw.(float64)
abbrev as_number : Option Value → Option Float64
as_number (some (float x)) = some x
as_number _ = none

abbrev nested : String → Option (Dict Value) → Option Value
nested key none = none
nested key (some values) = lookup key values

-- a map under a key
abbrev pub map_at : String → Dict Value → Option (Dict Value)
map_at key m = elim (lookup key m) [ none ↦ none | some v ↦ as_map v ]

unfoldable pub lookup_stat : Dict Value → String → Option Float64
lookup_stat m key = elim (lookup key m) [
  | some v ↦ as_number (some v)
  | none ↦ as_number (nested key (map_at "values" m))
]

unfoldable pub format_observed : String → Float64 → String
unfolding format_float has_suffix
format_observed metric v =
    if has_suffix metric "_duration" then append_text (format_float v) "ms" else format_float v

-- the fallback for a rate
abbrev pub stat_value : Dict Value → String → Option Float64
stat_value m key = elim (lookup_stat m key) [
  | some x ↦ some x
  | none ↦ if key == "rate" then lookup_stat m "value" else none
]

unfoldable pub measured_value : String → Dict Value → String → Option String
unfolding lookup_stat format_observed threshold_stat_key
measured_value name m expr = elim (threshold_stat_key expr) [
  | none ↦ none
  | some key ↦ elim (stat_value m key) [ none ↦ none | some x ↦ some (format_observed name x) ]
]

abbrev pub Results : Type 0
Results = List Passed × List Finding

abbrev pub no_finding : Finding
no_finding = record {
  id = "";
  confidence = "";
  broke = record { assertion = ""; observed = ""; at = ""; sustained_s = pos 0 };
  unevaluated = false;
  reason = "";
  cause = none;
  chain = [];
  candidates = [];
  amplification = "";
}

unfoldable pub unevaluated_finding : String → String → Finding
unevaluated_finding assertion reason = record no_finding {
  confidence = ambiguous;
  unevaluated = true;
  reason = reason;
  broke = record { assertion = assertion; observed = ""; at = ""; sustained_s = pos 0 };
}

-- What every assertion is evaluated against: the declared faults, the detection, the audit, the spans.
pub record Context : Type 0 where
  pub faults : List Config.Fault
  pub system : System
  pub audit : List AuditFinding
  pub traces : List Trace

abbrev broken : Context → String → String → Finding
broken c assertion observed = record no_finding {
  confidence = confidence_for (length c.faults);
  broke = record { assertion = assertion; observed = observed; at = ""; sustained_s = pos 0 };
}

-- a broken assertion, attributed, and with the chain it can earn
unfoldable pub broken_finding : Context → String → String → Finding
unfolding confidence_for attribute apply_trace_chain
broken_finding c assertion observed =
    apply_trace_chain (attribute (broken c assertion observed) c.faults c.system c.audit) c.system
      c.traces c.faults

abbrev observed_or : Option String → String
observed_or none = "not measured"
observed_or (some s) = s

abbrev pub threshold_name : String → String → String
threshold_name name expr = concat (name ∷ ": " ∷ expr ∷ [])

-- `ok, _ := thresholdHeld(...)`: false where it fails
abbrev pub held : Option Value → Bool
held none = false
held (some v) = elim (threshold_held v) [ none ↦ false | some b ↦ b ]

-- the inner loop, over the sorted expressions of one metric
unfoldable pub evaluate_exprs : Context → String → Dict Value → Dict Value → List String → Results
unfolding threshold_held measured_value broken_finding
evaluate_exprs c name m thresholds [] = ([], [])
evaluate_exprs c name m thresholds (expr ∷ exprs) =
    let (passed, findings) = evaluate_exprs c name m thresholds exprs in
    let observed = observed_or (measured_value name m expr) in
    if held (lookup expr thresholds)
    then (record { assertion = threshold_name name expr; observed = observed } ∷ passed, findings)
    else (passed, broken_finding c (threshold_name name expr) observed ∷ findings)

-- the thresholds of one metric, if it is a map that has some
abbrev pub thresholds_of : Dict Value → String → Option (Dict Value × Dict Value)
thresholds_of metrics name = elim (map_at name metrics) [
  | none ↦ none
  | some m ↦ elim (map_at "thresholds" m) [ none ↦ none | some ts ↦ some (m, ts) ]
]

unfoldable pub evaluate_metrics : Context → Dict Value → List String → Results
unfolding evaluate_exprs
evaluate_metrics c metrics [] = ([], [])
evaluate_metrics c metrics (name ∷ names) =
    let (passed, findings) = evaluate_metrics c metrics names in
    elim (thresholds_of metrics name) [
      | none ↦ (passed, findings)
      | some found ↦
          let (m, ts) = found in
          let (p, f) = evaluate_exprs c name m ts (sort_strings (keys ts)) in
          (p ++ passed, f ++ findings)
    ]

unfoldable pub evaluate_thresholds : Context → Dict Value → Results
unfolding evaluate_metrics
evaluate_thresholds c metrics = evaluate_metrics c metrics (sort_strings (keys metrics))

-- the two loops of validateThresholdShapes; `true` is the error
unfoldable pub bad_shape_in : Dict Value → List String → Bool
unfolding threshold_held
bad_shape_in thresholds [] = false
bad_shape_in thresholds (expr ∷ exprs) = elim (lookup expr thresholds) [
  | none ↦ true
  | some v ↦ if is_some (threshold_held v) then bad_shape_in thresholds exprs else true
]

unfoldable pub bad_shape_of : Dict Value → List String → Bool
unfolding bad_shape_in
bad_shape_of metrics [] = false
bad_shape_of metrics (name ∷ names) = elim (thresholds_of metrics name) [
  | none ↦ bad_shape_of metrics names
  | some found ↦
      let (m, ts) = found in
      if bad_shape_in ts (sort_strings (keys ts)) then true else bad_shape_of metrics names
]

unfoldable pub validate_threshold_shapes : Dict Value → Bool
unfolding bad_shape_of
validate_threshold_shapes metrics = bad_shape_of metrics (sort_strings (keys metrics))

-- entry[key].(string)
abbrev pub text_at : String → AssertEntry → Option String
text_at key entry = elim (lookup key entry) [ some (str s) ↦ some s | _ ↦ none ]

-- what a Prometheus query answers: whether it holds and what was observed, or an error
pub data Answer : Type 0 where
  holds : Bool → String → Answer
  query_error : String → Answer

abbrev with_passed : String → String → Results → Results
with_passed assertion observed (passed, findings) =
    (record { assertion = assertion; observed = observed } ∷ passed, findings)

abbrev with_finding : Finding → Results → Results
with_finding f (passed, findings) = (passed, f ∷ findings)

abbrev query_failed : String → String → Finding
query_failed assertion e = record no_finding {
  confidence = ambiguous;
  broke = record {
    assertion = assertion;
    observed = append_text "query error: " e;
    at = "";
    sustained_s = pos 0;
  };
}

abbrev answered : Context → String → Answer → Results → Results
answered c assertion (query_error e) r = with_finding (query_failed assertion e) r
answered c assertion (holds true observed) r = with_passed assertion observed r
answered c assertion (holds false observed) r = with_finding (broken_finding c assertion observed) r

-- one entry with a promql: expression
abbrev promql : Context → Option (String → Answer) → String → Results → Results
promql c none expr r =
    with_finding
      (unevaluated_finding (append_text "promql: " expr)
        "no Prometheus endpoint configured (-prom-url)")
      r
promql c (some query) expr r = answered c (append_text "promql: " expr) (query expr) r

unfoldable pub evaluate_promql_asserts :
    Context → Option (String → Answer) → List AssertEntry → Results
unfolding broken_finding unevaluated_finding
evaluate_promql_asserts c querier [] = ([], [])
evaluate_promql_asserts c querier (entry ∷ rest) =
    let later = evaluate_promql_asserts c querier rest in
    elim (text_at "promql" entry) [ none ↦ later | some expr ↦ promql c querier expr later ]

-- a broken sql: assertion, which has no chain
abbrev violated : Context → String → String → Finding
violated c assertion observed = attribute (broken c assertion observed) c.faults c.system c.audit

abbrev counted : Context → String → ℕ → Results → Results
counted c assertion n r =
    if eqb n 0
    then with_passed assertion (append_text (show n) " violations") r
    else with_finding (violated c assertion (append_text (show n) " violations")) r

abbrev with_count : Context → String → Option ℕ → Option Results → Option Results
with_count c assertion none later = none
with_count c assertion (some n) none = none
with_count c assertion (some n) (some r) = some (counted c assertion n r)

abbrev unconnected : String → Option Results → Option Results
unconnected assertion none = none
unconnected assertion (some r) =
    some (
      with_finding (unevaluated_finding assertion "no database connection configured (--sql-url)")
        r)

-- one entry with a sql: expression
abbrev sql :
    Context → Option (String → Option ℕ) → String → String → Option Results → Option Results
sql c none assertion expr later = unconnected assertion later
sql c (some violations) assertion expr later = with_count c assertion (violations expr) later

-- EvaluateSQLAsserts: a query counts violations or fails, and a failure stops the evaluation
unfoldable pub evaluate_sql_asserts :
    Context → Option (String → Option ℕ) → List AssertEntry → Option Results
unfolding unevaluated_finding confidence_for attribute show
evaluate_sql_asserts c querier [] = some ([], [])
evaluate_sql_asserts c querier (entry ∷ rest) =
    let later = evaluate_sql_asserts c querier rest in
    elim (text_at "sql" entry) [
      | none ↦ later
      | some expr ↦ sql c querier (append_text "sql: " expr) expr later
    ]
