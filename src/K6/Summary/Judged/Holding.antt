-- ===== src/K6/Summary/Judged/Holding.antt =====
-- When a threshold holds, and what the recomputation writes in its place.
use tortureu.Base.{
  String, true, false, [], ◌∷◌, Option, none, some, ◌==◌, ◌≡◌, refl, arith, eq_iff, Dict, lookup,
  Bool-cases, Option-cases, inl, inr, ◌⊎◌,
}
use tortureu.Value.{Value, Fields, obj, end, field, entries}
use tortureu.Findings.Thresholds.{thresholds_of, map_at}
use tortureu.Float64
use tortureu.Float64.{Float64}
use tortureu.K6.Summary.{
  compare, lookup_metric_stat, split_threshold_expr, or_false, evaluate_threshold, judge_all,
  judge_metric, judge_value, recompute_thresholds, recompute_value, ok_map,
}

-- a threshold's new value, if the threshold is there
abbrev judged_at : Dict Value → String → Option Value → Option Value
judged_at m expr none = none
judged_at m expr (some v) = some (ok_map (evaluate_threshold m expr))

pub lookup-judge_all :
    (m : Dict Value) (expr : String) (ts : Fields)
    → lookup expr (entries (judge_all m ts)) ≡ judged_at m expr (lookup expr (entries ts))
unfolding judge_all
lookup-judge_all m expr end = refl
lookup-judge_all m expr (field k v rest) = elim (Bool-cases (k == expr)) [
  | inl same ↦ rw (same, (eq_iff k expr).0 same)
  | inr differs ↦ rw differs (lookup-judge_all m expr rest)
]

abbrev map_value : (Value → Value) → Option Value → Option Value
map_value f none = none
map_value f (some v) = some (f v)

lookup-recompute :
    (name : String) (metrics : Dict Value)
    → lookup name (recompute_thresholds metrics) ≡ map_value recompute_value (lookup name metrics)
unfolding recompute_thresholds
lookup-recompute name [] = refl
lookup-recompute name ((k, v) ∷ rest) = ground (arith, lookup-recompute name rest)

lookup-judge_metric :
    (m : Dict Value) (fs : Fields)
    → lookup "thresholds" (entries (judge_metric m fs))
      ≡ map_value (judge_value m) (lookup "thresholds" (entries fs))
unfolding judge_metric
lookup-judge_metric m end = refl
lookup-judge_metric m (field k v rest) = elim (Bool-cases (k == "thresholds")) [
  | inl same ↦ rw same (rw same)
  | inr differs ↦ rw differs (rw differs (lookup-judge_metric m rest))
]

-- the thresholds of a metric before and after: both absent, or each one judged by the metric's values
abbrev IsJudged : Option (Dict Value × Dict Value) → Option (Dict Value × Dict Value) → Type 0
IsJudged o o' =
    ((o ≡ none) × (o' ≡ none))
    ⊎ ((m : Dict Value) × (m' : Dict Value) × (ts : Fields) × (o ≡ some (m, entries ts))
        × (o' ≡ some (m', entries (judge_all m ts))))

-- the thresholds of one metric's map
abbrev thresholds_in : Dict Value → Option (Dict Value × Dict Value)
thresholds_in m = elim (map_at "thresholds" m) [ none ↦ none | some ts ↦ some (m, ts) ]

by_thresholds :
    (m m' : Dict Value) (o : Option Value)
    → lookup "thresholds" m ≡ o
    → lookup "thresholds" m' ≡ map_value (judge_value m) o
    → IsJudged (thresholds_in m) (thresholds_in m')
by_thresholds m m' (some (obj ts)) h h' = inr (m, m', ts, ground arith, ground arith)
by_thresholds m m' _ h h' = inl (ground arith, ground arith)

by_metric :
    (metrics metrics' : Dict Value) (name : String) (o : Option Value)
    → lookup name metrics ≡ o
    → lookup name metrics' ≡ map_value recompute_value o
    → IsJudged (thresholds_of metrics name) (thresholds_of metrics' name)
by_metric metrics metrics' name (some (obj fs)) h h' =
    rw (thresholds_of, h, h')
      (by_thresholds (entries fs) (entries (judge_metric (entries fs) fs))
        (lookup "thresholds" (entries fs)) refl (lookup-judge_metric (entries fs) fs))
by_metric metrics metrics' name _ h h' = inl (ground arith, ground arith)

pub thresholds_of-recompute :
    (metrics : Dict Value) (name : String)
    → IsJudged (thresholds_of metrics name) (thresholds_of (recompute_thresholds metrics) name)
thresholds_of-recompute metrics name =
    by_metric metrics (recompute_thresholds metrics) name (lookup name metrics) refl
      (lookup-recompute name metrics)

-- one threshold of one metric
abbrev pub threshold_at : Dict Value → String → String → Option Value
threshold_at metrics name expr = elim (thresholds_of metrics name) [
  | none ↦ none
  | some (m, ts) ↦ lookup expr ts
]

-- the order that an operator asks for
abbrev pub IsInOrder : Float64 → String → Float64 → Type 0
IsInOrder x op limit =
    ((op ≡ "<") × (Float64.lt x limit ≡ true))
    ⊎ ((op ≡ "<=") × (Float64.le x limit ≡ true))
    ⊎ ((op ≡ ">") × (Float64.lt limit x ≡ true))
    ⊎ ((op ≡ ">=") × (Float64.le limit x ≡ true))
    ⊎ ((op ≡ "==") × (Float64.eq x limit ≡ true))
    ⊎ ((op ≡ "!=") × (Float64.eq x limit ≡ false))

-- A threshold holds: its expression parses, its statistic is measured, and the two are in the order
-- that the operator asks for.
abbrev pub Holds : Dict Value → String → Type 0
Holds m expr =
    (key : String) × (op : String) × (limit : Float64) × (x : Float64) × (split_threshold_expr expr
      ≡ some (key, op, limit))
    × (lookup_metric_stat m key ≡ some x)
    × IsInOrder x op limit

compare-IsInOrder :
    (x : Float64) (op : String) (limit : Float64)
    → compare x op limit ≡ some true
    → IsInOrder x op limit
unfolding compare Float64.lt Float64.eq
compare-IsInOrder x op limit h = elim (Bool-cases (op == "<")) [
  | inl q ↦ let g = rw q at h in inl ((eq_iff op "<").0 q, ground arith)
  | inr q ↦
      let h1 = rw q at h in
      elim (Bool-cases (op == "<=")) [
        | inl q ↦ let g = rw q at h1 in inr (inl ((eq_iff op "<=").0 q, ground arith))
        | inr q ↦
            let h2 = rw q at h1 in
            elim (Bool-cases (op == ">")) [
              | inl q ↦ let g = rw q at h2 in inr (inr (inl ((eq_iff op ">").0 q, ground arith)))
              | inr q ↦
                  let h3 = rw q at h2 in
                  elim (Bool-cases (op == ">=")) [
                    | inl q ↦
                        let g = rw q at h3 in
                        inr (inr (inr (inl ((eq_iff op ">=").0 q, ground arith))))
                    | inr q ↦
                        let h4 = rw q at h3 in
                        elim (Bool-cases (op == "==")) [
                          | inl q ↦
                              let g = rw q at h4 in
                              inr (inr (inr (inr (inl ((eq_iff op "==").0 q, ground arith)))))
                          | inr q ↦
                              let h5 = rw q at h4 in
                              elim (Bool-cases (op == "!=")) [
                                | inl q ↦
                                    let g = rw q at h5 in
                                    inr (inr (inr (inr (inr ((eq_iff op "!=").0 q, ground arith)))))
                                | inr q ↦ let h6 = rw q at h5 in cc
                              ]
                        ]
                  ]
            ]
      ]
]

IsInOrder-compare :
    (x : Float64) (op : String) (limit : Float64)
    → IsInOrder x op limit
    → compare x op limit ≡ some true
unfolding compare Float64.lt Float64.eq
IsInOrder-compare x op limit (inl (e, t)) = rw (e, t) refl
IsInOrder-compare x op limit (inr (inl (e, t))) = rw (e, t) refl
IsInOrder-compare x op limit (inr (inr (inl (e, t)))) = rw (e, t) refl
IsInOrder-compare x op limit (inr (inr (inr (inl (e, t))))) = rw (e, t) refl
IsInOrder-compare x op limit (inr (inr (inr (inr (inl (e, t)))))) = rw (e, t) refl
IsInOrder-compare x op limit (inr (inr (inr (inr (inr (e, t)))))) = rw (e, t) refl

pub evaluate_threshold-Holds :
    (m : Dict Value) (expr : String)
    → ((evaluate_threshold m expr ≡ true) × Holds m expr)
      ⊎ ((evaluate_threshold m expr ≡ false) × (¬ Holds m expr))
unfolding evaluate_threshold
evaluate_threshold-Holds m expr = elim (Option-cases (split_threshold_expr expr)) [
  | inl n ↦ inr (ground arith, λ (key, op, limit, x, e, f, o). cc)
  | inr ((key, op, limit), e) ↦ elim (Option-cases (lookup_metric_stat m key)) [
    | inl n ↦
        inr (rw (evaluate_threshold, e, n) refl, λ (key', op', limit', x, e', f, o). ground arith)
    | inr (x, f) ↦ elim (Bool-cases (or_false (compare x op limit))) [
      | inl t ↦ inl (
        rw (evaluate_threshold, e, f, t) refl,
        (key, op, limit, x, e, f, compare-IsInOrder x op limit (ground arith)),
      )
      | inr t ↦ inr (
        rw (evaluate_threshold, e, f, t) refl,
        λ (key', op', limit', x', e', f', o). ground (arith, IsInOrder-compare x' op' limit' o),
      )
    ]
  ]
]
