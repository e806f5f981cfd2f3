-- ===== src/Findings/Thresholds/Verdicts.antt =====
-- Every assertion is reported once, on the side where it belongs.
use tortureu.Base.{
  String, Bool, true, false, List, [], ◌∷◌, ◌++◌, Option, none, some, Dict, lookup, keys, ◌≡◌, refl,
  if◌then◌else◌, map, ap, arith, Bool-cases, Option-cases, inl, inr, ◌∙◌,
}
use tortureu.Base.Sort.{sort_strings}
use tortureu.Value.{Value, bool, obj, entries}
use tortureu.Config
use tortureu.Config.{AssertEntry}
use tortureu.Verdict.{Finding, Passed}
use tortureu.Findings.{attribute}
use tortureu.Findings.Chain.Earned.{apply_trace_chain-IsChained}
use tortureu.Findings.Thresholds.{
  Context, Results, broken, broken_finding, evaluate_exprs, evaluate_metrics, evaluate_thresholds,
  threshold_name, held, threshold_held, thresholds_of, measured_value, observed_or,
}

abbrev pub passed_names : List Passed → List String
passed_names ps = map (λ p. p.assertion) ps

abbrev pub broken_names : List Finding → List String
broken_names fs = map (λ f. f.broke.assertion) fs

assertion-attribute :
    (c : Context) (f : Finding) → (attribute f c.faults c.system c.audit).broke ≡ f.broke
unfolding attribute
assertion-attribute c f = by_faults c.faults
  where
    by_faults : (fs : List Config.Fault) → (attribute f fs c.system c.audit).broke ≡ f.broke
    by_faults [] = refl
    by_faults (x ∷ []) = refl
    by_faults (x ∷ y ∷ fs) = refl

-- attribution and the chain do not touch what broke
broke-broken_finding :
    (c : Context) (assertion observed : String)
    → (broken_finding c assertion observed).broke ≡ (broken c assertion observed).broke
unfolding broken_finding
broke-broken_finding c assertion observed =
    let f = attribute (broken c assertion observed) c.faults c.system c.audit in
    elim (apply_trace_chain-IsChained f c.system c.traces c.faults) [
      | inl e ↦ ap (λ g. g.broke) e ∙ assertion-attribute c (broken c assertion observed)
      | inr ch ↦ ap (λ g. g.broke) ch.chain ∙ assertion-attribute c (broken c assertion observed)
    ]

-- An assertion and whether it held.
abbrev pub Judged : Type 0
Judged = List (String × Bool)

abbrev is_true : Option Value → Bool
is_true (some (bool true)) = true
is_true _ = false

-- Whether a threshold held, by k6's two shapes: true of a threshold that was crossed, or a map whose
-- "ok" is true of one that held.
abbrev pub k6_held : Option Value → Bool
k6_held (some (bool true)) = false
k6_held (some (bool false)) = true
k6_held (some (obj fields)) = is_true (lookup "ok" (entries fields))
k6_held _ = false

held-k6_held : (v : Option Value) → held v ≡ k6_held v
unfolding threshold_held
held-k6_held none = refl
held-k6_held (some (bool true)) = refl
held-k6_held (some (bool false)) = refl
held-k6_held (some (obj fields)) = by_ok (lookup "ok" (entries fields)) refl
  where
    by_ok :
        (o : Option Value)
        → lookup "ok" (entries fields) ≡ o
        → held (some (obj fields)) ≡ is_true (lookup "ok" (entries fields))
    by_ok none e = ground arith
    by_ok (some (bool true)) e = ground arith
    by_ok (some (bool false)) e = ground arith
    by_ok (some _) e = ground arith
held-k6_held (some _) = refl

abbrev pub judged_exprs : String → Dict Value → List String → Judged
judged_exprs name ts [] = []
judged_exprs name ts (expr ∷ exprs) =
    (threshold_name name expr, k6_held (lookup expr ts)) ∷ judged_exprs name ts exprs

abbrev judged_metric : String → Option (Dict Value × Dict Value) → Judged
judged_metric name none = []
judged_metric name (some (m, ts)) = judged_exprs name ts (sort_strings (keys ts))

abbrev pub judged : Dict Value → List String → Judged
judged metrics [] = []
judged metrics (name ∷ names) =
    judged_metric name (thresholds_of metrics name) ++ judged metrics names

-- the assertions with one of the two outcomes
abbrev pub with_outcome : Bool → Judged → List String
with_outcome true [] = []
with_outcome true ((a, h) ∷ js) = if h then a ∷ with_outcome true js else with_outcome true js
with_outcome false [] = []
with_outcome false ((a, h) ∷ js) = if h then with_outcome false js else a ∷ with_outcome false js

with_outcome-append :
    (b : Bool) (js ks : Judged) → with_outcome b (js ++ ks) ≡ with_outcome b js ++ with_outcome b ks
with_outcome-append true [] ks = refl
with_outcome-append false [] ks = refl
with_outcome-append true ((a, true) ∷ js) ks = ap (λ l. a ∷ l) (with_outcome-append true js ks)
with_outcome-append true ((a, false) ∷ js) ks = with_outcome-append true js ks
with_outcome-append false ((a, true) ∷ js) ks = with_outcome-append false js ks
with_outcome-append false ((a, false) ∷ js) ks = ap (λ l. a ∷ l) (with_outcome-append false js ks)

-- both sides of some results agree with the judgements
abbrev Agrees : Results → Judged → Type 0
Agrees (passed, findings) js =
    (passed_names passed ≡ with_outcome true js) × (broken_names findings ≡ with_outcome false js)

evaluate_exprs-Agrees :
    (c : Context) (name : String) (m ts : Dict Value) (exprs : List String)
    → Agrees (evaluate_exprs c name m ts exprs) (judged_exprs name ts exprs)
unfolding evaluate_exprs
evaluate_exprs-Agrees c name m ts [] = (refl, refl)
evaluate_exprs-Agrees c name m ts (expr ∷ exprs) =
    let (p, f) = evaluate_exprs-Agrees c name m ts exprs in
    let a = threshold_name name expr in
    rw (← held-k6_held (lookup expr ts)) (elim (Bool-cases (held (lookup expr ts))) [
      | inl h ↦ rw h (ap (λ l. a ∷ l) p, f)
      | inr h ↦
          rw
            (
              h,
              ap (λ b. b.assertion)
                  (broke-broken_finding c a (observed_or (measured_value name m expr))),
            )
            (p, ap (λ l. a ∷ l) f)
    ])

names-append : (xs ys : List Passed) → passed_names (xs ++ ys) ≡ passed_names xs ++ passed_names ys
names-append [] ys = refl
names-append (x ∷ xs) ys = ap (λ l. x.assertion ∷ l) (names-append xs ys)

broken_names-append :
    (xs ys : List Finding) → broken_names (xs ++ ys) ≡ broken_names xs ++ broken_names ys
broken_names-append [] ys = refl
broken_names-append (x ∷ xs) ys = ap (λ l. x.broke.assertion ∷ l) (broken_names-append xs ys)

Agrees-append :
    (p q : List Passed) (f g : List Finding) (js ks : Judged)
    → Agrees (p, f) js
    → Agrees (q, g) ks
    → Agrees (p ++ q, f ++ g) (js ++ ks)
Agrees-append p q f g js ks h k = (
  rw (names-append p q, with_outcome-append true js ks, h.0, k.0),
  rw (broken_names-append f g, with_outcome-append false js ks, h.1, k.1),
)

evaluate_metrics-Agrees :
    (c : Context) (metrics : Dict Value) (names : List String)
    → Agrees (evaluate_metrics c metrics names) (judged metrics names)
unfolding evaluate_metrics
evaluate_metrics-Agrees c metrics [] = (refl, refl)
evaluate_metrics-Agrees c metrics (name ∷ names) =
    elim (Option-cases (thresholds_of metrics name)) [
      | inl n ↦ rw (n, evaluate_metrics) (evaluate_metrics-Agrees c metrics names)
      | inr (found, e) ↦
          let (m, ts) = found in
          let exprs = sort_strings (keys ts) in
          let (p, f) = evaluate_exprs c name m ts exprs in
          let (q, g) = evaluate_metrics c metrics names in
          rw (e, evaluate_metrics)
            (Agrees-append p q f g (judged_exprs name ts exprs) (judged metrics names)
              (evaluate_exprs-Agrees c name m ts exprs) (evaluate_metrics-Agrees c metrics names))
    ]

-- Each threshold of each metric is reported once and in the order of the names: as passed when it held,
-- and as a finding that names it when it did not. It held when k6's bare shape, which says whether it was
-- crossed, is false, or when the "ok" of the shape that is a map is true.
pub evaluate_thresholds-Agrees :
    (c : Context) (metrics : Dict Value)
    → (passed_names (evaluate_thresholds c metrics).0
        ≡ with_outcome true (judged metrics (sort_strings (keys metrics))))
      × (broken_names (evaluate_thresholds c metrics).1
          ≡ with_outcome false (judged metrics (sort_strings (keys metrics))))
unfolding evaluate_thresholds
evaluate_thresholds-Agrees c metrics =
    evaluate_metrics-Agrees c metrics (sort_strings (keys metrics))
