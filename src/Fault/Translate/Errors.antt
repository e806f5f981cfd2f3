-- ===== src/Fault/Translate/Errors.antt =====
-- What translate refuses a fault for.
use tortureu.Base.{
  String, Bool, true, false, List, Option, none, some, Dict, lookup, contains, ◌==◌, ◌≡◌, ◌⊎◌,
  is_some, arith, eq_iff, inl, inr, if◌then◌else◌, if_elim, ℤ, Option-cases, Bool-cases, ◌||◌, ap,
  refl,
}
use tortureu.Base.Result.{Result, ok, err, ◌>>=◌, reject_some-eq-err, reject_if-eq-err}
use tortureu.Config
use tortureu.Value.{Value}
use tortureu.Fault.{
  Error, no_target, bad_workers, bad_value, unknown_verb, bad_modifier, network_verbs,
  service_verbs, fault_verb_modifiers, other_layer_owner,
}
use tortureu.Fault.Values.{validate_workers, parse_millis, parse_rate_kbps, parse_percent}
use tortureu.Fault.Translate.Faulty.{
  IsBadValue, IsFaulty, validate_workers-at_least_one, millis-IsBadText, rate-IsBadText,
  percent-IsBadPercent,
}
use tortureu.Fault.Translate.{
  stray_key, translate, translate_own, dispatch, workers_error, translate_toxic, translate_docker,
  toxic_of, docker_of, latency_toxic, parsed, add_jitter,
}
use tortureu.Fault.Translate.Laws.{verbs_covered}

-- a result whose error is about one of the values in `inject`
record ByValue {A : Type 0} (inject : Dict Value) (r : Result Error A) : Type 0 where
  only : (e : Error) → r ≡ err e → IsFaulty inject e

parsed-ByValue :
    (inject : Dict Value) (field : String) (v : Value) (o : Option ℤ)
    → (o ≡ none → IsBadValue field v)
    → ByValue inject (parsed field v o)
unfolding parsed
parsed-ByValue inject field v none bad = record {
  only = λ e h. (let same : bad_value field v ≡ e = ground arith in rw (← same) (bad refl));
}
parsed-ByValue inject field v (some n) bad = record { only = λ e h. cc }

latency-ByValue :
    (inject : Dict Value) (v : Value) → ByValue inject (parsed "latency" v (parse_millis v))
latency-ByValue inject v =
    parsed-ByValue inject "latency" v (parse_millis v)
      (λ h. (let (n, t) = millis-IsBadText v h in inl (inl refl, n, t)))

jitter-ByValue :
    (inject : Dict Value) (v : Value) → ByValue inject (parsed "jitter" v (parse_millis v))
jitter-ByValue inject v =
    parsed-ByValue inject "jitter" v (parse_millis v)
      (λ h. (let (n, t) = millis-IsBadText v h in inl (inr refl, n, t)))

bandwidth-ByValue :
    (inject : Dict Value) (v : Value) → ByValue inject (parsed "bandwidth" v (parse_rate_kbps v))
bandwidth-ByValue inject v =
    parsed-ByValue inject "bandwidth" v (parse_rate_kbps v)
      (λ h. (let (n, t) = rate-IsBadText v h in inr (inl (refl, n, t))))

cpu-ByValue : (inject : Dict Value) (v : Value) → ByValue inject (parsed "cpu" v (parse_percent v))
cpu-ByValue inject v =
    parsed-ByValue inject "cpu" v (parse_percent v)
      (λ h. inr (inr (refl, percent-IsBadPercent v h)))

bind-ByValue :
    {A B : Type 0} (inject : Dict Value) (r : Result Error A) (f : A → Result Error B)
    → ByValue inject r
    → ((a : A) → ByValue inject (f a))
    → ByValue inject (r >>= f)
bind-ByValue inject (ok a) f hr hf = hf a
bind-ByValue inject (err x) f hr hf = record { only = λ e h. hr.only e (ground arith) }

ok-ByValue : {A : Type 0} (inject : Dict Value) (a : A) → ByValue inject (ok a)
ok-ByValue inject a = record { only = λ e h. cc }

if-ByValue :
    {A : Type 0} (inject : Dict Value) (b : Bool) (x y : Result Error A)
    → ByValue inject x
    → ByValue inject y
    → ByValue inject (if b then x else y)
if-ByValue inject b x y = if_elim (ByValue inject) b

add_jitter-ByValue :
    (inject : Dict Value) (o : Option Value) (attributes : Dict Value)
    → ByValue inject (add_jitter o attributes)
unfolding add_jitter
add_jitter-ByValue inject none attributes = ok-ByValue inject attributes
add_jitter-ByValue inject (some v) attributes =
    bind-ByValue inject _ _ (jitter-ByValue inject v) (λ j. ok-ByValue inject _)

ruleset by_value_rules = (
  latency-ByValue, bandwidth-ByValue, cpu-ByValue, bind-ByValue, ok-ByValue, if-ByValue,
  add_jitter-ByValue,
)

latency_toxic-ByValue : (inject : Dict Value) → ByValue inject (latency_toxic inject)
unfolding latency_toxic
latency_toxic-ByValue inject = search by_value_rules

toxic_of-ByValue : (verb : String) (inject : Dict Value) → ByValue inject (toxic_of verb inject)
unfolding toxic_of
toxic_of-ByValue verb inject = search (by_value_rules, latency_toxic-ByValue) depth 12

docker_of-ByValue :
    (verb target : String) (inject : Dict Value) → ByValue inject (docker_of verb target inject)
unfolding docker_of
docker_of-ByValue verb target inject = search by_value_rules depth 12

dispatch-ByValue :
    (f : Config.Fault)
    → (contains network_verbs f.verb || contains service_verbs f.verb) ≡ true
    → ByValue f.inject (dispatch f)
unfolding dispatch translate_toxic translate_docker
dispatch-ByValue f c = elim (Bool-cases (contains network_verbs f.verb)) [
  | inl n ↦ rw n (search (by_value_rules, toxic_of-ByValue))
  | inr n ↦
      let s : contains service_verbs f.verb ≡ true = rw n at c in
      rw (n, s) (search (by_value_rules, docker_of-ByValue))
]

workers_value :
    (inject : Dict Value) (w : Value) (x : Error)
    → lookup "workers" inject ≡ some w
    → (if validate_workers w then some (bad_workers w) else none) ≡ some x
    → IsFaulty inject x
workers_value inject w x l h = elim (Bool-cases (validate_workers w)) [
  | inl bad ↦
      let h' : some (bad_workers w) ≡ some x = rw bad at h in
      let same : bad_workers w ≡ x = ground arith in
      rw (← same) (l, validate_workers-at_least_one w bad)
  | inr fine ↦ let h' : none ≡ some x = rw fine at h in cc
]

workers_error-IsFaulty :
    (inject : Dict Value) (x : Error) → workers_error inject ≡ some x → IsFaulty inject x
unfolding workers_error
workers_error-IsFaulty inject x h = elim (Option-cases (lookup "workers" inject)) [
  | inl n ↦ let h' = rw (workers_error, n) at h in cc
  | inr (w, l) ↦ workers_value inject w x l (rw (workers_error, l) at h)
]

-- what is left beside the values is a target that is empty
own-error :
    (f : Config.Fault) (e : Error)
    → (contains network_verbs f.verb || contains service_verbs f.verb) ≡ true
    → translate_own f ≡ err e
    → IsFaulty f.inject e ⊎ ((e ≡ no_target) × (f.target ≡ ""))
unfolding translate_own
own-error f e c h = elim (reject_some-eq-err (workers_error f.inject) _ h) [
  | inl w ↦ inl (workers_error-IsFaulty f.inject e w)
  | inr h1 ↦ elim (reject_if-eq-err (f.target == "") no_target (dispatch f) h1) [
    | inl (t, same) ↦ inr (same, (eq_iff f.target "").0 t)
    | inr h2 ↦ inl ((dispatch-ByValue f c).only e h2)
  ]
]

is_some-none : {A : Type 0} {o : Option A} → o ≡ none → is_some o ≡ false
is_some-none e = ap is_some e

is_some-some : {A : Type 0} {o : Option A} {a : A} → o ≡ some a → is_some o ≡ true
is_some-some e = ap is_some e

pub translate-error :
    (f : Config.Fault) (e : Error)
    → translate f ≡ err e
    → ((e ≡ unknown_verb f.verb) × (lookup f.verb fault_verb_modifiers ≡ none))
      ⊎ (((k : String) × (allowed : List String) × (e ≡ bad_modifier f.verb k)
            × (lookup f.verb fault_verb_modifiers ≡ some allowed)
            × (stray_key f.verb allowed f.inject ≡ some k))
          ⊎ (((e ≡ no_target) × (f.target ≡ "")) ⊎ IsFaulty f.inject e))
unfolding translate
translate-error f e h = elim (Option-cases (lookup f.verb fault_verb_modifiers)) [
  | inl n ↦ inl (let h' = rw (translate, n) at h in (ground arith, n))
  | inr (allowed, l) ↦ elim (Option-cases (stray_key f.verb allowed f.inject)) [
    | inr (k, s) ↦
        inr (inl (k, allowed, (let h' = rw (translate, l, s) at h in ground arith), l, s))
    | inl s ↦ elim (Option-cases (lookup f.verb other_layer_owner)) [
      | inr (owner, o) ↦ absurd (let h' = rw (translate, l, s, o) at h in cc)
      | inl o ↦
          let c : (contains network_verbs f.verb || contains service_verbs f.verb) ≡ true =
            rw (is_some-none o) at (verbs_covered f.verb (is_some-some l)) in
          elim (own-error f e c (rw (translate, l, s, o) at h)) [
            | inl v ↦ inr (inr (inr v))
            | inr t ↦ inr (inr (inl t))
          ]
    ]
  ]
]
