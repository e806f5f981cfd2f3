-- ===== src/Fault/Translate/Parsed.antt =====
-- How fault.Translate treats the faults that config.Parse has accepted.
use tortureu.Base.{
  String, true, false, List, [], ◌∷◌, ◌++◌, none, some, Dict, lookup, contains, ◌==◌, ◌≡◌, ◌≢◌,
  has_key, arith, eq_iff, refl, inl, inr, Option-cases, Bool-cases,
}
use tortureu.Base.Result.{ok, err}
use tortureu.Config
use tortureu.Config.Checks
use tortureu.Config.Parse.{RawFault, parse_fault}
use tortureu.Config.Parse.Sound.{IsValidFault, parse_fault-IsValidFault}
use tortureu.Value.{Value}
use tortureu.Fault.{Error, fault_verb_modifiers}
use tortureu.Fault.Translate.{stray_key, translate}
use tortureu.Fault.Translate.Errors.{translate-error}
use tortureu.Fault.Translate.Faulty.{is_value_error, IsFaulty-is_value_error}

lookup-append {ℓ} :
    {V : Type ℓ} (k : String) (m n : Dict V) {v : V}
    → lookup k m ≡ some v
    → lookup k (m ++ n) ≡ some v
lookup-append k [] n h = cc
lookup-append k ((j, w) ∷ m) n h = elim (Bool-cases (j == k)) [
  | inl same ↦ rw same (rw same at h)
  | inr differs ↦ rw differs (lookup-append k m n (rw differs at h))
]

-- the verbs of the configuration language are those of translate, less two
table-append :
    fault_verb_modifiers
    ≡ Checks.fault_verb_modifiers ++ (("timeout", []) ∷ ("reset_peer", []) ∷ [])
unfolding fault_verb_modifiers Checks.fault_verb_modifiers
table-append = refl

modifiers-kept :
    (verb : String) (allowed : List String)
    → lookup verb Checks.fault_verb_modifiers ≡ some allowed
    → lookup verb fault_verb_modifiers ≡ some allowed
modifiers-kept verb allowed h = rw table-append (lookup-append verb Checks.fault_verb_modifiers _ h)

stray_key-some :
    (verb : String) (allowed : List String) (inject : Dict Value) (k : String)
    → stray_key verb allowed inject ≡ some k
    → (has_key k inject ≡ true) × (k ≢ verb) × (contains allowed k ≡ false)
unfolding stray_key
stray_key-some verb allowed [] k h = cc
stray_key-some verb allowed ((j, v) ∷ rest) k h =
    ground (arith, eq_iff j k, eq_iff j verb, stray_key-some verb allowed rest k)

no_verb :
    (verb : String)
    → has_key verb Checks.fault_verb_modifiers ≡ true
    → lookup verb Checks.fault_verb_modifiers ≢ none
no_verb verb known n = let k : false ≡ true = rw n at known in cc

-- where a valid fault is refused, a value is at fault
refused_value :
    (phases targets : List String) (f : Config.Fault) (e : Error)
    → IsValidFault phases targets f
    → translate f ≡ err e
    → is_value_error e ≡ true
refused_value phases targets f e valid h =
    elim (Option-cases (lookup f.verb Checks.fault_verb_modifiers)) [
      | inl n ↦ absurd (no_verb f.verb valid.verb_known n)
      | inr (allowed, l) ↦
          let kept = modifiers-kept f.verb allowed l in
          elim (translate-error f e h) [
            | inl (same, n) ↦ absurd (cc)
            | inr (inl (k, other, same, o, s)) ↦
                let (here, not_verb, stray) = stray_key-some f.verb other f.inject k s in
                let own = valid.own_modifiers allowed k l here in ground arith
            | inr (inr (inl (same, t))) ↦ absurd (valid.targeted t)
            | inr (inr (inr v)) ↦ IsFaulty-is_value_error f.inject e v
          ]
    ]

-- A fault that Parse accepts is known to translate: where translate refuses it, the error is about the
-- value of a parameter or of `workers`, never about its verb, a key that is no modifier, a missing
-- target or a verb without a layer.
pub translate-parse_fault :
    (phases targets : List String) (rf : RawFault) (f : Config.Fault) (e : Error)
    → parse_fault phases targets rf ≡ ok f
    → translate f ≡ err e
    → is_value_error e ≡ true
translate-parse_fault phases targets rf f e p h =
    refused_value phases targets f e (parse_fault-IsValidFault phases targets rf f p) h
