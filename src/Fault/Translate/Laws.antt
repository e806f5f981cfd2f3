-- ===== src/Fault/Translate/Laws.antt =====
-- What Translate accepts, and what the accepted action looks like.
use tortureu.Base.{
  String, true, false, List, [], ◌∷◌, none, some, Dict, lookup, contains, ◌==◌, ◌≡◌, ◌⊎◌, has_key,
  is_some, arith, eq_iff, refl, inl, inr, ℤ, pos, ◌≤ℤ◌, Option-cases, ◌||◌, ◌≢◌, has_key-all_keys,
}
use tortureu.Base.Result.{ok, ◌>>◌, reject_if, >>=-eq-ok, reject_if-eq-ok, reject_some-eq-ok}
use tortureu.Config
use tortureu.Value.{Value}
use tortureu.Fault.{
  Action, no_target, toxic, docker, passed, network_verbs, service_verbs, fault_verb_modifiers,
  other_layer_owner,
}
use tortureu.Fault.Values.{validate_workers, as_int}
use tortureu.Fault.Translate.{
  stray_key, translate, translate_own, dispatch, workers_error, translate_toxic, translate_docker,
  toxic_of, docker_of,
}

-- What an action's kind promises of its payload.
pub record IsWellFormed (a : Action) : Type 0 where
  pub has_toxic : a.kind ≡ toxic → is_some a.toxic ≡ true
  pub has_docker : a.kind ≡ docker → is_some a.docker ≡ true
  pub has_owner : a.kind ≡ passed → lookup a.fault.verb other_layer_owner ≡ some a.owner

toxic-IsWellFormed :
    (f : Config.Fault) (a : Action)
    → translate_toxic f ≡ ok a
    → (a.fault ≡ f) × IsWellFormed a × (a.kind ≡ toxic)
unfolding translate_toxic
toxic-IsWellFormed f a h = let (t, e, p) = >>=-eq-ok (toxic_of f.verb f.inject) _ h in ground arith

docker-IsWellFormed :
    (f : Config.Fault) (a : Action)
    → translate_docker f ≡ ok a
    → (a.fault ≡ f) × IsWellFormed a × (a.kind ≡ docker)
unfolding translate_docker
docker-IsWellFormed f a h =
    let (d, e, p) = >>=-eq-ok (docker_of f.verb f.target f.inject) _ h in ground arith

-- Every verb of the modifier table belongs to another layer, to the proxy or to a container.
pub verbs_covered :
    (verb : String)
    → has_key verb fault_verb_modifiers ≡ true
    → (has_key verb other_layer_owner || contains network_verbs verb || contains service_verbs verb)
      ≡ true
unfolding fault_verb_modifiers other_layer_owner network_verbs service_verbs
verbs_covered verb h =
    has_key-all_keys
      (λ v. has_key v other_layer_owner || contains network_verbs v || contains service_verbs v)
      verb fault_verb_modifiers refl h

-- The three checks that an accepted fault has passed, with the last step.
pub translate-eq-ok :
    (f : Config.Fault) (a : Action)
    → translate f ≡ ok a
    → (allowed : List String) × (lookup f.verb fault_verb_modifiers ≡ some allowed)
      × (stray_key f.verb allowed f.inject ≡ none)
      × (((owner : String) × (lookup f.verb other_layer_owner ≡ some owner)
            × (a ≡ record { fault = f; kind = passed; toxic = none; docker = none; owner = owner }))
          ⊎ ((lookup f.verb other_layer_owner ≡ none) × (translate_own f ≡ ok a)))
unfolding translate
translate-eq-ok f a h = elim (Option-cases (lookup f.verb fault_verb_modifiers)) [
  | inl n ↦ absurd (ground arith)
  | inr (allowed, e) ↦ elim (Option-cases (stray_key f.verb allowed f.inject)) [
    | inr (k, s) ↦ absurd (ground arith)
    | inl s ↦ elim (Option-cases (lookup f.verb other_layer_owner)) [
      | inr (owner, o) ↦ (allowed, e, s, inl (owner, o, ground arith))
      | inl o ↦ (allowed, e, s, inr (o, ground arith))
    ]
  ]
]

-- What an accepted action is, by the layer that owns its verb.
pub data IsRouted (f : Config.Fault) (a : Action) : Type 0 where
  to_owner : a.kind ≡ passed → lookup f.verb other_layer_owner ≡ some a.owner → IsRouted f a
  to_proxy : a.kind ≡ toxic → contains network_verbs f.verb ≡ true → IsRouted f a
  to_container : a.kind ≡ docker → contains service_verbs f.verb ≡ true → IsRouted f a

dispatch-eq-ok :
    (f : Config.Fault) (a : Action)
    → dispatch f ≡ ok a
    → ((contains network_verbs f.verb ≡ true) × (translate_toxic f ≡ ok a))
      ⊎ ((contains service_verbs f.verb ≡ true) × (translate_docker f ≡ ok a))
unfolding dispatch
dispatch-eq-ok f a h = ground arith

own-eq-ok :
    (f : Config.Fault) (a : Action)
    → translate_own f ≡ ok a
    → (workers_error f.inject ≡ none) × (f.target == "" ≡ false) × (dispatch f ≡ ok a)
unfolding translate_own
own-eq-ok f a h =
    let (w, h1) =
      reject_some-eq-ok (workers_error f.inject)
        (reject_if (f.target == "") no_target >> dispatch f) h in
    let (t, h2) = reject_if-eq-ok (f.target == "") no_target (dispatch f) h1 in (w, t, h2)

-- a number that the check of `workers:` lets through
workers_in_range :
    (inject : Dict Value) (w : Value)
    → workers_error inject ≡ none
    → lookup "workers" inject ≡ some w
    → (n : ℤ) × (as_int w ≡ some n) × (pos 1 ≤ℤ n)
unfolding workers_error validate_workers
workers_in_range inject w n e = elim (Option-cases (as_int w)) [
  | inl i ↦ absurd (ground arith)
  | inr (k, i) ↦ (k, i, ground arith)
]

own_sound :
    (f : Config.Fault) (a : Action)
    → translate_own f ≡ ok a
    → (a.fault ≡ f) × IsWellFormed a × IsRouted f a
own_sound f a h = elim (dispatch-eq-ok f a (own-eq-ok f a h).2) [
  | inl (n, e) ↦
      let (same, wf, kind) = toxic-IsWellFormed f a e in (same, wf, IsRouted.to_proxy kind n)
  | inr (s, e) ↦
      let (same, wf, kind) = docker-IsWellFormed f a e in (same, wf, IsRouted.to_container kind s)
]

-- An accepted fault gives an action about that fault, whose kind comes with its payload, and whose
-- kind is the one of the layer that owns the verb: the named owner, the proxy or the container.
pub translate_sound :
    (f : Config.Fault) (a : Action)
    → translate f ≡ ok a
    → (a.fault ≡ f) × IsWellFormed a × IsRouted f a
translate_sound f a h =
    let (allowed, known, clean, step) = translate-eq-ok f a h in
    elim step [
      | inl (owner, o, e) ↦
          (ground arith, ground arith, IsRouted.to_owner (ground arith) (ground arith))
      | inr (o, e) ↦ own_sound f a e
    ]

-- a passed-over action carries the owner that the table names
pub owner-translate :
    (f : Config.Fault) (a : Action)
    → translate f ≡ ok a
    → a.kind ≡ passed
    → lookup f.verb other_layer_owner ≡ some a.owner
owner-translate f a h p =
    let (same, wf, routed) = translate_sound f a h in rw same at (wf.has_owner p)

stray_key-none :
    (verb : String) (allowed : List String) (inject : Dict Value) (k : String)
    → stray_key verb allowed inject ≡ none
    → has_key k inject ≡ true
    → (k ≡ verb) ⊎ (contains allowed k ≡ true)
unfolding stray_key
stray_key-none verb allowed [] k n h = cc
stray_key-none verb allowed ((j, v) ∷ rest) k n h =
    ground (arith, eq_iff j k, eq_iff j verb, stray_key-none verb allowed rest k)

-- An accepted fault has a verb of the table, and each key of its `inject:` is that verb or one of the
-- verb's modifiers; where this package owns the verb, the target is not empty and `workers`, if it is
-- given, is a whole number of at least 1.
pub translate-checks :
    (f : Config.Fault) (a : Action)
    → translate f ≡ ok a
    → (allowed : List String) × (lookup f.verb fault_verb_modifiers ≡ some allowed)
      × ((k : String) → has_key k f.inject ≡ true → (k ≡ f.verb) ⊎ (contains allowed k ≡ true))
      × (a.kind ≢ passed
          → (f.target ≢ "")
            × ((w : Value)
                → lookup "workers" f.inject ≡ some w
                → (n : ℤ) × (as_int w ≡ some n) × (pos 1 ≤ℤ n)))
translate-checks f a h =
    let (allowed, known, clean, step) = translate-eq-ok f a h in
    (
      allowed,
      known,
      (λ k. stray_key-none f.verb allowed f.inject k clean),
      λ own. elim step [
        | inl (owner, o, e) ↦ absurd (own (ground arith))
        | inr (o, e) ↦
            let (w, t, d) = own-eq-ok f a e in
            (ground (arith, eq_iff f.target ""), λ v found. workers_in_range f.inject v w found)
      ],
    )
