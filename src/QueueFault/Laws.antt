-- ===== src/QueueFault/Laws.antt =====
-- What the queue layer accepts, and that it owns whatever internal/fault passes to it.
use tortureu.Base.{
  String, Bool, true, false, Option, none, some, lookup, ◌==◌, ◌≡◌, ◌≢◌, ◌⊎◌, inl, inr, refl, sym,
  ap, ◌∙◌, arith, eq_iff, Option-cases, Bool-cases, pos, ◌≤ℤ◌,
}
use tortureu.Base.Result.{ok, err, >>=-eq-ok}
use tortureu.Float64
use tortureu.Config
use tortureu.Fault
use tortureu.Fault.{passed}
use tortureu.Fault.Translate
use tortureu.Fault.Translate.{stray_key}
use tortureu.Fault.Translate.Laws.{owner-translate, translate-eq-ok as checks}
use tortureu.QueueFault.{
  Action, ActionKind, PoisonPill, Duplicate, Error, poison_pill, not_owned, unsupported_verb,
  bad_modifier, verb_modifiers, count_of, rate_of, poison_pill_action, duplicate_action, dispatch,
  translate,
}

-- A poison pill for the fault's topic, with at least one message.
pub record IsPoisonPill (f : Config.Fault) (a : Action) : Type 0 where
  pub pill : PoisonPill
  pub kind : a.kind ≡ poison_pill
  pub payload : a.poison_pill ≡ some pill
  pub topic : pill.topic ≡ f.target
  pub count : pos 1 ≤ℤ pill.count

-- A redelivery for the fault's topic, whose rate is neither below 0 nor above 1.
pub record IsDuplicate (f : Config.Fault) (a : Action) : Type 0 where
  pub duplicate : Duplicate
  pub kind : a.kind ≡ ActionKind.duplicate
  pub payload : a.duplicate ≡ some duplicate
  pub topic : duplicate.topic ≡ f.target
  pub not_below : Float64.lt duplicate.rate (Float64.of_int (pos 0)) ≡ false
  pub not_above : Float64.lt (Float64.of_int (pos 1)) duplicate.rate ≡ false

poison_pill_action-IsPoisonPill :
    (f : Config.Fault) (a : Action) → poison_pill_action f ≡ ok a → (a.fault ≡ f) × IsPoisonPill f a
unfolding poison_pill_action
poison_pill_action-IsPoisonPill f a h =
    let (n, c, e) = >>=-eq-ok (count_of (lookup "count" f.inject)) _ h in
    (
      ground arith,
      record {
        pill = record { topic = f.target; count = n };
        kind = ground arith;
        payload = ground arith;
        topic = refl;
        count = ground arith;
      },
    )

duplicate_action-IsDuplicate :
    (f : Config.Fault) (a : Action) → duplicate_action f ≡ ok a → (a.fault ≡ f) × IsDuplicate f a
unfolding duplicate_action
duplicate_action-IsDuplicate f a h =
    let (x, c, e) = >>=-eq-ok (rate_of (lookup "duplicate" f.inject)) _ h in
    (
      ground arith,
      record {
        duplicate = record { topic = f.target; rate = x };
        kind = ground arith;
        payload = ground arith;
        topic = refl;
        not_below = ground arith;
        not_above = ground arith;
      },
    )

translate-eq-ok :
    (f : Config.Fault) (a : Action)
    → translate f ≡ ok a
    → (f.target == "" ≡ false) × (dispatch f ≡ ok a)
unfolding translate
translate-eq-ok f a h = elim (Option-cases (lookup f.verb verb_modifiers)) [
  | inl n ↦ absurd (ground arith)
  | inr (allowed, e) ↦ elim (Option-cases (stray_key f.verb allowed f.inject)) [
    | inr (k, s) ↦ absurd (ground arith)
    | inl s ↦ ground arith
  ]
]

-- An accepted queue fault has a target, and its action is about that fault: a poison pill for the
-- topic with a count of at least 1, or a redelivery for it at a rate not below 0 and not above 1.
pub translate-queue :
    (f : Config.Fault) (a : Action)
    → translate f ≡ ok a
    → (f.target ≢ "") × (a.fault ≡ f) × (IsPoisonPill f a ⊎ IsDuplicate f a)
unfolding dispatch
translate-queue f a h =
    let (t, d) = translate-eq-ok f a h in
    elim (Bool-cases (f.verb == "poison_pill")) [
      | inl p ↦
          let (same, pill) = poison_pill_action-IsPoisonPill f a (rw p at d) in
          (ground (arith, eq_iff f.target ""), same, inl pill)
      | inr p ↦ elim (Bool-cases (f.verb == "duplicate")) [
        | inl q ↦
            let (same, dup) = duplicate_action-IsDuplicate f a (rw (p, q) at d) in
            (ground (arith, eq_iff f.target ""), same, inr dup)
        | inr q ↦ absurd (let d' = rw (p, q) at d in ground arith)
      ]
    ]

owned_here :
    (verb : String)
    → lookup verb Fault.other_layer_owner ≡ some "internal/queuefault"
    → (verb ≡ "poison_pill") ⊎ (verb ≡ "duplicate")
unfolding Fault.other_layer_owner
owned_here verb h = elim (Bool-cases ("error_rate" == verb)) [
  | inl e ↦ absurd (
      let h' : ◌≡◌ {A = Option String} (some "internal/egress") (some "internal/queuefault") =
        rw e at h in
      ground (arith, eq_iff "internal/egress" "internal/queuefault"))
  | inr e ↦ elim (Bool-cases ("poison_pill" == verb)) [
    | inl p ↦ inl (sym ((eq_iff "poison_pill" verb).0 p))
    | inr p ↦ elim (Bool-cases ("duplicate" == verb)) [
      | inl d ↦ inr (sym ((eq_iff "duplicate" verb).0 d))
      | inr d ↦ absurd (
          let h' : ◌≡◌ {A = Option String} none (some "internal/queuefault") = rw (e, p, d) at h in
          cc)
    ]
  ]
]

-- the two packages' tables name the same modifiers for the two queue verbs
same_modifiers :
    (verb : String)
    → (verb ≡ "poison_pill") ⊎ (verb ≡ "duplicate")
    → lookup verb verb_modifiers ≡ lookup verb Fault.fault_verb_modifiers
unfolding verb_modifiers Fault.fault_verb_modifiers
same_modifiers verb (inl e) = rw e
same_modifiers verb (inr e) = rw e

abbrev pub is_verb_error : Error → Bool
is_verb_error (not_owned verb) = true
is_verb_error (bad_modifier verb k) = true
is_verb_error (unsupported_verb verb) = true
is_verb_error _ = false

poison_pill-error :
    (f : Config.Fault) (e : Error) → poison_pill_action f ≡ err e → is_verb_error e ≡ false
unfolding poison_pill_action count_of
poison_pill-error f e h = ground arith

duplicate-error :
    (f : Config.Fault) (e : Error) → duplicate_action f ≡ err e → is_verb_error e ≡ false
unfolding duplicate_action rate_of
duplicate-error f e h = ground arith

not_pill : (verb : String) → verb ≡ "duplicate" → (verb == "poison_pill") ≡ false
not_pill verb v = rw v

dispatch-error :
    (f : Config.Fault) (e : Error)
    → (f.verb ≡ "poison_pill") ⊎ (f.verb ≡ "duplicate")
    → dispatch f ≡ err e
    → is_verb_error e ≡ false
unfolding dispatch
dispatch-error f e (inl v) h = poison_pill-error f e (rw ((eq_iff f.verb "poison_pill").1 v) at h)
dispatch-error f e (inr v) h =
    duplicate-error f e (rw (not_pill f.verb v, (eq_iff f.verb "duplicate").1 v) at h)

-- A fault that internal/fault passes over to internal/queuefault is not refused there for its verb or
-- for a modifier: the two packages' tables agree.
pub passed-owned :
    (f : Config.Fault) (act : Fault.Action) (e : Error)
    → Fault.Translate.translate f ≡ ok act
    → act.kind ≡ passed
    → act.owner ≡ "internal/queuefault"
    → translate f ≡ err e
    → is_verb_error e ≡ false
unfolding translate
passed-owned f act e accepted p o h =
    let owner : lookup f.verb Fault.other_layer_owner ≡ some "internal/queuefault" =
      owner-translate f act accepted p ∙ ap some o in
    let verb = owned_here f.verb owner in
    let (allowed, known, clean, step) = checks f act accepted in
    let mine = same_modifiers f.verb verb ∙ known in
    elim (Bool-cases (f.target == "")) [
      | inl t ↦ ground (arith, mine, clean)
      | inr t ↦ dispatch-error f e verb (rw (mine, clean, t, translate) at h)
    ]
