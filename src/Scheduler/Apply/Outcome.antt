-- ===== src/Scheduler/Apply/Outcome.antt =====
-- What one declared fault leaves behind once its moment has come.
pub mod Tally
use mathlib.Core.List.{append-nil}
use tortureu.Base.{
  String, Bool, true, false, List, [], ◌∷◌, ◌++◌, Option, none, some, ◌==◌, Dict, lookup, ◌≡◌, refl,
  ◌≢◌, All, if◌then◌else◌, ℤ, Bool-cases, Option-cases, inl, inr, ◌⊎◌, arith, eq_iff, ap, is_some,
  if_elim,
}
use mathlib.Core.Path.{subst}
use tortureu.Base.Result.{Result, ok, err, Result-cases}
use tortureu.Duration.{parse_duration}
use tortureu.Undo
use tortureu.Config
use tortureu.Egress.{Class, class_mock, validate_error_rate}
use tortureu.Fault
use tortureu.Fault.{Action, ActionKind, Toxic, DockerAction, toxic, docker, passed}
use tortureu.Fault.Translate
use tortureu.Fault.Translate.Laws.{translate_sound}
use tortureu.Fault.Manager.{
  Applied, applied, refused, no_payload, panicked, apply, Completes, apply-translate,
}
use tortureu.QueueFault
use tortureu.QueueFault.Manager
use tortureu.QueueFault.Manager.{apply-translate_queue}
use tortureu.MockRate
use tortureu.MockRate.{
  ErrorRate, Mapping, translate_error_rate, error_rate_mappings, approximate_error_rate,
}
use tortureu.Scheduler.Apply.{
  Failure, untranslated, unapplied, empty_action, panic, bad_for, bad_error_rate, not_mocked,
  no_mock_client, bad_rate, no_broker, bad_queue_fault, no_owner, approximated, is_note, Broker,
  Appliers, World, add_err, recover, expire, managed, queued, note, mocked, route_error_rate,
  route_queue, route_passed_over, timed, apply_direct, apply_own, apply_kind, apply_fault,
}

module _ {U E : Type 0} where
  -- One undo function is tracked where it belongs, beside it at most one note on a rate that had to be
  -- rounded, or one failure is reported and nothing else changes.
  pub data Outcome (f : Config.Fault) (w w' : World U E) : Type 0 where
    held :
        (u : U) → f.for ≡ "" → w' ≡ record w { manager = Undo.track u w.manager } → Outcome f w w'
    expires :
        (u : U) (d : ℤ)
        → parse_duration f.for ≡ some d
        → w' ≡ record w { expiring = Undo.track u w.expiring; timers = w.timers ++ ((d, u) ∷ []) }
        → Outcome f w w'
    mocks : (u : U) → w' ≡ record w { expiring = Undo.track u w.expiring } → Outcome f w w'
    mocks_roughly :
        (u : U) (r : ErrorRate)
        → translate_error_rate f ≡ ok r
        → (approximate_error_rate r.rate).2 ≡ true
        → w' ≡ record w {
          expiring = Undo.track u w.expiring;
          errs = w.errs ++ ((f.name, approximated r.rate (approximate_error_rate r.rate).1) ∷ []);
        }
        → Outcome f w w'
    queues : (u : U) → w' ≡ record w { queue = Undo.track u w.queue } → Outcome f w w'
    reports : (e : Failure E) → is_note e ≡ false → w' ≡ add_err f.name e w → Outcome f w w'

  managed-Outcome :
      (f : Config.Fault) (w : World U E) (r : Applied U E)
      → f.for ≡ ""
      → Completes w.manager r
      → Outcome f w (managed f.name w r)
  unfolding managed
  managed-Outcome f w r forever (inl (u, e)) = rw (e, managed) (Outcome.held u forever refl)
  managed-Outcome f w r forever (inr (x, e)) =
      rw (e, managed) (Outcome.reports (unapplied x) refl refl)

  queued-Outcome :
      (f : Config.Fault) (w : World U E) (r : Applied U E)
      → Completes w.queue r
      → Outcome f w (queued f.name w r)
  unfolding queued
  queued-Outcome f w r (inl (u, e)) = rw (e, queued) (Outcome.queues u refl)
  queued-Outcome f w r (inr (x, e)) = rw (e, queued) (Outcome.reports (unapplied x) refl refl)

  timed-Outcome :
      (f : Config.Fault) (d : ℤ) (w : World U E) (r : Result E U)
      → parse_duration f.for ≡ some d
      → Outcome f w (timed f d w r)
  unfolding expire
  timed-Outcome f d w (ok u) p = Outcome.expires u d p refl
  timed-Outcome f d w (err e) p = Outcome.reports (unapplied e) refl refl

  mocked-Outcome :
      (f : Config.Fault) (r : ErrorRate) (w : World U E) (created : Result E U)
      → translate_error_rate f ≡ ok r
      → Outcome f w (mocked f.name r w created)
  unfolding expire add_err
  mocked-Outcome f r w (err e) given = Outcome.reports (unapplied e) refl refl
  mocked-Outcome f r w (ok u) given = elim (Bool-cases (approximate_error_rate r.rate).2) [
    | inl t ↦ rw t (Outcome.mocks_roughly u r given t refl)
    | inr t ↦ rw t (Outcome.mocks u refl)
  ]

  route_error_rate-Outcome :
      (mock : Option (String → List Mapping → Result E U)) (classes : Dict Class) (f : Config.Fault)
      (w : World U E)
      → Outcome f w (route_error_rate mock classes f w)
  unfolding route_error_rate
  route_error_rate-Outcome mock classes f w = elim (Bool-cases (validate_error_rate f.inject)) [
    | inl v ↦ rw v (Outcome.reports bad_error_rate refl refl)
    | inr v ↦ elim (Option-cases (lookup f.target classes)) [
      | inl n ↦ rw (v, n) (Outcome.reports (not_mocked f.target) refl refl)
      | inr (c, e) ↦ elim (Bool-cases (c == class_mock)) [
        | inr m ↦ rw (v, e, m) (Outcome.reports (not_mocked f.target) refl refl)
        | inl m ↦ elim (Option-cases mock) [
          | inl n ↦ rw (v, e, m, n) (Outcome.reports no_mock_client refl refl)
          | inr (create, a) ↦
              rw (v, e, m, a) (translated-Outcome create f w (translate_error_rate f) refl)
        ]
      ]
    ]
  ]
    where
      translated-Outcome :
          (create : String → List Mapping → Result E U) (f : Config.Fault) (w : World U E)
          (r : Result MockRate.Error ErrorRate)
          → translate_error_rate f ≡ r
          → Outcome f w (elim r [
            | err e ↦ add_err f.name (bad_rate e) w
            | ok r ↦ mocked f.name r w (create f.name (error_rate_mappings f.name r))
          ])
      translated-Outcome create f w (err e) given = Outcome.reports (bad_rate e) refl refl
      translated-Outcome create f w (ok r) given =
          mocked-Outcome f r w (create f.name (error_rate_mappings f.name r)) given

  route_queue-Outcome :
      (broker : Option (Broker U E)) (f : Config.Fault) (w : World U E)
      → Outcome f w (route_queue broker f w)
  unfolding route_queue
  route_queue-Outcome none f w = Outcome.reports (no_broker f.verb) refl refl
  route_queue-Outcome (some broker) f w = elim (Result-cases (QueueFault.translate f)) [
    | inr (e, h) ↦ rw (h, route_queue) (Outcome.reports (bad_queue_fault e) refl refl)
    | inl (act, h) ↦
        rw (h, route_queue)
          (queued-Outcome f w
            (QueueFault.Manager.apply broker.apply_poison_pill broker.apply_duplicate w.queue act)
            (apply-translate_queue broker.apply_poison_pill broker.apply_duplicate w.queue f act h))
  ]

  route_passed_over-Outcome :
      (appliers : Appliers U E) (classes : Dict Class) (act : Action) (w : World U E)
      → Outcome act.fault w (route_passed_over appliers classes act w)
  unfolding route_passed_over
  route_passed_over-Outcome appliers classes act w =
      if_elim (Outcome act.fault w) (act.owner == "internal/egress")
        (route_error_rate-Outcome appliers.mock classes act.fault w)
        (if_elim (Outcome act.fault w) (act.owner == "internal/queuefault")
          (route_queue-Outcome appliers.broker act.fault w)
          (Outcome.reports (no_owner act.fault.verb) refl refl))

  apply_direct-Outcome :
      (appliers : Appliers U E) (k : ActionKind) (act : Action) (f : Config.Fault) (d : ℤ)
      (w : World U E)
      → parse_duration f.for ≡ some d
      → (k ≡ toxic → is_some act.toxic ≡ true)
      → (k ≡ docker → is_some act.docker ≡ true)
      → Outcome f w (apply_direct appliers k act f d w)
  unfolding apply_direct
  apply_direct-Outcome appliers toxic act f d w p t x = elim (Option-cases act.toxic) [
    | inl n ↦ absurd (ground (arith, t refl))
    | inr (a, e) ↦
        rw (e, apply_direct) (timed-Outcome f d w (appliers.apply_toxic act.fault.name a) p)
  ]
  apply_direct-Outcome appliers docker act f d w p t x = elim (Option-cases act.docker) [
    | inl n ↦ absurd (ground (arith, x refl))
    | inr (a, e) ↦
        rw (e, apply_direct) (timed-Outcome f d w (appliers.apply_docker act.fault.name a) p)
  ]
  apply_direct-Outcome appliers passed act f d w p t x = Outcome.reports empty_action refl refl

  apply_own-Outcome :
      (appliers : Appliers U E) (act : Action) (f : Config.Fault) (w : World U E)
      → Fault.Translate.translate f ≡ ok act
      → act.kind ≢ passed
      → Outcome f w (apply_own appliers act f w)
  unfolding apply_own
  apply_own-Outcome appliers act f w h own =
      let (same, wf, routed) = translate_sound f act h in
      elim (Bool-cases (f.for == "")) [
        | inl forever ↦ rw forever (
            managed-Outcome f w (apply appliers.apply_toxic appliers.apply_docker w.manager act)
              ((eq_iff f.for "").0 forever)
              ((apply-translate appliers.apply_toxic appliers.apply_docker w.manager f act h).0
                own))
        | inr limited ↦ elim (Option-cases (parse_duration f.for)) [
          | inl n ↦ rw (limited, n) (Outcome.reports (bad_for f.for) refl refl)
          | inr (d, p) ↦
              rw (limited, p)
                (apply_direct-Outcome appliers act.kind act f d w p wf.has_toxic wf.has_docker)
        ]
      ]

  apply_kind-Outcome :
      (appliers : Appliers U E) (classes : Dict Class) (k : ActionKind) (act : Action)
      (f : Config.Fault) (w : World U E)
      → Fault.Translate.translate f ≡ ok act
      → act.kind ≡ k
      → Outcome f w (apply_kind appliers classes k act f w)
  unfolding apply_kind
  apply_kind-Outcome appliers classes toxic act f w h k =
      apply_own-Outcome appliers act f w h (λ p. ground arith)
  apply_kind-Outcome appliers classes docker act f w h k =
      apply_own-Outcome appliers act f w h (λ p. ground arith)
  apply_kind-Outcome appliers classes passed act f w h k =
      let (same, wf, routed) = translate_sound f act h in
      subst (λ g. Outcome g w (route_passed_over appliers classes act w)) same
        (route_passed_over-Outcome appliers classes act w)

  pub apply_fault-Outcome :
      (appliers : Appliers U E) (classes : Dict Class) (f : Config.Fault) (w : World U E)
      → Outcome f w (apply_fault appliers classes f w)
  unfolding apply_fault
  apply_fault-Outcome appliers classes f w = elim (Result-cases (Fault.Translate.translate f)) [
    | inr (e, h) ↦ rw (h, apply_fault) (Outcome.reports (untranslated e) refl refl)
    | inl (act, h) ↦
        rw (h, apply_fault) (apply_kind-Outcome appliers classes act.kind act f w h refl)
  ]
