-- ===== src/Scheduler/Apply.antt =====
-- internal/run/scheduler.go: what the goroutine of one fault does when its moment has come. The
-- appliers are parameters; `U` stands for the undo functions they return, `E` for their errors. A
-- mapping set that WireMock accepts gives an undo.
pub mod Outcome
use tortureu.Base.{
  String, Bool, true, false, List, [], ◌∷◌, ◌++◌, Option, none, some, ◌==◌, Dict, lookup,
  if◌then◌else◌, ℤ,
}
use tortureu.Base.Result.{Result, ok, err}
use tortureu.Float64.{Float64}
use tortureu.Duration.{parse_duration}
use tortureu.Undo
use tortureu.Config
use tortureu.Egress
use tortureu.Egress.{Class, class_mock, validate_error_rate}
use tortureu.Fault
use tortureu.Fault.{Action, ActionKind, Toxic, DockerAction, toxic, docker, passed}
use tortureu.Fault.Translate
use tortureu.Fault.Manager.{Applied, applied, refused, no_payload, panicked, apply}
use tortureu.QueueFault
use tortureu.QueueFault.{PoisonPill, Duplicate}
use tortureu.QueueFault.Manager
use tortureu.MockRate
use tortureu.MockRate.{
  ErrorRate, Mapping, translate_error_rate, error_rate_mappings, approximate_error_rate,
}

-- An error that a goroutine reports, or the note that a rate was rounded.
pub data Failure (E : Type 0) : Type 0 where
  untranslated : Fault.Error → Failure E
  unapplied : E → Failure E
  empty_action : Failure E
  panic : Failure E
  bad_for : String → Failure E
  bad_error_rate : Failure E
  not_mocked : String → Failure E
  no_mock_client : Failure E
  bad_rate : MockRate.Error → Failure E
  no_broker : String → Failure E
  bad_queue_fault : QueueFault.Error → Failure E
  no_owner : String → Failure E
  approximated : Float64 → Float64 → Failure E

abbrev pub is_note : {E : Type 0} → Failure E → Bool
is_note (approximated requested rate) = true
is_note _ = false

pub record Broker (U E : Type 0) : Type 0 where
  pub apply_poison_pill : String → PoisonPill → Result E U
  pub apply_duplicate : String → Duplicate → Result E U

-- a nil interface is `none`
pub record Appliers (U E : Type 0) : Type 0 where
  pub apply_toxic : String → Toxic → Result E U
  pub apply_docker : String → DockerAction → Result E U
  pub broker : Option (Broker U E)
  pub mock : Option (String → List Mapping → Result E U)

-- The undo lists of the two managers and of the expireTracker, the timers that are armed, and the
-- errors with the names of their faults.
pub record World (U E : Type 0) : Type 0 where
  pub manager : List U
  pub queue : List U
  pub expiring : List U
  pub timers : List (ℤ × U)
  pub errs : List (String × Failure E)

module _ {U E : Type 0} where
  -- addErr
  unfoldable pub add_err : String → Failure E → World U E → World U E
  add_err name e w = record w { errs = w.errs ++ ((name, e) ∷ []) }

  -- what the deferred recover does: all three lists are torn down
  unfoldable pub recover : String → World U E → World U E
  unfolding add_err
  recover name w = add_err name panic (record w { manager = []; queue = []; expiring = [] })

  -- expiring.add(onceUndo(undo))
  unfoldable pub expire : U → World U E → World U E
  unfolding Undo.track
  expire u w = record w { expiring = Undo.track u w.expiring }

  -- manager.Apply and its error
  unfoldable pub managed : String → World U E → Applied U E → World U E
  unfolding add_err recover
  managed name w (applied undos) = record w { manager = undos }
  managed name w (refused e) = add_err name (unapplied e) w
  managed name w no_payload = add_err name empty_action w
  managed name w panicked = recover name w

  unfoldable pub queued : String → World U E → Applied U E → World U E
  unfolding add_err recover
  queued name w (applied undos) = record w { queue = undos }
  queued name w (refused e) = add_err name (unapplied e) w
  queued name w no_payload = add_err name empty_action w
  queued name w panicked = recover name w

  -- the note behind a rounded rate
  abbrev note : String → ErrorRate → World U E → World U E
  note name r w =
      let (count, rate, rounded) = approximate_error_rate r.rate in
      if rounded then add_err name (approximated r.rate rate) w else w

  -- mockApplier.ApplyErrorRate and what follows it
  abbrev mocked : String → ErrorRate → World U E → Result E U → World U E
  mocked name r w (err e) = add_err name (unapplied e) w
  mocked name r w (ok u) = note name r (expire u w)

  -- the case "internal/egress"
  unfoldable pub route_error_rate :
      Option (String → List Mapping → Result E U)
      → Dict Class
      → Config.Fault
      → World U E
      → World U E
  unfolding add_err expire
  route_error_rate mock classes f w =
      if validate_error_rate f.inject
      then add_err f.name bad_error_rate w
      else elim (lookup f.target classes) [
        | none ↦ add_err f.name (not_mocked f.target) w
        | some c ↦
            if c == class_mock
            then (elim mock [
              | none ↦ add_err f.name no_mock_client w
              | some create ↦ elim (translate_error_rate f) [
                | err e ↦ add_err f.name (bad_rate e) w
                | ok r ↦ mocked f.name r w (create f.name (error_rate_mappings f.name r))
              ]
            ])
            else add_err f.name (not_mocked f.target) w
      ]

  -- the case "internal/queuefault"
  unfoldable pub route_queue : Option (Broker U E) → Config.Fault → World U E → World U E
  unfolding add_err queued
  route_queue none f w = add_err f.name (no_broker f.verb) w
  route_queue (some broker) f w = elim (QueueFault.translate f) [
    | err e ↦ add_err f.name (bad_queue_fault e) w
    | ok act ↦
        queued f.name w
          (QueueFault.Manager.apply broker.apply_poison_pill broker.apply_duplicate w.queue act)
  ]

  unfoldable pub route_passed_over : Appliers U E → Dict Class → Action → World U E → World U E
  unfolding route_error_rate route_queue
  route_passed_over appliers classes act w =
      if act.owner == "internal/egress"
      then route_error_rate appliers.mock classes act.fault w
      else if act.owner == "internal/queuefault"
      then route_queue appliers.broker act.fault w
      else add_err act.fault.name (no_owner act.fault.verb) w

  -- applyDirect and, behind it, the tracker and the timer
  abbrev timed : Config.Fault → ℤ → World U E → Result E U → World U E
  timed f duration w (err e) = add_err f.name (unapplied e) w
  timed f duration w (ok u) = expire u (record w { timers = w.timers ++ ((duration, u) ∷ []) })

  unfoldable pub apply_direct :
      Appliers U E → ActionKind → Action → Config.Fault → ℤ → World U E → World U E
  unfolding add_err expire recover
  apply_direct appliers toxic act f d w = elim act.toxic [
    | none ↦ recover f.name w
    | some t ↦ timed f d w (appliers.apply_toxic act.fault.name t)
  ]
  apply_direct appliers docker act f d w = elim act.docker [
    | none ↦ recover f.name w
    | some x ↦ timed f d w (appliers.apply_docker act.fault.name x)
  ]
  apply_direct appliers passed act f d w = add_err f.name empty_action w

  -- a fault that this layer applies: until the end of the run, or for its `for:`
  unfoldable pub apply_own : Appliers U E → Action → Config.Fault → World U E → World U E
  unfolding managed apply_direct add_err
  apply_own appliers act f w =
      if f.for == ""
      then managed f.name w (apply appliers.apply_toxic appliers.apply_docker w.manager act)
      else elim (parse_duration f.for) [
        | none ↦ add_err f.name (bad_for f.for) w
        | some d ↦ apply_direct appliers act.kind act f d w
      ]

  unfoldable pub apply_kind :
      Appliers U E → Dict Class → ActionKind → Action → Config.Fault → World U E → World U E
  unfolding route_passed_over apply_own
  apply_kind appliers classes passed act f w = route_passed_over appliers classes act w
  apply_kind appliers classes _ act f w = apply_own appliers act f w

  -- the goroutine of one fault, behind its sleep
  unfoldable pub apply_fault : Appliers U E → Dict Class → Config.Fault → World U E → World U E
  unfolding apply_kind add_err
  apply_fault appliers classes f w = elim (Fault.Translate.translate f) [
    | err e ↦ add_err f.name (untranslated e) w
    | ok act ↦ apply_kind appliers classes act.kind act f w
  ]

  -- the goroutines, in the order in which they come to apply
  unfoldable pub apply_faults :
      Appliers U E → Dict Class → List Config.Fault → World U E → World U E
  unfolding apply_fault
  apply_faults appliers classes [] w = w
  apply_faults appliers classes (f ∷ fs) w =
      apply_faults appliers classes fs (apply_fault appliers classes f w)
