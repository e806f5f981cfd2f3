-- ===== src/QueueFault/Manager.antt =====
-- internal/queuefault/manager.go: Apply through a broker applier, which is a parameter.
use tortureu.Base.{String, List, none, some, ◌≡◌, inl, inr}
use tortureu.Base.Result.{Result, ok}
use tortureu.Config
use tortureu.Fault.Manager.{Applied, panicked, finish, Completes, finish-Completes}
use tortureu.QueueFault.{
  Action, ActionKind, PoisonPill, Duplicate, poison_pill, duplicate, translate,
}
use tortureu.QueueFault.Laws.{translate-queue}

module _ {U E : Type 0} (apply_poison_pill : String → PoisonPill → Result E U)
    (apply_duplicate : String → Duplicate → Result E U) where
  -- the switch; its default is out of reach, since the kind is one of the two
  unfoldable pub apply_kind : List U → ActionKind → Action → Applied U E
  unfolding finish
  apply_kind undos poison_pill act = elim act.poison_pill [
    | none ↦ panicked
    | some p ↦ finish undos (apply_poison_pill act.fault.name p)
  ]
  apply_kind undos duplicate act = elim act.duplicate [
    | none ↦ panicked
    | some d ↦ finish undos (apply_duplicate act.fault.name d)
  ]

  unfoldable pub apply : List U → Action → Applied U E
  unfolding apply_kind
  apply undos act = apply_kind undos act.kind act

  -- Applying the translation of a queue fault never dereferences a nil payload: it tracks exactly one
  -- undo behind the others, or leaves the tracked undos alone and returns the applier's error.
  pub apply-translate_queue :
      (undos : List U) (f : Config.Fault) (act : Action)
      → translate f ≡ ok act
      → Completes undos (apply undos act)
  unfolding apply apply_kind
  apply-translate_queue undos f act h =
      let (target, same, which) = translate-queue f act h in
      elim which [
        | inl p ↦
            rw (p.kind, p.payload, apply_kind)
              (finish-Completes undos (apply_poison_pill act.fault.name p.pill))
        | inr d ↦
            rw (d.kind, d.payload, apply_kind)
              (finish-Completes undos (apply_duplicate act.fault.name d.duplicate))
      ]
