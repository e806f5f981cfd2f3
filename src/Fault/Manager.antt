-- ===== src/Fault/Manager.antt =====
-- internal/fault/manager.go: Apply through an applier, which is a parameter, and the tracked undos.
-- `U` is the type of the undo functions that the applier returns, `E` that of its errors.
use tortureu.Base.{
  String, List, ◌≡◌, ◌≢◌, ◌⊎◌, inl, inr, some, none, is_some, arith, true, refl, Option-cases,
}
use tortureu.Base.Result.{Result, ok, err}
use tortureu.Undo
use tortureu.Config
use tortureu.Fault.{Action, ActionKind, Toxic, DockerAction, toxic, docker, passed}
use tortureu.Fault.Translate.{translate}
use tortureu.Fault.Translate.Laws.{translate_sound}

-- how Apply ends; a nil payload that is dereferenced panics
pub data Applied (U E : Type 0) : Type 0 where
  applied : List U → Applied U E
  refused : E → Applied U E
  no_payload : Applied U E
  panicked : Applied U E

module _ {U E : Type 0} where
  -- if err != nil { return err }; m.track(undo)
  unfoldable pub finish : List U → Result E U → Applied U E
  unfolding Undo.track
  finish undos (ok undo) = applied (Undo.track undo undos)
  finish undos (err e) = refused e

  -- one undo is tracked, or the applier's error comes back and the list stays as it was
  abbrev pub Completes : List U → Applied U E → Type 0
  Completes undos r = ((u : U) × (r ≡ applied (Undo.track u undos))) ⊎ ((e : E) × (r ≡ refused e))

  pub finish-Completes : (undos : List U) (r : Result E U) → Completes undos (finish undos r)
  unfolding finish
  finish-Completes undos (ok u) = inl (u, refl)
  finish-Completes undos (err e) = inr (e, refl)

module _ {U E : Type 0} (apply_toxic : String → Toxic → Result E U)
    (apply_docker : String → DockerAction → Result E U) where
  unfoldable pub apply_kind : List U → ActionKind → Action → Applied U E
  unfolding finish
  apply_kind undos toxic act = elim act.toxic [
    | none ↦ panicked
    | some t ↦ finish undos (apply_toxic act.fault.name t)
  ]
  apply_kind undos docker act = elim act.docker [
    | none ↦ panicked
    | some d ↦ finish undos (apply_docker act.fault.name d)
  ]
  apply_kind undos passed act = no_payload

  unfoldable pub apply : List U → Action → Applied U E
  unfolding apply_kind
  apply undos act = apply_kind undos act.kind act

  apply_kind-Completes :
      (undos : List U) (k : ActionKind) (act : Action)
      → (k ≡ toxic → is_some act.toxic ≡ true)
      → (k ≡ docker → is_some act.docker ≡ true)
      → k ≢ passed
      → Completes undos (apply_kind undos k act)
  unfolding apply_kind
  apply_kind-Completes undos toxic act t d own = elim (Option-cases act.toxic) [
    | inl n ↦ absurd (ground (arith, t refl))
    | inr (x, e) ↦ rw (e, apply_kind) (finish-Completes undos (apply_toxic act.fault.name x))
  ]
  apply_kind-Completes undos docker act t d own = elim (Option-cases act.docker) [
    | inl n ↦ absurd (ground (arith, d refl))
    | inr (x, e) ↦ rw (e, apply_kind) (finish-Completes undos (apply_docker act.fault.name x))
  ]
  apply_kind-Completes undos passed act t d own = absurd (own refl)

  -- Applying the translation of a fault never dereferences a nil payload. For an action that is not
  -- passed over it tracks exactly one undo, or leaves the tracked undos alone and returns the
  -- applier's error; a passed-over action is refused without asking the applier.
  pub apply-translate :
      (undos : List U) (f : Config.Fault) (act : Action)
      → translate f ≡ ok act
      → (act.kind ≢ passed → Completes undos (apply undos act))
        × (act.kind ≡ passed → apply undos act ≡ no_payload)
  unfolding apply apply_kind
  apply-translate undos f act h =
      let (same, wf, routed) = translate_sound f act h in
      (apply_kind-Completes undos act.kind act wf.has_toxic wf.has_docker, λ p. rw (p, apply_kind))
