-- ===== src/Undo.antt =====
-- The list of undo functions that internal/fault's Manager, internal/queuefault's Manager and
-- internal/run's expireTracker keep: `U` stands for the undo functions, which the appliers return.
pub mod Exact
use tortureu.Base.{ℕ, zero, suc, List, [], ◌∷◌, ◌++◌, Option, none, some, length, get_elem?}

module _ {U E : Type 0} (run : U → Option E) where
  -- if err := undos[i](); err != nil { errs = append(errs, err) }
  abbrev collect : Option E → List E → List E
  collect none errs = errs
  collect (some e) errs = e ∷ errs

  -- `for i := len(undos) - 1; i >= 0; i--`: the undos called, in order, and the errors, in order
  unfoldable pub teardown_loop : ℕ → List U → List U × List E
  teardown_loop zero undos = ([], [])
  teardown_loop (suc i) undos = elim (get_elem? undos i) [
    | none ↦ ([], [])
    | some u ↦ let (called, errs) = teardown_loop i undos in (u ∷ called, collect (run u) errs)
  ]

  -- the list is taken and emptied under the lock, and walked behind it: what is left, what was
  -- called, what failed
  unfoldable pub teardown : List U → List U × List U × List E
  unfolding teardown_loop
  teardown undos = let (called, errs) = teardown_loop (length undos) undos in ([], called, errs)

-- the append under the lock
unfoldable pub track : {U : Type 0} → U → List U → List U
track undo undos = undos ++ (undo ∷ [])

-- The atomic steps that goroutines make on one list.
pub data Op (U : Type 0) : Type 0 where
  add : U → Op U
  teardown_all : Op U

-- what a sequence of steps leaves, and all that it has called
unfoldable pub steps : {U E : Type 0} → (U → Option E) → List (Op U) → List U → List U × List U
steps run [] undos = (undos, [])
steps run (add u ∷ ops) undos = steps run ops (track u undos)
steps run (teardown_all ∷ ops) undos =
    let (left, called, errs) = teardown run undos in
    let (end, later) = steps run ops left in (end, called ++ later)

-- the undo functions that a sequence of steps adds
unfoldable pub added : {U : Type 0} → List (Op U) → List U
added [] = []
added (add u ∷ ops) = u ∷ added ops
added (teardown_all ∷ ops) = added ops
