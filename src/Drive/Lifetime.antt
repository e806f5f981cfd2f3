-- ===== src/Drive/Lifetime.antt =====
-- When the co-driven tools are stopped.
use mathlib.Core.Option
use tortureu.Base.{
  String, Bool, true, false, List, [], ◌∷◌, ◌++◌, ◌≡◌, refl, arith, ◌∙◌, Option, none, some,
}
use tortureu.Base.Result.{ok, err}
use tortureu.Drive.{
  CoDrivers, DbLoadResult, FuzzResult, Step, first_marker, db_launched, fuzz_launched, stop, step,
  steps, new_co_drivers, listed, stopped_db, stopped_fuzz,
}

abbrev pub no_stop : List Step → Bool
no_stop [] = true
no_stop (stop ∷ ss) = false
no_stop (first_marker ∷ ss) = no_stop ss
no_stop (db_launched r ∷ ss) = no_stop ss
no_stop (fuzz_launched r ∷ ss) = no_stop ss

-- the handle that the launches leave: the last one's, if it succeeded
abbrev pub db_handle : List Step → Option String → Option String
db_handle [] h = h
db_handle (db_launched (ok x) ∷ ss) h = db_handle ss (some x)
db_handle (db_launched (err e) ∷ ss) h = db_handle ss none
db_handle (first_marker ∷ ss) h = db_handle ss h
db_handle (fuzz_launched r ∷ ss) h = db_handle ss h
db_handle (stop ∷ ss) h = db_handle ss h

abbrev pub fuzz_handle : List Step → Option String → Option String
fuzz_handle [] h = h
fuzz_handle (fuzz_launched (ok x) ∷ ss) h = fuzz_handle ss (some x)
fuzz_handle (fuzz_launched (err e) ∷ ss) h = fuzz_handle ss none
fuzz_handle (first_marker ∷ ss) h = fuzz_handle ss h
fuzz_handle (db_launched r ∷ ss) h = fuzz_handle ss h
fuzz_handle (stop ∷ ss) h = fuzz_handle ss h

-- once stopped, the results and the list of stopped handles are final
record IsFinal (c d : CoDrivers) : Type 0 where
  once : d.stop_once ≡ true
  stopped : d.stopped ≡ c.stopped
  db_result : d.db_result ≡ c.db_result
  fuzz_result : d.fuzz_result ≡ c.fuzz_result

-- before that, nothing is stopped
record IsRunning (d : CoDrivers) : Type 0 where
  running : d.stop_once ≡ false
  none_stopped : d.stopped ≡ []

module _ (stop_db : String → DbLoadResult) (stop_fuzz : String → FuzzResult) where
  step-IsFinal : (s : Step) (c d : CoDrivers) → IsFinal c d → IsFinal c (step stop_db stop_fuzz s d)
  unfolding step
  step-IsFinal first_marker c d f = ground arith
  step-IsFinal (db_launched r) c d f = ground arith
  step-IsFinal (fuzz_launched r) c d f = ground arith
  step-IsFinal stop c d f = ground arith

  steps-IsFinal :
      (ss : List Step) (c d : CoDrivers) → IsFinal c d → IsFinal c (steps stop_db stop_fuzz ss d)
  unfolding steps
  steps-IsFinal [] c d f = f
  steps-IsFinal (s ∷ ss) c d f =
      steps-IsFinal ss c (step stop_db stop_fuzz s d) (step-IsFinal s c d f)

  steps-IsRunning :
      (ss : List Step) (d : CoDrivers)
      → no_stop ss ≡ true
      → IsRunning d
      → IsRunning (steps stop_db stop_fuzz ss d)
  unfolding steps step
  steps-IsRunning [] d n r = r
  steps-IsRunning (first_marker ∷ ss) d n r =
      steps-IsRunning ss (step stop_db stop_fuzz first_marker d) n (ground arith)
  steps-IsRunning (db_launched h ∷ ss) d n r =
      steps-IsRunning ss (step stop_db stop_fuzz (db_launched h) d) n (ground arith)
  steps-IsRunning (fuzz_launched h ∷ ss) d n r =
      steps-IsRunning ss (step stop_db stop_fuzz (fuzz_launched h) d) n (ground arith)
  steps-IsRunning (stop ∷ ss) d n r = cc

  steps-append :
      (ss ts : List Step) (d : CoDrivers)
      → steps stop_db stop_fuzz (ss ++ ts) d
        ≡ steps stop_db stop_fuzz ts (steps stop_db stop_fuzz ss d)
  unfolding steps
  steps-append [] ts d = refl
  steps-append (s ∷ ss) ts d = steps-append ss ts (step stop_db stop_fuzz s d)

  steps-cons :
      (s : Step) (ss : List Step) (d : CoDrivers)
      → steps stop_db stop_fuzz (s ∷ ss) d ≡ steps stop_db stop_fuzz ss (step stop_db stop_fuzz s d)
  unfolding steps
  steps-cons s ss d = refl

  steps-handles :
      (ss : List Step) (d : CoDrivers)
      → ((steps stop_db stop_fuzz ss d).db ≡ db_handle ss d.db)
        × ((steps stop_db stop_fuzz ss d).fuzz ≡ fuzz_handle ss d.fuzz)
  unfolding steps step
  steps-handles [] d = (refl, refl)
  steps-handles (first_marker ∷ ss) d =
      ground (arith, steps-handles ss (step stop_db stop_fuzz first_marker d))
  steps-handles (db_launched (ok x) ∷ ss) d =
      steps-handles ss (step stop_db stop_fuzz (db_launched (ok x)) d)
  steps-handles (db_launched (err e) ∷ ss) d =
      steps-handles ss (step stop_db stop_fuzz (db_launched (err e)) d)
  steps-handles (fuzz_launched (ok x) ∷ ss) d =
      steps-handles ss (step stop_db stop_fuzz (fuzz_launched (ok x)) d)
  steps-handles (fuzz_launched (err e) ∷ ss) d =
      steps-handles ss (step stop_db stop_fuzz (fuzz_launched (err e)) d)
  steps-handles (stop ∷ ss) d = ground (arith, steps-handles ss (step stop_db stop_fuzz stop d))

  db_stopped : (h : Option String) → stopped_db stop_db stop_fuzz h ≡ Option.map stop_db h
  db_stopped none = refl
  db_stopped (some x) = refl

  fuzz_stopped : (h : Option String) → stopped_fuzz stop_db stop_fuzz h ≡ Option.map stop_fuzz h
  fuzz_stopped none = refl
  fuzz_stopped (some x) = refl

  step_stop-running :
      (d : CoDrivers)
      → IsRunning d
      → let e = step stop_db stop_fuzz stop d in
        (e.stop_once ≡ true)
        × (e.stopped ≡ listed d.db ++ listed d.fuzz)
        × (e.db_result ≡ stopped_db stop_db stop_fuzz d.db)
        × (e.fuzz_result ≡ stopped_fuzz stop_db stop_fuzz d.fuzz)
  unfolding step
  step_stop-running d r = ground arith

  -- However the steps of a run are ordered, the first stop decides: exactly the tools that a launch
  -- before it has left a handle of are stopped, each once, and theirs are the results that are collected.
  -- Later stops change nothing, and a tool whose launch returns after the first stop is never stopped,
  -- and no result of it is collected.
  pub steps-first_stop :
      (before after : List Step)
      → no_stop before ≡ true
      → let end = steps stop_db stop_fuzz (before ++ (stop ∷ after)) new_co_drivers in
        (end.stopped ≡ listed (db_handle before none) ++ listed (fuzz_handle before none))
        × (end.db_result ≡ Option.map stop_db (db_handle before none))
        × (end.fuzz_result ≡ Option.map stop_fuzz (fuzz_handle before none))
  unfolding new_co_drivers
  steps-first_stop before after n =
      let c = steps stop_db stop_fuzz before new_co_drivers in
      let d = step stop_db stop_fuzz stop c in
      let (once, s, r, q) = step_stop-running c (
        steps-IsRunning before new_co_drivers n (record { running = refl; none_stopped = refl })) in
      let f =
        steps-IsFinal after d d
          (record { once = once; stopped = refl; db_result = refl; fuzz_result = refl }) in
      let (db_of, fuzz_of) = steps-handles before new_co_drivers in
      rw
        (
          steps-append before (stop ∷ after) new_co_drivers,
          steps-cons stop after c,
          ← db_of,
          ← fuzz_of,
        )
        (f.stopped ∙ s, f.db_result ∙ r ∙ db_stopped c.db, f.fuzz_result ∙ q ∙ fuzz_stopped c.fuzz)
