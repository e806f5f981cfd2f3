-- ===== src/Scheduler/Apply/Outcome/Tally.antt =====
-- All the declared faults, in whatever order their goroutines come to apply.
use tortureu.Base.{
  ℕ, suc, ◌+◌, String, true, false, List, [], ◌∷◌, ◌++◌, Dict, ◌≡◌, refl, length, arith, All,
  length-append, if◌then◌else◌,
}
use tortureu.Undo
use tortureu.Config
use tortureu.Egress.{Class}
use tortureu.MockRate.{approximate_error_rate}
use tortureu.Scheduler.Apply.{Failure, is_note, Appliers, World, add_err, apply_fault, apply_faults}
use tortureu.Scheduler.Apply.Outcome.{
  Outcome, held, expires, mocks, mocks_roughly, queues, reports, apply_fault-Outcome,
}

module _ {E : Type 0} where
  -- the failures, without the notes
  abbrev pub failures : List (String × Failure E) → ℕ
  failures [] = 0
  failures ((name, e) ∷ errs) = if is_note e then failures errs else suc (failures errs)

  failures-append :
      (xs ys : List (String × Failure E)) → failures (xs ++ ys) ≡ failures xs + failures ys
  failures-append [] ys = omega arith
  failures-append ((name, e) ∷ xs) ys = ground (arith, failures-append xs ys)

  failures-notes :
      (ns : List (String × Failure E)) → All (λ n. is_note n.1 ≡ true) ns → failures ns ≡ 0
  failures-notes [] h = refl
  failures-notes ((name, e) ∷ ns) h = let (n, rest) = h in rw n (failures-notes ns rest)

length-track : {U : Type 0} (u : U) (us : List U) → length (Undo.track u us) ≡ suc (length us)
unfolding Undo.track
length-track u us = omega (arith, length-append us (u ∷ []))

module _ {U E : Type 0} where
  -- the undo functions that are tracked
  abbrev pub tracked : World U E → ℕ
  tracked w = length w.manager + length w.queue + length w.expiring

  add_err-tally :
      (name : String) (x : Failure E) (w : World U E)
      → is_note x ≡ false
      → tracked (add_err name x w) + failures (add_err name x w).errs
        ≡ suc (tracked w + failures w.errs)
  unfolding add_err
  add_err-tally name x w n =
      let one : failures ((name, x) ∷ []) ≡ 1 = rw n in
      omega (arith, failures-append w.errs ((name, x) ∷ []), one)

  Outcome-tally :
      (f : Config.Fault) (w w' : World U E)
      → Outcome f w w'
      → tracked w' + failures w'.errs ≡ suc (tracked w + failures w.errs)
  Outcome-tally f w w' (held u forever e) = rw e (omega (arith, length-track u w.manager))
  Outcome-tally f w w' (expires u d p e) = rw e (omega (arith, length-track u w.expiring))
  Outcome-tally f w w' (mocks u e) = rw e (omega (arith, length-track u w.expiring))
  Outcome-tally f w w' (mocks_roughly u r given rough e) =
      let notes : List (String × Failure E) =
        (f.name, Failure.approximated r.rate (approximate_error_rate r.rate).1) ∷ [] in
      rw e (
        omega (
          arith,
          length-track u w.expiring,
          failures-append w.errs notes,
          failures-notes notes (refl, tt),
        ))
  Outcome-tally f w w' (queues u e) = rw e (omega (arith, length-track u w.queue))
  Outcome-tally f w w' (reports x n e) = rw e (add_err-tally f.name x w n)

  -- In whatever order the goroutines of the scheduled faults come to apply, each of them leaves one
  -- undo function behind or one failure: together there are as many as faults.
  pub apply_faults-tally :
      (appliers : Appliers U E) (classes : Dict Class) (fs : List Config.Fault) (w : World U E)
      → tracked (apply_faults appliers classes fs w)
          + failures (apply_faults appliers classes fs w).errs
        ≡ tracked w + failures w.errs + length fs
  unfolding apply_faults
  apply_faults-tally appliers classes [] w = omega arith
  apply_faults-tally appliers classes (f ∷ fs) w =
      let next = apply_fault appliers classes f w in
      omega (
        arith,
        Outcome-tally f w next (apply_fault-Outcome appliers classes f w),
        apply_faults-tally appliers classes fs next,
      )
