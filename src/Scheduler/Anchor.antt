-- ===== src/Scheduler/Anchor.antt =====
-- No declared fault vanishes, and none fires at another moment than the one it names.
use tortureu.Base.{
  ℕ, suc, ◌+◌, String, Bool, true, false, List, [], ◌∷◌, ◌++◌, Option, none, some, ◌==◌,
  if◌then◌else◌, ℤ, ◌≡◌, refl, Bool-cases, inl, inr, arith,
}
use tortureu.Base.Text.{has_prefix, trim_prefix, cut}
use tortureu.Duration.{parse_duration}
use tortureu.Config
use tortureu.Scheduler.{
  PhaseMarker, Scheduled, Failed, Round, keep, at_offset, anchor_absolute, fire, anchor_phase,
  never_fired_all, wait_for_phases, schedule_faults,
}

-- how many entries pass a test on their fault
module _ {A : Type 0} (fault_of : A → Config.Fault) where
  abbrev pub tally : (Config.Fault → Bool) → List A → ℕ
  tally p [] = 0
  tally p (x ∷ xs) = if p (fault_of x) then suc (tally p xs) else tally p xs

  tally-append :
      (p : Config.Fault → Bool) (xs ys : List A) → tally p (xs ++ ys) ≡ tally p xs + tally p ys
  tally-append p [] ys = ground arith
  tally-append p (x ∷ xs) ys = ground (arith, tally-append p xs ys)

abbrev pub tally_faults : (Config.Fault → Bool) → List Config.Fault → ℕ
tally_faults p fs = tally (λ f. f) p fs

abbrev pub tally_scheduled : (Config.Fault → Bool) → List Scheduled → ℕ
tally_scheduled p ss = tally (λ s. s.fault) p ss

abbrev pub tally_failed : (Config.Fault → Bool) → List Failed → ℕ
tally_failed p fs = tally (λ f. f.fault) p fs

-- all that a round accounts for
abbrev accounted : (Config.Fault → Bool) → Round → ℕ
accounted p r = tally_scheduled p r.scheduled + tally_failed p r.failed + tally_faults p r.remaining

at_offset-accounted :
    (p : Config.Fault → Bool) (f : Config.Fault) (start : ℤ) (o : Option ℤ) (r : Round)
    → accounted p (at_offset f start o r) ≡ tally_faults p (f ∷ []) + accounted p r
at_offset-accounted p f start none r = ground arith
at_offset-accounted p f start (some d) r = ground arith

keep-accounted :
    (p : Config.Fault → Bool) (f : Config.Fault) (r : Round)
    → accounted p (keep f r) ≡ tally_faults p (f ∷ []) + accounted p r
keep-accounted p f r = ground arith

fire-accounted :
    (p : Config.Fault → Bool) (at : ℤ) (f : Config.Fault) (phase offset : String) (has : Bool)
    (r : Round)
    → accounted p (fire at f (phase, offset, has) r) ≡ tally_faults p (f ∷ []) + accounted p r
fire-accounted p at f phase offset true r = at_offset-accounted p f at (parse_duration offset) r
fire-accounted p at f phase offset false r = ground arith

anchor_absolute-accounted :
    (p : Config.Fault → Bool) (run_start : ℤ) (fs : List Config.Fault)
    → accounted p (anchor_absolute run_start fs) ≡ tally_faults p fs
unfolding anchor_absolute
anchor_absolute-accounted p run_start [] = refl
anchor_absolute-accounted p run_start (f ∷ fs) =
    let rest = anchor_absolute run_start fs in
    elim (Bool-cases (has_prefix f.at "t=")) [
      | inl t ↦
          rw (t, at_offset-accounted p f run_start (parse_duration (trim_prefix f.at "t=")) rest)
            (ground (arith, anchor_absolute-accounted p run_start fs))
      | inr t ↦
          rw (t, keep-accounted p f rest) (ground (arith, anchor_absolute-accounted p run_start fs))
    ]

anchor_phase-accounted :
    (p : Config.Fault → Bool) (m : PhaseMarker) (fs : List Config.Fault)
    → accounted p (anchor_phase m fs) ≡ tally_faults p fs
unfolding anchor_phase
anchor_phase-accounted p m [] = refl
anchor_phase-accounted p m (f ∷ fs) =
    let rest = anchor_phase m fs in
    let (phase, offset, has) = cut b'+' f.at in
    elim (Bool-cases ((cut b'+' f.at).0 == m.phase)) [
      | inl t ↦
          rw (t, fire-accounted p m.at f phase offset has rest)
            (ground (arith, anchor_phase-accounted p m fs))
      | inr t ↦ rw (t, keep-accounted p f rest) (ground (arith, anchor_phase-accounted p m fs))
    ]

never_fired_all-accounted :
    (p : Config.Fault → Bool) (fs : List Config.Fault)
    → tally_failed p (never_fired_all fs) ≡ tally_faults p fs
never_fired_all-accounted p [] = refl
never_fired_all-accounted p (f ∷ fs) = ground (arith, never_fired_all-accounted p fs)

wait_for_phases-accounted :
    (p : Config.Fault → Bool) (ms : List PhaseMarker) (fs : List Config.Fault)
    → tally_scheduled p (wait_for_phases ms fs).0 + tally_failed p (wait_for_phases ms fs).1
      ≡ tally_faults p fs
unfolding wait_for_phases
wait_for_phases-accounted p [] [] = omega arith
wait_for_phases-accounted p (m ∷ ms) [] = omega arith
wait_for_phases-accounted p [] (f ∷ fs) = omega (arith, never_fired_all-accounted p (f ∷ fs))
wait_for_phases-accounted p (m ∷ ms) (f ∷ fs) =
    let now = anchor_phase m (f ∷ fs) in
    let (scheduled, failed) = wait_for_phases ms now.remaining in
    omega (
      arith,
      anchor_phase-accounted p m (f ∷ fs),
      wait_for_phases-accounted p ms now.remaining,
      tally-append (λ s. s.fault) p now.scheduled scheduled,
      tally-append (λ f. f.fault) p now.failed failed,
    )

-- Whatever phases start: each declared fault is scheduled once or reported once, and nothing else is.
-- For every test on faults, as many scheduled and reported faults pass it as declared ones.
pub schedule_faults-accounted :
    (p : Config.Fault → Bool) (run_start : ℤ) (markers : List PhaseMarker)
    (faults : List Config.Fault)
    → tally_scheduled p (schedule_faults run_start markers faults).0
        + tally_failed p (schedule_faults run_start markers faults).1
      ≡ tally_faults p faults
unfolding schedule_faults
schedule_faults-accounted p run_start markers faults =
    let first = anchor_absolute run_start faults in
    let (scheduled, failed) = wait_for_phases markers first.remaining in
    omega (
      arith,
      anchor_absolute-accounted p run_start faults,
      wait_for_phases-accounted p markers first.remaining,
      tally-append (λ s. s.fault) p first.scheduled scheduled,
      tally-append (λ f. f.fault) p first.failed failed,
    )
