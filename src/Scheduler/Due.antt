-- ===== src/Scheduler/Due.antt =====
-- The moments at which scheduled faults fire.
use tortureu.Base.{
  true, false, List, [], ◌∷◌, Option, none, some, ◌==◌, ℤ, ◌+ℤ◌, ◌≡◌, refl, Bool-cases, inl, inr,
  All, All-append, In, eq_iff,
}
use tortureu.Base.Text.{has_prefix, trim_prefix, cut}
use tortureu.Duration.{parse_duration}
use tortureu.Config
use tortureu.Scheduler.{
  PhaseMarker, Scheduled, Round, at_offset, anchor_absolute, fire, anchor_phase, wait_for_phases,
  schedule_faults,
}

-- A moment that `at:` names: `t=` and a time after the start of the run, or a phase that has started,
-- with a time after its marker if there is one.
pub data IsDue (run_start : ℤ) (markers : List PhaseMarker) (s : Scheduled) : Type 0 where
  absolute :
      (d : ℤ)
      → has_prefix s.fault.at "t=" ≡ true
      → parse_duration (trim_prefix s.fault.at "t=") ≡ some d
      → s.at ≡ run_start +ℤ d
      → IsDue run_start markers s
  on_phase :
      (m : PhaseMarker)
      → In m markers
      → (cut b'+' s.fault.at).0 ≡ m.phase
      → (cut b'+' s.fault.at).2 ≡ false
      → s.at ≡ m.at
      → IsDue run_start markers s
  behind_phase :
      (m : PhaseMarker) (d : ℤ)
      → In m markers
      → (cut b'+' s.fault.at).0 ≡ m.phase
      → (cut b'+' s.fault.at).2 ≡ true
      → parse_duration (cut b'+' s.fault.at).1 ≡ some d
      → s.at ≡ m.at +ℤ d
      → IsDue run_start markers s

at_offset-All :
    (P : Scheduled → Type 0) (f : Config.Fault) (start : ℤ) (o : Option ℤ) (r : Round)
    → ((d : ℤ) → o ≡ some d → P (record { fault = f; at = start +ℤ d }))
    → All P r.scheduled
    → All P (at_offset f start o r).scheduled
at_offset-All P f start none r h rest = rest
at_offset-All P f start (some d) r h rest = (h d refl, rest)

anchor_absolute-IsDue :
    (run_start : ℤ) (markers : List PhaseMarker) (fs : List Config.Fault)
    → All (IsDue run_start markers) (anchor_absolute run_start fs).scheduled
unfolding anchor_absolute
anchor_absolute-IsDue run_start markers [] = tt
anchor_absolute-IsDue run_start markers (f ∷ fs) =
    let later = anchor_absolute-IsDue run_start markers fs in
    elim (Bool-cases (has_prefix f.at "t=")) [
      | inl t ↦ rw t (
          at_offset-All (IsDue run_start markers) f run_start
            (parse_duration (trim_prefix f.at "t=")) (anchor_absolute run_start fs)
            (λ d e. IsDue.absolute d t e refl) later)
      | inr t ↦ rw t later
    ]

fire-IsDue :
    (run_start : ℤ) (markers : List PhaseMarker) (m : PhaseMarker) (f : Config.Fault) (r : Round)
    → In m markers
    → (cut b'+' f.at).0 ≡ m.phase
    → All (IsDue run_start markers) r.scheduled
    → All (IsDue run_start markers) (fire m.at f (cut b'+' f.at) r).scheduled
fire-IsDue run_start markers m f r started same later = elim (Bool-cases (cut b'+' f.at).2) [
  | inl t ↦ rw t (
      at_offset-All (IsDue run_start markers) f m.at (parse_duration (cut b'+' f.at).1) r
        (λ d e. IsDue.behind_phase m d started same t e refl) later)
  | inr t ↦ rw t (IsDue.on_phase m started same t refl, later)
]

anchor_phase-IsDue :
    (run_start : ℤ) (markers : List PhaseMarker) (m : PhaseMarker) (fs : List Config.Fault)
    → In m markers
    → All (IsDue run_start markers) (anchor_phase m fs).scheduled
unfolding anchor_phase
anchor_phase-IsDue run_start markers m [] started = tt
anchor_phase-IsDue run_start markers m (f ∷ fs) started =
    let later = anchor_phase-IsDue run_start markers m fs started in
    elim (Bool-cases ((cut b'+' f.at).0 == m.phase)) [
      | inl t ↦ rw t (
          fire-IsDue run_start markers m f (anchor_phase m fs) started
            ((eq_iff (cut b'+' f.at).0 m.phase).0 t) later)
      | inr t ↦ rw t later
    ]

wait_for_phases-IsDue :
    (run_start : ℤ) (all ms : List PhaseMarker) (fs : List Config.Fault)
    → ((m : PhaseMarker) → In m ms → In m all)
    → All (IsDue run_start all) (wait_for_phases ms fs).0
unfolding wait_for_phases
wait_for_phases-IsDue run_start all [] [] within = tt
wait_for_phases-IsDue run_start all (m ∷ ms) [] within = tt
wait_for_phases-IsDue run_start all [] (f ∷ fs) within = tt
wait_for_phases-IsDue run_start all (m ∷ ms) (f ∷ fs) within =
    let now = anchor_phase m (f ∷ fs) in
    All-append (IsDue run_start all) now.scheduled (wait_for_phases ms now.remaining).0
      (anchor_phase-IsDue run_start all m (f ∷ fs) (within m (inl refl)))
      (wait_for_phases-IsDue run_start all ms now.remaining (λ n i. within n (inr i)))

-- Every scheduled fault fires at the moment that its `at:` names: the given time after the start of
-- the run, or at (or the given time behind) the marker of its phase, which has been received.
pub schedule_faults-IsDue :
    (run_start : ℤ) (markers : List PhaseMarker) (faults : List Config.Fault)
    → All (IsDue run_start markers) (schedule_faults run_start markers faults).0
unfolding schedule_faults
schedule_faults-IsDue run_start markers faults =
    let first = anchor_absolute run_start faults in
    All-append (IsDue run_start markers) first.scheduled (wait_for_phases markers first.remaining).0
      (anchor_absolute-IsDue run_start markers faults)
      (wait_for_phases-IsDue run_start markers markers first.remaining (λ m i. i))
