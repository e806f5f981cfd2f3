-- ===== src/Scheduler.antt =====
-- internal/run/scheduler.go: when each declared fault fires, on the clock of the phase markers. The
-- channel of markers is the list of what it delivers before it is closed; an instant is a number of
-- nanoseconds.
pub mod Anchor
pub mod Due
pub mod Apply
use tortureu.Base.{
  String, Bool, true, false, List, [], ◌∷◌, ◌++◌, Option, none, some, ◌==◌, not, if◌then◌else◌, ℤ,
  ◌+ℤ◌, map,
}
use tortureu.Base.Text.{has_prefix, trim_prefix, cut}
use tortureu.Duration.{parse_duration}
use tortureu.Config

pub record PhaseMarker : Type 0 where
  pub phase : String
  pub at : ℤ

-- a call of applyAt
pub record Scheduled : Type 0 where
  pub fault : Config.Fault
  pub at : ℤ

pub data Reason : Type 0 where
  bad_at never_fired : Reason

-- an error that names its fault
pub record Failed : Type 0 where
  pub fault : Config.Fault
  pub reason : Reason

-- what a loop has scheduled, what it has reported, and the faults it leaves
pub record Round : Type 0 where
  pub scheduled : List Scheduled
  pub failed : List Failed
  pub remaining : List Config.Fault

abbrev pub empty_round : Round
empty_round = record { scheduled = []; failed = []; remaining = [] }

abbrev pub schedule : Config.Fault → ℤ → Round → Round
schedule f at r = record r { scheduled = record { fault = f; at = at } ∷ r.scheduled }

abbrev pub fail : Config.Fault → Reason → Round → Round
fail f reason r = record r { failed = record { fault = f; reason = reason } ∷ r.failed }

abbrev pub keep : Config.Fault → Round → Round
keep f r = record r { remaining = f ∷ r.remaining }

abbrev pub at_offset : Config.Fault → ℤ → Option ℤ → Round → Round
at_offset f start none r = fail f bad_at r
at_offset f start (some d) r = schedule f (start +ℤ d) r

-- the first loop, over the declared faults
unfoldable pub anchor_absolute : ℤ → List Config.Fault → Round
anchor_absolute run_start [] = empty_round
anchor_absolute run_start (f ∷ fs) =
    let rest = anchor_absolute run_start fs in
    if has_prefix f.at "t="
    then at_offset f run_start (parse_duration (trim_prefix f.at "t=")) rest
    else keep f rest

-- the offset behind the phase, if there is one
abbrev pub fire : ℤ → Config.Fault → String × String × Bool → Round → Round
fire at f (phase, offset, has_offset) r =
    if has_offset then at_offset f at (parse_duration offset) r else schedule f at r

-- one round of the second loop
unfoldable pub anchor_phase : PhaseMarker → List Config.Fault → Round
anchor_phase m [] = empty_round
anchor_phase m (f ∷ fs) =
    let rest = anchor_phase m fs in
    if (cut b'+' f.at).0 == m.phase then fire m.at f (cut b'+' f.at) rest else keep f rest

abbrev pub never_fired_all : List Config.Fault → List Failed
never_fired_all fs = map (λ f. record { fault = f; reason = never_fired }) fs

-- the second loop: it stops when no fault waits, or when the markers end
unfoldable pub wait_for_phases : List PhaseMarker → List Config.Fault → List Scheduled × List Failed
wait_for_phases markers [] = ([], [])
wait_for_phases [] (f ∷ fs) = ([], never_fired_all (f ∷ fs))
wait_for_phases (m ∷ ms) (f ∷ fs) =
    let now = anchor_phase m (f ∷ fs) in
    let (scheduled, failed) = wait_for_phases ms now.remaining in
    (now.scheduled ++ scheduled, now.failed ++ failed)

-- scheduleFaults, up to the goroutines that it starts
unfoldable pub schedule_faults :
    ℤ → List PhaseMarker → List Config.Fault → List Scheduled × List Failed
unfolding anchor_absolute wait_for_phases
schedule_faults run_start markers faults =
    let first = anchor_absolute run_start faults in
    let (scheduled, failed) = wait_for_phases markers first.remaining in
    (first.scheduled ++ scheduled, first.failed ++ failed)
