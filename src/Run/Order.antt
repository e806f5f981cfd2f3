-- ===== src/Run/Order.antt =====
-- No load before the classification, and a teardown on every exit behind the topology.
pub mod Watched
use tortureu.Base.{false, List, [], ◌∷◌, none, ◌≡◌, ◌≢◌, ◌⊎◌, In, arith, ap, ◌||◌, ◌∙◌, sym}
use tortureu.Base.Result.{Result, ok, err}
use tortureu.Egress.{check_unclassified, check_multiplier}
use tortureu.Value.{Value}
use tortureu.Run.{
  Effect, reset_run, topology_applied, load_started, torn_down, LoadEnd, finished, load_failed,
  in_prepare, in_start, in_load, in_faults, in_summary, Env, Progress, Step, fail, add_warning,
  effect, tear_down_all,
}
use tortureu.Run.Steps.{
  classes_of, effective_multiplier, or_fail, prepare_step, load_ended, select_end, load_step,
  unless_failed, faults_step, real_errors, note_warnings,
}
use tortureu.Run.Order.Watched.{IsEnded}

-- the system has not been touched, beyond a reset
abbrev pub IsQuiet : List Effect → Type 0
IsQuiet [] = Unit
IsQuiet (reset_run ∷ es) = IsQuiet es
IsQuiet (torn_down ∷ es) = IsQuiet es
IsQuiet (_ ∷ es) = ⊥

-- Every host has a safe class, and no unwanted replay reaches a real one.
abbrev pub IsAllowed : Env → Type 0
IsAllowed env =
    (check_unclassified (classes_of env) ≡ none)
    × (check_multiplier (classes_of env) (effective_multiplier env) env.allow_real_traffic ≡ false)

-- A run has not touched the system, or it was allowed to, and has ended as it should.
abbrev pub IsOrderly : Env → Progress → Type 0
IsOrderly env p = IsQuiet p.effects ⊎ (IsAllowed env × IsEnded env p)

-- a step before the topology: quiet, however it ends
abbrev Quiet : Step → Type 0
Quiet (err p) = IsQuiet p.effects
Quiet (ok p) = IsQuiet p.effects

-- the classification: quiet, and where it goes on, allowed
abbrev Classified : Env → Step → Type 0
Classified env (err p) = IsQuiet p.effects
Classified env (ok p) = IsQuiet p.effects × IsAllowed env × (p.aborted ≡ false)
