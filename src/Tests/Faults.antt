-- ===== src/Tests/Faults.antt =====
-- Faults that are translated and applied.
use tortureu.Base.{
  String, List, [], ◌∷◌, Option, none, some, ◌≡◌, ◌≢◌, refl, ◌⊎◌, inl, inr, Dict, lookup, has_key,
  contains, true, false, ℤ, pos, ◌≤ℤ◌, ℕ, reverse, ◌++◌, Bool, arith, ◌==◌, if◌then◌else◌,
}
use mathlib.Core.List.{Perm, filter_map}
use tortureu.Base.Result.{Result, ok, err}
use tortureu.Value.{Value}
use tortureu.Fault
use tortureu.Fault.{Action, Toxic, DockerAction, passed, fault_verb_modifiers}
use tortureu.Fault.Values.{as_int}
use tortureu.Fault.Translate.{translate}
use tortureu.Fault.Translate.Laws.{IsWellFormed, IsRouted, translate_sound}
use tortureu.Undo
use tortureu.Undo.Exact.{teardown_lem, steps-perm}
use tortureu.QueueFault
use tortureu.QueueFault.Laws.{IsPoisonPill, IsDuplicate, translate-queue}
use tortureu.MockRate.{translate_error_rate, error_rate_mappings, ErrorRate, approximate_error_rate}
use tortureu.MockRate.Cycle.{translate_error_rate_sound, InRange}
use tortureu.Egress.{as_float}
use tortureu.Tests.Data.{
  slow_db, slow_toxic, poison, poison_action, no_topic, no_topic_passed, flaky, one,
}

slow_db_translates : translate slow_db ≡ ok slow_toxic
unfolding translate fault_verb_modifiers tortureu.Fault.Translate.stray_key Fault.other_layer_owner
    tortureu.Fault.Translate.translate_own tortureu.Fault.Translate.workers_error
    tortureu.Fault.Translate.dispatch Fault.network_verbs tortureu.Fault.Translate.translate_toxic
    tortureu.Fault.Translate.toxic_of tortureu.Fault.Translate.latency_toxic
    tortureu.Fault.Translate.parsed tortureu.Fault.Values.parse_millis as_int
    tortureu.Fault.Values.parse_float_millis tortureu.Fault.Values.parse_text_millis
    tortureu.Fault.Values.parse_duration_text tortureu.Base.Text.decimal tortureu.Base.Text.digits
    tortureu.Base.Text.fold_case tortureu.Base.Text.fraction tortureu.Base.Text.is_digit
    tortureu.Base.Text.is_space tortureu.Base.Text.matches tortureu.Base.Text.skip_space
    tortureu.Base.Text.to_lower tortureu.Fault.Translate.add_jitter
    tortureu.Fault.Translate.copy_key tortureu.Fault.Translate.docker_of
    tortureu.Fault.Translate.translate_docker tortureu.Fault.Values.duration_suffix
    tortureu.Fault.Values.parse_float_rate tortureu.Fault.Values.parse_percent
    tortureu.Fault.Values.parse_rate_kbps tortureu.Fault.Values.parse_rate_text
    tortureu.Fault.Values.percent_number tortureu.Fault.Values.percent_suffix
    tortureu.Fault.Values.rate_suffix tortureu.Fault.Values.rounded tortureu.Fault.Values.scaled
    tortureu.Fault.Values.to_kbytes tortureu.Fault.Values.validate_workers Fault.service_verbs
    tortureu.Float64.div_nat tortureu.Float64.eq tortureu.Float64.lt tortureu.Float64.mul
    tortureu.Float64.of_int tortureu.Float64.of_ratio tortureu.Float64.one tortureu.Float64.round
    tortureu.Float64.round_half_even tortureu.Float64.to_int tortureu.Float64.too_large
    tortureu.Float64.trunc
slow_db_translates = refl

translate_sound_example :
    (slow_toxic.fault ≡ slow_db) × IsWellFormed slow_toxic × IsRouted slow_db slow_toxic
translate_sound_example = translate_sound slow_db slow_toxic slow_db_translates

-- an applier that returns the fault's name as the undo
abbrev toxiproxy : String → Toxic → Result String String
toxiproxy name t = ok name

abbrev no_docker : String → DockerAction → Result String String
no_docker name d = err "no daemon"

-- the undo named "stuck" fails
abbrev run_undo : String → Option String
run_undo u = if u == "stuck" then some "stuck container" else none

abbrev undos : List String
undos = "first" ∷ "stuck" ∷ "last" ∷ []

teardown_lem_example :
    (Undo.teardown run_undo undos).0 ≡ []
    × ((Undo.teardown run_undo undos).1 ≡ reverse undos)
    × ((Undo.teardown run_undo undos).2 ≡ filter_map run_undo (reverse undos))
teardown_lem_example = teardown_lem run_undo undos

abbrev ops : List (Undo.Op String)
ops = Undo.add "first" ∷ Undo.teardown_all ∷ Undo.add "late" ∷ []

steps-perm_example :
    Perm ((Undo.steps run_undo ops []).1 ++ (Undo.steps run_undo ops []).0) ([] ++ Undo.added ops)
steps-perm_example = steps-perm run_undo ops []

poison_translates : QueueFault.translate poison ≡ ok poison_action
unfolding QueueFault.translate QueueFault.verb_modifiers tortureu.Fault.Translate.stray_key
    QueueFault.dispatch QueueFault.poison_pill_action
poison_translates = refl

translate-queue_example :
    (poison.target ≢ "")
    × (poison_action.fault ≡ poison)
    × (IsPoisonPill poison poison_action ⊎ IsDuplicate poison poison_action)
translate-queue_example = translate-queue poison poison_action poison_translates

no_topic_passes : translate no_topic ≡ ok no_topic_passed
unfolding translate fault_verb_modifiers tortureu.Fault.Translate.stray_key Fault.other_layer_owner
no_topic_passes = refl

no_topic_refused : QueueFault.translate no_topic ≡ err QueueFault.no_target
unfolding QueueFault.translate QueueFault.verb_modifiers tortureu.Fault.Translate.stray_key
no_topic_refused = refl

abbrev flaky_rate : ErrorRate
flaky_rate = record { target = "api.stripe.com:443"; rate = one; status = pos 503 }

flaky_translates : translate_error_rate flaky ≡ ok flaky_rate
unfolding translate_error_rate tortureu.Egress.validate_error_rate tortureu.Float64.of_int
    tortureu.MockRate.error_rate_of tortureu.MockRate.status_of tortureu.MockRate.rate_of
    tortureu.Float64.to_int
flaky_translates = refl

translate_error_rate_sound_example :
    (flaky.verb ≡ "error_rate")
    × (flaky.target ≢ "")
    × (flaky_rate.target ≡ flaky.target)
    × ((v : Value)
        → lookup "error_rate" flaky.inject ≡ some v
        → (as_float v ≡ some flaky_rate.rate) × InRange flaky_rate.rate)
translate_error_rate_sound_example = translate_error_rate_sound flaky flaky_rate flaky_translates
