-- ===== src/Tests/Refusals.antt =====
-- Faults that translate refuses.
use tortureu.Base.{[], ◌∷◌, ◌≡◌, refl, true}
use tortureu.Base.Result.{ok, err}
use tortureu.Value.{str}
use tortureu.Config
use tortureu.Config.Parse.{RawFault, parse_fault}
use tortureu.Fault
use tortureu.Fault.{bad_value}
use tortureu.Fault.Translate.{translate, stray_key}
use tortureu.Fault.Translate.Faulty.{is_value_error}
use tortureu.Fault.Translate.Parsed.{translate-parse_fault}
use tortureu.Tests.Data.{slow_db}

-- a delay that is no duration
abbrev raw_soon : RawFault
raw_soon = record {
  name = "soon";
  at = "t=30s";
  for = "60s";
  target = "db:5432";
  inject = ("latency", str "soon") ∷ [];
}

abbrev soon : Config.Fault
soon = record {
  name = "soon";
  at = "t=30s";
  for = "60s";
  target = "db:5432";
  verb = "latency";
  inject = ("latency", str "soon") ∷ [];
}

soon_parses : parse_fault [] ("db:5432" ∷ []) raw_soon ≡ ok soon
unfolding parse_fault tortureu.Config.Parse.is_incomplete tortureu.Config.Parse.check_anchor
    tortureu.Config.Grammar.at_grammar tortureu.Base.Text.has_prefix
    tortureu.Config.Parse.find_and_check tortureu.Config.Checks.find_verb
    tortureu.Config.Checks.fault_verb_modifiers tortureu.Config.Parse.with_verb
    tortureu.Config.Parse.check_modifiers tortureu.Config.Checks.bad_key
    tortureu.Config.Parse.check_ranges tortureu.Config.Checks.check_key
soon_parses = refl

soon_refused : translate soon ≡ err (bad_value "latency" (str "soon"))
unfolding translate Fault.fault_verb_modifiers stray_key Fault.other_layer_owner
    tortureu.Fault.Translate.translate_own tortureu.Fault.Translate.workers_error
    tortureu.Fault.Translate.dispatch Fault.network_verbs tortureu.Fault.Translate.translate_toxic
    tortureu.Fault.Translate.toxic_of tortureu.Fault.Translate.latency_toxic
    tortureu.Fault.Translate.parsed tortureu.Fault.Values.parse_millis tortureu.Fault.Values.as_int
    tortureu.Fault.Values.parse_float_millis tortureu.Fault.Values.parse_text_millis
    tortureu.Fault.Values.parse_duration_text tortureu.Base.Text.decimal tortureu.Base.Text.digits
    tortureu.Base.Text.fold_case tortureu.Base.Text.fraction tortureu.Base.Text.is_digit
    tortureu.Base.Text.is_space tortureu.Base.Text.matches tortureu.Base.Text.skip_space
    tortureu.Base.Text.to_lower tortureu.Fault.Translate.add_jitter
    tortureu.Fault.Translate.copy_key tortureu.Fault.Translate.docker_of
    tortureu.Fault.Translate.translate_docker tortureu.Fault.Values.duration_suffix
    tortureu.Fault.Values.parse_float_rate tortureu.Fault.Values.parse_percent
    tortureu.Fault.Values.parse_rate_kbps tortureu.Fault.Values.parse_rate_text
    tortureu.Fault.Values.percent_number tortureu.Fault.Values.percent_suffix
    tortureu.Fault.Values.rate_suffix tortureu.Fault.Values.rounded tortureu.Fault.Values.scaled
    tortureu.Fault.Values.to_kbytes tortureu.Fault.Values.validate_workers Fault.service_verbs
    tortureu.Float64.div_nat tortureu.Float64.eq tortureu.Float64.lt tortureu.Float64.mul
    tortureu.Float64.of_int tortureu.Float64.of_ratio tortureu.Float64.one tortureu.Float64.round
    tortureu.Float64.round_half_even tortureu.Float64.to_int tortureu.Float64.too_large
    tortureu.Float64.trunc
soon_refused = refl

translate-parse_fault_example : is_value_error (bad_value "latency" (str "soon")) ≡ true
translate-parse_fault_example =
    translate-parse_fault [] ("db:5432" ∷ []) raw_soon soon (bad_value "latency" (str "soon"))
      soon_parses soon_refused

-- `status` belongs to another verb
abbrev mixed : Config.Fault
mixed = record slow_db { inject = ("latency", str "300ms") ∷ ("status", str "500") ∷ [] }
