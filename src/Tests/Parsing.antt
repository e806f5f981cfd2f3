-- ===== src/Tests/Parsing.antt =====
-- A configuration that parses.
use tortureu.Base.{String, List, Option, some, ◌≡◌, refl}
use tortureu.Base.Result.{ok}
use tortureu.Config
use tortureu.Config.Parse.{Document, document, RawConfig, parse}
use tortureu.Config.Parse.Sound.{IsSound, parse-IsSound}
use tortureu.Tests.Data.{present, raw, parsed_config}

parses : parse (document present (some raw)) ≡ ok parsed_config
unfolding parse tortureu.Config.Parse.check_keys tortureu.Config.Parse.top_level_keys
    tortureu.Config.Parse.decoded_config tortureu.Config.Parse.parse_config
    tortureu.Config.Parse.egress_error tortureu.Config.Parse.check_egress
    tortureu.Config.Parse.check_hosts tortureu.Config.Parse.check_host
    tortureu.Config.Parse.parse_blocks tortureu.Config.Parse.load_of
    tortureu.Config.Parse.parse_load tortureu.Config.Parse.check_stages
    tortureu.Config.Parse.load_with tortureu.Config.Parse.parse_scenarios
    tortureu.Config.Parse.parse_flow tortureu.Config.Parse.faults_of
    tortureu.Config.Parse.parse_faults tortureu.Base.Text.cut tortureu.Base.Text.has_prefix
    tortureu.Base.Text.is_digit tortureu.Base.Text.strip_prefix tortureu.Config.Checks.as_float
    tortureu.Config.Checks.bad_key tortureu.Config.Checks.check_fraction
    tortureu.Config.Checks.check_key tortureu.Config.Checks.check_positive_int
    tortureu.Config.Checks.fault_verb_modifiers tortureu.Config.Checks.find_verb
    tortureu.Config.Grammar.all_lower tortureu.Config.Grammar.at_grammar
    tortureu.Config.Grammar.is_absolute tortureu.Config.Grammar.is_duration
    tortureu.Config.Grammar.is_lower tortureu.Config.Grammar.is_phase_anchor
    tortureu.Config.Grammar.is_phase_char tortureu.Config.Grammar.phase_tail
    tortureu.Config.Grammar.unit_tail tortureu.Config.Parse.assemble
    tortureu.Config.Parse.check_anchor tortureu.Config.Parse.check_modifiers
    tortureu.Config.Parse.check_ranges tortureu.Config.Parse.find_and_check
    tortureu.Config.Parse.is_incomplete tortureu.Config.Parse.parse_fault
    tortureu.Config.Parse.parse_reset tortureu.Config.Parse.parse_step
    tortureu.Config.Parse.with_verb tortureu.Float64.eq tortureu.Float64.lt tortureu.Float64.of_int
    tortureu.Float64.one tortureu.Float64.round_half_even tortureu.Float64.to_int
    tortureu.Float64.too_large
parses = refl

parse-IsSound_example :
    (keys : List String) × (rc : RawConfig) × (document present (some raw)
      ≡ document keys (some rc))
    × IsSound keys rc parsed_config
parse-IsSound_example = parse-IsSound (document present (some raw)) parsed_config parses
