-- ===== src/Config/Parse.antt =====
-- Parse, from what the YAML library has decoded.
pub mod Sound
use tortureu.Base.{
  String, Bool, true, false, List, [], ◌∷◌, ◌++◌, Option, none, some, Dict, lookup, has_key,
  contains, keys, map, ◌==◌, ◌||◌, ◌&&◌, not, if◌then◌else◌, ℤ, pos, ltb_ℤ,
}
use tortureu.Base.Result.{Result, ok, err, reject_if, reject_some, ◌>>=◌, ◌>>◌}
use tortureu.Base.Text.{has_prefix, cut}
use tortureu.Value.{Value}
use tortureu.Config
use tortureu.Config.{Target, EgressHost, FlowStep, Scenario, Stage, Load, Fault, Reset, AssertEntry}
use tortureu.Config.Grammar.{at_grammar}
use tortureu.Config.Checks.{
  Error, malformed, empty_document, unknown_key, missing_compose, missing_service, bad_default,
  mock_without_source, real_without_rate, unknown_class, closed_model, duplicate_phase, bad_stage,
  bare_step, bad_step, incomplete_step, incomplete_fault, bad_at, undeclared_phase, unknown_target,
  bad_modifier, no_assert, fault_verb_modifiers, check_fraction, check_positive_int, find_verb,
  bad_key, check_key,
}

-- one node of a flow, as `node.Kind` and `node.Decode` answer
pub data FlowNode : Type 0 where
  not_mapping : FlowNode
  undecodable : FlowNode
  step : FlowStep → FlowNode

pub record RawScenario : Type 0 where
  pub name : String
  pub weight : ℤ
  pub flow : List FlowNode

pub record RawLoad : Type 0 where
  pub engine : String
  pub model : String
  pub stages : List Stage
  pub scenarios : List RawScenario

pub record RawFault : Type 0 where
  pub name : String
  pub at : String
  pub for : String
  pub target : String
  pub inject : Dict Value

pub record RawConfig : Type 0 where
  pub version : ℤ
  pub target : Target
  pub egress : Config.Egress
  pub load : RawLoad
  pub faults : List RawFault
  pub assert : List AssertEntry
  pub reset : Reset

-- What yaml.Unmarshal gives for the bytes: an error, no content, or the top-level keys with the
-- second decode, which may fail too.
pub data Document : Type 0 where
  bad_yaml : Document
  no_content : Document
  document : List String → Option RawConfig → Document

unfoldable pub top_level_keys : List String
top_level_keys =
    "version" ∷ "target" ∷ "egress" ∷ "reset" ∷ "load" ∷ "faults" ∷ "assert" ∷ "fuzz" ∷ []

unfoldable pub check_keys : List String → Option Error
check_keys [] = none
check_keys (k ∷ ks) = if contains top_level_keys k then check_keys ks else some (unknown_key k)

-- the switch on one host's class
unfoldable pub check_host : String → EgressHost → Option Error
check_host host eh =
    if eh.class == "mock"
    then (if eh.from == "capture" || eh.from == "spec"
        then none
        else some (mock_without_source host))
    else if eh.class == "real"
    then (if ltb_ℤ (pos 0) eh.max_rps then none else some (real_without_rate host))
    else if eh.class == "internal" || eh.class == "block"
    then none
    else some (unknown_class host eh.class)

unfoldable pub check_hosts : Dict EgressHost → Option Error
check_hosts [] = none
check_hosts ((host, eh) ∷ rest) = elim (check_host host eh) [
  | some e ↦ some e
  | none ↦ check_hosts rest
]

unfoldable pub check_egress : Config.Egress → Option Error
check_egress e = if e.default == "deny" then check_hosts e.hosts else some (bad_default e.default)

-- the loop over the stages; the list holds the phases that were seen
unfoldable pub check_stages : List String → List Stage → Option Error
check_stages seen [] = none
check_stages seen (s ∷ rest) =
    if contains seen s.phase
    then some (duplicate_phase s.phase)
    else if (s.to == "") && (s.hold == "") || not (s.to == "") && not (s.hold == "")
    then some (bad_stage s.phase)
    else check_stages (s.phase ∷ seen) rest

unfoldable pub parse_step : String → FlowNode → Result Error FlowStep
parse_step name not_mapping = err (bare_step name)
parse_step name undecodable = err (bad_step name)
parse_step name (step fs) =
    if fs.method == "" || fs.path == "" then err (incomplete_step name) else ok fs

unfoldable pub parse_flow : String → List FlowNode → Result Error (List FlowStep)
unfolding parse_step
parse_flow name [] = ok []
parse_flow name (n ∷ ns) = do ok ((← parse_step name n) ∷ (← parse_flow name ns))

unfoldable pub parse_scenarios : List RawScenario → Result Error (List Scenario)
parse_scenarios [] = ok []
parse_scenarios (rs ∷ rest) = do
  flow ← parse_flow rs.name rs.flow
  later ← parse_scenarios rest
  ok (record { name = rs.name; weight = rs.weight; flow = flow } ∷ later)

unfoldable pub load_with : RawLoad → Result Error Load
load_with l = do
  scenarios ← parse_scenarios l.scenarios
  ok (record { engine = l.engine; model = l.model; stages = l.stages; scenarios = scenarios })

unfoldable pub parse_load : RawLoad → Result Error Load
parse_load l = do
  reject_if (not (l.model == "arrival_rate")) (closed_model l.model)
  reject_some (check_stages [] l.stages)
  load_with l

-- at: names a phase of the load, unless it is absolute
unfoldable pub check_anchor : List String → RawFault → Option Error
check_anchor phases rf =
    if at_grammar rf.at
    then (if has_prefix rf.at "t=" || contains phases (cut b'+' rf.at).0
        then none
        else some (undeclared_phase rf.name rf.at))
    else some (bad_at rf.name rf.at)

unfoldable pub check_modifiers : String → String → Dict Value → Option Error
check_modifiers name verb inject = elim (lookup verb fault_verb_modifiers) [
  | none ↦ none
  | some allowed ↦ elim (bad_key verb allowed inject) [
    | none ↦ none
    | some k ↦ some (bad_modifier name k verb)
  ]
]

-- the four range checks, in order
unfoldable pub check_ranges : String → Dict Value → Result Error Unit
check_ranges name inject = do
  reject_some (check_key check_fraction name "duplicate" inject)
  reject_some (check_key check_fraction name "error_rate" inject)
  reject_some (check_key check_positive_int name "count" inject)
  reject_some (check_key check_positive_int name "workers" inject)

unfoldable pub is_incomplete : RawFault → Bool
is_incomplete rf = rf.at == "" || rf.target == "" || (elim rf.inject [ [] ↦ true | _ ∷ _ ↦ false ])

-- what follows once the verb is found
unfoldable pub with_verb : RawFault → String → Result Error Fault
with_verb rf verb = do
  reject_some (check_modifiers rf.name verb rf.inject)
  check_ranges rf.name rf.inject
  ok (record {
    name = rf.name;
    at = rf.at;
    for = rf.for;
    target = rf.target;
    verb = verb;
    inject = rf.inject;
  })

unfoldable pub find_and_check : RawFault → Result Error Fault
find_and_check rf = find_verb rf.name "" rf.inject >>= with_verb rf

unfoldable pub parse_fault : List String → List String → RawFault → Result Error Fault
parse_fault phases targets rf = do
  reject_if (is_incomplete rf) (incomplete_fault rf.name)
  reject_some (check_anchor phases rf)
  reject_if (not (contains targets rf.target)) (unknown_target rf.name rf.target)
  find_and_check rf

unfoldable pub parse_faults : List String → List String → List RawFault → Result Error (List Fault)
parse_faults phases targets [] = ok []
parse_faults phases targets (rf ∷ rest) = do
  f ← parse_fault phases targets rf
  fs ← parse_faults phases targets rest
  ok (f ∷ fs)

abbrev pub no_load : Load
no_load = record { engine = ""; model = ""; stages = []; scenarios = [] }

abbrev pub phases_of : RawConfig → List String
phases_of rc = map (λ s. s.phase) rc.load.stages

abbrev pub targets_of : RawConfig → List String
targets_of rc = rc.target.service ∷ keys rc.egress.hosts

abbrev pub default_reset_command : String
default_reset_command = "docker compose down -v && docker compose up -d --wait"

unfoldable pub parse_reset : Reset → Reset
parse_reset r = if r.command == "" then record r { command = default_reset_command } else r

abbrev pub is_empty : List AssertEntry → Bool
is_empty [] = true
is_empty (_ ∷ _) = false

-- the blocks that are read only where the document has them
unfoldable pub egress_error : List String → RawConfig → Option Error
egress_error present rc = if contains present "egress" then check_egress rc.egress else none

unfoldable pub load_of : List String → RawConfig → Result Error Load
load_of present rc = if contains present "load" then parse_load rc.load else ok no_load

unfoldable pub faults_of : List String → RawConfig → Result Error (List Fault)
faults_of present rc =
    if contains present "faults"
    then parse_faults (phases_of rc) (targets_of rc) rc.faults
    else ok []

unfoldable pub assemble : RawConfig → Load → List Fault → Result Error Config.Config
unfolding parse_reset
assemble rc load faults = do
  reject_if (is_empty rc.assert) no_assert
  ok (record {
    version = rc.version;
    target = rc.target;
    egress = rc.egress;
    load = load;
    faults = faults;
    assert = rc.assert;
    reset = parse_reset rc.reset;
  })

unfoldable pub parse_blocks : List String → RawConfig → Result Error Config.Config
parse_blocks present rc = do
  load ← load_of present rc
  faults ← faults_of present rc
  assemble rc load faults

-- the checks behind the decoding
unfoldable pub parse_config : List String → RawConfig → Result Error Config.Config
parse_config present rc = do
  reject_if (rc.target.compose == "") missing_compose
  reject_if (rc.target.service == "") missing_service
  reject_some (egress_error present rc)
  parse_blocks present rc

unfoldable pub decoded_config : Option RawConfig → Result Error RawConfig
decoded_config none = err malformed
decoded_config (some rc) = ok rc

unfoldable pub parse : Document → Result Error Config.Config
parse bad_yaml = err malformed
parse no_content = err empty_document
parse (document present decoded) = do
  reject_some (check_keys present)
  rc ← decoded_config decoded
  parse_config present rc
