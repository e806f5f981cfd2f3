-- ===== src/Fault/Translate.antt =====
-- Translate, translateToxic and translateDocker.
pub mod Laws
pub mod Faulty
pub mod Errors
pub mod Parsed
use tortureu.Base.{
  String, Bool, true, false, List, [], ◌∷◌, Option, none, some, Dict, lookup, contains, ◌==◌, not,
  if◌then◌else◌, insert, has_key, ℤ,
}
use tortureu.Base.Result.{Result, ok, err, reject_if, reject_some, ◌>>=◌, ◌>>◌}
use tortureu.Value.{Value, int, str}
use tortureu.Config
use tortureu.Fault.{
  Action, Toxic, DockerAction, Error, toxic, docker, passed, unknown_verb, bad_modifier,
  bad_workers, no_target, unsupported_verb, bad_value, index, network_verbs, service_verbs,
  fault_verb_modifiers, other_layer_owner,
}
use tortureu.Fault.Values.{validate_workers, parse_millis, parse_rate_kbps, parse_percent}

-- the first key of `inject:` that is neither the verb nor one of its modifiers
unfoldable pub stray_key : String → List String → Dict Value → Option String
stray_key verb allowed [] = none
stray_key verb allowed ((k, v) ∷ rest) =
    if k == verb
    then stray_key verb allowed rest
    else if contains allowed k
    then stray_key verb allowed rest
    else some k

-- if v, ok := f.Inject[k]; ok { attributes[k] = v }
unfoldable pub copy_key : String → Dict Value → Dict Value → Dict Value
copy_key k inject out = elim (lookup k inject) [ none ↦ out | some v ↦ insert k v out ]

-- a parsed number, or the error that names its field
unfoldable pub parsed : String → Value → Option ℤ → Result Error Value
parsed field v none = err (bad_value field v)
parsed field v (some n) = ok (int n)

abbrev empty_toxic : Toxic
empty_toxic = record { type = ""; disable = false; attributes = [] }

-- `jitter:` is optional
unfoldable pub add_jitter : Option Value → Dict Value → Result Error (Dict Value)
add_jitter none attributes = ok attributes
add_jitter (some v) attributes = do
  jitter ← parsed "jitter" v (parse_millis v)
  ok (insert "jitter" jitter attributes)

unfoldable pub latency_toxic : Dict Value → Result Error Toxic
latency_toxic inject = do
  latency ← parsed "latency" (index inject "latency") (parse_millis (index inject "latency"))
  attributes ← add_jitter (lookup "jitter" inject) (insert "latency" latency [])
  ok (record { type = "latency"; disable = false; attributes = attributes })

-- the switch of translateToxic
unfoldable pub toxic_of : String → Dict Value → Result Error Toxic
unfolding copy_key
toxic_of verb inject =
    if verb == "latency"
    then latency_toxic inject
    else if verb == "down"
    then ok (record empty_toxic { disable = true })
    else if verb == "bandwidth"
    then (do
      rate ←
          parsed "bandwidth" (index inject "bandwidth") (parse_rate_kbps (index inject "bandwidth"))
      ok (record { type = "bandwidth"; disable = false; attributes = insert "rate" rate [] }))
    else if verb == "slicer"
    then ok (record {
      type = "slicer";
      disable = false;
      attributes = copy_key "delay" inject (insert "average_size" (index inject "slicer") []);
    })
    else if verb == "timeout"
    then ok (record {
      type = "timeout";
      disable = false;
      attributes = insert "timeout" (index inject "timeout") [];
    })
    else if verb == "reset_peer"
    then ok (record {
      type = "reset_peer";
      disable = false;
      attributes = insert "timeout" (index inject "reset_peer") [];
    })
    else ok empty_toxic

unfoldable pub translate_toxic : Config.Fault → Result Error Action
translate_toxic f = do
  t ← toxic_of f.verb f.inject
  ok (record { fault = f; kind = toxic; toxic = some t; docker = none; owner = "" })

abbrev pub action_of : String → String → Dict Value → DockerAction
action_of kind container args = record { kind = kind; container = container; args = args }

-- the switch of translateDocker
unfoldable pub docker_of : String → String → Dict Value → Result Error DockerAction
unfolding copy_key
docker_of verb target inject =
    if verb == "cpu"
    then (do
      pct ← parsed "cpu" (index inject "cpu") (parse_percent (index inject "cpu"))
      ok (
          action_of "stress" target (
            copy_key "workers" inject
              (insert "cpu_percent" pct (insert "resource" (str "cpu") [])))))
    else if contains ("mem" ∷ "io" ∷ "fd" ∷ []) verb
    then ok (
        action_of "stress" target (
          copy_key "workers" inject
            (insert "amount" (index inject verb) (insert "resource" (str verb) []))))
    else if verb == "cpu_limit"
    then ok (action_of "cpu_limit" target (insert "limit" (index inject "cpu_limit") []))
    else if verb == "mem_limit"
    then ok (action_of "mem_limit" target (insert "limit" (index inject "mem_limit") []))
    else if verb == "pause"
    then ok (action_of "pause" target (insert "signal" (str "SIGSTOP") []))
    else if verb == "kill"
    then ok (action_of "kill" target (insert "signal" (str "SIGKILL") []))
    else if verb == "graceful"
    then ok (action_of "graceful" target (insert "signal" (str "SIGTERM") []))
    else ok (action_of "" target [])

unfoldable pub translate_docker : Config.Fault → Result Error Action
translate_docker f = do
  d ← docker_of f.verb f.target f.inject
  ok (record { fault = f; kind = docker; toxic = none; docker = some d; owner = "" })

-- the check of `workers:`
unfoldable pub workers_error : Dict Value → Option Error
workers_error inject = elim (lookup "workers" inject) [
  | none ↦ none
  | some w ↦ if validate_workers w then some (bad_workers w) else none
]

-- the switch at the end of Translate
unfoldable pub dispatch : Config.Fault → Result Error Action
dispatch f =
    if contains network_verbs f.verb
    then translate_toxic f
    else if contains service_verbs f.verb
    then translate_docker f
    else err (unsupported_verb f.verb)

-- what follows when the verb belongs to this package
unfoldable pub translate_own : Config.Fault → Result Error Action
translate_own f = do
  reject_some (workers_error f.inject)
  reject_if (f.target == "") no_target
  dispatch f

unfoldable pub translate : Config.Fault → Result Error Action
translate f = elim (lookup f.verb fault_verb_modifiers) [
  | none ↦ err (unknown_verb f.verb)
  | some allowed ↦ elim (stray_key f.verb allowed f.inject) [
    | some k ↦ err (bad_modifier f.verb k)
    | none ↦ elim (lookup f.verb other_layer_owner) [
      | some owner ↦
          ok (record { fault = f; kind = passed; toxic = none; docker = none; owner = owner })
      | none ↦ translate_own f
    ]
  ]
]
