-- ===== src/Fault.antt =====
-- internal/fault/translate.go: one parsed fault becomes a Toxiproxy toxic, a Docker action, or is
-- passed over to the layer that owns its verb.
pub mod Values
pub mod Translate
pub mod Manager
use tortureu.Base.{String, Bool, true, false, List, [], ◌∷◌, Option, none, some, Dict, lookup}
use tortureu.Value.{Value, null}
use tortureu.Config
use tortureu.Base.Result.{Result}

pub data ActionKind : Type 0 where
  toxic docker passed : ActionKind

pub record Toxic : Type 0 where
  pub type : String
  pub disable : Bool
  pub attributes : Dict Value

pub record DockerAction : Type 0 where
  pub kind : String
  pub container : String
  pub args : Dict Value

-- the two payloads are pointers, `none` is nil
pub record Action : Type 0 where
  pub fault : Config.Fault
  pub kind : ActionKind
  pub toxic : Option Toxic
  pub docker : Option DockerAction
  pub owner : String

pub data Error : Type 0 where
  unknown_verb : String → Error
  bad_modifier : String → String → Error
  bad_workers : Value → Error
  no_target : Error
  unsupported_verb : String → Error
  bad_value : String → Value → Error

-- m[k] where a missing key reads as nil
abbrev pub index : Dict Value → String → Value
index m k = elim (lookup k m) [ none ↦ null | some v ↦ v ]

unfoldable pub network_verbs : List String
network_verbs = "latency" ∷ "down" ∷ "bandwidth" ∷ "slicer" ∷ "timeout" ∷ "reset_peer" ∷ []

unfoldable pub service_verbs : List String
service_verbs =
    "cpu" ∷ "mem" ∷ "io" ∷ "fd" ∷ "cpu_limit" ∷ "mem_limit" ∷ "pause" ∷ "kill" ∷ "graceful" ∷ []

unfoldable pub fault_verb_modifiers : Dict (List String)
fault_verb_modifiers =
    ("latency", "jitter" ∷ [])
    ∷ ("down", [])
    ∷ ("bandwidth", [])
    ∷ ("slicer", "delay" ∷ [])
    ∷ ("error_rate", "status" ∷ [])
    ∷ ("cpu", "workers" ∷ [])
    ∷ ("mem", "workers" ∷ [])
    ∷ ("io", "workers" ∷ [])
    ∷ ("fd", "workers" ∷ [])
    ∷ ("cpu_limit", [])
    ∷ ("mem_limit", [])
    ∷ ("pause", [])
    ∷ ("kill", [])
    ∷ ("graceful", [])
    ∷ ("poison_pill", "count" ∷ [])
    ∷ ("duplicate", [])
    ∷ ("timeout", [])
    ∷ ("reset_peer", [])
    ∷ []

unfoldable pub other_layer_owner : Dict String
other_layer_owner =
    ("error_rate", "internal/egress")
    ∷ ("poison_pill", "internal/queuefault")
    ∷ ("duplicate", "internal/queuefault")
    ∷ []
