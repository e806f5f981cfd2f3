-- ===== src/Egress.antt =====
-- internal/egress: every host gets one class, and a host without a known class stops the run.
pub mod Classify
pub mod Audit
use tortureu.Base.{
  String, Bool, true, false, List, [], ◌∷◌, Option, none, some, ◌==◌, ◌||◌, not, if◌then◌else◌,
  Dict, lookup, insert, has_key, ℤ, pos,
}
use tortureu.Float64
use tortureu.Float64.{Float64}
use tortureu.Value.{Value, float, int}
use tortureu.Config
use tortureu.Config.{EgressHost}
use tortureu.Verdict.{EgressAudit}
use tortureu.Base.Sort.{sort_strings}

abbrev pub Class : Type 0
Class = String

abbrev pub class_internal : Class
class_internal = "internal"

abbrev pub class_mock : Class
class_mock = "mock"

abbrev pub class_real : Class
class_real = "real"

abbrev pub class_block : Class
class_block = "block"

abbrev pub class_unclassified : Class
class_unclassified = "unclassified"

unfoldable pub is_known_class : Class → Bool
is_known_class c =
    c == class_internal
    || c == class_mock
    || c == class_real
    || c == class_block
    || c == class_unclassified

unfoldable pub classify_one : String → String → Config.Egress → Class
unfolding is_known_class
classify_one host dclass cfg = elim (lookup host cfg.hosts) [
  | some eh ↦ if is_known_class eh.class then eh.class else class_unclassified
  | none ↦ if dclass == class_internal then class_internal else class_unclassified
]

-- the loop over detect's hosts
unfoldable pub classify_detected : Config.Egress → Dict String → Dict Class → Dict Class
classify_detected cfg [] classes = classes
classify_detected cfg ((host, dclass) ∷ rest) classes =
    classify_detected cfg rest (insert host (classify_one host dclass cfg) classes)

-- the loop over the user's hosts
unfoldable pub classify_declared : Config.Egress → Dict EgressHost → Dict Class → Dict Class
classify_declared cfg [] classes = classes
classify_declared cfg ((host, eh) ∷ rest) classes =
    classify_declared cfg rest
      (if has_key host classes then classes else insert host (classify_one host "" cfg) classes)

unfoldable pub classify : Dict String → Config.Egress → Dict Class
unfolding classify_detected classify_declared
classify detected cfg = classify_declared cfg cfg.hosts (classify_detected cfg detected [])

-- the loop of CheckUnclassified
unfoldable pub unclassified_hosts : Dict Class → List String
unfolding is_known_class
unclassified_hosts [] = []
unclassified_hosts ((host, class) ∷ rest) =
    let hosts = unclassified_hosts rest in
    if class == class_unclassified || not (is_known_class class) then host ∷ hosts else hosts

-- `some hosts` is the *UnclassifiedError with those hosts
unfoldable pub check_unclassified : Dict Class → Option (List String)
check_unclassified classes = elim (unclassified_hosts classes) [
  | [] ↦ none
  | h ∷ hs ↦ some (sort_strings (h ∷ hs))
]

abbrev pub no_audit : EgressAudit
no_audit = record { mocked = []; blocked = []; real = []; unclassified = [] }

-- the cases of Audit's switch
pub data Bucket : Type 0 where
  mocked blocked real unclassified excluded : Bucket

unfoldable pub bucket_of : Class → Bucket
bucket_of class =
    if class == class_mock
    then mocked
    else if class == class_block
    then blocked
    else if class == class_real
    then real
    else if class == class_unclassified
    then unclassified
    else if class == class_internal
    then excluded
    else unclassified

unfoldable pub append_to : Bucket → String → EgressAudit → EgressAudit
append_to mocked host a = record a { mocked = host ∷ a.mocked }
append_to blocked host a = record a { blocked = host ∷ a.blocked }
append_to real host a = record a { real = host ∷ a.real }
append_to unclassified host a = record a { unclassified = host ∷ a.unclassified }
append_to excluded host a = a

-- the loop; `append` in its order is `∷` from the back
unfoldable pub audit : Dict Class → EgressAudit
audit [] = no_audit
audit ((host, class) ∷ rest) = append_to (bucket_of class) host (audit rest)

-- CheckMultiplier's loop
unfoldable pub has_real : Dict Class → Bool
has_real [] = false
has_real ((host, class) ∷ rest) = if class == class_real then true else has_real rest

-- `true` is the RealTrafficNotAllowedError
unfoldable pub check_multiplier : Dict Class → Float64 → Bool → Bool
unfolding has_real Float64.lt Float64.eq
check_multiplier classes multiplier allow_real_traffic =
    if Float64.le multiplier (Float64.of_int (pos 1)) || allow_real_traffic
    then false
    else has_real classes

-- v.(float64) or v.(int) as a double
unfoldable pub as_float : Value → Option Float64
as_float (float x) = some x
as_float (int n) = some (Float64.of_int n)
as_float _ = none

-- `true` is the error
unfoldable pub out_of_fraction : Float64 → Bool
unfolding Float64.lt
out_of_fraction f = Float64.lt f (Float64.of_int (pos 0)) || Float64.lt (Float64.of_int (pos 1)) f

unfoldable pub validate_error_rate : Dict Value → Bool
unfolding as_float out_of_fraction
validate_error_rate inject = elim (lookup "error_rate" inject) [
  | none ↦ false
  | some v ↦ elim (as_float v) [ none ↦ true | some f ↦ out_of_fraction f ]
]

-- BuildTopology's overlay: which networks have no way out, and which services join which networks
pub record Topology : Type 0 where
  pub networks : Dict Bool  -- the `internal` flag
  pub services : Dict (List String)

unfoldable pub build_topology : String → String → String → Topology
build_topology sut_network egress_network proxy_service = record {
  networks = insert egress_network false (insert sut_network true []);
  services = insert proxy_service (sut_network ∷ egress_network ∷ []) [];
}
