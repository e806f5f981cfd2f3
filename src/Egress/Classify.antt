-- ===== src/Egress/Classify.antt =====
-- What class a host gets: the user's where it is known, else `internal` for what detection found in
-- the compose graph, else `unclassified`.
use tortureu.Base.{
  String, ◌≡◌, refl, Option, none, some, [], ◌∷◌, arith, eq_iff, ◌==◌, Dict, lookup, insert,
  has_key, HasUniqueKeys, lookup-insert, if◌then◌else◌,
}
use tortureu.Config
use tortureu.Config.{EgressHost}
use tortureu.Egress.{
  Class, class_internal, class_unclassified, is_known_class, classify_one, classify_detected,
  classify_declared, classify,
}

abbrev first : Option Class → Option Class → Option Class
first (some c) other = some c
first none other = other

abbrev detected_class : Config.Egress → Dict String → String → Option Class
detected_class cfg detected h = elim (lookup h detected) [
  | some d ↦ some (classify_one h d cfg)
  | none ↦ none
]

lookup-classify_detected :
    (cfg : Config.Egress) (h : String) (detected : Dict String) (acc : Dict Class)
    → HasUniqueKeys detected
    → lookup h (classify_detected cfg detected acc)
      ≡ first (detected_class cfg detected h) (lookup h acc)
unfolding classify_detected
lookup-classify_detected cfg h [] acc u = refl
lookup-classify_detected cfg h ((k, d) ∷ rest) acc u = ground (
  arith,
  eq_iff k h,
  lookup-insert k h (classify_one k d cfg) acc,
  lookup-classify_detected cfg h rest (insert k (classify_one k d cfg) acc) u.1,
)

abbrev declared_class : Config.Egress → Dict EgressHost → String → Option Class
declared_class cfg hosts h = if has_key h hosts then some (classify_one h "" cfg) else none

lookup-classify_declared :
    (cfg : Config.Egress) (h : String) (hosts : Dict EgressHost) (acc : Dict Class)
    → lookup h (classify_declared cfg hosts acc) ≡ first (lookup h acc) (declared_class cfg hosts h)
unfolding classify_declared
lookup-classify_declared cfg h [] acc = ground arith
lookup-classify_declared cfg h ((k, eh) ∷ rest) acc = ground (
  arith,
  eq_iff k h,
  lookup-insert k h (classify_one k "" cfg) acc,
  lookup-classify_declared cfg h rest acc,
  lookup-classify_declared cfg h rest (insert k (classify_one k "" cfg) acc),
)

-- What R-DC2-1 says of one host, on the two sources alone.
abbrev pub resolved : Dict String → Config.Egress → String → Option Class
resolved detected cfg h = elim (lookup h cfg.hosts) [
  | some eh ↦ some (if is_known_class eh.class then eh.class else class_unclassified)
  | none ↦ elim (lookup h detected) [
    | some d ↦ some (if d == class_internal then class_internal else class_unclassified)
    | none ↦ none
  ]
]

-- The class of every host, for every iteration order of the two maps: the user's class where the user
-- names the host (unclassified when that class is not a known one), else internal or unclassified
-- for what detection found, and no class for a host that neither source names.
pub lookup-classify :
    (detected : Dict String) (cfg : Config.Egress) (h : String)
    → HasUniqueKeys detected
    → lookup h (classify detected cfg) ≡ resolved detected cfg h
unfolding classify classify_one
lookup-classify detected cfg h u = ground (
  arith,
  lookup-classify_detected cfg h detected [] u,
  lookup-classify_declared cfg h cfg.hosts (classify_detected cfg detected []),
)
