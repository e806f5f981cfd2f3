-- ===== src/Detect/Images.antt =====
-- internal/detect/compose.go: what an image is.
use tortureu.Base.{
  String, Bool, true, false, List, [], ◌∷◌, Option, none, some, ◌==◌, Dict, if◌then◌else◌, ◌&&◌,
}
use tortureu.Base.Strings.{cut_last}
use tortureu.Base.Text.{has_prefix, has_suffix, has_substring, trim_prefix}

pub record DepPattern : Type 0 where
  pub typ : String
  pub pattern : String

abbrev by : String → String → DepPattern
by typ pattern = record { typ = typ; pattern = pattern }

unfoldable pub image_patterns : List DepPattern
image_patterns =
    by "postgresql" "postgres*"
    ∷ by "mysql" "mysql*"
    ∷ by "mysql" "mariadb*"
    ∷ by "redis" "redis*"
    ∷ by "redis" "valkey*"
    ∷ by "mongodb" "mongo*"
    ∷ by "kafka" "*kafka*"
    ∷ by "kafka" "redpanda*"
    ∷ by "rabbitmq" "rabbitmq*"
    ∷ by "nats" "nats*"
    ∷ by "elasticsearch" "elasticsearch*"
    ∷ by "elasticsearch" "opensearch*"
    ∷ by "cassandra" "cassandra*"
    ∷ by "cassandra" "scylla*"
    ∷ by "cockroach" "cockroachdb*"
    ∷ by "etcd" "*etcd*"
    ∷ by "consul" "consul*"
    ∷ by "zookeeper" "zookeeper*"
    ∷ by "oracle" "*oracle*"
    ∷ by "oracle" "*oracledb*"
    ∷ by "minio" "minio*"
    ∷ by "mqtt" "mosquitto*"
    ∷ by "mqtt" "emqx*"
    ∷ by "aws" "localstack*"
    ∷ by "smtp" "mailhog*"
    ∷ by "smtp" "mailpit*"
    ∷ []

unfoldable pub otel_collector_pattern : String
otel_collector_pattern = "otel/opentelemetry-collector*"

pub record ObsPattern : Type 0 where
  pub pattern : String
  pub traces : Bool
  pub metrics : Bool
  pub logs : Bool

abbrev seen_by : String → Bool → Bool → Bool → ObsPattern
seen_by pattern traces metrics logs = record {
  pattern = pattern;
  traces = traces;
  metrics = metrics;
  logs = logs;
}

unfoldable pub obs_patterns : List ObsPattern
unfolding otel_collector_pattern
obs_patterns =
    seen_by "jaeger*" true false false
    ∷ seen_by "tempo*" true false false
    ∷ seen_by "zipkin*" true false false
    ∷ seen_by "prom/prometheus*" false true false
    ∷ seen_by "victoriametrics*" false true false
    ∷ seen_by "grafana/loki*" false false true
    ∷ seen_by otel_collector_pattern true true false
    ∷ []

unfoldable pub default_ports : Dict String
default_ports =
    ("postgresql", "5432")
    ∷ ("mysql", "3306")
    ∷ ("redis", "6379")
    ∷ ("mongodb", "27017")
    ∷ ("kafka", "9092")
    ∷ ("rabbitmq", "5672")
    ∷ ("nats", "4222")
    ∷ ("elasticsearch", "9200")
    ∷ ("cassandra", "9042")
    ∷ ("cockroach", "26257")
    ∷ ("etcd", "2379")
    ∷ ("consul", "8500")
    ∷ ("zookeeper", "2181")
    ∷ ("oracle", "1521")
    ∷ ("minio", "9000")
    ∷ ("mqtt", "1883")
    ∷ ("smtp", "1025")
    ∷ []

-- strings.TrimSuffix of one character
abbrev pub trim_last : String → String → String
trim_last suffix String.[] = ""
trim_last suffix (String.◌∷◌ c s) =
    let rest = trim_last suffix s in if String.◌∷◌ c s == suffix then "" else String.◌∷◌ c rest

unfoldable pub strip_tag : String → String
unfolding cut_last has_substring
strip_tag image = elim (cut_last b':' image) [
  | none ↦ image
  | some (before, after) ↦ if has_substring after "/" then image else before
]

unfoldable pub match_pattern : String → String → Bool
unfolding has_prefix has_suffix has_substring trim_prefix
match_pattern s pattern =
    let prefix_wild = has_prefix pattern "*" in
    let suffix_wild = has_suffix pattern "*" in
    let core = trim_last "*" (trim_prefix pattern "*") in
    if prefix_wild && suffix_wild
    then has_substring s core
    else if suffix_wild
    then has_prefix s core
    else if prefix_wild
    then has_suffix s core
    else s == core

abbrev first_type : String → List DepPattern → String
first_type ref [] = ""
first_type ref (p ∷ ps) = if match_pattern ref p.pattern then p.typ else first_type ref ps

-- "" where no pattern matches
unfoldable pub dep_type : String → String
unfolding strip_tag match_pattern image_patterns
dep_type image = first_type (strip_tag image) image_patterns

abbrev first_obs : String → List ObsPattern → Option ObsPattern
first_obs ref [] = none
first_obs ref (p ∷ ps) = if match_pattern ref p.pattern then some p else first_obs ref ps

unfoldable pub match_obs : String → Option ObsPattern
unfolding strip_tag match_pattern obs_patterns
match_obs image = first_obs (strip_tag image) obs_patterns

unfoldable pub is_otel_collector : String → Bool
unfolding strip_tag match_pattern otel_collector_pattern
is_otel_collector image = match_pattern (strip_tag image) otel_collector_pattern
