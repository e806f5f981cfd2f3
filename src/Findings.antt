-- ===== src/Findings.antt =====
-- internal/run/findings.go: what a broken assertion is attributed to, and where to look.
pub mod Candidates
pub mod Thresholds
pub mod Chain
use tortureu.Base.{
  ℕ, String, Bool, true, false, List, [], ◌∷◌, ◌++◌, Option, none, some, ◌==◌, ◌||◌, not, Dict,
  lookup, contains, if◌then◌else◌, length, eqb,
}
use tortureu.Base.Decimal.{append_text}
use tortureu.Base.Sort.{sort_strings}
use tortureu.Base.Strings.{split_host_port}
use tortureu.Base.Text.{has_substring}
use tortureu.Config
use tortureu.Verdict.{Candidate, Cause, Finding, Confidence, correlated, ambiguous}

-- The parts that are read of internal/detect's System and of internal/doctor's findings.
pub record Dep : Type 0 where
  pub name : String
  pub address : String
  pub clients : List String

pub record AuditFinding : Type 0 where
  pub dep_name : String
  pub library : String

pub record System : Type 0 where
  pub sut : String
  pub lang : String
  pub deps : List Dep
  pub max_confidence : Confidence

unfoldable pub confidence_for : ℕ → Confidence
confidence_for active = if eqb active 1 then correlated else ambiguous

unfoldable pub client_knob_patterns : List (String × List String)
client_knob_patterns =
    ("jackc/pgx", "MaxConns" ∷ "MinConns" ∷ "ConnConfig.ConnectTimeout" ∷ [])
    ∷ ("lib/pq", "MaxOpenConns" ∷ "MaxIdleConns" ∷ "ConnMaxLifetime" ∷ [])
    ∷ ("go-redis/redis", "PoolSize" ∷ "DialTimeout" ∷ "ReadTimeout" ∷ "WriteTimeout" ∷ [])
    ∷ ("redis/go-redis", "PoolSize" ∷ "DialTimeout" ∷ "ReadTimeout" ∷ "WriteTimeout" ∷ [])
    ∷ ("gomodule/redigo", "MaxIdle" ∷ "MaxActive" ∷ "IdleTimeout" ∷ [])
    ∷ ("cenkalti/backoff", "MaxRetries" ∷ "InitialInterval" ∷ "MaxElapsedTime" ∷ [])
    ∷ (
      "net/http",
      "Client.Timeout" ∷ "Transport.ResponseHeaderTimeout" ∷ "Transport.DialContext"
          ∷ "Transport.TLSHandshakeTimeout" ∷ "Transport.MaxIdleConnsPerHost" ∷ [],
    )
    ∷ ("org.postgresql:postgresql", "connectTimeout" ∷ "socketTimeout" ∷ "loginTimeout" ∷ [])
    ∷ ("com.zaxxer:HikariCP", "maximumPoolSize" ∷ "connectionTimeout" ∷ "maxLifetime" ∷ [])
    ∷ (
      "redis.clients:jedis",
      "JedisPoolConfig.maxTotal" ∷ "JedisClientConfig.connectionTimeoutMillis"
          ∷ "JedisClientConfig.socketTimeoutMillis" ∷ [],
    )
    ∷ ("io.lettuce:lettuce-core", "RedisURI.timeout" ∷ "SocketOptions.connectTimeout" ∷ [])
    ∷ ("kafka-clients", "request.timeout.ms" ∷ "delivery.timeout.ms" ∷ "max.block.ms" ∷ [])
    ∷ ("spring-kafka", "request.timeout.ms" ∷ "delivery.timeout.ms" ∷ "max.block.ms" ∷ [])
    ∷ []

unfoldable pub exact_client_knobs : Dict (List String)
exact_client_knobs =
    ("pg", "pool" ∷ "checkout_timeout" ∷ "connect_timeout" ∷ [])
    ∷ ("mysql2", "pool" ∷ "checkout_timeout" ∷ "connect_timeout" ∷ "read_timeout" ∷ [])
    ∷ ("redis", "timeout" ∷ "connect_timeout" ∷ "reconnect_attempts" ∷ [])
    ∷ []

unfoldable pub manifest_for : String → String
manifest_for lang =
    if lang == "go"
    then "go.mod"
    else if lang == "node"
    then "package.json"
    else if lang == "python"
    then "pyproject.toml"
    else ""

unfoldable pub dep_for_target : List Dep → String → Option Dep
dep_for_target [] target = none
dep_for_target (d ∷ ds) target = if d.address == target then some d else dep_for_target ds target

-- the loop over the patterns
unfoldable pub pattern_knobs : List (String × List String) → String → List String
pattern_knobs [] client = []
pattern_knobs ((substr, knobs) ∷ ps) client =
    if has_substring client substr then knobs else pattern_knobs ps client

unfoldable pub knobs_for : String → List String
unfolding pattern_knobs
knobs_for client = elim (lookup client exact_client_knobs) [
  | some knobs ↦ knobs
  | none ↦ pattern_knobs client_knob_patterns client
]

abbrev pub candidate : String → String → Candidate
candidate source library = record { library = library; source = source; knobs = knobs_for library }

-- The libraries seen so far and the candidates appended, by a loop that skips a library it has seen.
abbrev pub Listed : Type 0
Listed = List String × List Candidate

-- if seen[c.Library] { continue }; seen[c.Library] = true; candidates = append(candidates, c)
abbrev pub list_candidate : Listed → Candidate → Listed
list_candidate (seen, cs) c =
    if contains seen c.library then (seen, cs) else (c.library ∷ seen, cs ++ (c ∷ []))

unfoldable pub list_candidates : Listed → List Candidate → Listed
list_candidates l [] = l
list_candidates l (c ∷ cs) = list_candidates (list_candidate l c) cs

-- the loop over a dependency's clients
unfoldable pub list_clients : String → Listed → List String → Listed
list_clients source l [] = l
list_clients source l (client ∷ rest) =
    list_clients source (list_candidate l (candidate source client)) rest

-- the findings about one dependency that name a library
unfoldable pub audit_libraries : String → List AuditFinding → List String
audit_libraries dep_name [] = []
audit_libraries dep_name (a ∷ later) =
    if not (a.dep_name == dep_name) || (a.library == "")
    then audit_libraries dep_name later
    else a.library ∷ audit_libraries dep_name later

unfoldable pub candidates_from_audit : String → List AuditFinding → String → List Candidate
unfolding list_clients audit_libraries
candidates_from_audit dep_name audit source =
    (list_clients source ([], []) (audit_libraries dep_name audit)).1

unfoldable pub host_name_of : String → String
unfolding split_host_port
host_name_of host_port = elim (split_host_port host_port) [
  | none ↦ host_port
  | some parts ↦ let (host, port) = parts in host
]

abbrev dep_name : Option Dep → String → String
dep_name none target = host_name_of target
dep_name (some d) target = d.name

abbrev clients_of : Option Dep → List String
clients_of none = []
clients_of (some d) = d.clients

-- the keys that join a fault to the audit: the dependency and, beside it, the system under test
unfoldable pub audit_keys : String → String → List String
audit_keys name sut = if (sut == "") || (sut == name) then name ∷ [] else name ∷ sut ∷ []

unfoldable pub list_audit : String → List AuditFinding → List String → Listed → Listed
unfolding list_candidates candidates_from_audit
list_audit source audit [] l = l
list_audit source audit (key ∷ keys) l =
    list_audit source audit keys (list_candidates l (candidates_from_audit key audit source))

unfoldable pub build_candidates :
    Config.Fault → List Dep → List AuditFinding → String → String → List Candidate
unfolding dep_for_target list_clients list_audit audit_keys host_name_of manifest_for
build_candidates f deps audit lang sut =
    let dep = dep_for_target deps f.target in
    let source = manifest_for lang in
    (list_audit source audit (audit_keys (dep_name dep f.target) sut)
      (list_clients source ([], []) (clients_of dep))).1

unfoldable pub no_fault_candidate_source : String
no_fault_candidate_source = " (no active fault — detected client, not a diagnosis)"

-- byAddress[addr], where a later dependency replaces an earlier one
unfoldable pub dep_at : List Dep → String → Option Dep
dep_at [] address = none
dep_at (d ∷ ds) address = elim (dep_at ds address) [
  | some later ↦ some later
  | none ↦ if d.address == address then some d else none
]

abbrev list_dep : String → List AuditFinding → Option Dep → Listed → Listed
list_dep source audit none l = l
list_dep source audit (some d) l =
    list_candidates (list_clients source l (sort_strings d.clients))
      (candidates_from_audit d.name audit source)

unfoldable pub list_addresses :
    String → List AuditFinding → List Dep → List String → Listed → Listed
unfolding list_candidates list_clients candidates_from_audit dep_at
list_addresses source audit deps [] l = l
list_addresses source audit deps (a ∷ later) l =
    list_addresses source audit deps later (list_dep source audit (dep_at deps a) l)

abbrev addresses : List Dep → List String
addresses [] = []
addresses (d ∷ ds) = d.address ∷ addresses ds

unfoldable pub build_candidates_from_detected_deps :
    List Dep → List AuditFinding → String → List Candidate
unfolding list_addresses manifest_for no_fault_candidate_source
build_candidates_from_detected_deps deps audit lang =
    (list_addresses (append_text (manifest_for lang) no_fault_candidate_source) audit deps
      (sort_strings (addresses deps)) ([], [])).1

unfoldable pub fault_window : Config.Fault → List String
fault_window f =
    if f.for == "" then f.at ∷ [] else f.at ∷ append_text f.at (append_text "+" f.for) ∷ []

abbrev pub cause_of : Config.Fault → Cause
cause_of f = record {
  fault = f.name;
  target = f.target;
  inject = f.inject;
  window = fault_window f;
}

-- the loop over the active faults, deduplicated across them
unfoldable pub list_faults : System → List AuditFinding → List Config.Fault → Listed → Listed
unfolding list_candidates build_candidates
list_faults sys audit [] l = l
list_faults sys audit (f ∷ fs) l =
    list_faults sys audit fs
      (list_candidates l (build_candidates f sys.deps audit sys.lang sys.sut))

unfoldable pub attribute : Finding → List Config.Fault → System → List AuditFinding → Finding
unfolding list_faults build_candidates_from_detected_deps fault_window
attribute finding [] sys audit = record finding {
  candidates = build_candidates_from_detected_deps sys.deps audit sys.lang;
}
attribute finding (f ∷ []) sys audit = record finding {
  cause = some (cause_of f);
  candidates = finding.candidates ++ (list_faults sys audit (f ∷ []) ([], [])).1;
}
attribute finding (f ∷ g ∷ fs) sys audit = record finding {
  candidates = finding.candidates ++ (list_faults sys audit (f ∷ g ∷ fs) ([], [])).1;
}
