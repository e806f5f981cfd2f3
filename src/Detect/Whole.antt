-- ===== src/Detect/Whole.antt =====
-- internal/detect/compose.go: the whole detection of a parsed project.
pub mod Steps
use tortureu.Base.{
  ℕ, String, Bool, true, false, List, [], ◌∷◌, ◌++◌, Option, none, some, ◌==◌, Dict, lookup, eqb,
  if◌then◌else◌, ◌||◌, is_some,
}
use tortureu.Base.Decimal.{show}
use tortureu.Base.Result.{Result, ok, err, ◌>>=◌}
use tortureu.Base.Text.{concat}
use tortureu.Compose.{Service, Port, service_at, sorted_names}
use tortureu.Detect.{
  System, Dep, Obs, Fact, fact_unknown, fact_true, fact_false, no_system, unrecognized_image,
}
use tortureu.Detect.Images.{ObsPattern, dep_type, match_obs, is_otel_collector, default_ports}
use tortureu.Detect.Sut.{choose_sut, listen_ports, SutError}
use tortureu.Detect.Hosts.{detect_external_hosts, note_host}
use tortureu.Detect.Manifests.{
  detect_lockfiles, detect_service_manifests, service_for_dir, finalize_manifest_facts,
}
use tortureu.Detect.Directory.{Directory}

pub data Error : Type 0 where
  bad_service : SutError → Error
  unreadable : String → Error

abbrev well_known : String → String → String
well_known name typ = elim (lookup typ default_ports) [
  | none ↦ ""
  | some port ↦ concat (name ∷ ":" ∷ port ∷ [])
]

-- the first declared port, or the well-known one
unfoldable pub address_of : String → String → List Port → String
unfolding default_ports
address_of name typ [] = well_known name typ
address_of name typ (p ∷ ps) =
    if eqb p.target 0 then well_known name typ else concat (name ∷ ":" ∷ show p.target ∷ [])

abbrev pub note_address : String → System → System
note_address address sys = if address == "" then sys else note_host address "internal" sys

abbrev pub new_dep : String → String → String → Dep
new_dep name typ address = record {
  name = name;
  typ = typ;
  address = address;
  clients = [];
  client_refs = [];
}

abbrev pub add_dep : Dep → System → System
add_dep d sys = record sys { deps = sys.deps ++ (d ∷ []) }

abbrev pub observe : String → ObsPattern → System → System
observe image p sys = record sys {
  obs = record sys.obs {
    traces = sys.obs.traces || p.traces;
    metrics = sys.obs.metrics || p.metrics;
    logs = sys.obs.logs || p.logs;
  };
  otel_collector_seen = is_otel_collector image || sys.otel_collector_seen;
}

abbrev pub note_image : String → String → List Port → String → System → System
note_image name image ports typ sys =
    if typ == ""
    then record sys { gaps = sys.gaps ++ (unrecognized_image image name ∷ []) }
    else (let address = address_of name typ ports in
        add_dep (new_dep name typ address) (note_address address sys))

-- the body of the loop over the services
unfoldable pub classify_service : String → Service → System → System
unfolding listen_ports match_obs is_otel_collector dep_type address_of
classify_service name svc sys =
    if name == sys.sut
    then record sys { sut_ports = listen_ports svc.ports svc.expose }
    else if is_some svc.build
    then sys
    else if svc.image == ""
    then sys
    else elim (match_obs svc.image) [
      | some p ↦ observe svc.image p sys
      | none ↦ note_image name svc.image svc.ports (dep_type svc.image) sys
    ]

unfoldable pub classify_services : Dict Service → List String → System → System
unfolding classify_service
classify_services services [] sys = sys
classify_services services (name ∷ names) sys =
    classify_services services names (classify_service name (service_at services name) sys)

abbrev pub with_max_confidence : System → System
with_max_confidence sys = record sys {
  obs = record sys.obs { max_confidence = if sys.obs.traces then "caused" else "correlated" };
}

-- detectFileCoverage's three facts
abbrev pub FileCoverage : Type 0
FileCoverage = Bool × Bool × Bool

abbrev pub with_file_coverage : FileCoverage → System → System
with_file_coverage (openapi, proto, k8s) sys = record sys {
  coverage = record sys.coverage { openapi = openapi; proto = proto; k8s = k8s };
}

unfoldable pub lacks_otel : System → Fact
lacks_otel sys =
    if sys.otel_client_seen || sys.otel_collector_seen
    then fact_false
    else if sys.manifest_unread
    then fact_unknown
    else fact_true

abbrev pub settle : System → System
settle sys =
    let s = finalize_manifest_facts sys in
    record s { coverage = record s.coverage { lacks_otel = lacks_otel s } }

abbrev pub unread : Result String System → Result Error System
unread (err e) = err (unreadable e)
unread (ok sys) = ok sys

abbrev pub chosen : Result SutError System → Result Error System
chosen (err e) = err (bad_service e)
chosen (ok sys) = ok sys

abbrev pub covered : Result String FileCoverage → System → Result Error System
covered (err e) sys = err (unreadable e)
covered (ok c) sys = ok (with_file_coverage c sys)

-- what is read besides the compose file
pub record Surroundings : Type 0 where
  pub parse_url : String → Option (String × String)
  pub env_lines : String → List String
  pub files : String → Directory
  pub clean : String → String  -- filepath.Clean
  pub file_coverage : Result String FileCoverage

-- the part that reads the compose file alone, and the environment
abbrev pub read_compose : Surroundings → Dict Service → System → System
read_compose around services sys =
    let names = sorted_names services in
    detect_external_hosts around.parse_url around.env_lines names services
      (with_max_confidence (classify_services services names sys))

-- the part that reads manifests
abbrev pub read_manifests : Surroundings → String → Dict Service → System → Result Error System
read_manifests around dir services sys =
    let owner = service_for_dir around.clean services dir (sorted_names services) in
    unread (detect_lockfiles around.files around.clean dir owner sys)
    >>= (λ s. unread (detect_service_manifests around.files around.clean services dir s))
    >>= (λ s. covered around.file_coverage s)

-- DetectWithSUT behind compose-go
unfoldable pub detect_with_sut : Surroundings → String → Dict Service → String → Result Error System
unfolding choose_sut classify_services detect_external_hosts detect_lockfiles service_for_dir
    detect_service_manifests finalize_manifest_facts lacks_otel
detect_with_sut around dir services requested =
    chosen (choose_sut no_system services (sorted_names services) requested)
    >>= (λ sys. read_manifests around dir services (read_compose around services sys))
    >>= (λ sys. ok (settle sys))
