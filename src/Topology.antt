-- ===== src/Topology.antt =====
-- internal/run/topology.go: the overlay that moves the services of a compose project onto a network
-- without a way out, and what removes the services that it disables.
pub mod Commands
pub mod Isolation
pub mod Disabled
use tortureu.Base.{
  String, Bool, true, false, List, [], ◌∷◌, ◌++◌, Option, none, some, ◌==◌, Dict, lookup, insert,
  contains, map, if◌then◌else◌, has_key, not,
}
use tortureu.Base.Result.{Result, ok, err, ◌>>=◌}
use tortureu.Base.Text.{concat}
use tortureu.Base.Sort.{sort_strings}
use tortureu.Compose.{Service, Build, no_service, service_at, sorted_names}
use tortureu.Egress.{Topology}
use tortureu.Findings.{host_name_of}

unfoldable pub proxy_image : String
proxy_image = "ghcr.io/shopify/toxiproxy:2.9.0"

unfoldable pub proxy_control_port : String
proxy_control_port = "18474"

unfoldable pub disabled_profile : String
disabled_profile = "tortureu-disabled"

pub record OverlayNetwork : Type 0 where
  pub name : String
  pub is_internal : Bool

-- the two forms of a service's `networks:`
pub data Networks : Type 0 where
  plain : List String → Networks
  attached : Dict (List String) → Networks

pub record OverlayService : Type 0 where
  pub image : String
  pub build : Option Build
  pub networks : Networks
  pub ports : List String
  pub environment : Dict String
  pub command : List String
  pub profiles : List String
  pub depends_on : Option (List String)  -- the list under `!override`

pub record Overlay : Type 0 where
  pub networks : Dict OverlayNetwork
  pub services : Dict OverlayService

pub data Error : Type 0 where
  no_abs_path cannot_load cannot_write cannot_run : String → Error
  no_internal_network no_proxy_service : Error
  no_matching_service : String → Error

-- the entries that are not nil
unfoldable pub string_env : Dict (Option String) → Dict String
string_env [] = []
string_env ((k, none) ∷ env) = string_env env
string_env ((k, some v) ∷ env) = (k, v) ∷ string_env env

unfoldable pub backend_service_name : String → String
backend_service_name hostname = concat (hostname ∷ "-tortureu-backend" ∷ [])

-- the loop over the sorted names: the entries, and whether one has changed
unfoldable pub rewritten : List String → List String → List String × Bool
unfolding backend_service_name
rewritten hosts [] = ([], false)
rewritten hosts (name ∷ names) =
    let (entries, changed) = rewritten hosts names in
    if contains hosts name
    then (backend_service_name name ∷ entries, true)
    else (name ∷ entries, changed)

abbrev pub if_changed : List String × Bool → Option (List String)
if_changed (entries, false) = none
if_changed (entries, true) = some entries

unfoldable pub rewrite_depends_on : List String → List String → Option (List String)
unfolding rewritten
rewrite_depends_on hosts deps = if_changed (rewritten hosts (sort_strings deps))

unfoldable pub overlay_build_for : Service → Option Build
overlay_build_for svc = elim svc.build [
  | none ↦ none
  | some b ↦ if b.context == "" then none else some b
]

pub record Applier : Type 0 where
  pub bin : String
  pub up : Option (List String)
  pub control_port : String
  pub overlay_path : String

abbrev pub or_default : String → String → String
or_default s d = if s == "" then d else s

abbrev pub bin_of : Applier → String
bin_of a = or_default a.bin "docker"

abbrev pub up_of : Applier → List String
up_of a = elim a.up [ none ↦ "up" ∷ "-d" ∷ "--wait" ∷ [] | some args ↦ args ]

abbrev pub control_port_of : Applier → String
control_port_of a = or_default a.control_port proxy_control_port

-- the first network that is internal
unfoldable pub sut_network_of : Dict Bool → String
sut_network_of [] = ""
sut_network_of ((name, internal) ∷ rest) = if internal then name else sut_network_of rest

abbrev pub proxy_of : Dict (List String) → String × List String
proxy_of [] = ("", [])
proxy_of ((name, networks) ∷ rest) = (name, networks)

-- the set of the hosts' names, each one once
abbrev pub add_name : String → List String → List String
add_name x xs = if contains xs x then xs else xs ++ (x ∷ [])

unfoldable pub collect_hosts : Dict Service → List String → List String → Result Error (List String)
unfolding host_name_of
collect_hosts services hosts [] = ok hosts
collect_hosts services hosts (h ∷ hs) =
    let rest = collect_hosts services (add_name (host_name_of h) hosts) hs in
    if has_key (host_name_of h) services then rest else err (no_matching_service h)

unfoldable pub aliases_of : List String → List String → List String
unfolding host_name_of
aliases_of external internal = sort_strings (map host_name_of external ++ internal)

unfoldable pub attach_proxy : String → List String → List String → Dict (List String)
attach_proxy sut aliases [] = []
attach_proxy sut aliases (n ∷ ns) =
    let rest = attach_proxy sut aliases ns in
    if n == sut then insert n aliases rest else insert n [] rest

abbrev pub on_network : String → OverlayService
on_network sut = record {
  image = "";
  build = none;
  networks = plain (sut ∷ []);
  ports = [];
  environment = [];
  command = [];
  profiles = [];
  depends_on = none;
}

abbrev pub proxy_service : Applier → Dict (List String) → OverlayService
proxy_service a networks = record {
  image = proxy_image;
  build = none;
  networks = attached networks;
  ports = concat (control_port_of a ∷ ":8474" ∷ []) ∷ [];
  environment = [];
  command = [];
  profiles = [];
  depends_on = none;
}

abbrev pub disabled_service : String → OverlayService
disabled_service sut = record (on_network sut) { profiles = disabled_profile ∷ [] }

abbrev pub plain_service : String → List String → Service → OverlayService
plain_service sut hosts svc = record (on_network sut) {
  depends_on = rewrite_depends_on hosts svc.depends_on;
}

abbrev pub backend_service : String → List String → Service → OverlayService
backend_service sut hosts svc = record (on_network sut) {
  image = svc.image;
  build = overlay_build_for svc;
  environment = string_env svc.environment;
  command = svc.command;
  depends_on = rewrite_depends_on hosts svc.depends_on;
}

-- the loop over the project's services
unfoldable pub move_services :
    String
    → String
    → List String
    → Dict Service
    → List String
    → Dict OverlayService
    → Dict OverlayService
unfolding rewrite_depends_on disabled_profile
move_services sut proxy hosts services [] out = out
move_services sut proxy hosts services (name ∷ names) out =
    move_services sut proxy hosts services names (
      if name == proxy
      then out
      else if contains hosts name
      then insert name (disabled_service sut) out
      else insert name (plain_service sut hosts (service_at services name)) out)

-- the loop over the internal hosts
unfoldable pub add_backends :
    String → List String → Dict Service → List String → Dict OverlayService → Dict OverlayService
unfolding rewrite_depends_on overlay_build_for string_env backend_service_name
add_backends sut hosts services [] out = out
add_backends sut hosts services (h ∷ hs) out =
    add_backends sut hosts services hs
      (insert (backend_service_name h) (backend_service sut hosts (service_at services h)) out)

abbrev pub overlay_networks : Dict Bool → Dict OverlayNetwork
overlay_networks [] = []
overlay_networks ((name, internal) ∷ rest) =
    insert name (record { name = name; is_internal = internal }) (overlay_networks rest)

unfoldable pub overlay_of :
    Applier
    → Topology
    → String
    → String × List String
    → List String
    → List String
    → Dict Service
    → Overlay
unfolding move_services add_backends aliases_of attach_proxy proxy_image proxy_control_port
overlay_of a top sut (proxy, joins) external hosts services = record {
  networks = overlay_networks top.networks;
  services =
      let networks = attach_proxy sut (aliases_of external hosts) joins in
      add_backends sut hosts services hosts (
        move_services sut proxy hosts services (sorted_names services)
          ((proxy, proxy_service a networks) ∷ []));
}

-- Apply up to the overlay, for a project that compose-go has parsed
unfoldable pub build_overlay :
    Applier → Topology → List String → List String → Dict Service → Result Error Overlay
unfolding sut_network_of collect_hosts overlay_of
build_overlay a top external internal services =
    let sut = sut_network_of top.networks in
    let proxy = proxy_of top.services in
    if sut == ""
    then err no_internal_network
    else if proxy.0 == ""
    then err no_proxy_service
    else collect_hosts services [] internal
      >>= (λ hosts. ok (overlay_of a top sut proxy external hosts services))
