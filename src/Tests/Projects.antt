-- ===== src/Tests/Projects.antt =====
-- A compose project with a service under test, a database and a partner's host.
use tortureu.Base.{
  String, true, false, List, [], ◌∷◌, none, some, ◌≡◌, refl, ◌⊎◌, Dict, keys, contains, all_in, not,
  has_key, Option, ◌==◌, if◌then◌else◌,
}
use tortureu.Base.Result.{Result, ok, err}
use tortureu.Base.Sort.{sort_strings}
use tortureu.Compose.{Service, no_service, sorted_names}
use tortureu.Detect.{System, no_system}
use tortureu.Detect.Directory.{Directory}
use tortureu.Detect.Manifests.Facts.{all_infos}
use tortureu.Detect.Whole.{Surroundings, detect_with_sut, Error}
use tortureu.Detect.Whole.Steps.{detect_with_sut-IsSettled, IsSettled}
use tortureu.Egress.{build_topology}
use tortureu.Topology.{
  Applier, Overlay, build_overlay, overlay_of, collect_hosts, rewrite_depends_on,
  backend_service_name,
}
use tortureu.Topology.Commands.{Answers}
use tortureu.Topology.Isolation.{build_overlay-Promises, Promises}
use tortureu.Topology.Disabled.{in_effect-rewrite_depends_on, in_effect, renamed}

abbrev web : Service
web = record no_service {
  build = some (record { context = "/shop"; dockerfile = "" });
  depends_on = "db" ∷ [];
  environment = ("PAY_URL", some "https://pay.partner.com/v1") ∷ ("PEER", some "db.internal") ∷ [];
}

abbrev db : Service
db = record no_service {
  image = "postgres:16";
  ports = record { target = 5433; protocol = "tcp" } ∷ [];
}

abbrev shop : Dict Service
shop = ("web", web) ∷ ("db", db) ∷ []

abbrev own_applier : Applier
own_applier = record { bin = ""; up = none; control_port = ""; overlay_path = "" }

abbrev shop_overlay : Overlay
shop_overlay =
    overlay_of own_applier (build_topology "sut" "egress" "proxy") "sut"
      ("proxy", "sut" ∷ "egress" ∷ []) ("pay.partner.com:443" ∷ []) ("db" ∷ []) shop

shop_builds :
    build_overlay own_applier
      (build_topology "sut" "egress" "proxy")
      ("pay.partner.com:443" ∷ [])
      ("db:5433" ∷ [])
      shop
    ≡ ok shop_overlay
unfolding build_overlay build_topology
shop_builds = refl

build_overlay-Promises_example : Promises "sut" "proxy" shop shop_overlay
build_overlay-Promises_example =
    build_overlay-Promises own_applier "sut" "egress" "proxy" ("pay.partner.com:443" ∷ [])
      ("db:5433" ∷ []) shop shop_overlay shop_builds

clone_is_new : all_in (λ h. not (contains ("db" ∷ []) (backend_service_name h))) ("db" ∷ []) ≡ true
unfolding backend_service_name
clone_is_new = refl

in_effect-rewrite_depends_on_example :
    let names = sort_strings ("db" ∷ "cache" ∷ []) in
    (in_effect names (rewrite_depends_on ("db" ∷ []) ("db" ∷ "cache" ∷ []))
      ≡ renamed ("db" ∷ []) names)
    × (all_in
          (λ d. not (contains ("db" ∷ []) d))
          (in_effect names (rewrite_depends_on ("db" ∷ []) ("db" ∷ "cache" ∷ [])))
        ≡ true)
in_effect-rewrite_depends_on_example =
    in_effect-rewrite_depends_on ("db" ∷ []) ("db" ∷ "cache" ∷ []) clone_is_new

abbrev docker_answers : Answers
docker_answers = record {
  temp_dir = "/tmp";
  abs_path = ok "/shop/compose.yaml";
  project = ok shop;
  written = none;
  run = none;
  overlay_exists = true;
}

db_collected : collect_hosts shop [] ("db:5433" ∷ []) ≡ ok ("db" ∷ [])
unfolding collect_hosts
db_collected = refl

abbrev empty_dir : Directory
empty_dir = record {
  go_mod = none;
  package_json = none;
  pyproject = none;
  gemfile = none;
  gemfile_lock = none;
  pom = none;
}

abbrev dir_at : String → Directory
dir_at path =
    if path == "/shop"
    then record empty_dir { go_mod = some (ok ("github.com/aws/aws-sdk-go" ∷ [])) }
    else empty_dir

abbrev url_of : String → Option (String × String)
url_of s = if s == "https://pay.partner.com/v1" then some ("pay.partner.com", "") else none

abbrev around_shop : Surroundings
around_shop = record {
  parse_url = url_of;
  env_lines = λ path. [];
  files = dir_at;
  clean = λ path. path;
  file_coverage = ok (true, false, false);
}

abbrev system_of : Result Error System → System
system_of (ok s) = s
system_of (err e) = no_system

abbrev shop_system : System
shop_system = system_of (detect_with_sut around_shop "/shop" shop "")

shop_detected : detect_with_sut around_shop "/shop" shop "" ≡ ok shop_system
unfolding detect_with_sut sort_strings
shop_detected = refl

shop_egress : shop_system.egress ≡ "db:5433" ∷ "pay.partner.com" ∷ []
unfolding detect_with_sut sort_strings tortureu.Base.Decimal.show
shop_egress = refl

detect_with_sut-IsSettled_example :
    IsSettled
      (sorted_names shop)
      (all_infos around_shop.files around_shop.clean shop "/shop")
      shop_system
detect_with_sut-IsSettled_example =
    detect_with_sut-IsSettled around_shop "/shop" shop "" shop_system shop_detected
