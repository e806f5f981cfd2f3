-- ===== src/Compose.antt =====
-- The part of compose-go's project that internal/detect and internal/run read. compose-go is a
-- library: what it parses is a parameter of the model.
use tortureu.Base.{ℕ, String, List, [], Option, none, some, Dict, keys, lookup}
use tortureu.Base.Sort.{sort_strings}

pub record Build : Type 0 where
  pub context : String
  pub dockerfile : String

pub record Port : Type 0 where
  pub target : ℕ
  pub protocol : String

pub record Service : Type 0 where
  pub image : String
  pub build : Option Build
  pub command : List String
  pub environment : Dict (Option String)
  pub depends_on : List String  -- the keys of its map
  pub ports : List Port
  pub expose : List String
  pub env_files : List String

-- what a missing key of the map of services gives
abbrev pub no_service : Service
no_service = record {
  image = "";
  build = none;
  command = [];
  environment = [];
  depends_on = [];
  ports = [];
  expose = [];
  env_files = [];
}

-- services[name]
abbrev pub service_at : Dict Service → String → Service
service_at services name = elim (lookup name services) [ none ↦ no_service | some svc ↦ svc ]

-- the names, sorted
abbrev pub sorted_names : Dict Service → List String
sorted_names services = sort_strings (keys services)
