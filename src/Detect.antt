-- ===== src/Detect.antt =====
-- internal/detect/types.go: the description of a system.
pub mod Images
pub mod Sut
pub mod Hosts
pub mod Clients
pub mod Directory
pub mod Manifests
pub mod Whole
use tortureu.Base.{ℕ, String, Bool, false, List, [], Dict}

pub record ClientRef : Type 0 where
  pub import_path : String
  pub service : String

pub record Dep : Type 0 where
  pub name : String
  pub typ : String
  pub address : String
  pub clients : List String
  pub client_refs : List ClientRef

pub record Obs : Type 0 where
  pub traces : Bool
  pub metrics : Bool
  pub logs : Bool
  pub max_confidence : String

pub data Fact : Type 0 where
  fact_unknown fact_true fact_false : Fact

pub record Coverage : Type 0 where
  pub openapi : Bool
  pub proto : Bool
  pub k8s : Bool
  pub aws : Fact
  pub azure : Fact
  pub lacks_otel : Fact

pub data SutChoice : Type 0 where
  choice_only choice_requested choice_derived choice_undecided choice_none : SutChoice

-- what detection could not classify
pub data Gap : Type 0 where
  unrecognized_image : String → String → Gap
  sut_undecided : List String → Gap
  modules_unread : String → String → String → List String → Gap
  lang_undetermined : String → List String → Gap

pub record System : Type 0 where
  pub sut : String
  pub sut_choice : SutChoice
  pub sut_candidates : List String
  pub sut_ports : List String
  pub deps : List Dep
  pub egress : List String
  pub egress_class : Dict String
  pub obs : Obs
  pub coverage : Coverage
  pub gaps : List Gap
  pub lang : String
  pub aws_client_seen : Bool
  pub azure_client_seen : Bool
  pub otel_client_seen : Bool
  pub otel_collector_seen : Bool
  pub manifest_unread : Bool

-- &System{}; Detect sets the choice before it reads it
abbrev pub no_system : System
no_system = record {
  sut = "";
  sut_choice = choice_none;
  sut_candidates = [];
  sut_ports = [];
  deps = [];
  egress = [];
  egress_class = [];
  obs = record { traces = false; metrics = false; logs = false; max_confidence = "" };
  coverage = record {
    openapi = false;
    proto = false;
    k8s = false;
    aws = fact_unknown;
    azure = fact_unknown;
    lacks_otel = fact_unknown;
  };
  gaps = [];
  lang = "";
  aws_client_seen = false;
  azure_client_seen = false;
  otel_client_seen = false;
  otel_collector_seen = false;
  manifest_unread = false;
}
