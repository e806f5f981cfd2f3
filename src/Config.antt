-- ===== src/Config.antt =====
-- internal/config: the parsed torture.yaml. The types are here; the checks are in the children.
pub mod Grammar
pub mod Checks
pub mod Parse
use tortureu.Base.{String, List, Dict, ℤ}
use tortureu.Value.{Value}

pub record Target : Type 0 where
  pub compose : String
  pub service : String
  pub base_url : String
  pub openapi : String

pub record EgressHost : Type 0 where
  pub class : String
  pub from : String
  pub max_rps : ℤ

pub record Egress : Type 0 where
  pub default : String
  pub hosts : Dict EgressHost

pub record FlowStep : Type 0 where
  pub method : String
  pub path : String
  pub body : String
  pub capture : String

pub record Scenario : Type 0 where
  pub name : String
  pub weight : ℤ
  pub flow : List FlowStep

pub record Stage : Type 0 where
  pub phase : String
  pub to : String
  pub hold : String
  pub over : String
  pub for : String

pub record Load : Type 0 where
  pub engine : String
  pub model : String
  pub stages : List Stage
  pub scenarios : List Scenario

pub record Fault : Type 0 where
  pub name : String
  pub at : String
  pub for : String
  pub target : String
  pub verb : String
  pub inject : Dict Value

pub record Reset : Type 0 where
  pub command : String
  pub seed : String

abbrev pub AssertEntry : Type 0
AssertEntry = Dict Value

pub record Config : Type 0 where
  pub version : ℤ
  pub target : Target
  pub egress : Egress
  pub load : Load
  pub faults : List Fault
  pub assert : List AssertEntry
  pub reset : Reset
