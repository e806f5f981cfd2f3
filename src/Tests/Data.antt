-- ===== src/Tests/Data.antt =====
-- A small scenario: a database that gets slow, and a third-party host that is mocked.
use tortureu.Base.{String, List, [], ◌∷◌, none, some, Dict, pos, false}
use tortureu.Float64
use tortureu.Value.{Value, str, int}
use tortureu.Config
use tortureu.Config.{Target, EgressHost, Egress, FlowStep, Scenario, Stage, Load, Reset}
use tortureu.Config.Parse.{RawConfig, RawFault, step}
use tortureu.Fault
use tortureu.QueueFault

abbrev pub slow_inject : Dict Value
slow_inject = ("latency", str "300ms") ∷ []

abbrev pub slow_db : Config.Fault
slow_db = record {
  name = "slow";
  at = "ramp+30s";
  for = "60s";
  target = "db:5432";
  verb = "latency";
  inject = slow_inject;
}

abbrev pub slow_toxic : Fault.Action
slow_toxic = record {
  fault = slow_db;
  kind = Fault.toxic;
  toxic =
      some (record {
        type = "latency";
        disable = false;
        attributes = ("latency", int (pos 300)) ∷ [];
      });
  docker = none;
  owner = "";
}

abbrev pub poison : Config.Fault
poison = record {
  name = "poison";
  at = "t=5s";
  for = "";
  target = "orders";
  verb = "poison_pill";
  inject = ("poison_pill", str "x") ∷ ("count", int (pos 3)) ∷ [];
}

abbrev pub poison_passed : Fault.Action
poison_passed = record {
  fault = poison;
  kind = Fault.passed;
  toxic = none;
  docker = none;
  owner = "internal/queuefault";
}

abbrev pub poison_action : QueueFault.Action
poison_action = record {
  fault = poison;
  kind = QueueFault.poison_pill;
  poison_pill = some (record { topic = "orders"; count = pos 3 });
  duplicate = none;
}

abbrev pub no_topic : Config.Fault
no_topic = record poison { target = "" }

abbrev pub no_topic_passed : Fault.Action
no_topic_passed = record poison_passed { fault = no_topic }

abbrev pub flaky : Config.Fault
flaky = record {
  name = "flaky";
  at = "hold";
  for = "";
  target = "api.stripe.com:443";
  verb = "error_rate";
  inject = ("error_rate", int (pos 1)) ∷ ("status", int (pos 503)) ∷ [];
}

abbrev pub one : Float64.Float64
unfolding Float64.of_int
one = Float64.of_int (pos 1)

abbrev pub stages : List Stage
stages =
    record { phase = "ramp"; to = "50rps"; hold = ""; over = "30s"; for = "" }
    ∷ record { phase = "hold"; to = ""; hold = "50rps"; over = ""; for = "2m" }
    ∷ []

abbrev pub home : FlowStep
home = record { method = "GET"; path = "/"; body = ""; capture = "" }

abbrev pub target : Target
target = record {
  compose = "docker-compose.yml";
  service = "api";
  base_url = "http://localhost:8000";
  openapi = "";
}

abbrev pub hosts : Dict EgressHost
hosts =
    ("db:5432", record { class = "internal"; from = ""; max_rps = pos 0 })
    ∷ ("api.stripe.com:443", record { class = "mock"; from = "capture"; max_rps = pos 0 })
    ∷ []

abbrev pub egress : Egress
egress = record { default = "deny"; hosts = hosts }

abbrev pub raw_slow : RawFault
raw_slow = record {
  name = "slow";
  at = "ramp+30s";
  for = "60s";
  target = "db:5432";
  inject = slow_inject;
}

abbrev pub holds_invariant : Dict Value
holds_invariant = ("k6", str "http_req_failed: rate<0.01") ∷ []

abbrev pub raw : RawConfig
raw = record {
  version = pos 1;
  target = target;
  egress = egress;
  load = record {
    engine = "k6";
    model = "arrival_rate";
    stages = stages;
    scenarios = record { name = "browse"; weight = pos 1; flow = step home ∷ [] } ∷ [];
  };
  faults = raw_slow ∷ [];
  assert = holds_invariant ∷ [];
  reset = record { command = ""; seed = "" };
}

abbrev pub present : List String
present = "version" ∷ "target" ∷ "egress" ∷ "load" ∷ "faults" ∷ "assert" ∷ []

abbrev pub parsed_config : Config.Config
parsed_config = record {
  version = pos 1;
  target = target;
  egress = egress;
  load = record {
    engine = "k6";
    model = "arrival_rate";
    stages = stages;
    scenarios = record { name = "browse"; weight = pos 1; flow = home ∷ [] } ∷ [];
  };
  faults = slow_db ∷ [];
  assert = holds_invariant ∷ [];
  reset = record { command = "docker compose down -v && docker compose up -d --wait"; seed = "" };
}
