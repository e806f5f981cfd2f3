-- ===== src/Tests/Appliers.antt =====
-- A WireMock that refuses the third mapping, and a container whose CPU is limited.
use tortureu.Base.{
  ℕ, String, List, [], ◌∷◌, Option, none, some, ◌≡◌, refl, ltb, if◌then◌else◌, length, map, pos, ℤ,
}
use tortureu.Base.Result.{Result, ok}
use tortureu.Float64
use tortureu.Value.{Value, str}
use tortureu.Config
use tortureu.Fault
use tortureu.Fault.Translate.{translate}
use tortureu.MockRate.{ErrorRate, error_rate_mappings}
use tortureu.Appliers.Docker.{cpus_from_nano_cpus}
use tortureu.Appliers.WireMock.{Reply, replied, apply_error_rate}
use tortureu.Appliers.WireMock.Balance.{apply_error_rate-IsBalanced, IsBalanced}
use tortureu.Appliers.Docker.{apply_docker}
use tortureu.Appliers.Docker.Owned.{translate-apply_docker, IsOn}

abbrev body_id : String → Option String
body_id body = some body

abbrev refuses_third : ℕ → Reply
refuses_third i = if ltb i 2 then replied 201 "m" else replied 500 "full"

abbrev often : ErrorRate
often = record { target = "api.stripe.com:443"; rate = Float64.of_ratio 1 2; status = pos 503 }

apply_error_rate-IsBalanced_example :
    let (log, applied, result) = apply_error_rate body_id refuses_third "flaky" often in
    IsBalanced body_id refuses_third 0 [] (error_rate_mappings "flaky" often) (log, result)
apply_error_rate-IsBalanced_example =
    apply_error_rate-IsBalanced body_id refuses_third "flaky" often

abbrev slow_cpu : Config.Fault
slow_cpu = record {
  name = "slow";
  at = "t=5s";
  for = "";
  target = "web";
  verb = "cpu_limit";
  inject = ("cpu_limit", str "0.5") ∷ [];
}

abbrev slow_cpu_docker : Fault.DockerAction
slow_cpu_docker = record { kind = "cpu_limit"; container = "web"; args = ("limit", str "0.5") ∷ [] }

abbrev slow_cpu_action : Fault.Action
slow_cpu_action = record {
  fault = slow_cpu;
  kind = Fault.docker;
  toxic = none;
  docker = some slow_cpu_docker;
  owner = "";
}

slow_cpu_translates : translate slow_cpu ≡ ok slow_cpu_action
unfolding translate Fault.fault_verb_modifiers tortureu.Fault.Translate.stray_key
    Fault.other_layer_owner tortureu.Fault.Translate.translate_own
    tortureu.Fault.Translate.workers_error tortureu.Fault.Translate.dispatch Fault.network_verbs
    Fault.service_verbs tortureu.Fault.Translate.translate_docker tortureu.Fault.Translate.docker_of
slow_cpu_translates = refl

abbrev answers : List String → Result String String
answers args = ok "125000000\n"

abbrev prints : Value → String
prints (str s) = s
prints _ = ""

translate-apply_docker_example : IsOn "web" (apply_docker answers prints slow_cpu_docker)
translate-apply_docker_example =
    translate-apply_docker answers prints slow_cpu slow_cpu_action slow_cpu_docker
      slow_cpu_translates refl

-- an eighth of a core is put back as 0.12
limit_restored : apply_docker answers prints slow_cpu_docker ≡ (
  ("inspect" ∷ "-f" ∷ "{{.HostConfig.NanoCpus}}" ∷ "web" ∷ [])
      ∷ ("update" ∷ "--cpus" ∷ "0.5" ∷ "web" ∷ [])
      ∷ [],
  ok ("update" ∷ "--cpus" ∷ "0.12" ∷ "web" ∷ []),
)
unfolding apply_docker Float64.div_nat Float64.of_int tortureu.Base.Decimal.show
limit_restored = refl

-- docker's answer on a limit of one and a half processors, and one that no int64 holds
one_and_a_half : cpus_from_nano_cpus "1500000000" ≡ "1.50"
unfolding cpus_from_nano_cpus Float64.div_nat Float64.of_int tortureu.Base.Decimal.show
one_and_a_half = refl

no_int64 : cpus_from_nano_cpus "9223372036854775808" ≡ "0"
unfolding cpus_from_nano_cpus
no_int64 = refl
