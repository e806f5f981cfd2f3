-- ===== src/Appliers/Docker.antt =====
-- internal/run/docker_applier.go: container faults as docker commands.
pub mod Owned
use tortureu.Base.{
  ℕ, suc, ◌*◌, ◌/◌, ◌%◌, ◌^◌, String, Bool, true, false, List, [], ◌∷◌, ◌++◌, Option, none, some,
  ◌==◌, Dict, lookup, eqb, ltb, leb, ◌&&◌, if◌then◌else◌, ◌||◌, not, ℤ, pos, negsuc, has_key,
}
use tortureu.Base.Decimal.{show, digit, append_text}
use tortureu.Base.Result.{Result, ok, err}
use tortureu.Base.Strings.{trim_space}
use tortureu.Base.Text.{codes, concat, digits}
use tortureu.Float64
use tortureu.Float64.{Float64, finite, infinite, nan, round_half_even}
use tortureu.Fault.{DockerAction, index}
use tortureu.Fault.Values.{as_int}
use tortureu.Value.{Value, str, int, int64, float}

pub data Error : Type 0 where
  command_failed : List String → String → Error
  unsupported_kind : String → Error

abbrev non_empty : String → String → String
non_empty fallback s = if s == "" then fallback else s

-- d.Args["signal"] where it is a text that is not empty
unfoldable pub docker_signal : Dict Value → String → String
docker_signal args fallback = elim (lookup "signal" args) [
  | some (str s) ↦ non_empty fallback s
  | _ ↦ fallback
]

-- hundredths with two digits, %.2f
abbrev show_hundredths : ℕ → String
show_hundredths h = concat (show (h / 100) ∷ "." ∷ digit ((h % 100) / 10) ∷ digit (h % 10) ∷ [])

-- the quotient by 1e9 as a double, to two digits
abbrev show_cpus : Float64 → String
show_cpus (finite (pos z)) = show_hundredths (round_half_even (z * 100) Float64.one)
show_cpus _ = "0"

abbrev show_nano_cpus : ℕ → String
show_nano_cpus n = show_cpus (Float64.div_nat (Float64.of_int (pos n)) (10 ^ 9))

-- a magnitude that no int64 of this sign has
abbrev is_out_of_range : Bool → ℕ → Bool
is_out_of_range negative n = if negative then ltb (2 ^ 63) n else leb (2 ^ 63) n

abbrev scanned : Bool → ℕ × ℕ × List ℕ → String
scanned negative (n, count, rest) =
    if eqb count 0 || is_out_of_range negative n
    then "0"
    else if negative && not (eqb n 0)
    then append_text "-" (show_nano_cpus n)
    else show_nano_cpus n

-- fmt.Sscanf's %d into an int64, and what is made of it
unfoldable pub scan_nano_cpus : List ℕ → String
unfolding round_half_even digits
scan_nano_cpus [] = "0"
scan_nano_cpus (c ∷ cs) =
    if eqb c b'-'
    then scanned true (digits 0 0 cs)
    else if eqb c b'+'
    then scanned false (digits 0 0 cs)
    else scanned false (digits 0 0 (c ∷ cs))

unfoldable pub cpus_from_nano_cpus : String → String
unfolding scan_nano_cpus
cpus_from_nano_cpus s = if s == "" || (s == "0") then "0" else scan_nano_cpus (codes s)

-- asFloat
unfoldable pub to_float : Value → Option Float64
to_float (int n) = some (Float64.of_int n)
to_float (int64 n) = some (Float64.of_int n)
to_float (float x) = some x
to_float _ = none

-- a count of workers that is an integer above zero
abbrev workers_count : Option Value → ℕ
workers_count none = 1
workers_count (some v) = elim (as_int v) [ some (pos (suc n)) ↦ suc n | _ ↦ 1 ]

-- docker's answer to a command, and fmt.Sprint
module _ (docker : List String → Result String String) (sprint : Value → String) where
  abbrev failure : List String → Result String String → Option Error
  failure args (ok out) = none
  failure args (err e) = some (command_failed args e)

  -- one command, and the undo behind it where it succeeds
  abbrev pub command : List String → List String → List (List String) × Result Error (List String)
  command args undo = elim (failure args (docker args)) [
    | some e ↦ (args ∷ [], err e)
    | none ↦ (args ∷ [], ok undo)
  ]

  abbrev inspect_args : String → String → List String
  inspect_args format container = "inspect" ∷ "-f" ∷ format ∷ container ∷ []

  -- a limit is read before it is changed, and the undo sets it to what was read
  abbrev pub limit :
      String
      → String
      → String
      → (String → String)
      → Value
      → List (List String) × Result Error (List String)
  limit flag format container back v = elim (docker (inspect_args format container)) [
    | err e ↦
        (inspect_args format container ∷ [], err (command_failed (inspect_args format container) e))
    | ok out ↦
        let (log, r) =
          command ("update" ∷ flag ∷ sprint v ∷ container ∷ [])
            ("update" ∷ flag ∷ back (trim_space out) ∷ container ∷ []) in
        (inspect_args format container ∷ log, r)
  ]

  abbrev workers_text : Option Value → String
  workers_text none = "1"
  workers_text (some w) = sprint w

  abbrev show_int : ℤ → String
  show_int (pos n) = show n
  show_int (negsuc n) = concat ("-" ∷ show (suc n) ∷ [])

  abbrev load_of : ℕ → Option Float64 → List String
  load_of n none = []
  load_of n (some x) =
      "--cpu-load" ∷ show_int (Float64.to_int (Float64.round (Float64.div_nat x n))) ∷ []

  abbrev load_arg : ℕ → Option Value → List String
  load_arg n none = []
  load_arg n (some pct) = load_of n (to_float pct)

  -- the load that each worker takes on
  unfoldable pub cpu_load : Dict Value → List String
  unfolding to_float as_int
  cpu_load args = load_arg (workers_count (lookup "workers" args)) (lookup "cpu_percent" args)

  unfoldable pub stress_args : String → Dict Value → List String
  unfolding cpu_load
  stress_args container args =
      let resource = sprint (index args "resource") in
      "exec"
      ∷ "-d"
      ∷ container
      ∷ "stress-ng"
      ∷ concat ("--" ∷ resource ∷ [])
      ∷ workers_text (lookup "workers" args)
      ∷ (if resource == "cpu" then cpu_load args else [])

  -- ApplyDocker: its commands, and the undo, which is one command
  unfoldable pub apply_docker : DockerAction → List (List String) × Result Error (List String)
  unfolding docker_signal stress_args cpus_from_nano_cpus trim_space
  apply_docker d =
      if d.kind == "pause"
      then command ("pause" ∷ d.container ∷ []) ("unpause" ∷ d.container ∷ [])
      else if d.kind == "kill"
      then command ("kill" ∷ "--signal" ∷ docker_signal d.args "SIGKILL" ∷ d.container ∷ [])
          ("start" ∷ d.container ∷ [])
      else if d.kind == "graceful"
      then command ("kill" ∷ "--signal" ∷ docker_signal d.args "SIGTERM" ∷ d.container ∷ [])
          ("start" ∷ d.container ∷ [])
      else if d.kind == "cpu_limit"
      then limit "--cpus" "{{.HostConfig.NanoCpus}}" d.container cpus_from_nano_cpus
          (index d.args "limit")
      else if d.kind == "mem_limit"
      then limit "--memory" "{{.HostConfig.Memory}}" d.container (λ prev. prev)
          (index d.args "limit")
      else if d.kind == "stress"
      then command (stress_args d.container d.args)
          ("exec" ∷ d.container ∷ "pkill" ∷ "stress-ng" ∷ [])
      else ([], err (unsupported_kind d.kind))
