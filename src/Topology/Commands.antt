-- ===== src/Topology/Commands.antt =====
-- internal/run/topology.go: Apply and TeardownDisabled as what they write and run.
use tortureu.Base.{String, Bool, List, [], ◌∷◌, Option, none, some, Dict, if◌then◌else◌, not}
use tortureu.Base.Result.{Result, ok, err}
use tortureu.Base.Text.{concat}
use tortureu.Base.Sort.{sort_strings}
use tortureu.Compose.{Service}
use tortureu.Egress.{Topology}
use tortureu.Findings.{host_name_of}
use tortureu.Topology.{
  Applier, Overlay, Error, no_abs_path, cannot_load, cannot_write, cannot_run, build_overlay,
  bin_of, up_of, or_default, disabled_profile, add_name,
}

-- what the file system, compose-go and docker answer
pub record Answers : Type 0 where
  pub temp_dir : String
  pub abs_path : Result String String
  pub project : Result String (Dict Service)
  pub written : Option String
  pub run : Option String
  pub overlay_exists : Bool

pub data Action : Type 0 where
  write : String → Overlay → Action
  exec : String → List String → Action

abbrev pub run_error : Option String → Option Error
run_error none = none
run_error (some e) = some (cannot_run e)

abbrev pub overlay_path_of : Applier → Answers → String
overlay_path_of a w =
    or_default a.overlay_path (concat (w.temp_dir ∷ "/tortureu-topology-overlay.yaml" ∷ []))

abbrev start_stack : Applier → Answers → String → Overlay → List Action × Option Error
start_stack a w path ov = elim w.written [
  | some e ↦ (write (overlay_path_of a w) ov ∷ [], some (cannot_write e))
  | none ↦ (
    write (overlay_path_of a w) ov
        ∷ exec (bin_of a) ("compose" ∷ "-f" ∷ path ∷ "-f" ∷ overlay_path_of a w ∷ up_of a)
        ∷ [],
    run_error w.run,
  )
]

-- Apply, with what it writes and runs
unfoldable pub apply :
    Applier → Topology → List String → List String → Answers → List Action × Option Error
unfolding build_overlay
apply a top external internal w = elim w.abs_path [
  | err e ↦ ([], some (no_abs_path e))
  | ok path ↦ elim w.project [
    | err e ↦ ([], some (cannot_load e))
    | ok services ↦ elim (build_overlay a top external internal services) [
      | err e ↦ ([], some e)
      | ok ov ↦ start_stack a w path ov
    ]
  ]
]

-- the distinct names of the hosts
unfoldable pub disabled_names : List String → List String → List String
unfolding host_name_of
disabled_names seen [] = seen
disabled_names seen (h ∷ hs) = disabled_names (add_name (host_name_of h) seen) hs

abbrev pub teardown_args : String → String → List String → List String
teardown_args overlay path services =
    "compose" ∷ "--profile" ∷ disabled_profile ∷ "-f" ∷ path ∷ "-f" ∷ overlay ∷ "rm" ∷ "-f" ∷ "-s"
    ∷ "-v" ∷ services

unfoldable pub teardown_disabled : Applier → List String → Answers → List Action × Option Error
unfolding disabled_names disabled_profile
teardown_disabled a [] w = ([], none)
teardown_disabled a (h ∷ hs) w = if not w.overlay_exists then ([], none) else elim w.abs_path [
  | err e ↦ ([], some (no_abs_path e))
  | ok path ↦ (
    exec (bin_of a)
          (teardown_args (overlay_path_of a w) path (sort_strings (disabled_names [] (h ∷ hs))))
        ∷ [],
    run_error w.run,
  )
]
