-- ===== src/Load.antt =====
-- internal/run/load.go: K6Runner runs k6 as a process or in a container, and reads its markers.
pub mod Markers
pub mod Container
use tortureu.Base.{
  ℕ, String, Bool, true, false, List, [], ◌∷◌, ◌++◌, Option, none, some, ◌==◌, if◌then◌else◌, not,
  leb,
}
use tortureu.Base.Decimal.{append_text}
use tortureu.Base.Result.{Result, ok, err}
use tortureu.Base.Strings.{byte_length, trim_space, fields, cut_text, cut_last}
use tortureu.K6.{parse_phase_marker}

unfoldable pub k6_image : String
k6_image = "grafana/k6:2.1.0"

unfoldable pub k6_container_script_path : String
k6_container_script_path = "/tmp/tortureu-script.js"

unfoldable pub k6_container_summary_path : String
k6_container_summary_path = "/tmp/tortureu-summary.json"

pub record K6Runner : Type 0 where
  pub bin : String
  pub dir : String
  pub image : String
  pub docker_bin : String
  pub container_args : Option (List String)  -- `none` is nil
  pub sut_container : String

abbrev pub or_default : String → String → String
or_default s default = if not (s == "") then s else default

unfoldable pub bin_of : K6Runner → String
bin_of r = or_default r.bin "k6"

unfoldable pub image_of : K6Runner → String
unfolding k6_image
image_of r = or_default r.image k6_image

unfoldable pub docker_bin_of : K6Runner → String
docker_bin_of r = or_default r.docker_bin "docker"

unfoldable pub container_args_of : K6Runner → List String
unfolding k6_container_script_path k6_container_summary_path
container_args_of r = elim r.container_args [
  | some args ↦ args
  | none ↦ "run" ∷ "--summary-export" ∷ k6_container_summary_path ∷ k6_container_script_path ∷ []
]

pub data Error : Type 0 where
  k6_not_found : String → String → Error
  cannot_start : String → Error
  exited : String → Error
  no_summary : String → Error
  empty_summary : Error
  not_created : String → Error
  script_not_copied : String → Error
  summary_not_copied : String → Error
  no_pipe : String → Error

-- whether the binary is missing, and the error's text
unfoldable pub wrap_start_error : String → Bool → String → Error
wrap_start_error bin missing e = if missing then k6_not_found bin e else cannot_start e

-- what h.finish sends, on Done or on Err
pub data Outcome : Type 0 where
  done : String → Outcome
  failed : Error → Outcome

abbrev first_error : Option Error → Option Error → Option String → Error
first_error (some e) fallback read = e
first_error none (some e) read = e
first_error none none (some e) = no_summary e
first_error none none none = empty_summary

-- the summary as it was read, or the error of the read
unfoldable pub finish : Option Error → Result String String → Option Error → Outcome
finish wait_err (err e) fallback = failed (first_error wait_err fallback (some e))
finish wait_err (ok summary) fallback =
    if not (summary == "") then done summary else failed (first_error wait_err fallback none)

abbrev before_quote : String → Option (String × String) → String
before_quote rest none = rest
before_quote rest (some (before, after)) = before

-- the payload of msg="...", or the line
unfoldable pub extract_marker_candidate : String → String
unfolding cut_text cut_last
extract_marker_candidate line = elim (cut_text "msg=\"" line) [
  | none ↦ line
  | some (before, rest) ↦ before_quote rest (cut_last b'"' rest)
]

-- bufio.MaxScanTokenSize: the scanner's buffer holds a line with its newline
unfoldable pub max_scan_token_size : ℕ
max_scan_token_size = 65536

abbrev pub is_too_long : String → Bool
is_too_long line = leb max_scan_token_size (byte_length line)

-- the markers of one stream, line by line, up to the first line that the scanner's buffer does not hold. The two streams are read at once, so the run sees some
-- interleaving of their markers.
unfoldable pub scan : List String → List String
unfolding extract_marker_candidate parse_phase_marker max_scan_token_size
scan [] = []
scan (line ∷ lines) =
    let rest = scan lines in
    if is_too_long line then [] else elim (parse_phase_marker (extract_marker_candidate line)) [
      | none ↦ rest
      | some phase ↦ phase ∷ rest
    ]

-- a docker command that container mode runs
pub data Command : Type 0 where
  create : List String → Command
  copy_in : String → Command
  start : String → Command
  copy_out : String → Command
  remove : String → Command

-- what the docker commands and the file system answer
pub record Docker : Type 0 where
  pub created : Result String String
  pub copied_in : Option String
  pub stdout_pipe : Option String
  pub stderr_pipe : Option String
  pub started : Option String
  pub waited : Option String
  pub copied_out : Option String
  pub summary : Result String String

abbrev pub last_of : String → List String → String
last_of s [] = s
last_of s (x ∷ xs) = last_of x xs

-- docker create's last word
unfoldable pub container_id : String → String
unfolding trim_space fields
container_id out = last_of (trim_space out) (fields (trim_space out))

abbrev exit_error : Option String → Option Error
exit_error none = none
exit_error (some e) = some (exited e)

abbrev copy_error : Option String → Option Error
copy_error none = none
copy_error (some e) = some (summary_not_copied e)

-- the goroutine behind a started container: the summary is copied out whatever the exit code
unfoldable pub attend : Docker → String → List Command × Outcome
unfolding finish
attend d id =
    (copy_out id ∷ remove id ∷ [], finish (exit_error d.waited) d.summary (copy_error d.copied_out))

abbrev give_up : String → Error → List Command × Result Error Outcome
give_up id e = (remove id ∷ [], err e)

-- behind docker create
unfoldable pub run_container : Docker → String → List Command × Result Error Outcome
unfolding attend
run_container d id = elim d.copied_in [
  | some e ↦ let (log, r) = give_up id (script_not_copied e) in (copy_in id ∷ log, r)
  | none ↦ elim d.stdout_pipe [
    | some e ↦ let (log, r) = give_up id (no_pipe e) in (copy_in id ∷ log, r)
    | none ↦ elim d.stderr_pipe [
      | some e ↦ let (log, r) = give_up id (no_pipe e) in (copy_in id ∷ log, r)
      | none ↦ elim d.started [
        | some e ↦ let (log, r) = give_up id (cannot_start e) in (copy_in id ∷ start id ∷ log, r)
        | none ↦ let (log, o) = attend d id in (copy_in id ∷ start id ∷ log, ok o)
      ]
    ]
  ]
]

abbrev pub create_args : K6Runner → List String
create_args r =
    "create"
    ∷ "--network"
    ∷ append_text "container:" r.sut_container
    ∷ image_of r
    ∷ container_args_of r

-- startContainer, with the docker commands that it runs, those of its goroutine included, which ends
-- behind the start. The answer of docker rm -f is not looked at.
unfoldable pub start_container : K6Runner → Docker → List Command × Result Error Outcome
unfolding run_container image_of container_args_of container_id
start_container r d = elim d.created [
  | err e ↦ (create (create_args r) ∷ [], err (not_created e))
  | ok out ↦
      let (log, result) = run_container d (container_id out) in
      (create (create_args r) ∷ log, result)
]

-- what the host process and the file system answer; a start error says whether the binary is missing
pub record Process : Type 0 where
  pub stdout_pipe : Option String
  pub stderr_pipe : Option String
  pub started : Option (Bool × String)
  pub waited : Option String
  pub summary : Result String String

unfoldable pub start_host_process : K6Runner → Process → Result Error Outcome
unfolding finish bin_of wrap_start_error
start_host_process r p = elim p.stdout_pipe [
  | some e ↦ err (no_pipe e)
  | none ↦ elim p.stderr_pipe [
    | some e ↦ err (no_pipe e)
    | none ↦ elim p.started [
      | some (missing, e) ↦ err (wrap_start_error (bin_of r) missing e)
      | none ↦ ok (finish (exit_error p.waited) p.summary none)
    ]
  ]
]
