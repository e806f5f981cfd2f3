-- ===== src/Detect/Hosts.antt =====
-- internal/detect/envhosts.go: the hosts that a service's environment names.
pub mod Classes
use tortureu.Base.{
  ℕ, zero, suc, String, Bool, true, false, List, [], ◌∷◌, ◌++◌, Option, none, some, ◌==◌, Dict,
  insert, contains, if◌then◌else◌, ◌||◌, ◌&&◌, not, eqb, leb, length,
}
use tortureu.Base.Strings.{cut_last, trim_space, lower_ascii}
use tortureu.Base.Text.{codes, concat, cut, has_prefix, has_substring, is_digit}
use Prim.Native.String
use Prim.Native.Char.{code}
use tortureu.Compose.{Service}
use tortureu.Detect.{System}

unfoldable pub common_tlds : List String
common_tlds =
    "com" ∷ "net" ∷ "org" ∷ "io" ∷ "dev" ∷ "co" ∷ "app" ∷ "ai" ∷ "cloud" ∷ "tech" ∷ "systems"
    ∷ "services" ∷ "info" ∷ "biz" ∷ "me" ∷ []

unfoldable pub loopback_hosts : List String
loopback_hosts = "localhost" ∷ "127.0.0.1" ∷ "0.0.0.0" ∷ []

-- the text before the last colon
unfoldable pub host_of : String → String
unfolding cut_last
host_of s = elim (cut_last b':' s) [ none ↦ s | some (before, port) ↦ before ]

abbrev is_alnum : ℕ → Bool
is_alnum c = leb b'a' c && leb c b'z' || leb b'A' c && leb c b'Z' || is_digit c

-- `[A-Za-z0-9]([A-Za-z0-9-]*[A-Za-z0-9])?`: the first letter is no hyphen, and the last one is none
abbrev label_rest : List ℕ → Bool
label_rest [] = true
label_rest (c ∷ []) = is_alnum c
label_rest (c ∷ d ∷ cs) = (is_alnum c || eqb c b'-') && label_rest (d ∷ cs)

abbrev is_label : List ℕ → Bool
is_label [] = false
is_label (c ∷ cs) = is_alnum c && label_rest cs

-- strings.Split at a character, with the part that is being read in front
unfoldable pub split_at : ℕ → String → List String
split_at sep String.[] = "" ∷ []
split_at sep (String.◌∷◌ c s) =
    let rest = split_at sep s in
    if eqb (code c) sep
    then "" ∷ rest
    else elim rest [ [] ↦ String.◌∷◌ c "" ∷ [] | part ∷ parts ↦ String.◌∷◌ c part ∷ parts ]

abbrev all_labels : List String → Bool
all_labels [] = true
all_labels (l ∷ ls) = is_label (codes l) && all_labels ls

abbrev all_digits : List ℕ → Bool
all_digits [] = true
all_digits (c ∷ cs) = is_digit c && all_digits cs

abbrev is_port : List ℕ → Bool
is_port cs = leb 1 (length cs) && leb (length cs) 5 && all_digits cs

-- bareHostStructureRe on the whole text
unfoldable pub is_bare_host : String → Bool
unfolding cut split_at is_digit
is_bare_host s =
    let (host, port, has_port) = cut b':' s in
    let labels = split_at b'.' host in
    leb 2 (length labels) && all_labels labels && (not has_port || is_port (codes port))

abbrev last_label : String → List String → String
last_label l [] = l
last_label l (m ∷ ms) = last_label m ms

abbrev with_port : String × String → String
with_port (host, port) = if port == "" then host else concat (host ∷ ":" ∷ port ∷ [])

-- url.Parse, as the host's name and the port of what it accepts
module _ (parse_url : String → Option (String × String)) where
  abbrev url_host : Option (String × String) → Option String
  url_host none = none
  url_host (some u) = if u.0 == "" then none else some (with_port u)

  abbrev bare_host : String → Option String
  bare_host value =
      if is_bare_host value
        && contains common_tlds (lower_ascii (last_label "" (split_at b'.' (host_of value))))
      then some value
      else none

  unfoldable pub extract_host : String → Option String
  unfolding trim_space has_substring is_bare_host common_tlds lower_ascii split_at host_of
  extract_host raw =
      let value = trim_space raw in
      if value == ""
      then none
      else if has_substring value "://"
      then url_host (parse_url value)
      else bare_host value

-- the texts of a line of an env_file: quotes around the value are trimmed
abbrev is_quote : ℕ → Bool
is_quote c = eqb c b'"' || eqb c b'\''

unfoldable pub trim_quotes_left : String → String
trim_quotes_left String.[] = ""
trim_quotes_left (String.◌∷◌ c s) = if is_quote (code c) then trim_quotes_left s else String.◌∷◌ c s

unfoldable pub trim_quotes_right : String → String
trim_quotes_right String.[] = ""
trim_quotes_right (String.◌∷◌ c s) =
    let rest = trim_quotes_right s in
    if is_quote (code c) && (rest == "") then "" else String.◌∷◌ c rest

-- the values of the lines, readEnvFile behind the scanner
unfoldable pub env_values : List String → List String
unfolding trim_space has_prefix cut trim_quotes_left trim_quotes_right
env_values [] = []
env_values (raw ∷ lines) =
    let rest = env_values lines in
    let line = trim_space raw in
    let (key, v, found) = cut b'=' line in
    if line == "" || has_prefix line "#" || not found
    then rest
    else trim_quotes_right (trim_quotes_left (trim_space v)) ∷ rest

abbrev pub note_host : String → String → System → System
note_host host class sys = record sys {
  egress = sys.egress ++ (host ∷ []);
  egress_class = insert host class sys.egress_class;
}

-- `record`. The set `seen` holds the entries of Egress: it starts with them and grows with them.
unfoldable pub record_host : List String → String → System → System
unfolding loopback_hosts host_of
record_host names host sys =
    if contains sys.egress host
    then sys
    else if contains loopback_hosts (host_of host) || contains names (host_of host)
    then sys
    else note_host host "unclassified" sys

module _ (parse_url : String → Option (String × String)) (env_lines : String → List String) where
  unfoldable pub record_value : List String → String → System → System
  unfolding record_host extract_host
  record_value names v sys = elim (extract_host parse_url v) [
    | none ↦ sys
    | some host ↦ record_host names host sys
  ]

  unfoldable pub record_values : List String → List String → System → System
  unfolding record_value
  record_values names [] sys = sys
  record_values names (v ∷ vs) sys = record_values names vs (record_value names v sys)

  unfoldable pub record_env : List String → Dict (Option String) → System → System
  unfolding record_value
  record_env names [] sys = sys
  record_env names ((k, none) ∷ env) sys = record_env names env sys
  record_env names ((k, some v) ∷ env) sys = record_env names env (record_value names v sys)

  -- the files' lines by the path in the compose file: none where a file cannot be opened
  unfoldable pub record_files : List String → List String → System → System
  unfolding record_values env_values
  record_files names [] sys = sys
  record_files names (path ∷ paths) sys =
      record_files names paths (record_values names (env_values (env_lines path)) sys)

  unfoldable pub detect_external_hosts : List String → Dict Service → System → System
  unfolding record_env record_files
  detect_external_hosts names [] sys = sys
  detect_external_hosts names ((name, svc) ∷ services) sys =
      detect_external_hosts names services
        (record_files names svc.env_files (record_env names svc.environment sys))
