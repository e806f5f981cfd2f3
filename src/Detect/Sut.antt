-- ===== src/Detect/Sut.antt =====
-- internal/detect/compose.go: which service is the system under test, and where it listens.
pub mod Chosen
use tortureu.Base.{
  ℕ, String, Bool, true, false, List, [], ◌∷◌, ◌++◌, Option, none, some, ◌==◌, Dict, has_key,
  contains, if◌then◌else◌, ◌||◌, ◌&&◌, not, eqb, is_some,
}
use tortureu.Base.Decimal.{show}
use tortureu.Base.Result.{Result, ok, err}
use tortureu.Base.Text.{cut, has_substring}
use tortureu.Compose.{Service, Port, Build, service_at}
use tortureu.Detect.{
  System, choice_none, choice_only, choice_requested, choice_derived, choice_undecided,
  sut_undecided,
}

pub data SutError : Type 0 where
  no_such_service : String → List String → SutError

-- the services that declare `build:`
unfoldable pub builds_of : Dict Service → List String → List String
builds_of services [] = []
builds_of services (name ∷ names) =
    let rest = builds_of services names in
    if is_some (service_at services name).build then name ∷ rest else rest

unfoldable pub depended_on : Dict Service → List String → List String
depended_on services [] = []
depended_on services (name ∷ names) =
    (service_at services name).depends_on ++ depended_on services names

unfoldable pub roots_of : List String → List String → List String
roots_of depended [] = []
roots_of depended (name ∷ names) =
    let rest = roots_of depended names in if contains depended name then rest else name ∷ rest

abbrev pub undecided : List String → System → System
undecided builds sys = record sys {
  sut_candidates = builds;
  sut_choice = choice_undecided;
  gaps = sys.gaps ++ (sut_undecided builds ∷ []);
}

abbrev pub decide : List String → List String → System → System
decide builds (root ∷ []) sys = record sys {
  sut_candidates = builds;
  sut = root;
  sut_choice = choice_derived;
}
decide builds [] sys = undecided builds sys
decide builds (r ∷ q ∷ rest) sys = undecided builds sys

-- the switch on the number of services that build
unfoldable pub choose_among : Dict Service → List String → List String → System → System
unfolding depended_on roots_of
choose_among services names [] sys = record sys { sut_choice = choice_none }
choose_among services names (b ∷ []) sys = record sys { sut = b; sut_choice = choice_only }
choose_among services names (b ∷ c ∷ bs) sys =
    decide (b ∷ c ∷ bs) (roots_of (depended_on services names) (b ∷ c ∷ bs)) sys

unfoldable pub choose_sut : System → Dict Service → List String → String → Result SutError System
unfolding builds_of choose_among
choose_sut sys services names requested =
    if not (requested == "")
    then (if has_key requested services
        then ok (record sys { sut = requested; sut_choice = choice_requested })
        else err (no_such_service requested names))
    else ok (choose_among services names (builds_of services names) sys)

unfoldable pub add_port : List String → String → List String
unfolding has_substring
add_port out port =
    if port == "" || (port == "0") || has_substring port "-" || contains out port
    then out
    else out ++ (port ∷ [])

unfoldable pub add_ports : List String → List Port → List String
unfolding add_port
add_ports out [] = out
add_ports out (p ∷ ps) =
    add_ports
      (if not (p.protocol == "") && not (p.protocol == "tcp")
        then out
        else if eqb p.target 0
        then out
        else add_port out (show p.target))
      ps

unfoldable pub add_exposed : List String → List String → List String
unfolding add_port cut
add_exposed out [] = out
add_exposed out (e ∷ es) =
    let (port, proto, has_proto) = cut b'/' e in
    add_exposed (if has_proto && not (proto == "tcp") then out else add_port out port) es

unfoldable pub listen_ports : List Port → List String → List String
unfolding add_ports add_exposed
listen_ports ports expose = add_exposed (add_ports [] ports) expose
