-- ===== src/Detect/Directory.antt =====
-- internal/detect/lockfile.go: the manifest of one directory.
use tortureu.Base.{String, List, [], ◌++◌, ◌∷◌, Option, none, some, map}
use tortureu.Base.Result.{Result, ok, err}
use tortureu.Base.Text.{concat}
use tortureu.Detect.Clients.{
  ClientPattern, go_client_patterns, node_client_patterns, py_client_patterns, ruby_client_patterns,
  java_client_patterns,
}

pub record ManifestInfo : Type 0 where
  pub lang : String
  pub file : String
  pub imports : List String
  pub client_table : List ClientPattern
  pub unread : List String

abbrev pub no_manifest : ManifestInfo
no_manifest = record { lang = ""; file = ""; imports = []; client_table = []; unread = [] }

-- The manifests of a directory, each with what its decoder finds in it, or its error; `none` is a file
-- that does not exist.
pub record Directory : Type 0 where
  pub go_mod : Option (Result String (List String))
  pub package_json : Option (Result String (List String × List String))
  pub pyproject : Option (Result String (List String × List String))
  pub gemfile : Option (Result String (List String))
  pub gemfile_lock : Option (Result String (List String))
  pub pom : Option (Result String (List (String × String) × List String))

abbrev read_as :
    String → String → List ClientPattern → Result String (List String) → Result String ManifestInfo
read_as lang file table (err e) = err e
read_as lang file table (ok imports) =
    ok (record { lang = lang; file = file; imports = imports; client_table = table; unread = [] })

abbrev both : Result String (List String × List String) → Result String (List String)
both (err e) = err e
both (ok (xs, ys)) = ok (xs ++ ys)

abbrev coordinate : String × String → String
coordinate (group, artifact) = concat (group ∷ ":" ∷ artifact ∷ [])

abbrev read_pom : Result String (List (String × String) × List String) → Result String ManifestInfo
read_pom (err e) = err e
read_pom (ok (deps, modules)) = ok (record {
  lang = "java";
  file = "pom.xml";
  imports = map coordinate deps;
  client_table = java_client_patterns;
  unread = modules;
})

unfoldable pub read_manifest : Directory → Result String ManifestInfo
unfolding go_client_patterns node_client_patterns py_client_patterns ruby_client_patterns
    java_client_patterns
read_manifest dir = elim dir.go_mod [
  | some m ↦ read_as "go" "go.mod" go_client_patterns m
  | none ↦ elim dir.package_json [
    | some m ↦ read_as "node" "package.json" node_client_patterns (both m)
    | none ↦ elim dir.pyproject [
      | some m ↦ read_as "python" "pyproject.toml" py_client_patterns (both m)
      | none ↦ elim dir.gemfile [
        | some m ↦ read_as "ruby" "Gemfile" ruby_client_patterns m
        | none ↦ elim dir.gemfile_lock [
          | some m ↦ read_as "ruby" "Gemfile.lock" ruby_client_patterns m
          | none ↦ elim dir.pom [ some m ↦ read_pom m | none ↦ ok no_manifest ]
        ]
      ]
    ]
  ]
]
