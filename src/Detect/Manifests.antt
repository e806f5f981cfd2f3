-- ===== src/Detect/Manifests.antt =====
-- internal/detect/lockfile.go: what the language manifests of a repository say.
pub mod Facts
use tortureu.Base.{
  String, Bool, true, false, List, [], ◌∷◌, ◌++◌, Option, none, some, ◌==◌, Dict, lookup, contains,
  if◌then◌else◌, ◌||◌, ◌&&◌, not, map, is_some,
}
use tortureu.Base.Result.{Result, ok, err, ◌>>=◌}
use tortureu.Base.Text.{concat, has_prefix}
use tortureu.Base.Sort.{sort_strings}
use tortureu.Compose.{Service, Build, service_at, sorted_names}
use tortureu.Detect.{
  System, Dep, ClientRef, Fact, fact_unknown, fact_true, fact_false, modules_unread,
  lang_undetermined,
}
use tortureu.Detect.Clients.{
  ClientPattern, lockfile_only, aws_sdk_imports, azure_sdk_imports, otel_client_imports,
}
use tortureu.Detect.Directory.{ManifestInfo, Directory, read_manifest}

unfoldable pub has_import_prefix : String → List String → Bool
unfolding has_prefix
has_import_prefix imp [] = false
has_import_prefix imp (p ∷ ps) = if has_prefix imp p then true else has_import_prefix imp ps

-- a map of slices: a missing language has none
abbrev pub imports_of : Dict (List String) → String → List String
imports_of table lang = elim (lookup lang table) [ none ↦ [] | some xs ↦ xs ]

abbrev with_client : String → String → Dep → Dep
with_client imp service d = record d {
  clients = d.clients ++ (imp ∷ []);
  client_refs = d.client_refs ++ (record { import_path = imp; service = service } ∷ []);
}

abbrev lockfile_dep : String → String → String → Dep
lockfile_dep typ imp service = record {
  name = typ;
  typ = typ;
  address = "";
  clients = imp ∷ [];
  client_refs = record { import_path = imp; service = service } ∷ [];
}

-- attachClient on the list of dependencies
unfoldable pub attach_client : String → String → String → List Dep → List Dep
unfolding lockfile_only
attach_client typ imp service [] =
    if contains lockfile_only typ then lockfile_dep typ imp service ∷ [] else []
attach_client typ imp service (d ∷ deps) =
    let rest = attach_client typ imp service deps in
    if d.typ == typ then with_client imp service d ∷ deps else d ∷ rest

unfoldable pub match_client : List ClientPattern → String → String → List Dep → List Dep
unfolding has_import_prefix attach_client
match_client [] imp service deps = deps
match_client (p ∷ ps) imp service deps =
    match_client ps imp service
      (if has_import_prefix imp p.imports then attach_client p.typ imp service deps else deps)

unfoldable pub apply_import : ManifestInfo → String → String → System → System
unfolding match_client has_import_prefix aws_sdk_imports azure_sdk_imports otel_client_imports
apply_import info service imp sys = record sys {
  deps = match_client info.client_table imp service sys.deps;
  aws_client_seen =
      has_import_prefix imp (imports_of aws_sdk_imports info.lang) || sys.aws_client_seen;
  azure_client_seen =
      has_import_prefix imp (imports_of azure_sdk_imports info.lang) || sys.azure_client_seen;
  otel_client_seen =
      has_import_prefix imp (imports_of otel_client_imports info.lang) || sys.otel_client_seen;
}

unfoldable pub apply_imports : ManifestInfo → String → List String → System → System
unfolding apply_import
apply_imports info service [] sys = sys
apply_imports info service (imp ∷ imps) sys =
    apply_imports info service imps (apply_import info service imp sys)

abbrev pub has_unread : ManifestInfo → Bool
has_unread info = elim info.unread [ [] ↦ false | m ∷ ms ↦ true ]

unfoldable pub apply_manifest_facts : ManifestInfo → String → System → System
unfolding apply_imports
apply_manifest_facts info service sys =
    apply_imports info service info.imports
      (record sys { manifest_unread = has_unread info || sys.manifest_unread })

-- the gap of a manifest that could be followed only in part
abbrev pub note_unread : ManifestInfo → String → String → System → System
note_unread info service dir sys =
    if has_unread info
    then record sys { gaps = sys.gaps ++ (modules_unread info.file service dir info.unread ∷ []) }
    else sys

abbrev pub apply_root : ManifestInfo → String → String → System → System
apply_root info service dir sys =
    note_unread info "" dir (apply_manifest_facts info service (record sys { lang = info.lang }))

-- the languages found: the system under test's, and the others
abbrev pub Langs : Type 0
Langs = String × List String

abbrev pub note_lang : Bool → String → Langs → Langs
note_lang true lang (sut, others) = (lang, others)
note_lang false lang (sut, others) =
    (sut, if contains others lang then others else others ++ (lang ∷ []))

abbrev pub apply_service : String → String → ManifestInfo → Langs × System → Langs × System
apply_service name dir info (langs, sys) = if info.lang == "" then (langs, sys) else (
  note_lang (name == sys.sut) info.lang langs,
  note_unread info name dir (apply_manifest_facts info name sys),
)

-- the directory of a service that is built outside the root
abbrev pub build_dir : (String → String) → String → Service → Option String
build_dir clean root svc = elim svc.build [
  | none ↦ none
  | some b ↦ if b.context == "" || (clean b.context == root) then none else some (clean b.context)
]

abbrev pub without_sut_lang : List String → System → System
without_sut_lang [] sys = sys
without_sut_lang (l ∷ []) sys = record sys { lang = l }
without_sut_lang (l ∷ m ∷ ls) sys = record sys {
  gaps = sys.gaps ++ (lang_undetermined sys.sut (sort_strings (l ∷ m ∷ ls)) ∷ []);
}

unfoldable pub resolve_lang : Langs → System → System
resolve_lang (sut, others) sys =
    if not (sys.lang == "")
    then sys
    else if not (sut == "")
    then record sys { lang = sut }
    else without_sut_lang others sys

-- what the file system holds, by directory, and filepath.Clean
module _ (files : String → Directory) (clean : String → String) where
  unfoldable pub detect_lockfiles : String → String → System → Result String System
  unfolding read_manifest apply_manifest_facts
  detect_lockfiles dir service sys =
      read_manifest (files dir) >>= (λ info. ok (apply_root info service dir sys))

  -- the loop over the sorted names
  unfoldable pub read_services :
      Dict Service → String → List String → Langs × System → Result String (Langs × System)
  unfolding read_manifest apply_manifest_facts
  read_services services root [] state = ok state
  read_services services root (name ∷ names) state =
      elim (build_dir clean root (service_at services name)) [
        | none ↦ read_services services root names state
        | some dir ↦
            read_manifest (files dir)
            >>= (λ info. read_services services root names (apply_service name dir info state))
      ]

  unfoldable pub detect_service_manifests : Dict Service → String → System → Result String System
  unfolding read_services resolve_lang
  detect_service_manifests services root sys =
      read_services services (clean root) (sorted_names services) (("", []), sys)
      >>= (λ state. ok (resolve_lang state.0 state.1))

-- the first service, by name, that is built from the directory
unfoldable pub service_for_dir : (String → String) → Dict Service → String → List String → String
service_for_dir clean services dir [] = ""
service_for_dir clean services dir (name ∷ names) =
    let rest = service_for_dir clean services dir names in
    elim (service_at services name).build [
      | none ↦ rest
      | some b ↦ if not (b.context == "") && (clean b.context == clean dir) then name else rest
    ]

unfoldable pub manifest_fact : System → Bool → Fact
manifest_fact sys seen =
    if seen then fact_true else if sys.manifest_unread then fact_unknown else fact_false

unfoldable pub finalize_manifest_facts : System → System
unfolding manifest_fact
finalize_manifest_facts sys = record sys {
  coverage = record sys.coverage {
    aws = manifest_fact sys sys.aws_client_seen;
    azure = manifest_fact sys sys.azure_client_seen;
  };
}
