-- ===== src/Detect/Manifests/Facts.antt =====
-- What the manifests of a repository settle, and what they leave alone.
use tortureu.Base.{
  String, Bool, false, List, [], ◌∷◌, none, some, ◌==◌, ◌≡◌, refl, arith, Dict, if◌then◌else◌, ◌||◌,
  Bool-cases, Option-cases, if_elim, inl, inr, ◌∙◌, not,
}
use tortureu.Base.Result.{ok, err, >>=-eq-ok, Result-cases}
use tortureu.Compose.{Service, service_at, sorted_names}
use tortureu.Detect.{System}
use tortureu.Detect.Clients.{aws_sdk_imports, azure_sdk_imports, otel_client_imports}
use tortureu.Detect.Manifests.{
  has_import_prefix, imports_of, has_unread, apply_import, apply_imports, apply_manifest_facts,
  note_unread, build_dir, read_services, resolve_lang, without_sut_lang, detect_lockfiles,
  detect_service_manifests, Langs, note_lang,
}
use tortureu.Detect.Directory.{ManifestInfo, Directory, read_manifest}

-- whether an import of the manifest starts like one of its language
abbrev pub declares : Dict (List String) → String → List String → Bool
declares table lang [] = false
declares table lang (imp ∷ imps) =
    has_import_prefix imp (imports_of table lang) || declares table lang imps

abbrev pub any_declares : Dict (List String) → List ManifestInfo → Bool
any_declares table [] = false
any_declares table (i ∷ is) = declares table i.lang i.imports || any_declares table is

abbrev pub any_unread : List ManifestInfo → Bool
any_unread [] = false
any_unread (i ∷ is) = has_unread i || any_unread is

-- The evidence of a description is that of an earlier one and of the manifests read since; the hosts and
-- their classes are as they were.
abbrev pub Adds : List ManifestInfo → System → System → Type 0
Adds infos before after =
    (after.aws_client_seen ≡ (any_declares aws_sdk_imports infos || before.aws_client_seen))
    × (after.azure_client_seen ≡ (any_declares azure_sdk_imports infos || before.azure_client_seen))
    × (after.otel_client_seen ≡ (any_declares otel_client_imports infos || before.otel_client_seen))
    × (after.manifest_unread ≡ (any_unread infos || before.manifest_unread))
    × (after.otel_collector_seen ≡ before.otel_collector_seen)
    × (after.egress ≡ before.egress)
    × (after.egress_class ≡ before.egress_class)

-- the loop over one manifest's imports
apply_imports-seen :
    (info : ManifestInfo) (service : String) (imps : List String) (sys : System)
    → let s = apply_imports info service imps sys in
      (s.aws_client_seen ≡ (declares aws_sdk_imports info.lang imps || sys.aws_client_seen))
      × (s.azure_client_seen ≡ (declares azure_sdk_imports info.lang imps || sys.azure_client_seen))
      × (s.otel_client_seen ≡ (declares otel_client_imports info.lang imps || sys.otel_client_seen))
unfolding apply_imports apply_import
apply_imports-seen info service [] sys = (refl, refl, refl)
apply_imports-seen info service (imp ∷ imps) sys =
    let (a, z, o) = apply_imports-seen info service imps (apply_import info service imp sys) in
    (ground arith, ground arith, ground arith)

apply_imports-kept :
    (info : ManifestInfo) (service : String) (imps : List String) (sys : System)
    → let s = apply_imports info service imps sys in
      (s.manifest_unread ≡ sys.manifest_unread)
      × (s.otel_collector_seen ≡ sys.otel_collector_seen)
      × (s.egress ≡ sys.egress)
      × (s.egress_class ≡ sys.egress_class)
      × (s.lang ≡ sys.lang)
unfolding apply_imports apply_import
apply_imports-kept info service [] sys = (refl, refl, refl, refl, refl)
apply_imports-kept info service (imp ∷ imps) sys =
    apply_imports-kept info service imps (apply_import info service imp sys)

apply_manifest_facts-Adds :
    (info : ManifestInfo) (service : String) (sys : System)
    → Adds (info ∷ []) sys (apply_manifest_facts info service sys)
unfolding apply_manifest_facts
apply_manifest_facts-Adds info service sys =
    let marked = record sys { manifest_unread = has_unread info || sys.manifest_unread } in
    let (a, z, o) = apply_imports-seen info service info.imports marked in
    let (u, c, h, k, l) = apply_imports-kept info service info.imports marked in
    (ground arith, ground arith, ground arith, ground arith, c, h, k)

Adds-cons :
    (info : ManifestInfo) (infos : List ManifestInfo) (r s t : System)
    → Adds (info ∷ []) r s
    → Adds infos s t
    → Adds (info ∷ infos) r t
Adds-cons info infos r s t (a, z, o, u, c, h, k) (a', z', o', u', c', h', k') =
    (ground arith, ground arith, ground arith, ground arith, c' ∙ c, h' ∙ h, k' ∙ k)

note_unread-Adds :
    (infos : List ManifestInfo) (info : ManifestInfo) (service dir : String) (r s : System)
    → Adds infos r s
    → Adds infos r (note_unread info service dir s)
note_unread-Adds infos info service dir r s a = elim (Bool-cases (has_unread info)) [
  | inl e ↦ rw e a
  | inr e ↦ rw e a
]

without_sut_lang-Adds :
    (infos : List ManifestInfo) (others : List String) (r s : System)
    → Adds infos r s
    → Adds infos r (without_sut_lang others s)
without_sut_lang-Adds infos [] r s a = a
without_sut_lang-Adds infos (l ∷ []) r s a = a
without_sut_lang-Adds infos (l ∷ m ∷ ls) r s a = a

resolve_lang-Adds :
    (infos : List ManifestInfo) (sut : String) (others : List String) (r s : System)
    → Adds infos r s
    → Adds infos r (resolve_lang (sut, others) s)
unfolding resolve_lang
resolve_lang-Adds infos sut others r s a =
    if_elim (Adds infos r) (not (s.lang == "")) a
      (if_elim (Adds infos r) (not (sut == "")) a (without_sut_lang-Adds infos others r s a))

module _ (files : String → Directory) (clean : String → String) where
  -- the manifests that the loop over the services reads, with those that are there
  abbrev pub infos_read : Dict Service → String → List String → List ManifestInfo
  infos_read services root [] = []
  infos_read services root (name ∷ names) =
      let rest = infos_read services root names in
      elim (build_dir clean root (service_at services name)) [
        | none ↦ rest
        | some dir ↦ elim (read_manifest (files dir)) [
          | err e ↦ []
          | ok info ↦ if info.lang == "" then rest else info ∷ rest
        ]
      ]

  read_services-Adds :
      (services : Dict Service) (root : String) (names : List String) (langs : Langs) (r : System)
      (state : Langs × System)
      → read_services files clean services root names (langs, r) ≡ ok state
      → Adds (infos_read services root names) r state.1
  unfolding read_services
  read_services-Adds services root [] langs r state e =
      let same : state ≡ (langs, r) = cc in rw same (refl, refl, refl, refl, refl, refl, refl)
  read_services-Adds services root (name ∷ names) langs r state e =
      elim (Option-cases (build_dir clean root (service_at services name))) [
        | inl b ↦
            rw (b, infos_read) (read_services-Adds services root names langs r state (ground arith))
        | inr (dir, b) ↦ elim (Result-cases (read_manifest (files dir))) [
          | inr (x, m) ↦ absurd (ground arith)
          | inl (info, m) ↦ elim (Bool-cases (info.lang == "")) [
            | inl l ↦
                rw (b, m, l, infos_read)
                  (read_services-Adds services root names langs r state (ground arith))
            | inr l ↦
                let facts = apply_manifest_facts info name r in
                let next = note_unread info name dir facts in
                let one =
                  note_unread-Adds (info ∷ []) info name dir r facts
                    (apply_manifest_facts-Adds info name r) in
                let rest =
                  read_services-Adds services root names (note_lang (name == r.sut) info.lang langs)
                    next state (ground arith) in
                rw (b, m, l, infos_read)
                  (Adds-cons info (infos_read services root names) r next state.1 one rest)
          ]
        ]
      ]

  -- every manifest that may be read: the root's, then the services'
  abbrev pub all_infos : Dict Service → String → List ManifestInfo
  all_infos services dir = elim (read_manifest (files dir)) [
    | err e ↦ []
    | ok info ↦ info ∷ infos_read services (clean dir) (sorted_names services)
  ]

  detect_service_manifests-Adds :
      (services : Dict Service) (dir : String) (r s : System)
      → detect_service_manifests files clean services dir r ≡ ok s
      → Adds (infos_read services (clean dir) (sorted_names services)) r s
  unfolding detect_service_manifests
  detect_service_manifests-Adds services dir r s e =
      let names = sorted_names services in
      let (state, h, k) =
        >>=-eq-ok (read_services files clean services (clean dir) names (("", []), r)) _ e in
      let same : s ≡ resolve_lang state.0 state.1 = cc in
      rw same (
        resolve_lang-Adds (infos_read services (clean dir) names) state.0.0 state.0.1 r state.1
          (read_services-Adds services (clean dir) names ("", []) r state h))

  -- both passes over the manifests
  pub manifests-Adds :
      (services : Dict Service) (dir owner : String) (r s t : System)
      → detect_lockfiles files clean dir owner r ≡ ok s
      → detect_service_manifests files clean services dir s ≡ ok t
      → Adds (all_infos services dir) r t
  unfolding detect_lockfiles
  manifests-Adds services dir owner r s t e f =
      let (info, m, k) = >>=-eq-ok (read_manifest (files dir)) _ e in
      let named = record r { lang = info.lang } in
      let facts = apply_manifest_facts info owner named in
      let same : s ≡ note_unread info "" dir facts = cc in
      let one : Adds (info ∷ []) r s = rw same (
        note_unread-Adds (info ∷ []) info "" dir named facts
          (apply_manifest_facts-Adds info owner named)) in
      rw (m, all_infos)
        (Adds-cons info (infos_read services (clean dir) (sorted_names services)) r s t one
          (detect_service_manifests-Adds services dir s t f))
